-- ===== src/At24/Stores.antt =====
-- What reads and writes of 22_i2c_at24.c do to the chip: `IsEeprom` of Chip.antt.
use yocto_meta_hsiao.Base.{
  ℕ, ◌+◌, ◌-◌, ◌*◌, ◌^◌, ◌≤◌, ◌<◌, ◌≡◌, refl, ap, ◌∙◌, inl, inr, min, true, false, some, List, [],
  ◌∷◌, length, take, drop, pos, ◌+ℤ◌, leb_ℤ, to_u64, ◌||◌, Bool-cases, is_neg, arith,
}
use yocto_meta_hsiao.At24.{
  At24Data, Kernel, World, Call, copy_to_user, eeprom_size, page_size, clip, read_msgs, read_locked,
  chunk_addr, at24_eeprom_read,
}
use yocto_meta_hsiao.At24.Chip.{range, IsEeprom}

-- The sizes that `at24_probe` sets.
pub record IsAt24 (p : At24Data) : Type 0 where
  pub size_eq : p.size ≡ eeprom_size
  pub page_eq : p.page_size ≡ page_size

-- The user's buffer is readable and holds `xs`.
abbrev pub CopiesFrom : {S : Type 0} → Kernel S → List ℕ → Type 0
CopiesFrom k xs = (i n : ℕ) → i + n ≤ length xs → k.copy_in i n ≡ some (take n (drop i xs))

-- On the chip the clipping cuts the count down to the bytes that are left.
pub clip_lem :
    (p : At24Data) (o count : ℕ)
    → IsAt24 p
    → o < eeprom_size
    → count < 2 ^ 63
    → clip p (pos o) count ≡ min count (eeprom_size - o)
unfolding clip
clip_lem p o count i h c = ground arith

chunk_addr_at :
    {S : Type 0} (w : World S) (o total : ℕ)
    → w.offset ≡ pos (o + total)
    → o + 2 * total < 2 ^ 64
    → chunk_addr w total ≡ o + 2 * total
chunk_addr_at w o total e h = rw e (omega arith)

-- The bytes that the last read gave to the user.
abbrev pub delivered : List Call → List ℕ
delivered (c ∷ copy_to_user bytes ∷ log) = bytes
delivered _ = []

-- A read that passes the guards is its locked part.
pub read-eq-read_locked :
    {S : Type 0} (k : Kernel S) (p : At24Data) (o n count : ℕ) (w : World S)
    → w.offset ≡ pos o
    → o < p.size
    → clip p w.offset count ≡ n
    → k.allocates n ≡ true
    → at24_eeprom_read k p count w ≡ read_locked k p n w
unfolding at24_eeprom_read
read-eq-read_locked k p o n count w e h c mem =
    rw (c, mem)
      (elim (Bool-cases (is_neg w.offset || leb_ℤ (pos p.size) w.offset)) [
        | inl out ↦ absurd (ground arith)
        | inr in_range ↦ rw in_range
      ])

-- The locked part, where the transfer and the copy succeed.
pub read_locked_lem :
    {S : Type 0} (k : Kernel S) (p : At24Data) (a n : ℕ) (w : World S)
    → w.offset ≡ pos a
    → a < 2 ^ 64
    → let (bus', ret, bytes) = k.transfer w.bus (read_msgs p.addr a n) in
      is_neg ret ≡ false
      → k.copy_out_fails bytes ≡ false
      → let (ret', w') = read_locked k p n w in
        (ret' ≡ pos n) × (w'.offset ≡ pos (a + n)) × (delivered w'.log ≡ bytes) × (w'.bus ≡ bus')
unfolding read_locked
read_locked_lem k p a n w e h good out =
    let on_wire : to_u64 w.offset ≡ a = ground arith in
    rw (on_wire, good, out) (refl, ap (λ t. t +ℤ pos n) e ∙ (ground arith), refl, refl)

-- The locked part, where the transfer fails.
pub read_locked_bad :
    {S : Type 0} (k : Kernel S) (p : At24Data) (a n : ℕ) (w : World S)
    → w.offset ≡ pos a
    → a < 2 ^ 64
    → let (bus', ret, bytes) = k.transfer w.bus (read_msgs p.addr a n) in
      is_neg ret ≡ true
      → let (ret', w') = read_locked k p n w in
        (is_neg ret' ≡ true) × (w'.offset ≡ w.offset) × (delivered w'.log ≡ []) × (w'.bus ≡ bus')
unfolding read_locked
read_locked_bad k p a n w e h bad =
    let on_wire : to_u64 w.offset ≡ a = ground arith in rw (on_wire, bad) (bad, refl, refl, refl)

module _ {S : Type 0} (k : Kernel S) (cell : S → ℕ → ℕ) (chip : IsEeprom k cell) (p : At24Data)
    (i : IsAt24 p) where
  -- With the chip of 32768 cells behind a bus without errors, its buffer granted and user memory
  -- that can be written: a read of at least one and fewer than 2 ^ 63 bytes from a position on the
  -- chip returns as many bytes as asked for and left, moves the position past them, gives the user
  -- the cells from the position on, and leaves the cells as they were.
  pub read_lem :
      (o count : ℕ) (w : World S)
      → w.offset ≡ pos o
      → o < eeprom_size
      → 0 < count
      → count < 2 ^ 63
      → k.allocates (min count (eeprom_size - o)) ≡ true
      → ((bytes : List ℕ) → k.copy_out_fails bytes ≡ false)
      → let n = min count (eeprom_size - o) in
        let (ret, w') = at24_eeprom_read k p count w in
        (ret ≡ pos n)
        × (w'.offset ≡ pos (o + n))
        × (delivered w'.log ≡ range (cell w.bus) o n)
        × ((j : ℕ) → cell w'.bus j ≡ cell w.bus j)
  read_lem o count w e h pos_count small mem out =
      let n = min count (eeprom_size - o) in
      let seen = chip.reads w.bus p.addr o n (omega arith) (omega arith) in
      let whole =
        read-eq-read_locked k p o n count w e (omega (arith, i.size_eq))
          (ap (λ t. clip p t count) e ∙ clip_lem p o count i h small) mem in
      let got = read_locked_lem k p o n w e (omega arith) seen.0 (out _) in
      rw whole (got.0, got.1, got.2 ∙ seen.1, λ j. ap (λ s. cell s j) got.3 ∙ seen.2 j)

-- ===== src/At24/Writes.antt =====
-- What `at24_eeprom_write` of 22_i2c_at24.c stores on the chip. Each round advances both `*offset`
-- and `total_written`, and addresses the chip by their sum, so the round that starts when `t` bytes
-- are written goes to the address `2 * t` above the first.
use yocto_meta_hsiao.Base.{
  ℕ, ◌+◌, ◌-◌, ◌*◌, ◌%◌, ◌≤◌, ◌<◌, ◌≡◌, refl, sym, ap, fun_ext, ◌∙◌, ◌⊎◌, inl, inr, min, true,
  false, none, some, List, length, take, drop, take_all, length-take, length-drop, ℤ, pos, ◌+ℤ◌,
  is_neg, leb_ℤ, arith,
}
use yocto_meta_hsiao.At24.{
  At24Data, Kernel, World, eeprom_size, page_size, clip, chunk_addr, chunk_len, at24_eeprom_write,
  send_chunk,
}
use yocto_meta_hsiao.At24.Loop.{
  Returns, LoopRule, send_chunk_good, send_chunk_transfer, chunk_len_bounds,
  at24_eeprom_write-Returns,
}
use yocto_meta_hsiao.At24.Chip.{store, IsEeprom}
use yocto_meta_hsiao.At24.Stores.{IsAt24, CopiesFrom, clip_lem}

pub chunk_addr_at :
    {S : Type 0} (w : World S) (o total : ℕ)
    → w.offset ≡ pos (o + total)
    → o + 2 * total < eeprom_size
    → chunk_addr w total ≡ o + 2 * total
chunk_addr_at w o total e h = rw e (omega arith)

pub chunk_len_at :
    {S : Type 0} (p : At24Data) (count : ℕ) (w : World S) (o total : ℕ)
    → IsAt24 p
    → w.offset ≡ pos (o + total)
    → o + 2 * total < eeprom_size
    → chunk_len p count w total ≡ min (64 - (o + 2 * total) % 64) (count - total)
chunk_len_at p count w o total i e h = rw (i.page_eq, chunk_addr_at w o total e h)

pub pos_add : (a b c : ℕ) → pos (a + b) +ℤ pos c ≡ pos (a + (b + c))
pos_add a b c = ground arith

pub copied :
    {S : Type 0} (k : Kernel S) (xs : List ℕ) (i n : ℕ) (bytes : List ℕ)
    → CopiesFrom k xs
    → i + n ≤ length xs
    → k.copy_in i n ≡ some bytes
    → (bytes ≡ take n (drop i xs)) × (length bytes ≡ n)
copied k xs i n bytes copies h e =
    let is_taken : bytes ≡ take n (drop i xs) = cc (copies i n h) in
    (is_taken, rw is_taken (omega (arith, length-take n (drop i xs), length-drop i xs)))

module _ {S : Type 0} (k : Kernel S) (cell : S → ℕ → ℕ) (chip : IsEeprom k cell) (p : At24Data)
    (i : IsAt24 p) (o : ℕ) (xs : List ℕ) (copies : CopiesFrom k xs) where
  -- One round: it cannot fail, moves the position, and stores its bytes.
  pub round_stores :
      (total : ℕ) (bytes : List ℕ) (w : World S)
      → w.offset ≡ pos (o + total)
      → total < length xs
      → o + 2 * total < eeprom_size
      → k.copy_in total (chunk_len p (length xs) w total) ≡ some bytes
      → let n = chunk_len p (length xs) w total in
        let (ret, w') = send_chunk k p total n bytes w in
        (is_neg ret ≡ false)
        × (w'.offset ≡ pos (o + (total + n)))
        × (bytes ≡ take n (drop total xs))
        × (n ≡ min (64 - (o + 2 * total) % 64) (length xs - total))
        × ((j : ℕ) → cell w'.bus j ≡ store (o + 2 * total) bytes (cell w.bus) j)
        × (length bytes ≡ n)
  round_stores total bytes w e lt h c =
      let n = chunk_len p (length xs) w total in
      let n_eq = chunk_len_at p (length xs) w o total i e h in
      let a_eq = chunk_addr_at w o total e h in
      let got = copied k xs total n bytes copies (omega (arith, n_eq)) c in
      let wrote =
        chip.writes w.bus p.addr (chunk_addr w total) n bytes (omega (arith, a_eq)) (sym got.1)
          (omega (arith, n_eq)) (omega (arith, a_eq, n_eq)) in
      let sent = send_chunk_transfer k p total n bytes w in
      let good = ap is_neg sent.0 ∙ wrote.0 in
      (
        good,
        (send_chunk_good k p total n bytes w good).0 ∙ (ap (λ t. t +ℤ pos n) e ∙ pos_add o total n),
        got.0,
        n_eq,
        λ j. ap (λ s. cell s j) sent.1 ∙ (wrote.1 j ∙ ap (λ a. store a bytes (cell w.bus) j) a_eq),
        got.1,
      )

  abbrev OnePage : (ℕ → ℕ) → ℕ → World S → Type 0
  OnePage before total w =
      (w.offset ≡ pos (o + total))
      × (((total ≡ 0) × ((j : ℕ) → cell w.bus j ≡ before j))
          ⊎ ((total ≡ length xs) × ((j : ℕ) → cell w.bus j ≡ store o xs before j)))

  -- How a write ends that stores all its bytes.
  abbrev pub Stored : (ℕ → ℕ) → ℤ → World S → Type 0
  Stored before ret w' =
      (ret ≡ pos (length xs))
      × (w'.offset ≡ pos (o + length xs))
      × ((j : ℕ) → cell w'.bus j ≡ store o xs before j)

  first_round :
      (before f f' : ℕ → ℕ) (bytes : List ℕ) (total n : ℕ)
      → o % page_size + length xs ≤ page_size
      → total ≡ 0
      → bytes ≡ take n (drop total xs)
      → n ≡ min (64 - (o + 2 * total) % 64) (length xs - total)
      → ((j : ℕ) → f j ≡ before j)
      → ((j : ℕ) → f' j ≡ store (o + 2 * total) bytes f j)
      → (total + n ≡ length xs) × ((j : ℕ) → f' j ≡ store o xs before j)
  first_round before f f' bytes total n fits z b n_eq same wrote =
      let whole : bytes ≡ xs = b ∙ rw z (take_all n xs (omega arith)) in
      let start : o + 2 * total ≡ o = omega arith in
      (omega arith, λ j. wrote j ∙ rw (whole, start, fun_ext same))

  pub no_fault :
      (total : ℕ) (w : World S)
      → total < length xs
      → k.copy_in total (chunk_len p (length xs) w total) ≡ none
      → ⊥
  no_fault total w lt c =
      let bounds = chunk_len_bounds k p (length xs) total w (omega (arith, i.page_eq)) lt in
      cc (copies total (chunk_len p (length xs) w total) bounds.1)

  OnePage-rule :
      (before : ℕ → ℕ)
      → o < eeprom_size
      → 0 < length xs
      → o % page_size + length xs ≤ page_size
      → LoopRule k p (length xs) (OnePage before) (Stored before)
  OnePage-rule before h some_bytes fits = record {
    done = λ total w inv e. elim (inv.1) [
      | inl (z, same) ↦ absurd (omega arith)
      | inr (z, stored) ↦ (ap pos z, inv.0 ∙ ap (λ t. pos (o + t)) z, stored)
    ];
    fault = λ total w inv lt c. absurd (no_fault total w lt c);
    bus_error = λ total bytes w inv lt c bad. elim (inv.1) [
      | inl (z, same) ↦ absurd (cc (round_stores total bytes w inv.0 lt (omega arith) c).0)
      | inr (z, stored) ↦ absurd (omega arith)
    ];
    next = λ total bytes w inv lt c good. elim (inv.1) [
      | inl (z, same) ↦
          let r = round_stores total bytes w inv.0 lt (omega arith) c in
          (r.1, inr (first_round before (cell w.bus) _ bytes total _ fits z r.2 r.3 same r.4))
      | inr (z, stored) ↦ absurd (omega arith)
    ];
  }

  pub not_too_big :
      (w : World S) → w.offset ≡ pos o → o < eeprom_size → leb_ℤ (pos p.size) w.offset ≡ true → ⊥
  not_too_big w e h big = ground (arith, i.size_eq)

  pub granted : k.allocates (2 + page_size) ≡ true → k.allocates (2 + p.page_size) ≡ false → ⊥
  granted mem short = cc (i.page_eq)

  -- With the chip of 32768 cells and 64-byte pages behind a bus without errors, its buffer
  -- granted: a write of at least one byte that stays within a page, from a position on the chip
  -- and user memory that can be read, returns the number of bytes, moves the position past them,
  -- and stores them, all other cells left as they were.
  pub write_stores :
      (w : World S)
      → w.offset ≡ pos o
      → o < eeprom_size
      → 0 < length xs
      → o % page_size + length xs ≤ page_size
      → k.allocates (2 + page_size) ≡ true
      → Returns (Stored (cell w.bus)) (at24_eeprom_write k p (length xs) w)
  write_stores w e h some_bytes fits mem =
      at24_eeprom_write-Returns k p (length xs) (OnePage-rule (cell w.bus) h some_bytes fits)
        (length xs) w (omega (arith, i.page_eq))
        (ap (λ t. clip p t (length xs)) e
          ∙ (clip_lem p o (length xs) i h (omega arith) ∙ (omega arith)))
        (λ big. absurd (not_too_big w e h big)) (λ short. absurd (granted mem short))
        (e ∙ ap pos (omega arith), inl (refl, λ j. refl))

-- ===== src/At24/Nacks.antt =====
-- Reads, and writes within a page, of 22_i2c_at24.c where transfers may fail: `MayNack` of Chip.antt.
use yocto_meta_hsiao.Base.{
  ℕ, ◌+◌, ◌-◌, ◌%◌, ◌^◌, ◌≤◌, ◌<◌, ◌≡◌, refl, sym, ap, ◌∙◌, ◌⊎◌, inl, inr, min, true, false, none,
  some, List, [], length, take, drop, take_all, ℤ, pos, ◌+ℤ◌, is_neg, fun_ext, Bool-cases, arith,
}
use yocto_meta_hsiao.At24.{
  At24Data, Kernel, World, eeprom_size, page_size, clip, chunk_addr, chunk_len, read_msgs,
  at24_eeprom_read, at24_eeprom_write, send_chunk,
}
use yocto_meta_hsiao.At24.Loop.{
  Returns, LoopRule, send_chunk_good, send_chunk_bad, send_chunk_transfer, chunk_len_bounds,
  at24_eeprom_write-Returns,
}
use yocto_meta_hsiao.At24.Chip.{store, range, MayNack}
use yocto_meta_hsiao.At24.Stores.{
  IsAt24, CopiesFrom, clip_lem, delivered, read-eq-read_locked, read_locked_lem, read_locked_bad,
}
use yocto_meta_hsiao.At24.Writes.{chunk_addr_at, chunk_len_at, copied}

module _ {S : Type 0} (k : Kernel S) (cell : S → ℕ → ℕ) (chip : MayNack k cell) (p : At24Data)
    (i : IsAt24 p) (o : ℕ) where
  -- How a read ends: with the cells that are there up to the chip's end, or with an error and
  -- nothing read.
  abbrev pub ReadEnds : (count : ℕ) → World S → ℤ → World S → Type 0
  ReadEnds count w ret w' =
      let n = min count (eeprom_size - o) in
      ((ret ≡ pos n) × (w'.offset ≡ pos (o + n)) × (delivered w'.log ≡ range (cell w.bus) o n))
      ⊎ ((is_neg ret ≡ true) × (w'.offset ≡ w.offset) × (delivered w'.log ≡ []))

  -- A read of some bytes from a position on the chip ends so, and leaves the cells as they were.
  pub read_nack :
      (count : ℕ) (w : World S)
      → w.offset ≡ pos o
      → o < eeprom_size
      → 0 < count
      → count < 2 ^ 63
      → k.allocates (min count (eeprom_size - o)) ≡ true
      → ((bytes : List ℕ) → k.copy_out_fails bytes ≡ false)
      → let (ret, w') = at24_eeprom_read k p count w in
        ReadEnds count w ret w' × ((j : ℕ) → cell w'.bus j ≡ cell w.bus j)
  read_nack count w e h positive small mem out =
      let n = min count (eeprom_size - o) in
      let seen = chip.reads w.bus p.addr o n (omega arith) (omega arith) in
      let whole =
        read-eq-read_locked k p o n count w e (omega (arith, i.size_eq))
          (ap (λ t. clip p t count) e ∙ clip_lem p o count i h small) mem in
      rw whole (elim (Bool-cases (is_neg (k.transfer w.bus (read_msgs p.addr o n)).1)) [
        | inr good ↦
            let got = read_locked_lem k p o n w e (omega arith) good (out _) in
            (inl (got.0, got.1, got.2 ∙ seen.0 good), λ j. ap (λ s. cell s j) got.3 ∙ seen.1 j)
        | inl bad ↦
            let got = read_locked_bad k p o n w e (omega arith) bad in
            (inr (got.0, got.1, got.2), λ j. ap (λ s. cell s j) got.3 ∙ seen.1 j)
      ])

  module _ (xs : List ℕ) (copies : CopiesFrom k xs) (on_chip : o < eeprom_size)
      (some_bytes : 0 < length xs) (fits : o % page_size + length xs ≤ page_size) where
    -- How a write ends: with all its bytes stored, or with an error and none of them.
    abbrev pub WriteEnds : (ℕ → ℕ) → ℤ → World S → Type 0
    WriteEnds before ret w' =
        ((ret ≡ pos (length xs))
          × (w'.offset ≡ pos (o + length xs))
          × ((j : ℕ) → cell w'.bus j ≡ store o xs before j))
        ⊎ ((is_neg ret ≡ true) × (w'.offset ≡ pos o) × ((j : ℕ) → cell w'.bus j ≡ before j))

    -- The only round, before and after.
    abbrev OneRound : (ℕ → ℕ) → ℕ → World S → Type 0
    OneRound before total w =
        ((total ≡ 0) × (w.offset ≡ pos o) × ((j : ℕ) → cell w.bus j ≡ before j))
        ⊎ ((total ≡ length xs)
            × (w.offset ≡ pos (o + length xs))
            × ((j : ℕ) → cell w.bus j ≡ store o xs before j))

    -- What the round sends.
    sends_all :
        (total : ℕ) (bytes : List ℕ) (w : World S)
        → total ≡ 0
        → w.offset ≡ pos o
        → k.copy_in total (chunk_len p (length xs) w total) ≡ some bytes
        → (chunk_addr w total ≡ o) × (chunk_len p (length xs) w total ≡ length xs) × (bytes ≡ xs)
    sends_all total bytes w z e c =
        let at : w.offset ≡ pos (o + total) = e ∙ ap pos (omega arith) in
        let there : chunk_addr w total ≡ o =
          chunk_addr_at w o total at (omega arith) ∙ (omega arith) in
        let n_eq : chunk_len p (length xs) w total ≡ length xs =
          chunk_len_at p (length xs) w o total i at (omega arith) ∙ (omega arith) in
        let got =
          copied k xs total (chunk_len p (length xs) w total) bytes copies (omega arith) c in
        (
          there,
          n_eq,
          got.0
              ∙ (ap (λ m. take m (drop total xs)) n_eq
                  ∙ rw z (take_all (length xs) xs (omega arith))),
        )

    -- The round stores all the bytes, or none.
    round_nack :
        (before : ℕ → ℕ) (total : ℕ) (bytes : List ℕ) (w : World S)
        → total ≡ 0
        → w.offset ≡ pos o
        → ((j : ℕ) → cell w.bus j ≡ before j)
        → let n = chunk_len p (length xs) w total in
          let (ret, w') = send_chunk k p total n bytes w in
          k.copy_in total n ≡ some bytes
          → (is_neg ret ≡ false → OneRound before (total + n) w')
            × (is_neg ret ≡ true → WriteEnds before ret w')
    round_nack before total bytes w z e same c =
        let n = chunk_len p (length xs) w total in
        let (there, n_eq, all) = sends_all total bytes w z e c in
        let wrote =
          chip.writes w.bus p.addr (chunk_addr w total) n bytes (omega arith)
            (n_eq ∙ sym (ap (λ ys. length ys) all)) (omega arith) (omega arith) in
        let sent = send_chunk_transfer k p total n bytes w in
        (
          λ good. inr (
            omega arith,
            (send_chunk_good k p total n bytes w good).0
                ∙ (ap (λ t. t +ℤ pos n) e ∙ ap (λ m. pos o +ℤ pos m) n_eq ∙ (ground arith)),
            λ j.
                ap (λ s. cell s j) sent.1
                ∙ (wrote.0 (sym (ap is_neg sent.0) ∙ good) j
                    ∙ (ap (λ a. store a bytes (cell w.bus) j) there
                        ∙ (ap (λ ys. store o ys (cell w.bus) j) all
                            ∙ ap (λ f. store o xs f j) (fun_ext same)))),
          ),
          λ bad. inr (
            bad,
            (send_chunk_bad k p total n bytes w bad).0 ∙ e,
            λ j. ap (λ s. cell s j) sent.1 ∙ (wrote.1 (sym (ap is_neg sent.0) ∙ bad) j ∙ same j),
          ),
        )

    no_fault :
        (total : ℕ) (w : World S)
        → total < length xs
        → k.copy_in total (chunk_len p (length xs) w total) ≡ none
        → ⊥
    no_fault total w lt c =
        let bounds = chunk_len_bounds k p (length xs) total w (omega (arith, i.page_eq)) lt in
        cc (copies total (chunk_len p (length xs) w total) bounds.1)

    OneRound-rule : (before : ℕ → ℕ) → LoopRule k p (length xs) (OneRound before) (WriteEnds before)
    OneRound-rule before = record {
      done = λ total w inv e. elim inv [
        | inl (z, at, same) ↦ absurd (omega arith)
        | inr (z, at, stored) ↦ inl (ap pos z, at, stored)
      ];
      fault = λ total w inv lt c. absurd (no_fault total w lt c);
      bus_error = λ total bytes w inv lt c bad. elim inv [
        | inl (z, at, same) ↦ (round_nack before total bytes w z at same c).1 bad
        | inr (z, at, stored) ↦ absurd (omega arith)
      ];
      next = λ total bytes w inv lt c good. elim inv [
        | inl (z, at, same) ↦ (round_nack before total bytes w z at same c).0 good
        | inr (z, at, stored) ↦ absurd (omega arith)
      ];
    }

    -- A write of some bytes within a page ends so.
    pub write_nack :
        (w : World S)
        → w.offset ≡ pos o
        → k.allocates (2 + page_size) ≡ true
        → Returns (WriteEnds (cell w.bus)) (at24_eeprom_write k p (length xs) w)
    write_nack w e mem =
        at24_eeprom_write-Returns k p (length xs) (OneRound-rule (cell w.bus)) (length xs) w
          (omega (arith, i.page_eq))
          (ap (λ t. clip p t (length xs)) e
            ∙ (clip_lem p o (length xs) i on_chip (omega arith) ∙ (omega arith)))
          (λ big. absurd (ground (arith, i.size_eq))) (λ short. absurd (cc (i.page_eq)))
          (inl (refl, e, λ j. refl))

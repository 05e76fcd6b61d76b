-- ===== src/At24/Pages.antt =====
-- `at24_eeprom_write` of 22_i2c_at24.c on any bus: its result, its position, and its messages
-- against the pages of the chip.
use yocto_meta_hsiao.Base.{
  ℕ, ◌+◌, ◌-◌, ◌*◌, ◌/◌, ◌%◌, ◌^◌, suc, min, ◌≤◌, ◌<◌, ◌≡◌, refl, sym, ap, ◌∙◌, ◌⊎◌, inl, inr, true,
  some, List, [], ◌∷◌, length, All, ℤ, pos, ◌+ℤ◌, is_neg, arith,
}
use yocto_meta_hsiao.At24.{
  At24Data, Kernel, World, I2cMsg, Call, i2c_transfer, page_size, clip, chunk_addr, chunk_len,
  at24_eeprom_write,
}
use yocto_meta_hsiao.At24.Loop.{
  Returns, LoopRule, round_log, send_chunk_bad, send_chunk_good, chunk_len_bounds,
  at24_eeprom_write-Returns,
}

-- The bytes of a write message that hold an address and at least one byte of data, which all lie
-- in the page of that address.
abbrev pub WithinPage : List ℕ → Type 0
WithinPage (hi ∷ lo ∷ bytes) =
    (0 < length bytes) × ((hi * 256 + lo) % page_size + length bytes ≤ page_size)
WithinPage _ = ⊥

-- Of the calls that a write makes, the transfers respect the pages and state their length.
abbrev pub StaysInPage : Call → Type 0
StaysInPage (i2c_transfer ms) = All (λ (m : I2cMsg). WithinPage m.buf × (m.len ≡ length m.buf)) ms
StaysInPage _ = Unit {0}

-- `copy_from_user` copies as many bytes as it is asked for.
abbrev pub CopiesAll : {S : Type 0} → Kernel S → Type 0
CopiesAll k = (i n : ℕ) (bytes : List ℕ) → k.copy_in i n ≡ some bytes → length bytes ≡ n

within_page :
    (a left m n : ℕ)
    → 0 < left
    → m ≡ n
    → n ≡ min (64 - a % 64) left
    → ((0 < m) × ((a / 256 % 256 * 256 + a % 256) % 64 + m ≤ 64)) × ((2 + n) % 2 ^ 16 ≡ suc (suc m))
within_page a left m n h l e = ((omega arith, omega arith), omega arith)

+ℤ_pos_pos : (a : ℤ) (m n : ℕ) → a +ℤ pos m +ℤ pos n ≡ a +ℤ pos (m + n)
+ℤ_pos_pos a m n = ground arith

+ℤ_zero : (a : ℤ) → a +ℤ pos 0 ≡ a
+ℤ_zero a = ground arith

module _ {S : Type 0} (k : Kernel S) (p : At24Data) where
  -- How a write may end that was to write `n` bytes from the position `off`.
  abbrev pub Outcome : ℤ → ℕ → ℤ → World S → Type 0
  Outcome off n ret w' =
      (t : ℕ) × (t ≤ n)
      × (w'.offset ≡ off +ℤ pos t)
      × ((is_neg ret ≡ true) ⊎ ((ret ≡ pos t) × (t ≡ n)))

  -- The invariant of the loop: `total` bytes have been written.
  abbrev Moved : ℤ → ℕ → ℕ → World S → Type 0
  Moved off n total w = (total ≤ n) × (w.offset ≡ off +ℤ pos total)

  offset_rule : (off : ℤ) (n : ℕ) → 0 < p.page_size → LoopRule k p n (Moved off n) (Outcome off n)
  offset_rule off n h = record {
    done = λ total w inv e. (total, inv.0, inv.1, inr (refl, e));
    fault = λ total w inv lt c. (total, inv.0, inv.1, inl refl);
    bus_error = λ total bytes w inv lt e bad. (
      total,
      inv.0,
      (send_chunk_bad k p total (chunk_len p n w total) bytes w bad).0 ∙ inv.1,
      inl bad,
    );
    next = λ total bytes w inv lt e good. (
      (chunk_len_bounds k p n total w h lt).1,
      (send_chunk_good k p total (chunk_len p n w total) bytes w good).0
          ∙ (ap (λ o. o +ℤ pos (chunk_len p n w total)) inv.1
              ∙ +ℤ_pos_pos off total (chunk_len p n w total)),
    );
  }

  -- A write always returns. With a page size above 0, on any bus and any user memory, it either
  -- returns the number of bytes left after clipping, having moved the position by as many, or a
  -- negative error, having moved the position by no more than that.
  pub write-Outcome :
      (count : ℕ) (w : World S)
      → 0 < p.page_size
      → Returns (Outcome w.offset (clip p w.offset count)) (at24_eeprom_write k p count w)
  write-Outcome count w h =
      at24_eeprom_write-Returns k p (clip p w.offset count)
        (offset_rule w.offset (clip p w.offset count) h) count w h refl
        (λ _. (0, omega arith, sym (+ℤ_zero w.offset), inl refl))
        (λ _. (0, omega arith, sym (+ℤ_zero w.offset), inl refl))
        (omega arith, sym (+ℤ_zero w.offset))

  -- What a round sends stays in the page.
  round-StaysInPage :
      (n total : ℕ) (bytes : List ℕ) (w : World S)
      → p.page_size ≡ page_size
      → total < n
      → length bytes ≡ chunk_len p n w total
      → All StaysInPage w.log
      → All StaysInPage (round_log p total (chunk_len p n w total) bytes w)
  round-StaysInPage n total bytes w e lt len all = (tt, ((fits, tt), (tt, (tt, all))))
    where
      a : ℕ
      a = chunk_addr w total

      fits :
          ((0 < length bytes) × ((a / 256 % 256 * 256 + a % 256) % 64 + length bytes ≤ 64))
          × ((2 + chunk_len p n w total) % 2 ^ 16 ≡ suc (suc (length bytes)))
      fits =
          within_page a (n - total) _ _ (omega arith) len (ap (λ s. min (s - a % s) (n - total)) e)

  page_rule :
      (n : ℕ)
      → p.page_size ≡ page_size
      → CopiesAll k
      → LoopRule k p n (λ _ w. All StaysInPage w.log) (λ _ w. All StaysInPage w.log)
  page_rule n e copies = record {
    done = λ total w inv _. (tt, inv);
    fault = λ total w inv lt c. (tt, (tt, (tt, (tt, inv))));
    bus_error = λ total bytes w inv lt c bad.
        rw (send_chunk_bad k p total (chunk_len p n w total) bytes w bad).1
          (tt, round-StaysInPage n total bytes w e lt (copies _ _ _ c) inv);
    next = λ total bytes w inv lt c good.
        rw (send_chunk_good k p total (chunk_len p n w total) bytes w good).1
          (tt, round-StaysInPage n total bytes w e lt (copies _ _ _ c) inv);
  }

  -- On any bus, with the chip's page size and a `copy_from_user` that copies as many bytes as it
  -- is asked for, every message that a write sends holds data of one page only, and at least one
  -- byte of it, and states its own length; also when the write fails half way.
  pub write-StaysInPage :
      (count : ℕ) (w : World S)
      → p.page_size ≡ page_size
      → CopiesAll k
      → w.log ≡ []
      → Returns (λ _ w'. All StaysInPage w'.log) (at24_eeprom_write k p count w)
  write-StaysInPage count w e copies fresh =
      at24_eeprom_write-Returns k p (clip p w.offset count)
        (page_rule (clip p w.offset count) e copies) count w (omega arith) refl (λ _. none_sent)
        (λ _. none_sent) (tt, none_sent)
    where
      none_sent : All StaysInPage w.log
      none_sent = rw fresh tt

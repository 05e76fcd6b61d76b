-- ===== src/At24/Skips.antt =====
-- A write of 22_i2c_at24.c that crosses a page, where `*offset` and `total_written` both count the
-- bytes of the first round.
use yocto_meta_hsiao.Base.{
  ℕ, ◌+◌, ◌-◌, ◌*◌, ◌%◌, ◌≤◌, ◌<◌, ◌≡◌, refl, ap, ◌∙◌, ◌⊎◌, inl, inr, min, true, List, length, ℤ,
  pos, arith,
}
use yocto_meta_hsiao.At24.{At24Data, Kernel, World, eeprom_size, page_size, clip, at24_eeprom_write}
use yocto_meta_hsiao.At24.Loop.{Returns, LoopRule, at24_eeprom_write-Returns}
use yocto_meta_hsiao.At24.Chip.{store, store_below, store_above, IsEeprom}
use yocto_meta_hsiao.At24.Stores.{IsAt24, CopiesFrom, clip_lem}
use yocto_meta_hsiao.At24.Writes.{round_stores, no_fault, not_too_big, granted}

-- The bytes from the position `o` to the end of its page.
abbrev pub room : ℕ → ℕ
room o = page_size - o % page_size

module _ {S : Type 0} (k : Kernel S) (cell : S → ℕ → ℕ) (chip : IsEeprom k cell) (p : At24Data)
    (i : IsAt24 p) (o : ℕ) (xs : List ℕ) (copies : CopiesFrom k xs) where
  -- The cells of the second page that the first `room o` bytes of it belong to are as before.
  abbrev Gap : (ℕ → ℕ) → (ℕ → ℕ) → Type 0
  Gap before after = (j : ℕ) → o + room o ≤ j → j < o + 2 * room o → after j ≡ before j

  abbrev Skipping : (ℕ → ℕ) → ℕ → World S → Type 0
  Skipping before total w =
      (w.offset ≡ pos (o + total)) × ((total ≡ 0) ⊎ (room o ≤ total)) × Gap before (cell w.bus)

  -- How a write ends that claims success and has left the gap.
  abbrev pub Skipped : (ℕ → ℕ) → ℤ → World S → Type 0
  Skipped before ret w' =
      (ret ≡ pos (length xs))
      × (w'.offset ≡ pos (o + length xs))
      × ((j : ℕ) → o + room o ≤ j → j < o + 2 * room o → cell w'.bus j ≡ before j)

  gap_kept :
      (total n : ℕ) (bytes : List ℕ) (f : ℕ → ℕ) (j : ℕ)
      → (total ≡ 0) ⊎ (room o ≤ total)
      → length bytes ≡ n
      → n ≡ min (64 - (o + 2 * total) % 64) (length xs - total)
      → o + room o ≤ j
      → j < o + 2 * room o
      → store (o + 2 * total) bytes f j ≡ f j
  gap_kept total n bytes f j (inl z) l n_eq lo hi =
      store_above (o + 2 * total) bytes f j (omega arith)
  gap_kept total n bytes f j (inr z) l n_eq lo hi =
      store_below (o + 2 * total) bytes f j (omega arith)

  past_room :
      (total n : ℕ)
      → room o < length xs
      → n ≡ min (64 - (o + 2 * total) % 64) (length xs - total)
      → (total ≡ 0) ⊎ (room o ≤ total)
      → room o ≤ total + n
  past_room total n h e (inl z) = omega arith
  past_room total n h e (inr z) = omega arith

  skip_rule :
      (before : ℕ → ℕ)
      → o + 2 * length xs ≤ eeprom_size
      → room o < length xs
      → LoopRule k p (length xs) (Skipping before) (Skipped before)
  skip_rule before h crosses = record {
    done = λ total w inv e. (ap pos e, inv.0 ∙ ap (λ t. pos (o + t)) e, inv.2);
    fault = λ total w inv lt c. absurd (no_fault k cell chip p i o xs copies total w lt c);
    bus_error = λ total bytes w inv lt c bad.
        absurd
          (cc (round_stores k cell chip p i o xs copies total bytes w inv.0 lt (omega arith) c).0);
    next = λ total bytes w inv lt c good.
        let r = round_stores k cell chip p i o xs copies total bytes w inv.0 lt (omega arith) c in
        (
          r.1,
          inr (past_room total _ crosses r.3 inv.1),
          λ j lo hi.
              r.4 j ∙ (gap_kept total _ bytes (cell w.bus) j inv.1 r.5 r.3 lo hi ∙ inv.2 j lo hi),
        );
  }

  -- With the chip of 32768 cells and 64-byte pages behind a bus without errors, its buffer granted
  -- and user memory that can be read: a write that crosses a page, with room on the chip for twice
  -- its bytes, reports all its bytes written and moves the position past them, but leaves every
  -- cell of the stretch behind the first page, as long as the part written to that page, as it was
  -- before.
  pub write_skips :
      (w : World S)
      → w.offset ≡ pos o
      → o + 2 * length xs ≤ eeprom_size
      → room o < length xs
      → k.allocates (2 + page_size) ≡ true
      → Returns (Skipped (cell w.bus)) (at24_eeprom_write k p (length xs) w)
  write_skips w e h crosses mem =
      at24_eeprom_write-Returns k p (length xs) (skip_rule (cell w.bus) h crosses) (length xs) w
        (omega (arith, i.page_eq))
        (ap (λ t. clip p t (length xs)) e
          ∙ (clip_lem p o (length xs) i (omega arith) (omega arith) ∙ (omega arith)))
        (λ big. absurd (not_too_big k cell chip p i o xs copies w e (omega arith) big))
        (λ short. absurd (granted k cell chip p i o xs copies mem short))
        (e ∙ ap pos (omega arith), inl refl, λ j lo hi. refl)

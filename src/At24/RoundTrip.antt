-- ===== src/At24/RoundTrip.antt =====
-- Write, lseek back and read, as recipes-app/files/22_i2c_at24c_app.c does, over the driver
-- 22_i2c_at24.c.
use yocto_meta_hsiao.Base.{
  ℕ, ◌+◌, ◌-◌, ◌%◌, ◌≤◌, ◌<◌, ◌≡◌, ap, ◌∙◌, min, true, false, Option, none, some, List, length, ℤ,
  pos, arith,
}
use yocto_meta_hsiao.At24.{
  At24Data, Kernel, World, eeprom_size, page_size, at24_eeprom_read, at24_eeprom_write,
}
use yocto_meta_hsiao.At24.Seek.{at24_eeprom_llseek, seek_set, llseek_back}
use yocto_meta_hsiao.At24.Loop.{Returns}
use yocto_meta_hsiao.At24.Chip.{store, range, range-cong, range-store, IsEeprom}
use yocto_meta_hsiao.At24.Stores.{IsAt24, CopiesFrom, delivered, read_lem}
use yocto_meta_hsiao.At24.Writes.{Stored, write_stores}

Returns-mono :
    {S : Type 0} (P Q : ℤ → World S → Type 0)
    → ((ret : ℤ) (w : World S) → P ret w → Q ret w)
    → (r : Option (ℤ × World S)) → Returns P r
    → Returns Q r
Returns-mono P Q f none h = h
Returns-mono P Q f (some (ret, w)) h = f ret w h

module _ {S : Type 0} (k : Kernel S) (cell : S → ℕ → ℕ) (chip : IsEeprom k cell) (p : At24Data)
    (i : IsAt24 p) (o : ℕ) (xs : List ℕ) (copies : CopiesFrom k xs) where
  -- After the write, `lseek(fd, o, SEEK_SET)` and a read of as many bytes give the user `xs`.
  abbrev pub ReadsBack : ℤ → World S → Type 0
  ReadsBack ret w =
      let back = (at24_eeprom_llseek p w.offset (pos o) seek_set).1 in
      let (ret', w') = at24_eeprom_read k p (length xs) (record w { offset = back }) in
      (ret' ≡ pos (length xs)) × (delivered w'.log ≡ xs)

  -- With the chip of 32768 cells and 64-byte pages behind a bus without errors, buffers that are
  -- granted and user memory that can be read and written: after a write of at least one byte
  -- within one page, from a position on the chip, a seek back to that position and a read of as
  -- many bytes return their number and give the user the bytes written.
  pub round_trip :
      (w : World S)
      → w.offset ≡ pos o
      → o < eeprom_size
      → 0 < length xs
      → o % page_size + length xs ≤ page_size
      → k.allocates (2 + page_size) ≡ true
      → k.allocates (length xs) ≡ true
      → ((bytes : List ℕ) → k.copy_out_fails bytes ≡ false)
      → Returns ReadsBack (at24_eeprom_write k p (length xs) w)
  round_trip w e h some_bytes fits mem mem' out =
      Returns-mono _ ReadsBack read_again _
        (write_stores k cell chip p i o xs copies w e h some_bytes fits mem)
    where
      read_again :
          (ret : ℤ) (w' : World S)
          → Stored k cell chip p i o xs copies (cell w.bus) ret w'
          → ReadsBack ret w'
      read_again ret w' stored =
          let back = (at24_eeprom_llseek p w'.offset (pos o) seek_set).1 in
          let n : min (length xs) (eeprom_size - o) ≡ length xs = omega arith in
          let r =
            read_lem k cell chip p i o (length xs) (record w' { offset = back })
              (llseek_back p w'.offset o (omega (arith, i.size_eq))) h some_bytes (omega arith)
              (rw n mem') out in
          (
            r.0 ∙ ap pos n,
            r.2
                ∙ (ap (range (cell w'.bus) o) n
                    ∙ (range-cong (cell w'.bus) (store o xs (cell w.bus)) o (length xs)
                          (λ j le. stored.2 j)
                        ∙ range-store o xs (cell w.bus))),
          )

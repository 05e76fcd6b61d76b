-- ===== src/At24/App/Passes.antt =====
-- The run of 22_i2c_at24c_app.c on a chip that works.
use yocto_meta_hsiao.Base.{
  set, ◌+◌, ◌==◌, ◌≡◌, ◌∙◌, ◌∷◌, ◌++◌, [], refl, ap, true, false, none, some, zero, suc, pos, arith,
  ℤ, List, Option, length, none-All, set_beyond, length-append, append-nil, All, ℕ,
}
use yocto_meta_hsiao.Text.{c_string}
use yocto_meta_hsiao.Text.Files.{IsText, c_string-text}
use yocto_meta_hsiao.At24.{At24Data, Kernel, World, page_size}
use yocto_meta_hsiao.At24.Chip.{store, range, range-cong, IsEeprom}
use yocto_meta_hsiao.At24.Seek.{llseek_back, at24_eeprom_llseek, seek_set}
use yocto_meta_hsiao.At24.Loop.{Returns}
use yocto_meta_hsiao.At24.Stores.{IsAt24, CopiesFrom, read_lem}
use yocto_meta_hsiao.At24.Writes.{Stored, write_stores}
use yocto_meta_hsiao.At24.App.{
  Line, writing, reading, passed, read_back, write_data, filled, cut_erased, strncmp_eq, verdict,
  seek_and_read, at24_app,
}

-- No byte is that of an erased cell.
abbrev Written : List ℕ → Type 0
Written = All (λ c. (c == 255) ≡ false)

cut_erased-append :
    (xs ys : List ℕ) (n : ℕ)
    → Written xs
    → cut_erased (length xs + n) (xs ++ ys) ≡ xs ++ cut_erased n ys
unfolding cut_erased
cut_erased-append [] ys n h = let e : 0 + n ≡ n = omega arith in rw e refl
cut_erased-append (x ∷ xs) ys n h =
    let e : suc (length xs) + n ≡ suc (length xs + n) = omega arith in
    rw (e, h.0) (ap (◌∷◌ x) (cut_erased-append xs ys n h.1))

strncmp_eq-append : (xs ys : List ℕ) → strncmp_eq (length xs) xs (xs ++ ys) ≡ true
unfolding strncmp_eq
strncmp_eq-append [] ys = refl
strncmp_eq-append (x ∷ xs) ys = ground (arith, strncmp_eq-append xs ys)

length-range : (f : ℕ → ℕ) (a n : ℕ) → length (range f a n) ≡ n
length-range f a zero = refl
length-range f a (suc n) = ap (λ m. suc m) (length-range f (suc a) n)

-- What is stored and what follows it, read together.
range-store-append :
    (xs : List ℕ) (f : ℕ → ℕ) (a m : ℕ)
    → range (store a xs f) a (length xs + m) ≡ xs ++ range f (a + length xs) m
range-store-append [] f a m =
    let e : 0 + m ≡ m = omega arith in let b : a + 0 ≡ a = omega arith in rw (e, b) refl
range-store-append (x ∷ xs) f a m =
    let past : a + length (x ∷ xs) ≡ suc a + length xs = omega arith in
    let same =
      range-cong (store a (x ∷ xs) f) (store (suc a) xs f) (suc a) (length xs + m)
        (λ j le. ground arith) in
    let more : suc (length xs) + m ≡ suc (length xs + m) = omega arith in
    rw (past, more, same, range-store-append xs f (suc a) m)
      (ap (λ c. c ∷ (xs ++ range f (suc a + length xs) m)) (ground arith))

write_data-IsText : IsText write_data
write_data-IsText = none-All (λ c. c == 0) write_data refl

write_data-Written : Written write_data
write_data-Written = none-All (λ c. c == 255) write_data refl

-- 64 bytes fill `read_buf`, and the terminator is not in it.
filled_lem : (bytes : List ℕ) → length bytes ≡ 64 → set (filled bytes) 64 0 ≡ bytes
filled_lem bytes h = rw (h, append-nil) (set_beyond bytes 64 0 (omega arith))

-- What `main` makes of the text and 44 bytes behind it.
verdict_lem :
    (printed : List Line) (ys : List ℕ)
    → length ys ≡ 44
    → verdict printed 64 (write_data ++ ys) ≡ record {
      exit = pos 0;
      lines = printed ++ read_back (write_data ++ c_string (cut_erased 44 ys)) ∷ passed ∷ [];
      past_end = true;
    }
unfolding verdict
verdict_lem printed ys h =
    rw
      (
        filled_lem (write_data ++ ys) (omega (arith, length-append write_data ys)),
        cut_erased-append write_data ys 44 write_data-Written,
        strncmp_eq-append write_data (cut_erased 44 ys),
        c_string-text write_data (cut_erased 44 ys) write_data-IsText,
      )
      refl

Returns-some :
    {S : Type 0} (P : ℤ → World S → Type 0) (r : Option (ℤ × World S))
    → Returns P r
    → (ret : ℤ) × (w : World S) × (r ≡ some (ret, w)) × P ret w
Returns-some P none h = absurd h
Returns-some P (some (ret, w)) h = (ret, w, refl, h)

module _ {S : Type 0} (k : Kernel S) (cell : S → ℕ → ℕ) (chip : IsEeprom k cell) (p : At24Data)
    (i : IsAt24 p) where
  seek_and_read_lem :
      (f : ℕ → ℕ) (printed : List Line) (w : World S)
      → ((j : ℕ) → cell w.bus j ≡ store 0 write_data f j)
      → k.allocates 64 ≡ true
      → ((bytes : List ℕ) → k.copy_out_fails bytes ≡ false)
      → seek_and_read k p printed w ≡ record {
        exit = pos 0;
        lines =
            (printed ++ reading ∷ [])
            ++ read_back (write_data ++ c_string (cut_erased 44 (range f 20 44))) ∷ passed ∷ [];
        past_end = true;
      }
  unfolding seek_and_read
  seek_and_read_lem f printed w stored mem out =
      let back = llseek_back p w.offset 0 (omega (arith, i.size_eq)) in
      let r =
        read_lem k cell chip p i 0 64
          (record w { offset = (at24_eeprom_llseek p w.offset (pos 0) seek_set).1 }) back
          (omega arith) (omega arith) (omega arith) mem out in
      let bytes =
        r.2
        ∙ (range-cong (cell w.bus) (store 0 write_data f) 0 64 (λ j le. stored j)
            ∙ range-store-append write_data f 0 44) in
      rw (r.0, bytes, verdict_lem (printed ++ reading ∷ []) (range f 20 44) (length-range f 20 44))
        refl

  -- With the chip of 32768 cells and 64-byte pages behind a bus without errors, buffers that are
  -- granted and user memory that can be read and written: on a device that opens at position 0, the
  -- program reports that the validation passed, having read its text back and whatever cells follow
  -- it up to a zero or an erased one, exits with 0, and has put its terminating NUL behind the end
  -- of `read_buf`.
  pub app_passes :
      (fd : ℕ) (w : World S)
      → CopiesFrom k write_data
      → w.offset ≡ pos 0
      → k.allocates (2 + page_size) ≡ true
      → k.allocates 64 ≡ true
      → ((bytes : List ℕ) → k.copy_out_fails bytes ≡ false)
      → at24_app k p 2 (pos fd) w
        ≡ some (record {
          exit = pos 0;
          lines =
              writing
              ∷ reading
              ∷ read_back (write_data ++ c_string (cut_erased 44 (range (cell w.bus) 20 44)))
              ∷ passed
              ∷ [];
          past_end = true;
        })
  unfolding at24_app
  app_passes fd w copies e mem mem' out =
      let (ret, w', done, stored) =
        Returns-some (Stored k cell chip p i 0 write_data copies (cell w.bus)) _ (
          write_stores k cell chip p i 0 write_data copies w e (omega arith) (omega arith)
            (omega arith) mem) in
      rw (done, stored.0)
        (ap (λ o. some o) (seek_and_read_lem (cell w.bus) (writing ∷ []) w' stored.2 mem' out))

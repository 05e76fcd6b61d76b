-- ===== src/At24/Tests.antt =====
-- The theorems on 22_i2c_at24.c at concrete inputs, on a chip that is a function from addresses to
-- bytes.
use yocto_meta_hsiao.Base.{
  ℕ, ◌≡◌, refl, true, some, List, [], ◌∷◌, length-take, length-drop, drop, All, pos, arith,
}
use yocto_meta_hsiao.At24.{World, at24_eeprom_write, clip}
use yocto_meta_hsiao.At24.Loop.{Returns}
use yocto_meta_hsiao.At24.Example.{
  at24, Memory, kernel, cells, kernel-IsEeprom, kernel-CopiesFrom, at24-IsAt24,
}
use yocto_meta_hsiao.At24.Pages.{StaysInPage, CopiesAll, Outcome, write-Outcome, write-StaysInPage}
use yocto_meta_hsiao.At24.Skips.{Skipped, write_skips}
use yocto_meta_hsiao.Text.{c_string}
use yocto_meta_hsiao.At24.App.{
  at24_app, write_data, writing, reading, read_back, passed, cut_erased,
}
use yocto_meta_hsiao.At24.App.Passes.{app_passes}
use yocto_meta_hsiao.At24.RoundTrip.{ReadsBack, round_trip}

kernel-CopiesAll : (xs : List ℕ) → CopiesAll (kernel xs)
kernel-CopiesAll xs i n bytes e = ground (arith, length-take n (drop i xs), length-drop i xs)

abbrev blank : World Memory
blank = record { bus = λ j. 255; offset = pos 62; log = [] }

abbrev two : List ℕ
two = 7 ∷ 8 ∷ []

abbrev four : List ℕ
four = 7 ∷ 8 ∷ 9 ∷ 10 ∷ []

write-Outcome_example :
    Returns (Outcome (kernel four) at24 (pos 62) 4) (at24_eeprom_write (kernel four) at24 4 blank)
unfolding clip
write-Outcome_example = write-Outcome (kernel four) at24 4 blank (omega arith)

write-StaysInPage_example :
    Returns (λ _ w. All StaysInPage w.log) (at24_eeprom_write (kernel four) at24 4 blank)
write-StaysInPage_example =
    write-StaysInPage (kernel four) at24 4 blank refl (kernel-CopiesAll four) refl

-- Four bytes from 62 on: 64 and 65 stay as they were.
write_skips_example :
    Returns
      (Skipped
        (kernel four)
        cells
        (kernel-IsEeprom four)
        at24
        at24-IsAt24
        62
        four
        (kernel-CopiesFrom four)
        (λ j. 255))
      (at24_eeprom_write (kernel four) at24 4 blank)
write_skips_example =
    write_skips (kernel four) cells (kernel-IsEeprom four) at24 at24-IsAt24 62 four
      (kernel-CopiesFrom four) blank refl (omega arith) (omega arith) refl

round_trip_example :
    Returns
      (ReadsBack
        (kernel two)
        cells
        (kernel-IsEeprom two)
        at24
        at24-IsAt24
        62
        two
        (kernel-CopiesFrom two))
      (at24_eeprom_write (kernel two) at24 2 blank)
round_trip_example =
    round_trip (kernel two) cells (kernel-IsEeprom two) at24 at24-IsAt24 62 two
      (kernel-CopiesFrom two) blank refl (omega arith) (omega arith) (omega arith) refl refl
      (λ _. refl)

abbrev fresh : World Memory
fresh = record blank { offset = pos 0 }

app_passes_example :
    at24_app (kernel write_data) at24 2 (pos 3) fresh
    ≡ some (record {
      exit = pos 0;
      lines = writing ∷ reading ∷ read_back write_data ∷ passed ∷ [];
      past_end = true;
    })
unfolding cut_erased c_string
app_passes_example =
    app_passes (kernel write_data) cells (kernel-IsEeprom write_data) at24 at24-IsAt24 3 fresh
      (kernel-CopiesFrom write_data) refl refl refl (λ bytes. refl)

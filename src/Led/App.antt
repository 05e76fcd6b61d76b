-- ===== src/Led/App.antt =====
-- recipes-app/files/8_gpioled_app.c, the program that switches the LED, over `Led_Write` of
-- 8_gpioled.c: a status is asked for by its number.
use yocto_meta_hsiao.Base.{
  overlay, ◌==◌, refl, zero, suc, neg, ◌+◌, ◌-◌, ◌*◌, ◌/◌, ◌%◌, ◌^◌, ◌≡◌, ◌∷◌, [], if◌then◌else◌,
  true, false, none, some, pos, negsuc, arith, ℕ, ℤ, Bool, List, Option, length, ltb, is_neg,
}
use yocto_meta_hsiao.Text.Scan.{atoi}
use yocto_meta_hsiao.Led.{write_buf_size, led_write}

-- How `main` ends: with TRUE for `done`, else with FALSE.
pub data Ending : Type 0 where
  done usage open_error write_error close_error : Ending

-- An `int` in a `__u16`.
abbrev pub to_u16 : ℤ → ℕ
to_u16 (pos n) = n % 2 ^ 16
to_u16 (negsuc n) = 2 ^ 16 - 1 - n % 2 ^ 16

-- `data_buffer`: the status, and what the stack held in the other 255 entries.
abbrev pub data_buffer : List ℕ → List ℕ → List ℕ
data_buffer arg stack = let status = to_u16 (atoi arg) in status % 256 ∷ status / 256 ∷ stack

abbrev pub after_write : ℤ → ℤ → Ending
after_write ret closed =
    if is_neg ret then write_error else if is_neg closed then close_error else done

-- `main`, given the results of `open` and `close` and whether the driver's copy faults: its ending,
-- and the driver's buffer and the pin; `none` if the copy runs over the driver's buffer.
unfoldable pub led_app :
    List (List ℕ) → ℤ → ℤ → Bool → List ℕ → List ℕ → Bool → Option (Ending × List ℕ × Bool)
led_app (prog ∷ filename ∷ arg ∷ []) fd closed faulted stack buf pin =
    if is_neg fd
    then some (open_error, buf, pin)
    else elim (led_write faulted (data_buffer arg stack) buf pin) [
      | none ↦ none
      | some (ret, buf', pin') ↦ some (after_write ret closed, buf', pin')
    ]
led_app argv fd closed faulted stack buf pin = some (usage, buf, pin)

-- What a status asks of the program and the pin.
abbrev pub switched : ℕ → Bool → Ending × Bool
switched zero pin = (done, false)
switched (suc zero) pin = (done, true)
switched (suc (suc n)) pin = (write_error, pin)

-- The driver's answer to a status.
abbrev pub answered : ℕ → Bool → ℤ × Bool
answered zero pin = (pos 0, false)
answered (suc zero) pin = (pos 0, true)
answered (suc (suc n)) pin = (neg 22, pin)

pub led_write-status :
    (v : ℕ) (stack buf : List ℕ) (pin : Bool)
    → length stack ≡ 510
    → led_write false (v % 256 ∷ v / 256 ∷ stack) buf pin
      ≡ some ((answered v pin).0, overlay (v % 256 ∷ v / 256 ∷ stack) buf, (answered v pin).1)
unfolding led_write
led_write-status v stack buf pin h =
    let fits : ltb write_buf_size (suc (suc (length stack))) ≡ false = ground (arith, h) in
    let same : v % 256 + 256 * (v / 256) ≡ v = omega arith in rw (fits, same) (answered_lem v _)
  where
    answered_lem :
        (n : ℕ) (b : List ℕ)
        → (let go : ℤ → Bool → Option (ℤ × List ℕ × Bool) = λ ret p. some (ret, b, p) in
            if n == 0
            then go (pos 0) false
            else if n == 1
            then go (pos 0) true
            else go (neg 22) pin)
          ≡ some ((answered n pin).0, b, (answered n pin).1)
    answered_lem zero b = refl
    answered_lem (suc zero) b = refl
    answered_lem (suc (suc n)) b = ground arith

pub after_write-switched :
    (v closed : ℕ) (pin : Bool)
    → (after_write (answered v pin).0 (pos closed) ≡ (switched v pin).0)
      × ((answered v pin).1 ≡ (switched v pin).1)
after_write-switched zero closed pin = (refl, refl)
after_write-switched (suc zero) closed pin = (refl, refl)
after_write-switched (suc (suc n)) closed pin = (refl, refl)

-- With a file that opens and closes and memory that can be read, the program's 512 bytes fit the
-- driver's buffer whatever the stack held, and the argument as `atoi` reads it, cut to 16 bits,
-- decides: 0 drives the pin low, 1 drives it high, and the program ends well; any other number
-- leaves the pin as it was and ends in a write error. The driver's buffer then starts with those
-- bytes.
led_app-switches :
    (prog filename arg stack buf : List ℕ) (pin : Bool) (fd closed : ℕ)
    → length stack ≡ 510
    → led_app (prog ∷ filename ∷ arg ∷ []) (pos fd) (pos closed) false stack buf pin ≡ (
        let (ending, pin') = switched (to_u16 (atoi arg)) pin in
        some (ending, overlay (data_buffer arg stack) buf, pin'))
unfolding led_app
led_app-switches prog filename arg stack buf pin fd closed h =
    let status = to_u16 (atoi arg) in
    let (ending, level) = after_write-switched status closed pin in
    rw (led_write-status status stack buf pin h, ending, level) refl

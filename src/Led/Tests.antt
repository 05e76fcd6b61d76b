-- ===== src/Led/Tests.antt =====
-- The theorems on the LED drivers at concrete inputs.
use yocto_meta_hsiao.Base.{
  ◌∷◌, ◌≢◌, if◌then◌else◌, ◌⊎◌, ◌<◌, replicate, [], ℕ, List, ◌*◌, ◌^◌, pos, ◌≡◌, refl, true, false,
  some,
}
use yocto_meta_hsiao.Registration.{valid}
use yocto_meta_hsiao.Registration.Leaky.{Numbers, Answers, Pins, led_init, char_dev_init}
use yocto_meta_hsiao.Text.{codes, is_digit, digits_value, starts_digit, skip_blanks, is_blank}
use yocto_meta_hsiao.Text.Scan.{atoi, scan_number, scan_digits, as_int, skip_digits}
use yocto_meta_hsiao.Led.App.{to_u16}
use yocto_meta_hsiao.Led.ThreadApp.{Shared}
use yocto_meta_hsiao.Led.Sharing.{
  ended, Programs, Launch, has_device, looping, opening, writing, turn, launch, go,
}
use yocto_meta_hsiao.Led.ThreadApp.{thread_app}
use yocto_meta_hsiao.Led.App.{Ending}
use yocto_meta_hsiao.Led.Sharing.Alone.{alone-thread_app}
use yocto_meta_hsiao.Led.Sharing.Invariant.{sharing-Shows, sharing-opens, Busy}
use yocto_meta_hsiao.Led.Sharing
use native.Mathlib.Decide.{ℕ_discrete}
use yocto_meta_hsiao.Led.{led_write, mutex, thread_led_init, led_open, led_release}

abbrev unset : Numbers
unset = record { major = 0; minor = 0; dev_id = 0 }

abbrev all_well : Answers
all_well = record {
  dev = 240 * 2 ^ 20;
  region_ret = pos 0;
  cdev_ret = pos 0;
  class_ptr = valid;
  device_ptr = valid;
}

abbrev output : Pins
output = record { node = true; led_gpio = pos 7; direction = pos 0 }

abbrev stack : List ℕ
stack = replicate 510 0

-- Process 0 switches the LED on and is in its loop, and process 1 waits.
abbrev on : Launch
on = record { arg = codes "0"; stack = stack; closed = pos 0 }

abbrev off : Launch
off = record { arg = codes "1"; stack = stack; closed = pos 0 }

abbrev SharedRun : Type 0
SharedRun = (s : Programs) × Sharing.Reach mutex s

abbrev launched : SharedRun
unfolding led_open led_release led_write thread_led_init led_init char_dev_init turn ℕ_discrete
launched = (
  _,
  Sharing.next
      (Sharing.next (Sharing.start unset all_well output [] true refl) (launch 0 on refl refl))
      (launch 1 off refl refl),
)

abbrev opened_once : SharedRun
unfolding led_open led_release led_write thread_led_init led_init char_dev_init turn ℕ_discrete
opened_once = (_, Sharing.next launched.1 (go 0 false _ _ refl))

abbrev in_loop : SharedRun
unfolding led_open led_release led_write thread_led_init led_init char_dev_init turn ℕ_discrete atoi
    scan_number scan_digits as_int skip_blanks is_blank is_digit starts_digit digits_value
    skip_digits
in_loop = (_, Sharing.next opened_once.1 (go 0 false _ _ refl))

sharing-Shows_example :
    ((i j : ℕ) → has_device (in_loop.0.app i) ≡ true → has_device (in_loop.0.app j) ≡ true → i ≡ j)
    × ((i : ℕ) (l : Launch) (count : ℕ)
        → in_loop.0.app i ≡ looping l count
        → (to_u16 (atoi l.arg) ≡ (if in_loop.0.shared.pin then 1 else 0)) × (count < 5))
sharing-Shows_example = sharing-Shows mutex in_loop.1

sharing-opens_example :
    Busy mutex in_loop.0
    ⊎ ((t : Shared) × (turn mutex false in_loop.0.shared (opening off) ≡ some (t, writing off)))
sharing-opens_example = sharing-opens mutex in_loop.1 off false

alone-thread_app_example :
    (t : Programs) × (ending : Ending) × (printed : List ℕ) × Sharing.Run mutex launched.0 t
    × (thread_app mutex
          (codes "app" ∷ codes "/dev/gpioled" ∷ codes "0" ∷ [])
          false
          (pos 0)
          stack
          launched.0.shared
        ≡ some (ending, printed, t.shared))
    × (t.app 0 ≡ ended ending)
    × ((j : ℕ) → 0 ≢ j → t.app j ≡ launched.0.app j)
unfolding led_open led_release led_write thread_led_init led_init char_dev_init turn ℕ_discrete
alone-thread_app_example =
    alone-thread_app mutex 0 false on (pos 0) (record { dev_status = 0; sem = 0; mtx = true })
      (codes "app") (codes "/dev/gpioled") launched.1 refl refl

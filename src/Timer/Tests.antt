-- ===== src/Timer/Tests.antt =====
-- The theorem on the timer driver at a concrete run, with ten jiffies in a second.
use yocto_meta_hsiao.Base.{
  none, ◌≡◌, pos, ℤ, List, ℕ, ◌/◌, ◌≤◌, refl, true, false, [], ◌∷◌, some, arith,
}
use yocto_meta_hsiao.Timer.{
  Clock, Reach, start, next, tick, ioctl, fire, open_cmd, setperiod_cmd, timer_unlocked_ioctl,
  timer_callback,
}
use yocto_meta_hsiao.Timer.{init_dev, TimerDev, Cmd}
use yocto_meta_hsiao.Timer.App.{
  Line, menu, ask_period, period_set, started, invalid_input, discards, timer_app,
}
use yocto_meta_hsiao.Timer.App.Script.{script, set_period, open_timer, app-script}
use yocto_meta_hsiao.Timer.Blink.{run, app-Blinks}
use yocto_meta_hsiao.Timer.Spacing.{Spaced, reach-Spaced}

abbrev tenths : ℕ → ℕ
tenths ms = ms / 100

-- A period of 5 ms is asked for, the timer is started, and it fires.
abbrev toggled : Clock tenths
toggled = record {
  dev = record { expires = some 2; timer_period = 100; led_gpio_desc = true; led = true };
  jiffies = 1;
  toggles = 1 ∷ [];
}

toggled_reached : Reach tenths toggled
unfolding timer_unlocked_ioctl timer_callback
toggled_reached =
    next (next (next (next (start 0 false) (ioctl (setperiod_cmd 5))) (ioctl open_cmd)) tick)
      (fire 1 refl (omega arith))

reach-Spaced_example : Spaced 1 toggled.toggles × (100 ≤ toggled.dev.timer_period)
reach-Spaced_example = reach-Spaced tenths (λ m n h. omega arith) toggled_reached

-- The driver at the jiffy 7.
abbrev timer_ioctl : Cmd → TimerDev → ℤ × TimerDev
timer_ioctl = timer_unlocked_ioctl tenths 7

abbrev idle : TimerDev
idle = record { expires = none; timer_period = 3000; led_gpio_desc = true; led = false }

-- The period is set to 2 s, and the timer started.
app-script_example :
    timer_app timer_ioctl 2 (pos 3) (script (set_period 2000 ∷ open_timer ∷ [])) idle
    ≡ some (
      discards,
      menu ∷ ask_period ∷ period_set 2000 ∷ menu ∷ started ∷ menu ∷ invalid_input ∷ [],
      record { expires = some 27; timer_period = 2000; led_gpio_desc = true; led = false },
    )
unfolding timer_unlocked_ioctl
app-script_example =
    app-script timer_ioctl 3 (set_period 2000 ∷ open_timer ∷ []) idle (omega arith, (tt, tt))

-- One jiffy into the third period of 500 ms.
-- A kernel that runs each timer one jiffy late: five jiffies of period, toggles six jiffies apart.
app-Blinks_example :
    (printed : List Line) × (d : TimerDev) × (timer_app timer_ioctl 2
        (pos 3)
        (script (set_period 500 ∷ open_timer ∷ []))
        (init_dev tenths false)
      ≡ some (discards, printed, d))
    × (let s = run tenths (λ t. 1) 13 (record { dev = d; jiffies = 7; toggles = [] }) in
        (s.toggles ≡ 19 ∷ 13 ∷ []) × (s.dev.led ≡ false))
app-Blinks_example =
    app-Blinks tenths (λ t. 1) 7 3 500 2 1 false (omega arith) (omega arith) (omega arith)

-- ===== src/Timer.antt =====
-- K/12_timer.c, K for recipes-kernel/hsiao-kmod/files, which toggles an LED from a timer: the ioctl
-- and the callback. Times are in jiffies, as numbers that do not wrap around.
use yocto_meta_hsiao.Base.{
  ℕ, zero, suc, ◌+◌, ◌%◌, ◌^◌, ◌≤◌, ◌≡◌, Bool, true, false, not, List, [], ◌∷◌, Option, none, some,
  ltb, if◌then◌else◌, ℤ, pos, neg,
}
pub mod Spacing
pub mod App
pub mod Blink
mod Tests

-- `struct timer_dev`: when the timer expires if it is pending, its period in milliseconds, is there
-- a descriptor of the pin, and the pin.
pub record TimerDev : Type 0 where
  pub expires : Option ℕ
  pub timer_period : ℕ
  pub led_gpio_desc : Bool
  pub led : Bool

-- CLOSE_CMD, OPEN_CMD, SETPERIOD_CMD with its argument, and any other number.
pub data Cmd : Type 0 where
  close_cmd open_cmd other_cmd : Cmd
  setperiod_cmd : ℕ → Cmd

abbrev pub einval : ℕ
einval = 22

abbrev pub is_pending : Option ℕ → Bool
is_pending none = false
is_pending (some t) = true

-- `new_period` after the protection of the least period; the argument is cut to 32 bits.
abbrev pub least_period : ℕ → ℕ
least_period arg = if ltb (arg % 2 ^ 32) 100 then 100 else arg % 2 ^ 32

-- `msecs_to_jiffies`
module _ (to_jiffies : ℕ → ℕ) where
  -- `mod_timer(&dev->timer, jiffies + msecs_to_jiffies(dev->timer_period))`
  abbrev pub rearm : ℕ → TimerDev → TimerDev
  rearm jiffies d = record d { expires = some (jiffies + to_jiffies d.timer_period) }

  -- `Timer_Unlocked_Ioctl`
  unfoldable pub timer_unlocked_ioctl : ℕ → Cmd → TimerDev → ℤ × TimerDev
  timer_unlocked_ioctl jiffies close_cmd d = (pos 0, record d { expires = none })
  timer_unlocked_ioctl jiffies open_cmd d = (pos 0, rearm jiffies d)
  timer_unlocked_ioctl jiffies (setperiod_cmd arg) d =
      let d' = record d { timer_period = least_period arg } in
      (pos 0, if is_pending d.expires then rearm jiffies d' else d')
  timer_unlocked_ioctl jiffies other_cmd d = (neg einval, d)

  -- `Timer_Callback`; the timer is no longer pending when it runs.
  unfoldable pub timer_callback : ℕ → TimerDev → TimerDev
  timer_callback jiffies d =
      if not d.led_gpio_desc then d else rearm jiffies (record d { led = not d.led })

  -- The device, the time, and when the LED was toggled, the newest first.
  pub record Clock : Type 0 where
    pub dev : TimerDev
    pub jiffies : ℕ
    pub toggles : List ℕ

  -- Time passes, a user calls the ioctl, or the kernel runs a timer that has expired.
  pub data Step (s : Clock) : Clock → Type 0 where
    tick : Step s (record s { jiffies = suc s.jiffies })
    ioctl : (cmd : Cmd) → Step s (record s { dev = (timer_unlocked_ioctl s.jiffies cmd s.dev).1 })
    fire :
        (t : ℕ)
        → s.dev.expires ≡ some t
        → t ≤ s.jiffies
        → Step s (record s {
          dev = timer_callback s.jiffies (record (s.dev) { expires = none });
          toggles = s.jiffies ∷ s.toggles;
        })

  -- What `Timer_Init` leaves: the timer set up but not started, its period 3000.
  abbrev pub init_dev : Bool → TimerDev
  init_dev led = record { expires = none; timer_period = 3000; led_gpio_desc = true; led = led }

  pub data Reach : Clock → Type 0 where
    start :
        (jiffies : ℕ) (led : Bool)
        → Reach (record { dev = init_dev led; jiffies = jiffies; toggles = [] })
    next : {s t : Clock} → Reach s → Step s t → Reach t

-- ===== src/Timer/Blink.antt =====
-- 12_timer.c with a kernel that runs an expired timer after any number of jiffies, as its timer wheel
-- does that rounds expiries up: how the LED blinks, from the commands that a user types to
-- 12_timer_app.c.
use yocto_meta_hsiao.Base.{
  ◌-◌, ◌%◌, ◌^◌, ◌∙◌, ltb, Bool-cases, ap, inl, inr, refl, ℕ, zero, suc, ◌+◌, ◌<◌, ◌≤◌, ◌≡◌, Bool,
  true, false, not, List, [], ◌∷◌, Option, none, some, leb, if◌then◌else◌, pos, arith,
}
use yocto_meta_hsiao.Timer.{
  TimerDev, timer_unlocked_ioctl, timer_callback, Clock, tick, fire, Reach, next, init_dev,
}
use yocto_meta_hsiao.Timer.App.{Line, discards, timer_app}
use yocto_meta_hsiao.Timer.App.Script.{script, set_period, open_timer, app-script, serve}

abbrev pub toggled : ℕ → Bool → Bool
toggled zero led = led
toggled (suc n) led = not (toggled n led)

-- `late t` is how many jiffies the kernel runs a timer late that expires at `t`.
module _ (late : ℕ → ℕ) where
  -- The jiffies from `from` to the end of the `q`th round of a timer that is armed at `from`, and
  -- again for `period` jiffies whenever it has run.
  abbrev pub elapsed : (from period : ℕ) → ℕ → ℕ
  elapsed from period zero = 0
  elapsed from period (suc q) =
      let e = elapsed from period q in e + (period + late (from + e + period))

  -- The times of `q` toggles, each a period after the one before, or after `from`, and what the timer
  -- runs late; the newest first.
  abbrev pub toggle_times : (from period : ℕ) → ℕ → List ℕ
  toggle_times from period zero = []
  toggle_times from period (suc q) =
      (from + elapsed from period (suc q)) ∷ toggle_times from period q

module _ (to_jiffies : ℕ → ℕ) (late : ℕ → ℕ) where
  abbrev pub expired : Option ℕ → ℕ → Bool
  expired none now = false
  expired (some t) now = leb (t + late t) now

  -- A jiffy: the time, and then the timer if it has expired and the kernel gets to it.
  unfoldable pub jiffy : Clock to_jiffies → Clock to_jiffies
  jiffy s =
      let now = suc s.jiffies in
      if expired s.dev.expires now
      then record {
        dev = timer_callback to_jiffies now (record (s.dev) { expires = none });
        jiffies = now;
        toggles = now ∷ s.toggles;
      }
      else record s { jiffies = now }

  unfoldable pub run : ℕ → Clock to_jiffies → Clock to_jiffies
  run zero s = s
  run (suc n) s = jiffy (run n s)

  expired-some :
      (o : Option ℕ) (now : ℕ) → expired o now ≡ true → (t : ℕ) × (o ≡ some t) × (t ≤ now)
  expired-some none now e = absurd (ground arith)
  expired-some (some t) now e = (t, refl, ground arith)

  -- A jiffy is a tick, and then perhaps a timer that has expired.
  jiffy-Reach : {s : Clock to_jiffies} → Reach to_jiffies s → Reach to_jiffies (jiffy s)
  unfolding jiffy
  jiffy-Reach {s} r = elim (Bool-cases (expired s.dev.expires (suc s.jiffies))) [
    | inr early ↦ rw early (next r tick)
    | inl due ↦
        (let (t, e, le) = expired-some s.dev.expires (suc s.jiffies) due in
          rw due (next (next r tick) (fire t e le)))
  ]

  -- Every run is one of the runs that Timer.antt allows.
  pub run-Reach : (n : ℕ) {s : Clock to_jiffies} → Reach to_jiffies s → Reach to_jiffies (run n s)
  unfolding run
  run-Reach zero r = r
  run-Reach (suc n) r = jiffy-Reach (run-Reach n r)

  run_add : (m n : ℕ) (s : Clock to_jiffies) → run (m + n) s ≡ run n (run m s)
  unfolding run
  run_add m zero s = let e : m + 0 ≡ m = omega arith in rw e refl
  run_add m (suc n) s =
      let e : m + suc n ≡ suc (m + n) = omega arith in rw e (ap jiffy (run_add m n s))

  -- The timer armed at `now`, with its period.
  abbrev pub armed : (now : ℕ) → TimerDev → TimerDev
  armed now d = record d { expires = some (now + to_jiffies d.timer_period) }

  abbrev clock : TimerDev → ℕ → List ℕ → Clock to_jiffies
  clock d now ts = record { dev = d; jiffies = now; toggles = ts }

  -- How long the timer takes that is armed at `now`.
  abbrev pub wait : (now : ℕ) → TimerDev → ℕ
  wait now d = to_jiffies d.timer_period + late (now + to_jiffies d.timer_period)

  -- Before the kernel runs it the timer does nothing.
  quiet :
      (d : TimerDev) (now k : ℕ) (ts : List ℕ)
      → k < wait now d
      → run k (clock (armed now d) now ts) ≡ clock (armed now d) (now + k) ts
  unfolding run jiffy
  quiet d now zero ts h = let e : now + 0 ≡ now = omega arith in rw e refl
  quiet d now (suc k) ts h =
      let before = quiet d now k ts (omega arith) in
      let expiry = now + to_jiffies d.timer_period in
      let early : leb (expiry + late expiry) (suc (now + k)) ≡ false = ground arith in
      let e : now + suc k ≡ suc (now + k) = omega arith in rw (before, e, jiffy, early) refl

  -- Then it toggles the LED and is armed again.
  one_period :
      (d : TimerDev) (now : ℕ) (ts : List ℕ)
      → 0 < to_jiffies d.timer_period
      → d.led_gpio_desc ≡ true
      → let now' = now + wait now d in
        run (wait now d) (clock (armed now d) now ts)
        ≡ clock (armed now' (record d { led = not d.led })) now' (now' ∷ ts)
  unfolding run jiffy timer_callback
  one_period d now ts h desc =
      let expiry = now + to_jiffies d.timer_period in
      let last : wait now d ≡ suc (wait now d - 1) = omega arith in
      let at_end : suc (now + (wait now d - 1)) ≡ now + wait now d = omega arith in
      let due : leb (expiry + late expiry) (now + wait now d) ≡ true = ground arith in
      ap (λ n. run n (clock (armed now d) now ts)) last
      ∙ ap jiffy (quiet d now (wait now d - 1) ts (omega arith))
      ∙ rw (at_end, due, desc) refl

  -- After `q` rounds the LED has been toggled `q` times.
  periods :
      (d : TimerDev) (now q : ℕ)
      → 0 < to_jiffies d.timer_period
      → d.led_gpio_desc ≡ true
      → let period = to_jiffies d.timer_period in
        let e = elapsed late now period q in
        run e (clock (armed now d) now [])
        ≡ clock
            (armed (now + e) (record d { led = toggled q d.led }))
            (now + e)
            (toggle_times late now period q)
  unfolding run
  periods d now zero h desc = let e : now + 0 ≡ now = omega arith in rw e refl
  periods d now (suc q) h desc =
      let period = to_jiffies d.timer_period in
      let e = elapsed late now period q in
      let w = period + late (now + e + period) in
      let later : now + (e + w) ≡ now + e + w = omega arith in
      rw (later, run_add e w (clock (armed now d) now []), periods d now q h desc)
        (one_period (record d { led = toggled q d.led }) (now + e) (toggle_times late now period q)
          h desc)

  -- Armed at `now`, and left alone, the timer toggles the LED once in each round, and at no other
  -- time: after `q` rounds and `k` jiffies, fewer than the next one takes, the toggles are those at
  -- the end of each round, the LED is switched `q` times, and the timer is armed for the next.
  pub run-armed :
      (d : TimerDev) (now q k : ℕ)
      → let period = to_jiffies d.timer_period in
        let e = elapsed late now period q in
        0 < period
        → k < period + late (now + e + period)
        → d.led_gpio_desc ≡ true
        → run (e + k) (clock (armed now d) now [])
          ≡ clock
              (armed (now + e) (record d { led = toggled q d.led }))
              (now + (e + k))
              (toggle_times late now period q)
  run-armed d now q k positive h desc =
      let period = to_jiffies d.timer_period in
      let e = elapsed late now period q in
      let later : now + (e + k) ≡ now + e + k = omega arith in
      rw (run_add e k (clock (armed now d) now []), periods d now q positive desc, later)
        (quiet (record d { led = toggled q d.led }) (now + e) k (toggle_times late now period q) h)

  -- A user who types to 12_timer_app.c the commands for a period of `ms`, below 2 ^ 32, and to start
  -- the timer has the LED toggled from then on as follows, and at no other time, where nothing else
  -- uses the device and the period, of `ms` milliseconds or of 100 if `ms` is less, is a jiffy at
  -- least: first a period after the start, and then each time a period after the toggle before, later
  -- by just the jiffies by which the kernel runs the expired timer late, however many those are.
  pub app-Blinks :
      (now fd ms q k : ℕ) (led : Bool)
      → ms < 2 ^ 32
      → let period = to_jiffies (if ltb ms 100 then 100 else ms) in
        let e = elapsed late now period q in
        0 < period
        → k < period + late (now + e + period)
        → (printed : List Line) × (d : TimerDev) × (timer_app
              (timer_unlocked_ioctl to_jiffies now)
              2
              (pos fd)
              (script (set_period ms ∷ open_timer ∷ []))
              (init_dev to_jiffies led)
            ≡ some (discards, printed, d))
          × (let s = run (e + k) (clock d now []) in
              (s.toggles ≡ toggle_times late now period q) × (s.dev.led ≡ toggled q led))
  unfolding timer_unlocked_ioctl
  app-Blinks now fd ms q k led h positive lt =
      let app =
        app-script (timer_unlocked_ioctl to_jiffies now) fd (set_period ms ∷ open_timer ∷ [])
          (init_dev to_jiffies led) (h, (tt, tt)) in
      let small : ms % 2 ^ 32 ≡ ms = omega arith in
      let d = record (init_dev to_jiffies led) { timer_period = if ltb ms 100 then 100 else ms } in
      let ran = run-armed d now q k positive lt refl in
      let printed =
        (serve (timer_unlocked_ioctl to_jiffies now) (set_period ms ∷ open_timer ∷ [])
          (init_dev to_jiffies led)).0 in
      (
        printed,
        armed now d,
        app ∙ rw small refl,
        (ap (λ s. s.toggles) ran, ap (λ s. s.dev.led) ran),
      )

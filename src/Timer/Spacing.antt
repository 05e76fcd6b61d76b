-- ===== src/Timer/Spacing.antt =====
-- How fast the LED of 12_timer.c can be toggled.
use yocto_meta_hsiao.Base.{
  ℕ, suc, ◌+◌, ◌≤◌, ◌≡◌, refl, true, List, [], ◌∷◌, Option, none, some, Bool-cases, inl, inr, subst,
  arith,
}
use yocto_meta_hsiao.Timer.{
  close_cmd, open_cmd, other_cmd, setperiod_cmd, least_period, is_pending, timer_unlocked_ioctl,
  timer_callback, Clock, Step, tick, ioctl, fire, Reach, start, next,
}

-- The newest toggle is a gap before the time.
abbrev pub Gap : ℕ → List ℕ → ℕ → Type 0
Gap g [] t = Unit {0}
Gap g (x ∷ xs) t = x + g ≤ t

-- Each toggle is a gap after the one before it.
abbrev pub Spaced : ℕ → List ℕ → Type 0
Spaced g [] = Unit {0}
Spaced g (x ∷ xs) = Gap g xs x × Spaced g xs

abbrev Expires : ℕ → List ℕ → Option ℕ → Type 0
Expires g xs none = Unit {0}
Expires g xs (some t) = Gap g xs t

later : (g : ℕ) (xs : List ℕ) (now t : ℕ) → Gap 0 xs now → now + g ≤ t → Gap g xs t
later g [] now t h k = tt
later g (x ∷ xs) now t h k = omega arith

sooner : (g : ℕ) (xs : List ℕ) (t now : ℕ) → Gap g xs t → t ≤ now → Gap g xs now
sooner g [] t now h k = tt
sooner g (x ∷ xs) t now h k = omega arith

module _ (to_jiffies : ℕ → ℕ) (grows : (m n : ℕ) → m ≤ n → to_jiffies m ≤ to_jiffies n) where
  abbrev gap : ℕ
  gap = to_jiffies 100

  record Inv (s : Clock to_jiffies) : Type 0 where
    period : 100 ≤ s.dev.timer_period
    desc : s.dev.led_gpio_desc ≡ true
    past : Gap 0 s.toggles s.jiffies
    expiry : Expires gap s.toggles s.dev.expires
    spaced : Spaced gap s.toggles

  rearmed : (xs : List ℕ) (now p : ℕ) → 100 ≤ p → Gap 0 xs now → Gap gap xs (now + to_jiffies p)
  rearmed xs now p h k = later gap xs now (now + to_jiffies p) k (omega (arith, grows 100 p h))

  least_period_lem : (arg : ℕ) → 100 ≤ least_period arg
  least_period_lem arg = ground arith

  Step-Inv : {s t : Clock to_jiffies} → Step to_jiffies s t → Inv s → Inv t
  unfolding timer_unlocked_ioctl timer_callback
  Step-Inv {s} tick i = record {
    period = i.period;
    desc = i.desc;
    past = later 0 s.toggles s.jiffies (suc s.jiffies) i.past (omega arith);
    expiry = i.expiry;
    spaced = i.spaced;
  }
  Step-Inv {s} (ioctl close_cmd) i = record {
    period = i.period;
    desc = i.desc;
    past = i.past;
    expiry = tt;
    spaced = i.spaced;
  }
  Step-Inv {s} (ioctl open_cmd) i = record {
    period = i.period;
    desc = i.desc;
    past = i.past;
    expiry = rearmed s.toggles s.jiffies s.dev.timer_period i.period i.past;
    spaced = i.spaced;
  }
  Step-Inv {s} (ioctl other_cmd) i = record {
    period = i.period;
    desc = i.desc;
    past = i.past;
    expiry = i.expiry;
    spaced = i.spaced;
  }
  Step-Inv {s} (ioctl (setperiod_cmd arg)) i = elim (Bool-cases (is_pending s.dev.expires)) [
    | inl e ↦ rw e (record {
      period = least_period_lem arg;
      desc = i.desc;
      past = i.past;
      expiry = rearmed s.toggles s.jiffies (least_period arg) (least_period_lem arg) i.past;
      spaced = i.spaced;
    })
    | inr e ↦ rw e (record {
      period = least_period_lem arg;
      desc = i.desc;
      past = i.past;
      expiry = i.expiry;
      spaced = i.spaced;
    })
  ]
  Step-Inv {s} (fire t e h) i = rw (i.desc) (record {
    period = i.period;
    desc = refl;
    past = omega arith;
    expiry = omega (arith, grows 100 s.dev.timer_period i.period);
    spaced =
        (sooner gap s.toggles t s.jiffies (subst (Expires gap s.toggles) e i.expiry) h, i.spaced);
  })

  Reach-Inv : {s : Clock to_jiffies} → Reach to_jiffies s → Inv s
  Reach-Inv (start jiffies led) = record {
    period = omega arith;
    desc = refl;
    past = tt;
    expiry = tt;
    spaced = tt;
  }
  Reach-Inv (next r step) = Step-Inv step (Reach-Inv r)

  -- Where `msecs_to_jiffies` does not decrease: however the ioctl is called after the timer
  -- is set up, and with whatever periods, each toggle of the LED comes at least the jiffies of 100 ms
  -- after the one before, and the period is never below 100.
  pub reach-Spaced :
      {s : Clock to_jiffies}
      → Reach to_jiffies s
      → Spaced (to_jiffies 100) s.toggles × (100 ≤ s.dev.timer_period)
  reach-Spaced r = let i = Reach-Inv r in (i.spaced, i.period)

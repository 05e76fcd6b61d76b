-- ===== src/Watchdog/Race/Overlap.antt =====
-- Two writes to 3_net_watchdog.c that overlap, the cooldown tested by both before either claims
-- `busy`.
use native.Mathlib.Decide.{ℕ_discrete}
use yocto_meta_hsiao.Base.{◌+◌, ◌≤◌, ◌<◌, ◌≡◌, refl, false, [], ◌∷◌, ℤ, arith}
use yocto_meta_hsiao.Watchdog.{Request, cooling, init_context}
use yocto_meta_hsiao.Watchdog.Race.{
  System, check, claim, publish, stamp, queue, take, finish, Reach, start, next,
}

-- Whenever two writes may pass the cooldown test together, both may be accepted, however long the
-- cooldown: a state is reachable in which the second request was accepted less than its cooldown
-- after the first.
cooldown_race :
    (r : Request) (n m : ℤ)
    → cooling r init_context ≡ false
    → 0 < r.cooldown
    → r.jiffies ≤ r.stamp
    → (s : System) × Reach s
      × (s.accepted ≡ (r, m) ∷ (r, n) ∷ [])
      × ¬ (r.stamp + r.cooldown ≤ r.jiffies)
unfolding ℕ_discrete init_context
cooldown_race r n m over pos_cool stamped_later = (
  _,
  next
      (next
        (next
          (next
            (next
              (next
                (next
                  (next
                    (next
                      (next (next (next start (check 0 r n refl over)) (check 1 r m refl over))
                        (claim 0 r n refl refl))
                      (publish 0 r n refl))
                    (stamp 0 r n refl))
                  (queue 0 r n refl refl))
                (take refl refl))
              (finish n refl))
            (claim 1 r m refl refl))
          (publish 1 r m refl))
        (stamp 1 r m refl))
      (queue 1 r m refl refl),
  refl,
  λ h. omega arith,
)

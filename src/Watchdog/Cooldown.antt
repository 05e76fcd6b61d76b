-- ===== src/Watchdog/Cooldown.antt =====
-- Requests to 3_net_watchdog.c that come one after another, with the work run in between,
-- against the cooldown. (Race.antt has what overlapping writes do.)
use yocto_meta_hsiao.Base.{
  ℤ, subst, ℕ, ◌+◌, ◌^◌, ◌≤◌, ◌<◌, ◌≡◌, refl, inl, inr, Bool, false, List, [], ◌∷◌, Option, none,
  some, All, if◌then◌else◌, is_neg, arith,
}
use yocto_meta_hsiao.Watchdog.{
  Request, RestartContext, cooling, net_watchdog_write, net_watchdog_restart_work,
}
use yocto_meta_hsiao.Watchdog.Branches.{Idle, QueueOwned, claimed_by, write-ends}

-- A write, or the queue running the work if it is there.
pub data Event : Type 0 where
  request : Request → Event
  work : Option Bool → Event

-- The queue takes the work off before it runs it.
abbrev pub run_work : Option Bool → RestartContext → RestartContext
run_work found c =
    if c.pending then (net_watchdog_restart_work found (record c { pending = false })).1 else c

-- The requests that a run accepts, in order.
pub accepted : RestartContext → List Event → List Request
accepted c [] = []
accepted c (work found ∷ es) = accepted (run_work found c) es
accepted c (request r ∷ es) =
    let (ret, c') = net_watchdog_write r c in
    let rest = accepted c' es in if is_neg ret then rest else r ∷ rest

-- Each request comes at least its cooldown after the one before.
abbrev pub Spaced : ℕ → List Request → Type 0
Spaced last [] = Unit {0}
Spaced last (r ∷ rs) = (last + r.cooldown ≤ r.jiffies) × Spaced r.stamp rs

-- The times are far from where `jiffies` wraps around.
abbrev pub Early : Event → Type 0
Early (work found) = Unit {0}
Early (request r) = (r.jiffies < 2 ^ 62) × (r.stamp < 2 ^ 62) × (r.cooldown < 2 ^ 62)

cooled :
    (r : Request) (c : RestartContext)
    → c.last_request < 2 ^ 62
    → r.jiffies < 2 ^ 62
    → r.cooldown < 2 ^ 62
    → cooling r c ≡ false
    → c.last_request + r.cooldown ≤ r.jiffies
cooled r c h j d e = ground arith

run_work-keeps :
    (found : Option Bool) (c : RestartContext)
    → QueueOwned c
    → QueueOwned (run_work found c) × ((run_work found c).last_request ≡ c.last_request)
unfolding net_watchdog_restart_work
run_work-keeps none c q = (λ p. ground arith, ground arith)
run_work-keeps (some running) c q = (λ p. ground arith, ground arith)

-- The work done: nothing is in progress, and the time of the request is kept.
pub run_work-Idle :
    (found : Option Bool) (r : Request) (n : ℤ)
    → let c = run_work found (claimed_by r n) in Idle c × (c.last_request ≡ r.stamp)
unfolding net_watchdog_restart_work
run_work-Idle none r n = (record { free = refl; unqueued = refl }, refl)
run_work-Idle (some running) r n = (record { free = refl; unqueued = refl }, refl)

-- Without work on the queue nothing runs.
pub run_work_none : (found : Option Bool) (c : RestartContext) → Idle c → run_work found c ≡ c
run_work_none found c idle = rw (idle.unqueued) refl

-- The test of the cooldown, away from where `jiffies` wraps around.
pub cooled_down :
    (r : Request) (c : RestartContext)
    → c.last_request + r.cooldown ≤ r.jiffies
    → r.jiffies < 2 ^ 62
    → cooling r c ≡ false
cooled_down r c h j = ground arith

-- In a run of writes one after another and of the work, started while the work is queued only with
-- `busy` set and with all times below 2 ^ 62, the accepted requests are spaced: from the time of
-- one to the cooldown test of the next there lies the cooldown that then holds.
pub accepted-Spaced :
    (es : List Event) (c : RestartContext)
    → QueueOwned c
    → c.last_request < 2 ^ 62
    → All Early es
    → Spaced c.last_request (accepted c es)
unfolding accepted
accepted-Spaced [] c q h early = tt
accepted-Spaced (work found ∷ es) c q h early =
    let keep = run_work-keeps found c q in
    subst (λ l. Spaced l (accepted (run_work found c) es)) keep.1
      (accepted-Spaced es (run_work found c) keep.0 (rw keep.1 h) early.1)
accepted-Spaced (request r ∷ es) c q h early = elim (write-ends r c q) [
  | inl (negative, same) ↦ rw (negative, same) (accepted-Spaced es c q h early.1)
  | inr (n, bytes, copied, parsed, admin, bounds, over, free, ret, claimed) ↦
      rw (ret, claimed)
        (
          cooled r c h early.0.0 early.0.2 over,
          accepted-Spaced es (claimed_by r n) (λ _. refl) early.0.1 early.1,
        )
]

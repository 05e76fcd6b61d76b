-- ===== src/Watchdog/Race/Exact.antt =====
-- The requests that writes to 3_net_watchdog.c have accepted, against the runs of its work.
use yocto_meta_hsiao.Base.{
  subst, Bool-cases, inl, inr, ◌≡◌, ◌∙◌, ◌∷◌, ◌++◌, [], refl, ap, true, false, arith, ℤ, Bool, List,
}
use yocto_meta_hsiao.Watchdog.{Request, init_context}
use yocto_meta_hsiao.Watchdog.Race.{
  Worker, asleep, restarting, System, Step, check, claim, busy, publish, stamp, queue, queued, take,
  finish, Reach, start, next,
}
use yocto_meta_hsiao.Watchdog.Race.Invariant.{Stores, Inv, Reach-Inv}

-- The indices of the accepted requests.
abbrev pub indices : List (Request × ℤ) → List ℤ
indices [] = []
indices ((r, n) ∷ log) = n ∷ indices log

-- The index of the running work, and before it that which queued work will read.
abbrev pub running : Worker → List ℤ
running asleep = []
running (restarting m) = m ∷ []

abbrev pub ongoing : Bool → ℤ → Worker → List ℤ
ongoing true n w = n ∷ running w
ongoing false n w = running w

abbrev pub IsExact : System → Type 0
IsExact s = indices s.accepted ≡ ongoing s.ctx.pending s.ctx.ifindex s.worker ++ s.restarted

-- Without queued or running work the index may change.
at_rest :
    (n m : ℤ) {pending : Bool} {w : Worker}
    → pending ≡ false
    → w ≡ asleep
    → ongoing pending n w ≡ ongoing pending m w
at_rest n m p e = rw (p, e) refl

Step-IsExact : {s t : System} → Inv s → Step s t → IsExact s → IsExact t
Step-IsExact v (check i r n p c) e = e
Step-IsExact v (claim i r n p b) e = e
Step-IsExact v (busy i r n p b) e = e
Step-IsExact {s} v (publish i r n p) e =
    let (pend, w) = v.alone i (rw p refl) in
    e ∙ ap (λ l. l ++ s.restarted) (at_rest s.ctx.ifindex n pend w)
Step-IsExact v (stamp i r n p) e = e
Step-IsExact {s} v (queue i r n p q) e =
    let (pend, w) = v.alone i (rw p refl) in
    let index : s.ctx.ifindex ≡ n = subst (Stores s.ctx.ifindex) p (v.stored i) in
    let rested : indices s.accepted ≡ s.restarted = e ∙ rw (pend, w) refl in
    rw (index, w) (ap (λ l. n ∷ l) rested)
Step-IsExact v (queued i r n p q) e = absurd (ground (arith, v.alone i))
Step-IsExact {s} v (take q w) e = e ∙ rw (q, w) refl
Step-IsExact {s} v (finish n w) e = elim (Bool-cases (s.ctx.pending)) [
  | inl p ↦ absurd (ground (arith, v.one_work p))
  | inr p ↦ e ∙ rw (p, w) refl
]

-- In every state that overlapping writes and the worker can reach, the work has been run for the
-- index of each accepted request once, in the order in which they were accepted, save the one that it
-- runs for and the one that is queued, if any; and queued work will read the index of the latter.
pub restarts-IsExact :
    {s : System}
    → Reach s
    → indices s.accepted ≡ ongoing s.ctx.pending s.ctx.ifindex s.worker ++ s.restarted
unfolding init_context
restarts-IsExact start = refl
restarts-IsExact (next r e) = Step-IsExact (Reach-Inv r) e (restarts-IsExact r)

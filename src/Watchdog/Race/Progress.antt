-- ===== src/Watchdog/Race/Progress.antt =====
-- Whoever has claimed `busy` in 3_net_watchdog.c can go on to the end of the restart that clears it.
use mathlib.Core.Logic.{ite}
use native.Mathlib.Decide.{ℕ_discrete}
use yocto_meta_hsiao.Base.{
  List, ◌++◌, [], ◌∷◌, sym, append_assoc, ℤ, Bool-cases, inl, inr, arith, update, update_same, ◌≡◌,
  ◌≢◌, ◌∙◌, refl, ap, true, false, ℤ, ℕ,
}
use yocto_meta_hsiao.Watchdog.{Request, init_context}
use yocto_meta_hsiao.Watchdog.Race.{
  Run, here, step, Pc, idle, checked, claimed, published, stamped, asleep, restarting, System, Step,
  check, claim, busy, publish, stamp, queue, queued, take, finish, Reach, start, next,
}
use yocto_meta_hsiao.Watchdog.Race.Exact.{indices, restarts-IsExact}
use yocto_meta_hsiao.Watchdog.Race.Invariant.{owns, Reach-Inv}

-- Who will clear `busy`: a writer that has claimed it, the queued work, or the worker.
data Cleared (s : System) : Type 0 where
  writer : (i : ℕ) → owns (s.pc i) ≡ true → Cleared s
  work : s.ctx.pending ≡ true → Cleared s
  worker : (n : ℤ) → s.worker ≡ restarting n → Cleared s

abbrev HasOwner : System → Type 0
HasOwner s = s.ctx.busy ≢ 0 → Cleared s

-- A step of one writer that keeps its claim, or had none, and leaves the queue and the worker alone.
kept :
    {s t : System} (i : ℕ) (q : Pc)
    → owns q ≡ owns (s.pc i)
    → t.pc ≡ update s.pc i q
    → t.ctx.pending ≡ s.ctx.pending
    → t.worker ≡ s.worker
    → Cleared s
    → Cleared t
kept {s} i q same pcs p w (writer j o) = writer j (
    rw pcs (elim (ℕ_discrete i j) as (λ d. owns (ite d q (s.pc j)) ≡ true) [
      | yes e ↦ same ∙ (ap (λ x. owns (s.pc x)) e ∙ o)
      | no ne ↦ o
    ]))
kept i q same pcs p w (work e) = work (p ∙ e)
kept i q same pcs p w (worker n e) = worker n (w ∙ e)

Step-HasOwner : {s t : System} → Step s t → HasOwner s → HasOwner t
Step-HasOwner (check i r n p c) h b = kept i (checked r n) (rw p refl) refl refl refl (h b)
Step-HasOwner {s} (claim i r n p b) h b' = writer i (rw (update_same s.pc i (claimed r n)) refl)
Step-HasOwner (busy i r n p b) h b' = kept i idle (rw p refl) refl refl refl (h b')
Step-HasOwner (publish i r n p) h b = kept i (published r n) (rw p refl) refl refl refl (h b)
Step-HasOwner (stamp i r n p) h b = kept i (stamped r n) (rw p refl) refl refl refl (h b)
Step-HasOwner (queue i r n p q) h b = work refl
Step-HasOwner (queued i r n p q) h b = absurd (b refl)
Step-HasOwner {s} (take q w) h b = worker s.ctx.ifindex refl
Step-HasOwner (finish n w) h b = absurd (b refl)

Reach-HasOwner : {s : System} → Reach s → HasOwner s
unfolding init_context
Reach-HasOwner start = λ b. absurd (b refl)
Reach-HasOwner (next r e) = Step-HasOwner e (Reach-HasOwner r)

-- From a state with the worker or the queued work, on to `busy` clear and nothing queued or running,
-- for the request accepted last.
abbrev Clears : System → Type 0
Clears s = (t : System) × Run s t × (t.ctx.busy ≡ 0) × (t.ctx.pending ≡ false) × (t.worker ≡ asleep)

finishes :
    {s t : System} (n : ℤ) → Run s t → t.worker ≡ restarting n → t.ctx.pending ≡ false → Clears s
finishes n r w p = (_, step r (finish n w), refl, p, refl)

takes : {s t : System} → Run s t → t.ctx.pending ≡ true → t.worker ≡ asleep → Clears s
takes {t} r p w = finishes t.ctx.ifindex (step r (take p w)) refl refl

queues :
    {s t : System} (i : ℕ) (r : Request) (n : ℤ)
    → Run s t
    → t.pc i ≡ stamped r n
    → t.ctx.pending ≡ false
    → t.worker ≡ asleep
    → Clears s
queues i r n run e p w = takes (step run (queue i r n e p)) refl w

stamps :
    {s t : System} (i : ℕ) (r : Request) (n : ℤ)
    → Run s t
    → t.pc i ≡ published r n
    → t.ctx.pending ≡ false
    → t.worker ≡ asleep
    → Clears s
stamps {t} i r n run e p w =
    queues i r n (step run (stamp i r n e)) (update_same t.pc i (stamped r n)) p w

publishes :
    {s t : System} (i : ℕ) (r : Request) (n : ℤ)
    → Run s t
    → t.pc i ≡ claimed r n
    → t.ctx.pending ≡ false
    → t.worker ≡ asleep
    → Clears s
publishes {t} i r n run e p w =
    stamps i r n (step run (publish i r n e)) (update_same t.pc i (published r n)) p w

writer-Clears :
    (s : System) (i : ℕ) (q : Pc)
    → s.pc i ≡ q
    → owns q ≡ true
    → s.ctx.pending ≡ false
    → s.worker ≡ asleep
    → Clears s
writer-Clears s i (claimed r n) e o p w = publishes i r n here e p w
writer-Clears s i (published r n) e o p w = stamps i r n here e p w
writer-Clears s i (stamped r n) e o p w = queues i r n here e p w
writer-Clears s i idle e o p w = absurd (ground arith)
writer-Clears s i (checked r n) e o p w = absurd (ground arith)

clears : {s : System} → Reach s → Cleared s → Clears s
clears {s} r (writer i o) =
    let (p, w) = (Reach-Inv r).alone i o in writer-Clears s i (s.pc i) refl o p w
clears r (work p) = takes here p ((Reach-Inv r).one_work p)
clears {s} r (worker n w) = elim (Bool-cases (s.ctx.pending)) [
  | inl p ↦ absurd (ground (arith, (Reach-Inv r).one_work p))
  | inr p ↦ finishes n here w p
]

Run-Reach : {s t : System} → Reach s → Run s t → Reach t
Run-Reach r here = r
Run-Reach r (step run e) = next (Run-Reach r run) e

-- Accepted requests stay accepted.
Step-accepted :
    {s t : System} → Step s t → (log : List (Request × ℤ)) × (t.accepted ≡ log ++ s.accepted)
Step-accepted (check i r n p c) = ([], refl)
Step-accepted (claim i r n p b) = ([], refl)
Step-accepted (busy i r n p b) = ([], refl)
Step-accepted (publish i r n p) = ([], refl)
Step-accepted (stamp i r n p) = ([], refl)
Step-accepted (queue i r n p q) = ((r, n) ∷ [], refl)
Step-accepted (queued i r n p q) = ([], refl)
Step-accepted (take q w) = ([], refl)
Step-accepted (finish n w) = ([], refl)

Run-accepted :
    {s t : System} → Run s t → (log : List (Request × ℤ)) × (t.accepted ≡ log ++ s.accepted)
Run-accepted here = ([], refl)
Run-accepted {s} (step run e) =
    let (log, l) = Run-accepted run in
    let (log', l') = Step-accepted e in
    (log' ++ log, l' ∙ (ap (λ x. log' ++ x) l ∙ sym (append_assoc log' log s.accepted)))

reach-Clears : {s : System} → Reach s → Clears s
reach-Clears {s} r = elim (ℕ_discrete s.ctx.busy 0) [
  | yes e ↦ let (_, p, w) = (Reach-Inv r).free e in (s, here, e, p, w)
  | no ne ↦ clears r (Reach-HasOwner r ne)
]

-- No accepted request is lost and `busy` is never stuck: from every state that overlapping writes
-- and the worker can reach, steps lead to a state in which `busy` is clear, nothing is queued or runs,
-- and the work has been run once, in order, for each request that has been accepted, those accepted
-- before among them.
pub accepted-restarted :
    {s : System}
    → Reach s
    → (t : System) × (log : List (Request × ℤ)) × Run s t
      × (t.ctx.busy ≡ 0)
      × (t.ctx.pending ≡ false)
      × (t.worker ≡ asleep)
      × (t.accepted ≡ log ++ s.accepted)
      × (t.restarted ≡ indices t.accepted)
accepted-restarted r =
    let (t, run, free, p, w) = reach-Clears r in
    let (log, l) = Run-accepted run in
    let exact = restarts-IsExact (Run-Reach r run) in
    (t, log, run, free, p, w, l, sym (exact ∙ rw (p, w) refl))

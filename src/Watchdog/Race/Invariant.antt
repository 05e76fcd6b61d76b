-- ===== src/Watchdog/Race/Invariant.antt =====
-- The invariant of the overlapping writes and the worker of 3_net_watchdog.c: who has claimed
-- `busy`, what is queued, and which interface the worker restarts.
use native.Mathlib.Decide.{ℕ_discrete}
use yocto_meta_hsiao.Base.{
  subst, ℕ, ◌≡◌, refl, Bool-cases, Bool, true, false, List, [], ◌∷◌, ℤ, arith,
}
use yocto_meta_hsiao.Watchdog.{Request, init_context}
use yocto_meta_hsiao.Watchdog.Race.{
  Pc, idle, checked, claimed, published, stamped, asleep, restarting, System, Step, check, claim,
  busy, publish, stamp, queue, queued, take, finish, Reach, start, next,
}

-- A writer between its claim of `busy` and the end of its `queue_work`.
abbrev pub owns : Pc → Bool
owns idle = false
owns (checked r n) = false
owns (claimed r n) = true
owns (published r n) = true
owns (stamped r n) = true

-- What a writer that has published its index has stored.
abbrev pub Stores : ℤ → Pc → Type 0
Stores n (published r m) = n ≡ m
Stores n (stamped r m) = n ≡ m
Stores n p = Unit {0}

abbrev pub Latest : List (Request × ℤ) → ℤ → Type 0
Latest [] n = ⊥
Latest ((r, m) ∷ log) n = n ≡ m

pub record Inv (s : System) : Type 0 where
  pub free :
      s.ctx.busy ≡ 0
      → ((i : ℕ) → owns (s.pc i) ≡ false) × (s.ctx.pending ≡ false) × (s.worker ≡ asleep)
  pub unique : (i j : ℕ) → owns (s.pc i) ≡ true → owns (s.pc j) ≡ true → i ≡ j
  pub alone : (i : ℕ) → owns (s.pc i) ≡ true → (s.ctx.pending ≡ false) × (s.worker ≡ asleep)
  pub one_work : s.ctx.pending ≡ true → s.worker ≡ asleep
  pub stored : (i : ℕ) → Stores s.ctx.ifindex (s.pc i)
  pub waits : s.ctx.pending ≡ true → Latest s.accepted s.ctx.ifindex
  pub runs : (n : ℤ) → s.worker ≡ restarting n → Latest s.accepted n

others_store : (n : ℤ) (p : Pc) → owns p ≡ false → Stores n p
others_store n idle e = tt
others_store n (checked r m) e = tt
others_store n (claimed r m) e = tt
others_store n (published r m) e = cc
others_store n (stamped r m) e = cc

Step-Inv : {s t : System} → Step s t → Inv s → Inv t
Step-Inv {s} (check i r n p c) v = record {
  free = λ b. (λ j. ground (arith, (v.free b).0 j), (v.free b).1, (v.free b).2);
  unique = λ j k a b. ground (arith, v.unique j k);
  alone = λ j a. ground (arith, v.alone j);
  one_work = v.one_work;
  stored = λ j. ground (arith, v.stored j);
  waits = v.waits;
  runs = v.runs;
}
Step-Inv {s} (claim i r n p b) v = record {
  free = λ e. absurd (omega arith);
  unique = λ j k x y. ground (arith, v.unique j k, (v.free b).0 j, (v.free b).0 k);
  alone = λ j a. ground (arith, v.alone j, v.free b);
  one_work = v.one_work;
  stored = λ j. ground (arith, v.stored j);
  waits = v.waits;
  runs = v.runs;
}
Step-Inv {s} (busy i r n p b) v = record {
  free = λ e. absurd (b e);
  unique = λ j k x y. ground (arith, v.unique j k);
  alone = λ j a. ground (arith, v.alone j);
  one_work = v.one_work;
  stored = λ j. ground (arith, v.stored j);
  waits = v.waits;
  runs = v.runs;
}
Step-Inv {s} (publish i r n p) v = record {
  free = λ e. ground (arith, (v.free e).0 i);
  unique = λ j k x y. ground (arith, v.unique j k, v.unique i j, v.unique i k);
  alone = λ j a. ground (arith, v.alone i);
  one_work = v.one_work;
  stored = λ j. elim (ℕ_discrete i j) [
    | yes e ↦ ground arith
    | no ne ↦ ground (arith, others_store n (s.pc j), v.unique i j, Bool-cases (owns (s.pc j)))
  ];
  waits = λ e. ground (arith, v.alone i);
  runs = v.runs;
}
Step-Inv {s} (stamp i r n p) v = record {
  free = λ e. ground (arith, (v.free e).0 i);
  unique = λ j k x y. ground (arith, v.unique j k, v.unique i j, v.unique i k);
  alone = λ j a. ground (arith, v.alone i);
  one_work = v.one_work;
  stored = λ j. ground (arith, v.stored i, v.stored j);
  waits = v.waits;
  runs = v.runs;
}
Step-Inv {s} (queue i r n p q) v = record {
  free = λ e. ground (arith, (v.free e).0 i);
  unique = λ j k x y. ground (arith, v.unique j k);
  alone = λ j a. ground (arith, v.unique i j);
  one_work = λ e. ground (arith, v.alone i);
  stored = λ j. ground (arith, v.stored j);
  waits = λ e. ground (arith, v.stored i);
  runs = λ m e. ground (arith, v.alone i);
}
Step-Inv {s} (queued i r n p q) v = absurd (ground (arith, v.alone i))
Step-Inv {s} (take q w) v = record {
  free = λ e. ground (arith, v.free e);
  unique = v.unique;
  alone = λ j a. ground (arith, v.alone j);
  one_work = λ e. ground arith;
  stored = v.stored;
  waits = λ e. ground arith;
  runs = λ m e. let same : s.ctx.ifindex ≡ m = cc in subst (Latest s.accepted) same (v.waits q);
}
Step-Inv {s} (finish n w) v = record {
  free = λ e. (
    λ j. ground (arith, v.alone j, Bool-cases (owns (s.pc j))),
    ground (arith, v.one_work, Bool-cases (s.ctx.pending)),
    refl,
  );
  unique = v.unique;
  alone = λ j a. ground (arith, v.alone j);
  one_work = λ e. refl;
  stored = v.stored;
  waits = v.waits;
  runs = λ m e. ground arith;
}

init-Inv :
    Inv (record {
      ctx = init_context;
      pc = λ i. idle;
      worker = asleep;
      accepted = [];
      restarted = [];
    })
unfolding init_context
init-Inv = record {
  free = λ e. (λ i. refl, refl, refl);
  unique = λ i j a b. ground arith;
  alone = λ i a. ground arith;
  one_work = λ e. refl;
  stored = λ i. tt;
  waits = λ e. ground arith;
  runs = λ n e. ground arith;
}

pub Reach-Inv : {s : System} → Reach s → Inv s
Reach-Inv start = init-Inv
Reach-Inv (next r st) = Step-Inv st (Reach-Inv r)

-- In every state that overlapping writes and the worker can reach, at most one writer is between
-- its claim of `busy` and the end of its submission, and while one is, no work is queued or runs;
-- so its `queue_work` finds the work off the queue. And the worker never has work queued while it
-- runs it.
pub one_in_progress :
    {s : System}
    → Reach s
    → ((i j : ℕ) → owns (s.pc i) ≡ true → owns (s.pc j) ≡ true → i ≡ j)
      × ((i : ℕ) → owns (s.pc i) ≡ true → (s.ctx.pending ≡ false) × (s.worker ≡ asleep))
      × (s.ctx.pending ≡ true → s.worker ≡ asleep)
one_in_progress r = let v = Reach-Inv r in (v.unique, v.alone, v.one_work)

-- In every such state the interface that the worker is restarting is that of the request submitted
-- last, as is the one that queued work will read.
restarts-Latest :
    {s : System}
    → Reach s
    → ((n : ℤ) → s.worker ≡ restarting n → Latest s.accepted n)
      × (s.ctx.pending ≡ true → Latest s.accepted s.ctx.ifindex)
restarts-Latest r = let v = Reach-Inv r in (v.runs, v.waits)

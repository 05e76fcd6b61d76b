-- ===== src/Watchdog/Race.antt =====
-- Overlapping writes to 3_net_watchdog.c: the accesses that `submit` and the work make to the
-- shared context, one at a time, by any number of writers and the one worker of the ordered queue.
pub mod Invariant
pub mod Overlap
pub mod Alone
pub mod Exact
pub mod Progress
use yocto_meta_hsiao.Base.{update, ℕ, ◌≡◌, ◌≢◌, true, false, List, [], ◌∷◌, ℤ}
use yocto_meta_hsiao.Watchdog.{Request, RestartContext, cooling, init_context}

-- Where a writer stands, with its request and the index that it has parsed: before the cooldown
-- test, before `atomic_cmpxchg`, before the store to `ifindex`, before the one to `last_request`,
-- and before `queue_work`.
pub data Pc : Type 0 where
  idle : Pc
  checked claimed published stamped : Request → ℤ → Pc

-- The worker sleeps, or runs the work for an index.
pub data Worker : Type 0 where
  asleep : Worker
  restarting : ℤ → Worker

-- `accepted` holds what the writers submitted, and `restarted` the indices for which the worker has
-- run the work, the newest first.
pub record System : Type 0 where
  pub ctx : RestartContext
  pub pc : ℕ → Pc
  pub worker : Worker
  pub accepted : List (Request × ℤ)
  pub restarted : List ℤ

-- One access to the shared context.
pub data Step (s : System) : System → Type 0 where
  -- The cooldown test is passed.
  check :
      (i : ℕ) (r : Request) (n : ℤ)
      → s.pc i ≡ idle
      → cooling r s.ctx ≡ false
      → Step s (record s { pc = update s.pc i (checked r n) })
  -- `atomic_cmpxchg(&busy, 0, 1)`: it succeeds, or the write ends with -EBUSY.
  claim :
      (i : ℕ) (r : Request) (n : ℤ)
      → s.pc i ≡ checked r n
      → s.ctx.busy ≡ 0
      → Step s (record s { ctx = record (s.ctx) { busy = 1 }; pc = update s.pc i (claimed r n) })
  busy :
      (i : ℕ) (r : Request) (n : ℤ)
      → s.pc i ≡ checked r n
      → s.ctx.busy ≢ 0
      → Step s (record s { pc = update s.pc i idle })
  publish :
      (i : ℕ) (r : Request) (n : ℤ)
      → s.pc i ≡ claimed r n
      → Step s
          (record s { ctx = record (s.ctx) { ifindex = n }; pc = update s.pc i (published r n) })
  stamp :
      (i : ℕ) (r : Request) (n : ℤ)
      → s.pc i ≡ published r n
      → Step s (record s {
        ctx = record (s.ctx) { last_request = r.stamp };
        pc = update s.pc i (stamped r n);
      })
  -- `queue_work`: the work is put on the queue, or was on it and `busy` is cleared.
  queue :
      (i : ℕ) (r : Request) (n : ℤ)
      → s.pc i ≡ stamped r n
      → s.ctx.pending ≡ false
      → Step s (record s {
        ctx = record (s.ctx) { pending = true };
        pc = update s.pc i idle;
        accepted = (r, n) ∷ s.accepted;
      })
  queued :
      (i : ℕ) (r : Request) (n : ℤ)
      → s.pc i ≡ stamped r n
      → s.ctx.pending ≡ true
      → Step s (record s { ctx = record (s.ctx) { busy = 0 }; pc = update s.pc i idle })
  -- The worker takes the work off the queue and reads the index; it ends by clearing `busy`.
  take :
      s.ctx.pending ≡ true
      → s.worker ≡ asleep
      → Step s
          (record s { ctx = record (s.ctx) { pending = false }; worker = restarting s.ctx.ifindex })
  finish :
      (n : ℤ)
      → s.worker ≡ restarting n
      → Step s (record s {
        ctx = record (s.ctx) { busy = 0 };
        worker = asleep;
        restarted = n ∷ s.restarted;
      })

pub data Reach : System → Type 0 where
  start : Reach (record {
    ctx = init_context;
    pc = λ i. idle;
    worker = asleep;
    accepted = [];
    restarted = [];
  })
  next : {s t : System} → Reach s → Step s t → Reach t

-- A sequence of steps.
pub data Run (s : System) : System → Type 0 where
  here : Run s s
  step : {t u : System} → Run s t → Step t u → Run s u

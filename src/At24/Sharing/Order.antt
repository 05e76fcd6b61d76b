-- ===== src/At24/Sharing/Order.antt =====
-- The order of the calls that processes make of the EEPROM of 22_i2c_at24.c at once.
use mathlib.Core.Logic.{ite}
use native.Mathlib.Decide.{ℕ_discrete}
use yocto_meta_hsiao.Base.{
  ap, append_assoc, ◌∙◌, refl, List, Option, none, some, ◌++◌, ◌⊎◌, update, update_same,
  update_other, subst, sym, ◌≢◌, inl, inr, [], ◌∷◌, ◌≡◌, ◌≢◌, ◌∷◌, none, some, arith, List, Option,
  ℕ,
}
use yocto_meta_hsiao.At24.{At24Data, Kernel}
use yocto_meta_hsiao.At24.Sharing.{
  Run, here, step, update, Job, Done, Proc, reading, read_holds, looping, write_holds, sleeping,
  Shared, finished, System, Event, call, go, move, Run, here, step, Reach, start, next,
}
use yocto_meta_hsiao.At24.Sharing.Serial.{
  AtOnce, calls_of, Serial, unused, moved, stored, Placed, at_rest, reads, has_lock, writes,
  writes_next, sleeps, wakes, returned, Local, waits, acts,
}
use yocto_meta_hsiao.At24.Sharing.Steps.{turn-Local, enter-Local, rests-Placed}

-- The call that a process is in.
abbrev pub current : Proc → Option Job
current (reading j n) = some j
current (read_holds j n) = some j
current (looping j count total f) = some j
current (write_holds j count total f) = some j
current (sleeping j count total f) = some j
current q = none

calls_of-other :
    (h : List (ℕ × Done)) (i j : ℕ) (d : Done) → i ≢ j → calls_of j ((i, d) ∷ h) ≡ calls_of j h
calls_of-other h i j d ne = ground (arith, calls_of)

calls_of-same :
    (h : List (ℕ × Done)) (i : ℕ) (d : Done) → calls_of i ((i, d) ∷ h) ≡ d ∷ calls_of i h
calls_of-same h i d = ground (arith, calls_of)

module _ {S : Type 0} (kernel : ℕ → Job → Kernel S) (p : At24Data) (allowed : Job → Type 0)
    (moves : S → S → Type 0) (first : S) where
  abbrev Stands : List Done → List Done → ℕ → Proc → Type 0
  Stands l past i q = Placed kernel p allowed moves first l past i q

  record Ordered (s : System S) : Type 0 where
    history : List (ℕ × Done)
    serial : Serial kernel p allowed moves first s.shared.bus history
    stands : (i : ℕ) → Stands (calls_of i history) (s.past i) i (s.proc i)

  -- The order at a later state, in which calls are put behind those that were there.
  record Extends {s : System S} (o : Ordered s) (t : System S) : Type 0 where
    now : Ordered t
    more : List (ℕ × Done)
    extends : now.history ≡ more ++ o.history

  -- What holds of the process that moved, and of the others as they were, holds of all.
  all_stand :
      (procs : ℕ → Proc) (i : ℕ) (q : Proc) (l l' past past' : ℕ → List Done)
      → Stands (l' i) (past' i) i q
      → ((j : ℕ) → i ≢ j → (l' j ≡ l j) × (past' j ≡ past j))
      → ((j : ℕ) → Stands (l j) (past j) j (procs j))
      → (j : ℕ) → Stands (l' j) (past' j) j (update procs i q j)
  all_stand procs i q l l' past past' moved_ same before j =
      elim (ℕ_discrete i j) as (λ d. Stands (l' j) (past' j) j (ite d q (procs j))) [
        | yes e ↦ subst (λ j. Stands (l' j) (past' j) j q) e moved_
        | no ne ↦ let (a, b) = same j ne in rw (a, b) (before j)
      ]

  goes_on :
      {s : System S} (i : ℕ) (m : Shared S) (q : Proc) (past : ℕ → List Done) (o : Ordered s)
      → Local kernel p allowed moves first o.history i (past i) m.bus q
      → ((j : ℕ) → i ≢ j → past j ≡ s.past j)
      → Extends o (record { shared = m; proc = update s.proc i q; past = past })
  goes_on {s} i m q past o (waits ser pl) same = record {
    now = record {
      history = o.history;
      serial = ser;
      stands =
          all_stand s.proc i q (λ j. calls_of j o.history) (λ j. calls_of j o.history) s.past past
            pl (λ j ne. (refl, same j ne)) o.stands;
    };
    more = [];
    extends = refl;
  }
  goes_on {s} i m q past o (acts d ser pl) same = record {
    now = record {
      history = (i, d) ∷ o.history;
      serial = ser;
      stands =
          all_stand s.proc i q (λ j. calls_of j o.history) (λ j. calls_of j ((i, d) ∷ o.history))
            s.past past (subst (λ l. Stands l (past i) i q) (sym (calls_of-same o.history i d)) pl)
            (λ j ne. (calls_of-other o.history i j d ne, same j ne)) o.stands;
    };
    more = (i, d) ∷ [];
    extends = refl;
  }

  Event-Extends :
      {s t : System S}
      → ((j : Job) → allowed j → AtOnce p j)
      → Event kernel p allowed moves s t
      → (o : Ordered s) → Extends o t
  Event-Extends {s} once (call i r f resting ok) o =
      let before = finished (s.proc i) ++ s.past i in
      goes_on i s.shared _ (update s.past i before) o
        (enter-Local kernel p allowed moves first o.history i (update s.past i before i)
          s.shared.bus r f ok (once _ ok) o.serial
          (rests-Placed kernel p allowed moves first f resting (o.stands i)
            ∙ sym (update_same s.past i before)))
        (λ j ne. update_other s.past i j before ne)
  Event-Extends {s} once (go i m q e) o =
      goes_on i m q s.past o
        (subst
          (λ (mq : Shared S × Proc).
            Local kernel p allowed moves first o.history i (s.past i) mq.0.bus mq.1)
          e (turn-Local kernel p allowed moves first s.shared o.serial (o.stands i)))
        (λ j ne. refl)
  Event-Extends once (move bus' e) o = record {
    now = record { history = o.history; serial = moved o.serial e; stands = o.stands };
    more = [];
    extends = refl;
  }

  Reach-Ordered :
      {s : System S}
      → ((j : Job) → allowed j → AtOnce p j)
      → Reach kernel p allowed moves first s
      → Ordered s
  Reach-Ordered once (start files) = record {
    history = [];
    serial = unused;
    stands = λ i. at_rest (files i) refl;
  }
  Reach-Ordered once (next r e) = (Event-Extends once e (Reach-Ordered once r)).now

  Run-Extends :
      {s t : System S}
      → ((j : Job) → allowed j → AtOnce p j)
      → Run kernel p allowed moves s t
      → (o : Ordered s) → Extends o t
  Run-Extends once here o = record { now = o; more = []; extends = refl }
  Run-Extends once (step r e) o =
      let x = Run-Extends once r o in
      let y = Event-Extends once e x.now in
      record {
        now = y.now;
        more = y.more ++ x.more;
        extends =
            y.extends
            ∙ (ap (λ h. y.more ++ h) x.extends ∙ sym (append_assoc y.more x.more o.history));
      }

  -- The calls of process `i` in a history against those it has made.
  abbrev pub Accounts : List (ℕ × Done) → System S → ℕ → Type 0
  Accounts h s i =
      let returned_ = finished (s.proc i) ++ s.past i in
      (calls_of i h ≡ returned_)
      ⊎ ((d : Done) × (calls_of i h ≡ d ∷ returned_) × (current (s.proc i) ≡ some d.job))

  Placed-Accounts :
      (s : System S) (h : List (ℕ × Done)) (i : ℕ) (q : Proc)
      → s.proc i ≡ q
      → Stands (calls_of i h) (s.past i) i q
      → Accounts h s i
  Placed-Accounts s h i q e (at_rest f l) = inl (rw e l)
  Placed-Accounts s h i q e (reads j n l r) = inl (rw e l)
  Placed-Accounts s h i q e (has_lock j n l r) = inl (rw e l)
  Placed-Accounts s h i q e (writes j count f l w) = inl (rw e l)
  Placed-Accounts s h i q e (writes_next j count f l w lt) = inl (rw e l)
  Placed-Accounts s h i q e (sleeps j count f l) = inr (stored j count f, rw e l, rw e refl)
  Placed-Accounts s h i q e (wakes j count f l) = inr (stored j count f, rw e l, rw e refl)
  Placed-Accounts s h i q e (returned d l) = inl (rw e l)

-- Processes that make allowed calls all at once, on a bus that may fail or change by itself, where no
-- write is allowed but those whose bytes, clipped, are within a page: at any state, and at any later
-- one, the bus is as if their calls had been made one after the other by the driver's read and write
-- as one function each, with the results, the positions and the kernel calls that each process got.
-- In that order a process' calls are those that have returned to it, in its own order, and perhaps
-- the one that it is in; and the later order only puts calls behind those of the order before, so
-- that a call that has returned comes before every call that is made after that.
pub calls-Serial :
    {S : Type 0} (kernel : ℕ → Job → Kernel S) (p : At24Data) (allowed : Job → Type 0)
    (moves : S → S → Type 0) (first : S) {s t : System S}
    → ((j : Job) → allowed j → AtOnce p j)
    → Reach kernel p allowed moves first s
    → Run kernel p allowed moves s t
    → (h more : List (ℕ × Done)) × Serial kernel p allowed moves first s.shared.bus h
      × ((i : ℕ) → Accounts kernel p allowed moves first h s i)
      × Serial kernel p allowed moves first t.shared.bus (more ++ h)
      × ((i : ℕ) → Accounts kernel p allowed moves first (more ++ h) t i)
calls-Serial {S} kernel p allowed moves first {s} {t} once r run =
    let o = Reach-Ordered kernel p allowed moves first once r in
    let x = Run-Extends kernel p allowed moves first once run o in
    let accounts : (s : System S) (o : Ordered kernel p allowed moves first s) (i : ℕ)
        → Accounts kernel p allowed moves first o.history s i =
      λ s o i.
        Placed-Accounts kernel p allowed moves first s o.history i (s.proc i) refl (o.stands i) in
    (
      o.history,
      x.more,
      o.serial,
      accounts s o,
      subst (Serial kernel p allowed moves first t.shared.bus) x.extends x.now.serial,
      λ i. subst (λ h. Accounts kernel p allowed moves first h t i) x.extends (accounts t x.now i),
    )

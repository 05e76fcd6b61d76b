-- ===== src/At24/Sharing/Mutex.antt =====
-- The lock of the processes that share the EEPROM of 22_i2c_at24.c.
use yocto_meta_hsiao.Base.{
  List, Option, Bool-cases, Option-cases, subst, ◌≡◌, ◌∙◌, refl, sym, inl, inr, true, false, none,
  some, arith, Bool, ltb, ℕ,
}
use yocto_meta_hsiao.At24.{At24Data, Kernel}
use yocto_meta_hsiao.At24.Sharing.{
  write, update, read, File, Job, Done, Proc, idle, reading, read_holds, looping, write_holds,
  sleeping, ended, Shared, lock, enter, read_turn, chunk_turn, turn, rests, System, Event, call, go,
  move, Reach, start, next,
}

-- Between `mutex_lock` and `mutex_unlock`.
abbrev pub holds : Proc → Bool
holds (read_holds j n) = true
holds (write_holds j count total f) = true
holds q = false

-- What a turn of process `i` does to the lock: nothing, it takes it, or it gives it back.
data Locking {S : Type 0} (i : ℕ) (m m' : Shared S) (q q' : Proc) : Type 0 where
  keeps : m'.owner ≡ m.owner → holds q' ≡ holds q → Locking i m m' q q'
  takes :
      m.owner ≡ none → m'.owner ≡ some i → holds q ≡ false → holds q' ≡ true → Locking i m m' q q'
  gives : holds q ≡ true → holds q' ≡ false → m'.owner ≡ none → Locking i m m' q q'

lock-Locking :
    {S : Type 0} (i : ℕ) (bus : S) (o : Option ℕ) (q q' : Proc)
    → holds q ≡ false
    → holds q' ≡ true
    → let m : Shared S = record { bus = bus; owner = o } in
      let (m', r) = lock i m q q' in Locking i m m' q r
unfolding lock
lock-Locking i bus none q q' out in_ = takes refl refl out in_
lock-Locking i bus (some o) q q' out in_ = keeps refl refl

module _ {S : Type 0} (k : Job → Kernel S) (p : At24Data) where
  enter-holds : (j : Job) → holds (enter k p j) ≡ false
  unfolding enter
  enter-holds j = elim (j.request) [ read count ↦ ground arith | write count ↦ ground arith ]

  pub chunk_turn-holds :
      (j : Job) (count total : ℕ) (f : File) (bus : S)
      → holds (chunk_turn k p j count total f bus).1 ≡ false
  unfolding chunk_turn
  chunk_turn-holds j count total f bus = ground arith

  turn-Locking :
      (i : ℕ) (m : Shared S) (q : Proc) → let (m', q') = turn k p i m q in Locking i m m' q q'
  unfolding turn read_turn
  turn-Locking i m (idle f) = keeps refl refl
  turn-Locking i m (reading j n) = lock-Locking i m.bus m.owner _ _ refl refl
  turn-Locking i m (read_holds j n) = gives refl refl refl
  turn-Locking i m (looping j count total f) = elim (Bool-cases (ltb total count)) [
    | inl more ↦ rw more (lock-Locking i m.bus m.owner _ _ refl refl)
    | inr all ↦ rw all (keeps refl refl)
  ]
  turn-Locking i m (write_holds j count total f) =
      gives refl (chunk_turn-holds j count total f m.bus) refl
  turn-Locking i m (sleeping j count total f) = keeps refl refl
  turn-Locking i m (ended d) = keeps refl refl

pub record Inv {S : Type 0} (s : System S) : Type 0 where
  pub held : (i : ℕ) → holds (s.proc i) ≡ true → s.shared.owner ≡ some i
  pub owned : (i : ℕ) → s.shared.owner ≡ some i → holds (s.proc i) ≡ true

rests-holds : (q : Proc) (f : File) → rests q ≡ some f → holds q ≡ false
rests-holds (idle g) f e = refl
rests-holds (ended d) f e = refl
rests-holds (reading j n) f e = ground arith
rests-holds (read_holds j n) f e = ground arith
rests-holds (looping j count total g) f e = ground arith
rests-holds (write_holds j count total g) f e = ground arith
rests-holds (sleeping j count total g) f e = ground arith

update-holds :
    (procs : ℕ → Proc) (i : ℕ) (q : Proc)
    → holds q ≡ holds (procs i)
    → (j : ℕ) → holds (update procs i q j) ≡ holds (procs j)
update-holds procs i q e j = ground (arith, e)

turn-Inv :
    {S : Type 0} {s : System S} (i : ℕ) (m : Shared S) (q : Proc) (past : ℕ → List Done)
    → Locking i s.shared m (s.proc i) q
    → Inv s
    → Inv (record { shared = m; proc = update s.proc i q; past = past })
turn-Inv {s} i m q past (keeps o h) v = record {
  held = λ j e. ground (arith, v.held j, update-holds s.proc i q h j, o);
  owned = λ j e. ground (arith, v.owned j, update-holds s.proc i q h j, o);
}
turn-Inv {s} i m q past (takes before after out in_) v = record {
  held = λ j e. ground (arith, v.held j, before, after, in_);
  owned = λ j e. ground (arith, v.owned j, before, after, in_);
}
turn-Inv {s} i m q past (gives in_ out after) v = record {
  held = λ j e. ground (arith, v.held j, v.held i, after, in_, out);
  owned = λ j e. ground (arith, after);
}

module _ {S : Type 0} {kernel : ℕ → Job → Kernel S} {p : At24Data} {allowed : Job → Type 0}
    {moves : S → S → Type 0} where
  Event-Inv : {s t : System S} → Event kernel p allowed moves s t → Inv s → Inv t
  Event-Inv {s} (call i r f at_rest ok) v =
      turn-Inv i s.shared _ _
        (keeps refl (enter-holds (kernel i) p _ ∙ sym (rests-holds (s.proc i) f at_rest))) v
  Event-Inv {s} (go i m q e) v =
      turn-Inv i m q s.past
        (subst (λ (mq : Shared S × Proc). Locking i s.shared mq.0 (s.proc i) mq.1) e
          (turn-Locking (kernel i) p i s.shared (s.proc i)))
        v
  Event-Inv {s} (move bus' e) v = record { held = v.held; owned = v.owned }

  pub Reach-Inv : {bus : S} {s : System S} → Reach kernel p allowed moves bus s → Inv s
  Reach-Inv (start files) = record { held = λ i e. ground arith; owned = λ i e. ground arith }
  Reach-Inv (next r e) = Event-Inv e (Reach-Inv r)

  -- Whatever processes do with the EEPROM at once, and whatever the bus does by itself: at most one
  -- process stands between its `mutex_lock` and its `mutex_unlock`, and the lock is free when none
  -- does, so that it is never lost.
  one_holder :
      {bus : S} {s : System S}
      → Reach kernel p allowed moves bus s
      → ((i j : ℕ) → holds (s.proc i) ≡ true → holds (s.proc j) ≡ true → i ≡ j)
        × (((i : ℕ) → holds (s.proc i) ≡ false) → s.shared.owner ≡ none)
  one_holder {s} r =
      let v = Reach-Inv r in
      (
        λ i j a b. ground (arith, v.held i a, v.held j b),
        λ none_hold. elim (Option-cases (s.shared.owner)) [
          | inl e ↦ e
          | inr (o, e) ↦ absurd (ground (arith, v.owned o e, none_hold o))
        ],
      )

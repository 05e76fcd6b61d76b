-- ===== src/At24/Sharing/Finish.antt =====
-- No call of the processes that share the EEPROM of 22_i2c_at24.c hangs.
use native.Mathlib.Decide.{ℕ_discrete}
use yocto_meta_hsiao.Base.{
  update_other, ◌≢◌, ap, true, ◌⊎◌, Option-cases, Option, is_neg, subst, ◌∙◌, ◌∙◌, ◌∷◌, false, pos,
  Bool-cases, ◌-◌, ◌<◌, ◌≡◌, refl, inl, inr, none, some, suc, arith, ℤ, Option, ltb, ℕ,
}
use yocto_meta_hsiao.At24.{send_chunk, chunk_len, kfree, At24Data, Kernel, World, read_locked}
use yocto_meta_hsiao.At24.Loop.{Returns, write_loop-Returns}
use yocto_meta_hsiao.At24.Sharing.{
  Run, here, step, Event, go, next, update, chunk_turn, Reach, Shared, File, Job, Done, Proc, idle,
  reading, read_holds, looping, write_holds, sleeping, ended, world, file, lock, read_turn, turn,
  System,
}
use yocto_meta_hsiao.At24.Sharing.Mutex.{Reach-Inv, chunk_turn-holds, holds}
use yocto_meta_hsiao.At24.Sharing.Order.{current}
use yocto_meta_hsiao.At24.Sharing.Alone.{Alone, goes, free, taken, Ends, Alone-rule}

some-inj : {a b : Job} → some a ≡ some b → a ≡ b
some-inj e = cc

module _ {S : Type 0} (kernel : ℕ → Job → Kernel S) (p : At24Data) (allowed : Job → Type 0)
    (moves : S → S → Type 0) (origin : System S) (pages : 0 < p.page_size) where
  -- Process `i` has returned from the call `j`, alone from `s`.
  abbrev Finished : System S → ℕ → Job → Type 0
  Finished s i j =
      (bus : S) × (d : Done) × (d.job ≡ j)
      × Alone kernel p allowed moves origin s i (free kernel p allowed moves origin s i bus)
          (ended d)

  abbrev FreeAt : System S → ℕ → S → Proc → Type 0
  FreeAt s i bus q =
      Alone kernel p allowed moves origin s i (free kernel p allowed moves origin s i bus) q

  returned :
      {s : System S} {i : ℕ} {j : Job} (o : Option (ℤ × World S))
      → Returns (Ends kernel p allowed moves origin s i j) o
      → Finished s i j
  returned {j} (some (ret, w)) a = (w.bus, record { job = j; ret = ret; file = file w }, refl, a)
  returned none a = absurd a

  -- The rest of a write.
  loop_finishes :
      (s : System S) (i : ℕ) (j : Job) (count total : ℕ) (f : File) (bus : S)
      → FreeAt s i bus (looping j count total f)
      → Finished s i j
  unfolding turn
  loop_finishes s i j count total f bus a = elim (Bool-cases (ltb total count)) [
    | inl more ↦ returned _ (
        write_loop-Returns (kernel i j) p count
          (Alone-rule kernel p allowed moves origin s i j count) (suc (count - total)) total
          (world bus f) pages (omega arith) (ground (arith, more)) a)
    | inr all ↦
        let d : Done = record {
          job = j;
          ret = pos total;
          file = record f { log = kfree ∷ f.log };
        } in
        (
          bus,
          d,
          refl,
          goes kernel p allowed moves origin s i {m = free kernel p allowed moves origin s i bus}
              {n = free kernel p allowed moves origin s i bus} {q = looping j count total f}
              {q' = ended d} (rw (all, turn) refl) a,
        )
  ]

  -- A process that does not have the lock, while it is free.
  free_finishes :
      (s : System S) (i : ℕ) (j : Job) (bus : S) (q : Proc)
      → current q ≡ some j
      → holds q ≡ false
      → FreeAt s i bus q
      → Finished s i j
  unfolding turn read_turn lock
  free_finishes s i j bus (reading b n) e h a =
      let (ret, w) = read_locked (kernel i b) p n (world bus b.file) in
      let d : Done = record { job = b; ret = ret; file = file w } in
      (
        w.bus,
        d,
        some-inj e,
        goes kernel p allowed moves origin s i {m = taken kernel p allowed moves origin s i bus}
            {q = read_holds b n} {q' = ended d} refl
            (goes kernel p allowed moves origin s i {m = free kernel p allowed moves origin s i bus}
              {n = taken kernel p allowed moves origin s i bus} {q = reading b n}
              {q' = read_holds b n} refl a),
      )
  free_finishes s i j bus (looping b count total f) e h a =
      let (bus', d, same, b_) = loop_finishes s i b count total f bus a in
      (bus', d, same ∙ some-inj e, b_)
  free_finishes s i j bus (sleeping b count total f) e h a =
      let (bus', d, same, b_) = loop_finishes s i b count total f bus (
        goes kernel p allowed moves origin s i {m = free kernel p allowed moves origin s i bus}
          {q = sleeping b count total f} {q' = looping b count total f} refl a) in
      (bus', d, same ∙ some-inj e, b_)
  free_finishes s i j bus (idle f) e h a = absurd (ground arith)
  free_finishes s i j bus (ended d) e h a = absurd (ground arith)
  free_finishes s i j bus (read_holds b n) e h a = absurd (ground arith)
  free_finishes s i j bus (write_holds b count total f) e h a = absurd (ground arith)

  -- A round under the lock returns from the call, or goes to sleep in it.
  chunk_result :
      (i : ℕ) (j : Job) (count total : ℕ) (f : File) (bus : S)
      → let q = (chunk_turn (kernel i) p j count total f bus).1 in
        ((d : Done) × (q ≡ ended d) × (d.job ≡ j)) ⊎ (current q ≡ some j)
  unfolding chunk_turn
  chunk_result i j count total f bus =
      let n = chunk_len p count (world bus f) total in
      elim (Option-cases ((kernel i j).copy_in total n)) [
        | inl c ↦ rw (c, chunk_turn) (inl (_, refl, refl))
        | inr (bytes, c) ↦
            elim (Bool-cases (is_neg (send_chunk (kernel i j) p total n bytes (world bus f)).0)) [
              | inl bad ↦ rw (c, bad, chunk_turn) (inl (_, refl, refl))
              | inr good ↦ rw (c, good, chunk_turn) (inr refl)
            ]
      ]

  -- A process that has the lock.
  holder_finishes :
      (s : System S) (i : ℕ) (j : Job) (bus : S) (q : Proc)
      → current q ≡ some j
      → holds q ≡ true
      → Alone kernel p allowed moves origin s i (taken kernel p allowed moves origin s i bus) q
      → Finished s i j
  unfolding turn read_turn
  holder_finishes s i j bus (read_holds b n) e h a =
      let (ret, w) = read_locked (kernel i b) p n (world bus b.file) in
      let d : Done = record { job = b; ret = ret; file = file w } in
      (
        w.bus,
        d,
        some-inj e,
        goes kernel p allowed moves origin s i {m = taken kernel p allowed moves origin s i bus}
            {q = read_holds b n} {q' = ended d} refl a,
      )
  holder_finishes s i j bus (write_holds b count total f) e h a =
      let (bus', q') = chunk_turn (kernel i) p b count total f bus in
      let given : FreeAt s i bus' q' =
        goes kernel p allowed moves origin s i {m = taken kernel p allowed moves origin s i bus}
          {q = write_holds b count total f} {q' = q'} refl a in
      elim (chunk_result i b count total f bus) [
        | inl (d, e', same) ↦ (bus', d, same ∙ some-inj e, subst (FreeAt s i bus') e' given)
        | inr e' ↦
            free_finishes s i j bus' q' (e' ∙ e) (chunk_turn-holds (kernel i) p b count total f bus)
              given
      ]
  holder_finishes s i j bus (idle f) e h a = absurd (ground arith)
  holder_finishes s i j bus (ended d) e h a = absurd (ground arith)
  holder_finishes s i j bus (reading b n) e h a = absurd (ground arith)
  holder_finishes s i j bus (looping b count total f) e h a = absurd (ground arith)
  holder_finishes s i j bus (sleeping b count total f) e h a = absurd (ground arith)

  -- The turn of the holder of the lock gives it back.
  holds-gives :
      (i : ℕ) (m : Shared S) (q : Proc) → holds q ≡ true → (turn (kernel i) p i m q).0.owner ≡ none
  unfolding turn
  holds-gives i m (read_holds j n) h = refl
  holds-gives i m (write_holds j count total f) h = refl
  holds-gives i m (idle f) h = absurd (ground arith)
  holds-gives i m (ended d) h = absurd (ground arith)
  holds-gives i m (reading b n) h = absurd (ground arith)
  holds-gives i m (looping b count total f) h = absurd (ground arith)
  holds-gives i m (sleeping b count total f) h = absurd (ground arith)

  owned_as : (m : Shared S) (o : Option ℕ) → m.owner ≡ o → m ≡ record { bus = m.bus; owner = o }
  owned_as m o e = ap (λ o. record { bus = m.bus; owner = o }) e

  -- From the state itself.
  stays :
      {s : System S} (i : ℕ) (o : Option ℕ)
      → Run kernel p allowed moves origin s
      → s.shared.owner ≡ o
      → Alone kernel p allowed moves origin s i
          (record { bus = s.shared.bus; owner = o })
          (s.proc i)
  stays {s} i o r e = record {
    last = s;
    run = r;
    shared = owned_as s.shared o e;
    here = refl;
    others = λ j ne. refl;
  }

  leaves :
      {s : System S} {i : ℕ} {j : Job}
      → Finished s i j
      → (t : System S) × (d : Done) × Run kernel p allowed moves origin t
        × (t.proc i ≡ ended d)
        × (d.job ≡ j)
  leaves (bus, d, same, a) = (a.last, d, a.run, a.here, same)

module _ {S : Type 0} (kernel : ℕ → Job → Kernel S) (p : At24Data) (allowed : Job → Type 0)
    (moves : S → S → Type 0) (first : S) (pages : 0 < p.page_size) where
  not_held :
      {s : System S} (i : ℕ)
      → Reach kernel p allowed moves first s
      → s.shared.owner ≢ some i
      → holds (s.proc i) ≡ false
  not_held {s} i r other = elim (Bool-cases (holds (s.proc i))) [
    | inl h ↦ absurd (other ((Reach-Inv r).held i h))
    | inr h ↦ h
  ]

  -- Where pages are not empty, no call hangs: from every state that the processes reach, steps lead to
  -- one in which a process that was in a call has returned from it, whoever had the lock.
  pub calls-finish :
      {s : System S} (i : ℕ) (j : Job)
      → Reach kernel p allowed moves first s
      → current (s.proc i) ≡ some j
      → (t : System S) × (d : Done) × Run kernel p allowed moves s t
        × (t.proc i ≡ ended d)
        × (d.job ≡ j)
  calls-finish {s} i j r e = elim (Option-cases (s.shared.owner)) [
    | inl unlocked ↦ leaves kernel p allowed moves s pages (
        free_finishes kernel p allowed moves s pages s i j s.shared.bus (s.proc i) e
          (not_held i r (λ h. ground (arith, unlocked, h)))
          (stays kernel p allowed moves s pages i none here unlocked))
    | inr (o, locked) ↦ elim (ℕ_discrete o i) [
      | yes same ↦
          let mine : s.shared.owner ≡ some i = locked ∙ ap some same in
          leaves kernel p allowed moves s pages (
            holder_finishes kernel p allowed moves s pages s i j s.shared.bus (s.proc i) e
              ((Reach-Inv r).owned i mine)
              (stays kernel p allowed moves s pages i (some i) here mine))
      | no ne ↦
          let (m, q) = turn (kernel o) p o s.shared (s.proc o) in
          let s1 : System S = record { shared = m; proc = update s.proc o q; past = s.past } in
          let moved_ : Event kernel p allowed moves s s1 = go o m q refl in
          let r1 : Reach kernel p allowed moves first s1 = next r moved_ in
          let given =
            holds-gives kernel p allowed moves s pages o s.shared (s.proc o)
              ((Reach-Inv r).owned o locked) in
          leaves kernel p allowed moves s pages (
            free_finishes kernel p allowed moves s pages s1 i j m.bus (s1.proc i)
              (ap current (update_other s.proc o i q ne) ∙ e)
              (not_held i r1 (λ h. ground (arith, given, h)))
              (stays kernel p allowed moves s pages i none (step here moved_) given))
    ]
  ]

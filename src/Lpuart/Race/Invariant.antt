-- ===== src/Lpuart/Race/Invariant.antt =====
-- The invariant of the processes that read from lpuart_interrupt.c at the same time: who holds the
-- mutex, what a process relies on where it stands, and where each received byte is.
use yocto_meta_hsiao.Base.{
  update_cases, subst, ◌==◌, length-append, ◌%◌, ◌∷◌, append_assoc, ap, length, ltb, Bool-cases,
  ◌∙◌, [], sym, inr, none, arith, Option, refl, ◌<◌, ◌⊎◌, ◌≢◌, ◌++◌, inl, true, false, some, ℤ,
  List, ℕ, ◌≡◌,
}
use yocto_meta_hsiao.Lpuart.{rdrf}
use yocto_meta_hsiao.Lpuart.Receive.{Kfifo, IsQueue, Buffer, Interrupt, fifo_size, lpuart_isr}
use yocto_meta_hsiao.Lpuart.Race.Turn.{locked, ReadResult, Sound, turn-Local}
use yocto_meta_hsiao.Lpuart.Race.{
  Reader, copying, returned, Shared, Readers, entry, woken, turn, isr, outside, Event, call, go,
  interrupt, Reach, start, next,
}

outside-locked : (p : Reader) → outside p ≡ true → locked p ≡ false
outside-locked p e = ground arith

entry-locked : (b : Option Buffer) → locked (entry b) ≡ false
unfolding entry
entry-locked none = refl
entry-locked (some b) = ground arith

module _ (F : Kfifo) where
  pub record Inv (contents : F.State → List ℕ) (s : Readers F) : Type 0 where
    pub held : (i : ℕ) → locked (s.reader i) ≡ true → s.mem.owner ≡ some i
    pub owned : (i : ℕ) → s.mem.owner ≡ some i → locked (s.reader i) ≡ true
    pub sound : (i : ℕ) → Sound F s.mem.fifo (s.reader i)
    pub stream : s.mem.accepted ≡ s.mem.given ++ contents s.mem.fifo

module _ (F : Kfifo) (contents : F.State → List ℕ) (q : IsQueue F contents) where
  isr-fifo :
      (x : Interrupt) (s : F.State)
      → let (t, wakes) = lpuart_isr F x s in
        (wakes ≡ true → (F.is_empty t ≡ false) × (contents t ≡ contents s ++ x.data_reg % 256 ∷ []))
        × (wakes ≡ false → contents t ≡ contents s)
        × (F.is_empty s ≡ false → F.is_empty t ≡ false)
        × (wakes ≡ false → F.is_empty t ≡ F.is_empty s)
  unfolding lpuart_isr
  isr-fifo x s = elim (Bool-cases (rdrf x.status)) [
    | inr e ↦ rw e (λ a. ground arith, λ a. refl, λ a. a, λ a. refl)
    | inl e ↦ elim (Bool-cases (ltb (length (contents s)) fifo_size)) [
      | inl room ↦
          (let (t, put, goes) = q.put_room s (x.data_reg % 256) (ground arith) in
            let full : F.is_empty t ≡ false =
              grind (
                arith,
                q.is_empty_lem t,
                goes,
                length-append (contents s) (x.data_reg % 256 ∷ []),
              ) in
            rw (e, put) (λ a. (full, goes), λ a. ground arith, λ a. full, λ a. ground arith))
      | inr full ↦
          (let at_size : length (contents s) ≡ fifo_size = ground (arith, q.bounded s) in
            rw (e, q.put_full s (x.data_reg % 256) at_size)
              (λ a. ground arith, λ a. refl, λ a. a, λ a. refl))
    ]
  ]

  woken-locked : (p : Reader) → locked (woken p) ≡ locked p
  unfolding woken
  woken-locked p = ground arith

  entry-Sound : (b : Option Buffer) (s : F.State) → Sound F s (entry b)
  unfolding entry
  entry-Sound none s = inl refl
  entry-Sound (some b) s = elim (Bool-cases (b.count == 0)) [
    | inl e ↦ rw e (inl refl)
    | inr e ↦ rw e (ground arith)
  ]

  -- A process that sees the FIFO as it was, or is not the one that has the mutex while it changes.
  keeps-Sound :
      (m n : Shared F) (i j : ℕ) (p : Reader)
      → i ≢ j
      → (locked p ≡ true → m.owner ≡ some j)
      → (n.fifo ≡ m.fifo) ⊎ ((m.owner ≡ some i) × (F.is_empty m.fifo ≡ false))
      → Sound F m.fifo p
      → Sound F n.fifo p
  keeps-Sound m n i j p ne h (inl e) s = subst (λ t. Sound F t p) (sym e) s
  keeps-Sound m n i j p ne h (inr (own, full)) s = ground arith

  woken-Sound :
      (s t : F.State) (p : Reader) → F.is_empty t ≡ false → Sound F s p → Sound F t (woken p)
  unfolding woken
  woken-Sound s t p full h = ground arith

  unwoken-Sound :
      (s t : F.State) (p : Reader) → F.is_empty t ≡ F.is_empty s → Sound F s p → Sound F t p
  unwoken-Sound s t p same h = ground arith

  isr-Inv : (x : Interrupt) (s : Readers F) → Inv F contents s → Inv F contents (isr F x s)
  unfolding isr
  isr-Inv x s v =
      let (wakes, quiet, full, same) = isr-fifo x s.mem.fifo in
      elim (Bool-cases (lpuart_isr F x s.mem.fifo).1) [
        | inl e ↦ rw e (record {
          held = λ j a. v.held j (sym (woken-locked (s.reader j)) ∙ a);
          owned = λ j a. woken-locked (s.reader j) ∙ v.owned j a;
          sound = λ j. woken-Sound s.mem.fifo _ (s.reader j) (wakes e).0 (v.sound j);
          stream =
              ap (λ xs. xs ++ x.data_reg % 256 ∷ []) v.stream
              ∙ append_assoc s.mem.given (contents s.mem.fifo) (x.data_reg % 256 ∷ [])
              ∙ ap (◌++◌ s.mem.given) (sym (wakes e).1);
        })
        | inr e ↦ rw e (record {
          held = v.held;
          owned = v.owned;
          sound = λ j. unwoken-Sound s.mem.fifo _ (s.reader j) (same e) (v.sound j);
          stream = v.stream ∙ ap (◌++◌ s.mem.given) (sym (quiet e));
        })
      ]

  pub Event-Inv : {s t : Readers F} → Event s t → Inv F contents s → Inv F contents t
  Event-Inv {s} (call i b out) v =
      let was = outside-locked (s.reader i) out in
      record {
        held = λ j.
            update_cases (λ p. locked p ≡ true → s.mem.owner ≡ some j) s.reader i (entry b) j
              (λ e a. ground (arith, entry-locked b)) (λ ne. v.held j);
        owned = λ j.
            update_cases (λ p. s.mem.owner ≡ some j → locked p ≡ true) s.reader i (entry b) j
              (λ e a. ground (arith, v.owned j a)) (λ ne. v.owned j);
        sound = λ j.
            update_cases (Sound F s.mem.fifo) s.reader i (entry b) j (λ e. entry-Sound b s.mem.fifo)
              (λ ne. v.sound j);
        stream = v.stream;
      }
  Event-Inv {s} (go i sig) v =
      let l =
        turn-Local F contents q i sig s.mem (s.reader i) (v.held i) (v.owned i) (v.sound i)
          v.stream in
      let (m, p) = turn F i sig s.mem (s.reader i) in
      record {
        held = λ j.
            update_cases (λ p. locked p ≡ true → m.owner ≡ some j) s.reader i p j
              (λ e a. l.held a ∙ ap some e) (λ ne a. (l.others j ne).1 (v.held j a));
        owned = λ j.
            update_cases (λ p. m.owner ≡ some j → locked p ≡ true) s.reader i p j
              (λ e a. l.owned (a ∙ ap some (sym e))) (λ ne a. v.owned j ((l.others j ne).0 a));
        sound = λ j.
            update_cases (Sound F m.fifo) s.reader i p j (λ e. l.sound)
              (λ ne. keeps-Sound s.mem m i j (s.reader j) ne (v.held j) l.kept (v.sound j));
        stream = l.stream;
      }
  Event-Inv {s} (interrupt x) v = isr-Inv x s v

  pub Reach-Inv :
      {new : F.State} {s : Readers F} → contents new ≡ [] → Reach new s → Inv F contents s
  Reach-Inv e start = record {
    held = λ i a. ground arith;
    owned = λ i a. ground arith;
    sound = λ i. tt;
    stream = sym e;
  }
  Reach-Inv e (next r st) = Event-Inv st (Reach-Inv e r)

-- With a FIFO that keeps what kfifo documents and is empty at first: however many processes read at
-- the same time, and whenever the port interrupts, each byte that the interrupt handler put in the
-- FIFO is copied to one process once, in the order of arrival, or is still in the FIFO: the bytes
-- accepted are those given to the processes, followed by the FIFO.
pub readers-stream :
    (F : Kfifo) (contents : F.State → List ℕ)
    → IsQueue F contents
    → {new : F.State} {s : Readers F} → contents new ≡ []
    → Reach new s
    → s.mem.accepted ≡ s.mem.given ++ contents s.mem.fifo
readers-stream F contents q e r = (Reach-Inv F contents q e r).stream

-- With such a FIFO: at most one process is between `mutex_lock_interruptible` and `mutex_unlock`, a
-- process that is about to copy finds a byte in the FIFO although it slept and others read
-- meanwhile, and a call that has returned gave an error or a number of bytes from 1 to its `count`:
-- never 0, which would be the end of the file.
pub readers-ReadResult :
    (F : Kfifo) (contents : F.State → List ℕ)
    → IsQueue F contents
    → {new : F.State} {s : Readers F} → contents new ≡ []
    → Reach new s
    → ((i j : ℕ) → locked (s.reader i) ≡ true → locked (s.reader j) ≡ true → i ≡ j)
      × ((i : ℕ) (b : Buffer) → s.reader i ≡ copying b → 0 < length (contents s.mem.fifo))
      × ((i n : ℕ) (ret : ℤ) → s.reader i ≡ returned n ret → ReadResult n ret)
readers-ReadResult F contents q {s} e r =
    let v = Reach-Inv F contents q e r in
    (
      λ i j a b. ground (arith, v.held i a, v.held j b),
      λ i b a.
          let (positive, full) = subst (Sound F s.mem.fifo) a (v.sound i) in
          ground (arith, q.is_empty_lem s.mem.fifo),
      λ i n ret a. subst (Sound F s.mem.fifo) a (v.sound i),
    )

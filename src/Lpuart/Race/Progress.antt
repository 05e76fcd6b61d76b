-- ===== src/Lpuart/Race/Progress.antt =====
-- The processes that read from lpuart_interrupt.c make progress: none sleeps while there is a byte
-- to read, one can always go on, and alone it does what `uart_read` does.
use yocto_meta_hsiao.Base.{
  Bool, update_same, update_other, ◌<◌, ◌++◌, ap, subst, ◌==◌, ◌∙◌, ◌∷◌, sym, inl, inr, none, some,
  Option, length, ◌⊎◌, ◌≢◌, [], true, false, arith, List, refl, ℕ, ◌≡◌,
}
use yocto_meta_hsiao.Lpuart.Receive.{
  lock, test_empty, Ended, read_out, read_loop, read_loop, uart_read, Kfifo, IsQueue, Buffer,
}
use yocto_meta_hsiao.Lpuart.Race.{
  lost, copying, testing, returned, read_out, go, Reader, locking, waiting, asleep, Shared, Readers,
  turn, outside, Run, Reach,
}
use yocto_meta_hsiao.Lpuart.Race.Turn.{locked, Sound}
use yocto_meta_hsiao.Lpuart.Race.Invariant.{Inv, Reach-Inv}

abbrev pub is_asleep : Reader → Bool
is_asleep (asleep b) = true
is_asleep p = false

-- The turn of a process, with no signal, changes where it stands.
abbrev pub Moves : {F : Kfifo} → Readers F → ℕ → Type 0
Moves {F} s i = (turn F i false s.mem (s.reader i)).1 ≢ s.reader i

locked_moves :
    (F : Kfifo) (m : Shared F) (i : ℕ) (p : Reader) → locked p ≡ true → (turn F i false m p).1 ≢ p
unfolding turn
locked_moves F m i p e h = ground arith

waiting_moves :
    (F : Kfifo) (m : Shared F) (i : ℕ) (b : Buffer) → (turn F i false m (waiting b)).1 ≢ waiting b
unfolding turn
waiting_moves F m i b h = ground arith

locking_moves :
    (F : Kfifo) (m : Shared F) (i : ℕ) (b : Buffer)
    → m.owner ≡ none
    → (turn F i false m (locking b)).1 ≢ locking b
unfolding turn
locking_moves F m i b e h = ground arith

nothing_held : (xs : List ℕ) → (length xs == 0) ≡ true → xs ≡ []
nothing_held [] e = refl
nothing_held (x ∷ xs) e = absurd (ground arith)

module _ (F : Kfifo) (contents : F.State → List ℕ) (q : IsQueue F contents) where
  -- The process that has the mutex can go on.
  owner-Moves : (s : Readers F) (j : ℕ) → Inv F contents s → s.mem.owner ≡ some j → Moves s j
  owner-Moves s j v own = locked_moves F s.mem j (s.reader j) (v.owned j own)

  progress_from :
      (s : Readers F) (i : ℕ) (p : Reader)
      → Inv F contents s
      → s.reader i ≡ p
      → outside p ≡ false
      → ((b : Buffer) × (p ≡ asleep b) × (contents s.mem.fifo ≡ []))
        ⊎ ((is_asleep p ≡ false) × (j : ℕ) × Moves s j)
  progress_from s i (locking b) v e h = lock_from s.mem.owner refl
    where
      lock_from :
          (o : Option ℕ)
          → s.mem.owner ≡ o
          → ((b' : Buffer) × (locking b ≡ asleep b') × (contents s.mem.fifo ≡ []))
            ⊎ ((is_asleep (locking b) ≡ false) × (j : ℕ) × Moves s j)
      lock_from none o = inr (refl, i, rw e (locking_moves F s.mem i b o))
      lock_from (some j) o = inr (refl, j, owner-Moves s j v o)
  progress_from s i (waiting b) v e h = inr (refl, i, rw e (waiting_moves F s.mem i b))
  progress_from s i (asleep b) v e h =
      let (positive, empty) = subst (Sound F s.mem.fifo) e (v.sound i) in
      inl (b, refl, nothing_held (contents s.mem.fifo) (sym (q.is_empty_lem s.mem.fifo) ∙ empty))
  progress_from s i (lost b) v e h = absurd (subst (Sound F s.mem.fifo) e (v.sound i))
  progress_from s i p v e h =
      inr (ground arith, i, ground (arith, locked_moves F s.mem i (s.reader i)))

-- With a FIFO that keeps what kfifo documents and is empty at first: in every state that is reached,
-- a process that is in a call is asleep and the FIFO is empty, or it is not asleep and it or some
-- other process can go on without a signal or an interrupt. So no wake-up is lost, the mutex is never
-- left locked, and no two processes wait for each other.
pub readers-progress :
    (F : Kfifo) (contents : F.State → List ℕ)
    → IsQueue F contents
    → {new : F.State} {s : Readers F} → contents new ≡ []
    → Reach new s
    → (i : ℕ) → outside (s.reader i) ≡ false
    → ((b : Buffer) × (s.reader i ≡ asleep b) × (contents s.mem.fifo ≡ []))
      ⊎ ((is_asleep (s.reader i) ≡ false) × (j : ℕ) × Moves s j)
readers-progress F contents q {s} e r i inside =
    progress_from F contents q s i (s.reader i) (Reach-Inv F contents q e r) refl inside

-- A state that process `i` reaches alone from `s`, with its memory and where the process stands.
record Alone {F : Kfifo} (s : Readers F) (i : ℕ) (m : Shared F) (p : Reader) : Type 0 where
  last : Readers F
  run : Run s last
  mem : last.mem ≡ m
  here : last.reader i ≡ p
  others : (j : ℕ) → i ≢ j → last.reader j ≡ s.reader j

alone : {F : Kfifo} {s : Readers F} → (i : ℕ) → Alone s i s.mem (s.reader i)
alone {s} i = record { last = s; run = Run.here; mem = refl; here = refl; others = λ j ne. refl }

goes :
    {F : Kfifo} {s : Readers F} {i : ℕ} {m n : Shared F} {p q : Reader}
    → turn F i false m p ≡ (n, q)
    → Alone s i m p
    → Alone s i n q
goes {F} {i} {m} {p} e a =
    let turned : turn F i false a.last.mem (a.last.reader i) ≡ turn F i false m p =
      rw (a.mem, a.here) refl in
    record {
      last = _;
      run = Run.step a.run (go i false);
      mem = ap (λ x. x.0) (turned ∙ e);
      here = update_same a.last.reader i _ ∙ ap (λ x. x.1) (turned ∙ e);
      others = λ j ne. update_other a.last.reader i j _ ne ∙ a.others j ne;
    }

-- With such a FIFO, wherever the processes are: one that is about to take the mutex and finds it
-- free and a byte in the FIFO can go on alone to the end of its call, and then has the result, the
-- bytes and the FIFO that `uart_read`, as one function, computes; the mutex is free again, and the
-- other processes are where they were.
pub alone-uart_read :
    (F : Kfifo) (contents : F.State → List ℕ)
    → IsQueue F contents
    → {new : F.State} {s : Readers F} → contents new ≡ []
    → Reach new s
    → (i : ℕ) (b : Buffer) → s.reader i ≡ locking b
    → s.mem.owner ≡ none
    → 0 < length (contents s.mem.fifo)
    → (t : Readers F) × (ended : Ended F.State) × Run s t
      × (uart_read F (some b) true [] s.mem.fifo ≡ some ended)
      × (t.reader i ≡ returned b.count ended.ret)
      × (t.mem.fifo ≡ ended.fifo)
      × (t.mem.given ≡ s.mem.given ++ ended.bytes)
      × (t.mem.owner ≡ none)
      × ((j : ℕ) → i ≢ j → t.reader j ≡ s.reader j)
unfolding turn uart_read read_loop read_out
alone-uart_read F contents q {s} e r i b here free some_held =
    let positive : 0 < b.count =
      subst (Sound F s.mem.fifo) here ((Reach-Inv F contents q e r).sound i) in
    let full : F.is_empty s.mem.fifo ≡ false = ground (arith, q.is_empty_lem s.mem.fifo) in
    let counted : (b.count == 0) ≡ false = ground arith in
    let a0 = subst (Alone s i s.mem) here (alone i) in
    let a1 = goes {n = record (s.mem) { owner = some i }} {q = testing b} (rw free refl) a0 in
    let a2 = goes {n = record (s.mem) { owner = some i }} {q = copying b} (rw full refl) a1 in
    let a4 = goes refl (goes refl a2) in
    (
      a4.last,
      read_out F b s.mem.fifo (test_empty ∷ lock ∷ []),
      a4.run,
      rw (counted, full) refl,
      a4.here,
      ap (λ m. m.fifo) a4.mem,
      ap (λ m. m.given) a4.mem,
      ap (λ m. m.owner) a4.mem,
      a4.others,
    )

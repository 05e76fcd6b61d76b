-- ===== src/Lpuart/Race/Reopen.antt =====
-- A second `uart_open` of lpuart_interrupt.c while processes read: what its
-- `init_waitqueue_head`, `mutex_init` and `kfifo_alloc` do to the port that they have open.
use yocto_meta_hsiao.Base.{
  update, Bool-cases, ◌∷◌, refl, inl, inr, subst, length-append, ◌<◌, ◌≢◌, ◌∙◌, ◌++◌, [], sym, ap,
  true, false, none, arith, List, length, append-nil, ℕ, ◌≡◌,
}
use yocto_meta_hsiao.Lpuart.Receive.{lpuart_isr, Interrupt, Kfifo, IsQueue, Buffer}
use yocto_meta_hsiao.Lpuart.Race.{
  Reader, asleep, lost, isr, woken, locking, copying, Readers, turn, Reach,
}
use yocto_meta_hsiao.Lpuart.Race.Turn.{locked, Sound}
use yocto_meta_hsiao.Lpuart.Race.Invariant.{Reach-Inv}

-- `init_waitqueue_head` for a process that sleeps on the queue: it is no longer on it.
abbrev stranded : Reader → Reader
stranded (asleep b) = lost b
stranded p = p

-- `init_waitqueue_head`, `mutex_init` and `kfifo_alloc` of `uart_open`, on a port that is open: the
-- mutex is free, whoever has it, and the port has the new FIFO. `clk_prepare_enable` and
-- `request_irq` follow.
unfoldable pub reopen : {F : Kfifo} → F.State → Readers F → Readers F
reopen new s = record {
  mem = record (s.mem) { fifo = new; owner = none };
  reader = λ j. stranded (s.reader j);
}

-- The state after the turn of a process that no signal is pending for.
abbrev pub turned : {F : Kfifo} → ℕ → Readers F → Readers F
turned {F} i s = record {
  mem = (turn F i false s.mem (s.reader i)).0;
  reader = update s.reader i (turn F i false s.mem (s.reader i)).1;
}

longer : (xs ys : List ℕ) → 0 < length ys → xs ++ ys ≢ xs
longer xs ys h e = grind (arith, length-append xs ys, ap length e)

-- With a FIFO that keeps what kfifo documents, and is empty when it is made: a second `uart_open`
-- while process `i` is about to copy and process `j` is about to take the mutex lets `j` have it at
-- its next turn, so that both are between lock and unlock; and the bytes that the FIFO held reach no
-- one: what was accepted is no longer what was given and what is held.
pub reopen-two_owners :
    (F : Kfifo) (contents : F.State → List ℕ)
    → IsQueue F contents
    → {new : F.State} {s : Readers F} → contents new ≡ []
    → Reach new s
    → (i j : ℕ) (b c : Buffer) → s.reader i ≡ copying b
    → s.reader j ≡ locking c
    → let t = turned j (reopen new s) in
      (i ≢ j)
      × (locked (t.reader i) ≡ true)
      × (locked (t.reader j) ≡ true)
      × (t.mem.accepted ≢ t.mem.given ++ contents t.mem.fifo)
unfolding reopen turn
reopen-two_owners F contents q {new} {s} e r i j b c at_copy at_lock =
    let v = Reach-Inv F contents q e r in
    let (positive, full) = subst (Sound F s.mem.fifo) at_copy (v.sound i) in
    let differ : i ≢ j = λ same. ground arith in
    let lost : s.mem.accepted ≢ s.mem.given ++ contents new = λ eq.
      longer s.mem.given (contents s.mem.fifo) (ground (arith, q.is_empty_lem s.mem.fifo))
        (sym v.stream ∙ eq ∙ ap (◌++◌ s.mem.given) e ∙ append-nil s.mem.given) in
    (differ, ground (arith, at_copy, differ), rw at_lock (ground arith), rw at_lock lost)

-- One interrupt after another.
abbrev interrupts : {F : Kfifo} → List Interrupt → Readers F → Readers F
interrupts [] s = s
interrupts {F} (x ∷ xs) s = interrupts xs (isr F x s)

woken-lost :
    (F : Kfifo) (x : Interrupt) (s : Readers F) (i : ℕ) (b : Buffer)
    → s.reader i ≡ lost b
    → (isr F x s).reader i ≡ lost b
unfolding isr woken
woken-lost F x s i b e = elim (Bool-cases (lpuart_isr F x s.mem.fifo).1) [
  | inl w ↦ rw (w, e) refl
  | inr w ↦ rw (w, e) refl
]

stays-lost :
    (F : Kfifo) (xs : List Interrupt) (s : Readers F) (i : ℕ) (b : Buffer)
    → s.reader i ≡ lost b
    → (interrupts xs s).reader i ≡ lost b
stays-lost F [] s i b e = e
stays-lost F (x ∷ xs) s i b e = stays-lost F xs (isr F x s) i b (woken-lost F x s i b e)

-- And a process that sleeps when the port is opened again is not woken by any byte that arrives
-- afterwards, until a signal wakes it.
reopen-strands :
    (F : Kfifo) (new : F.State) (s : Readers F) (i : ℕ) (b : Buffer) (xs : List Interrupt)
    → s.reader i ≡ asleep b
    → let t = interrupts xs (reopen new s) in
      (t.reader i ≡ lost b) × ((turn F i false t.mem (t.reader i)).1 ≡ t.reader i)
unfolding reopen turn
reopen-strands F new s i b xs e =
    let still = stays-lost F xs (reopen new s) i b (rw e refl) in (still, rw still refl)

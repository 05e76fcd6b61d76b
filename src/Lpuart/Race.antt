-- ===== src/Lpuart/Race.antt =====
-- Any number of processes that read from lpuart_interrupt.c, with its interrupt handler between
-- them: `uart_read` as the accesses it makes to the mutex, the wait queue and the FIFO, one turn at
-- a time. `kfifo_to_user` is one turn, as is the test and going to sleep of
-- `wait_event_interruptible`, which the kernel makes safe against a wake-up in between.
pub mod Turn
pub mod Invariant
pub mod Progress
pub mod Reopen
use yocto_meta_hsiao.Base.{
  update, ◌%◌, ◌==◌, ◌∷◌, ◌++◌, [], if◌then◌else◌, true, false, none, some, not, neg, ℤ, Bool, List,
  Option, ℕ, ◌≡◌,
}
use yocto_meta_hsiao.Lpuart.{einval}
use yocto_meta_hsiao.Lpuart.Receive.{Kfifo, Buffer, Interrupt, erestartsys, lpuart_isr, read_out}

-- Where a process stands in `uart_read`: not in a call, about to take the mutex (for the first time
-- or again), about to test the FIFO, about to give the mutex back after finding it empty, in
-- `wait_event_interruptible`, asleep there, asleep on a wait queue that was made anew, about to copy, about to give the mutex back and return,
-- and returned. A call keeps its buffer, and at the end the `count` it had and its result.
pub data Reader : Type 0 where
  idle : Reader
  locking testing releasing waiting asleep lost copying : Buffer → Reader
  leaving returned : ℕ → ℤ → Reader

-- What the processes share: the FIFO and who has the mutex; `accepted` are the bytes that the
-- interrupt handler has put in the FIFO, `given` those that were copied to a process, in order.
pub record Shared (F : Kfifo) : Type 0 where
  pub fifo : F.State
  pub owner : Option ℕ
  pub accepted : List ℕ
  pub given : List ℕ

pub record Readers (F : Kfifo) : Type 0 where
  pub mem : Shared F
  pub reader : ℕ → Reader

-- `uart_read` up to its first `mutex_lock_interruptible`.
unfoldable pub entry : Option Buffer → Reader
entry none = returned 0 (neg einval)
entry (some b) = if b.count == 0 then returned 0 (neg einval) else locking b

abbrev pub is_free : Option ℕ → Bool
is_free none = true
is_free (some j) = false

-- `wake_up_interruptible`.
unfoldable pub woken : Reader → Reader
woken (asleep b) = waiting b
woken p = p

module _ (F : Kfifo) where
  -- One turn of process `i`; the flag tells whether a signal is pending for it.
  unfoldable pub turn : ℕ → Bool → Shared F → Reader → Shared F × Reader
  turn i signalled m (locking b) =
      if signalled
      then (m, returned b.count (neg erestartsys))
      else if is_free m.owner
      then (record m { owner = some i }, testing b)
      else (m, locking b)
  turn i signalled m (testing b) = (m, if F.is_empty m.fifo then releasing b else copying b)
  turn i signalled m (releasing b) = (record m { owner = none }, waiting b)
  turn i signalled m (waiting b) =
      if not (F.is_empty m.fifo)
      then (m, locking b)
      else if signalled
      then (m, returned b.count (neg erestartsys))
      else (m, asleep b)
  turn i signalled m (asleep b) = (m, if signalled then waiting b else asleep b)
  turn i signalled m (lost b) = (m, if signalled then waiting b else lost b)
  turn i signalled m (copying b) =
      let e = read_out F b m.fifo [] in
      (record m { fifo = e.fifo; given = m.given ++ e.bytes }, leaving b.count e.ret)
  turn i signalled m (leaving n ret) = (record m { owner = none }, returned n ret)
  turn i signalled m p = (m, p)

  -- The interrupt handler between two turns.
  unfoldable pub isr : Interrupt → Readers F → Readers F
  isr x s =
      let (t, wakes) = lpuart_isr F x s.mem.fifo in
      if wakes
      then record {
        mem = record (s.mem) { fifo = t; accepted = s.mem.accepted ++ x.data_reg % 256 ∷ [] };
        reader = λ j. woken (s.reader j);
      }
      else record s { mem = record (s.mem) { fifo = t } }

-- Not in a call.
abbrev pub outside : Reader → Bool
outside idle = true
outside (returned n ret) = true
outside p = false

-- What happens next: a process calls `read`, one that is in a call takes its turn, or the port
-- interrupts.
pub data Event {F : Kfifo} (s : Readers F) : Readers F → Type 0 where
  call :
      (i : ℕ) (b : Option Buffer)
      → outside (s.reader i) ≡ true
      → Event s (record s { reader = update s.reader i (entry b) })
  go :
      (i : ℕ) (signalled : Bool)
      → Event s (record {
        mem = (turn F i signalled s.mem (s.reader i)).0;
        reader = update s.reader i (turn F i signalled s.mem (s.reader i)).1;
      })
  interrupt : (x : Interrupt) → Event s (isr F x s)

-- After `uart_open`, with the empty FIFO that `kfifo_alloc` made.
abbrev pub fresh : {F : Kfifo} → F.State → Readers F
fresh s = record {
  mem = record { fifo = s; owner = none; accepted = []; given = [] };
  reader = λ i. idle;
}

pub data Reach {F : Kfifo} (new : F.State) : Readers F → Type 0 where
  start : Reach new (fresh new)
  next : {s t : Readers F} → Reach new s → Event s t → Reach new t

-- What happens from a state on.
pub data Run {F : Kfifo} (s : Readers F) : Readers F → Type 0 where
  here : Run s s
  step : {t u : Readers F} → Run s t → Event t u → Run s u

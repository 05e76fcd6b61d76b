-- ===== src/Lpuart/Receive.antt =====
-- lpuart_interrupt.c's receiver: the interrupt handler, the kernel's FIFO between it and the
-- reader, and `uart_read`. The FIFO is a parameter, with the documented behaviour of kfifo as a
-- record of laws; what happens while the reader sleeps is an explicit sequence.
use yocto_meta_hsiao.Base.{
  ℕ, ◌%◌, ◌≤◌, ◌<◌, ◌≡◌, Bool, true, false, List, [], ◌∷◌, ◌++◌, Option, none, some, ltb, ◌==◌, not,
  min, if◌then◌else◌, length, take, drop, ℤ, pos, neg,
}
use yocto_meta_hsiao.Lpuart.{rdrf, einval, efault}
pub mod Queue
pub mod Reads

-- `kfifo_put` (`none`: the FIFO is full), `kfifo_is_empty`, and `kfifo_to_user` of at most `n` bytes
-- to a buffer of which `room` bytes can be written: did it fault, what it copied, what it leaves.
pub record Kfifo : Type 1 where
  pub State : Type 0
  pub put : State → ℕ → Option State
  pub is_empty : State → Bool
  pub to_user : State → (n room : ℕ) → Bool × List ℕ × State

-- The size that `uart_open` asks for.
abbrev pub fifo_size : ℕ
fifo_size = 512

-- What kfifo documents: a queue of bytes with a bounded size.
pub record IsQueue (F : Kfifo) (contents : F.State → List ℕ) : Type 0 where
  pub put_full : (s : F.State) (c : ℕ) → length (contents s) ≡ fifo_size → F.put s c ≡ none
  pub put_room :
      (s : F.State) (c : ℕ)
      → length (contents s) < fifo_size
      → (t : F.State) × (F.put s c ≡ some t) × (contents t ≡ contents s ++ c ∷ [])
  pub bounded : (s : F.State) → length (contents s) ≤ fifo_size
  pub is_empty_lem : (s : F.State) → F.is_empty s ≡ (length (contents s) == 0)
  pub to_user_lem :
      (s : F.State) (n room : ℕ)
      → let (fault, bytes, t) = F.to_user s n room in
        (fault ≡ ltb room (length (take n (contents s))))
        × (bytes ≡ take (min n room) (contents s))
        × (contents t ≡ drop (min n room) (contents s))

-- What the interrupt handler finds in STAT and DATA.
pub record Interrupt : Type 0 where
  pub status : ℕ
  pub data_reg : ℕ

-- What happens to a reader that goes to sleep: the interrupts while it sleeps, whether a signal
-- wakes it, how many bytes another reader takes before it has the lock again, and whether it gets
-- the lock.
pub record Sleep : Type 0 where
  pub arrivals : List Interrupt
  pub signalled : Bool
  pub taken : ℕ
  pub locked : Bool

-- What `uart_read` does with its lock, its sleep and its FIFO.
pub data Step : Type 0 where
  lock unlock sleep test_empty copy_out : Step

-- The end of a call: its result, the bytes in the user's buffer, the FIFO, the steps, newest first.
pub record Ended (S : Type 0) : Type 0 where
  pub ret : ℤ
  pub bytes : List ℕ
  pub fifo : S
  pub steps : List Step

-- The user's buffer: its size `count`, and how much of it can be written.
pub record Buffer : Type 0 where
  pub count : ℕ
  pub room : ℕ

abbrev pub erestartsys : ℕ
erestartsys = 512

module _ (F : Kfifo) where
  -- `lpuart_isr`; the flag tells whether it wakes the readers.
  unfoldable pub lpuart_isr : Interrupt → F.State → F.State × Bool
  lpuart_isr i s =
      if rdrf i.status
      then elim (F.put s (i.data_reg % 256)) [ some t ↦ (t, true) | none ↦ (s, false) ]
      else (s, false)

  -- Interrupts one after another.
  abbrev pub arrive : List Interrupt → F.State → F.State
  arrive [] s = s
  arrive (i ∷ is) s = arrive is (lpuart_isr i s).0

  -- The end of `uart_read`, with a FIFO that is not empty: `kfifo_to_user` and the result.
  unfoldable pub read_out : Buffer → F.State → List Step → Ended F.State
  read_out b s steps =
      let (fault, bytes, t) = F.to_user s b.count b.room in
      record {
        ret = if fault then neg efault else pos (length bytes);
        bytes = bytes;
        fifo = t;
        steps = unlock ∷ copy_out ∷ steps;
      }

  -- The loop of `uart_read`, entered with the lock. `none`: the reader is asleep when the list ends.
  unfoldable pub read_loop : Buffer → List Sleep → F.State → List Step → Option (Ended F.State)
  read_loop b [] s steps = if F.is_empty s then none else some (read_out b s (test_empty ∷ steps))
  read_loop b (w ∷ ws) s steps =
      let awake = arrive w.arrivals s in
      let (_, _, t) = F.to_user awake w.taken w.taken in
      let slept = sleep ∷ unlock ∷ test_empty ∷ steps in
      let rest = read_loop b ws t (lock ∷ slept) in
      if not (F.is_empty s)
      then some (read_out b s (test_empty ∷ steps))
      else if w.signalled
      then some (record { ret = neg erestartsys; bytes = []; fifo = awake; steps = slept })
      else if not w.locked
      then some (record { ret = neg erestartsys; bytes = []; fifo = t; steps = slept })
      else rest

  -- `uart_read`: the user's buffer, `none` for a null pointer, and whether the first lock is got.
  unfoldable pub uart_read : Option Buffer → Bool → List Sleep → F.State → Option (Ended F.State)
  uart_read none locked ws s = some (record { ret = neg einval; bytes = []; fifo = s; steps = [] })
  uart_read (some b) locked ws s =
      let rest = read_loop b ws s (lock ∷ []) in
      if b.count == 0
      then some (record { ret = neg einval; bytes = []; fifo = s; steps = [] })
      else if not locked
      then some (record { ret = neg erestartsys; bytes = []; fifo = s; steps = [] })
      else rest

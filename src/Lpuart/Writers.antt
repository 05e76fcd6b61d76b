-- ===== src/Lpuart/Writers.antt =====
-- Any number of processes that write to one of the LPUART drivers, whose `uart_write` takes no lock:
-- the accesses that `lpuart_putc` makes to STAT and DATA, one at a time.
pub mod Protocol
use mathlib.Core.Logic.{ite}
use native.Mathlib.Decide.{ℕ_discrete}
use yocto_meta_hsiao.Base.{
  update, subst, sym, ap, append-nil, append_assoc, Bool-cases, ◌≢◌, ◌∙◌, ◌∷◌, ◌++◌, [],
  if◌then◌else◌, true, none, some, arith, List, Option, refl, ℕ, ◌≡◌, inl, inr,
}
use yocto_meta_hsiao.Lpuart.{tdre, Access, readl_stat, writel_data}
use yocto_meta_hsiao.Lpuart.Transmit.{sent, is_ready, Paced, readable}

-- Where a process stands: not in a call, about to take the next byte of its buffer, about to read
-- STAT, and about to write DATA, having seen TDRE.
pub data Writer : Type 0 where
  idle : Writer
  sending : List (Option ℕ) → Writer
  polling ready : ℕ → List (Option ℕ) → Writer

-- The accesses, the newest first, each with the process that made it; where the processes stand;
-- and, for the theorems, all that each has been asked to write, as far as it can be read.
pub record Writers : Type 0 where
  pub log : List (ℕ × Access)
  pub writer : ℕ → Writer
  pub asked : ℕ → List ℕ

-- A read of STAT in the wait of `lpuart_putc`.
abbrev poll_turn : ℕ → ℕ → List (Option ℕ) → Option Access × Writer
poll_turn v c user = (some (readl_stat v), if tdre v then ready c user else polling c user)

-- Its write of DATA, with which it returns.
abbrev data_turn : ℕ → List (Option ℕ) → Option Access × Writer
data_turn c user = (some (writel_data c), sending user)

-- One turn of a process, for the value that STAT has: the access, if it makes one.
unfoldable pub write_turn : ℕ → Writer → Option Access × Writer
write_turn v idle = (none, idle)
write_turn v (sending []) = (none, idle)
write_turn v (sending (none ∷ user)) = (none, idle)
write_turn v (sending (some c ∷ user)) = (none, polling c user)
write_turn v (polling c user) = poll_turn v c user
write_turn v (ready c user) = data_turn c user

abbrev pub logged : ℕ → Option Access → List (ℕ × Access) → List (ℕ × Access)
logged i none log = log
logged i (some a) log = (i, a) ∷ log

-- A process calls `write`, or takes a turn, with whatever the chip has in STAT.
pub data Event (s : Writers) : Writers → Type 0 where
  call :
      (i : ℕ) (user : List (Option ℕ))
      → s.writer i ≡ idle
      → Event s (record s {
        writer = update s.writer i (sending user);
        asked = update s.asked i (s.asked i ++ readable user);
      })
  go :
      (i v : ℕ)
      → Event s (record s {
        log = logged i (write_turn v (s.writer i)).0 s.log;
        writer = update s.writer i (write_turn v (s.writer i)).1;
      })

abbrev pub quiet : Writers
quiet = record { log = []; writer = λ i. idle; asked = λ i. [] }

pub data Reach : Writers → Type 0 where
  start : Reach quiet
  next : {s t : Writers} → Reach s → Event s t → Reach t

-- The accesses of all processes, and those of one.
abbrev pub accesses : List (ℕ × Access) → List Access
accesses [] = []
accesses ((i, a) ∷ log) = a ∷ accesses log

abbrev pub own : ℕ → List (ℕ × Access) → List Access
own i [] = []
own i ((j, a) ∷ log) = ite (ℕ_discrete j i) (a ∷ own i log) (own i log)

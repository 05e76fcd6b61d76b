-- ===== src/Led/Exclusion.antt =====
-- How many files of 9_thread.c's device can be open.
use yocto_meta_hsiao.Base.{
  ℕ, suc, ◌+◌, ◌≤◌, ◌≡◌, refl, Bool, true, false, some, ◌-◌, pos, negsuc, arith,
}
use yocto_meta_hsiao.Registration.Leaky.{Numbers, Answers, Pins}
use yocto_meta_hsiao.Led.{
  ThreadType, spin_lock, semaphore, mutex, GpioledDev, led_open, led_release, thread_led_init,
}

-- The device and the number of files open on it.
pub record Device : Type 0 where
  pub dev : GpioledDev
  pub files : ℕ

-- An open that succeeds, one that fails, or the release of a file that is open.
pub data Step (k : ThreadType) (s : Device) : Device → Type 0 where
  opened :
      (signalled : Bool) (d : GpioledDev)
      → led_open k signalled s.dev ≡ some (pos 0, d)
      → Step k s (record { dev = d; files = suc s.files })
  refused :
      (signalled : Bool) (n : ℕ) (d : GpioledDev)
      → led_open k signalled s.dev ≡ some (negsuc n, d)
      → Step k s (record s { dev = d })
  released :
      (n : ℕ) → s.files ≡ suc n → Step k s (record { dev = (led_release k s.dev).1; files = n })

pub data Reach (k : ThreadType) : Device → Type 0 where
  start :
      (s : Numbers) (a : Answers) (g : Pins)
      → (thread_led_init k s a g).0.ret ≡ pos 0
      → Reach k (record { dev = (thread_led_init k s a g).1; files = 0 })
  next : {s t : Device} → Reach k s → Step k s t → Reach k t

abbrev locked_once : Bool → ℕ
locked_once true = 1
locked_once false = 0

-- The lock of each kind against the number of open files.
abbrev pub Guarded : ThreadType → Device → Type 0
Guarded spin_lock s = (s.dev.dev_status ≡ s.files) × (s.files ≤ 1)
Guarded semaphore s = s.dev.sem + s.files ≡ 1
Guarded mutex s = locked_once s.dev.mtx ≡ s.files

pub Step-Guarded : (k : ThreadType) {s t : Device} → Step k s t → Guarded k s → Guarded k t
unfolding led_open led_release
Step-Guarded spin_lock (opened signalled d e) g = ground (arith, e, g.0, g.1)
Step-Guarded spin_lock (refused signalled n d e) g = ground (arith, e, g.0, g.1)
Step-Guarded spin_lock (released n e) g = ground (arith, e, g.0, g.1)
Step-Guarded semaphore (opened signalled d e) g = ground (arith, e, g)
Step-Guarded semaphore (refused signalled n d e) g = ground (arith, e, g)
Step-Guarded semaphore (released n e) g = ground (arith, e, g)
Step-Guarded mutex (opened signalled d e) g = ground (arith, e, g)
Step-Guarded mutex (refused signalled n d e) g = ground (arith, e, g)
Step-Guarded mutex (released n e) g = ground (arith, e, g)

pub Reach-Guarded : (k : ThreadType) {s : Device} → Reach k s → Guarded k s
unfolding thread_led_init
Reach-Guarded spin_lock (start s a g e) = rw e (refl, omega arith)
Reach-Guarded semaphore (start s a g e) = rw e refl
Reach-Guarded mutex (start s a g e) = rw e refl
Reach-Guarded k (next r step) = Step-Guarded k step (Reach-Guarded k r)

-- At most one file is open; while none is an open succeeds, and the release of an open file does.
abbrev pub Exclusive : (k : ThreadType) (s : Device) → Type 0
Exclusive k s =
    (s.files ≤ 1)
    × (s.files ≡ 0
        → (signalled : Bool) → (d : GpioledDev) × (led_open k signalled s.dev ≡ some (pos 0, d)))
    × (s.files ≡ 1 → (led_release k s.dev).0 ≡ pos 0)

pub Guarded-Exclusive : (k : ThreadType) (s : Device) → Guarded k s → Exclusive k s
unfolding led_open led_release
Guarded-Exclusive spin_lock s g = (
  g.1,
  λ e b. (record (s.dev) { dev_status = suc s.dev.dev_status }, ground (arith, e, g.0)),
  λ e. ground (arith, e, g.0),
)
Guarded-Exclusive semaphore s g = (
  omega (arith, g),
  λ e b. (record (s.dev) { sem = s.dev.sem - 1 }, ground (arith, e, g)),
  λ e. refl,
)
Guarded-Exclusive mutex s g =
    (ground (arith, g), λ e b. (record (s.dev) { mtx = true }, ground (arith, e, g)), λ e. refl)

-- With each of the three kinds of lock, at most one file is open in every state that opens and
-- releases of open files reach after a `Led_Init` that returns 0; while none is, an open succeeds, whether or not a signal is
-- pending, and the release of the one that is open succeeds.
one_opener : (k : ThreadType) {s : Device} → Reach k s → Exclusive k s
one_opener k {s} r = Guarded-Exclusive k s (Reach-Guarded k r)

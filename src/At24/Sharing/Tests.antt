-- ===== src/At24/Sharing/Tests.antt =====
-- The theorems on the processes that share the EEPROM at a concrete run: one writes two bytes, the
-- other reads them, on a chip that is busy after a write until its cycle ends.
use native.Mathlib.Decide.{ℕ_discrete}
use yocto_meta_hsiao.Base.{
  ap, Bool-cases, inl, inr, ◌++◌, length, zero, suc, ℕ, ◌≡◌, ◌≢◌, refl, Bool, true, false, none,
  some, List, [], ◌∷◌, if◌then◌else◌, take, drop, ℤ, pos, neg, arith,
}
use yocto_meta_hsiao.At24.{
  Kernel, World, I2cMsg, kmalloc, kfree, mutex_lock, mutex_unlock, i2c_transfer, read_msgs, clip,
  read_locked, send_chunk,
}
use yocto_meta_hsiao.At24.Chip.{store, range, MayNack}
use yocto_meta_hsiao.At24.Example.{
  at24, Memory, on_chip as on_memory, bufs, last_len, copy_bytes, kernel-IsEeprom,
  kernel-CopiesFrom, at24-IsAt24,
}
use yocto_meta_hsiao.At24.Sharing.Finish.{calls-finish}
use yocto_meta_hsiao.At24.Sharing.Solo.{IsCalm, Solo, alone-calm}
use yocto_meta_hsiao.At24.Sharing.Memory.{count_of, Fits, memory, AllAnswer, calls-memory}
use yocto_meta_hsiao.At24.Sharing.{
  Proc, Shared, Run, here, step, Request, Job, File, Done, read, write, ended, world, file, lock,
  read_turn, chunk_turn, turn, enter, System, call, go, move, Reach, start, next,
}
use yocto_meta_hsiao.At24.Sharing.Alone.{serve, alone-serve}
use yocto_meta_hsiao.At24.Sharing.Serial.{AtOnce, Serial}
use yocto_meta_hsiao.At24.Sharing.Order.{Accounts, calls-Serial}

-- The chip's cells, and whether it is in its write cycle.
record Chip : Type 0 where
  cells : ℕ → ℕ
  busy : Bool

abbrev on_chip : Chip → List I2cMsg → Chip × ℤ × List ℕ
on_chip s (m ∷ []) = (record { cells = store 62 (7 ∷ 8 ∷ []) s.cells; busy = true }, pos 1, [])
on_chip s (m ∷ m' ∷ []) = (s, pos 2, range s.cells 62 m'.len)
on_chip s ms = (s, neg 22, [])

abbrev kernel : ℕ → Job → Kernel Chip
kernel i j = record {
  allocates = λ n. true;
  copy_in = λ a n. some (take n (drop a (7 ∷ 8 ∷ [])));
  copy_out_fails = λ bytes. false;
  transfer = λ s ms. if s.busy then (s, neg 6, []) else on_chip s ms;
}

-- The end of a write cycle.
abbrev Settles : Chip → Chip → Type 0
Settles s t = t ≡ record s { busy = false }

abbrev blank : Chip
blank = record { cells = λ j. 255; busy = false }

abbrev at_62 : File
at_62 = record { offset = pos 62; log = [] }

abbrev Reached : System Chip → Type 0
Reached s = Reach kernel at24 (AtOnce at24) Settles blank s

-- Process 0 has called write, and process 1 read.
abbrev begun : (s : System Chip) × Reached s
unfolding enter clip ℕ_discrete
begun = (
  _,
  next (next (start (λ i. at_62)) (call 0 (write 2) at_62 refl (omega arith)))
      (call 1 (read 2) at_62 refl tt),
)

-- Process 0 has the lock.
abbrev locked : (s : System Chip) × Reached s
unfolding enter clip ℕ_discrete turn lock
locked = (_, next begun.1 (go 0 _ _ refl))

-- From there on, the write is in its `msleep`, the chip's cycle has ended, and the read is made.
abbrev has_read : (t : System Chip) × Run kernel at24 (AtOnce at24) Settles locked.0 t
unfolding enter clip ℕ_discrete turn lock chunk_turn send_chunk read_turn read_locked
has_read = (
  _,
  step (step (step (step here (go 0 _ _ refl)) (move _ refl)) (go 1 _ _ refl)) (go 1 _ _ refl),
)

calls-Serial_example :
    let serial = Serial kernel at24 (AtOnce at24) Settles blank in
    let accounts = Accounts kernel at24 (AtOnce at24) Settles blank in
    (h more : List (ℕ × Done)) × serial locked.0.shared.bus h
    × ((i : ℕ) → accounts h locked.0 i)
    × serial has_read.0.shared.bus (more ++ h)
    × ((i : ℕ) → accounts (more ++ h) has_read.0 i)
calls-Serial_example =
    calls-Serial kernel at24 (AtOnce at24) Settles blank (λ j ok. ok) locked.1 has_read.1

-- Process 2 reads while the others are in their calls.
alone-serve_example :
    let f = at_62 in
    let s = begun.0 in
    (t : System Chip) × (ret : ℤ) × (w : World Chip) × Run kernel at24 (AtOnce at24) Settles s t
    × (serve (kernel 2 (record { request = read 2; file = f })) at24 (read 2) (world s.shared.bus f)
        ≡ some (ret, w))
    × (t.shared ≡ record { bus = w.bus; owner = none })
    × (t.proc 2
        ≡ ended (record { job = record { request = read 2; file = f }; ret = ret; file = file w }))
    × ((j : ℕ) → 2 ≢ j → t.proc j ≡ s.proc j)
unfolding enter clip ℕ_discrete
alone-serve_example = alone-serve {s = begun.0} 2 (read 2) at_62 (omega arith) refl refl tt

-- Process 1 waits for the lock, which process 0 has.
calls-finish_example :
    (t : System Chip) × (d : Done) × Run kernel at24 (AtOnce at24) Settles locked.0 t
    × (t.proc 1 ≡ ended d)
    × (d.job ≡ record { request = read 2; file = at_62 })
unfolding enter clip ℕ_discrete turn lock
calls-finish_example =
    calls-finish kernel at24 (AtOnce at24) Settles blank (omega arith) 1
      (record { request = read 2; file = at_62 }) locked.1 refl

kernel-IsCalm : (j : Job) → IsCalm (kernel 0 j) (λ s. s.busy)
kernel-IsCalm j = record {
  reads = λ s dev a n e. rw e refl;
  refused = λ s dev a n bytes e bad. absurd (ground (arith, bad, e));
}

-- Process 0 alone, about to write with the lock.
abbrev solo : (m : Shared Chip) × (q : Proc) × Solo (kernel 0) at24 (λ s. s.busy) Settles m q
solo = (_, _, Solo.go (Solo.call (write 2) at_62 (Solo.start blank at_62 refl) refl) (λ e. refl))

alone-calm_example : solo.0.bus.busy ≡ false
unfolding enter clip turn lock
alone-calm_example =
    alone-calm (kernel 0) at24 (λ s. s.busy) Settles kernel-IsCalm
      (λ s t e calm. ap (λ (c : Chip). c.busy) e) solo.2 refl

abbrev sevens : ℕ → List ℕ
sevens zero = []
sevens (suc n) = 7 ∷ sevens n

length-sevens : (n : ℕ) → length (sevens n) ≡ n
length-sevens zero = refl
length-sevens (suc n) = ground (arith, length-sevens n)

-- What the processes' buffers hold.
abbrev user : ℕ → Job → List ℕ
user i j = sevens (count_of j.request)

-- What a transfer makes of the chip: one message is a write, which starts a cycle.
abbrev transferred : Memory × ℤ × List ℕ → List I2cMsg → Chip × ℤ × List ℕ
transferred (m, ret, bytes) (w ∷ []) = (record { cells = m; busy = true }, ret, bytes)
transferred (m, ret, bytes) ms = (record { cells = m; busy = false }, ret, bytes)

-- A chip that does not acknowledge in its write cycle.
abbrev nacking : ℕ → Job → Kernel Chip
nacking i j = record {
  allocates = λ n. true;
  copy_in = copy_bytes (user i j);
  copy_out_fails = λ bytes. false;
  transfer = λ s ms.
      if s.busy then (s, neg 6, []) else transferred (on_memory s.cells (bufs ms) (last_len ms)) ms;
}

nacking-MayNack : (i : ℕ) (j : Job) → MayNack (nacking i j) (λ s. s.cells)
nacking-MayNack i j = record {
  writes = λ s dev a n bytes h l p_n fits. elim (Bool-cases s.busy) [
    | inl e ↦ rw e (λ bad. absurd (cc bad), λ _ a. refl)
    | inr e ↦
        (let wrote = (kernel-IsEeprom (user i j)).writes s.cells dev a n bytes h l p_n fits in
          rw e (λ _. wrote.1, λ bad. absurd (cc bad)))
  ];
  reads = λ s dev a n p_n fits. elim (Bool-cases s.busy) [
    | inl e ↦ rw e (λ bad. absurd (cc bad), λ a. refl)
    | inr e ↦
        (let seen = (kernel-IsEeprom (user i j)).reads s.cells dev a n p_n fits in
          rw e (λ _. seen.1, seen.2))
  ];
}

abbrev NackReached : System Chip → Type 0
NackReached s = Reach nacking at24 Fits Settles blank s

two_fit : (r : Request) → count_of r ≡ 2 → Fits (record { request = r; file = at_62 })
two_fit (read n) e = record {
  at = refl;
  on_chip = omega arith;
  some_bytes = omega (arith, e);
  few = omega (arith, e);
  within = tt;
}
two_fit (write n) e = record {
  at = refl;
  on_chip = omega arith;
  some_bytes = omega (arith, e);
  few = omega (arith, e);
  within = omega (arith, e);
}

-- Process 0 has called write and process 1 read.
abbrev both : (s : System Chip) × NackReached s
unfolding enter clip ℕ_discrete
both = (
  _,
  next (next (start (λ i. at_62)) (call 0 (write 2) at_62 refl (two_fit (write 2) refl)))
      (call 1 (read 2) at_62 refl (two_fit (read 2) refl)),
)

-- The write stores its bytes, and the read fails while the write sleeps.
abbrev fails : (t : System Chip) × Run nacking at24 Fits Settles both.0 t
unfolding enter clip ℕ_discrete turn lock chunk_turn send_chunk read_turn read_locked
fails = (
  _,
  step (step (step (step here (go 0 _ _ refl)) (go 0 _ _ refl)) (go 1 _ _ refl)) (go 1 _ _ refl),
)

calls-memory_example :
    (h more : List (ℕ × Done)) × ((i : ℕ) → Accounts nacking at24 Fits Settles blank h both.0 i)
    × ((i : ℕ) → Accounts nacking at24 Fits Settles blank (more ++ h) fails.0 i)
    × ((a : ℕ) → both.0.shared.bus.cells a ≡ memory user blank.cells h a)
    × ((a : ℕ) → fails.0.shared.bus.cells a ≡ memory user blank.cells (more ++ h) a)
    × AllAnswer user blank.cells (more ++ h)
calls-memory_example =
    calls-memory nacking (λ s. s.cells) nacking-MayNack at24 at24-IsAt24 user
      (λ i j. kernel-CopiesFrom (user i j)) (λ i j. length-sevens (count_of j.request))
      (λ i j n. refl) (λ i j bytes. refl) Settles blank (λ s t e a. ap (λ (c : Chip). c.cells a) e)
      both.1 fails.1

-- The read has returned the chip's error.
read_fails :
    fails.0.proc 1
    ≡ ended (record {
      job = record { request = read 2; file = at_62 };
      ret = neg 6;
      file = record {
        offset = pos 62;
        log =
            kfree ∷ mutex_unlock ∷ i2c_transfer (read_msgs 0x50 62 2) ∷ mutex_lock ∷ kmalloc 2 ∷ [];
      };
    })
unfolding enter clip ℕ_discrete turn lock chunk_turn send_chunk read_turn read_locked
read_fails = refl

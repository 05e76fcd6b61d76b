-- ===== src/At24/Sharing.antt =====
-- Any number of processes on the one EEPROM of 22_i2c_at24.c: the read and the write of At24.antt cut
-- at `mutex_lock`, `mutex_unlock` and `msleep`, one turn of one process at a time. What a process
-- does under the lock is one turn: its only access to what the processes share is one
-- `i2c_transfer`, which the i2c core makes as a whole.
pub mod Mutex
pub mod Alone
pub mod Serial
pub mod Steps
pub mod Order
pub mod Memory
pub mod Cycle
pub mod Solo
pub mod Finish
mod Tests
use yocto_meta_hsiao.Base.{
  ◌++◌, [], update, ◌+◌, ◌≡◌, ◌||◌, ◌∷◌, if◌then◌else◌, none, some, not, pos, neg, ℤ, List, Option,
  ltb, is_neg, ℕ,
}
use yocto_meta_hsiao.At24.{
  leb_ℤ, At24Data, Kernel, World, Call, kmalloc, kfree, mutex_lock, mutex_unlock, copy_from_user,
  clip, chunk_len, read_locked, send_chunk, einval, enomem, efault, efbig,
}

-- A process' open file, and the calls it has made of the kernel.
pub record File : Type 0 where
  pub offset : ℤ
  pub log : List Call

pub data Request : Type 0 where
  read write : (count : ℕ) → Request

-- A call of the driver, with the file that it was made on; and one that has returned.
pub record Job : Type 0 where
  pub request : Request
  pub file : File

pub record Done : Type 0 where
  pub job : Job
  pub ret : ℤ
  pub file : File

-- Where a process stands: it has made no call; a read of `n` bytes before its `mutex_lock`, and
-- after it; a write at the test of its loop, after `mutex_lock`, and in `msleep`; and returned.
pub data Proc : Type 0 where
  idle : File → Proc
  reading read_holds : Job → (n : ℕ) → Proc
  looping write_holds sleeping : Job → (count total : ℕ) → File → Proc
  ended : Done → Proc

-- The bus, and the process that has `priv->lock`.
pub record Shared (S : Type 0) : Type 0 where
  pub bus : S
  pub owner : Option ℕ

abbrev pub world : {S : Type 0} → S → File → World S
world bus f = record { bus = bus; offset = f.offset; log = f.log }

abbrev pub file : {S : Type 0} → World S → File
file w = record { offset = w.offset; log = w.log }

-- `mutex_lock` of process `i`, at `q`: it goes on to `q'`, or has to wait.
unfoldable pub lock : {S : Type 0} → ℕ → Shared S → (q q' : Proc) → Shared S × Proc
lock i m q q' = elim (m.owner) [ none ↦ (record m { owner = some i }, q') | some o ↦ (m, q) ]

module _ {S : Type 0} (k : Job → Kernel S) (p : At24Data) where
  -- The guards of `at24_eeprom_read`, up to its `mutex_lock`, and those of `at24_eeprom_write`, up to
  -- the first test of its loop.
  abbrev pub enter_read : Job → ℕ → Proc
  enter_read j count =
      let n = clip p j.file.offset count in
      if is_neg j.file.offset || leb_ℤ (pos p.size) j.file.offset
      then ended (record { job = j; ret = neg einval; file = j.file })
      else if not ((k j).allocates n)
      then ended (record { job = j; ret = neg enomem; file = j.file })
      else reading j n

  abbrev pub enter_write : Job → ℕ → Proc
  enter_write j count =
      if leb_ℤ (pos p.size) j.file.offset
      then ended (record { job = j; ret = neg efbig; file = j.file })
      else if not ((k j).allocates (2 + p.page_size))
      then ended (record { job = j; ret = neg enomem; file = j.file })
      else looping j (clip p j.file.offset count) 0
          (record (j.file) { log = kmalloc (2 + p.page_size) ∷ j.file.log })

  -- A call, by way of `at24_fops`.
  unfoldable pub enter : Job → Proc
  enter j = elim (j.request) [ read count ↦ enter_read j count | write count ↦ enter_write j count ]

  -- A read from `mutex_lock` to its return.
  unfoldable pub read_turn : Job → ℕ → S → S × Proc
  read_turn j n bus =
      let (ret, w) = read_locked (k j) p n (world bus j.file) in
      (w.bus, ended (record { job = j; ret = ret; file = file w }))

  -- A round of the loop of a write, from `mutex_lock` to `msleep` or the return.
  unfoldable pub chunk_turn : Job → (count total : ℕ) → File → S → S × Proc
  chunk_turn j count total f bus =
      let w = world bus f in
      let n = chunk_len p count w total in
      elim ((k j).copy_in total n) [
        | none ↦ (
          bus,
          ended (record {
            job = j;
            ret = neg efault;
            file = record f {
              log = kfree ∷ mutex_unlock ∷ copy_from_user total n ∷ mutex_lock ∷ f.log;
            };
          }),
        )
        | some bytes ↦
            let (ret, w') = send_chunk (k j) p total n bytes w in
            if is_neg ret
            then (
              w'.bus,
              ended
                  (record { job = j; ret = ret; file = record (file w') { log = kfree ∷ w'.log } }),
            )
            else (w'.bus, sleeping j count (total + n) (file w'))
      ]

  -- One turn of process `i`.
  unfoldable pub turn : ℕ → Shared S → Proc → Shared S × Proc
  turn i m (reading j n) = lock i m (reading j n) (read_holds j n)
  turn i m (read_holds j n) =
      let (bus', q) = read_turn j n m.bus in (record { bus = bus'; owner = none }, q)
  turn i m (looping j count total f) =
      if ltb total count
      then lock i m (looping j count total f) (write_holds j count total f)
      else (m, ended (record { job = j; ret = pos total; file = record f { log = kfree ∷ f.log } }))
  turn i m (write_holds j count total f) =
      let (bus', q) = chunk_turn j count total f m.bus in (record { bus = bus'; owner = none }, q)
  turn i m (sleeping j count total f) = (m, looping j count total f)
  turn i m q = (m, q)

-- The file of a process that is in no call.
abbrev pub rests : Proc → Option File
rests (idle f) = some f
rests (ended d) = some d.file
rests q = none

-- The calls of a process that have returned, less those before.
abbrev pub finished : Proc → List Done
finished (ended d) = d ∷ []
finished q = []

-- `past` holds the calls that each process made before the one that it stands in, the newest first.
pub record System (S : Type 0) : Type 0 where
  pub shared : Shared S
  pub proc : ℕ → Proc
  pub past : ℕ → List Done

-- `kernel i` is what process `i` calls the driver with, its memory and the kernel's answers, which
-- are new with each call; `allowed` says which calls the processes make of it,
-- and `moves` what the bus does by itself, as a chip does that ends its write cycle.
module _ {S : Type 0} (kernel : ℕ → Job → Kernel S) (p : At24Data) (allowed : Job → Type 0)
    (moves : S → S → Type 0) where
  -- A process makes a call or takes a turn, or the bus moves.
  pub data Event (s : System S) : System S → Type 0 where
    call :
        (i : ℕ) (r : Request) (f : File)
        → rests (s.proc i) ≡ some f
        → allowed (record { request = r; file = f })
        → Event s (record s {
          proc = update s.proc i (enter (kernel i) p (record { request = r; file = f }));
          past = update s.past i (finished (s.proc i) ++ s.past i);
        })
    go :
        (i : ℕ) (m : Shared S) (q : Proc)
        → turn (kernel i) p i s.shared (s.proc i) ≡ (m, q)
        → Event s (record { shared = m; proc = update s.proc i q; past = s.past })
    move :
        (bus' : S)
        → moves s.shared.bus bus'
        → Event s (record s { shared = record (s.shared) { bus = bus' } })

  -- From an unlocked bus, with every process' file open and no call made.
  pub data Reach (bus : S) : System S → Type 0 where
    start :
        (files : ℕ → File)
        → Reach bus (record {
          shared = record { bus = bus; owner = none };
          proc = λ i. idle (files i);
          past = λ i. [];
        })
    next : {s t : System S} → Reach bus s → Event s t → Reach bus t

  -- What happens from a state on.
  pub data Run (s : System S) : System S → Type 0 where
    here : Run s s
    step : {t u : System S} → Run s t → Event t u → Run s u

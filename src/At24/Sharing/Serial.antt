-- ===== src/At24/Sharing/Serial.antt =====
-- The processes that share the EEPROM of 22_i2c_at24.c against an order of their calls, each made
-- at once: reads, and writes of one page, which go to the bus once.
use yocto_meta_hsiao.Base.{
  ◌<◌, ◌<◌, to_u64, ◌%◌, ◌≤◌, pos, ◌+◌, ◌%◌, ◌≤◌, ◌==◌, ◌≡◌, ◌∷◌, [], if◌then◌else◌, some, suc, pos,
  List, ℕ,
}
use yocto_meta_hsiao.At24.{clip, kfree, read_locked, write_loop, chunk_len, At24Data, Kernel}
use yocto_meta_hsiao.At24.Sharing.{
  read, write, idle, reading, File, read, write, Job, Done, Proc, idle, reading, read_holds,
  looping, write_holds, sleeping, ended, world,
}
use yocto_meta_hsiao.At24.Sharing.Alone.{serve}

-- A call that goes to the bus at most once: a write whose bytes are within a page.
abbrev pub AtOnce : At24Data → Job → Type 0
AtOnce p j = elim (j.request) [
  | read count ↦ Unit {0}
  | write count ↦ to_u64 j.file.offset % p.page_size + clip p j.file.offset count ≤ p.page_size
]

-- The calls of process `i` in a history, the newest first.
abbrev pub calls_of : ℕ → List (ℕ × Done) → List Done
calls_of i [] = []
calls_of i ((j, d) ∷ h) = if i == j then d ∷ calls_of i h else calls_of i h

-- A write that has stored all its bytes, once it returns.
abbrev pub stored : Job → ℕ → File → Done
stored j count f = record { job = j; ret = pos count; file = record f { log = kfree ∷ f.log } }

module _ {S : Type 0} (kernel : ℕ → Job → Kernel S) (p : At24Data) (allowed : Job → Type 0)
    (moves : S → S → Type 0) (first : S) where
  -- What the bus becomes, from `first`, if each call of a history is allowed, and made by the driver as one
  -- function after those before it, the newest at the front, and returns what the history says; and
  -- the bus moves by itself between the calls.
  pub data Serial : S → List (ℕ × Done) → Type 0 where
    unused : Serial first []
    moved : {bus bus' : S} {h : List (ℕ × Done)} → Serial bus h → moves bus bus' → Serial bus' h
    served :
        {bus bus' : S} {h : List (ℕ × Done)} (i : ℕ) (d : Done)
        → Serial bus h
        → allowed d.job
        → serve (kernel i d.job) p d.job.request (world bus d.job.file)
          ≡ some (d.ret, world bus' d.file)
        → Serial bus' ((i, d) ∷ h)

  -- What a read before its `mutex_lock`, and a write before its first, will do to any bus.
  abbrev pub Reads : ℕ → Job → ℕ → Type 0
  Reads i j n =
      allowed j
      × ((bus : S)
          → serve (kernel i j) p j.request (world bus j.file)
            ≡ some (read_locked (kernel i j) p n (world bus j.file)))

  abbrev pub Writes : ℕ → Job → (count : ℕ) → File → Type 0
  Writes i j count f =
      allowed j
      × ((bus : S)
          → (chunk_len p count (world bus f) 0 ≡ count)
            × (serve (kernel i j) p j.request (world bus j.file)
                ≡ write_loop (kernel i j) (suc count) p count 0 (world bus f)))

  -- Where process `i` stands, with its calls `l` in the history and those made before the one that
  -- it stands in: the call has gone to the bus, or not yet.
  pub data Placed (l past : List Done) (i : ℕ) : Proc → Type 0 where
    at_rest : (f : File) → l ≡ past → Placed l past i (idle f)
    reads : (j : Job) (n : ℕ) → l ≡ past → Reads i j n → Placed l past i (reading j n)
    has_lock : (j : Job) (n : ℕ) → l ≡ past → Reads i j n → Placed l past i (read_holds j n)
    writes :
        (j : Job) (count : ℕ) (f : File)
        → l ≡ past
        → Writes i j count f
        → Placed l past i (looping j count 0 f)
    writes_next :
        (j : Job) (count : ℕ) (f : File)
        → l ≡ past
        → Writes i j count f
        → 0 < count
        → Placed l past i (write_holds j count 0 f)
    sleeps :
        (j : Job) (count : ℕ) (f : File)
        → l ≡ stored j count f ∷ past
        → Placed l past i (sleeping j count count f)
    wakes :
        (j : Job) (count : ℕ) (f : File)
        → l ≡ stored j count f ∷ past
        → Placed l past i (looping j count count f)
    returned : (d : Done) → l ≡ d ∷ past → Placed l past i (ended d)

  -- What a turn of process `i` does: it goes on without the bus, or its call takes effect.
  pub data Local (h : List (ℕ × Done)) (i : ℕ) (past : List Done) (bus : S) (q : Proc)
      : Type 0 where
    waits : Serial bus h → Placed (calls_of i h) past i q → Local h i past bus q
    acts :
        (d : Done)
        → Serial bus ((i, d) ∷ h)
        → Placed (d ∷ calls_of i h) past i q
        → Local h i past bus q

-- ===== src/At24/Sharing/Alone.antt =====
-- A process that shares the EEPROM of 22_i2c_at24.c, turn by turn, against the read and the write of
-- the driver as one function each.
use yocto_meta_hsiao.Base.{
  ◌∷◌, suc, ◌+◌, subst, Bool-cases, inl, inr, ◌||◌, leb_ℤ, is_neg, pos, update_other, update_same,
  ◌<◌, ◌∙◌, refl, arith, ◌≡◌, ◌≢◌, none, some, ℤ, Option, ℕ,
}
use yocto_meta_hsiao.At24.{
  chunk_len, send_chunk, kmalloc, clip, At24Data, Kernel, World, at24_eeprom_read,
  at24_eeprom_write,
}
use yocto_meta_hsiao.At24.Loop.{Returns, LoopRule, write_loop-Returns}
use yocto_meta_hsiao.At24.Sharing.{
  world, read_turn, reading, read_holds, sleeping, write_holds, call, looping, go, enter, lock,
  chunk_turn, rests, file, File, ended, Shared, turn, Request, read, write, Job, Proc, System, Run,
  here, step,
}

-- The driver's call for a request, as one function.
abbrev pub serve : {S : Type 0} → Kernel S → At24Data → Request → World S → Option (ℤ × World S)
serve k p (read count) w = some (at24_eeprom_read k p count w)
serve k p (write count) w = at24_eeprom_write k p count w

module _ {S : Type 0} (kernel : ℕ → Job → Kernel S) (p : At24Data) (allowed : Job → Type 0)
    (moves : S → S → Type 0) (origin s : System S) (i : ℕ) where
  -- A state that is reached from `origin`, by process `i` alone from `s` on, with the bus and the lock and where the
  -- process stands.
  pub record Alone (m : Shared S) (q : Proc) : Type 0 where
    pub last : System S
    pub run : Run kernel p allowed moves origin last
    pub shared : last.shared ≡ m
    pub here : last.proc i ≡ q
    pub others : (j : ℕ) → i ≢ j → last.proc j ≡ s.proc j

  pub goes :
      {m n : Shared S} {q q' : Proc} → turn (kernel i) p i m q ≡ (n, q') → Alone m q → Alone n q'
  goes {n} {q'} e a =
      let turned : turn (kernel i) p i a.last.shared (a.last.proc i) ≡ (n, q') =
        rw (a.shared, a.here) e in
      record {
        last = _;
        run = step a.run (go i n q' turned);
        shared = refl;
        here = update_same a.last.proc i q';
        others = λ j ne. update_other a.last.proc i j q' ne ∙ a.others j ne;
      }

  abbrev pub free : S → Shared S
  free bus = record { bus = bus; owner = none }

  abbrev pub taken : S → Shared S
  taken bus = record { bus = bus; owner = some i }

  -- The process has returned `ret` to the job `j`, and the lock is free.
  abbrev pub Ends : Job → ℤ → World S → Type 0
  Ends j ret w = Alone (free w.bus) (ended (record { job = j; ret = ret; file = file w }))

  -- The round up to the lock.
  locks :
      (j : Job) (count total : ℕ) (w : World S)
      → total < count
      → Alone (free w.bus) (looping j count total (file w))
      → Alone (taken w.bus) (write_holds j count total (file w))
  unfolding turn lock
  locks j count total w lt a = goes (ground arith) a

  pub Alone-rule :
      (j : Job) (count : ℕ)
      → LoopRule
          (kernel i j)
          p
          count
          (λ total w. Alone (free w.bus) (looping j count total (file w)))
          (Ends j)
  unfolding turn chunk_turn
  Alone-rule j count = record {
    done = λ total w a e. goes (ground arith) a;
    fault = λ total w a lt c. goes (rw (c, chunk_turn) refl) (locks j count total w lt a);
    bus_error = λ total bytes w a lt c bad.
        goes (rw (c, bad, chunk_turn) refl) (locks j count total w lt a);
    next = λ total bytes w a lt c good.
        let n = chunk_len p count w total in
        let (_, w') = send_chunk (kernel i j) p total n bytes w in
        goes {m = free w'.bus} {q = sleeping j count (total + n) (file w')} refl
          (goes (rw (c, good, chunk_turn) refl) (locks j count total w lt a));
  }

  abbrev job : Request → File → Job
  job r f = record { request = r; file = f }

  -- A call that a process at rest makes.
  enters :
      (r : Request) (f : File)
      → Run kernel p allowed moves origin s
      → s.shared.owner ≡ none
      → rests (s.proc i) ≡ some f
      → allowed (job r f)
      → Alone (free s.shared.bus) (enter (kernel i) p (job r f))
  enters r f reached unlocked at_rest ok = record {
    last = _;
    run = step reached (call i r f at_rest ok);
    shared = rw unlocked refl;
    here = update_same s.proc i _;
    others = λ j ne. update_other s.proc i j _ ne;
  }

  at_entry :
      {m : Shared S} {q : Proc} (j : Job)
      → enter (kernel i) p j ≡ q
      → Alone m (enter (kernel i) p j)
      → Alone m q
  at_entry {m} j e a = subst (Alone m) e a

  read-Ends :
      (count : ℕ) (f : File)
      → let j = job (read count) f in
        let (ret, w) = at24_eeprom_read (kernel i j) p count (world s.shared.bus f) in
        Alone (free s.shared.bus) (enter (kernel i) p j) → Ends j ret w
  unfolding at24_eeprom_read enter turn read_turn lock
  read-Ends count f a = elim (Bool-cases (is_neg f.offset || leb_ℤ (pos p.size) f.offset)) [
    | inl out ↦ rw out (at_entry (job (read count) f) (rw (out, enter) refl) a)
    | inr in_range ↦
        rw in_range
          (elim (Bool-cases ((kernel i (job (read count) f)).allocates (clip p f.offset count))) [
            | inl enough ↦
                let n = clip p f.offset count in
                rw enough (
                  goes {m = taken s.shared.bus} {q = read_holds (job (read count) f) n} refl (
                    goes {m = free s.shared.bus} {q = reading (job (read count) f) n} refl
                      (at_entry (job (read count) f) (rw (in_range, enough, enter) refl) a)))
            | inr short ↦
                rw short (at_entry (job (read count) f) (rw (in_range, short, enter) refl) a)
          ])
  ]

  write-Ends :
      (count : ℕ) (f : File)
      → 0 < p.page_size
      → let j = job (write count) f in
        Alone (free s.shared.bus) (enter (kernel i) p j)
        → Returns (Ends j) (at24_eeprom_write (kernel i j) p count (world s.shared.bus f))
  unfolding at24_eeprom_write enter
  write-Ends count f h a = elim (Bool-cases (leb_ℤ (pos p.size) f.offset)) [
    | inl out ↦ rw (out, Returns) (at_entry (job (write count) f) (rw (out, enter) refl) a)
    | inr in_range ↦
        rw in_range
          (elim (Bool-cases ((kernel i (job (write count) f)).allocates (2 + p.page_size))) [
            | inl enough ↦ rw enough (
                write_loop-Returns (kernel i (job (write count) f)) p (clip p f.offset count)
                  (Alone-rule (job (write count) f) (clip p f.offset count))
                  (suc (clip p f.offset count)) 0
                  (record {
                    bus = s.shared.bus;
                    offset = f.offset;
                    log = kmalloc (2 + p.page_size) ∷ f.log;
                  })
                  h (omega arith) (omega arith)
                  (at_entry (job (write count) f) (rw (in_range, enough, enter) refl) a))
            | inr short ↦
                rw (short, Returns)
                  (at_entry (job (write count) f) (rw (in_range, short, enter) refl) a)
          ])
  ]

  call-Ends :
      (r : Request) (f : File)
      → 0 < p.page_size
      → Alone (free s.shared.bus) (enter (kernel i) p (job r f))
      → Returns (Ends (job r f)) (serve (kernel i (job r f)) p r (world s.shared.bus f))
  call-Ends (read count) f h a = read-Ends count f a
  call-Ends (write count) f h a = write-Ends count f h a

  abbrev Serves : Request → File → Type 0
  Serves r f =
      (t : System S) × (ret : ℤ) × (w : World S) × Run kernel p allowed moves origin t
      × (serve (kernel i (job r f)) p r (world s.shared.bus f) ≡ some (ret, w))
      × (t.shared ≡ free w.bus)
      × (t.proc i ≡ ended (record { job = job r f; ret = ret; file = file w }))
      × ((j : ℕ) → i ≢ j → t.proc j ≡ s.proc j)

  served :
      (r : Request) (f : File) (o : Option (ℤ × World S))
      → serve (kernel i (job r f)) p r (world s.shared.bus f) ≡ o
      → Returns (Ends (job r f)) o
      → Serves r f
  served r f (some (ret, w)) e a = (a.last, ret, w, a.run, e, a.shared, a.here, a.others)
  served r f none e a = absurd a

-- Wherever the processes stand, one that is in no call, and makes a call that it may make while
-- the lock is free, can go on alone to the end of the call, and then the result, the position, the
-- calls it has made of the kernel and the bus are those of the driver's read or write as one
-- function; the lock is free, and the other processes are where they were. Pages are not empty.
pub alone-serve :
    {S : Type 0} {kernel : ℕ → Job → Kernel S} {p : At24Data} {allowed : Job → Type 0}
    {moves : S → S → Type 0} {s : System S} (i : ℕ) (r : Request) (f : File)
    → 0 < p.page_size
    → s.shared.owner ≡ none
    → rests (s.proc i) ≡ some f
    → allowed (record { request = r; file = f })
    → (t : System S) × (ret : ℤ) × (w : World S) × Run kernel p allowed moves s t
      × (serve (kernel i (record { request = r; file = f })) p r (world s.shared.bus f)
          ≡ some (ret, w))
      × (t.shared ≡ record { bus = w.bus; owner = none })
      × (t.proc i
          ≡ ended (record { job = record { request = r; file = f }; ret = ret; file = file w }))
      × ((j : ℕ) → i ≢ j → t.proc j ≡ s.proc j)
alone-serve {kernel} {p} {allowed} {moves} {s} i r f h unlocked at_rest ok =
    served kernel p allowed moves s s i r f
      (serve (kernel i (record { request = r; file = f })) p r (world s.shared.bus f)) refl
      (call-Ends kernel p allowed moves s s i r f h
        (enters kernel p allowed moves s s i r f here unlocked at_rest ok))

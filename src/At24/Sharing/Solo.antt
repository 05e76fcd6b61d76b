-- ===== src/At24/Sharing/Solo.antt =====
-- One process alone on the EEPROM of 22_i2c_at24.c, and the write cycle of its chip.
use yocto_meta_hsiao.Base.{
  Option, ap, ◌∙◌, Bool-cases, Option-cases, inl, inr, ltb, refl, arith, [], ◌∷◌, ◌∷◌, [], refl,
  arith, Bool, List, is_neg, ℕ, true, false, some, none, ◌≡◌,
}
use yocto_meta_hsiao.At24.{
  chunk_len, chunk_addr, write_msg, to_u64, read_msgs, read_locked, send_chunk, At24Data, Kernel,
}
use yocto_meta_hsiao.At24.Sharing.{
  File, Job, Request, Proc, idle, reading, read_holds, looping, write_holds, sleeping, ended,
  Shared, world, lock, read_turn, chunk_turn, turn, enter, rests,
}
use yocto_meta_hsiao.At24.Sharing.Mutex.{holds}

abbrev pub sleeps : Proc → Bool
sleeps (sleeping j count total f) = true
sleeps q = false

-- What the driver relies on: only a write that the chip takes starts its cycle.
pub record IsCalm {S : Type 0} (k : Kernel S) (in_cycle : S → Bool) : Type 0 where
  pub reads :
      (s : S) (dev a n : ℕ)
      → in_cycle s ≡ false
      → in_cycle (k.transfer s (read_msgs dev a n)).0 ≡ false
  pub refused :
      (s : S) (dev a n : ℕ) (bytes : List ℕ)
      → in_cycle s ≡ false
      → is_neg (k.transfer s (write_msg dev a n bytes ∷ [])).1 ≡ true
      → in_cycle (k.transfer s (write_msg dev a n bytes ∷ [])).0 ≡ false

rests-awake : (q : Proc) (f : File) → rests q ≡ some f → sleeps q ≡ false
rests-awake q f e = ground arith

holds-awake : (q : Proc) → holds q ≡ true → sleeps q ≡ false
holds-awake q h = ground arith

lock-bus :
    {S : Type 0} (i : ℕ) (bus : S) (o : Option ℕ) (q q' : Proc)
    → let m : Shared S = record { bus = bus; owner = o } in (lock i m q q').0.bus ≡ bus
unfolding lock
lock-bus i bus none q q' = refl
lock-bus i bus (some o) q q' = refl

module _ {S : Type 0} (k : Job → Kernel S) (p : At24Data) (in_cycle : S → Bool)
    (moves : S → S → Type 0) where
  -- The states of a process that has the device for itself. It comes out of `msleep(5)` once the
  -- cycle of at most 5 ms is over.
  pub data Solo : Shared S → Proc → Type 0 where
    start :
        (bus : S) (f : File)
        → in_cycle bus ≡ false
        → Solo (record { bus = bus; owner = none }) (idle f)
    call :
        {m : Shared S} {q : Proc} (r : Request) (f : File)
        → Solo m q
        → rests q ≡ some f
        → Solo m (enter k p (record { request = r; file = f }))
    go :
        {m : Shared S} {q : Proc}
        → Solo m q
        → (sleeps q ≡ true → in_cycle m.bus ≡ false)
        → Solo (turn k p 0 m q).0 (turn k p 0 m q).1
    move :
        {m : Shared S} {q : Proc} (bus' : S)
        → Solo m q
        → moves m.bus bus'
        → Solo (record m { bus = bus' }) q

  -- Where the chip may be in its cycle.
  abbrev Calm : S → Proc → Type 0
  Calm bus q = sleeps q ≡ false → in_cycle bus ≡ false

  module _ (calm : (j : Job) → IsCalm (k j) in_cycle)
      (kept : (s t : S) → moves s t → in_cycle s ≡ false → in_cycle t ≡ false) where
    read_turn-Calm :
        (j : Job) (n : ℕ) (bus : S)
        → in_cycle bus ≡ false
        → in_cycle (read_turn k p j n bus).0 ≡ false
    unfolding read_turn read_locked
    read_turn-Calm j n bus e = ground (arith, (calm j).reads bus p.addr (to_u64 j.file.offset) n)

    chunk_turn-Calm :
        (j : Job) (count total : ℕ) (f : File) (bus : S)
        → in_cycle bus ≡ false
        → let (bus', q) = chunk_turn k p j count total f bus in Calm bus' q
    unfolding chunk_turn send_chunk
    chunk_turn-Calm j count total f bus e =
        let a = chunk_addr (world bus f) total in
        let n = chunk_len p count (world bus f) total in
        elim (Option-cases ((k j).copy_in total n)) [
          | inl c ↦ rw (c, chunk_turn) (λ _. e)
          | inr (bytes, c) ↦
              elim (Bool-cases (is_neg ((k j).transfer bus (write_msg p.addr a n bytes ∷ [])).1)) [
                | inl bad ↦
                    rw (c, chunk_turn)
                      (ground (arith, bad, (calm j).refused bus p.addr a n bytes e bad))
                | inr good ↦ rw (c, chunk_turn) (ground (arith, good))
              ]
        ]

    turn-Calm :
        (m : Shared S) (q : Proc)
        → Calm m.bus q
        → (sleeps q ≡ true → in_cycle m.bus ≡ false)
        → let (m', q') = turn k p 0 m q in Calm m'.bus q'
    unfolding turn lock
    turn-Calm m (idle f) c w = c
    turn-Calm m (reading j n) c w =
        λ _. ap in_cycle (lock-bus 0 m.bus m.owner (reading j n) (read_holds j n)) ∙ c refl
    turn-Calm m (read_holds j n) c w = λ _. read_turn-Calm j n m.bus (c refl)
    turn-Calm m (looping j count total f) c w = elim (Bool-cases (ltb total count)) [
      | inl more ↦
          rw (more, turn)
            (λ _.
              ap in_cycle
                (lock-bus 0 m.bus m.owner (looping j count total f) (write_holds j count total f))
              ∙ c refl)
      | inr all ↦ rw (all, turn) (λ _. c refl)
    ]
    turn-Calm m (write_holds j count total f) c w = chunk_turn-Calm j count total f m.bus (c refl)
    turn-Calm m (sleeping j count total f) c w = λ _. w refl
    turn-Calm m (ended d) c w = c

    Solo-Calm : {m : Shared S} {q : Proc} → Solo m q → Calm m.bus q
    Solo-Calm (start bus f e) = λ _. e
    Solo-Calm (call {m} {q} r f run resting) = λ _. Solo-Calm run (rests-awake q f resting)
    Solo-Calm (go {m} {q} run w) = turn-Calm m q (Solo-Calm run) w
    Solo-Calm (move {m} {q} bus' run e) = λ awake. kept m.bus bus' e (Solo-Calm run awake)

    -- A process that has the device for itself, on a chip whose cycle only its writes start, and which
    -- comes out of its `msleep` after the cycle: whenever it has the lock to transfer, the chip is not
    -- in its cycle.
    pub alone-calm : {m : Shared S} {q : Proc} → Solo m q → holds q ≡ true → in_cycle m.bus ≡ false
    alone-calm {q} run h = Solo-Calm run (holds-awake q h)

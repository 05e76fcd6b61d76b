-- ===== src/At24/Sharing/Steps.antt =====
-- The turns of the processes that share the EEPROM of 22_i2c_at24.c, each against the order of
-- their calls.
use yocto_meta_hsiao.Base.{
  false, ◌++◌, ◌||◌, leb_ℤ, subst, sym, neg, refl, is_neg, Bool-cases, ap, true, arith, ◌<◌,
  Option-cases, ◌<◌, ◌∙◌, inl, inr, none, zero, arith, Option, to_u64, ◌%◌, ◌≤◌, pos, ltb, ◌+◌, ◌%◌,
  ◌≤◌, ◌≡◌, ◌∷◌, some, suc, pos, List, ℕ,
}
use yocto_meta_hsiao.At24.{
  efbig, kmalloc, enomem, einval, at24_eeprom_write, at24_eeprom_read, efault, copy_from_user,
  mutex_lock, mutex_unlock, send_chunk, clip, kfree, read_locked, write_loop, chunk_len, At24Data,
  Kernel, World,
}
use yocto_meta_hsiao.At24.Sharing.{
  turn, enter, read_turn, rests, finished, read, write, Request, File, read, write, Job, Done, Proc,
  sleeping, ended, Shared, world, file, lock, chunk_turn,
}
use yocto_meta_hsiao.At24.Sharing.Alone.{serve}
use yocto_meta_hsiao.At24.Sharing.Serial.{
  AtOnce, calls_of, Serial, served, stored, Writes, Placed, at_rest, reads, has_lock, writes,
  writes_next, sleeps, wakes, returned, Local, waits, acts,
}

module _ {S : Type 0} (kernel : ℕ → Job → Kernel S) (p : At24Data) (allowed : Job → Type 0)
    (moves : S → S → Type 0) (first : S) where
  -- The call of a process that has called no other since takes effect, and returns.
  acts_now :
      (h : List (ℕ × Done)) (i : ℕ) (past : List Done) {bus : S} (bus' : S) (d : Done)
      → Serial kernel p allowed moves first bus h
      → calls_of i h ≡ past
      → allowed d.job
      → serve (kernel i d.job) p d.job.request (world bus d.job.file)
        ≡ some (d.ret, world bus' d.file)
      → Local kernel p allowed moves first h i past bus' (ended d)
  acts_now h i past bus' d s l ok e = acts d (served i d s ok e) (returned d (ap (λ l. d ∷ l) l))

  lock-Local :
      (h : List (ℕ × Done)) (i : ℕ) (past : List Done) (bus : S) (o : Option ℕ) (q q' : Proc)
      → Serial kernel p allowed moves first bus h
      → Placed kernel p allowed moves first (calls_of i h) past i q
      → Placed kernel p allowed moves first (calls_of i h) past i q'
      → let m : Shared S = record { bus = bus; owner = o } in
        let (m', r) = lock i m q q' in Local kernel p allowed moves first h i past m'.bus r
  unfolding lock
  lock-Local h i past bus none q q' s a b = waits s b
  lock-Local h i past bus (some o) q q' s a b = waits s a

  last_round :
      (k : Kernel S) (fuel count total : ℕ) (w : World S)
      → 0 < fuel
      → total ≡ count
      → write_loop k fuel p count total w ≡ some (pos count, record w { log = kfree ∷ w.log })
  unfolding write_loop
  last_round k zero count total w h e = absurd (omega arith)
  last_round k (suc fuel) count total w h e = ground (arith, ltb)

  write-Local :
      (h : List (ℕ × Done)) (i : ℕ) (past : List Done) (bus : S) (j : Job) (count : ℕ) (f : File)
      → Serial kernel p allowed moves first bus h
      → calls_of i h ≡ past
      → Writes kernel p allowed moves first i j count f
      → 0 < count
      → let (bus', q) = chunk_turn (kernel i) p j count 0 f bus in
        Local kernel p allowed moves first h i past bus' q
  unfolding chunk_turn write_loop
  write-Local h i past bus j count f s l w lt =
      let ok = w.0 in
      let (whole, is_loop) = w.1 bus in
      let more : ltb 0 count ≡ true = ground (arith, ltb) in
      let n = chunk_len p count (world bus f) 0 in
      elim (Option-cases ((kernel i j).copy_in 0 n)) [
        | inl c ↦
            let d : Done = record {
              job = j;
              ret = neg efault;
              file = record f {
                log = kfree ∷ mutex_unlock ∷ copy_from_user 0 n ∷ mutex_lock ∷ f.log;
              };
            } in
            rw (c, chunk_turn)
              (acts_now h i past _ d s l ok (is_loop ∙ rw (more, c, write_loop) refl))
        | inr (bytes, c) ↦
            let (ret, w') = send_chunk (kernel i j) p 0 n bytes (world bus f) in
            elim (Bool-cases (is_neg ret)) [
              | inl bad ↦
                  let d : Done = record {
                    job = j;
                    ret = ret;
                    file = record (file w') { log = kfree ∷ w'.log };
                  } in
                  rw (c, bad, chunk_turn)
                    (acts_now h i past _ d s l ok (is_loop ∙ rw (more, c, bad, write_loop) refl))
              | inr good ↦
                  let d = stored j count (file w') in
                  let all : 0 + n ≡ count = omega (arith, whole) in
                  rw (c, good, chunk_turn)
                    (subst
                      (λ t.
                        Local kernel p allowed moves first h i past w'.bus
                          (sleeping j count t (file w')))
                      (sym all)
                      (acts d
                        (served i d s ok (
                          is_loop
                          ∙ (rw (more, c, good, write_loop) refl
                              ∙ last_round (kernel i j) count count (0 + n) w' lt all)))
                        (sleeps j count (file w') (ap (λ l. d ∷ l) l))))
            ]
      ]

  pub turn-Local :
      {h : List (ℕ × Done)} {past : List Done} {i : ℕ} {q : Proc} (m : Shared S)
      → Serial kernel p allowed moves first m.bus h
      → Placed kernel p allowed moves first (calls_of i h) past i q
      → let (m', q') = turn (kernel i) p i m q in
        Local kernel p allowed moves first h i past m'.bus q'
  unfolding turn read_turn write_loop
  turn-Local m s (at_rest f l) = waits s (at_rest f l)
  turn-Local {h} {past} {i} m s (reads j n l r) =
      lock-Local h i past m.bus m.owner _ _ s (reads j n l r) (has_lock j n l r)
  turn-Local {h} {past} {i} m s (has_lock j n l r) =
      let (ret, w) = read_locked (kernel i j) p n (world m.bus j.file) in
      acts_now h i past w.bus (record { job = j; ret = ret; file = file w }) s l r.0 (r.1 m.bus)
  turn-Local {h} {past} {i} m s (writes j count f l w) = elim (Bool-cases (ltb 0 count)) [
    | inl more ↦
        rw (more, turn)
          (lock-Local h i past m.bus m.owner _ _ s (writes j count f l w)
            (writes_next j count f l w (ground (arith, more))))
    | inr none_left ↦
        let d : Done = record { job = j; ret = pos 0; file = record f { log = kfree ∷ f.log } } in
        rw (none_left, turn)
          (acts_now h i past m.bus d s l w.0 ((w.1 m.bus).1 ∙ rw (none_left, write_loop) refl))
  ]
  turn-Local {h} {past} {i} m s (writes_next j count f l w lt) =
      write-Local h i past m.bus j count f s l w lt
  turn-Local m s (sleeps j count f l) = waits s (wakes j count f l)
  turn-Local m s (wakes j count f l) =
      let all : ltb count count ≡ false = ground (arith, ltb) in
      rw (all, turn) (waits s (returned (stored j count f) l))
  turn-Local m s (returned d l) = waits s (returned d l)

  -- What a process at rest has called.
  pub rests-Placed :
      {l past : List Done} {i : ℕ} {q : Proc} (f : File)
      → rests q ≡ some f
      → Placed kernel p allowed moves first l past i q
      → l ≡ finished q ++ past
  rests-Placed f e (at_rest g l) = l
  rests-Placed f e (returned d l) = l
  rests-Placed f e (reads j n l r) = ground arith
  rests-Placed f e (has_lock j n l r) = ground arith
  rests-Placed f e (writes j count g l w) = ground arith
  rests-Placed f e (writes_next j count g l w lt) = ground arith
  rests-Placed f e (sleeps j count g l) = ground arith
  rests-Placed f e (wakes j count g l) = ground arith

  chunk_len_once :
      (count : ℕ) (w : World S)
      → to_u64 w.offset % p.page_size + count ≤ p.page_size
      → chunk_len p count w 0 ≡ count
  chunk_len_once count w h = ground (arith, to_u64)

  pub enter-Local :
      (h : List (ℕ × Done)) (i : ℕ) (past : List Done) (bus : S) (r : Request) (f : File)
      → allowed (record { request = r; file = f })
      → AtOnce p (record { request = r; file = f })
      → Serial kernel p allowed moves first bus h
      → calls_of i h ≡ past
      → Local kernel p allowed moves first h i past bus
          (enter (kernel i) p (record { request = r; file = f }))
  unfolding enter at24_eeprom_read at24_eeprom_write
  enter-Local h i past bus (read count) f ok once s l =
      let j : Job = record { request = read count; file = f } in
      let refused : ℕ → Done = λ e. record { job = j; ret = neg e; file = f } in
      elim (Bool-cases (is_neg f.offset || leb_ℤ (pos p.size) f.offset)) [
        | inl out ↦
            rw (out, enter)
              (acts_now h i past bus (refused einval) s l ok (rw (out, at24_eeprom_read) refl))
        | inr in_range ↦ elim (Bool-cases ((kernel i j).allocates (clip p f.offset count))) [
          | inl enough ↦
              rw (in_range, enough, enter)
                (waits s (
                  reads j (clip p f.offset count) l
                    (ok, λ bus. rw (in_range, enough, at24_eeprom_read) refl)))
          | inr short ↦
              rw (in_range, short, enter)
                (acts_now h i past bus (refused enomem) s l ok
                  (rw (in_range, short, at24_eeprom_read) refl))
        ]
      ]
  enter-Local h i past bus (write count) f ok once s l =
      let j : Job = record { request = write count; file = f } in
      let refused : ℕ → Done = λ e. record { job = j; ret = neg e; file = f } in
      let g : File = record f { log = kmalloc (2 + p.page_size) ∷ f.log } in
      elim (Bool-cases (leb_ℤ (pos p.size) f.offset)) [
        | inl out ↦
            rw (out, enter)
              (acts_now h i past bus (refused efbig) s l ok (rw (out, at24_eeprom_write) refl))
        | inr in_range ↦ elim (Bool-cases ((kernel i j).allocates (2 + p.page_size))) [
          | inl enough ↦
              rw (in_range, enough, enter)
                (waits s (
                  writes j (clip p f.offset count) g l (
                    ok,
                    λ bus. (
                      chunk_len_once (clip p f.offset count) (world bus g) once,
                      rw (in_range, enough, at24_eeprom_write) refl,
                    ),
                  )))
          | inr short ↦
              rw (in_range, short, enter)
                (acts_now h i past bus (refused enomem) s l ok
                  (rw (in_range, short, at24_eeprom_write) refl))
        ]
      ]

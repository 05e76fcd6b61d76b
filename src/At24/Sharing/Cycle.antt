-- ===== src/At24/Sharing/Cycle.antt =====
-- The write cycle of the AT24C256 and the processes that share it: after a page write the chip is
-- busy, and 22_i2c_at24.c waits for it in `msleep(5)` with its lock given back.
use yocto_meta_hsiao.Base.{
  to_u64, refl, sym, update_same, update_other, ◌≢◌, update_other, ◌+◌, ◌≡◌, ◌≢◌, ◌∙◌, refl, true,
  false, some, arith, Bool, List, is_neg, ℕ,
}
use yocto_meta_hsiao.At24.{
  read_msgs, I2cMsg, At24Data, Kernel, World, send_chunk, chunk_len, read_locked,
}
use yocto_meta_hsiao.At24.Sharing.{
  Run, here, step, update, File, Job, Done, reading, read_holds, write_holds, sleeping, ended,
  world, file, lock, read_turn, chunk_turn, turn, System, go,
}
use yocto_meta_hsiao.At24.Sharing.Alone.{Alone, goes, free, taken}

-- What the driver's comments say of the chip: a write that it takes starts a cycle, and in a cycle
-- it does not acknowledge its address, so that a transfer fails.
pub record IsCycling {S : Type 0} (k : Kernel S) (p : At24Data) (in_cycle : S → Bool) : Type 0 where
  pub starts :
      (total n : ℕ) (bytes : List ℕ) (w : World S)
      → let (ret, w') = send_chunk k p total n bytes w in
        is_neg ret ≡ false → in_cycle w'.bus ≡ true
  pub nacks : (s : S) (msgs : List I2cMsg) → in_cycle s ≡ true → is_neg (k.transfer s msgs).1 ≡ true

read_nacked :
    {S : Type 0} (k : Kernel S) (p : At24Data) (in_cycle : S → Bool) (n : ℕ) (w : World S)
    → IsCycling k p in_cycle
    → in_cycle w.bus ≡ true
    → let (ret, w') = read_locked k p n w in (is_neg ret ≡ true) × (w'.offset ≡ w.offset)
unfolding read_locked
read_nacked k p in_cycle n w c e =
    let bad = c.nacks w.bus (read_msgs p.addr (to_u64 w.offset) n) e in rw bad (bad, refl)

-- Where a write of process `i` is about to make a round that the chip will take, and another process
-- waits for the lock to read: steps lead to a state in which the write is in its `msleep`, and the
-- read has returned a bus error with nothing read, for it got the lock in the chip's write cycle.
read-nacked :
    {S : Type 0} {kernel : ℕ → Job → Kernel S} {p : At24Data} {allowed : Job → Type 0}
    {moves : S → S → Type 0} {s : System S} (in_cycle : S → Bool) (i a : ℕ) (j b : Job)
    (count total n : ℕ) (f : File) (bytes : List ℕ)
    → ((x : ℕ) (y : Job) → IsCycling (kernel x y) p in_cycle)
    → s.proc i ≡ write_holds j count total f
    → s.proc a ≡ reading b n
    → let m = chunk_len p count (world s.shared.bus f) total in
      (kernel i j).copy_in total m ≡ some bytes
      → is_neg (send_chunk (kernel i j) p total m bytes (world s.shared.bus f)).0 ≡ false
      → (t : System S) × (g : File) × (d : Done) × Run kernel p allowed moves s t
        × (t.proc i ≡ sleeping j count (total + m) g)
        × (t.proc a ≡ ended d)
        × (d.job ≡ b)
        × (is_neg d.ret ≡ true)
        × (d.file.offset ≡ b.file.offset)
unfolding turn chunk_turn read_turn lock
read-nacked {S} {kernel} {p} {allowed} {moves} {s} in_cycle i a j b count total n f bytes cycling
      writes waits copied good =
    let m = chunk_len p count (world s.shared.bus f) total in
    let (_, w) = send_chunk (kernel i j) p total m bytes (world s.shared.bus f) in
    let q = sleeping j count (total + m) (file w) in
    let apart : i ≢ a = λ e. ground (arith, e, writes, waits) in
    let sent : turn (kernel i) p i s.shared (s.proc i)
        ≡ (free kernel p allowed moves s s i w.bus, q) =
      rw (writes, turn, copied, good, chunk_turn) refl in
    let s1 : System S = record {
      shared = free kernel p allowed moves s s i w.bus;
      proc = update s.proc i q;
      past = s.past;
    } in
    let start_ : Alone kernel p allowed moves s s1 a (free kernel p allowed moves s s i w.bus)
        (reading b n) =
      record {
        last = s1;
        run = step here (go i _ q sent);
        shared = refl;
        here = update_other s.proc i a q apart ∙ waits;
        others = λ x ne. refl;
      } in
    let (ret, w') = read_locked (kernel a b) p n (world w.bus b.file) in
    let d : Done = record { job = b; ret = ret; file = file w' } in
    let done = goes kernel p allowed moves s s1 a {q = read_holds b n} {q' = ended d} refl (
      goes kernel p allowed moves s s1 a {n = taken kernel p allowed moves s s1 a w.bus}
        {q = reading b n} {q' = read_holds b n} refl start_) in
    let (bad, kept) =
      read_nacked (kernel a b) p in_cycle n (world w.bus b.file) (cycling a b)
        ((cycling i j).starts total m bytes (world s.shared.bus f) good) in
    (
      done.last,
      file w,
      d,
      done.run,
      done.others i (λ e. apart (sym e)) ∙ update_same s.proc i q,
      done.here,
      refl,
      bad,
      kept,
    )

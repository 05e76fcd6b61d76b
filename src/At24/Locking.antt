-- ===== src/At24/Locking.antt =====
-- The lock and the buffers of 22_i2c_at24.c: the order of the kernel calls that `read` and `write`
-- make, on every path.
use yocto_meta_hsiao.Base.{ℕ, ◌<◌, ◌≡◌, refl, Option, none, some, List, [], ◌∷◌, arith}
use yocto_meta_hsiao.At24.{
  At24Data, Kernel, World, Call, kmalloc, kfree, mutex_lock, mutex_unlock, i2c_transfer,
  copy_from_user, copy_to_user, msleep, clip, chunk_len, at24_eeprom_read, at24_eeprom_write,
}
use yocto_meta_hsiao.At24.Loop.{
  Returns, LoopRule, send_chunk_bad, send_chunk_good, at24_eeprom_write-Returns,
}

-- What a caller holds: nothing, its buffer, or its buffer and the lock.
pub data Held : Type 0 where
  nothing buffer locked : Held

-- The kernel's rules for one call: `none` if the caller may not make it. The bus is used under the
-- lock only; sleeping, and copying to the user, are done without it.
abbrev pub obey : Call → Held → Option Held
obey (kmalloc n) nothing = some buffer
obey kfree buffer = some nothing
obey mutex_lock buffer = some locked
obey mutex_unlock locked = some buffer
obey (i2c_transfer ms) locked = some locked
obey (copy_from_user i n) locked = some locked
obey (copy_to_user bytes) buffer = some buffer
obey (msleep ms) buffer = some buffer
obey c h = none

abbrev obey? : Call → Option Held → Option Held
obey? c none = none
obey? c (some h) = obey c h

-- What is held after a log, or `none` if some call broke the rules.
abbrev pub held : List Call → Option Held
held [] = some nothing
held (c ∷ log) = obey? c (held log)

module _ {S : Type 0} (k : Kernel S) (p : At24Data) where
  held_rule :
      (n : ℕ) → LoopRule k p n (λ _ w. held w.log ≡ some buffer) (λ _ w. held w.log ≡ some nothing)
  held_rule n = record {
    done = λ total w inv _. rw inv;
    fault = λ total w inv lt c. rw inv;
    bus_error = λ total bytes w inv lt c bad.
        rw ((send_chunk_bad k p total (chunk_len p n w total) bytes w bad).1, inv);
    next = λ total bytes w inv lt c good.
        rw ((send_chunk_good k p total (chunk_len p n w total) bytes w good).1, inv);
  }

  -- A write, however it ends, gives back the lock and its buffer, each once and the lock first, and
  -- makes every transfer and every copy from the user under the lock and every sleep without it.
  held-write :
      (count : ℕ) (w : World S)
      → 0 < p.page_size
      → held w.log ≡ some nothing
      → Returns (λ _ w'. held w'.log ≡ some nothing) (at24_eeprom_write k p count w)
  held-write count w h e =
      at24_eeprom_write-Returns k p (clip p w.offset count) (held_rule (clip p w.offset count))
        count w h refl (λ _. e) (λ _. e) (rw e)

  -- A read, however it ends, gives back the lock and its buffer, each once and the lock first, and
  -- makes its transfer under the lock and its copy to the user without it.
  held-read :
      (count : ℕ) (w : World S)
      → held w.log ≡ some nothing
      → held (at24_eeprom_read k p count w).1.log ≡ some nothing
  unfolding at24_eeprom_read
  held-read count w e = ground arith

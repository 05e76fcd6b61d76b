-- ===== src/At24.antt =====
-- recipes-kernel/hsiao-kmod/files/22_i2c_at24.c: the file operations of the AT24C256 driver, as
-- functions of the private data, the file position, the bus and a log of the kernel calls made.
-- The i2c core, the allocator and the user's memory are the argument `k`.

pub mod Seek
pub mod Chip
pub mod Loop
pub mod Pages
pub mod Locking
pub mod Stores
pub mod Writes
pub mod Nacks
pub mod Skips
pub mod RoundTrip
pub mod App
pub mod Sharing
mod Example
mod Tests
use yocto_meta_hsiao.Base.{
  ℕ, zero, suc, ◌+◌, ◌-◌, ◌/◌, ◌%◌, ◌^◌, min, Bool, true, false, not, ◌||◌, Option, none, some,
  List, [], ◌∷◌, ltb, leb, if◌then◌else◌, ℤ, pos, neg, ◌+ℤ◌, ◌-ℤ◌, leb_ℤ, is_neg, to_u64,
}

abbrev pub eeprom_size : ℕ
eeprom_size = 32768

abbrev pub page_size : ℕ
page_size = 64

abbrev pub einval : ℕ
einval = 22

abbrev pub enomem : ℕ
enomem = 12

abbrev pub efault : ℕ
efault = 14

abbrev pub efbig : ℕ
efbig = 27

-- `struct at24_data`, less its character device and its lock; `addr` is `client->addr`.
pub record At24Data : Type 0 where
  pub addr : ℕ
  pub size : ℕ
  pub page_size : ℕ

-- `struct i2c_msg`. A read message's buffer is filled by the transfer.
pub record I2cMsg : Type 0 where
  pub addr : ℕ
  pub flags : ℕ
  pub len : ℕ
  pub buf : List ℕ

abbrev pub i2c_m_rd : ℕ
i2c_m_rd = 1

-- The kernel calls that `read` and `write` make (of `kmalloc`, those that succeed).
pub data Call : Type 0 where
  kmalloc : ℕ → Call
  kfree mutex_lock mutex_unlock : Call
  i2c_transfer : List I2cMsg → Call
  copy_from_user : ℕ → ℕ → Call
  copy_to_user : List ℕ → Call
  msleep : ℕ → Call

-- What the kernel answers: does an allocation succeed; the bytes of `copy_from_user(_, buf + i, n)`,
-- or `none` if it returns nonzero; does `copy_to_user` return nonzero; the bus after a transfer,
-- its result, and what it put into the buffer of the read message.
pub record Kernel (S : Type 0) : Type 0 where
  pub allocates : ℕ → Bool
  pub copy_in : ℕ → ℕ → Option (List ℕ)
  pub copy_out_fails : List ℕ → Bool
  pub transfer : S → List I2cMsg → S × ℤ × List ℕ

-- The state that a call works on: the bus, `*offset`, and the calls so far, the newest first.
pub record World (S : Type 0) : Type 0 where
  pub bus : S
  pub offset : ℤ
  pub log : List Call

-- The two bytes of an address on the wire, the high one first.
abbrev pub addr_bytes : ℕ → List ℕ
addr_bytes a = a / 256 % 256 ∷ a % 256 ∷ []

abbrev pub read_msgs : ℕ → ℕ → ℕ → List I2cMsg
read_msgs dev a n =
    record { addr = dev; flags = 0; len = 2; buf = addr_bytes a }
    ∷ record { addr = dev; flags = i2c_m_rd; len = n % 2 ^ 16; buf = [] }
    ∷ []

abbrev pub write_msg : ℕ → ℕ → ℕ → List ℕ → I2cMsg
write_msg dev a n bytes = record {
  addr = dev;
  flags = 0;
  len = (2 + n) % 2 ^ 16;
  buf = a / 256 % 256 ∷ a % 256 ∷ bytes;
}

-- `if (*offset + count > priv->size) count = priv->size - *offset;` in the 64-bit unsigned
-- arithmetic of `size_t`.
pub clip : At24Data → ℤ → ℕ → ℕ
clip p off count =
    if ltb p.size ((to_u64 off + count) % 2 ^ 64) then to_u64 (pos p.size -ℤ off) else count

-- `*offset + total_written`
abbrev pub chunk_addr : {S : Type 0} → World S → ℕ → ℕ
chunk_addr w total = (to_u64 w.offset + total) % 2 ^ 64

-- `bytes_to_write`
abbrev pub chunk_len : {S : Type 0} → At24Data → ℕ → World S → ℕ → ℕ
chunk_len p count w total = min (p.page_size - chunk_addr w total % p.page_size) (count - total)

module _ {S : Type 0} (k : Kernel S) where
  -- `at24_eeprom_read` after the clipping, once `data_buf` is allocated.
  pub read_locked : At24Data → ℕ → World S → ℤ × World S
  read_locked p n w =
      let msgs = read_msgs p.addr (to_u64 w.offset) n in
      let (bus', ret, bytes) = k.transfer w.bus msgs in
      let sent = mutex_unlock ∷ i2c_transfer msgs ∷ mutex_lock ∷ kmalloc n ∷ w.log in
      if is_neg ret
      then (ret, record w { bus = bus'; log = kfree ∷ sent })
      else if k.copy_out_fails bytes
      then (neg efault, record w { bus = bus'; log = kfree ∷ copy_to_user bytes ∷ sent })
      else (
        pos n,
        record { bus = bus'; offset = w.offset +ℤ pos n; log = kfree ∷ copy_to_user bytes ∷ sent },
      )

  -- `at24_eeprom_read(filp, buf, count, offset)`
  pub at24_eeprom_read : At24Data → ℕ → World S → ℤ × World S
  unfolding read_locked
  at24_eeprom_read p count w =
      if is_neg w.offset || leb_ℤ (pos p.size) w.offset
      then (neg einval, w)
      else if not (k.allocates (clip p w.offset count))
      then (neg enomem, w)
      else read_locked p (clip p w.offset count) w

  -- One round of the loop with `bytes` copied in: the transfer's result, and the world after it.
  pub send_chunk : At24Data → ℕ → ℕ → List ℕ → World S → ℤ × World S
  send_chunk p total n bytes w =
      let msg = write_msg p.addr (chunk_addr w total) n bytes in
      let (bus', ret, _) = k.transfer w.bus (msg ∷ []) in
      let sent =
        mutex_unlock ∷ i2c_transfer (msg ∷ []) ∷ copy_from_user total n ∷ mutex_lock ∷ w.log in
      if is_neg ret
      then (ret, record w { bus = bus'; log = sent })
      else (ret, record { bus = bus'; offset = w.offset +ℤ pos n; log = msleep 5 ∷ sent })

  -- `while (total_written < count)`, on fuel: `none` means that the fuel ran out.
  pub write_loop : ℕ → At24Data → ℕ → ℕ → World S → Option (ℤ × World S)
  unfolding send_chunk
  write_loop zero p count total w = none
  write_loop (suc fuel) p count total w = elim (ltb total count) [
    | false ↦ some (pos total, record w { log = kfree ∷ w.log })
    | true ↦
        let n = chunk_len p count w total in
        elim (k.copy_in total n) [
          | none ↦ some (
            neg efault,
            record w { log = kfree ∷ mutex_unlock ∷ copy_from_user total n ∷ mutex_lock ∷ w.log },
          )
          | some bytes ↦
              let (ret, w') = send_chunk p total n bytes w in
              let rest = write_loop fuel p count (total + n) w' in
              if is_neg ret then some (ret, record w' { log = kfree ∷ w'.log }) else rest
        ]
  ]

  -- `at24_eeprom_write(filp, buf, count, offset)`. A round writes a byte at least, so the fuel is
  -- one more than the bytes to write.
  pub at24_eeprom_write : At24Data → ℕ → World S → Option (ℤ × World S)
  unfolding write_loop
  at24_eeprom_write p count w =
      let n = clip p w.offset count in
      if leb_ℤ (pos p.size) w.offset
      then some (neg efbig, w)
      else if not (k.allocates (2 + p.page_size))
      then some (neg enomem, w)
      else write_loop (suc n) p n 0 (record w { log = kmalloc (2 + p.page_size) ∷ w.log })

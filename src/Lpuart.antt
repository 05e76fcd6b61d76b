-- ===== src/Lpuart.antt =====
-- recipes-kernel/hsiao-kmod/files/lpuart_interrupt.c and lpuart_polling.c, the character drivers of one LPUART: their register
-- polling, `write`, and the `read` of the polling driver. A run reads STAT and DATA from the chip;
-- the values that it will read are lists, so a busy wait ends when its list does (`none`: the
-- caller spins for longer than the list says).
-- Lpuart/Receive.antt is the interrupt handler with the `read` that it feeds, Lpuart/Power.antt is
-- `open` and `release`, Lpuart/Transmit.antt is about `write`.
-- Lpuart/Race.antt and Lpuart/Writers.antt have several processes that read or write, Lpuart/Wire.antt
-- two boards.
use yocto_meta_hsiao.Base.{
  is_neg, ℕ, zero, suc, ◌+◌, ◌/◌, ◌%◌, ◌^◌, Bool, true, false, List, [], ◌∷◌, ◌++◌, Option, none,
  some, ◌==◌, if◌then◌else◌, ℤ, pos, neg, length,
}
pub mod Transmit
pub mod Receive
pub mod Race
pub mod Writers
pub mod Wire
pub mod Power
mod Tests

abbrev pub einval : ℕ
einval = 22

abbrev pub efault : ℕ
efault = 14

abbrev bit : ℕ → ℕ → Bool
bit n v = v / 2 ^ n % 2 == 1

-- STAT_TDRE, transmit data register empty.
abbrev pub tdre : ℕ → Bool
tdre status = bit 23 status

-- STAT_RDRF, receive data register full.
abbrev pub rdrf : ℕ → Bool
rdrf status = bit 21 status

-- A 32-bit access of the chip: a read with its value, or a write.
pub data Access : Type 0 where
  readl_stat writel_data : ℕ → Access

-- What the chip will answer to reads of STAT, and what was accessed, the newest first.
pub record Line : Type 0 where
  pub stat : List ℕ
  pub log : List Access

-- `lpuart_putc`'s wait: reads STAT until TDRE is set.
unfoldable pub wait_tdre : List ℕ → List Access → Option Line
wait_tdre [] log = none
wait_tdre (v ∷ stat) log =
    let rest = wait_tdre stat (readl_stat v ∷ log) in
    if tdre v then some (record { stat = stat; log = readl_stat v ∷ log }) else rest

-- `lpuart_putc`
unfoldable pub lpuart_putc : Line → ℕ → Option Line
lpuart_putc l c = elim (wait_tdre l.stat l.log) [
  | none ↦ none
  | some m ↦ some (record m { log = writel_data c ∷ m.log })
]

-- The loop of `uart_write` over the rest of the user's bytes; one that cannot be read is `none`.
unfoldable pub write_loop : List (Option ℕ) → ℕ → Line → Option (ℤ × Line)
write_loop [] count l = some (pos count, l)
write_loop (none ∷ user) count l = some (neg efault, l)
write_loop (some c ∷ user) count l = elim (lpuart_putc l c) [
  | none ↦ none
  | some m ↦ write_loop user count m
]

-- `uart_write` of both drivers, but for `*off`: the user's `count` bytes, `none` for a null pointer.
unfoldable pub uart_write : Option (List (Option ℕ)) → Line → Option (ℤ × Line)
uart_write none l = some (neg einval, l)
uart_write (some user) l = write_loop user (length user) l

-- The same with `*off`, which a write of all bytes advances by `count`.
unfoldable pub uart_write_at : Option (List (Option ℕ)) → ℕ → Line → Option (ℤ × ℕ × Line)
uart_write_at none off l = some (neg einval, off, l)
uart_write_at (some user) off l = elim (write_loop user (length user) l) [
  | none ↦ none
  | some (ret, m) ↦ some (ret, if is_neg ret then off else off + length user, m)
]

-- `lpuart_getc` of the polling driver: reads STAT until RDRF is set, then takes DATA's byte.
unfoldable pub lpuart_getc : List ℕ → ℕ → Option ℕ
lpuart_getc [] data_reg = none
lpuart_getc (v ∷ stat) data_reg =
    let rest = lpuart_getc stat data_reg in if rdrf v then some (data_reg % 256) else rest

-- `uart_read` of the polling driver: is there a buffer, can its first byte be written, how many
-- bytes are wanted. The loop leaves after its first byte.
unfoldable pub polling_read : Bool → Bool → ℕ → List ℕ → ℕ → Option (ℤ × List ℕ)
polling_read false user_ok count stat data_reg = some (neg einval, [])
polling_read true user_ok zero stat data_reg = some (neg einval, [])
polling_read true user_ok (suc count) stat data_reg = elim (lpuart_getc stat data_reg) [
  | none ↦ none
  | some c ↦ some (if user_ok then (pos 1, c ∷ []) else (neg efault, []))
]

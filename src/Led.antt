-- ===== src/Led.antt =====
-- The file operations of the LED drivers, recipes-kernel/hsiao-kmod/files/9_thread.c and
-- 8_gpioled.c: `Led_Open` and `Led_Release` of 9_thread.c for its three kinds of lock, and
-- `Led_Write` of both.
use yocto_meta_hsiao.Registration.Leaky.{Numbers, Answers, Pins, Left, led_init}
use yocto_meta_hsiao.Base.{
  overlay, is_nonzero, ℕ, zero, suc, ◌+◌, ◌-◌, ◌*◌, ◌≡◌, Bool, true, false, not, List, [], ◌∷◌,
  ◌++◌, Option, none, some, ltb, ◌==◌, if◌then◌else◌, length, drop, get_or, ℤ, pos, negsuc, neg,
}
pub mod Exclusion
pub mod Unprepared
pub mod App
pub mod ThreadApp
pub mod Sharing
pub mod Platform
pub mod Write
mod Tests

-- SPIN_LOCK, SEMAPHORE and MUTEX.
pub data ThreadType : Type 0 where
  spin_lock semaphore mutex : ThreadType

-- The part of `struct gpioled_dev` that guards the device: `dev_status`, the count of `sem`, and
-- whether `mtx` is locked.
pub record GpioledDev : Type 0 where
  pub dev_status : ℕ
  pub sem : ℕ
  pub mtx : Bool

abbrev pub ebusy : ℕ
ebusy = 16

abbrev pub efault : ℕ
efault = 14

abbrev pub einval : ℕ
einval = 22

-- `down_interruptible` and `mutex_lock_interruptible`: whether the lock is free, whether a signal
-- ends the wait for it, and the device with the lock taken. `none`: the caller still waits.
abbrev pub lock_or_wait : Bool → Bool → GpioledDev → GpioledDev → Option (ℤ × GpioledDev)
lock_or_wait free signalled taken d =
    if free then some (pos 0, taken) else if signalled then some (neg ebusy, d) else none

-- `Led_Open` of 9_thread.c. The spin lock is held for the whole branch, so that is one step.
unfoldable pub led_open : ThreadType → Bool → GpioledDev → Option (ℤ × GpioledDev)
led_open spin_lock signalled d =
    if not (d.dev_status == 0)
    then some (neg ebusy, d)
    else some (pos 0, record d { dev_status = suc d.dev_status })
led_open semaphore signalled d =
    lock_or_wait (not (d.sem == 0)) signalled (record d { sem = d.sem - 1 }) d
led_open mutex signalled d = lock_or_wait (not d.mtx) signalled (record d { mtx = true }) d

-- `Led_Release` of 9_thread.c.
unfoldable pub led_release : ThreadType → GpioledDev → ℤ × GpioledDev
led_release spin_lock d =
    if d.dev_status == 0
    then (neg ebusy, d)
    else (pos 0, record d { dev_status = d.dev_status - 1 })
led_release semaphore d = (pos 0, record d { sem = suc d.sem })
led_release mutex d = (pos 0, record d { mtx = false })

-- The static device before `Led_Init`: all bytes zero, so no unit in the semaphore.
abbrev pub static_dev : GpioledDev
static_dev = record { dev_status = 0; sem = 0; mtx = false }

-- The end of `Led_Init` of 9_thread.c, which sets up the lock of the kind.
abbrev pub thread_init : ThreadType → GpioledDev → GpioledDev
thread_init spin_lock d = d
thread_init semaphore d = record d { sem = 1 }
thread_init mutex d = record d { mtx = false }

-- `Led_Init` of 9_thread.c: what it leaves registered, and the locks.
unfoldable pub thread_led_init : ThreadType → Numbers → Answers → Pins → Left × GpioledDev
thread_led_init k s a g =
    let l = led_init s a g in (l, if is_nonzero l.ret then static_dev else thread_init k static_dev)

-- The bytes of `write_buf`, 256 values of 16 bits.
abbrev pub write_buf_size : ℕ
write_buf_size = 512

-- `write_buf[0]`, the low byte first.
abbrev pub first_u16 : List ℕ → ℕ
first_u16 buf = get_or buf 0 0 + 256 * get_or buf 1 0

-- `Led_Release` and `Led_Read` of 8_gpioled.c, which do nothing but return TRUE, and `Led_Read` of
-- 9_thread.c, which does no more.
abbrev gpioled_release : ℤ
gpioled_release = pos 0

abbrev gpioled_read : ℤ
gpioled_read = pos 0

abbrev thread_led_read : ℤ
thread_led_read = pos 0

-- `Led_Write` of 8_gpioled.c: whether `copy_from_user` reports a fault, the bytes it leaves in the buffer, the
-- buffer and the pin before, and the result, the buffer and the pin afterwards; `none` if the copy
-- runs over the end of the buffer. The pin is set low for LED_ON.
unfoldable pub led_write : Bool → List ℕ → List ℕ → Bool → Option (ℤ × List ℕ × Bool)
led_write faulted bytes buf pin =
    let buf' = overlay bytes buf in
    if ltb write_buf_size (length bytes)
    then none
    else if faulted
    then some (neg efault, buf', pin)
    else if first_u16 buf' == 0
    then some (pos 0, buf', false)
    else if first_u16 buf' == 1
    then some (pos 0, buf', true)
    else some (neg einval, buf', pin)

-- `Led_Write` of 9_thread.c, the same text.
abbrev pub thread_led_write : Bool → List ℕ → List ℕ → Bool → Option (ℤ × List ℕ × Bool)
thread_led_write = led_write

-- ===== src/Led/Sharing.antt =====
-- Any number of processes that run recipes-app/files/9_thread_app.c on the one LED of 9_thread.c:
-- `main` as its calls of the driver and the rounds of its loop, one turn at a time.
pub mod Turn
pub mod Invariant
pub mod Alone
use yocto_meta_hsiao.Base.{
  length, update, ◌+◌, ◌%◌, ◌^◌, if◌then◌else◌, true, false, none, some, pos, ℤ, Bool, List, Option,
  leb, is_neg, ℕ, ◌≡◌,
}
use yocto_meta_hsiao.Registration.Leaky.{Numbers, Answers, Pins}
use yocto_meta_hsiao.Led.{ThreadType, led_open, led_release, thread_led_write, thread_led_init}
use yocto_meta_hsiao.Led.App.{Ending, open_error, data_buffer, after_write}
use yocto_meta_hsiao.Led.ThreadApp.{Shared}

-- What a process is started with: its argument, what the stack held in the other 510 bytes of
-- `data_buffer`, and the result that `close` will have.
pub record Launch : Type 0 where
  pub arg : List ℕ
  pub stack : List ℕ
  pub closed : ℤ

-- Where a process stands: not started, about to open the device, about to write, in the loop with
-- its count, about to leave the device (by `close`, or as the kernel does when it ends with the file
-- open), and ended.
pub data App : Type 0 where
  idle : App
  opening writing : Launch → App
  looping : Launch → (count : ℕ) → App
  leaving ended : Ending → App

-- From a successful open to the release.
abbrev pub has_device : App → Bool
has_device (writing l) = true
has_device (looping l count) = true
has_device (leaving e) = true
has_device p = false

-- One turn of a process, with whether a signal is pending for it; `none` if its write runs over the
-- driver's buffer.
unfoldable pub turn : ThreadType → Bool → Shared → App → Option (Shared × App)
turn k signalled s (opening l) = elim (led_open k signalled s.dev) [
  | none ↦ some (s, opening l)
  | some (ret, d) ↦ some (record s { dev = d }, if is_neg ret then ended open_error else writing l)
]
turn k signalled s (writing l) =
    elim (thread_led_write false (data_buffer l.arg l.stack) s.buf s.pin) [
      | none ↦ none
      | some (ret, buf, pin) ↦ some (
        record s { buf = buf; pin = pin },
        if is_neg ret then leaving (after_write ret l.closed) else looping l 0,
      )
    ]
turn k signalled s (looping l count) =
    let next = (count + 1) % 2 ^ 16 in
    some (s, if leb 5 next then leaving (after_write (pos 0) l.closed) else looping l next)
turn k signalled s (leaving e) = some (record s { dev = (led_release k s.dev).1 }, ended e)
turn k signalled s p = some (s, p)

pub record Programs : Type 0 where
  pub shared : Shared
  pub app : ℕ → App

-- A process is started, or takes a turn.
pub data Event (k : ThreadType) (s : Programs) : Programs → Type 0 where
  launch :
      (i : ℕ) (l : Launch)
      → s.app i ≡ idle
      → length l.stack ≡ 510
      → Event k s (record s { app = update s.app i (opening l) })
  go :
      (i : ℕ) (signalled : Bool) (m : Shared) (p : App)
      → turn k signalled s.shared (s.app i) ≡ some (m, p)
      → Event k s (record { shared = m; app = update s.app i p })

-- What the processes reach after a `Led_Init` that returns 0, from any buffer and pin.
pub data Reach (k : ThreadType) : Programs → Type 0 where
  start :
      (n : Numbers) (a : Answers) (g : Pins) (buf : List ℕ) (pin : Bool)
      → (thread_led_init k n a g).0.ret ≡ pos 0
      → Reach k (record {
        shared = record { dev = (thread_led_init k n a g).1; buf = buf; pin = pin };
        app = λ i. idle;
      })
  next : {s t : Programs} → Reach k s → Event k s t → Reach k t

-- What happens from a state on.
pub data Run (k : ThreadType) (s : Programs) : Programs → Type 0 where
  here : Run k s s
  step : {t u : Programs} → Run k s t → Event k t u → Run k s u

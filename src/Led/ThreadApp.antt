-- ===== src/Led/ThreadApp.antt =====
-- recipes-app/files/9_thread_app.c, which holds the LED's device for 15 seconds, over `Led_Open`,
-- `Led_Write` and `Led_Release` of 9_thread.c. A file that `main` leaves open the kernel releases
-- when the process ends.
use yocto_meta_hsiao.Base.{
  overlay, refl, arith, ◌+◌, ◌*◌, ◌%◌, ◌^◌, ◌≡◌, ◌∷◌, [], if◌then◌else◌, false, none, some, zero,
  suc, pos, ℕ, ℤ, Bool, List, Option, length, ltb, leb, is_neg,
}
use yocto_meta_hsiao.Text.Scan.{atoi}
use yocto_meta_hsiao.Led.{
  ThreadType, spin_lock, semaphore, mutex, GpioledDev, led_open, led_release, thread_led_write,
}
use yocto_meta_hsiao.Led.App.{
  Ending, usage, open_error, to_u16, data_buffer, switched, after_write, led_write-status, answered,
  after_write-switched,
}

-- The loop that sleeps three seconds a round and leaves at a count of five, on fuel: the seconds
-- that it prints, or `none` if the fuel runs out.
unfoldable pub seconds : ℕ → ℕ → Option (List ℕ)
seconds zero count = none
seconds (suc fuel) count =
    let next = (count + 1) % 2 ^ 16 in
    let rest = seconds fuel next in
    if leb 5 next
    then some (next * 3 ∷ [])
    else elim rest [ none ↦ none | some later ↦ some (next * 3 ∷ later) ]

-- What is printed after a write, the loop having five rounds.
abbrev pub printed_after : ℤ → Option (List ℕ)
printed_after ret = if is_neg ret then some [] else seconds 5 0

-- The locks, the driver's buffer, and the pin.
pub record Shared : Type 0 where
  pub dev : GpioledDev
  pub buf : List ℕ
  pub pin : Bool

-- From the write on, with the device open.
abbrev pub held :
    ThreadType → ℤ → Shared → Option (ℤ × List ℕ × Bool) → Option (Ending × List ℕ × Shared)
held k closed s none = none
held k closed s (some (ret, buf, pin)) = elim (printed_after ret) [
  | none ↦ none
  | some printed ↦ some (
    after_write ret closed,
    printed,
    record { dev = (led_release k s.dev).1; buf = buf; pin = pin },
  )
]

abbrev pub opened :
    ThreadType
    → ℤ
    → List ℕ
    → List ℕ
    → Shared
    → Option (ℤ × GpioledDev)
    → Option (Ending × List ℕ × Shared)
opened k closed arg stack s none = none
opened k closed arg stack s (some (ret, d)) =
    let s' = record s { dev = d } in
    if is_neg ret
    then some (open_error, [], s')
    else held k closed s' (thread_led_write false (data_buffer arg stack) s.buf s.pin)

-- `main`, from whether a signal ends the wait for the lock and the result of `close`: how it ends,
-- the seconds printed, and the driver after the process; `none`: it waits for the lock.
unfoldable pub thread_app :
    ThreadType → List (List ℕ) → Bool → ℤ → List ℕ → Shared → Option (Ending × List ℕ × Shared)
thread_app k (prog ∷ filename ∷ arg ∷ []) signalled closed stack s =
    opened k closed arg stack s (led_open k signalled s.dev)
thread_app k argv signalled closed stack s = some (usage, [], s)

-- The release of what an open has taken puts the locks back.
pub open-release :
    (k : ThreadType) (signalled : Bool) (d d' : GpioledDev)
    → led_open k signalled d ≡ some (pos 0, d')
    → led_release k d' ≡ (pos 0, d)
unfolding led_open led_release
open-release spin_lock signalled d d' e = ground (arith, e)
open-release semaphore signalled d d' e = ground (arith, e)
open-release mutex signalled d d' e = ground (arith, e)

printed_lem :
    (v : ℕ) (pin : Bool)
    → printed_after (answered v pin).0 ≡ some (if ltb 1 v then [] else 3 ∷ 6 ∷ 9 ∷ 12 ∷ 15 ∷ [])
unfolding seconds
printed_lem zero pin = refl
printed_lem (suc zero) pin = refl
printed_lem (suc (suc n)) pin = ground arith

-- Where the device can be opened and closed and the memory read, the program drives the pin as its
-- argument says, prints 3, 6, 9, 12 and 15 if that is 0 or 1 and nothing otherwise, and leaves the
-- locks as they were before.
thread_app-switches :
    (k : ThreadType) (prog filename arg stack : List ℕ) (signalled : Bool) (closed : ℕ) (s : Shared)
    (d : GpioledDev)
    → led_open k signalled s.dev ≡ some (pos 0, d)
    → length stack ≡ 510
    → let (ending, pin) = switched (to_u16 (atoi arg)) s.pin in
      thread_app k (prog ∷ filename ∷ arg ∷ []) signalled (pos closed) stack s
      ≡ some (
        ending,
        if ltb 1 (to_u16 (atoi arg)) then [] else 3 ∷ 6 ∷ 9 ∷ 12 ∷ 15 ∷ [],
        record { dev = s.dev; buf = overlay (data_buffer arg stack) s.buf; pin = pin },
      )
unfolding thread_app
thread_app-switches k prog filename arg stack signalled closed s d e h =
    let back = open-release k signalled s.dev d e in
    let status = to_u16 (atoi arg) in
    rw
      (
        e,
        led_write-status status stack s.buf s.pin h,
        held,
        printed_lem status s.pin,
        back,
        (after_write-switched status closed s.pin).0,
        (after_write-switched status closed s.pin).1,
      )
      refl

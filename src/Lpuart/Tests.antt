-- ===== src/Lpuart/Tests.antt =====
-- The theorems on the LPUART drivers at concrete inputs; the FIFO is a list of bytes.
use yocto_meta_hsiao.Base.{
  ◌%◌, ◌≢◌, ℤ, ℕ, ◌≡◌, ℕ, ◌≤◌, ◌<◌, ◌≡◌, refl, true, false, List, [], ◌∷◌, ◌++◌, Option, none, some,
  ltb, ◌==◌, length, take, drop, min, length-append, length-drop, ◌⊎◌, ◌^◌, pos, neg, is_nonzero,
  arith,
}
use yocto_meta_hsiao.Lpuart.{Line, uart_write}
use yocto_meta_hsiao.Lpuart.Transmit.{sent, Paced, write-sends}
use yocto_meta_hsiao.Lpuart.Receive.{
  lpuart_isr, read_out, Buffer, Kfifo, IsQueue, Interrupt, Ended, fifo_size, arrive, uart_read,
}
use yocto_meta_hsiao.Lpuart.Receive.Queue.{received}
use native.Mathlib.Decide.{ℕ_discrete, dec_lt}
use yocto_meta_hsiao.Lpuart.Race.Invariant.{readers-stream, readers-ReadResult}
use yocto_meta_hsiao.Lpuart.Race.Progress.{is_asleep, readers-progress, alone-uart_read, Moves}
use yocto_meta_hsiao.Lpuart.Race.Reopen.{reopen, turned, reopen-two_owners}
use yocto_meta_hsiao.Lpuart.Race.Turn.{locked, ReadResult}
use yocto_meta_hsiao.Lpuart.Race.{
  Run as RunFrom, returned, asleep, Readers, Reach, start, next, call, go, interrupt, entry, turn,
  isr, woken, copying,
}
use yocto_meta_hsiao.Lpuart.Writers
use yocto_meta_hsiao.Lpuart.Writers.{Writers, write_turn, own, accesses}
use yocto_meta_hsiao.Lpuart.Writers.Protocol.{left, writers-Paced}
use yocto_meta_hsiao.Lpuart.Wire.{IsWire, until, wire-delivers}
use yocto_meta_hsiao.Lpuart.Power.{
  OpenAnswers, Power, uart_open, uart_close, run_power, opened, open-close,
}

-- A queue of at most 512 bytes.
abbrev Bounded : Type 0
Bounded = (xs : List ℕ) × (length xs ≤ fifo_size)

abbrev put_if : (s : Bounded) (c : ℕ) → Dec (length s.0 < fifo_size) → Option Bounded
put_if s c (yes h) = some (s.0 ++ c ∷ [], grind (arith, h, length-append s.0 (c ∷ [])))
put_if s c (no h) = none

abbrev fifo : Kfifo
fifo = record {
  State = Bounded;
  put = λ s c. put_if s c (dec_lt (length s.0) fifo_size);
  is_empty = λ s. length s.0 == 0;
  to_user = λ s n room. (
    ltb room (length (take n s.0)),
    take (min n room) s.0,
    (drop (min n room) s.0, omega (arith, length-drop (min n room) s.0, s.1)),
  );
}

abbrev bytes_of : Bounded → List ℕ
bytes_of s = s.0

put_full : (s : Bounded) (c : ℕ) → length s.0 ≡ fifo_size → fifo.put s c ≡ none
put_full s c h = elim (dec_lt (length s.0) fifo_size) as (λ d. put_if s c d ≡ none) [
  | yes room ↦ absurd (ground (arith, room, h))
  | no full ↦ refl
]

put_room :
    (s : Bounded) (c : ℕ)
    → length s.0 < fifo_size
    → (t : Bounded) × (fifo.put s c ≡ some t) × (t.0 ≡ s.0 ++ c ∷ [])
put_room s c h =
    elim (dec_lt (length s.0) fifo_size)
      as (λ d. (t : Bounded) × (put_if s c d ≡ some t) × (t.0 ≡ s.0 ++ c ∷ [])) [
        | yes room ↦ (_, refl, refl)
        | no full ↦ absurd (ground (arith, full, h))
      ]

fifo-IsQueue : IsQueue fifo bytes_of
fifo-IsQueue = record {
  put_full = put_full;
  put_room = put_room;
  bounded = λ s. s.1;
  is_empty_lem = λ s. refl;
  to_user_lem = λ s n room. (refl, refl, refl);
}

abbrev empty : Bounded
empty = ([], omega arith)

-- Two received bytes, and an interrupt with nothing received between them.
abbrev burst : List Interrupt
burst =
    record { status = 2 ^ 21; data_reg = 0x141 }
    ∷ record { status = 0; data_reg = 7 }
    ∷ record { status = 2 ^ 21; data_reg = 0x42 }
    ∷ []

received-burst : received burst ≡ 0x41 ∷ 0x42 ∷ []
received-burst = refl

-- The second byte cannot be read.
write-sends_example :
    (m : Line) × (uart_write
        (some (some 65 ∷ none ∷ some 66 ∷ []))
        (record { stat = 0 ∷ 2 ^ 23 ∷ []; log = [] })
      ≡ some (neg 14, m))
    × (sent m.log ≡ 65 ∷ [])
    × Paced m.log
write-sends_example = write-sends (some 65 ∷ none ∷ some 66 ∷ []) (0 ∷ 2 ^ 23 ∷ []) (omega arith)

abbrev closed : Power
closed = record { fifo = false; clk = 0; irq = false; ctrl = 0; baud = 0 }

abbrev all_well : OpenAnswers
all_well = record { fifo_ret = pos 0; clk_ret = pos 0; irq_ret = pos 0 }

open-close_example :
    (is_nonzero (uart_open all_well).0 ≡ true
      → run_power (uart_open all_well).1 closed ≡ some closed)
    × (is_nonzero (uart_open all_well).0 ≡ false
        → run_power (uart_open all_well).1 closed ≡ some (opened closed))
    × (is_nonzero (uart_open all_well).0 ≡ false
        → run_power ((uart_open all_well).1 ++ uart_close) closed
          ≡ some (record closed { baud = 0xF00000D }))
open-close_example = open-close all_well closed (refl, refl)

-- Processes that read from the port: a state with how it was reached.
abbrev Run : Type 0
Run = (s : Readers fifo) × Reach empty s

abbrev turns : List ℕ → Run → Run
turns [] r = r
turns (i ∷ is) (s, r) = turns is (_, next r (go i false))

abbrev four : Buffer
four = record { count = 4; room = 4 }

abbrev letter : Interrupt
letter = record { status = 2 ^ 21; data_reg = 0x41 }

-- Process 0 has called `read`.
abbrev one_call : Run
unfolding entry turn isr woken lpuart_isr read_out ℕ_discrete dec_lt
one_call = (_, next start (call 0 (some four) refl))

-- It sleeps, having found the FIFO empty.
abbrev one_sleeps : Run
unfolding entry turn isr woken lpuart_isr read_out ℕ_discrete dec_lt
one_sleeps = turns (0 ∷ 0 ∷ 0 ∷ 0 ∷ []) one_call

-- A byte has arrived before it takes the mutex.
abbrev one_byte : Run
unfolding entry turn isr woken lpuart_isr read_out ℕ_discrete dec_lt
one_byte = (_, next one_call.1 (interrupt letter))

-- It is about to copy the byte, and process 1 is about to take the mutex.
abbrev two_calls : Run
unfolding entry turn isr woken lpuart_isr read_out ℕ_discrete dec_lt
two_calls = turns (0 ∷ 0 ∷ []) (_, next one_byte.1 (call 1 (some four) refl))

two_calls-reader : two_calls.0.reader 0 ≡ copying four
unfolding entry turn isr woken lpuart_isr read_out ℕ_discrete dec_lt
two_calls-reader = refl

readers-stream_example :
    two_calls.0.mem.accepted ≡ two_calls.0.mem.given ++ bytes_of two_calls.0.mem.fifo
readers-stream_example = readers-stream fifo bytes_of fifo-IsQueue refl two_calls.1

readers-ReadResult_example :
    ((i j : ℕ)
      → locked (two_calls.0.reader i) ≡ true
      → locked (two_calls.0.reader j) ≡ true
      → i ≡ j)
    × ((i : ℕ) (b : Buffer)
        → two_calls.0.reader i ≡ copying b
        → 0 < length (bytes_of two_calls.0.mem.fifo))
    × ((i n : ℕ) (ret : ℤ) → two_calls.0.reader i ≡ returned n ret → ReadResult n ret)
readers-ReadResult_example = readers-ReadResult fifo bytes_of fifo-IsQueue refl two_calls.1

readers-progress_example :
    ((b : Buffer) × (one_sleeps.0.reader 0 ≡ asleep b) × (bytes_of one_sleeps.0.mem.fifo ≡ []))
    ⊎ ((is_asleep (one_sleeps.0.reader 0) ≡ false) × (j : ℕ) × Moves one_sleeps.0 j)
unfolding entry turn isr woken lpuart_isr read_out ℕ_discrete dec_lt
readers-progress_example = readers-progress fifo bytes_of fifo-IsQueue refl one_sleeps.1 0 refl

alone-uart_read_example :
    (t : Readers fifo) × (ended : Ended Bounded) × RunFrom one_byte.0 t
    × (uart_read fifo (some four) true [] one_byte.0.mem.fifo ≡ some ended)
    × (t.reader 0 ≡ returned 4 ended.ret)
    × (t.mem.fifo ≡ ended.fifo)
    × (t.mem.given ≡ one_byte.0.mem.given ++ ended.bytes)
    × (t.mem.owner ≡ none)
    × ((j : ℕ) → 0 ≢ j → t.reader j ≡ one_byte.0.reader j)
unfolding entry turn isr woken lpuart_isr read_out ℕ_discrete dec_lt
alone-uart_read_example =
    alone-uart_read fifo bytes_of fifo-IsQueue refl one_byte.1 0 four refl refl (omega arith)

reopen-two_owners_example :
    let t = turned 1 (reopen empty two_calls.0) in
    (◌≢◌ {A = ℕ} 0 1)
    × (locked (t.reader 0) ≡ true)
    × (locked (t.reader 1) ≡ true)
    × (t.mem.accepted ≢ t.mem.given ++ bytes_of t.mem.fifo)
unfolding entry turn isr woken lpuart_isr read_out ℕ_discrete dec_lt
reopen-two_owners_example =
    reopen-two_owners fifo bytes_of fifo-IsQueue refl two_calls.1 0 1 four four refl refl

-- Process 0 has written one of its two bytes.
abbrev half_sent : (s : Writers) × Writers.Reach s
unfolding write_turn ℕ_discrete
half_sent =
    let called = Writers.next Writers.start (Writers.call 0 (some 65 ∷ some 66 ∷ []) refl) in
    let polled = Writers.next (Writers.next called (Writers.go 0 0)) (Writers.go 0 (2 ^ 23)) in
    (_, Writers.next polled (Writers.go 0 0))

writers-Paced_example :
    Paced (own 0 half_sent.0.log)
    × (sent (own 0 half_sent.0.log) ++ left (half_sent.0.writer 0) ≡ half_sent.0.asked 0)
writers-Paced_example = writers-Paced half_sent.1 0

-- A wire: one interrupt with RDRF for each byte.
abbrev wire : List ℕ → List Interrupt
wire [] = []
wire (c ∷ bs) = record { status = 2 ^ 21; data_reg = c } ∷ wire bs

wire-IsWire : IsWire wire
wire-IsWire [] h = refl
wire-IsWire (c ∷ bs) h =
    let low : c % 256 ≡ c = omega (arith, h.0) in rw (low, wire-IsWire bs h.1) refl

-- The reader has its lock again when one of two bytes has come.
wire-delivers_example :
    (ret : ℤ) × (m : Line) × (e : Ended Bounded) × (uart_write
        (some (some 65 ∷ some 66 ∷ []))
        (record { stat = 2 ^ 23 ∷ 2 ^ 23 ∷ []; log = [] })
      ≡ some (ret, m))
    × (sent m.log ≡ 65 ∷ 66 ∷ [])
    × (uart_read fifo (some (record { count = 2; room = 2 })) true (until (wire (65 ∷ []))) empty
        ≡ some e)
    × (e.ret ≡ pos (length e.bytes))
    × (length e.bytes ≡ 1)
    × (e.bytes ++ bytes_of (arrive fifo (wire (66 ∷ [])) e.fifo) ≡ 65 ∷ 66 ∷ [])
wire-delivers_example =
    wire-delivers fifo bytes_of fifo-IsQueue wire wire-IsWire (some 65 ∷ some 66 ∷ [])
      (2 ^ 23 ∷ 2 ^ 23 ∷ []) (record { count = 2; room = 2 }) empty (omega arith, (omega arith, tt))
      (omega arith) (omega arith) (omega arith) (omega arith) refl (wire (65 ∷ [])) (wire (66 ∷ []))
      refl (omega arith)

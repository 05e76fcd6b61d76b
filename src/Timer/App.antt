-- ===== src/Timer/App.antt =====
-- recipes-app/files/12_timer_app.c, the program that sends the timer driver the commands that a
-- user types: the loop of `main` on an input that has an end, and `scanf` with "%d" and "%u" as the
-- GNU C library has it. The device is `ioctl`: what a command returns, and the device after it.
use yocto_meta_hsiao.Base.{
  ◌-◌, ◌%◌, ◌^◌, ◌==◌, ◌∷◌, ◌++◌, [], if◌then◌else◌, true, false, none, some, not, zero, suc, pos,
  ℕ, ℤ, Bool, List, Option, min, length, leb, is_neg,
}
use yocto_meta_hsiao.Text.Scan.{scan_number, as_int, as_uint}
use yocto_meta_hsiao.Timer.{Cmd, close_cmd, open_cmd, setperiod_cmd}
pub mod Spins
pub mod Script

-- `while (getchar() != '\n');`: what follows the newline. `none`: there is none, and the loop, which
-- does not test for the end of the input, never ends.
unfoldable pub discard : List ℕ → Option (List ℕ)
discard [] = none
discard (c ∷ cs) = if c == 10 then some cs else discard cs

-- The lines that the loop prints.
pub data Line : Type 0 where
  menu invalid_input stopped close_failed started open_failed ask_period invalid_period
        period_failed invalid_cmd :
      Line
  period_set : ℕ → Line

-- How a round ends: the loop goes on with the rest of the input, or stays in `discard` for ever.
pub data Turn (D : Type 0) : Type 0 where
  again : List Line → D → List ℕ → Turn D
  spins : List Line → D → Turn D

-- How `main` ends: with an exit code, or in `discard` for ever.
pub data End : Type 0 where
  exits : ℤ → End
  discards : End

module _ {D : Type 0} (ioctl : Cmd → D → ℤ × D) where
  abbrev pub recover : List Line → D → Option (List ℕ) → Turn D
  recover printed d none = spins printed d
  recover printed d (some rest) = again printed d rest

  -- A command sent, and the line for its result.
  abbrev pub send : List Line → Cmd → Line → Line → D → List ℕ → Turn D
  send printed cmd bad good d rest =
      let (ret, d') = ioctl cmd d in
      again (printed ++ (if is_neg ret then bad else good) ∷ []) d' rest

  unfoldable pub on_period : Option (Bool × ℕ) × List ℕ → D → Turn D
  on_period (none, rest) d = recover (menu ∷ ask_period ∷ invalid_period ∷ []) d (discard rest)
  on_period (some n, rest) d =
      send (menu ∷ ask_period ∷ []) (setperiod_cmd (as_uint n)) period_failed
        (period_set (as_uint n)) d rest

  unfoldable pub on_command : Option (Bool × ℕ) × List ℕ → D → Turn D
  on_command (none, rest) d = recover (menu ∷ invalid_input ∷ []) d (discard rest)
  on_command (some cmd, rest) d =
      if as_int cmd == 1
      then send (menu ∷ []) close_cmd close_failed stopped d rest
      else if as_int cmd == 2
      then send (menu ∷ []) open_cmd open_failed started d rest
      else if as_int cmd == 3
      then on_period (scan_number rest) d
      else again (menu ∷ invalid_cmd ∷ []) d rest

  -- A round of the loop.
  unfoldable pub turn : List ℕ → D → Turn D
  turn input d = on_command (scan_number input) d

  -- A round, and what comes after it.
  abbrev pub after_turn : (List ℕ → D → Option (List Line × D)) → Turn D → Option (List Line × D)
  after_turn more (spins printed d) = some (printed, d)
  after_turn more (again printed d rest) = elim (more rest d) [
    | none ↦ none
    | some (later, end) ↦ some (printed ++ later, end)
  ]

  -- The loop, on fuel: what is printed until it stays in `discard`, and the device then. A round
  -- that goes on has read a byte at least, so one more than the bytes of the input is enough.
  unfoldable pub loop : ℕ → List ℕ → D → Option (List Line × D)
  loop zero input d = none
  loop (suc fuel) input d = after_turn (loop fuel) (turn input d)

  -- `main`: how it ends, what it prints in the loop, and the device.
  unfoldable pub timer_app : ℕ → ℤ → List ℕ → D → Option (End × List Line × D)
  timer_app argc fd input d =
      if not (argc == 2)
      then some (exits (pos 1), [], d)
      else if is_neg fd
      then some (exits (pos 1), [], d)
      else elim (loop (suc (length input)) input d) [
        | none ↦ none
        | some (printed, end) ↦ some (discards, printed, end)
      ]

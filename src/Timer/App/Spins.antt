-- ===== src/Timer/App/Spins.antt =====
-- The loop of 12_timer_app.c never leaves `main`.
use yocto_meta_hsiao.Base.{
  ◌++◌, refl, pos, ◌≤◌, ◌<◌, ◌==◌, ◌≡◌, ◌∷◌, [], inl, inr, true, false, none, some, zero, suc,
  arith, ℕ, ℤ, Bool, List, Option, length, Bool-cases, Option-cases,
}
use yocto_meta_hsiao.Text.{skip_blanks, is_digit, starts_digit}
use yocto_meta_hsiao.Timer.{Cmd}
use yocto_meta_hsiao.Text.Scan.{skip_digits, scan_digits, scan_signed, scan_number, as_int}
use yocto_meta_hsiao.Timer.App.{
  after_turn, discard, Line, Turn, again, spins, discards, recover, on_period, on_command, turn,
  loop, timer_app,
}

length-skip_digits : (cs : List ℕ) → length (skip_digits cs) ≤ length cs
unfolding skip_digits
length-skip_digits [] = omega arith
length-skip_digits (c ∷ cs) = ground (arith, length-skip_digits cs)

length-skip_blanks : (cs : List ℕ) → length (skip_blanks cs) ≤ length cs
unfolding skip_blanks
length-skip_blanks [] = omega arith
length-skip_blanks (c ∷ cs) = ground (arith, length-skip_blanks cs)

-- What is left of an input is no longer than it, and shorter if a number was read.
abbrev Read : Option (Bool × ℕ) × List ℕ → List ℕ → Type 0
Read (none, rest) cs = length rest ≤ length cs
Read (some n, rest) cs = length rest < length cs

scan_digits-Read : (minus : Bool) (cs : List ℕ) → Read (scan_digits minus cs) cs
unfolding starts_digit skip_digits scan_digits
scan_digits-Read minus [] = omega arith
scan_digits-Read minus (c ∷ cs) = elim (Bool-cases (is_digit c)) [
  | inl digit ↦ rw digit (omega (arith, length-skip_digits cs))
  | inr other ↦ rw other (omega arith)
]

Read-mono :
    (r : Option (Bool × ℕ) × List ℕ) (cs ds : List ℕ)
    → length cs ≤ length ds
    → Read r cs
    → Read r ds
Read-mono (none, rest) cs ds h k = omega arith
Read-mono (some n, rest) cs ds h k = omega arith

scan_signed-Read : (cs : List ℕ) → Read (scan_signed cs) cs
scan_signed-Read [] = omega arith
scan_signed-Read (c ∷ cs) = elim (Bool-cases (c == b'-')) [
  | inl e ↦
      rw e (Read-mono (scan_digits true cs) cs (c ∷ cs) (omega arith) (scan_digits-Read true cs))
  | inr m ↦ elim (Bool-cases (c == b'+')) [
    | inl e ↦
        rw (m, e)
          (Read-mono (scan_digits false cs) cs (c ∷ cs) (omega arith) (scan_digits-Read false cs))
    | inr p ↦ rw (m, p) (scan_digits-Read false (c ∷ cs))
  ]
]

scan_number-Read : (cs : List ℕ) → Read (scan_number cs) cs
unfolding scan_number
scan_number-Read cs =
    Read-mono (scan_signed (skip_blanks cs)) (skip_blanks cs) cs (length-skip_blanks cs)
      (scan_signed-Read (skip_blanks cs))

discard-shorter : (cs rest : List ℕ) → discard cs ≡ some rest → length rest < length cs
unfolding discard
discard-shorter [] rest h = absurd (cc (h))
discard-shorter (c ∷ cs) rest h = elim (Bool-cases (c == 10)) [
  | inl e ↦ ground (arith, e, h)
  | inr e ↦ omega (arith, discard-shorter cs rest (rw e at h))
]

module _ {D : Type 0} (ioctl : Cmd → D → ℤ × D) where
  -- A round that goes on leaves fewer bytes.
  abbrev Shorter : Turn D → List ℕ → Type 0
  Shorter (again printed d rest) cs = length rest < length cs
  Shorter (spins printed d) cs = Unit {0}

  recover-Shorter :
      (printed : List Line) (d : D) (left cs : List ℕ)
      → length left ≤ length cs
      → Shorter (recover ioctl printed d (discard left)) cs
  recover-Shorter printed d left cs h = elim (Option-cases (discard left)) [
    | inl e ↦ rw e tt
    | inr (rest, e) ↦ rw e (omega (arith, discard-shorter left rest e))
  ]

  on_period-Shorter :
      (r : Option (Bool × ℕ) × List ℕ) (d : D) (left cs : List ℕ)
      → Read r left
      → length left < length cs
      → Shorter (on_period ioctl r d) cs
  unfolding on_period
  on_period-Shorter (none, rest) d left cs k h = recover-Shorter _ d rest cs (omega arith)
  on_period-Shorter (some n, rest) d left cs k h = omega arith

  on_command-Shorter :
      (r : Option (Bool × ℕ) × List ℕ) (d : D) (cs : List ℕ)
      → Read r cs
      → Shorter (on_command ioctl r d) cs
  unfolding on_command
  on_command-Shorter (none, rest) d cs k = recover-Shorter _ d rest cs (omega arith)
  on_command-Shorter (some cmd, rest) d cs k = elim (Bool-cases (as_int cmd == 1)) [
    | inl close ↦ rw close k
    | inr e ↦ elim (Bool-cases (as_int cmd == 2)) [
      | inl open_it ↦ rw (e, open_it) k
      | inr e2 ↦ elim (Bool-cases (as_int cmd == 3)) [
        | inl period ↦
            rw (e, e2, period)
              (on_period-Shorter (scan_number rest) d rest cs (scan_number-Read rest) k)
        | inr other ↦ rw (e, e2, other) k
      ]
    ]
  ]

  after_turn-some :
      (more : List ℕ → D → Option (List Line × D)) (t : Turn D) (cs : List ℕ)
      → Shorter t cs
      → ((rest : List ℕ) (d : D)
          → length rest < length cs
          → (end : List Line × D) × (more rest d ≡ some end))
      → (end : List Line × D) × (after_turn ioctl more t ≡ some end)
  after_turn-some more (spins printed d) cs h ends = ((printed, d), refl)
  after_turn-some more (again printed d rest) cs h ends =
      let ((later, end), e) = ends rest d h in rw (e, after_turn) ((printed ++ later, end), refl)

  loop-some :
      (fuel : ℕ) (cs : List ℕ) (d : D)
      → length cs < fuel
      → (end : List Line × D) × (loop ioctl fuel cs d ≡ some end)
  unfolding loop turn
  loop-some zero cs d h = absurd (omega arith)
  loop-some (suc fuel) cs d h =
      after_turn-some (loop ioctl fuel) (turn ioctl cs d) cs
        (on_command-Shorter (scan_number cs) d cs (scan_number-Read cs))
        (λ rest d' lt. loop-some fuel rest d' (omega arith))

  -- Whatever the user types and the driver answers, once the device is open the program never ends:
  -- it reads its input to the end, and stays for ever in the loop that looks for a newline.
  app-discards :
      (fd : ℕ) (input : List ℕ) (d : D)
      → (printed : List Line) × (d' : D) × (timer_app ioctl 2 (pos fd) input d
          ≡ some (discards, printed, d'))
  unfolding timer_app
  app-discards fd input d =
      let ((printed, d'), e) = loop-some (suc (length input)) input d (omega arith) in
      rw e (printed, d', refl)

-- ===== src/Timer/App/Script.antt =====
-- 12_timer_app.c on an input of valid commands.
use yocto_meta_hsiao.Base.{
  length-append, ◌-◌, ◌%◌, ◌≤◌, if◌then◌else◌, zero, suc, pos, ℤ, min, All, is_neg, ◌^◌, ◌<◌, ◌==◌,
  ◌≡◌, ◌∙◌, ◌∷◌, ◌++◌, [], refl, ap, true, false, some, arith, ℕ, List, length,
}
use yocto_meta_hsiao.Text.{is_blank, skip_blanks, is_digit, starts_digit, digits_value, print_dec}
use yocto_meta_hsiao.Text.Decimal.{
  AllDigits, print_dec-AllDigits, digits_value-print_dec, print_dec_some,
}
use yocto_meta_hsiao.Timer.{Cmd, close_cmd, open_cmd, setperiod_cmd}
use yocto_meta_hsiao.Text.Scan.{skip_digits, scan_digits, scan_number, as_int, as_uint}
use yocto_meta_hsiao.Timer.App.{
  discard, Line, menu, invalid_input, stopped, close_failed, started, open_failed, ask_period,
  period_set, period_failed, again, spins, discards, after_turn, on_period, on_command, turn, loop,
  timer_app,
}

-- What a user asks for.
pub data Order : Type 0 where
  close_timer open_timer : Order
  set_period : ℕ → Order

-- A number below 10 ^ 10 in decimal, and a newline.
abbrev pub typed : ℕ → List ℕ → List ℕ
typed n rest = print_dec 10 n [] ++ 10 ∷ rest

-- The orders as they are typed.
abbrev pub script : List Order → List ℕ
script [] = []
script (close_timer ∷ os) = typed 1 (script os)
script (open_timer ∷ os) = typed 2 (script os)
script (set_period ms ∷ os) = typed 3 (typed ms (script os))

-- The periods that fit the program's 32 bits.
abbrev pub InRange : Order → Type 0
InRange close_timer = Unit {0}
InRange open_timer = Unit {0}
InRange (set_period ms) = ms < 2 ^ 32

skip_digits-digits : (ds rest : List ℕ) → AllDigits ds → skip_digits (ds ++ 10 ∷ rest) ≡ 10 ∷ rest
unfolding skip_digits is_digit
skip_digits-digits [] rest h = refl
skip_digits-digits (d ∷ ds) rest h = rw (h.0) (skip_digits-digits ds rest h.1)

digit_lem :
    (c : ℕ)
    → is_digit c ≡ true
    → (is_blank c ≡ false) × ((c == b'-') ≡ false) × ((c == b'+') ≡ false)
unfolding is_digit is_blank
digit_lem c h = ground (arith, h)

scan_number-digits :
    (ds rest : List ℕ)
    → AllDigits ds
    → 0 < length ds
    → scan_number (ds ++ 10 ∷ rest) ≡ (some (false, digits_value 0 (ds ++ 10 ∷ rest)), 10 ∷ rest)
unfolding scan_number skip_blanks scan_digits starts_digit
scan_number-digits [] rest h l = absurd (omega arith)
scan_number-digits (d ∷ ds) rest h l =
    let c = digit_lem d h.0 in
    rw (c.0, c.1, c.2, h.0)
      (ap (λ t. (some (false, digits_value 0 (d ∷ (ds ++ 10 ∷ rest))), t))
        (skip_digits-digits (d ∷ ds) rest h))

digits_value_stop : (n : ℕ) (rest : List ℕ) → digits_value n (10 ∷ rest) ≡ n
unfolding digits_value is_digit
digits_value_stop n rest = refl

-- A typed number is read back.
scan_number-typed :
    (n : ℕ) (rest : List ℕ)
    → n < 10 ^ 10
    → scan_number (typed n rest) ≡ (some (false, n), 10 ∷ rest)
scan_number-typed n rest h =
    scan_number-digits (print_dec 10 n []) rest (print_dec-AllDigits 10 n [] tt)
      (print_dec_some 9 n)
    ∙ ap (λ v. (some (false, v), 10 ∷ rest))
        (digits_value-print_dec 9 n [] (10 ∷ rest) h ∙ digits_value_stop n rest)

-- A newline before a number is passed over.
scan_number-newline : (cs : List ℕ) → scan_number (10 ∷ cs) ≡ scan_number cs
unfolding scan_number skip_blanks is_blank
scan_number-newline cs = refl

abbrev pub command : Order → Cmd
command close_timer = close_cmd
command open_timer = open_cmd
command (set_period ms) = setperiod_cmd ms

-- What is printed for an order, the driver having returned `ret`.
abbrev pub reply : Order → ℤ → List Line
reply close_timer ret = menu ∷ (if is_neg ret then close_failed else stopped) ∷ []
reply open_timer ret = menu ∷ (if is_neg ret then open_failed else started) ∷ []
reply (set_period ms) ret =
    menu ∷ ask_period ∷ (if is_neg ret then period_failed else period_set ms) ∷ []

length-script : (os : List Order) → length os ≤ length (script os)
length-script [] = omega arith
length-script (close_timer ∷ os) =
    omega (arith, length-script os, length-append (print_dec 10 1 []) (10 ∷ script os))
length-script (open_timer ∷ os) =
    omega (arith, length-script os, length-append (print_dec 10 2 []) (10 ∷ script os))
length-script (set_period ms ∷ os) = omega (
  arith,
  length-script os,
  length-append (print_dec 10 3 []) (10 ∷ typed ms (script os)),
  length-append (print_dec 10 ms []) (10 ∷ script os),
)

module _ {D : Type 0} (ioctl : Cmd → D → ℤ × D) where
  -- The orders carried out one after the other, then the end of the input.
  abbrev pub serve : List Order → D → List Line × D
  serve [] d = (menu ∷ invalid_input ∷ [], d)
  serve (o ∷ os) d =
      let (ret, d') = ioctl (command o) d in
      let (later, end) = serve os d' in (reply o ret ++ later, end)

  turn-order :
      (o : Order) (os : List Order) (d : D)
      → InRange o
      → turn ioctl (script (o ∷ os)) d
        ≡ again (reply o (ioctl (command o) d).0) (ioctl (command o) d).1 (10 ∷ script os)
  unfolding turn on_command on_period as_int as_uint
  turn-order close_timer os d h = rw (scan_number-typed 1 (script os) (omega arith)) refl
  turn-order open_timer os d h = rw (scan_number-typed 2 (script os) (omega arith)) refl
  turn-order (set_period ms) os d h =
      let small : min ms (2 ^ 64 - 1) % 2 ^ 32 ≡ ms = omega arith in
      rw
        (
          scan_number-typed 3 (typed ms (script os)) (omega arith),
          scan_number-newline (typed ms (script os)),
          scan_number-typed ms (script os) (omega arith),
        )
        (rw small refl)

  turn-newline : (cs : List ℕ) (d : D) → turn ioctl (10 ∷ cs) d ≡ turn ioctl cs d
  unfolding turn
  turn-newline cs d = rw (scan_number-newline cs) refl

  turn-end : (d : D) → turn ioctl [] d ≡ spins (menu ∷ invalid_input ∷ []) d
  unfolding turn on_command scan_number skip_blanks discard
  turn-end d = refl

  loop-script :
      (os : List Order) (fuel : ℕ) (d : D)
      → length os < fuel
      → All InRange os
      → loop ioctl fuel (script os) d ≡ some (serve os d)
  unfolding loop
  loop-script os zero d h k = absurd (omega arith)
  loop-script [] (suc fuel) d h k = rw (turn-end d) refl
  loop-script (o ∷ os) (suc (suc fuel)) d h k =
      let d' = (ioctl (command o) d).1 in
      let later = loop-script os (suc fuel) d' (omega arith) k.1 in
      rw (turn-order o os d k.0, after_turn, turn-newline (script os) d', later) refl
  loop-script (o ∷ os) (suc zero) d h k = absurd (omega arith)

  -- For orders typed one number a line, with periods below 2 ^ 32: the program sends the driver the
  -- commands in order, each once, prints for each what its result means, and then stays for ever in
  -- the loop at the end of the input.
  pub app-script :
      (fd : ℕ) (os : List Order) (d : D)
      → All InRange os
      → timer_app ioctl 2 (pos fd) (script os) d ≡ some (discards, (serve os d).0, (serve os d).1)
  unfolding timer_app
  app-script fd os d h =
      rw (loop-script os (suc (length (script os))) d (omega (arith, length-script os)) h) refl

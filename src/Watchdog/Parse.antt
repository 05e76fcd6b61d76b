-- ===== src/Watchdog/Parse.antt =====
-- What the parser of 3_net_watchdog.c makes of the command that the monitor of
-- recipes-app/ethernet/files/3_net_monitor.c sends.
use yocto_meta_hsiao.Base.{
  ℕ, ◌%◌, ◌^◌, ◌<◌, ◌≡◌, refl, ap, ◌∙◌, true, false, List, [], ◌∷◌, ◌++◌, none, some, length,
  if◌then◌else◌, ◌&&◌, ltb, pos, arith,
}
use yocto_meta_hsiao.Text.{
  c_string, is_space, is_digit, int_of_u32, skip_spaces, word, scan_int, str_eq, print_dec,
  digits_value,
}
use yocto_meta_hsiao.Text.Decimal.{
  AllDigits, print_dec-AllDigits, digits_value-print_dec, length-print_dec, print_dec-append,
  print_dec_some,
}
use yocto_meta_hsiao.Watchdog.{
  parse_restart_command, restart_word, scan_command, scan_fields, scan_number, check_command,
  cmd_max_len,
}

-- `fprintf(fp, "RESTART %u\n", ifindex)` in `request_restart` of 3_net_monitor.c. An `unsigned int`
-- has ten digits at most.
pub restart_command : ℕ → List ℕ
restart_command ifindex = restart_word ++ (b' ' ∷ print_dec 10 ifindex (10 ∷ []))

c_string-line : (ds : List ℕ) → AllDigits ds → c_string (ds ++ (10 ∷ [])) ≡ ds ++ (10 ∷ [])
unfolding c_string is_digit
c_string-line [] h = refl
c_string-line (d ∷ ds) h = ground (arith, c_string-line ds h.1)

scan_int-digits :
    (d : ℕ) (cs : List ℕ)
    → is_digit d ≡ true
    → (is_space d ≡ false)
      × (scan_int (d ∷ cs) ≡ some (int_of_u32 (digits_value 0 (d ∷ cs) % 2 ^ 32)))
unfolding is_digit is_space scan_int
scan_int-digits d cs h = ground arith

abbrev command_of : List ℕ → List ℕ
command_of ds = restart_word ++ (b' ' ∷ (ds ++ (10 ∷ [])))

c_string-command_of : (ds : List ℕ) → AllDigits ds → c_string (command_of ds) ≡ command_of ds
unfolding c_string
c_string-command_of ds h = ap (λ t. restart_word ++ (b' ' ∷ t)) (c_string-line ds h)

word-restart :
    (cs : List ℕ) → word 15 (skip_spaces (restart_word ++ (b' ' ∷ cs))) ≡ (restart_word, b' ' ∷ cs)
unfolding is_space skip_spaces word
word-restart cs = refl

skip_spaces-digit :
    (d : ℕ) (cs : List ℕ) → is_space d ≡ false → skip_spaces (b' ' ∷ d ∷ cs) ≡ d ∷ cs
unfolding is_space skip_spaces
skip_spaces-digit d cs h = ground arith

scan-command_of :
    (ds : List ℕ)
    → AllDigits ds
    → 0 < length ds
    → scan_command (command_of ds)
      ≡ some (restart_word, int_of_u32 (digits_value 0 (ds ++ (10 ∷ [])) % 2 ^ 32))
scan-command_of [] h p = absurd (omega arith)
scan-command_of (d ∷ ds) h p =
    let digit = scan_int-digits d (ds ++ (10 ∷ [])) h.0 in
    ap scan_fields (word-restart (d ∷ (ds ++ (10 ∷ []))))
    ∙ (ap (λ t. scan_number restart_word (scan_int t))
          (skip_spaces-digit d (ds ++ (10 ∷ [])) digit.0)
        ∙ ap (scan_number restart_word) digit.1)

-- The number that the driver reads in a printed command.
read_back : (n : ℕ) → n < 2 ^ 32 → digits_value 0 (print_dec 10 n [] ++ (10 ∷ [])) ≡ n
unfolding digits_value is_digit
read_back n h = digits_value-print_dec 9 n [] (10 ∷ []) (omega arith)

in_range :
    (n : ℕ)
    → n < 2 ^ 32
    → check_command (some (restart_word, int_of_u32 (n % 2 ^ 32)))
      ≡ (if ltb 0 n && ltb n (2 ^ 31) then some (pos n) else none)
unfolding str_eq
in_range n h = ground arith

-- Every command that the monitor can print fits the driver's buffer, and the driver reads in it
-- the monitor's index, if that is positive as an `int`; any other it refuses.
pub parse-restart_command :
    (n : ℕ)
    → n < 2 ^ 32
    → (parse_restart_command (restart_command n)
        ≡ (if ltb 0 n && ltb n (2 ^ 31) then some (pos n) else none))
      × (length (restart_command n) < cmd_max_len)
unfolding parse_restart_command restart_command str_eq
parse-restart_command n h = (
  rw
      (
        print_dec-append 10 n (10 ∷ []),
        c_string-command_of (print_dec 10 n []) all,
        scan-command_of (print_dec 10 n []) all (print_dec_some 9 n),
        read_back n h,
      )
      (in_range n h),
  omega (arith, length-print_dec 10 n (10 ∷ [])),
)
  where
    all : AllDigits (print_dec 10 n [])
    all = print_dec-AllDigits 10 n [] tt

-- A command is not empty.
pub restart_command_some : (n : ℕ) → 0 < length (restart_command n)
unfolding restart_command
restart_command_some n = omega arith

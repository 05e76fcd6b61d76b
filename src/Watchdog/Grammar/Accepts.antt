-- ===== src/Watchdog/Grammar/Accepts.antt =====
-- The parser of 3_net_watchdog.c against the grammar.
use yocto_meta_hsiao.Base.{
  ℕ, ◌^◌, ◌<◌, ◌≡◌, refl, sym, ap, ◌∙◌, Bool, true, false, List, [], ◌∷◌, ◌++◌, Option, none, some,
  length, ◌↔◌, ◌⊎◌, inl, inr, leb_ℤ, ℤ, pos, subst, arith,
}
use yocto_meta_hsiao.Text.{c_string, int_of_u32, skip_spaces, word, scan_int, str_eq}
use yocto_meta_hsiao.Watchdog.{
  parse_restart_command, restart_word, reset_word, scan_command, scan_fields, scan_number,
  check_command,
}
use yocto_meta_hsiao.Watchdog.Grammar.{AllSpaces, signed, pattern_of, IsCommand}
use yocto_meta_hsiao.Watchdog.Grammar.Scans.{
  starts_space, skipped, skip_spaces-append, word_splits, str_eq→eq, scan_command-fields,
  word-append, IsWord, known-IsWord, starts_signed, scan_int-signed, scan_int-Number,
}

-- The checks, backwards and forwards.
check_command-some :
    (s : Option (List ℕ × ℤ)) (v : ℤ)
    → check_command s ≡ some v
    → (action : List ℕ) × (s ≡ some (action, v))
      × ((str_eq action restart_word ≡ true) ⊎ (str_eq action reset_word ≡ true))
      × (leb_ℤ v (pos 0) ≡ false)
check_command-some none v e = cc
check_command-some (some (action, m)) v e = (action, ground arith, ground arith, ground arith)

check_command_passes :
    (action : List ℕ) (v : ℤ)
    → (str_eq action restart_word ≡ true) ⊎ (str_eq action reset_word ≡ true)
    → leb_ℤ v (pos 0) ≡ false
    → check_command (some (action, v)) ≡ some v
check_command_passes action v known positive = ground arith

scan_number-some :
    (a b : List ℕ) (o : Option ℤ) (v : ℤ) → scan_number a o ≡ some (b, v) → (a ≡ b) × (o ≡ some v)
scan_number-some a b none v e = absurd (cc e)
scan_number-some a b (some w) v e = ground (arith, e)

int_positive :
    (n : ℕ) → 0 < n → n < 2 ^ 31 → (int_of_u32 n ≡ pos n) × (leb_ℤ (int_of_u32 n) (pos 0) ≡ false)
int_positive n h k = ground arith

positive_int :
    (n : ℕ)
    → n < 2 ^ 32
    → leb_ℤ (int_of_u32 n) (pos 0) ≡ false
    → (int_of_u32 n ≡ pos n) × (0 < n) × (n < 2 ^ 31)
positive_int n h k = ground arith

pattern-lt : (minus : Bool) (ds : List ℕ) → pattern_of minus ds < 2 ^ 32
pattern-lt true ds = omega arith
pattern-lt false ds = omega arith

-- The word and the gap.
word_then_gap :
    (a gap t : List ℕ)
    → IsWord a
    → AllSpaces gap
    → 0 < length gap
    → word 15 (a ++ (gap ++ t)) ≡ (a, gap ++ t)
word_then_gap a [] t w h l = absurd (omega arith)
word_then_gap a (g ∷ gap) t w h l = word-append 15 a g (gap ++ t) w.no_spaces h.0 w.short

IsCommand-accepted :
    (cs : List ℕ) (n : ℕ) → IsCommand cs n → check_command (scan_command cs) ≡ some (pos n)
IsCommand-accepted cs n c =
    let w = known-IsWord c.action c.known in
    let t = signed c.minus (c.digits ++ c.rest) in
    let number = scan_int-signed c.minus c.digits c.rest c.all_digits c.some_digit c.stops in
    let value = int_positive n c.positive c.in_range in
    ap (λ xs. check_command (scan_command xs)) c.text
    ∙ (ap check_command (
          scan_command-fields (c.before ++ (c.action ++ (c.gap ++ t)))
          ∙ (ap (λ xs. scan_fields (word 15 xs))
                (skip_spaces-append c.before (c.action ++ (c.gap ++ t)) c.before_spaces
                  (w.starts (c.gap ++ t)))
              ∙ (ap scan_fields (word_then_gap c.action c.gap t w c.gap_spaces c.gap_some)
                  ∙ (ap (λ xs. scan_number c.action (scan_int xs))
                        (skip_spaces-append c.gap t c.gap_spaces
                          (starts_signed c.minus c.digits c.rest c.all_digits c.some_digit))
                      ∙ (ap (scan_number c.action) number
                          ∙ ap (λ m. some (c.action, int_of_u32 m)) (sym c.value))))))
        ∙ (check_command_passes c.action (int_of_u32 n) w.is_known value.1 ∙ ap some value.0))

no_number : (r : List ℕ) (v : ℤ) → r ≡ [] → scan_int (skip_spaces r) ≡ some v → ⊥
unfolding scan_int skip_spaces
no_number [] v e h = cc h
no_number (c ∷ r) v e h = cc e

gap_some :
    (r gap t : List ℕ)
    → r ≡ gap ++ t
    → starts_space r ≡ true
    → starts_space t ≡ false
    → 0 < length gap
gap_some r [] t e h k = absurd (cc (ap starts_space e))
gap_some r (g ∷ gap) t e h k = omega arith

known_eq :
    (a : List ℕ)
    → (str_eq a restart_word ≡ true) ⊎ (str_eq a reset_word ≡ true)
    → (a ≡ restart_word) ⊎ (a ≡ reset_word)
known_eq a (inl e) = inl (str_eq→eq a restart_word e)
known_eq a (inr e) = inr (str_eq→eq a reset_word e)

accepted-IsCommand :
    (cs : List ℕ) (v : ℤ)
    → check_command (scan_command cs) ≡ some v
    → (n : ℕ) × (v ≡ pos n) × IsCommand cs n
accepted-IsCommand cs v e =
    let (action, scanned, known, positive) = check_command-some (scan_command cs) v e in
    let s = skipped cs in
    let (a, r) = word 15 (skip_spaces cs) in
    let (same, number) =
      scan_number-some a action (scan_int (skip_spaces r)) v
        (sym (scan_command-fields cs) ∙ scanned) in
    let num = scan_int-Number (skip_spaces r) v number in
    let g = skipped r in
    let (split, ends) = word_splits 15 (skip_spaces cs) in
    let is_known = known_eq action known in
    let w = known-IsWord action is_known in
    let n = pattern_of num.minus num.run in
    let (value, above, below) =
      positive_int n (pattern-lt num.minus num.run)
        (subst (λ x. leb_ℤ x (pos 0) ≡ false) num.reads positive) in
    (
      n,
      num.reads ∙ value,
      record {
        before = s.spaces;
        action = action;
        gap = g.spaces;
        minus = num.minus;
        digits = num.run;
        rest = num.after;
        text =
            s.is_text
            ∙ ap (λ xs. s.spaces ++ xs)
                (split
                  ∙ (ap (λ x. x ++ r) same
                      ∙ ap (λ y. action ++ y) (g.is_text ∙ ap (λ y. g.spaces ++ y) num.is_text)));
        before_spaces = s.all_spaces;
        known = is_known;
        gap_spaces = g.all_spaces;
        gap_some = elim ends [
          | inl full ↦ absurd (omega (arith, ap (λ xs. length xs) same, w.short))
          | inr (inl end) ↦ absurd (no_number r v end number)
          | inr (inr at_space) ↦ gap_some r g.spaces (skip_spaces r) g.is_text at_space g.no_more
        ];
        all_digits = num.all;
        some_digit = num.some_there;
        stops = num.no_more;
        value = refl;
        positive = above;
        in_range = below;
      },
    )

-- The parser accepts a buffer, with the result `v`, exactly when `v` is a number that is positive as
-- an `int`, and the buffer up to its NUL is a command with that number: spaces or none, RESTART or
-- RESET, a space at least, perhaps a minus sign, and a digit at least, where the number is the value
-- of all the digits that follow each other there, with the sign, modulo 2 ^ 32; whatever comes behind
-- the digits.
pub parse_iff :
    (buf : List ℕ) (v : ℤ)
    → (parse_restart_command buf ≡ some v) ↔ ((n : ℕ) × (v ≡ pos n) × IsCommand (c_string buf) n)
unfolding parse_restart_command
parse_iff buf v = (
  accepted-IsCommand (c_string buf) v,
  λ c. IsCommand-accepted (c_string buf) c.0 c.2 ∙ ap some (sym c.1),
)

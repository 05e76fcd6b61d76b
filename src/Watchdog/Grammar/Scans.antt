-- ===== src/Watchdog/Grammar/Scans.antt =====
-- `skip_spaces`, the words, and the numbers of the commands of 3_net_watchdog.c: what they take from
-- the front of a text.
use yocto_meta_hsiao.Base.{
  ℕ, ◌+◌, ◌-◌, ◌*◌, ◌%◌, ◌^◌, ◌<◌, ◌≡◌, ◌==◌, refl, sym, ap, ◌∙◌, Bool, true, false, List, [], ◌∷◌,
  ◌++◌, Option, some, length, ◌⊎◌, inl, inr, zero, suc, ℤ, Bool-cases, All, subst, arith,
}
use yocto_meta_hsiao.Text.{
  is_space, is_digit, int_of_u32, skip_spaces, word, scan_int, starts_digit, str_eq, digits_value,
}
use yocto_meta_hsiao.Text.Decimal.{AllDigits}
use yocto_meta_hsiao.Watchdog.{restart_word, reset_word, scan_command, scan_fields}
use yocto_meta_hsiao.Watchdog.Grammar.{AllSpaces, signed, decimal, pattern_of}

abbrev pub starts_space : List ℕ → Bool
starts_space [] = false
starts_space (c ∷ cs) = is_space c

-- The spaces that `skip_spaces` skips.
pub record Skipped (cs : List ℕ) : Type 0 where
  pub spaces : List ℕ
  pub is_text : cs ≡ spaces ++ skip_spaces cs
  pub all_spaces : AllSpaces spaces
  pub no_more : starts_space (skip_spaces cs) ≡ false

pub skipped : (cs : List ℕ) → Skipped cs
unfolding skip_spaces
skipped [] = record { spaces = []; is_text = refl; all_spaces = tt; no_more = refl }
skipped (c ∷ cs) = elim (Bool-cases (is_space c)) [
  | inl e ↦
      let s = skipped cs in
      record {
        spaces = c ∷ s.spaces;
        is_text = rw e (ap (◌∷◌ c) s.is_text);
        all_spaces = (e, s.all_spaces);
        no_more = rw e s.no_more;
      }
  | inr e ↦ record { spaces = []; is_text = rw e refl; all_spaces = tt; no_more = rw e e }
]

pub skip_spaces-append :
    (pre cs : List ℕ) → AllSpaces pre → starts_space cs ≡ false → skip_spaces (pre ++ cs) ≡ cs
unfolding skip_spaces
skip_spaces-append [] [] h e = refl
skip_spaces-append [] (c ∷ cs) h e = rw e refl
skip_spaces-append (p ∷ pre) cs h e = rw (h.0) (skip_spaces-append pre cs h.1 e)

-- The word is at the front, and if it is shorter than the width, it ends at a space or the text's end.
pub word_splits :
    (width : ℕ) (cs : List ℕ)
    → let (a, r) = word width cs in
      (cs ≡ a ++ r) × ((length a ≡ width) ⊎ (r ≡ []) ⊎ (starts_space r ≡ true))
unfolding word
word_splits zero cs = (refl, inl refl)
word_splits (suc width) [] = (refl, inr (inl refl))
word_splits (suc width) (c ∷ cs) = elim (Bool-cases (is_space c)) [
  | inl e ↦ rw e (refl, inr (inr e))
  | inr e ↦
      let (split, ends) = word_splits width cs in
      rw e (ap (◌∷◌ c) split, elim ends [ inl l ↦ inl (ap suc l) | inr other ↦ inr other ])
]

-- A run of digits is read as the number that it writes.
record Digits (acc : ℕ) (cs : List ℕ) : Type 0 where
  run : List ℕ
  after : List ℕ
  is_text : cs ≡ run ++ after
  all : AllDigits run
  no_more : starts_digit after ≡ false
  reads : digits_value acc cs ≡ decimal acc run

split_run : (acc : ℕ) (cs : List ℕ) → Digits acc cs
unfolding digits_value starts_digit
split_run acc [] = record {
  run = [];
  after = [];
  is_text = refl;
  all = tt;
  no_more = refl;
  reads = refl;
}
split_run acc (c ∷ cs) = elim (Bool-cases (is_digit c)) [
  | inl e ↦
      let d = split_run (acc * 10 + (c - 48)) cs in
      record {
        run = c ∷ d.run;
        after = d.after;
        is_text = ap (◌∷◌ c) d.is_text;
        all = (e, d.all);
        no_more = d.no_more;
        reads = rw e d.reads;
      }
  | inr e ↦ record {
    run = [];
    after = c ∷ cs;
    is_text = refl;
    all = tt;
    no_more = e;
    reads = rw e refl;
  }
]

digits_value-append :
    (acc : ℕ) (ds rest : List ℕ)
    → AllDigits ds
    → starts_digit rest ≡ false
    → digits_value acc (ds ++ rest) ≡ decimal acc ds
unfolding digits_value starts_digit
digits_value-append acc [] [] h e = refl
digits_value-append acc [] (c ∷ rest) h e = rw e refl
digits_value-append acc (d ∷ ds) rest h e =
    rw (h.0) (digits_value-append (acc * 10 + (d - 48)) ds rest h.1 e)

pub str_eq→eq : (xs ys : List ℕ) → str_eq xs ys ≡ true → xs ≡ ys
unfolding str_eq
str_eq→eq [] [] h = refl
str_eq→eq [] (y ∷ ys) h = cc
str_eq→eq (x ∷ xs) [] h = cc
str_eq→eq (x ∷ xs) (y ∷ ys) h = ground (arith, str_eq→eq xs ys)

pub scan_command-fields : (cs : List ℕ) → scan_command cs ≡ scan_fields (word 15 (skip_spaces cs))
unfolding skip_spaces word scan_int
scan_command-fields [] = refl
scan_command-fields (c ∷ cs) = refl

abbrev pub NoSpaces : List ℕ → Type 0
NoSpaces = All (λ c. is_space c ≡ false)

pub word-append :
    (width : ℕ) (a : List ℕ) (c : ℕ) (cs : List ℕ)
    → NoSpaces a
    → is_space c ≡ true
    → length a < width
    → word width (a ++ c ∷ cs) ≡ (a, c ∷ cs)
unfolding word
word-append zero a c cs h e l = absurd (omega arith)
word-append (suc width) [] c cs h e l = rw e refl
word-append (suc width) (x ∷ a) c cs h e l =
    rw (h.0, word-append width a c cs h.1 e (omega arith)) refl

-- What is known of the two words.
pub record IsWord (a : List ℕ) : Type 0 where
  pub no_spaces : NoSpaces a
  pub short : length a < 15
  pub starts : (cs : List ℕ) → starts_space (a ++ cs) ≡ false
  pub is_known : (str_eq a restart_word ≡ true) ⊎ (str_eq a reset_word ≡ true)

restart-IsWord : IsWord restart_word
unfolding is_space str_eq
restart-IsWord = record {
  no_spaces = (refl, (refl, (refl, (refl, (refl, (refl, (refl, tt)))))));
  short = omega arith;
  starts = λ cs. refl;
  is_known = inl refl;
}

reset-IsWord : IsWord reset_word
unfolding is_space str_eq
reset-IsWord = record {
  no_spaces = (refl, (refl, (refl, (refl, (refl, tt)))));
  short = omega arith;
  starts = λ cs. refl;
  is_known = inr refl;
}

pub known-IsWord : (a : List ℕ) → (a ≡ restart_word) ⊎ (a ≡ reset_word) → IsWord a
known-IsWord a (inl e) = subst IsWord (sym e) restart-IsWord
known-IsWord a (inr e) = subst IsWord (sym e) reset-IsWord

digit_lem : (d : ℕ) → is_digit d ≡ true → (is_space d ≡ false) × ((d == b'-') ≡ false)
unfolding is_digit is_space
digit_lem d h = ground arith

minus_lem : is_space b'-' ≡ false
unfolding is_space
minus_lem = refl

pub starts_signed :
    (minus : Bool) (ds rest : List ℕ)
    → AllDigits ds
    → 0 < length ds
    → starts_space (signed minus (ds ++ rest)) ≡ false
starts_signed true ds rest h l = minus_lem
starts_signed false [] rest h l = absurd (omega arith)
starts_signed false (d ∷ ds) rest h l = (digit_lem d h.0).0

abbrev as_int : ℕ → Option ℤ
as_int v = some (int_of_u32 (v % 2 ^ 32))

scan_int_digit :
    (d : ℕ) (cs : List ℕ) → is_digit d ≡ true → scan_int (d ∷ cs) ≡ as_int (digits_value 0 (d ∷ cs))
unfolding scan_int
scan_int_digit d cs h = rw (h, (digit_lem d h).1) refl

abbrev as_negated : ℕ → Option ℤ
as_negated v = some (int_of_u32 ((2 ^ 32 - v % 2 ^ 32) % 2 ^ 32))

scan_int_minus :
    (cs : List ℕ) → starts_digit cs ≡ true → scan_int (b'-' ∷ cs) ≡ as_negated (digits_value 0 cs)
unfolding scan_int
scan_int_minus cs h = rw h refl

-- A number is read.
pub scan_int-signed :
    (minus : Bool) (ds rest : List ℕ)
    → AllDigits ds
    → 0 < length ds
    → starts_digit rest ≡ false
    → scan_int (signed minus (ds ++ rest)) ≡ some (int_of_u32 (pattern_of minus ds))
unfolding starts_digit
scan_int-signed minus [] rest h l e = absurd (omega arith)
scan_int-signed true (d ∷ ds) rest h l e =
    scan_int_minus (d ∷ (ds ++ rest)) h.0 ∙ ap as_negated (digits_value-append 0 (d ∷ ds) rest h e)
scan_int-signed false (d ∷ ds) rest h l e =
    scan_int_digit d (ds ++ rest) h.0 ∙ ap as_int (digits_value-append 0 (d ∷ ds) rest h e)

pub record Number (cs : List ℕ) (v : ℤ) : Type 0 where
  pub minus : Bool
  pub run : List ℕ
  pub after : List ℕ
  pub is_text : cs ≡ signed minus (run ++ after)
  pub all : AllDigits run
  pub some_there : 0 < length run
  pub no_more : starts_digit after ≡ false
  pub reads : v ≡ int_of_u32 (pattern_of minus run)

run_some :
    (cs run after : List ℕ)
    → cs ≡ run ++ after
    → starts_digit cs ≡ true
    → starts_digit after ≡ false
    → 0 < length run
run_some cs [] after e h k = absurd (cc (ap starts_digit e))
run_some cs (c ∷ run) after e h k = omega arith

some_eq : {A : Type 0} {a b : A} → some a ≡ some b → a ≡ b
some_eq e = cc

-- What is read is a number.
pub scan_int-Number : (cs : List ℕ) (v : ℤ) → scan_int cs ≡ some v → Number cs v
unfolding scan_int
scan_int-Number [] v e = absurd (cc e)
scan_int-Number (c ∷ cs) v e = elim (Bool-cases (c == b'-')) [
  | inl is_minus ↦ elim (Bool-cases (starts_digit cs)) [
    | inl starts ↦
        let d = split_run 0 cs in
        record {
          minus = true;
          run = d.run;
          after = d.after;
          is_text = ground (arith, is_minus, d.is_text);
          all = d.all;
          some_there = run_some cs d.run d.after d.is_text starts d.no_more;
          no_more = d.no_more;
          reads = some_eq (sym e ∙ rw (is_minus, starts, d.reads) refl);
        }
    | inr stops ↦ absurd (ground (arith, e, is_minus, stops))
  ]
  | inr no_minus ↦ elim (Bool-cases (is_digit c)) [
    | inl starts ↦
        let d = split_run 0 (c ∷ cs) in
        record {
          minus = false;
          run = d.run;
          after = d.after;
          is_text = d.is_text;
          all = d.all;
          some_there =
              run_some (c ∷ cs) d.run d.after d.is_text (unfold starts_digit in starts) d.no_more;
          no_more = d.no_more;
          reads = some_eq (sym e ∙ (scan_int_digit c cs starts ∙ ap as_int d.reads));
        }
    | inr stops ↦ absurd (ground (arith, e, no_minus, stops))
  ]
]

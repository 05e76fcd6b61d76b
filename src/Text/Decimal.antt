-- ===== src/Text/Decimal.antt =====
-- Printing a number in decimal and reading it back.
use yocto_meta_hsiao.Base.{
  refl, sym, ap, append_assoc, ℕ, zero, suc, ◌+◌, ◌*◌, ◌/◌, ◌%◌, ◌^◌, ◌≤◌, ◌<◌, ◌≡◌, true, List, [],
  ◌∷◌, ◌++◌, All, Bool-cases, inl, inr, ◌∙◌, lt→ltb, tests, ltb, length, arith,
}
use yocto_meta_hsiao.Text.{is_digit, digits_value, print_dec}

abbrev pub AllDigits : List ℕ → Type 0
AllDigits = All (λ c. is_digit c ≡ true)

pub print_dec-AllDigits : (f n : ℕ) (acc : List ℕ) → AllDigits acc → AllDigits (print_dec f n acc)
unfolding print_dec is_digit
print_dec-AllDigits zero n acc h = h
print_dec-AllDigits (suc f) n acc h = elim (Bool-cases (ltb n 10)) [
  | inl small ↦ rw small (ground arith, h)
  | inr big ↦ rw big (print_dec-AllDigits f (n / 10) ((48 + n % 10) ∷ acc) (ground arith, h))
]

digits_value-digit :
    (acc d v : ℕ) (cs : List ℕ)
    → d < 10
    → v ≡ acc * 10 + d
    → digits_value acc ((48 + d) ∷ cs) ≡ digits_value v cs
unfolding digits_value is_digit
digits_value-digit acc d v cs h e = ground arith

-- Reading the printed number and what follows goes on from the number with what follows.
pub digits_value-print_dec :
    (f n : ℕ) (acc rest : List ℕ)
    → n < 10 ^ suc f
    → digits_value 0 (print_dec (suc f) n acc ++ rest) ≡ digits_value n (acc ++ rest)
unfolding print_dec
digits_value-print_dec zero n acc rest h =
    rw (lt→ltb n 10 (omega arith))
      (digits_value-digit 0 n n (acc ++ rest) (omega arith) (omega arith))
digits_value-print_dec (suc f) n acc rest h = elim (Bool-cases (ltb n 10)) [
  | inl small ↦ rw small (digits_value-digit 0 n n (acc ++ rest) (omega tests) (omega arith))
  | inr big ↦ rw big (
      digits_value-print_dec f (n / 10) ((48 + n % 10) ∷ acc) rest (omega arith)
      ∙ digits_value-digit (n / 10) (n % 10) n (acc ++ rest) (omega arith) (omega arith))
]

pub length-print_dec : (f n : ℕ) (acc : List ℕ) → length (print_dec f n acc) ≤ f + length acc
unfolding print_dec
length-print_dec zero n acc = omega arith
length-print_dec (suc f) n acc = ground (arith, length-print_dec f (n / 10) ((48 + n % 10) ∷ acc))

pub print_dec-append : (f n : ℕ) (acc : List ℕ) → print_dec f n acc ≡ print_dec f n [] ++ acc
unfolding print_dec
print_dec-append zero n acc = refl
print_dec-append (suc f) n acc = elim (Bool-cases (ltb n 10)) [
  | inl small ↦ rw small
  | inr big ↦ rw big (
      print_dec-append f (n / 10) ((48 + n % 10) ∷ acc)
      ∙ (sym (append_assoc (print_dec f (n / 10) []) ((48 + n % 10) ∷ []) acc)
          ∙ ap (λ ds. ds ++ acc) (sym (print_dec-append f (n / 10) ((48 + n % 10) ∷ [])))))
]

pub print_dec-nonempty : (f n : ℕ) (acc : List ℕ) → 0 < length acc → 0 < length (print_dec f n acc)
unfolding print_dec
print_dec-nonempty zero n acc h = h
print_dec-nonempty (suc f) n acc h =
    ground (arith, print_dec-nonempty f (n / 10) ((48 + n % 10) ∷ acc))

-- A number prints as one digit at least.
pub print_dec_some : (f n : ℕ) → 0 < length (print_dec (suc f) n [])
unfolding print_dec
print_dec_some f n = ground (arith, print_dec-nonempty f (n / 10) ((48 + n % 10) ∷ []))

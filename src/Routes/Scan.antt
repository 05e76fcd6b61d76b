-- ===== src/Routes/Scan.antt =====
-- Reading back a line of /proc/net/route.
use yocto_meta_hsiao.Base.{
  ℕ, zero, suc, ◌+◌, ◌/◌, ◌%◌, ◌^◌, ◌≤◌, ◌<◌, ◌≡◌, ◌∙◌, refl, ap, false, List, [], ◌∷◌, ◌++◌,
  append_assoc, All, some, ltb, ◌==◌, if◌then◌else◌, length, min, arith,
}
use yocto_meta_hsiao.Text.Files.{IsText, c_string_id}
use yocto_meta_hsiao.Text.{is_blank, skip_blanks}
use yocto_meta_hsiao.Routes.{
  take_word, hex_digit, hex_value, hex_number, hex_prefixed, ulong_max, scan_hex, scan_route,
  route_fields, with_number,
}

-- The upper-case digit of a number below 16, and `%0kX` for `k` digits before `acc`.
unfoldable pub hex_char : ℕ → ℕ
hex_char d = if ltb d 10 then 48 + d else 55 + d

unfoldable pub print_hex : ℕ → ℕ → List ℕ → List ℕ
print_hex zero n acc = acc
print_hex (suc k) n acc = print_hex k (n / 16) (hex_char (n % 16) ∷ acc)

hex_digit-hex_char : (d : ℕ) → d < 16 → hex_digit (hex_char d) ≡ some d
unfolding hex_digit hex_char
hex_digit-hex_char d h = ground arith

-- Reading the printed number and what follows goes on from the number with what follows.
hex_value-print_hex :
    (k n : ℕ) (acc : List ℕ) → n < 16 ^ k → hex_value 0 (print_hex k n acc) ≡ hex_value n acc
unfolding print_hex hex_value
hex_value-print_hex zero n acc h = ap (λ m. hex_value m acc) (omega arith)
hex_value-print_hex (suc k) n acc h =
    hex_value-print_hex k (n / 16) (hex_char (n % 16) ∷ acc) (omega arith)
    ∙ rw (hex_digit-hex_char (n % 16) (omega arith), hex_value)
        (ap (λ m. hex_value m acc) (omega arith))

-- A printed digit at the front of a text is neither a sign nor a prefix.
hex_char_lem :
    (d e : ℕ)
    → d < 16
    → e < 16
    → (is_blank (hex_char d) ≡ false)
      × ((hex_char d == b'-') ≡ false)
      × ((hex_char d == b'+') ≡ false)
      × ((hex_char e == b'x') ≡ false)
      × ((hex_char e == b'X') ≡ false)
unfolding hex_char is_blank
hex_char_lem d e h k = ground arith

hex_number-digit :
    (d : ℕ) (cs : List ℕ)
    → d < 16
    → hex_number (hex_char d ∷ cs) ≡ some (min ulong_max (hex_value 0 (hex_char d ∷ cs)))
unfolding hex_number hex_value
hex_number-digit d cs h =
    rw (hex_digit-hex_char d h, hex_number, hex_value)
      (ap (λ m. some (min ulong_max (hex_value m cs))) (omega arith))

scan_hex-digits :
    (d e : ℕ) (cs : List ℕ)
    → d < 16
    → e < 16
    → hex_value 0 (hex_char d ∷ hex_char e ∷ cs) < 2 ^ 64
    → scan_hex (hex_char d ∷ hex_char e ∷ cs) ≡ some (hex_value 0 (hex_char d ∷ hex_char e ∷ cs))
unfolding scan_hex hex_prefixed
scan_hex-digits d e cs h k bound =
    let (blank, minus, plus, x, big_x) = hex_char_lem d e h k in
    ground (arith, minus, plus, x, big_x, bound, hex_number-digit d (hex_char e ∷ cs) h)

hex_value_end : (n : ℕ) (acc : List ℕ) → hex_value n (9 ∷ acc) ≡ n
unfolding hex_value hex_digit
hex_value_end n acc = refl

-- `%lx` reads back what `%08X` prints.
pub scan_hex-print_hex :
    (n : ℕ) (acc : List ℕ) → n < 2 ^ 32 → scan_hex (print_hex 8 n (9 ∷ acc)) ≡ some n
unfolding print_hex
scan_hex-print_hex n acc h =
    let value : hex_value 0 (print_hex 8 n (9 ∷ acc)) ≡ n =
      hex_value-print_hex 8 n (9 ∷ acc) (omega arith) ∙ hex_value_end n acc in
    scan_hex-digits (n / 16 / 16 / 16 / 16 / 16 / 16 / 16 % 16)
      (n / 16 / 16 / 16 / 16 / 16 / 16 % 16) _ (omega arith) (omega arith) (rw value (omega arith))
    ∙ ap some value

-- A name that `%15s` reads whole: one to fifteen bytes, none of them a space.
pub record IsName (name : List ℕ) : Type 0 where
  pub nonempty : 0 < length name
  pub short : length name ≤ 15
  pub no_blank : All (λ c. is_blank c ≡ false) name

take_word-name :
    (width : ℕ) (w rest : List ℕ)
    → length w ≤ width
    → All (λ c. is_blank c ≡ false) w
    → take_word width (w ++ 9 ∷ rest) ≡ (w, 9 ∷ rest)
unfolding take_word is_blank
take_word-name zero [] rest h all = refl
take_word-name (suc width) [] rest h all = refl
take_word-name zero (c ∷ w) rest h all = absurd (omega arith)
take_word-name (suc width) (c ∷ w) rest h all =
    rw (all.0, take_word-name width w rest (omega arith) all.1) refl

-- A row of the table, as the kernel prints it: the interface, a tab, the destination as eight
-- digits, a tab, and what follows, without the newline.
pub record Row : Type 0 where
  pub iface : List ℕ
  pub destination : ℕ
  pub others : List ℕ

abbrev pub render : Row → List ℕ
unfolding print_hex
render r = r.iface ++ 9 ∷ print_hex 8 r.destination (9 ∷ r.others)

skip_blanks-name :
    (w rest : List ℕ)
    → 0 < length w
    → All (λ c. is_blank c ≡ false) w
    → skip_blanks (w ++ rest) ≡ w ++ rest
unfolding skip_blanks
skip_blanks-name [] rest h all = absurd (omega arith)
skip_blanks-name (c ∷ w) rest h all = rw (all.0) refl

route_fields-name :
    (w rest : List ℕ)
    → 0 < length w
    → route_fields (w, rest) ≡ with_number w (scan_hex (skip_blanks rest))
route_fields-name [] rest h = absurd (omega arith)
route_fields-name (c ∷ w) rest h = refl

skip_blanks-tab :
    (d : ℕ) (cs : List ℕ) → d < 16 → skip_blanks (9 ∷ hex_char d ∷ cs) ≡ hex_char d ∷ cs
unfolding skip_blanks is_blank
skip_blanks-tab d cs h = ground (arith, hex_char_lem d 0 h)

-- A printed row is read back: its interface, where that has no more than fifteen bytes and no
-- space, and its destination.
pub scan_route-render :
    (r : Row)
    → IsName r.iface
    → r.destination < 2 ^ 32
    → IsText (render r ++ 10 ∷ [])
    → scan_route (render r ++ 10 ∷ []) ≡ some (r.iface, r.destination)
unfolding scan_route print_hex
scan_route-render r name h text =
    let n = r.destination in
    let rest = r.others ++ 10 ∷ [] in
    let tail = print_hex 8 n (9 ∷ rest) in
    let whole : render r ++ 10 ∷ [] ≡ r.iface ++ 9 ∷ tail =
      append_assoc r.iface (9 ∷ print_hex 8 n (9 ∷ r.others)) (10 ∷ []) in
    ap (λ t. route_fields (take_word 15 (skip_blanks t))) (c_string_id _ text ∙ whole)
    ∙ ap (λ t. route_fields (take_word 15 t))
        (skip_blanks-name r.iface (9 ∷ tail) name.nonempty name.no_blank)
    ∙ ap route_fields (take_word-name 15 r.iface tail name.short name.no_blank)
    ∙ route_fields-name r.iface (9 ∷ tail) name.nonempty
    ∙ ap (λ t. with_number r.iface (scan_hex t))
        (skip_blanks-tab (n / 16 / 16 / 16 / 16 / 16 / 16 / 16 % 16) _ (omega arith))
    ∙ ap (with_number r.iface) (scan_hex-print_hex n rest h)

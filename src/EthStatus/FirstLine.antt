-- ===== src/EthStatus/FirstLine.antt =====
-- `read_first_line` of 1_eth_status.c.
use yocto_meta_hsiao.Base.{
  set, ℕ, zero, suc, ◌≤◌, ◌<◌, ◌≡◌, inl, inr, refl, sym, ap, subst, ◌∙◌, true, false, List, [], ◌∷◌,
  ◌++◌, append_assoc, All, ◌==◌, if◌then◌else◌, length, length-append, get_or, Bool-cases, ==_iff,
  pos, arith,
}
use yocto_meta_hsiao.Text.{c_string}
use yocto_meta_hsiao.Text.Files.{IsText, contents, fgets, length-fgets, fgets_some, length-c_string}
use yocto_meta_hsiao.EthStatus.{is_eol, strip_end, read_first_line}

-- A byte before a trimmed text, kept unless it ends the line.
abbrev pub keep : ℕ → List ℕ → List ℕ
keep c [] = if is_eol c then [] else c ∷ []
keep c (t ∷ ts) = c ∷ t ∷ ts

-- The text without the newlines and carriage returns at its end.
abbrev pub trim_end : List ℕ → List ℕ
trim_end [] = []
trim_end (c ∷ cs) = keep c (trim_end cs)

-- A text that does not end in a newline or a carriage return.
abbrev pub Trimmed : List ℕ → Type 0
Trimmed [] = Unit {0}
Trimmed (c ∷ []) = is_eol c ≡ false
Trimmed (c ∷ d ∷ cs) = Trimmed (d ∷ cs)

abbrev pub Trims : List ℕ → List ℕ → Type 0
Trims s t = (eols : List ℕ) × (s ≡ t ++ eols) × All (λ c. is_eol c ≡ true) eols × Trimmed t

Trims-cons : (c : ℕ) (s t : List ℕ) → Trims s t → Trims (c ∷ s) (keep c t)
Trims-cons c s [] (eols, e, all, trimmed) = elim (Bool-cases (is_eol c)) [
  | inl eol ↦ rw eol (c ∷ eols, ap (◌∷◌ c) e, (eol, all), tt)
  | inr other ↦ rw other (eols, ap (◌∷◌ c) e, all, other)
]
Trims-cons c s (d ∷ ds) (eols, e, all, trimmed) = (eols, ap (◌∷◌ c) e, all, trimmed)

trim_end-Trims : (s : List ℕ) → Trims s (trim_end s)
trim_end-Trims [] = ([], refl, tt, tt)
trim_end-Trims (c ∷ cs) = Trims-cons c cs (trim_end cs) (trim_end-Trims cs)

keep-append : (d : ℕ) (s : List ℕ) (c : ℕ) → keep d (s ++ c ∷ []) ≡ d ∷ (s ++ c ∷ [])
keep-append d [] c = refl
keep-append d (e ∷ s) c = refl

-- `trim_end` from the other end, which the loop starts from.
trim_end-append :
    (s : List ℕ) (c : ℕ) → trim_end (s ++ c ∷ []) ≡ (if is_eol c then trim_end s else s ++ c ∷ [])
trim_end-append [] c = refl
trim_end-append (d ∷ s) c = elim (Bool-cases (is_eol c)) [
  | inl eol ↦ ap (keep d) (trim_end-append s c) ∙ (rw eol refl)
  | inr other ↦ ap (keep d) (trim_end-append s c) ∙ (rw other (keep-append d s c))
]

last_of :
    (s : List ℕ) (n : ℕ)
    → length s ≡ suc n
    → (t : List ℕ) × (c : ℕ) × (s ≡ t ++ c ∷ []) × (length t ≡ n)
last_of [] n h = absurd (omega arith)
last_of (c ∷ []) n h = ([], c, refl, omega arith)
last_of (c ∷ d ∷ s) zero h = absurd (omega arith)
last_of (c ∷ d ∷ s) (suc n) h =
    let (t, e, same, l) = last_of (d ∷ s) n (omega arith) in
    (c ∷ t, e, ap (◌∷◌ c) same, omega (arith, l))

get_or-append : (t : List ℕ) (c : ℕ) (junk : List ℕ) → get_or (t ++ c ∷ junk) (length t) 0 ≡ c
get_or-append [] c junk = refl
get_or-append (d ∷ t) c junk = get_or-append t c junk

set-append :
    (t : List ℕ) (c v : ℕ) (junk : List ℕ) → set (t ++ c ∷ junk) (length t) v ≡ t ++ v ∷ junk
set-append [] c v junk = refl
set-append (d ∷ t) c v junk = ap (◌∷◌ d) (set-append t c v junk)

c_string-append : (s junk : List ℕ) → IsText s → c_string (s ++ 0 ∷ junk) ≡ s
unfolding c_string
c_string-append [] junk h = refl
c_string-append (c ∷ s) junk h = rw (h.0) (ap (◌∷◌ c) (c_string-append s junk h.1))

IsText-append : (s t : List ℕ) → IsText (s ++ t) → IsText s × IsText t
IsText-append [] t h = (tt, h)
IsText-append (c ∷ s) t h = let r = IsText-append s t h.1 in ((h.0, r.0), r.1)

c_string-IsText : (s : List ℕ) → IsText (c_string s)
unfolding c_string
c_string-IsText [] = tt
c_string-IsText (c ∷ s) = elim (Bool-cases (c == 0)) [
  | inl e ↦ rw e tt
  | inr e ↦ rw e (e, c_string-IsText s)
]

-- The loop against `trim_end`, whatever lies behind the end of the text.
strip_end_lem :
    (n : ℕ) (s junk : List ℕ)
    → length s ≡ n
    → IsText s
    → c_string (strip_end n (s ++ 0 ∷ junk)) ≡ trim_end s
unfolding strip_end
strip_end_lem zero [] junk l h = c_string-append [] junk tt
strip_end_lem zero (c ∷ s) junk l h = absurd (omega arith)
strip_end_lem (suc n) s junk l h =
    let (t, c, same, lt) = last_of s n l in
    let parts = IsText-append t (c ∷ []) (subst IsText same h) in
    let whole : s ++ 0 ∷ junk ≡ t ++ c ∷ 0 ∷ junk =
      ap (λ u. u ++ 0 ∷ junk) same ∙ append_assoc t (c ∷ []) (0 ∷ junk) in
    let at_end : get_or (t ++ c ∷ 0 ∷ junk) n 0 ≡ c =
      subst (λ k. get_or (t ++ c ∷ 0 ∷ junk) k 0 ≡ c) lt (get_or-append t c (0 ∷ junk)) in
    let cut : set (t ++ c ∷ 0 ∷ junk) n 0 ≡ t ++ 0 ∷ 0 ∷ junk =
      subst (λ k. set (t ++ c ∷ 0 ∷ junk) k 0 ≡ t ++ 0 ∷ 0 ∷ junk) lt
        (set-append t c 0 (0 ∷ junk)) in
    let trimmed = ap trim_end same ∙ trim_end-append t c in
    rw (whole, at_end, cut, trimmed)
      (elim (Bool-cases (is_eol c)) [
        | inl eol ↦ rw eol (strip_end_lem n t (0 ∷ junk) lt parts.0)
        | inr other ↦ rw other (
            ap c_string (sym (append_assoc t (c ∷ []) (0 ∷ junk)))
            ∙ c_string-append (t ++ c ∷ []) junk (subst IsText same h))
      ])

-- The first line of a file as the program's buffer has it: up to the first NUL.
abbrev pub line_of : ℕ → List ℕ → List ℕ
line_of room cs = c_string (fgets room cs).0

c_string_terminated : (s : List ℕ) → (junk : List ℕ) × (s ++ 0 ∷ [] ≡ c_string s ++ 0 ∷ junk)
unfolding c_string
c_string_terminated [] = ([], refl)
c_string_terminated (c ∷ s) = elim (Bool-cases (c == 0)) [
  | inl e ↦ rw e (s ++ 0 ∷ [], ap (λ k. k ∷ (s ++ 0 ∷ [])) ((==_iff c 0).0 e))
  | inr e ↦ let (junk, same) = c_string_terminated s in rw e (junk, ap (◌∷◌ c) same)
]

stripped :
    (chunk : List ℕ)
    → c_string (strip_end (length (c_string (chunk ++ 0 ∷ []))) (chunk ++ 0 ∷ []))
      ≡ trim_end (c_string chunk)
stripped chunk =
    let (junk, whole) = c_string_terminated chunk in
    let text = c_string-append (c_string chunk) junk (c_string-IsText chunk) in
    rw (whole, text)
      (strip_end_lem (length (c_string chunk)) (c_string chunk) junk refl (c_string-IsText chunk))

length-Trims : (s t : List ℕ) → Trims s t → length t ≤ length s
length-Trims s t (eols, e, _, _) = omega (arith, ap (λ u. length u) e, length-append t eols)

-- From a file with a byte at least, into a buffer with room for a byte before the NUL at least,
-- `read_first_line` returns 0 and leaves the first line as far as the buffer holds it, up to a NUL
-- in it, without the newlines and carriage returns at its end and otherwise whole; with its NUL it
-- fits the buffer.
pub read_first_line-Trims :
    (room : ℕ) (cs : List ℕ)
    → 0 < room
    → 0 < length cs
    → let (ret, text) = read_first_line (suc room) (contents cs) in
      (ret ≡ pos 0) × Trims (line_of room cs) text × (length text < suc room)
unfolding read_first_line
read_first_line-Trims zero cs h some_bytes = absurd (omega arith)
read_first_line-Trims (suc n) [] h some_bytes = absurd (omega arith)
read_first_line-Trims (suc n) (c ∷ cs) h some_bytes =
    let chunk = (fgets (suc n) (c ∷ cs)).0 in
    let full : (length chunk == 0) ≡ false = ground (arith, fgets_some n c cs) in
    let t = trim_end-Trims (c_string chunk) in
    rw (full, stripped chunk)
      (
        refl,
        t,
        omega (
          arith,
          length-Trims (c_string chunk) (trim_end (c_string chunk)) t,
          length-c_string chunk,
          length-fgets (suc n) (c ∷ cs),
        ),
      )

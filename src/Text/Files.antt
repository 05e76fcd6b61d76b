-- ===== src/Text/Files.antt =====
-- What the programs use of the C library on files: `fgets` and `snprintf` of texts, and `strrchr`.
use yocto_meta_hsiao.Base.{
  false, ap, All, length, ℕ, zero, suc, ◌-◌, ◌≤◌, ◌<◌, ◌≡◌, refl, List, [], ◌∷◌, ◌++◌, Option, none,
  some, ◌==◌, if◌then◌else◌, length, All, take, arith,
}
use yocto_meta_hsiao.Text.{c_string}

-- A file that is read from its start: it cannot be opened, it cannot be read, or its bytes; the
-- numbers are `errno`.
pub data File : Type 0 where
  missing unreadable : ℕ → File
  contents : List ℕ → File

-- The bytes that `fgets` reads into a buffer with room for `n` of them, and those it leaves: it
-- stops behind a newline.
unfoldable pub fgets : ℕ → List ℕ → List ℕ × List ℕ
fgets zero cs = ([], cs)
fgets (suc n) [] = ([], [])
fgets (suc n) (c ∷ cs) =
    let (line, rest) = fgets n cs in if c == 10 then (c ∷ [], cs) else (c ∷ line, rest)

-- `snprintf(buf, size, …)` of a text, as the C string that it leaves.
abbrev pub snprintf : ℕ → List ℕ → List ℕ
snprintf size text = take (size - 1) text

-- What follows the last slash of a C string, `strrchr(s, '/') + 1`.
unfoldable pub after_slash : List ℕ → Option (List ℕ)
after_slash [] = none
after_slash (c ∷ cs) = elim (after_slash cs) [
  | some t ↦ some t
  | none ↦ if c == b'/' then some cs else none
]

pub length-fgets : (n : ℕ) (cs : List ℕ) → length (fgets n cs).0 ≤ n
unfolding fgets
length-fgets zero cs = omega arith
length-fgets (suc n) [] = omega arith
length-fgets (suc n) (c ∷ cs) = ground (arith, length-fgets n cs)

-- A byte at least is read, if there is one and room for it.
pub fgets_some : (n c : ℕ) (cs : List ℕ) → 0 < length (fgets (suc n) (c ∷ cs)).0
unfolding fgets
fgets_some n c cs = ground arith

-- What is read and what is left are the file.
pub fgets-append : (n : ℕ) (cs : List ℕ) → (fgets n cs).0 ++ (fgets n cs).1 ≡ cs
unfolding fgets
fgets-append zero cs = refl
fgets-append (suc n) [] = refl
fgets-append (suc n) (c ∷ cs) = ground (arith, fgets-append n cs)

pub length-c_string : (cs : List ℕ) → length (c_string cs) ≤ length cs
unfolding c_string
length-c_string [] = omega arith
length-c_string (c ∷ cs) = ground (arith, length-c_string cs)

-- A text without a NUL is a C string.
abbrev pub IsText : List ℕ → Type 0
IsText = All (λ c. (c == 0) ≡ false)

pub c_string_id : (s : List ℕ) → IsText s → c_string s ≡ s
unfolding c_string
c_string_id [] h = refl
c_string_id (c ∷ s) h = rw (h.0) (ap (◌∷◌ c) (c_string_id s h.1))

pub c_string-text : (s rest : List ℕ) → IsText s → c_string (s ++ rest) ≡ s ++ c_string rest
unfolding c_string
c_string-text [] rest h = refl
c_string-text (c ∷ s) rest h = rw (h.0) (ap (◌∷◌ c) (c_string-text s rest h.1))

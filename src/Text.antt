-- ===== src/Text.antt =====
-- C strings as lists of bytes, and what the sources use of the C library and of the kernel's copy
-- of it: `isspace`, `skip_spaces`, the conversions `%Ns`, `%d` and `%u`, and `strcmp`.
pub mod Decimal
pub mod Files
pub mod Scan
use Prim.Native.Char.{code}
use Prim.Native.String.{String}
use yocto_meta_hsiao.Base.{
  ℕ, zero, suc, ◌+◌, ◌-◌, ◌*◌, ◌/◌, ◌%◌, ◌^◌, Bool, true, false, not, ◌&&◌, ◌||◌, List, [], ◌∷◌,
  Option, none, some, ltb, leb, ◌==◌, if◌then◌else◌, ℤ, pos, negsuc, neg,
}

-- The bytes of a text in ASCII.
abbrev pub codes : String → List ℕ
codes String.[] = []
codes (String.◌∷◌ c s) = code c ∷ codes s

-- The bytes of a buffer up to its first NUL.
unfoldable pub c_string : List ℕ → List ℕ
c_string [] = []
c_string (c ∷ cs) = if c == 0 then [] else c ∷ c_string cs

-- The kernel's `isspace`: the ASCII spaces and the Latin-1 no-break space.
unfoldable pub is_space : ℕ → Bool
is_space c = (leb 9 c && leb c 13) || (c == 32 || c == 160)

-- The C locale's `isspace`.
unfoldable pub is_blank : ℕ → Bool
is_blank c = (leb 9 c && leb c 13) || c == 32

unfoldable pub skip_blanks : List ℕ → List ℕ
skip_blanks [] = []
skip_blanks (c ∷ cs) = if is_blank c then skip_blanks cs else c ∷ cs

unfoldable pub is_digit : ℕ → Bool
is_digit c = leb 48 c && leb c 57

unfoldable pub skip_spaces : List ℕ → List ℕ
skip_spaces [] = []
skip_spaces (c ∷ cs) = if is_space c then skip_spaces cs else c ∷ cs

-- The text is at a word of at most `width` bytes: the word, and what follows it.
unfoldable pub word : ℕ → List ℕ → List ℕ × List ℕ
word zero cs = ([], cs)
word (suc width) [] = ([], [])
word (suc width) (c ∷ cs) =
    let (w, rest) = word width cs in if is_space c then ([], c ∷ cs) else (c ∷ w, rest)

-- The number that the digits at the front of a text make, after `acc`.
unfoldable pub digits_value : ℕ → List ℕ → ℕ
digits_value acc [] = acc
digits_value acc (c ∷ cs) =
    let rest = digits_value (acc * 10 + (c - 48)) cs in if is_digit c then rest else acc

unfoldable pub starts_digit : List ℕ → Bool
starts_digit [] = false
starts_digit (c ∷ cs) = is_digit c

-- A 32-bit pattern as an `int`.
abbrev pub int_of_u32 : ℕ → ℤ
int_of_u32 n = if ltb n (2 ^ 31) then pos n else neg (2 ^ 32 - n)

-- `%d` of the kernel's `sscanf`, the text being at no space: the value is computed modulo 2 ^ 64
-- and cut down to an `int`. `none` if there is no number.
unfoldable pub scan_int : List ℕ → Option ℤ
unfolding starts_digit digits_value
scan_int [] = none
scan_int (c ∷ cs) =
    if c == b'-'
    then (if starts_digit cs
        then some (int_of_u32 ((2 ^ 32 - digits_value 0 cs % 2 ^ 32) % 2 ^ 32))
        else none)
    else if is_digit c
    then some (int_of_u32 (digits_value 0 (c ∷ cs) % 2 ^ 32))
    else none

unfoldable pub str_eq : List ℕ → List ℕ → Bool
str_eq [] [] = true
str_eq [] (d ∷ ds) = false
str_eq (c ∷ cs) [] = false
str_eq (c ∷ cs) (d ∷ ds) = c == d && str_eq cs ds

-- `%u`, on fuel of one more than the number of digits: the digits of `n`, before `acc`.
unfoldable pub print_dec : ℕ → ℕ → List ℕ → List ℕ
print_dec zero n acc = acc
print_dec (suc f) n acc =
    let rest = print_dec f (n / 10) ((48 + n % 10) ∷ acc) in
    if ltb n 10 then (48 + n) ∷ acc else rest

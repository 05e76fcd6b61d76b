-- ===== src/Text/Scan.antt =====
-- Reading a decimal number as the GNU C library does: `scanf` with "%d" and "%u", and `atoi`.
use yocto_meta_hsiao.Base.{
  ◌-◌, ◌%◌, ◌^◌, ◌==◌, ◌∷◌, [], if◌then◌else◌, true, false, none, some, pos, ℕ, ℤ, Bool, List,
  Option, min, leb,
}
use yocto_meta_hsiao.Text.{is_digit, starts_digit, digits_value, skip_blanks, int_of_u32}

-- The digits at the front of a text left out.
unfoldable pub skip_digits : List ℕ → List ℕ
skip_digits [] = []
skip_digits (c ∷ cs) = if is_digit c then skip_digits cs else c ∷ cs

-- A number behind its sign: is it negative, its digits' value, and what follows; no digit is no
-- number.
unfoldable pub scan_digits : Bool → List ℕ → Option (Bool × ℕ) × List ℕ
scan_digits minus cs =
    if starts_digit cs then (some (minus, digits_value 0 cs), skip_digits cs) else (none, cs)

abbrev pub scan_signed : List ℕ → Option (Bool × ℕ) × List ℕ
scan_signed [] = (none, [])
scan_signed (c ∷ cs) =
    if c == b'-'
    then scan_digits true cs
    else if c == b'+'
    then scan_digits false cs
    else scan_digits false (c ∷ cs)

unfoldable pub scan_number : List ℕ → Option (Bool × ℕ) × List ℕ
scan_number cs = scan_signed (skip_blanks cs)

-- `%d` into an `int`, as its 32-bit pattern: the value is cut off at the ends of a `long`, then to
-- 32 bits.
unfoldable pub as_int : Bool × ℕ → ℕ
as_int (true, m) = (2 ^ 64 - min m (2 ^ 63)) % 2 ^ 32
as_int (false, m) = min m (2 ^ 63 - 1) % 2 ^ 32

-- `%u` into a `uint32_t`: a value too large for an `unsigned long` is its largest, whatever the
-- sign.
unfoldable pub as_uint : Bool × ℕ → ℕ
as_uint (true, m) = if leb m (2 ^ 64 - 1) then (2 ^ 64 - m) % 2 ^ 32 else 2 ^ 32 - 1
as_uint (false, m) = min m (2 ^ 64 - 1) % 2 ^ 32

-- `atoi`: zero if there is no number.
unfoldable pub atoi : List ℕ → ℤ
atoi cs = elim ((scan_number cs).0) [ none ↦ pos 0 | some n ↦ int_of_u32 (as_int n) ]

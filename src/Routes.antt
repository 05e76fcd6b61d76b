-- ===== src/Routes.antt =====
-- The search for a default route in /proc/net/route: `has_default_route` of
-- recipes-app/ethernet/files/3_net_monitor.c and `print_default_route_hint` of 1_eth_status.c, with
-- what they use of the C library: `fgets` line by line, and `sscanf` with "%15s %lx".
use yocto_meta_hsiao.Base.{
  ℕ, zero, suc, ◌+◌, ◌-◌, ◌*◌, ◌%◌, ◌^◌, ◌≤◌, min, Bool, true, false, not, ◌&&◌, ◌||◌, List, [],
  ◌∷◌, ◌++◌, Option, none, some, ltb, leb, ◌==◌, if◌then◌else◌, length,
}
use yocto_meta_hsiao.Text.{is_blank, skip_blanks, c_string, str_eq}
use yocto_meta_hsiao.Text.Files.{File, missing, unreadable, contents, fgets}
pub mod Scan
pub mod Table
mod Tests

-- A word of at most `width` bytes at the front of a text, and what follows it.
unfoldable pub take_word : ℕ → List ℕ → List ℕ × List ℕ
take_word zero cs = ([], cs)
take_word (suc width) [] = ([], [])
take_word (suc width) (c ∷ cs) =
    let (w, rest) = take_word width cs in if is_blank c then ([], c ∷ cs) else (c ∷ w, rest)

-- The value of a hexadecimal digit.
unfoldable pub hex_digit : ℕ → Option ℕ
hex_digit c =
    if leb 48 c && leb c 57
    then some (c - 48)
    else if leb b'a' c && leb c b'f'
    then some (c - 87)
    else if leb b'A' c && leb c b'F'
    then some (c - 55)
    else none

-- The number that the digits at the front of a text make, after `acc`.
unfoldable pub hex_value : ℕ → List ℕ → ℕ
hex_value acc [] = acc
hex_value acc (c ∷ cs) = elim (hex_digit c) [ none ↦ acc | some d ↦ hex_value (acc * 16 + d) cs ]

abbrev pub ulong_max : ℕ
ulong_max = 2 ^ 64 - 1

-- The digits of `%lx`: one at least; a value that is too large is cut off at ULONG_MAX.
unfoldable pub hex_number : List ℕ → Option ℕ
hex_number [] = none
hex_number (c ∷ cs) = elim (hex_digit c) [
  | none ↦ none
  | some d ↦ some (min ulong_max (hex_value d cs))
]

-- `%lx` behind the sign: a prefix "0x" is skipped.
unfoldable pub hex_prefixed : List ℕ → Option ℕ
hex_prefixed (c ∷ x ∷ cs) =
    if c == b'0' && (x == b'x' || x == b'X') then hex_number cs else hex_number (c ∷ x ∷ cs)
hex_prefixed (c ∷ []) = hex_number (c ∷ [])
hex_prefixed [] = none

abbrev pub negated : Option ℕ → Option ℕ
negated none = none
negated (some n) = some ((2 ^ 64 - n) % 2 ^ 64)

-- `%lx` of a text that is at no space.
unfoldable pub scan_hex : List ℕ → Option ℕ
scan_hex [] = none
scan_hex (c ∷ cs) =
    if c == b'-'
    then negated (hex_prefixed cs)
    else if c == b'+'
    then hex_prefixed cs
    else hex_prefixed (c ∷ cs)

abbrev pub with_number : List ℕ → Option ℕ → Option (List ℕ × ℕ)
with_number iface none = none
with_number iface (some n) = some (iface, n)

abbrev pub route_fields : List ℕ × List ℕ → Option (List ℕ × ℕ)
route_fields ([], rest) = none
route_fields (c ∷ cs, rest) = with_number (c ∷ cs) (scan_hex (skip_blanks rest))

-- `sscanf(line, "%15s %lx", iface, &destination)`: both fields, or `none` if it does not return 2.
unfoldable pub scan_route : List ℕ → Option (List ℕ × ℕ)
scan_route line = route_fields (take_word 15 (skip_blanks (c_string line)))

abbrev pub is_default : List ℕ → Option (List ℕ × ℕ) → Bool
is_default ifname none = false
is_default ifname (some (iface, destination)) = str_eq iface ifname && destination == 0

-- What the calls of `fgets` read one after another, on fuel: a call reads a byte at least, so the
-- length of the file is enough.
unfoldable pub lines : ℕ → ℕ → List ℕ → List (List ℕ)
lines zero room cs = []
lines (suc fuel) room [] = []
lines (suc fuel) room (c ∷ cs) = (fgets room (c ∷ cs)).0 ∷ lines fuel room (fgets room (c ∷ cs)).1

-- The loop over the lines, which leaves at the first that it looks for.
unfoldable pub find_route : List ℕ → List (List ℕ) → Bool
find_route ifname [] = false
find_route ifname (l ∷ ls) = is_default ifname (scan_route l) || find_route ifname ls

-- `has_default_route`; a file that cannot be read ends the loop at once.
unfoldable pub has_default_route : List ℕ → File → Bool
has_default_route ifname (missing errno) = false
has_default_route ifname (unreadable errno) = false
has_default_route ifname (contents cs) = find_route ifname (lines (length cs) 255 cs)

-- `print_default_route_hint`: the answer that it prints, `none` where it is unavailable.
unfoldable pub default_route_hint : List ℕ → File → Option Bool
default_route_hint ifname (missing errno) = none
default_route_hint ifname (unreadable errno) = some false
default_route_hint ifname (contents cs) = some (find_route ifname (lines (length cs) 255 cs))

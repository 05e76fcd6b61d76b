-- ===== src/Routes/Tests.antt =====
-- The theorem on the routes at a table as the kernel prints it.
use yocto_meta_hsiao.Base.{
  none-All, ◌^◌, ◌≤◌, ◌==◌, any_of, ◌<◌, length, ℕ, ◌≡◌, refl, false, List, [], ◌∷◌, ◌++◌, map,
  some, arith,
}
use yocto_meta_hsiao.Text.{is_blank, skip_blanks, c_string, str_eq, codes}
use yocto_meta_hsiao.Text.Files.{contents}
use yocto_meta_hsiao.Routes.{
  str_eq, hex_digit, hex_number, hex_prefixed, scan_hex, c_string, take_word, scan_route,
  is_default, has_default_route, default_route_hint,
}
use yocto_meta_hsiao.Routes.Scan.{hex_char, print_hex, Row, render}
use yocto_meta_hsiao.Routes.Table.{
  IsRow, IsLine, ended, file_of, any_default, has_default_route-any_default,
}

abbrev tab : List ℕ
tab = 9 ∷ []

-- The header: "Iface", and "Destination", of which "%lx" reads 0xDE.
abbrev header : List ℕ
header = codes "Iface" ++ (tab ++ codes "Destination")

-- A network of the interface, and a default route of another.
abbrev rows : List Row
rows =
    record { iface = codes "eth1"; destination = 0x2A8C0; others = codes "00000000" }
    ∷ record { iface = codes "eth0"; destination = 0; others = codes "0102A8C0" }
    ∷ []

header_no_route : is_default (codes "eth0") (scan_route (ended header)) ≡ false
unfolding scan_route take_word skip_blanks c_string is_blank scan_hex hex_prefixed hex_number
    hex_digit str_eq
header_no_route = refl

short_text : (l : List ℕ) → length l < 255 → any_of (λ c. c == 10) l ≡ false → IsLine l
short_text l h k = record { short = h; one_line = none-All (λ c. c == 10) l k }

row-IsRow :
    (r : Row)
    → 0 < length r.iface
    → length r.iface ≤ 15
    → any_of is_blank r.iface ≡ false
    → r.destination < 2 ^ 32
    → any_of (λ c. c == 0) (ended (render r)) ≡ false
    → length (render r) < 255
    → any_of (λ c. c == 10) (render r) ≡ false
    → IsRow r
row-IsRow r some_name short no_blank small text fits line = record {
  name = record {
    nonempty = some_name;
    short = short;
    no_blank = none-All is_blank r.iface no_blank;
  };
  in_range = small;
  text = none-All (λ c. c == 0) (ended (render r)) text;
  line = short_text (render r) fits line;
}

header-IsLine : IsLine header
header-IsLine = short_text header (omega arith) refl

abbrev first : Row
first = record { iface = codes "eth1"; destination = 0x2A8C0; others = codes "00000000" }

abbrev second : Row
second = record { iface = codes "eth0"; destination = 0; others = codes "0102A8C0" }

rows-IsRow : IsRow first × IsRow second
unfolding is_blank print_hex hex_char
rows-IsRow = (
  row-IsRow first (omega arith) (omega arith) refl (omega arith) refl (omega arith) refl,
  row-IsRow second (omega arith) (omega arith) refl (omega arith) refl (omega arith) refl,
)

has_default_route-any_default_example :
    let file = contents (file_of (header ∷ map render rows)) in
    (has_default_route (codes "eth0") file ≡ any_default (codes "eth0") rows)
    × (default_route_hint (codes "eth0") file ≡ some (any_default (codes "eth0") rows))
has_default_route-any_default_example =
    has_default_route-any_default (codes "eth0") header rows header-IsLine header_no_route
      (rows-IsRow.0, (rows-IsRow.1, tt))

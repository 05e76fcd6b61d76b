-- ===== src/Routes/Table.antt =====
-- The search for a default route against the table that the file shows.
use yocto_meta_hsiao.Base.{
  ℕ, zero, suc, ◌^◌, ◌≤◌, ◌<◌, ◌≡◌, ◌∙◌, refl, ap, Bool, false, ◌&&◌, ◌||◌, List, [], ◌∷◌, ◌++◌,
  map, All, some, ◌==◌, length, length-append, arith,
}
use yocto_meta_hsiao.Text.{str_eq}
use yocto_meta_hsiao.Text.Files.{fgets-append, fgets_some, IsText, contents, fgets}
use yocto_meta_hsiao.Routes.{
  scan_route, is_default, lines, find_route, has_default_route, default_route_hint,
}
use yocto_meta_hsiao.Routes.Scan.{Row, render, IsName, scan_route-render}

-- A line that the buffer holds: no newline in it, and at most 254 bytes before the newline.
pub record IsLine (l : List ℕ) : Type 0 where
  pub short : length l < 255
  pub one_line : All (λ c. (c == 10) ≡ false) l

-- A file of lines.
abbrev pub file_of : List (List ℕ) → List ℕ
file_of [] = []
file_of (l ∷ ls) = l ++ 10 ∷ file_of ls

abbrev pub ended : List ℕ → List ℕ
ended l = l ++ 10 ∷ []

fgets-line :
    (n : ℕ) (l rest : List ℕ)
    → length l < n
    → All (λ c. (c == 10) ≡ false) l
    → fgets n (l ++ 10 ∷ rest) ≡ (ended l, rest)
unfolding fgets
fgets-line zero l rest h all = absurd (omega arith)
fgets-line (suc n) [] rest h all = refl
fgets-line (suc n) (c ∷ l) rest h all = rw (all.0, fgets-line n l rest (omega arith) all.1) refl

lines_some :
    (fuel : ℕ) (cs : List ℕ)
    → 0 < length cs
    → lines (suc fuel) 255 cs ≡ (fgets 255 cs).0 ∷ lines fuel 255 (fgets 255 cs).1
unfolding lines
lines_some fuel [] h = absurd (omega arith)
lines_some fuel (c ∷ cs) h = refl

abbrev flatten : List (List ℕ) → List ℕ
flatten [] = []
flatten (l ∷ ls) = l ++ flatten ls

-- On fuel that is no less than the length of the file, the lines are the whole of it: the fuel of
-- the searches is enough for every file.
pub lines-whole :
    (fuel room : ℕ) (cs : List ℕ) → length cs ≤ fuel → flatten (lines fuel (suc room) cs) ≡ cs
unfolding lines
lines-whole zero room [] h = refl
lines-whole (suc fuel) room [] h = refl
lines-whole zero room (c ∷ cs) h = absurd (omega arith)
lines-whole (suc fuel) room (c ∷ cs) h =
    let (line, rest) = fgets (suc room) (c ∷ cs) in
    let whole = fgets-append (suc room) (c ∷ cs) in
    let some_bytes = fgets_some room c cs in
    let shorter : length rest ≤ fuel =
      omega (arith, some_bytes, ap (λ l. length l) whole, length-append line rest) in
    ap (λ l. line ++ l) (lines-whole fuel room rest shorter) ∙ whole

-- On enough fuel the lines are read back; the file's length is enough.
lines-file_of :
    (fuel : ℕ) (ls : List (List ℕ))
    → length (file_of ls) ≤ fuel
    → All IsLine ls
    → lines fuel 255 (file_of ls) ≡ map ended ls
unfolding lines
lines-file_of zero [] h all = refl
lines-file_of (suc fuel) [] h all = refl
lines-file_of zero (l ∷ ls) h all = absurd (omega (arith, length-append l (10 ∷ file_of ls)))
lines-file_of (suc fuel) (l ∷ ls) h all =
    let first = fgets-line 255 l (file_of ls) all.0.short all.0.one_line in
    let more : length (file_of ls) ≤ fuel = omega (arith, length-append l (10 ∷ file_of ls)) in
    lines_some fuel (l ++ 10 ∷ file_of ls) (omega (arith, length-append l (10 ∷ file_of ls)))
    ∙ ap (λ p. p.0 ∷ lines fuel 255 p.1) first
    ∙ ap (◌∷◌ (ended l)) (lines-file_of fuel ls more all.1)

-- A row of the table that the kernel prints and the program can read.
pub record IsRow (r : Row) : Type 0 where
  pub name : IsName r.iface
  pub in_range : r.destination < 2 ^ 32
  pub text : IsText (ended (render r))
  pub line : IsLine (render r)

-- Does some row of the table lead everywhere by the interface?
abbrev pub any_default : List ℕ → List Row → Bool
any_default ifname [] = false
any_default ifname (r ∷ rs) = (str_eq r.iface ifname && r.destination == 0) || any_default ifname rs

find_route-rows :
    (ifname : List ℕ) (rs : List Row)
    → All IsRow rs
    → find_route ifname (map ended (map render rs)) ≡ any_default ifname rs
unfolding find_route
find_route-rows ifname [] all = refl
find_route-rows ifname (r ∷ rs) all =
    let row = scan_route-render r all.0.name all.0.in_range all.0.text in
    rw (row, find_route-rows ifname rs all.1) refl

rows_lines : (rs : List Row) → All IsRow rs → All IsLine (map render rs)
rows_lines [] all = tt
rows_lines (r ∷ rs) all = (all.0.line, rows_lines rs all.1)

-- For a file that has a header line, which names no default route of the interface, and the rows of
-- a table, each at most 254 bytes long and with an interface name of at most fifteen: the monitor
-- and the status program both answer whether the table has a row with the interface and
-- destination 0.
pub has_default_route-any_default :
    (ifname header : List ℕ) (rs : List Row)
    → IsLine header
    → is_default ifname (scan_route (ended header)) ≡ false
    → All IsRow rs
    → let file = contents (file_of (header ∷ map render rs)) in
      (has_default_route ifname file ≡ any_default ifname rs)
      × (default_route_hint ifname file ≡ some (any_default ifname rs))
unfolding has_default_route default_route_hint find_route
has_default_route-any_default ifname header rs line none_there all =
    let ls = header ∷ map render rs in
    let read = lines-file_of (length (file_of ls)) ls (omega arith) (line, rows_lines rs all) in
    let found : find_route ifname (map ended ls) ≡ any_default ifname rs =
      rw (none_there, find_route-rows ifname rs all) refl in
    let answer = ap (find_route ifname) read ∙ found in (answer, ap some answer)

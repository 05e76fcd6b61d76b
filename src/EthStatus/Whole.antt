-- ===== src/EthStatus/Whole.antt =====
-- The buffers of 1_eth_status.c: what they hold whole.
use yocto_meta_hsiao.Base.{
  ℕ, zero, suc, ◌≤◌, ◌<◌, ◌≡◌, ◌∙◌, inl, inr, not, ap, List, [], ◌∷◌, ◌++◌, map, Option, none, some,
  leb, ◌==◌, refl, if◌then◌else◌, length, length-append, take_all, ℤ, pos, neg, ◌&&◌, Bool-cases,
  All, arith,
}
use yocto_meta_hsiao.Text.{codes, c_string}
use yocto_meta_hsiao.Text.Files.{File, missing, unreadable, contents, fgets, after_slash}
use yocto_meta_hsiao.Routes.{default_route_hint}
use yocto_meta_hsiao.EthStatus.{
  read_first_line, strip_end, enodata, text_buf_size, sys_class_net, make_sysfs_path, driver_name,
}
use yocto_meta_hsiao.EthStatus.Report.{
  Item, interface_name, interface_index, driver, sysfs_value, ipv4, default_route, statistics,
  System, print_admin_state, addresses, value_or_none, sysfs_entries, statistics_entries,
  driver_entry, reports, eth_status_of, eth_status,
}

-- The path of an entry in full.
abbrev pub whole_path : List ℕ → List ℕ → List ℕ
whole_path ifname entry = sys_class_net ++ (ifname ++ (b'/' ∷ entry))

make_sysfs_path_whole :
    (ifname entry : List ℕ)
    → length ifname < 16
    → length entry ≤ 200
    → make_sysfs_path 256 ifname entry ≡ whole_path ifname entry
unfolding make_sysfs_path
make_sysfs_path_whole ifname entry h k = take_all 255 (whole_path ifname entry) (
    omega (
      arith,
      length-append sys_class_net (ifname ++ (b'/' ∷ entry)),
      length-append ifname (b'/' ∷ entry),
    ))

reports_whole :
    (s : System) (ifname : List ℕ)
    → length ifname < 16
    → reports s (make_sysfs_path 256 ifname) ifname ifname
      ≡ reports s (whole_path ifname) ifname ifname
unfolding reports
reports_whole s ifname h =
    let whole =
      λ (entry : List ℕ) (k : length entry ≤ 200). make_sysfs_path_whole ifname entry h k in
    rw
      (
        whole (codes "device/driver") (omega arith),
        whole (codes "operstate") (omega arith),
        whole (codes "carrier") (omega arith),
        whole (codes "address") (omega arith),
        whole (codes "mtu") (omega arith),
        whole (codes "statistics/rx_packets") (omega arith),
        whole (codes "statistics/tx_packets") (omega arith),
        whole (codes "statistics/rx_errors") (omega arith),
        whole (codes "statistics/tx_errors") (omega arith),
      )
      refl

-- The first line of a file in full, with its end.
abbrev pub first_line : List ℕ → List ℕ
first_line cs = (fgets (suc (length cs)) cs).0

-- What `read_first_line` makes of a line in full: the text up to a NUL, its end stripped.
abbrev pub whole_value : File → ℤ × List ℕ
whole_value (missing errno) = (neg errno, [])
whole_value (unreadable errno) = (neg errno, [])
whole_value (contents cs) =
    let line = first_line cs in
    if length line == 0
    then (neg enodata, [])
    else (pos 0, c_string (strip_end (length (c_string (line ++ 0 ∷ []))) (line ++ 0 ∷ [])))

-- The name of a driver from the whole target of its link.
abbrev pub whole_driver : Option (List ℕ) → Option (List ℕ)
whole_driver none = none
whole_driver (some link) =
    some (elim (after_slash (c_string link)) [ some name ↦ name | none ↦ c_string link ])

abbrev pub LinkFits : Option (List ℕ) → Type 0
LinkFits none = Unit {0}
LinkFits (some link) = length link ≤ 255

abbrev pub LineFits : File → Type 0
LineFits (contents cs) = length (first_line cs) ≤ 255
LineFits file = Unit {0}

-- The link's target, and the first lines of the files that are read, are no longer than 255 bytes.
pub record FitsBuffers (s : System) (ifname : List ℕ) : Type 0 where
  pub link : LinkFits (s.readlink (whole_path ifname driver_entry))
  pub values : All (λ e. LineFits (s.file (whole_path ifname e))) sysfs_entries
  pub counts : All (λ e. LineFits (s.file (whole_path ifname e))) statistics_entries

-- The reports, from the driver's name and those that are read from files.
abbrev assemble : System → List ℕ → Option (List ℕ) → List Item → List Item → List Item
assemble s ifname name values counts =
    interface_name ifname
    ∷ interface_index (s.if_nametoindex ifname)
    ∷ driver name
    ∷ print_admin_state s ifname
    ∷ (values
        ++ ipv4 (addresses ifname s.ifaddrs)
          ∷ default_route (default_route_hint ifname (s.file (codes "/proc/net/route")))
          ∷ counts)

-- What the program would report with buffers of any size.
pub whole_reports : System → List ℕ → List Item
whole_reports s ifname =
    let value = λ (entry : List ℕ). whole_value (s.file (whole_path ifname entry)) in
    assemble s ifname (whole_driver (s.readlink (whole_path ifname driver_entry)))
      (map (λ (e : List ℕ). sysfs_value e (value e)) sysfs_entries)
      (map (λ (e : List ℕ). statistics e (value_or_none (value e))) statistics_entries)

-- A buffer with room for a line reads it whole.
fgets_fits :
    (n m : ℕ) (cs : List ℕ)
    → length (fgets m cs).0 ≤ n
    → length cs < m
    → (fgets n cs).0 ≡ (fgets m cs).0
unfolding fgets
fgets_fits n zero cs h l = absurd (omega arith)
fgets_fits zero (suc m) [] h l = refl
fgets_fits (suc n) (suc m) [] h l = refl
fgets_fits zero (suc m) (c ∷ cs) h l = absurd (ground arith)
fgets_fits (suc n) (suc m) (c ∷ cs) h l = elim (Bool-cases (c == 10)) [
  | inl e ↦ rw e refl
  | inr e ↦
      let fits : suc (length (fgets m cs).0) ≤ suc n = ground (arith, e, h) in
      rw e (ap (◌∷◌ c) (fgets_fits n m cs (omega arith) (omega arith)))
]

read_first_line_fits :
    (file : File) → LineFits file → read_first_line text_buf_size file ≡ whole_value file
unfolding read_first_line
read_first_line_fits (missing errno) h = refl
read_first_line_fits (unreadable errno) h = refl
read_first_line_fits (contents cs) h =
    rw (fgets_fits 255 (suc (length cs)) cs h (omega arith)) (ground arith)

driver_fits :
    (link : Option (List ℕ))
    → LinkFits link
    → elim link as (λ _. Option (List ℕ)) [ none ↦ none | some l ↦ some (driver_name l) ]
      ≡ whole_driver link
unfolding driver_name
driver_fits none h = refl
driver_fits (some l) h = ap (λ t. whole_driver (some t)) (take_all 255 l h)

map_same :
    (P : List ℕ → Type 0) (f g : List ℕ → Item)
    → ((e : List ℕ) → P e → f e ≡ g e)
    → (es : List (List ℕ)) → All P es
    → map f es ≡ map g es
map_same P f g same [] h = refl
map_same P f g same (e ∷ es) h = rw (same e h.0) (ap (◌∷◌ (g e)) (map_same P f g same es h.1))

reports-whole_reports :
    (s : System) (ifname : List ℕ)
    → FitsBuffers s ifname
    → reports s (whole_path ifname) ifname ifname ≡ whole_reports s ifname
unfolding reports whole_reports print_admin_state
reports-whole_reports s ifname fits =
    let P : List ℕ → Type 0 = λ e. LineFits (s.file (whole_path ifname e)) in
    let link = s.readlink (whole_path ifname driver_entry) in
    let read = λ (e : List ℕ). read_first_line text_buf_size (s.file (whole_path ifname e)) in
    let values = map (λ (e : List ℕ). sysfs_value e (read e)) sysfs_entries in
    let counts = map (λ (e : List ℕ). statistics e (value_or_none (read e))) statistics_entries in
    let same = λ (e : List ℕ) (h : P e). read_first_line_fits (s.file (whole_path ifname e)) h in
    ap (λ d. assemble s ifname d values counts) (driver_fits link fits.link)
    ∙ (ap (λ l. assemble s ifname (whole_driver link) l counts)
          (map_same P _ _ (λ e h. ap (sysfs_value e) (same e h)) sysfs_entries fits.values)
        ∙ ap
            (λ l.
              assemble s ifname (whole_driver link)
                (map (λ (e : List ℕ). sysfs_value e (whole_value (s.file (whole_path ifname e))))
                  sysfs_entries)
                l)
            (map_same P _ _ (λ e h. ap (λ v. statistics e (value_or_none v)) (same e h))
              statistics_entries fits.counts))

-- Where the target of the driver's link, and the first line of each file that the program reads for its
-- report of the interface, are no longer than 255 bytes: with one argument, it fails and reports
-- nothing if the name is too long for an interface, no such interface is there or it has no index.
-- Otherwise it succeeds, and apart from the routing table's lines its buffers cut off nothing: it
-- reports what it would with the whole paths, the whole name, the whole target and the whole lines.
pub eth_status_whole :
    (s : System) (prog ifname : List ℕ)
    → FitsBuffers s ifname
    → let known =
        not (leb 16 (length ifname))
        && (s.exists (sys_class_net ++ ifname) && not (s.if_nametoindex ifname == 0)) in
      eth_status s (prog ∷ ifname ∷ [])
      ≡ (if known then (pos 0, whole_reports s ifname) else (pos 1, []))
unfolding eth_status eth_status_of
eth_status_whole s prog ifname lines = elim (Bool-cases (leb 16 (length ifname))) [
  | inl long ↦ rw long refl
  | inr short ↦
      (let fits : length ifname < 16 = ground (arith, short) in
        let dir =
          take_all 255 (sys_class_net ++ ifname)
            (omega (arith, length-append sys_class_net ifname)) in
        let name = take_all 15 ifname (omega arith) in
        rw (short, dir, name, reports_whole s ifname fits, reports-whole_reports s ifname lines)
          (ground arith))
]

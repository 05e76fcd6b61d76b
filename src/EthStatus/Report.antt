-- ===== src/EthStatus/Report.antt =====
-- `main` of 1_eth_status.c: what the program reports.
use yocto_meta_hsiao.Base.{
  ℕ, ◌⊎◌, inl, inr, Bool, not, List, [], ◌∷◌, ◌++◌, map, Option, none, some, leb, ◌==◌,
  if◌then◌else◌, length, ℤ, pos, is_neg,
}
use yocto_meta_hsiao.Text.{codes}
use yocto_meta_hsiao.Text.Files.{File, snprintf}
use yocto_meta_hsiao.Routes.{default_route_hint}
use yocto_meta_hsiao.EthStatus.{
  read_first_line, text_buf_size, sysfs_path_max, if_namesize, sys_class_net, make_sysfs_path,
  driver_name, to_unsigned, flag_is_set, FlagWord, flag_words, Ifaddr, ipv4_addresses,
}

-- What the `print_…` functions report; a value that is unavailable is `none`, or an error number
-- where that is printed.
pub data Item : Type 0 where
  interface_name : List ℕ → Item
  interface_index : ℕ → Item
  driver : Option (List ℕ) → Item
  admin_error : ℕ → Item
  admin_state : Bool → ℕ → List FlagWord → Item
  sysfs_value : List ℕ → ℤ × List ℕ → Item
  ipv4 : Option (List (List ℕ)) → Item
  default_route : Option Bool → Item
  statistics : List ℕ → Option (List ℕ) → Item

-- The answers of the system: the paths that are there, the interfaces' indices, a link's target, an interface's flags
-- or the error of reading them, what the file of a path holds, and the addresses (`none`: the call
-- fails). IFF_LOWER_UP is in the headers or is not.
pub record System : Type 0 where
  pub exists : List ℕ → Bool
  pub if_nametoindex : List ℕ → ℕ
  pub readlink : List ℕ → Option (List ℕ)
  pub if_flags : List ℕ → ℕ ⊎ ℕ
  pub file : List ℕ → File
  pub ifaddrs : Option (List Ifaddr)
  pub has_lower_up : Bool

-- `print_admin_state`, from the name that `get_interface_flags` puts into its request.
unfoldable pub print_admin_state : System → List ℕ → Item
print_admin_state s ifr_name = elim (s.if_flags ifr_name) [
  | inl errno ↦ admin_error errno
  | inr flags ↦
      admin_state (flag_is_set 0 flags) (to_unsigned flags) (flag_words s.has_lower_up flags)
]

abbrev pub addresses : List ℕ → Option (List Ifaddr) → Option (List (List ℕ))
addresses ifname none = none
addresses ifname (some ifas) = some (ipv4_addresses ifname ifas)

-- `print_rx_tx_stats`'s use of `read_first_line`.
abbrev pub value_or_none : ℤ × List ℕ → Option (List ℕ)
value_or_none (ret, text) = if is_neg ret then none else some text

abbrev pub sysfs_entries : List (List ℕ)
sysfs_entries = codes "operstate" ∷ codes "carrier" ∷ codes "address" ∷ codes "mtu" ∷ []

abbrev pub statistics_entries : List (List ℕ)
statistics_entries =
    codes "statistics/rx_packets"
    ∷ codes "statistics/tx_packets"
    ∷ codes "statistics/rx_errors"
    ∷ codes "statistics/tx_errors"
    ∷ []

abbrev pub driver_entry : List ℕ
driver_entry = codes "device/driver"

-- The reports of `main`, from the path that it makes for an entry and the name that it gives to the
-- ioctl.
unfoldable pub reports : System → (List ℕ → List ℕ) → List ℕ → List ℕ → List Item
unfolding print_admin_state
reports s path ifr_name ifname =
    let read = λ (entry : List ℕ). read_first_line text_buf_size (s.file (path entry)) in
    let link = s.readlink (path driver_entry) in
    interface_name ifname
    ∷ interface_index (s.if_nametoindex ifname)
    ∷ driver (elim link as (λ _. Option (List ℕ)) [ none ↦ none | some l ↦ some (driver_name l) ])
    ∷ print_admin_state s ifr_name
    ∷ (map (λ (e : List ℕ). sysfs_value e (read e)) sysfs_entries
        ++ ipv4 (addresses ifname s.ifaddrs)
          ∷ default_route (default_route_hint ifname (s.file (codes "/proc/net/route")))
          ∷ map (λ (e : List ℕ). statistics e (value_or_none (read e))) statistics_entries)

-- `main` with an argument: its exit code and what it reports. The buffers are those of
-- `make_sysfs_path`'s callers and of `ifr_name`.
unfoldable pub eth_status_of : System → List ℕ → ℤ × List Item
unfolding reports
eth_status_of s ifname =
    if leb if_namesize (length ifname)
    then (pos 1, [])
    else if not (s.exists (snprintf sysfs_path_max (sys_class_net ++ ifname)))
    then (pos 1, [])
    else if s.if_nametoindex ifname == 0
    then (pos 1, [])
    else (
      pos 0,
      reports s (make_sysfs_path sysfs_path_max ifname) (snprintf if_namesize ifname) ifname,
    )

-- `main`
unfoldable pub eth_status : System → List (List ℕ) → ℤ × List Item
unfolding eth_status_of
eth_status s (prog ∷ ifname ∷ []) = eth_status_of s ifname
eth_status s argv = (pos 1, [])

-- ===== src/EthStatus.antt =====
-- recipes-app/ethernet/files/1_eth_status.c, which reports the state of an interface: what it reads
-- and the lines that it reports. The files, the interface's flags and its addresses are the answers
-- of the system; the layout of a printed line is left out.
use yocto_meta_hsiao.Base.{
  set, ℕ, zero, suc, ◌+◌, ◌-◌, ◌/◌, ◌%◌, ◌^◌, Bool, true, false, not, ◌||◌, ◌&&◌, List, [], ◌∷◌,
  ◌++◌, Option, none, some, ltb, leb, ◌==◌, if◌then◌else◌, length, take, get_or, ℤ, pos, neg,
  is_neg,
}
use yocto_meta_hsiao.Text.{codes, c_string, str_eq}
use yocto_meta_hsiao.Text.Files.{File, missing, unreadable, contents, fgets, snprintf, after_slash}
pub mod FirstLine
pub mod Flags
pub mod Driver
pub mod Report
pub mod Whole
mod Tests

abbrev pub einval : ℕ
einval = 22

abbrev pub enodata : ℕ
enodata = 61

abbrev pub is_eol : ℕ → Bool
is_eol c = c == 10 || c == 13

-- The loop of `read_first_line` that puts NULs over the line's end, from its length.
unfoldable pub strip_end : ℕ → List ℕ → List ℕ
strip_end zero buf = buf
strip_end (suc len) buf =
    let rest = strip_end len (set buf len 0) in if is_eol (get_or buf len 0) then rest else buf

-- `read_first_line` into a buffer of `size` bytes, not a null pointer: its result, and the text in
-- the buffer where that is 0.
unfoldable pub read_first_line : ℕ → File → ℤ × List ℕ
read_first_line zero file = (neg einval, [])
read_first_line (suc room) (missing errno) = (neg errno, [])
read_first_line (suc room) (unreadable errno) = (neg errno, [])
read_first_line (suc room) (contents cs) =
    let buf = (fgets room cs).0 ++ 0 ∷ [] in
    if length (fgets room cs).0 == 0 && not (room == 0)
    then (neg enodata, [])
    else (pos 0, c_string (strip_end (length (c_string buf)) buf))

abbrev pub text_buf_size : ℕ
text_buf_size = 256

abbrev pub sysfs_path_max : ℕ
sysfs_path_max = 256

abbrev pub if_namesize : ℕ
if_namesize = 16

abbrev pub sys_class_net : List ℕ
sys_class_net = codes "/sys/class/net/"

-- `make_sysfs_path`
unfoldable pub make_sysfs_path : ℕ → List ℕ → List ℕ → List ℕ
make_sysfs_path size ifname entry = snprintf size (sys_class_net ++ (ifname ++ (b'/' ∷ entry)))

-- The driver's name from the target of its link, which `readlink` cuts off at 255 bytes.
unfoldable pub driver_name : List ℕ → List ℕ
driver_name link =
    let target = c_string (take (sysfs_path_max - 1) link) in
    elim (after_slash target) [ some driver ↦ driver | none ↦ target ]

-- `(unsigned int)flags` for the 16 bits of a `short`, and a bit of that.
abbrev pub to_unsigned : ℕ → ℕ
to_unsigned flags = if ltb flags (2 ^ 15) then flags else flags + (2 ^ 32 - 2 ^ 16)

abbrev pub flag_is_set : ℕ → ℕ → Bool
flag_is_set bit flags = to_unsigned flags / 2 ^ bit % 2 == 1

-- The words behind the flags; IFF_LOWER_UP, bit 16, counts only if the headers define it.
pub data FlagWord : Type 0 where
  up running lower_up broadcast multicast : FlagWord

abbrev pub word_if : Bool → FlagWord → List FlagWord → List FlagWord
word_if true w ws = w ∷ ws
word_if false w ws = ws

unfoldable pub flag_words : Bool → ℕ → List FlagWord
flag_words has_lower_up flags = word_if (flag_is_set 0 flags) up (
    word_if (flag_is_set 6 flags) running (
      word_if (has_lower_up && flag_is_set 16 flags) lower_up
        (word_if (flag_is_set 1 flags) broadcast (word_if (flag_is_set 12 flags) multicast []))))

-- The texts of the addresses of the interface: an entry of `getifaddrs` has a name, and an address
-- if it has one, of some family and with the text that `inet_ntop` gives for it, if any.
pub record Ifaddr : Type 0 where
  pub ifa_name : List ℕ
  pub family : Option ℕ
  pub text : Option (List ℕ)

unfoldable pub ipv4_addresses : List ℕ → List Ifaddr → List (List ℕ)
ipv4_addresses ifname [] = []
ipv4_addresses ifname (ifa ∷ rest) =
    let later = ipv4_addresses ifname rest in
    elim ifa.family [
      | none ↦ later
      | some family ↦
          if not (str_eq ifa.ifa_name ifname)
          then later
          else if not (family == 2)
          then later
          else elim ifa.text [ none ↦ later | some text ↦ text ∷ later ]
    ]

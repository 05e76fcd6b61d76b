-- ===== src/NetMonitor/Main.antt =====
-- `main` of 3_net_monitor.c around its loop: the arguments, and what a round reads from the system.
use yocto_meta_hsiao.Base.{
  is_nonzero, ◌==◌, ◌⊎◌, ◌&&◌, ◌∷◌, ◌++◌, [], if◌then◌else◌, inl, inr, false, none, some, not, pos,
  neg, ℕ, ℤ, Bool, List, Option,
}
use yocto_meta_hsiao.Text.{codes}
use yocto_meta_hsiao.Text.Scan.{atoi}
use yocto_meta_hsiao.Text.Files.{File, missing, unreadable, contents, fgets, snprintf}
use yocto_meta_hsiao.Routes.{has_default_route}
use yocto_meta_hsiao.NetMonitor.{Ifaddr, PingAnswers, Round, Config, has_ipv4_address}

abbrev eio : ℕ
eio = 5

abbrev pub sysfs_path_max : ℕ
sysfs_path_max = 256

abbrev pub sysfs_path : List ℕ → List ℕ → List ℕ
sysfs_path ifname entry =
    snprintf sysfs_path_max (codes "/sys/class/net/" ++ (ifname ++ (b'/' ∷ entry)))

-- The value in a file, or the negated error number; `buf` has room for 31 bytes and a NUL. An empty
-- file, and one that cannot be read, are the same error.
unfoldable pub read_int : File → ℤ ⊎ ℤ
read_int (missing errno) = inl (neg errno)
read_int (unreadable errno) = inl (neg eio)
read_int (contents []) = inl (neg eio)
read_int (contents (c ∷ cs)) = inr (atoi (fgets 31 (c ∷ cs)).0)

-- `read_int_sysfs`, from the files of the system.
unfoldable pub read_int_sysfs : (List ℕ → File) → List ℕ → List ℕ → ℤ ⊎ ℤ
read_int_sysfs file ifname entry = read_int (file (sysfs_path ifname entry))

-- What the system answers in a round.
pub record Answers : Type 0 where
  pub file : List ℕ → File
  pub ifaddrs : Option (List Ifaddr)
  pub ping : PingAnswers

abbrev to_option : ℤ ⊎ ℤ → Option ℤ
to_option (inl error) = none
to_option (inr value) = some value

-- The round that they make.
abbrev pub round_of : Config → Answers → Round
round_of c a = record {
  carrier = to_option (read_int_sysfs a.file c.ifname (codes "carrier"));
  ifaddrs = a.ifaddrs;
  ping = a.ping;
}

-- The warning of a round that gets as far as to look at the routes.
unfoldable pub warns_no_route : Config → Answers → Bool
warns_no_route c a = elim (read_int_sysfs a.file c.ifname (codes "carrier")) [
  | inl error ↦ false
  | inr carrier ↦
      is_nonzero carrier
      && (has_ipv4_address c.ifname a.ifaddrs
          && not (has_default_route c.ifname (a.file (codes "/proc/net/route"))))
]

-- The variables of `main` that its arguments set.
pub record Arguments : Type 0 where
  pub ifname : List ℕ
  pub target_ip : List ℕ
  pub fail_threshold : ℤ
  pub timeout_ms : ℤ
  pub interval_sec : ℤ

abbrev default_arguments : List ℕ → List ℕ → Arguments
default_arguments ifname target_ip = record {
  ifname = ifname;
  target_ip = target_ip;
  fail_threshold = pos 3;
  timeout_ms = pos 1000;
  interval_sec = pos 5;
}

-- The arguments behind the program's name; `none`: too few or too many.
unfoldable pub arguments : List (List ℕ) → Option Arguments
arguments (ifname ∷ target ∷ []) = some (default_arguments ifname target)
arguments (ifname ∷ target ∷ fail ∷ []) =
    some (record (default_arguments ifname target) { fail_threshold = atoi fail })
arguments (ifname ∷ target ∷ fail ∷ timeout ∷ []) = some (record (default_arguments ifname target) {
  fail_threshold = atoi fail;
  timeout_ms = atoi timeout;
})
arguments (ifname ∷ target ∷ fail ∷ timeout ∷ interval ∷ []) =
    some (record (default_arguments ifname target) {
      fail_threshold = atoi fail;
      timeout_ms = atoi timeout;
      interval_sec = atoi interval;
    })
arguments _ = none

-- `main` up to its loop: the exit code, or the arguments and the index with which the loop, which
-- has no end, starts.
unfoldable pub net_monitor : (List ℕ → ℕ) → List (List ℕ) → ℕ ⊎ (Arguments × ℕ)
net_monitor if_nametoindex args = elim (arguments args) [
  | none ↦ inl 1
  | some a ↦ if if_nametoindex a.ifname == 0 then inl 1 else inr (a, if_nametoindex a.ifname)
]

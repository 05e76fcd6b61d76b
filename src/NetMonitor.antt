-- ===== src/NetMonitor.antt =====
-- recipes-app/ethernet/files/3_net_monitor.c, the program that pings a host and asks the watchdog driver to
-- restart the interface: its checksum, its tests of the interface, one ping and one round of its
-- loop. The answers of the system are values. `request_restart` and the line that it writes are
-- `restart_command` of Watchdog/Parse.antt.
use yocto_meta_hsiao.Base.{
  ℕ, zero, suc, ◌+◌, ◌-◌, ◌*◌, ◌/◌, ◌%◌, ◌^◌, Bool, true, false, not, ◌&&◌, List, [], ◌∷◌, Option,
  none, some, ltb, leb, ◌==◌, if◌then◌else◌, get_or, ℤ, pos, neg, ltb_ℤ, leb_ℤ, eqb_ℤ, is_neg,
  is_nonzero,
}
use yocto_meta_hsiao.Text.{str_eq}
pub mod Checksum
pub mod Ping
pub mod Restarts
pub mod Main
mod Tests

-- The sum of `checksum`: 16-bit words, the low byte first as on the i.MX93, and an odd last byte,
-- in 32 bits.
unfoldable pub sum_words : ℕ → List ℕ → ℕ
sum_words sum [] = sum
sum_words sum (a ∷ []) = (sum + a) % 2 ^ 32
sum_words sum (a ∷ b ∷ rest) = sum_words ((sum + (a + 256 * b)) % 2 ^ 32) rest

-- The two folds, and `~sum` in 16 bits.
unfoldable pub fold_sum : ℕ → ℕ
fold_sum sum =
    let once = (sum / 2 ^ 16 + sum % 2 ^ 16) % 2 ^ 32 in
    let twice = (once + once / 2 ^ 16) % 2 ^ 32 in 2 ^ 16 - 1 - twice % 2 ^ 16

-- `checksum`
unfoldable pub checksum : List ℕ → ℕ
checksum data_bytes = fold_sum (sum_words 0 data_bytes)

-- An entry of `getifaddrs`: its name, and the family of its address if it has one.
pub record Ifaddr : Type 0 where
  pub ifa_name : List ℕ
  pub family : Option ℕ

abbrev pub af_inet : ℕ
af_inet = 2

-- `has_ipv4_address`; `none` if `getifaddrs` fails.
unfoldable pub has_ipv4_address : List ℕ → Option (List Ifaddr) → Bool
has_ipv4_address ifname none = false
has_ipv4_address ifname (some []) = false
has_ipv4_address ifname (some (ifa ∷ rest)) =
    let later = has_ipv4_address ifname (some rest) in
    elim ifa.family [
      | none ↦ later
      | some family ↦
          if not (str_eq ifa.ifa_name ifname)
          then later
          else if family == af_inet
          then true
          else later
    ]

-- `send_ping_once`: what the system answers. `fd` and the results are -errno where the call fails;
-- `recvbuf` is the buffer after `recv` and `pid` what `getpid` gives.
pub record PingAnswers : Type 0 where
  pub fd : ℤ
  pub is_address : Bool
  pub sent : ℤ
  pub polled : ℤ
  pub n : ℤ
  pub recvbuf : List ℕ
  pub pid : ℕ

abbrev pub einval : ℕ
einval = 22

abbrev pub etimedout : ℕ
etimedout = 110

abbrev pub eagain : ℕ
eagain = 11

-- Two bytes in network order.
abbrev pub be16 : List ℕ → ℕ → ℕ
be16 bytes i = 256 * get_or bytes i 0 + get_or bytes (suc i) 0

-- The test of the reply: its type, identifier and sequence number.
unfoldable pub is_reply : List ℕ → ℕ → ℕ → Bool
is_reply recvbuf pid seq =
    let reply = get_or recvbuf 0 0 % 16 * 4 in
    get_or recvbuf reply 0 == 0
    && be16 recvbuf (reply + 4) == pid % 2 ^ 16
    && be16 recvbuf (reply + 6) == seq % 2 ^ 16

-- The sockets opened and closed.
pub data SocketCall : Type 0 where
  socket close : SocketCall

-- `send_ping_once`: its result and the calls on the socket.
unfoldable pub send_ping_once : PingAnswers → ℕ → ℤ × List SocketCall
send_ping_once a seq =
    if is_neg a.fd
    then (a.fd, [])
    else if not a.is_address
    then (neg einval, socket ∷ close ∷ [])
    else if is_neg a.sent
    then (a.sent, socket ∷ close ∷ [])
    else if leb_ℤ a.polled (pos 0)
    then (if is_nonzero a.polled then a.polled else neg etimedout, socket ∷ close ∷ [])
    else if ltb_ℤ a.n (pos 28)
    then (neg einval, socket ∷ close ∷ [])
    else if is_reply a.recvbuf a.pid seq
    then (pos 0, socket ∷ close ∷ [])
    else (neg eagain, socket ∷ close ∷ [])

-- What one round of the loop finds: the carrier, if sysfs has it, the interface's addresses, and
-- the answers to its ping.
pub record Round : Type 0 where
  pub carrier : Option ℤ
  pub ifaddrs : Option (List Ifaddr)
  pub ping : PingAnswers

-- The arguments of the program that the loop uses.
pub record Config : Type 0 where
  pub ifname : List ℕ
  pub fail_threshold : ℤ

pub record Monitor : Type 0 where
  pub fail_count : ℕ
  pub seq : ℕ

-- The end of a round from the count of failures: whether it requests a restart, and the loop's
-- state.
unfoldable pub finish_round : Config → ℕ → ℕ → Bool × Monitor
finish_round c fail_count seq =
    if leb_ℤ c.fail_threshold (pos fail_count)
    then (true, record { fail_count = 0; seq = seq })
    else (false, record { fail_count = fail_count; seq = seq })

-- One round of the loop in `main`.
unfoldable pub round : Config → Round → Monitor → Bool × Monitor
round c r m = elim r.carrier [
  | none ↦ (false, m)
  | some carrier ↦
      if not (is_nonzero carrier)
      then (false, record m { fail_count = 0 })
      else if not (has_ipv4_address c.ifname r.ifaddrs)
      then (false, record m { fail_count = 0 })
      else if is_nonzero (send_ping_once r.ping m.seq).0
      then finish_round c (suc m.fail_count) (suc m.seq)
      else finish_round c 0 (suc m.seq)
]

-- ===== src/NetMonitor/Tests.antt =====
-- The theorems on 3_net_monitor.c at concrete inputs.
use yocto_meta_hsiao.Base.{
  ℕ, ◌+◌, ◌*◌, ◌%◌, ◌/◌, ◌<◌, ◌≡◌, refl, List, [], ◌∷◌, true, some, none, pos, arith,
}
use yocto_meta_hsiao.NetMonitor.{
  checksum, PingAnswers, is_reply, send_ping_once, Config, Round, round,
}
use yocto_meta_hsiao.NetMonitor.{has_ipv4_address, finish_round, fold_sum, sum_words}
use yocto_meta_hsiao.Text.{str_eq}
use yocto_meta_hsiao.NetMonitor.Checksum.{checksum-verifies}
use yocto_meta_hsiao.NetMonitor.Restarts.{after, streak, restarts, requests-counted}

-- The header of an echo request with identifier 0x1234 and sequence number 1.
abbrev echo : List ℕ
echo = 0x12 ∷ 0x34 ∷ 0 ∷ 1 ∷ []

checksum-verifies_example :
    let c = checksum (8 ∷ 0 ∷ 0 ∷ 0 ∷ echo) in checksum (8 ∷ 0 ∷ c % 256 ∷ c / 256 ∷ echo) ≡ 0
checksum-verifies_example =
    checksum-verifies 8 0 echo
      (omega arith, (omega arith, (omega arith, (omega arith, (omega arith, (omega arith, tt))))))
      (omega arith)

-- The checksum of that header.
echo-checksum : checksum (8 ∷ 0 ∷ 0 ∷ 0 ∷ echo) ≡ 0xCAE5
unfolding checksum fold_sum sum_words
echo-checksum = refl

-- An answer in an IP packet without options.
abbrev answered : PingAnswers
answered = record {
  fd = pos 3;
  is_address = true;
  sent = pos 8;
  polled = pos 1;
  n = pos 28;
  recvbuf =
      0x45 ∷ 0 ∷ 0 ∷ 0 ∷ 0 ∷ 0 ∷ 0 ∷ 0 ∷ 0 ∷ 0 ∷ 0 ∷ 0 ∷ 0 ∷ 0 ∷ 0 ∷ 0 ∷ 0 ∷ 0 ∷ 0 ∷ 0 ∷ 0 ∷ 0 ∷ 0
      ∷ 0 ∷ echo;
  pid = 0x1234;
}

answered_reply : is_reply answered.recvbuf answered.pid 1 ≡ true
unfolding is_reply
answered_reply = refl

abbrev eth1 : List ℕ
eth1 = 101 ∷ 116 ∷ 104 ∷ 49 ∷ []

abbrev config : Config
config = record { ifname = eth1; fail_threshold = pos 2 }

-- The carrier is up, the address is there, and no answer comes.
abbrev silent : Round
silent = record {
  carrier = some (pos 1);
  ifaddrs = some (record { ifa_name = eth1; family = some 2 } ∷ []);
  ping = record answered { polled = pos 0 };
}

abbrev no_carrier_state : Round
no_carrier_state = record silent { carrier = none }

abbrev rounds : List Round
rounds = silent ∷ silent ∷ no_carrier_state ∷ silent ∷ []

requests-counted_example :
    (streak config rounds ≡ restarts config rounds * 2 + (after config rounds).fail_count)
    × ((after config rounds).fail_count < 2)
requests-counted_example = requests-counted config 2 refl (omega arith) rounds

-- Three failures, the threshold 2: one restart.
counted_rounds :
    (streak config rounds ≡ 3)
    × (restarts config rounds ≡ 1)
    × ((after config rounds).fail_count ≡ 1)
unfolding round has_ipv4_address str_eq send_ping_once finish_round
counted_rounds = (refl, refl, refl)

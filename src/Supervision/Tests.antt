-- ===== src/Supervision/Tests.antt =====
-- The theorem on the monitor with the driver at a concrete run: a threshold of 2, a cooldown of 5 s,
-- an interval of 5 s, 100 jiffies in a second.
use yocto_meta_hsiao.Base.{
  ◌+◌, ◌*◌, ◌<◌, ◌≡◌, ◌∷◌, [], refl, Bool, true, false, some, pos, neg, arith, ℕ, List, length, All,
}
use yocto_meta_hsiao.Text.{codes}
use yocto_meta_hsiao.NetMonitor.{
  Config, Round, round, has_ipv4_address, send_ping_once, finish_round,
}
use yocto_meta_hsiao.Text.{str_eq}
use yocto_meta_hsiao.Watchdog.Parse.{restart_command}
use yocto_meta_hsiao.Supervision.{beat, Beat, Pair, results}
use yocto_meta_hsiao.Supervision.Accepts.{Granted, Outage, supervised}

abbrev config : Config
config = record { ifname = codes "eth1"; fail_threshold = pos 2 }

-- No socket can be made, so each ping fails.
abbrev no_socket : Round
no_socket = record {
  carrier = some (pos 1);
  ifaddrs = some (record { ifa_name = codes "eth1"; family = some 2 } ∷ []);
  ping = record {
    fd = neg 1;
    is_address = true;
    sent = pos 0;
    polled = pos 0;
    n = pos 0;
    recvbuf = [];
    pid = 1;
  };
}

abbrev at_time : ℕ → Beat
at_time t = record {
  found = no_socket;
  opened = true;
  capable = true;
  copies = true;
  at = t;
  stamp = t;
  device = some true;
}

abbrev fresh : Pair
fresh = record {
  monitor = record { fail_count = 0; seq = 0 };
  driver = record { busy = 0; ifindex = pos 0; last_request = 0; pending = false };
}

abbrev run : List Beat
run = at_time 1000 ∷ at_time 1500 ∷ at_time 3000 ∷ at_time 3500 ∷ []

run-Granted : All (Granted 500 config 2 (omega arith) (omega arith)) run
run-Granted = (granted, (granted, (granted, (granted, tt))))
  where
    granted : (◌≡◌ {A = Bool} true true) × (◌≡◌ {A = Bool} true true) × (◌≡◌ {A = Bool} true true)
    granted = (refl, refl, refl)

supervised_example :
    All (λ ret. ret ≡ pos (length (restart_command 2))) (results 500 config 2 run fresh)
    × (0 < 2
        → Outage 500 config 2 (omega arith) (omega arith) run fresh.monitor
        → (left : ℕ) × (left < 2) × (4 + 0 ≡ length (results 500 config 2 run fresh) * 2 + left))
unfolding round has_ipv4_address str_eq send_ping_once finish_round
supervised_example =
    supervised 500 config 2 (omega arith) (omega arith) 2 refl (omega arith) 500 1000 run fresh
      (omega arith) (record { free = refl; unqueued = refl }) (omega arith) (omega arith)
      run-Granted

run-Outage : Outage 500 config 2 (omega arith) (omega arith) run fresh.monitor
unfolding round has_ipv4_address str_eq send_ping_once finish_round
run-Outage = (refl, (refl, (refl, (refl, tt))))

-- Two of the four rounds request a restart.
run_requests : length (results 500 config 2 run fresh) ≡ 2
unfolding results beat round has_ipv4_address str_eq send_ping_once finish_round
run_requests = refl

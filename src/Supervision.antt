-- ===== src/Supervision.antt =====
-- The monitor recipes-app/ethernet/files/3_net_monitor.c together with the driver
-- recipes-kernel/ethernet/files/3_net_watchdog.c: the requests of the monitor's rounds as writes to
-- the driver, whose work runs before the next round.
use yocto_meta_hsiao.Base.{
  ◌+◌, ◌*◌, ◌^◌, ◌≤◌, ◌<◌, ◌∷◌, [], if◌then◌else◌, ◌&&◌, none, some, ℕ, ℤ, Bool, List, Option,
  length,
}
use yocto_meta_hsiao.NetMonitor.{Config, Round, Monitor, round}
use yocto_meta_hsiao.Watchdog.{Request, RestartContext, net_watchdog_write}
use yocto_meta_hsiao.Watchdog.Parse.{restart_command}
use yocto_meta_hsiao.Watchdog.Cooldown.{run_work}
pub mod Accepts
mod Tests

-- A round: what it finds, whether the `fopen` of `request_restart` succeeds, whether the monitor has
-- CAP_NET_ADMIN, whether `copy_from_user` succeeds, `jiffies` where the driver tests the cooldown and
-- where it stamps the request, and the interface that the work finds, if any.
pub record Beat : Type 0 where
  pub found : Round
  pub opened : Bool
  pub capable : Bool
  pub copies : Bool
  pub at : ℕ
  pub stamp : ℕ
  pub device : Option Bool

-- The monitor and the driver.
pub record Pair : Type 0 where
  pub monitor : Monitor
  pub driver : RestartContext

-- The driver's cooldown, and the monitor's configuration and index.
module _ (cooldown : ℕ) (c : Config) (ifindex : ℕ) where
  -- `request_restart` as the driver sees it, once `fopen` has succeeded: the buffered text is one
  -- write.
  abbrev pub request_of : Beat → Request
  request_of b = record {
    capable = b.capable;
    len = length (restart_command ifindex);
    copied = if b.copies then some (restart_command ifindex) else none;
    jiffies = b.at;
    stamp = b.stamp;
    cooldown = cooldown;
  }

  -- Does the round request a restart?
  abbrev pub asks : Beat → Monitor → Bool
  asks b m = (round c b.found m).0

  -- Does the request get to the driver? Where `fopen` fails, the monitor prints so and goes on.
  abbrev pub sends : Beat → Monitor → Bool
  sends b m = asks b m && b.opened

  -- The pair after a round and the work.
  unfoldable pub beat : Beat → Pair → Pair
  beat b p =
      let asked = (net_watchdog_write (request_of b) p.driver).1 in
      record {
        monitor = (round c b.found p.monitor).1;
        driver = run_work b.device (if sends b p.monitor then asked else p.driver);
      }

  -- What the driver returns for the requests of a run that get to it, in order; the monitor does not
  -- look at it.
  unfoldable pub results : List Beat → Pair → List ℤ
  results [] p = []
  results (b ∷ bs) p =
      let ret = (net_watchdog_write (request_of b) p.driver).0 in
      let later = results bs (beat b p) in if sends b p.monitor then ret ∷ later else later

  -- The rounds' times: none before `earliest`, and behind each the sleeps of the loop, `gap` long
  -- and three times as long if it requested a restart.
  abbrev pub Paced : ℕ → ℕ → List Beat → Monitor → Type 0
  Paced gap earliest [] m = Unit {0}
  Paced gap earliest (b ∷ bs) m =
      (earliest ≤ b.at)
      × (b.at ≤ b.stamp)
      × (b.stamp < 2 ^ 62)
      × Paced gap (b.stamp + (if asks b m then 3 * gap else gap)) bs (round c b.found m).1

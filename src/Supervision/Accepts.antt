-- ===== src/Supervision/Accepts.antt =====
-- No request of the monitor is lost.
use yocto_meta_hsiao.Base.{
  suc, ap, Bool-cases, ◌*◌, ◌==◌, ◌||◌, ◌∷◌, [], if◌then◌else◌, inl, inr, List, All, leb, ◌+◌, ◌^◌,
  ◌≤◌, ◌<◌, ◌≡◌, ◌∙◌, ◌&&◌, refl, true, false, some, pos, arith, ℕ, length, ltb,
}
use yocto_meta_hsiao.NetMonitor.Restarts.{meaning, failed, round_failed, finish_lem}
use yocto_meta_hsiao.NetMonitor.{Monitor, finish_round, Config, round}
use yocto_meta_hsiao.Watchdog.{
  RestartContext, parse_restart_command, net_watchdog_write, cmd_max_len,
}
use yocto_meta_hsiao.Watchdog.Parse.{restart_command, parse-restart_command, restart_command_some}
use yocto_meta_hsiao.Watchdog.Branches.{Idle, claimed_by, write_accepts}
use yocto_meta_hsiao.Watchdog.Cooldown.{run_work-Idle, run_work_none, cooled_down}
use yocto_meta_hsiao.Supervision.{Beat, Pair, request_of, asks, sends, beat, results, Paced}

module _ (cooldown : ℕ) (c : Config) (n : ℕ) (valid : 0 < n) (in_range : n < 2 ^ 31) where
  is_valid : (ltb 0 n && ltb n (2 ^ 31)) ≡ true
  is_valid = ground arith

  parsed : parse_restart_command (restart_command n) ≡ some (pos n)
  parsed = (parse-restart_command n (omega arith)).0 ∙ (rw is_valid refl)

  -- The round's `fopen` and `copy_from_user` succeed, and the monitor has CAP_NET_ADMIN.
  abbrev pub Granted : Beat → Type 0
  Granted b = (b.opened ≡ true) × (b.capable ≡ true) × (b.copies ≡ true)

  sends_it :
      (b : Beat) (m : Monitor)
      → asks cooldown c n b m ≡ true
      → Granted b
      → sends cooldown c n b m ≡ true
  sends_it b m asked granted = rw (asked, granted.0) refl

  -- A request when nothing is in progress and the cooldown is over.
  accepts :
      (b : Beat) (d : RestartContext)
      → Granted b
      → Idle d
      → d.last_request + cooldown ≤ b.at
      → b.at < 2 ^ 62
      → net_watchdog_write (request_of cooldown c n b) d
        ≡ (pos (length (restart_command n)), claimed_by (request_of cooldown c n b) (pos n))
  accepts b d granted idle over early =
      let r = request_of cooldown c n b in
      let short = (parse-restart_command n (omega arith)).1 in
      let good : (r.len == 0 || leb cmd_max_len r.len) ≡ false =
        ground (arith, short, restart_command_some n) in
      write_accepts r d (restart_command n) (pos n) granted.1 good (rw (granted.2) refl) parsed
        (cooled_down r d over early) idle

  -- The driver after a round: idle, and its cooldown over at the end of the sleeps that follow.
  abbrev Ready : ℕ → RestartContext → Type 0
  Ready earliest d = Idle d × (d.last_request + cooldown ≤ earliest)

  beat-Ready :
      (gap earliest : ℕ) (b : Beat) (p : Pair)
      → Granted b
      → cooldown ≤ 3 * gap
      → Ready earliest p.driver
      → earliest ≤ b.at
      → b.at ≤ b.stamp
      → b.stamp < 2 ^ 62
      → Ready
          (b.stamp + (if asks cooldown c n b p.monitor then 3 * gap else gap))
          (beat cooldown c n b p).driver
  unfolding beat
  beat-Ready gap earliest b p granted slow (idle, over) le stamped early =
      elim (Bool-cases (asks cooldown c n b p.monitor)) [
        | inl asked ↦
            (let done = run_work-Idle b.device (request_of cooldown c n b) (pos n) in
              rw
                (
                  sends_it b p.monitor asked granted,
                  accepts b p.driver granted idle (omega arith) (omega arith),
                )
                (done.0, rw (done.1, asked) (omega arith)))
        | inr quiet ↦ rw (quiet, run_work_none b.device p.driver idle) (idle, omega arith)
      ]

  beat-monitor :
      (b : Beat) (p : Pair) → (beat cooldown c n b p).monitor ≡ (round c b.found p.monitor).1
  unfolding beat
  beat-monitor b p = refl

  -- Every request of a run is accepted.
  results-accepted :
      (gap earliest : ℕ) (bs : List Beat) (p : Pair)
      → cooldown ≤ 3 * gap
      → Idle p.driver
      → p.driver.last_request + cooldown ≤ earliest
      → Paced cooldown c n gap earliest bs p.monitor
      → All Granted bs
      → All (λ ret. ret ≡ pos (length (restart_command n))) (results cooldown c n bs p)
  unfolding results
  results-accepted gap earliest [] p slow idle over paced granted = tt
  results-accepted gap earliest (b ∷ bs) p slow idle over (le, stamped, early, later)
        (granted, all) =
      let (idle', over') = beat-Ready gap earliest b p granted slow (idle, over) le stamped early in
      let rest =
        results-accepted gap (b.stamp + (if asks cooldown c n b p.monitor then 3 * gap else gap)) bs
          (beat cooldown c n b p) slow idle' over' (rw (beat-monitor b p) later) all in
      elim (Bool-cases (asks cooldown c n b p.monitor)) [
        | inl asked ↦
            rw (sends_it b p.monitor asked granted)
              (ap (λ x. x.0) (accepts b p.driver granted idle (omega arith) (omega arith)), rest)
        | inr quiet ↦ rw quiet rest
      ]

  -- Every ping of the run fails, with the carrier up and an address there.
  abbrev pub Outage : List Beat → Monitor → Type 0
  Outage [] m = Unit {0}
  Outage (b ∷ bs) m = (meaning c b.found m.seq ≡ failed) × Outage bs (round c b.found m).1

  module _ (t : ℕ) (threshold : c.fail_threshold ≡ pos t) (positive : 0 < t) where
    -- In an outage one round of each `t` requests a restart.
    results-Outage :
        (bs : List Beat) (p : Pair)
        → All Granted bs
        → p.monitor.fail_count < t
        → Outage bs p.monitor
        → (left : ℕ) × (left < t)
          × (length bs + p.monitor.fail_count ≡ length (results cooldown c n bs p) * t + left)
    unfolding results
    results-Outage [] p granted below out = (p.monitor.fail_count, below, omega arith)
    results-Outage (b ∷ bs) p (granted, all) below (fails, out) =
        let m = p.monitor in
        let e = round_failed c t threshold positive b.found m fails in
        let q = beat cooldown c n b p in
        let same = beat-monitor b p in
        let now : q.monitor.fail_count
            ≡ (finish_round c (suc m.fail_count) (suc m.seq)).1.fail_count =
          ap (λ k. k.fail_count) same ∙ ap (λ x. x.1.fail_count) e in
        elim (finish_lem c t threshold positive m.fail_count (suc m.seq) below) [
          | inl (request, full, zeroed) ↦
              (let asked : asks cooldown c n b m ≡ true = ap (λ x. x.0) e ∙ request in
                let (left, room, count) =
                  results-Outage bs q all (omega (arith, now, zeroed)) (rw same out) in
                rw (sends_it b m asked granted)
                  (left, room, grind (arith, count, now, zeroed, full)))
          | inr (quiet, room, counted) ↦
              (let silent : asks cooldown c n b m ≡ false = ap (λ x. x.0) e ∙ quiet in
                let (left, fits, count) =
                  results-Outage bs q all (omega (arith, now, counted)) (rw same out) in
                rw silent (left, fits, omega (arith, count, now, counted)))
        ]

    -- The monitor and the driver together, for a threshold that is positive, an index that the
    -- driver takes and a cooldown of at most three sleeps of the loop: if the driver is idle and its
    -- cooldown over before the first round, its work runs before the next round, all times are
    -- below 2 ^ 62, the device can be opened and the command copied in each round, and the monitor
    -- has CAP_NET_ADMIN, then the driver accepts every restart that the monitor requests. If,
    -- besides, the count of failures starts below the threshold and all rounds find the carrier and
    -- an address but no answer, then one round of each `t` requests one.
    pub supervised :
        (gap earliest : ℕ) (bs : List Beat) (p : Pair)
        → cooldown ≤ 3 * gap
        → Idle p.driver
        → p.driver.last_request + cooldown ≤ earliest
        → Paced cooldown c n gap earliest bs p.monitor
        → All Granted bs
        → All (λ ret. ret ≡ pos (length (restart_command n))) (results cooldown c n bs p)
          × (p.monitor.fail_count < t
              → Outage bs p.monitor
              → (left : ℕ) × (left < t)
                × (length bs + p.monitor.fail_count
                    ≡ length (results cooldown c n bs p) * t + left))
    supervised gap earliest bs p slow idle over paced granted = (
      results-accepted gap earliest bs p slow idle over paced granted,
      results-Outage bs p granted,
    )

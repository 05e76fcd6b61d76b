-- ===== src/Watchdog/Tests.antt =====
-- The theorems on 3_net_watchdog.c at concrete inputs.
use native.Mathlib.Decide.{ℕ_discrete}
use yocto_meta_hsiao.Base.{
  List, ◌++◌, update, ℤ, ℕ, ◌<◌, ◌≡◌, ◌≢◌, refl, ◌⊎◌, ◌↔◌, true, false, [], ◌∷◌, none, some, length,
  pos, arith,
}
use yocto_meta_hsiao.Text.{codes, c_string, is_space, is_digit, skip_spaces, word, scan_int, str_eq}
use yocto_meta_hsiao.Watchdog.{
  Request, RestartContext, cmd_max_len, reset_word, parse_restart_command, net_watchdog_write,
  submit, net_watchdog_restart_work, init_context, dev_get_by_index, rtnl_lock, rtnl_unlock,
  dev_close, dev_open, dev_put,
}
use yocto_meta_hsiao.Watchdog.Parse.{restart_command, parse-restart_command}
use yocto_meta_hsiao.Watchdog.Grammar.{IsCommand}
use yocto_meta_hsiao.Watchdog.Grammar.Accepts.{parse_iff}
use yocto_meta_hsiao.Watchdog.Branches.{Refused, Accepted, write-ends}
use yocto_meta_hsiao.Watchdog.Cooldown.{request, work, accepted, Spaced, accepted-Spaced}
use yocto_meta_hsiao.Watchdog.Race.{
  Run, System, idle, asleep, checked, Reach, start, next, check, claim, claimed, publish, published,
  stamp, stamped, queue, take, restarting,
}
use yocto_meta_hsiao.Watchdog.Race.Invariant.{owns, one_in_progress}
use yocto_meta_hsiao.Watchdog.Race.Progress.{accepted-restarted}
use yocto_meta_hsiao.Watchdog.Race.Exact.{indices, ongoing, restarts-IsExact}
use yocto_meta_hsiao.Watchdog.Race.Alone.{alone-submit}

abbrev init : RestartContext
init = record { busy = 0; ifindex = pos 0; last_request = 0; pending = false }

-- " RESET -7" is no command, "RESET\t12x" is.
commands :
    (parse_restart_command (b' ' ∷ (reset_word ++ (b' ' ∷ b'-' ∷ b'7' ∷ []))) ≡ none)
    × (parse_restart_command (reset_word ++ (9 ∷ b'1' ∷ b'2' ∷ b'x' ∷ [])) ≡ some (pos 12))
unfolding parse_restart_command c_string is_space is_digit skip_spaces word scan_int str_eq
commands = (refl, refl)

-- The running interface is closed and opened again under the RTNL lock.
work_restarts :
    net_watchdog_restart_work (some true) (record init { busy = 1; ifindex = pos 4 }) ≡ (
      dev_get_by_index (pos 4) ∷ rtnl_lock ∷ dev_close ∷ dev_open ∷ rtnl_unlock ∷ dev_put ∷ [],
      record init { busy = 0; ifindex = pos 4 },
    )
unfolding net_watchdog_restart_work init_context
work_restarts = refl

abbrev restart_4 : Request
restart_4 = record {
  capable = true;
  len = 10;
  copied = some (restart_command 4);
  jiffies = 9000;
  stamp = 9001;
  cooldown = 500;
}

-- A minus sign is no obstacle: -4294967289 is 7 modulo 2 ^ 32.
abbrev reset_7 : List ℕ
reset_7 = reset_word ++ (b' ' ∷ codes "-4294967289")

parse_iff_example :
    (parse_restart_command reset_7 ≡ some (pos 7))
    ↔ ((n : ℕ) × (pos 7 ≡ pos n) × IsCommand (c_string reset_7) n)
parse_iff_example = parse_iff reset_7 (pos 7)

reset_7_parses : parse_restart_command reset_7 ≡ some (pos 7)
unfolding parse_restart_command c_string is_space is_digit skip_spaces word scan_int str_eq
reset_7_parses = refl

parse-restart_command_example :
    (parse_restart_command (restart_command 4) ≡ some (pos 4))
    × (length (restart_command 4) < cmd_max_len)
parse-restart_command_example = parse-restart_command 4 (omega arith)

write-ends_example :
    Refused init (net_watchdog_write restart_4 init)
    ⊎ Accepted restart_4 init (net_watchdog_write restart_4 init)
write-ends_example = write-ends restart_4 init (λ e. cc)

accepted-Spaced_example :
    Spaced 0 (accepted init (request restart_4 ∷ work (some true) ∷ request restart_4 ∷ []))
accepted-Spaced_example =
    accepted-Spaced (request restart_4 ∷ work (some true) ∷ request restart_4 ∷ []) init (λ e. cc)
      (omega arith)
      ((omega arith, omega arith, omega arith), (tt, ((omega arith, omega arith, omega arith), tt)))

abbrev begun : System
begun = record {
  ctx = init;
  pc = update (λ i. idle) 0 (checked restart_4 (pos 4));
  worker = asleep;
  accepted = [];
  restarted = [];
}

begun-Reach : Reach begun
unfolding init_context
begun-Reach = next start (check 0 restart_4 (pos 4) refl refl)

one_in_progress_example :
    ((i j : ℕ) → owns (begun.pc i) ≡ true → owns (begun.pc j) ≡ true → i ≡ j)
    × ((i : ℕ) → owns (begun.pc i) ≡ true → (begun.ctx.pending ≡ false) × (begun.worker ≡ asleep))
    × (begun.ctx.pending ≡ true → begun.worker ≡ asleep)
one_in_progress_example = one_in_progress begun-Reach

-- The first request is submitted, and the worker has taken the work off the queue.
abbrev taken : System
taken = record {
  ctx = record { busy = 1; ifindex = pos 4; last_request = 9001; pending = false };
  pc =
      update
        (update
          (update
            (update (update (λ i. idle) 0 (checked restart_4 (pos 4))) 0
              (claimed restart_4 (pos 4)))
            0 (published restart_4 (pos 4)))
          0 (stamped restart_4 (pos 4)))
        0 idle;
  worker = restarting (pos 4);
  accepted = (restart_4, pos 4) ∷ [];
  restarted = [];
}

taken-Reach : Reach taken
unfolding ℕ_discrete
taken-Reach =
    next
      (next
        (next
          (next (next begun-Reach (claim 0 restart_4 (pos 4) refl refl))
            (publish 0 restart_4 (pos 4) refl))
          (stamp 0 restart_4 (pos 4) refl))
        (queue 0 restart_4 (pos 4) refl refl))
      (take refl refl)

restarts-IsExact_example :
    indices taken.accepted
    ≡ ongoing taken.ctx.pending taken.ctx.ifindex taken.worker ++ taken.restarted
restarts-IsExact_example = restarts-IsExact taken-Reach

alone-submit_example :
    (t : System) × Run begun t
    × (t.pc 0 ≡ idle)
    × ((j : ℕ) → 0 ≢ j → t.pc j ≡ begun.pc j)
    × (t.worker ≡ begun.worker)
    × (t.restarted ≡ begun.restarted)
    × (t.ctx ≡ (submit restart_4 (pos 4) begun.ctx).1)
    × (t.accepted ≡ (restart_4, pos 4) ∷ [])
unfolding ℕ_discrete
alone-submit_example = alone-submit 0 restart_4 (pos 4) begun-Reach refl

accepted-restarted_example :
    (t : System) × (log : List (Request × ℤ)) × Run taken t
    × (t.ctx.busy ≡ 0)
    × (t.ctx.pending ≡ false)
    × (t.worker ≡ asleep)
    × (t.accepted ≡ log ++ taken.accepted)
    × (t.restarted ≡ indices t.accepted)
accepted-restarted_example = accepted-restarted taken-Reach

-- ===== src/Watchdog.antt =====
-- recipes-kernel/ethernet/files/3_net_watchdog.c: the command parser, the write handler of
-- /dev/net_watchdog and the work that restarts an interface. What the kernel answers is
-- part of the request; the device's creation is in Registration/Unwind.antt.
pub mod Parse
pub mod Grammar
pub mod Branches
pub mod Cooldown
pub mod Race
mod Tests
use yocto_meta_hsiao.Base.{
  ℕ, zero, suc, ◌+◌, ◌-◌, ◌%◌, ◌^◌, Bool, true, false, not, ◌&&◌, ◌||◌, List, [], ◌∷◌, Option, none,
  some, ltb, leb, ◌==◌, if◌then◌else◌, ℤ, pos, neg, leb_ℤ, is_nonzero,
}
use yocto_meta_hsiao.Text.{c_string, skip_spaces, word, scan_int, str_eq}

abbrev pub cmd_max_len : ℕ
cmd_max_len = 64

abbrev pub eperm : ℕ
eperm = 1

abbrev pub eagain : ℕ
eagain = 11

abbrev pub efault : ℕ
efault = 14

abbrev pub ebusy : ℕ
ebusy = 16

abbrev pub einval : ℕ
einval = 22

abbrev pub restart_word : List ℕ
restart_word = b'R' ∷ b'E' ∷ b'S' ∷ b'T' ∷ b'A' ∷ b'R' ∷ b'T' ∷ []

abbrev pub reset_word : List ℕ
reset_word = b'R' ∷ b'E' ∷ b'S' ∷ b'E' ∷ b'T' ∷ []

abbrev pub scan_number : List ℕ → Option ℤ → Option (List ℕ × ℤ)
scan_number action none = none
scan_number action (some n) = some (action, n)

abbrev pub scan_fields : List ℕ × List ℕ → Option (List ℕ × ℤ)
scan_fields (action, rest) = scan_number action (scan_int (skip_spaces rest))

-- `sscanf(buf, "%15s %d", action, &parsed_ifindex)`: both fields, or `none` if it does not return 2.
abbrev pub scan_command : List ℕ → Option (List ℕ × ℤ)
scan_command [] = none
scan_command (c ∷ cs) = scan_fields (word 15 (skip_spaces (c ∷ cs)))

-- The checks on the two fields; `none` stands for -EINVAL.
abbrev pub check_command : Option (List ℕ × ℤ) → Option ℤ
check_command none = none
check_command (some (action, n)) =
    if not (str_eq action restart_word) && not (str_eq action reset_word)
    then none
    else if leb_ℤ n (pos 0)
    then none
    else some n

-- `parse_restart_command(buf, &ifindex)`: the index it stores if it returns 0.
pub parse_restart_command : List ℕ → Option ℤ
parse_restart_command buf = check_command (scan_command (c_string buf))

-- `struct restart_context`; `pending` says whether `work` is on the queue.
pub record RestartContext : Type 0 where
  pub busy : ℕ
  pub ifindex : ℤ
  pub last_request : ℕ
  pub pending : Bool

-- What the kernel answers during one write: CAP_NET_ADMIN, the bytes that `copy_from_user` copies
-- (`none` if it fails), `jiffies` where the cooldown is tested and where the request is stamped,
-- and `msecs_to_jiffies(cooldown_ms)`.
pub record Request : Type 0 where
  pub capable : Bool
  pub len : ℕ
  pub copied : Option (List ℕ)
  pub jiffies : ℕ
  pub stamp : ℕ
  pub cooldown : ℕ

-- `time_before(a, b)` on 64-bit `unsigned long`s: `(long)(a - b) < 0`.
abbrev pub time_before : ℕ → ℕ → Bool
time_before a b = leb (2 ^ 63) ((a + 2 ^ 64 - b % 2 ^ 64) % 2 ^ 64)

abbrev pub cooling : Request → RestartContext → Bool
cooling r c = time_before r.jiffies (c.last_request + r.cooldown)

-- `queue_work`: whether the work was not on the queue already, and is now.
abbrev pub queue_work : RestartContext → Bool × RestartContext
queue_work c = (not c.pending, record c { pending = true })

-- After the cooldown test: claim `busy`, publish the request, and queue the work.
unfoldable pub submit : Request → ℤ → RestartContext → ℤ × RestartContext
submit r n c =
    if not (c.busy == 0)
    then (neg ebusy, c)
    else (let c' = record c { busy = 1; ifindex = n; last_request = r.stamp } in
        let (queued, c'') = queue_work c' in
        if queued then (pos r.len, c'') else (neg ebusy, record c'' { busy = 0 }))

-- `net_watchdog_write` with the command's parse result.
pub write_parsed : Request → Option ℤ → RestartContext → ℤ × RestartContext
unfolding submit
write_parsed r none c = (neg einval, c)
write_parsed r (some n) c = if cooling r c then (neg eagain, c) else submit r n c

pub write_copied : Request → Option (List ℕ) → RestartContext → ℤ × RestartContext
unfolding write_parsed
write_copied r none c = (neg efault, c)
write_copied r (some bytes) c = write_parsed r (parse_restart_command bytes) c

-- `net_watchdog_write(file, ubuf, len, ppos)`
pub net_watchdog_write : Request → RestartContext → ℤ × RestartContext
unfolding write_copied
net_watchdog_write r c =
    if not r.capable
    then (neg eperm, c)
    else if r.len == 0 || leb cmd_max_len r.len
    then (neg einval, c)
    else write_copied r r.copied c

-- The interface that the work restarts: the calls that it makes, given whether the index names a
-- device, whether that runs, and what `dev_open` returns.
pub data WorkCall : Type 0 where
  dev_get_by_index : ℤ → WorkCall
  rtnl_lock rtnl_unlock dev_close dev_open dev_put : WorkCall

abbrev pub restart_calls : Bool → List WorkCall
restart_calls running =
    if running
    then rtnl_lock ∷ dev_close ∷ dev_open ∷ rtnl_unlock ∷ dev_put ∷ []
    else rtnl_lock ∷ dev_open ∷ rtnl_unlock ∷ dev_put ∷ []

-- `net_watchdog_restart_work`: its calls in order, and the context afterwards. The result of
-- `dev_open` is only printed. `found` is `none` if no device has the index.
pub net_watchdog_restart_work : Option Bool → RestartContext → List WorkCall × RestartContext
net_watchdog_restart_work none c = (dev_get_by_index c.ifindex ∷ [], record c { busy = 0 })
net_watchdog_restart_work (some running) c =
    (dev_get_by_index c.ifindex ∷ restart_calls running, record c { busy = 0 })

-- `net_watchdog_init`'s part on the context.
pub init_context : RestartContext
init_context = record { busy = 0; ifindex = pos 0; last_request = 0; pending = false }

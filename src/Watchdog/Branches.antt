-- ===== src/Watchdog/Branches.antt =====
-- How a write to /dev/net_watchdog ends: `net_watchdog_write` of 3_net_watchdog.c.
use yocto_meta_hsiao.Base.{
  ◌∙◌, ℕ, ◌<◌, ◌≡◌, refl, ◌⊎◌, inl, inr, true, false, List, leb, not, ◌&&◌, ◌||◌, Bool-cases,
  Option, none, some, ◌==◌, ℤ, pos, is_neg, arith,
}
use yocto_meta_hsiao.Watchdog.{
  Request, RestartContext, cooling, cmd_max_len, parse_restart_command, submit, write_parsed,
  write_copied, net_watchdog_write,
}

-- While the work is on the queue, `busy` is set.
abbrev pub QueueOwned : RestartContext → Type 0
QueueOwned c = c.pending ≡ true → (c.busy == 0) ≡ false

-- A context that a request for the index `n` has claimed and queued.
abbrev pub claimed_by : Request → ℤ → RestartContext
claimed_by r n = record { busy = 1; ifindex = n; last_request = r.stamp; pending = true }

-- A write that is refused: a negative result, and nothing has changed.
abbrev pub Refused : RestartContext → ℤ × RestartContext → Type 0
Refused c (ret, c') = (is_neg ret ≡ true) × (c' ≡ c)

-- A write that is accepted: the caller may restart interfaces, the length is within the buffer, the
-- bytes are a command for `n`, the cooldown is over, nothing is in progress, and the request is
-- claimed, published and queued.
abbrev pub Accepted : Request → RestartContext → ℤ × RestartContext → Type 0
Accepted r c (ret, c') =
    (n : ℤ) × (bytes : List ℕ) × (r.copied ≡ some bytes)
    × (parse_restart_command bytes ≡ some n)
    × (r.capable ≡ true)
    × ((0 < r.len) × (r.len < cmd_max_len))
    × (cooling r c ≡ false)
    × (c.busy ≡ 0)
    × (ret ≡ pos r.len)
    × (c' ≡ claimed_by r n)

abbrev SubmitEnds : Request → ℤ → RestartContext → ℤ × RestartContext → Type 0
SubmitEnds r n c (ret, c') =
    Refused c (ret, c') ⊎ ((c.busy ≡ 0) × (ret ≡ pos r.len) × (c' ≡ claimed_by r n))

submit_ends :
    (r : Request) (n : ℤ) (c : RestartContext) → QueueOwned c → SubmitEnds r n c (submit r n c)
unfolding submit
submit_ends r n c q = ground arith

abbrev ParsedEnds : Request → Option ℤ → RestartContext → ℤ × RestartContext → Type 0
ParsedEnds r m c (ret, c') =
    Refused c (ret, c')
    ⊎ ((n : ℤ) × (m ≡ some n)
        × (cooling r c ≡ false)
        × (c.busy ≡ 0)
        × (ret ≡ pos r.len)
        × (c' ≡ claimed_by r n))

write_parsed_ends :
    (r : Request) (m : Option ℤ) (c : RestartContext)
    → QueueOwned c
    → ParsedEnds r m c (write_parsed r m c)
unfolding write_parsed
write_parsed_ends r none c q = inl (refl, refl)
write_parsed_ends r (some n) c q = elim (Bool-cases (cooling r c)) [
  | inl early ↦ rw early (inl (refl, refl))
  | inr over ↦ rw over (elim (submit_ends r n c q) [
    | inl refused ↦ inl refused
    | inr (free, ret, claimed) ↦ inr (n, refl, refl, free, ret, claimed)
  ])
]

abbrev CopiedEnds : Request → Option (List ℕ) → RestartContext → ℤ × RestartContext → Type 0
CopiedEnds r m c (ret, c') =
    Refused c (ret, c')
    ⊎ ((bytes : List ℕ) × (n : ℤ) × (m ≡ some bytes)
        × (parse_restart_command bytes ≡ some n)
        × (cooling r c ≡ false)
        × (c.busy ≡ 0)
        × (ret ≡ pos r.len)
        × (c' ≡ claimed_by r n))

write_copied_ends :
    (r : Request) (m : Option (List ℕ)) (c : RestartContext)
    → QueueOwned c
    → CopiedEnds r m c (write_copied r m c)
unfolding write_copied
write_copied_ends r none c q = inl (refl, refl)
write_copied_ends r (some bytes) c q =
    elim (write_parsed_ends r (parse_restart_command bytes) c q) [
      | inl refused ↦ inl refused
      | inr (n, parsed, over, free, ret, claimed) ↦
          inr (bytes, n, refl, parsed, over, free, ret, claimed)
    ]

guards_pass :
    (r : Request) (c : RestartContext)
    → r.capable ≡ true
    → (r.len == 0 || leb cmd_max_len r.len) ≡ false
    → net_watchdog_write r c ≡ write_copied r r.copied c
unfolding net_watchdog_write
guards_pass r c admin good = ground arith

guards_fail :
    (r : Request) (c : RestartContext)
    → (r.capable && not (r.len == 0 || leb cmd_max_len r.len)) ≡ false
    → Refused c (net_watchdog_write r c)
unfolding net_watchdog_write
guards_fail r c bad = ground arith

-- While the work is queued only with `busy` set, every write is either refused with a negative
-- error, the context unchanged, or accepted with its length as the result. Accepted is only a
-- caller with CAP_NET_ADMIN whose text is shorter than the buffer, not empty and a command, when
-- the cooldown is over and nothing is in progress; then `busy` is set and the index and the time of
-- that command are published and the work is queued.
pub write-ends :
    (r : Request) (c : RestartContext)
    → QueueOwned c
    → Refused c (net_watchdog_write r c) ⊎ Accepted r c (net_watchdog_write r c)
write-ends r c q = elim (Bool-cases r.capable) [
  | inr plain ↦ inl (guards_fail r c (ground arith))
  | inl admin ↦ elim (Bool-cases (r.len == 0 || leb cmd_max_len r.len)) [
    | inl bad ↦ inl (guards_fail r c (ground arith))
    | inr good ↦ rw (guards_pass r c admin good) (elim (write_copied_ends r r.copied c q) [
      | inl refused ↦ inl refused
      | inr (bytes, n, copied, parsed, over, free, ret, claimed) ↦
          inr (
            n,
            bytes,
            copied,
            parsed,
            admin,
            (ground arith, ground arith),
            over,
            free,
            ret,
            claimed,
          )
    ])
  ]
]

-- Nothing is in progress.
pub record Idle (c : RestartContext) : Type 0 where
  pub free : c.busy ≡ 0
  pub unqueued : c.pending ≡ false

submit_accepts :
    (r : Request) (n : ℤ) (c : RestartContext) → Idle c → submit r n c ≡ (pos r.len, claimed_by r n)
unfolding submit
submit_accepts r n c idle = rw (idle.free, idle.unqueued) refl

-- A write that passes every test is accepted.
pub write_accepts :
    (r : Request) (c : RestartContext) (bytes : List ℕ) (n : ℤ)
    → r.capable ≡ true
    → (r.len == 0 || leb cmd_max_len r.len) ≡ false
    → r.copied ≡ some bytes
    → parse_restart_command bytes ≡ some n
    → cooling r c ≡ false
    → Idle c
    → net_watchdog_write r c ≡ (pos r.len, claimed_by r n)
unfolding write_copied write_parsed
write_accepts r c bytes n admin good copied parsed over idle =
    guards_pass r c admin good ∙ rw (copied, parsed, over) (submit_accepts r n c idle)

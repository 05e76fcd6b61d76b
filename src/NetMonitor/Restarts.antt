-- ===== src/NetMonitor/Restarts.antt =====
-- When the loop of 3_net_monitor.c requests a restart.
use yocto_meta_hsiao.Base.{
  ℕ, suc, ◌+◌, ◌*◌, ◌<◌, ◌≡◌, ◌⊎◌, inl, inr, refl, List, [], ◌∷◌, Bool, true, false, not, none,
  some, pos, is_nonzero, if◌then◌else◌, ap, ℤ, leb_ℤ, arith,
}
use yocto_meta_hsiao.NetMonitor.{
  Config, Round, Monitor, round, finish_round, has_ipv4_address, send_ping_once,
}

-- What a round means for a run of failures: it says nothing, ends the run, or adds to it.
pub data Meaning : Type 0 where
  unknown fine failed : Meaning

abbrev pub next_streak : Meaning → ℕ → ℕ
next_streak unknown n = n
next_streak fine n = 0
next_streak failed n = suc n

-- From whether the round requests a restart.
abbrev pub next_restarts : Meaning → Bool → ℕ → ℕ
next_restarts unknown request k = k
next_restarts fine request k = 0
next_restarts failed request k = if request then suc k else k

abbrev pub start : Monitor
start = record { fail_count = 0; seq = 0 }

module _ (c : Config) where
  abbrev pub meaning : Round → ℕ → Meaning
  meaning r seq = elim r.carrier [
    | none ↦ unknown
    | some carrier ↦
        if not (is_nonzero carrier)
        then fine
        else if not (has_ipv4_address c.ifname r.ifaddrs)
        then fine
        else if is_nonzero (send_ping_once r.ping seq).0
        then failed
        else fine
  ]

  -- The loop's state after some rounds, the newest first.
  abbrev pub after : List Round → Monitor
  after [] = start
  after (r ∷ rs) = (round c r (after rs)).1

  -- The length of the run of failures that the newest round belongs to, restarts or not.
  abbrev pub streak : List Round → ℕ
  streak [] = 0
  streak (r ∷ rs) = next_streak (meaning r (after rs).seq) (streak rs)

  -- The restarts requested in that run.
  abbrev pub restarts : List Round → ℕ
  restarts [] = 0
  restarts (r ∷ rs) =
      next_restarts (meaning r (after rs).seq) (round c r (after rs)).0 (restarts rs)

  round_unknown : (r : Round) (m : Monitor) → meaning r m.seq ≡ unknown → round c r m ≡ (false, m)
  unfolding round
  round_unknown r m h = ground (arith, h)

module _ (c : Config) (t : ℕ) (h : c.fail_threshold ≡ pos t) (positive : 0 < t) where
  round_fine :
      (r : Round) (m : Monitor)
      → meaning c r m.seq ≡ fine
      → ((round c r m).0 ≡ false) × ((round c r m).1.fail_count ≡ 0)
  unfolding round finish_round
  round_fine r m e = ground (arith, h, positive, e)

  pub round_failed :
      (r : Round) (m : Monitor)
      → meaning c r m.seq ≡ failed
      → round c r m ≡ finish_round c (suc m.fail_count) (suc m.seq)
  unfolding round
  round_failed r m e = ground (arith, e)

  pub finish_lem :
      (n k : ℕ)
      → n < t
      → let (request, m) = finish_round c (suc n) k in
        ((request ≡ true) × (suc n ≡ t) × (m.fail_count ≡ 0))
        ⊎ ((request ≡ false) × (suc n < t) × (m.fail_count ≡ suc n))
  unfolding finish_round
  finish_lem n k below = ground (arith, h, below)

  Meaning-cases : (g : Meaning) → (g ≡ unknown) ⊎ (g ≡ fine) ⊎ (g ≡ failed)
  Meaning-cases unknown = inl refl
  Meaning-cases fine = inr (inl refl)
  Meaning-cases failed = inr (inr refl)

  step_counted :
      (r : Round) (m : Monitor) (n k : ℕ)
      → n ≡ k * t + m.fail_count
      → m.fail_count < t
      → let (request, m') = round c r m in
        (next_streak (meaning c r m.seq) n
          ≡ next_restarts (meaning c r m.seq) request k * t + m'.fail_count)
        × (m'.fail_count < t)
  step_counted r m n k counted below = elim (Meaning-cases (meaning c r m.seq)) [
    | inl e ↦ rw (e, round_unknown c r m e) (counted, below)
    | inr (inl e) ↦ rw (e, (round_fine r m e).1) (omega arith, positive)
    | inr (inr e) ↦
        rw (e, round_failed r m e)
          (elim (finish_lem m.fail_count (suc m.seq) below) [
            | inl (request, full, zeroed) ↦
                rw (request, zeroed) (grind (arith, counted, full), positive)
            | inr (quiet, room, count) ↦ rw (quiet, count) (omega (arith, counted), room)
          ])
  ]

  -- With a positive threshold, after any rounds from the start, the newest first: the run of failed
  -- pings that the newest round belongs to (which a round without a carrier state does not end) has
  -- a length that is the threshold times the restarts requested at its failures, plus the failures
  -- counted since, and those are fewer than the threshold.
  pub requests-counted :
      (rs : List Round)
      → (streak c rs ≡ restarts c rs * t + (after c rs).fail_count) × ((after c rs).fail_count < t)
  requests-counted [] = (omega arith, positive)
  requests-counted (r ∷ rs) =
      let (counted, below) = requests-counted rs in
      step_counted r (after c rs) (streak c rs) (restarts c rs) counted below

  -- With a positive threshold, a round that requests a restart is one whose ping failed.
  request-failed : (r : Round) (m : Monitor) → (round c r m).0 ≡ true → meaning c r m.seq ≡ failed
  request-failed r m requested = elim (Meaning-cases (meaning c r m.seq)) [
    | inl e ↦ absurd (cc (requested, ap (λ x. x.0) (round_unknown c r m e)))
    | inr (inl e) ↦ absurd (cc (requested, (round_fine r m e).0))
    | inr (inr e) ↦ e
  ]

-- With a threshold that is not positive, each round that finds the carrier up and an IPv4 address
-- requests a restart, also when its ping succeeds.
restart_anyway :
    (c : Config) (r : Round) (m : Monitor) (carrier : ℤ)
    → leb_ℤ c.fail_threshold (pos 0) ≡ true
    → r.carrier ≡ some carrier
    → is_nonzero carrier ≡ true
    → has_ipv4_address c.ifname r.ifaddrs ≡ true
    → (round c r m).0 ≡ true
unfolding round finish_round
restart_anyway c r m carrier threshold e up address = ground (arith, threshold, e, up, address)

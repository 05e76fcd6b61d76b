-- ===== src/Lpuart/Writers/Protocol.antt =====
-- What the processes that write to an LPUART driver at the same time do to DATA: each keeps to the
-- protocol, and together they do not.
use native.Mathlib.Decide.{ℕ_discrete}
use yocto_meta_hsiao.Base.{
  update, update_same, update_other, append_assoc, Bool-cases, subst, ◌≢◌, ◌∙◌, ◌∷◌, ◌++◌, [], sym,
  ap, true, none, some, arith, List, Option, append-nil, refl, ℕ, ◌≡◌, inl, inr,
}
use yocto_meta_hsiao.Lpuart.{tdre, Access, readl_stat, writel_data}
use yocto_meta_hsiao.Lpuart.Transmit.{sent, is_ready, Paced, readable}
use yocto_meta_hsiao.Lpuart.Writers.{
  Writer, idle, sending, polling, ready, Writers, write_turn, logged, Event, call, go, Reach, start,
  next, accesses, own,
}

-- The bytes that a process has yet to write.
abbrev pub left : Writer → List ℕ
left idle = []
left (sending user) = readable user
left (polling c user) = c ∷ readable user
left (ready c user) = c ∷ readable user

-- A process that is about to write DATA has seen TDRE.
abbrev Seen : List Access → Writer → Type 0
Seen log (ready c user) = is_ready log ≡ true
Seen log w = Unit {0}

record Inv (i : ℕ) (log : List Access) (w : Writer) (asked : List ℕ) : Type 0 where
  paced : Paced log
  seen : Seen log w
  sent_left : sent log ++ left w ≡ asked

abbrev with_access : Option Access → List Access → List Access
with_access none log = log
with_access (some a) log = a ∷ log

turn-Inv :
    (v i : ℕ) (log : List Access) (w : Writer) (asked : List ℕ)
    → Inv i log w asked
    → Inv i (with_access (write_turn v w).0 log) (write_turn v w).1 asked
unfolding write_turn
turn-Inv v i log idle asked h = h
turn-Inv v i log (sending []) asked h = record {
  paced = h.paced;
  seen = tt;
  sent_left = h.sent_left;
}
turn-Inv v i log (sending (none ∷ user)) asked h = record {
  paced = h.paced;
  seen = tt;
  sent_left = h.sent_left;
}
turn-Inv v i log (sending (some c ∷ user)) asked h = record {
  paced = h.paced;
  seen = tt;
  sent_left = h.sent_left;
}
turn-Inv v i log (polling c user) asked h = elim (Bool-cases (tdre v)) [
  | inl e ↦ rw e (record { paced = h.paced; seen = e; sent_left = h.sent_left })
  | inr e ↦ rw e (record { paced = h.paced; seen = tt; sent_left = h.sent_left })
]
turn-Inv v i log (ready c user) asked h = record {
  paced = (h.seen, h.paced);
  seen = tt;
  sent_left = append_assoc (sent log) (c ∷ []) (readable user) ∙ h.sent_left;
}

own-logged_same :
    (i : ℕ) (a : Option Access) (log : List (ℕ × Access))
    → own i (logged i a log) ≡ with_access a (own i log)
own-logged_same i none log = refl
own-logged_same i (some a) log = ground arith

own-logged_other :
    (i j : ℕ) (a : Option Access) (log : List (ℕ × Access))
    → i ≢ j
    → own j (logged i a log) ≡ own j log
own-logged_other i j none log ne = refl
own-logged_other i j (some a) log ne = ground arith

call_here :
    (s : Writers) (i : ℕ) (user : List (Option ℕ))
    → s.writer i ≡ idle
    → Inv i (own i s.log) (s.writer i) (s.asked i)
    → Inv i
        (own i s.log)
        (update s.writer i (sending user) i)
        (update s.asked i (s.asked i ++ readable user) i)
call_here s i user e h =
    let all_sent : sent (own i s.log) ≡ s.asked i =
      sym (append-nil (sent (own i s.log)))
      ∙ ap (λ w. sent (own i s.log) ++ left w) (sym e)
      ∙ h.sent_left in
    rw (update_same s.writer i (sending user), update_same s.asked i (s.asked i ++ readable user))
      (record { paced = h.paced; seen = tt; sent_left = ap (λ xs. xs ++ readable user) all_sent })

go_here :
    (s : Writers) (i v : ℕ)
    → Inv i (own i s.log) (s.writer i) (s.asked i)
    → Inv i
        (own i (logged i (write_turn v (s.writer i)).0 s.log))
        (update s.writer i (write_turn v (s.writer i)).1 i)
        (s.asked i)
go_here s i v h =
    rw
      (
        own-logged_same i (write_turn v (s.writer i)).0 s.log,
        update_same s.writer i (write_turn v (s.writer i)).1,
      )
      (turn-Inv v i (own i s.log) (s.writer i) (s.asked i) h)

Event-Inv :
    {s t : Writers}
    → Event s t
    → ((j : ℕ) → Inv j (own j s.log) (s.writer j) (s.asked j))
    → (j : ℕ) → Inv j (own j t.log) (t.writer j) (t.asked j)
Event-Inv {s} (call i user e) h j = elim (ℕ_discrete i j) [
  | no ne ↦
      rw
        (
          update_other s.writer i j (sending user) ne,
          update_other s.asked i j (s.asked i ++ readable user) ne,
        )
        (h j)
  | yes same ↦
      subst
        (λ k.
          Inv k (own k s.log) (update s.writer i (sending user) k)
            (update s.asked i (s.asked i ++ readable user) k))
        same (call_here s i user e (h i))
]
Event-Inv {s} (go i v) h j = elim (ℕ_discrete i j) [
  | no ne ↦
      rw
        (
          own-logged_other i j (write_turn v (s.writer i)).0 s.log ne,
          update_other s.writer i j (write_turn v (s.writer i)).1 ne,
        )
        (h j)
  | yes same ↦
      subst
        (λ k.
          Inv k (own k (logged i (write_turn v (s.writer i)).0 s.log))
            (update s.writer i (write_turn v (s.writer i)).1 k) (s.asked k))
        same (go_here s i v (h i))
]

Reach-Inv : {s : Writers} → Reach s → (j : ℕ) → Inv j (own j s.log) (s.writer j) (s.asked j)
Reach-Inv start j = record { paced = tt; seen = tt; sent_left = refl }
Reach-Inv (next r e) j = Event-Inv e (Reach-Inv r) j

-- However the processes interleave, the accesses of each one alone are as they should be: it writes
-- DATA only after it has seen TDRE since its last write, and the bytes that it has written, followed
-- by those that it has yet to write, are all that it was asked to write, as far as it can be read.
pub writers-Paced :
    {s : Writers}
    → Reach s
    → (i : ℕ) → Paced (own i s.log) × (sent (own i s.log) ++ left (s.writer i) ≡ s.asked i)
writers-Paced r i = let v = Reach-Inv r i in (v.paced, v.sent_left)

-- The accesses of two processes together need not be: with one value of STAT that has TDRE set, and
-- any two bytes, the second byte can be written to DATA directly after the first, with no read of
-- STAT in between, since nothing keeps a second process out of `lpuart_putc`.
writers-overrun :
    (v c d : ℕ)
    → tdre v ≡ true
    → (s : Writers) × Reach s
      × (accesses s.log ≡ writel_data d ∷ writel_data c ∷ readl_stat v ∷ readl_stat v ∷ [])
      × ¬ Paced (accesses s.log)
unfolding write_turn ℕ_discrete
writers-overrun v c d e =
    let called = next (next start (call 0 (some c ∷ []) refl)) (call 1 (some d ∷ []) refl) in
    let polled = next (next (next (next called (go 0 v)) (go 1 v)) (go 0 v)) (go 1 v) in
    let written = next (next polled (go 0 v)) (go 1 v) in
    (_, written, rw e refl, rw e (λ paced. ground arith))

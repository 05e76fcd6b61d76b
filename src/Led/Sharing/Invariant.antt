-- ===== src/Led/Sharing/Invariant.antt =====
-- The invariant of the processes that share the LED of 9_thread.c: one of them has the device, and
-- the LED is as that one asked.
use yocto_meta_hsiao.Base.{
  update, update_cases, Bool-cases, inr, zero, suc, subst, ◌<◌, ◌⊎◌, ◌≢◌, ◌∙◌, if◌then◌else◌, sym,
  inl, true, false, some, arith, Bool, refl, ℕ, ◌≡◌,
}
use yocto_meta_hsiao.Text.Scan.{atoi}
use yocto_meta_hsiao.Led.{ThreadType}
use yocto_meta_hsiao.Led.Exclusion.{
  Device, Reach-Guarded, Guarded, Guarded-Exclusive, Step-Guarded, opened, refused, released,
}
use yocto_meta_hsiao.Led.App.{to_u16}
use yocto_meta_hsiao.Led.ThreadApp.{Shared}
use yocto_meta_hsiao.Led.Sharing.Turn.{turns_left, turn-turns_left, Shows, Turned, turn-Turned}
use yocto_meta_hsiao.Led.Exclusion
use yocto_meta_hsiao.Led.Sharing.{
  Launch, App, idle, opening, writing, looping, leaving, ended, has_device, turn, Programs, Event,
  launch, go, Reach, start, next,
}

pub record Inv (k : ThreadType) (s : Programs) : Type 0 where
  pub files : ℕ
  pub guarded : Guarded k (record { dev = s.shared.dev; files = files })
  pub none_has : files ≡ 0 → (i : ℕ) → has_device (s.app i) ≡ false
  pub one_has : (i j : ℕ) → has_device (s.app i) ≡ true → has_device (s.app j) ≡ true → i ≡ j
  pub shows : (i : ℕ) → Shows s.shared.pin (s.app i)
  pub some_has : (n : ℕ) → files ≡ suc n → (i : ℕ) × (has_device (s.app i) ≡ true)

-- A process without the device relies on nothing that another can change.
others_show : (pin pin' : Bool) (p : App) → (has_device p ≡ true → ⊥) → Shows pin p → Shows pin' p
others_show pin pin' idle h v = tt
others_show pin pin' (opening l) h v = v
others_show pin pin' (writing l) h v = v
others_show pin pin' (looping l c) h v = absurd (h refl)
others_show pin pin' (leaving e) h v = tt
others_show pin pin' (ended e) h v = tt

Event-Inv : {k : ThreadType} {s t : Programs} → Event k s t → Inv k s → Inv k t
Event-Inv {s} (launch i l e whole) v = record {
  files = v.files;
  guarded = v.guarded;
  none_has = λ z j.
      update_cases (λ p. has_device p ≡ false) s.app i (opening l) j (λ a. refl)
        (λ ne. v.none_has z j);
  one_has = λ a b.
      update_cases
        (λ p. has_device p ≡ true → has_device (update s.app i (opening l) b) ≡ true → a ≡ b) s.app
        i (opening l) a (λ x y. absurd (ground arith))
        (λ ne y.
          update_cases (λ p. has_device p ≡ true → a ≡ b) s.app i (opening l) b
            (λ x z. absurd (ground arith)) (λ ne2 z. v.one_has a b y z));
  shows =
      λ j. update_cases (Shows s.shared.pin) s.app i (opening l) j (λ a. whole) (λ ne. v.shows j);
  some_has = λ n z.
      let (j, has) = v.some_has n z in
      (
        j,
        update_cases (λ q. has_device q ≡ true) s.app i (opening l) j (λ x. ground arith)
            (λ ne. has),
      );
}
Event-Inv {k} {s} (go i sig m p e) v =
    let l =
      subst (Turned k v.files s.shared (s.app i)) e (
        turn-Turned k sig v.files s.shared (s.app i) v.guarded (λ z. v.none_has z i) (v.shows i)) in
    -- While the process that took the turn has the device, no other has it.
    let mine : (b : ℕ) → i ≢ b → has_device p ≡ true → has_device (s.app b) ≡ true → ⊥ = λ b ne x y.
      elim (Bool-cases (has_device (s.app i))) [
        | inl had ↦ ne (v.one_has i b had y)
        | inr new ↦ ground (arith, v.none_has (l.takes new x) b)
      ] in
    record {
      files = l.files';
      guarded = l.guarded;
      none_has = λ z j.
          update_cases (λ q. has_device q ≡ false) s.app i p j (λ a. (l.leaves z).0)
            (λ ne. elim (l.leaves z).1 [
              | inl zero_ ↦ v.none_has zero_ j
              | inr had ↦ ground (arith, v.one_has i j had)
            ]);
      one_has = λ a b.
          update_cases (λ q. has_device q ≡ true → has_device (update s.app i p b) ≡ true → a ≡ b)
            s.app i p a
            (λ x y.
              update_cases (λ q. has_device q ≡ true → a ≡ b) s.app i p b (λ z w. sym x ∙ z)
                (λ ne w. absurd (mine b ne y w)))
            (λ ne y.
              update_cases (λ q. has_device q ≡ true → a ≡ b) s.app i p b
                (λ z w. absurd (mine a ne w y)) (λ ne2 w. v.one_has a b y w));
      shows = λ j.
          update_cases (Shows m.pin) s.app i p j (λ a. l.shows)
            (λ ne. elim l.kept [
              | inl same ↦ subst (λ x. Shows x (s.app j)) (sym same) (v.shows j)
              | inr had ↦
                  others_show s.shared.pin m.pin (s.app j) (λ y. ne (v.one_has i j had y))
                    (v.shows j)
            ]);
      some_has = λ n z. elim (Bool-cases (has_device p)) [
        | inl has ↦ (
          i,
          update_cases (λ q. has_device q ≡ true) s.app i p i (λ x. has) (λ ne. absurd (ne refl)),
        )
        | inr not_ ↦ elim (l.still not_) [
          | inl none_ ↦ absurd (omega (arith, z, none_))
          | inr (same, had) ↦
              (let (j, has) = v.some_has n (sym same ∙ z) in
                (
                  j,
                  update_cases (λ q. has_device q ≡ true) s.app i p j (λ x. ground arith)
                      (λ ne. has),
                ))
        ]
      ];
    }

pub Reach-Inv : {k : ThreadType} {s : Programs} → Reach k s → Inv k s
Reach-Inv {k} (start n a g buf pin e) = record {
  files = 0;
  guarded = Reach-Guarded k (Exclusion.Reach.start n a g e);
  none_has = λ z i. refl;
  one_has = λ i j x y. absurd (ground arith);
  shows = λ i. tt;
  some_has = λ n z. absurd (omega arith);
}
Reach-Inv (next r st) = Event-Inv st (Reach-Inv r)

-- However the processes interleave, with each of the three kinds of lock, at most one has the
-- device; and while a process is in its loop, its argument is 0 or 1 and the LED is at the level
-- that it asked for: no other process has switched it.
pub sharing-Shows :
    (k : ThreadType) {s : Programs}
    → Reach k s
    → ((i j : ℕ) → has_device (s.app i) ≡ true → has_device (s.app j) ≡ true → i ≡ j)
      × ((i : ℕ) (l : Launch) (count : ℕ)
          → s.app i ≡ looping l count
          → (to_u16 (atoi l.arg) ≡ (if s.shared.pin then 1 else 0)) × (count < 5))
sharing-Shows k {s} r =
    let v = Reach-Inv r in (v.one_has, λ i l count e. subst (Shows s.shared.pin) e (v.shows i))

-- A process has the device, and its next turn brings it nearer to the release.
abbrev pub Busy : ThreadType → Programs → Type 0
Busy k s =
    (j : ℕ) × (has_device (s.app j) ≡ true)
    × ((signalled : Bool)
        → (t : Shared) × (q : App) × (turn k signalled s.shared (s.app j) ≡ some (t, q))
          × (turns_left q < turns_left (s.app j)))

-- A process about to open the device gets it at its next turn, whether or not a signal is pending,
-- unless another has it, and then that one can take its turn, which brings it nearer to the release:
-- no way of ending leaves the lock taken.
pub sharing-opens :
    (k : ThreadType) {s : Programs}
    → Reach k s
    → (l : Launch) (signalled : Bool)
    → Busy k s ⊎ ((t : Shared) × (turn k signalled s.shared (opening l) ≡ some (t, writing l)))
unfolding turn
sharing-opens k {s} r l signalled = by_files v.files refl
  where
    v : Inv k s
    v = Reach-Inv r

    by_files :
        (n : ℕ)
        → v.files ≡ n
        → Busy k s ⊎ ((t : Shared) × (turn k signalled s.shared (opening l) ≡ some (t, writing l)))
    by_files zero e =
        let closed : Device = record { dev = s.shared.dev; files = v.files } in
        let (d, opens) = (Guarded-Exclusive k closed v.guarded).1 e signalled in
        inr (record (s.shared) { dev = d }, rw (opens, turn) refl)
    by_files (suc n) e =
        let (j, has) = v.some_has n e in
        inl (j, has, λ sig. turn-turns_left k sig s.shared (s.app j) has (v.shows j))

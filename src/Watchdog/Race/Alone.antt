-- ===== src/Watchdog/Race/Alone.antt =====
-- The steps of Race.antt against `submit`, the write as one function.
use yocto_meta_hsiao.Base.{
  update, update_same, update_other, ℕ, ◌≡◌, ◌≢◌, ◌==◌, ◌∙◌, refl, Bool-cases, inl, inr, ◌∷◌, ℤ,
  if◌then◌else◌, arith,
}
use yocto_meta_hsiao.Watchdog.{Request, submit}
use yocto_meta_hsiao.Watchdog.Race.{
  idle, checked, claimed, published, stamped, System, busy, claim, publish, stamp, queue, Reach,
  Run, here, step,
}
use yocto_meta_hsiao.Watchdog.Race.Invariant.{Reach-Inv}

-- Wherever the system is, a writer that has passed the cooldown test can go on to the end of its
-- write with no step of another writer or of the worker: it is idle then, every other writer and the
-- worker stand where they stood, the context is the one that `submit` computes, and its request is
-- accepted if `busy` was clear and not otherwise.
pub alone-submit :
    {s : System} (i : ℕ) (r : Request) (n : ℤ)
    → Reach s
    → s.pc i ≡ checked r n
    → (t : System) × Run s t
      × (t.pc i ≡ idle)
      × ((j : ℕ) → i ≢ j → t.pc j ≡ s.pc j)
      × (t.worker ≡ s.worker)
      × (t.restarted ≡ s.restarted)
      × (t.ctx ≡ (submit r n s.ctx).1)
      × (t.accepted ≡ (if s.ctx.busy == 0 then (r, n) ∷ s.accepted else s.accepted))
unfolding submit
alone-submit {s} i r n reached at_checked = elim (Bool-cases (s.ctx.busy == 0)) [
  | inr taken ↦ rw taken (
    _,
    step here (busy i r n at_checked (λ e. ground (arith, e, taken))),
    update_same s.pc i idle,
    λ j ne. update_other s.pc i j idle ne,
    refl,
    refl,
    refl,
    refl,
  )
  | inl clear ↦
      (let idle_work = (Reach-Inv reached).free (ground (arith, clear)) in
        let claimed_ = step here (claim i r n at_checked (ground (arith, clear))) in
        let pc1 = update s.pc i (claimed r n) in
        let published_ = step claimed_ (publish i r n (update_same s.pc i (claimed r n))) in
        let pc2 = update pc1 i (published r n) in
        let stamped_ = step published_ (stamp i r n (update_same pc1 i (published r n))) in
        let pc3 = update pc2 i (stamped r n) in
        rw clear (
          _,
          step stamped_ (queue i r n (update_same pc2 i (stamped r n)) idle_work.1),
          update_same pc3 i idle,
          λ j ne.
              update_other pc3 i j idle ne
              ∙ (update_other pc2 i j (stamped r n) ne
                  ∙ (update_other pc1 i j (published r n) ne
                      ∙ update_other s.pc i j (claimed r n) ne)),
          refl,
          refl,
          ground (arith, idle_work.1),
          refl,
        ))
]

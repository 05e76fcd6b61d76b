-- ===== src/EthStatus/Driver.antt =====
-- The driver's name of 1_eth_status.c, from the target of a link.
use yocto_meta_hsiao.Base.{
  ℕ, ◌≡◌, ◌⊎◌, inl, inr, refl, ap, subst, ◌∙◌, false, List, [], ◌∷◌, ◌++◌, All, none, some, ◌==◌,
  take, Option-cases, arith,
}
use yocto_meta_hsiao.Text.{c_string}
use yocto_meta_hsiao.Text.Files.{after_slash}
use yocto_meta_hsiao.EthStatus.{driver_name}

-- A text without a slash.
abbrev pub NoSlash : List ℕ → Type 0
NoSlash = All (λ c. (c == b'/') ≡ false)

after_slash-none : (s : List ℕ) → after_slash s ≡ none → NoSlash s
unfolding after_slash
after_slash-none [] h = tt
after_slash-none (c ∷ cs) h = elim (Option-cases (after_slash cs)) [
  | inl e ↦ (ground (arith, e, h), after_slash-none cs e)
  | inr (t, e) ↦ absurd (ground (arith, e, h))
]

after_slash-some :
    (s t : List ℕ) → after_slash s ≡ some t → (dir : List ℕ) × (s ≡ dir ++ b'/' ∷ t) × NoSlash t
unfolding after_slash
after_slash-some [] t h = absurd (ground arith)
after_slash-some (c ∷ cs) t h = elim (Option-cases (after_slash cs)) [
  | inl e ↦
      (let slash : c ≡ b'/' = ground (arith, e, h) in
        let rest : cs ≡ t = ground (arith, e, h) in
        ([], cc (slash, rest), subst NoSlash rest (after_slash-none cs e)))
  | inr (u, e) ↦
      (let same : u ≡ t = ground (arith, e, h) in
        let (dir, whole, base) = after_slash-some cs t (e ∙ ap some same) in
        (c ∷ dir, ap (◌∷◌ c) whole, base))
]

-- The name that is reported for the driver has no slash, and is all of the link's text, as far as
-- 255 bytes of it hold it, or what follows a slash in it.
driver_name-NoSlash :
    (link : List ℕ)
    → let target = c_string (take 255 link) in
      NoSlash (driver_name link)
      × ((driver_name link ≡ target) ⊎ ((dir : List ℕ) × (target ≡ dir ++ b'/' ∷ driver_name link)))
unfolding driver_name after_slash c_string
driver_name-NoSlash link =
    let target = c_string (take 255 link) in
    elim (Option-cases (after_slash target)) [
      | inl e ↦ rw e (after_slash-none target e, inl refl)
      | inr (t, e) ↦
          (let (dir, whole, base) = after_slash-some target t e in rw e (base, inr (dir, whole)))
    ]

-- ===== src/Base/Family.antt =====
-- A family over the processes of a system, with the member of one of them changed.
use mathlib.Core.Logic.{ite, ◌≢◌}
use mathlib.Core.Path.{◌≡◌}
use native.Mathlib.Decide.{ℕ_discrete}
use native.Mathlib.Omega.{arith}
use Prim.Native.Nat.{ℕ}

abbrev pub update {ℓ} : {A : Type ℓ} → (ℕ → A) → ℕ → A → ℕ → A
update f i x j = ite (ℕ_discrete i j) x (f j)

pub update_same {ℓ} : {A : Type ℓ} (f : ℕ → A) (i : ℕ) (x : A) → update f i x i ≡ x
update_same f i x = ground arith

pub update_other {ℓ} : {A : Type ℓ} (f : ℕ → A) (i j : ℕ) (x : A) → i ≢ j → update f i x j ≡ f j
update_other f i j x ne = ground arith

-- What holds of the new member, and of the others as they were, holds of all.
pub update_cases {ℓ κ} :
    {A : Type ℓ} (P : A → Type κ) (f : ℕ → A) (i : ℕ) (x : A) (j : ℕ)
    → (i ≡ j → P x)
    → (i ≢ j → P (f j))
    → P (update f i x j)
update_cases P f i x j same other = elim (ℕ_discrete i j) as (λ d. P (ite d x (f j))) [
  | yes e ↦ same e
  | no ne ↦ other ne
]

-- ===== src/NetMonitor/Checksum.antt =====
-- The checksum of 3_net_monitor.c.
use yocto_meta_hsiao.Base.{
  ℕ, ◌+◌, ◌-◌, ◌*◌, ◌/◌, ◌%◌, ◌^◌, ◌<◌, ◌≤◌, ◌≡◌, ◌∙◌, ap, List, [], ◌∷◌, All, length, arith,
}
use yocto_meta_hsiao.NetMonitor.{sum_words, fold_sum, checksum}

-- The sum of the words, in ℕ.
abbrev total : List ℕ → ℕ
total [] = 0
total (a ∷ []) = a
total (a ∷ b ∷ rest) = a + 256 * b + total rest

abbrev pub IsByte : ℕ → Type 0
IsByte b = b < 256

total_bound : (xs : List ℕ) → All IsByte xs → total xs ≤ 65536 * length xs
total_bound [] h = omega arith
total_bound (a ∷ []) h = omega (arith, h.0)
total_bound (a ∷ b ∷ rest) h = omega (arith, h.0, h.1.0, total_bound rest h.1.1)

-- Without a wrap, the 32-bit sum is the sum.
sum_words_lem :
    (sum : ℕ) (xs : List ℕ) → sum + total xs < 2 ^ 32 → sum_words sum xs ≡ sum + total xs
unfolding sum_words
sum_words_lem sum [] h = omega arith
sum_words_lem sum (a ∷ []) h = omega arith
sum_words_lem sum (a ∷ b ∷ rest) h =
    let small : (sum + (a + 256 * b)) % 2 ^ 32 ≡ sum + (a + 256 * b) = omega arith in
    ap (λ k. sum_words k rest) small
    ∙ sum_words_lem (sum + (a + 256 * b)) rest (omega arith)
    ∙ omega arith

-- The checksum put where there was a zero word makes the sum fold to all ones.
folds_to_zero : (s : ℕ) → s < 2 ^ 32 - 2 ^ 16 → fold_sum (s + fold_sum s) ≡ 0
unfolding fold_sum
folds_to_zero s h = omega arith

fold_sum_bound : (s : ℕ) → fold_sum s < 2 ^ 16
unfolding fold_sum
fold_sum_bound s = omega arith

-- A packet whose third and fourth bytes are zero, and then hold its checksum, low byte first, has
-- the checksum 0, whatever the other bytes are and whether their number is odd or even, up to
-- 60000 bytes.
pub checksum-verifies :
    (a b : ℕ) (rest : List ℕ)
    → All IsByte (a ∷ b ∷ rest)
    → length rest < 60000
    → let c = checksum (a ∷ b ∷ 0 ∷ 0 ∷ rest) in checksum (a ∷ b ∷ c % 256 ∷ c / 256 ∷ rest) ≡ 0
unfolding checksum
checksum-verifies a b rest bytes h =
    let s = total (a ∷ b ∷ rest) in
    let bound : s < 2 ^ 32 - 2 ^ 16 =
      omega (arith, bytes.0, bytes.1.0, total_bound rest bytes.1.1, h) in
    let before : sum_words 0 (a ∷ b ∷ 0 ∷ 0 ∷ rest) ≡ s =
      sum_words_lem 0 (a ∷ b ∷ 0 ∷ 0 ∷ rest) (omega (arith, bound)) ∙ omega arith in
    rw before (
      let c = fold_sum s in
      let after : sum_words 0 (a ∷ b ∷ c % 256 ∷ c / 256 ∷ rest) ≡ s + c =
        sum_words_lem 0 (a ∷ b ∷ c % 256 ∷ c / 256 ∷ rest) (omega (arith, bound, fold_sum_bound s))
        ∙ omega arith in
      rw after (folds_to_zero s bound))

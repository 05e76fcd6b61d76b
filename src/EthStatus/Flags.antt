-- ===== src/EthStatus/Flags.antt =====
-- `print_admin_state` of 1_eth_status.c: which bits of the flags stand behind the words.
use yocto_meta_hsiao.Base.{
  refl, false, ◌≤◌, inr, tests, append-nil, inl, ltb, Bool-cases, Bool, true, ℕ, ◌/◌, ◌%◌, ◌^◌, ◌<◌,
  ◌≡◌, ◌++◌, List, [], ◌∷◌, ◌==◌, if◌then◌else◌, arith,
}
use yocto_meta_hsiao.EthStatus.{
  word_if, to_unsigned, FlagWord, up, running, lower_up, broadcast, multicast, flag_words,
}

-- A word behind a bit of the 16 that the kernel puts into `ifr_flags`.
abbrev pub word_of : ℕ → ℕ → FlagWord → List FlagWord
word_of flags bit w = if flags / 2 ^ bit % 2 == 1 then w ∷ [] else []

-- The sign extension changes none of the 16 bits, and copies bit 15 to bit 16.
bits_below :
    (flags : ℕ)
    → flags < 2 ^ 16
    → (to_unsigned flags / 2 ^ 0 % 2 ≡ flags / 2 ^ 0 % 2)
      × (to_unsigned flags / 2 ^ 6 % 2 ≡ flags / 2 ^ 6 % 2)
      × (to_unsigned flags / 2 ^ 16 % 2 ≡ flags / 2 ^ 15 % 2)
      × (to_unsigned flags / 2 ^ 1 % 2 ≡ flags / 2 ^ 1 % 2)
      × (to_unsigned flags / 2 ^ 12 % 2 ≡ flags / 2 ^ 12 % 2)
bits_below flags h = elim (Bool-cases (ltb flags (2 ^ 15))) [
  | inl plus ↦ rw plus (refl, refl, omega tests, refl, refl)
  | inr minus ↦ rw minus (
      let le : 2 ^ 15 ≤ flags = ground (arith, minus) in
      (omega arith, omega arith, omega arith, omega arith, omega arith))
]

word_if-append :
    (b : Bool) (w : FlagWord) (ws : List FlagWord)
    → word_if b w ws ≡ (if b then w ∷ [] else []) ++ ws
word_if-append true w ws = refl
word_if-append false w ws = refl

-- Of the 16 bits of `ifr_flags` the words UP, RUNNING, BROADCAST and MULTICAST stand behind bits 0,
-- 6, 1 and 12, as they should. LOWER_UP is bit 16, which a `short` does not have: where the headers
-- define it, the word stands behind bit 15, the sign.
flag_words-bits :
    (flags : ℕ)
    → flags < 2 ^ 16
    → flag_words true flags
      ≡ word_of flags 0 up
        ++ (word_of flags 6 running
            ++ (word_of flags 15 lower_up
                ++ (word_of flags 1 broadcast ++ word_of flags 12 multicast)))
unfolding flag_words
flag_words-bits flags h =
    let (b0, b6, b16, b1, b12) = bits_below flags h in
    rw
      (
        b0, b6, b16, b1, b12, word_if-append, word_if-append, word_if-append, word_if-append,
        word_if-append, append-nil,
      )
      refl

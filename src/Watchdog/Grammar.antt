-- ===== src/Watchdog/Grammar.antt =====
-- The commands that the parser of 3_net_watchdog.c takes, as a grammar of their text.
pub mod Scans
pub mod Accepts
use yocto_meta_hsiao.Base.{
  ℕ, ◌+◌, ◌-◌, ◌*◌, ◌%◌, ◌^◌, ◌<◌, ◌≡◌, Bool, true, false, List, [], ◌∷◌, ◌++◌, length, ◌⊎◌, All,
}
use yocto_meta_hsiao.Text.{is_space, starts_digit}
use yocto_meta_hsiao.Text.Decimal.{AllDigits}
use yocto_meta_hsiao.Watchdog.{restart_word, reset_word}

abbrev pub AllSpaces : List ℕ → Type 0
AllSpaces = All (λ c. is_space c ≡ true)

abbrev pub signed : Bool → List ℕ → List ℕ
signed true cs = b'-' ∷ cs
signed false cs = cs

-- A decimal number, its first digits worth `acc`.
abbrev pub decimal : ℕ → List ℕ → ℕ
decimal acc [] = acc
decimal acc (d ∷ ds) = decimal (acc * 10 + (d - 48)) ds

-- The number with its sign, modulo 2 ^ 32.
abbrev pub pattern_of : Bool → List ℕ → ℕ
pattern_of true ds = (2 ^ 32 - decimal 0 ds % 2 ^ 32) % 2 ^ 32
pattern_of false ds = decimal 0 ds % 2 ^ 32

-- A text that starts with spaces or none, one of the two words, spaces, perhaps a minus sign, and all
-- the digits of a number that is `n` modulo 2 ^ 32 and positive as an `int`.
pub record IsCommand (cs : List ℕ) (n : ℕ) : Type 0 where
  pub before : List ℕ
  pub action : List ℕ
  pub gap : List ℕ
  pub minus : Bool
  pub digits : List ℕ
  pub rest : List ℕ
  pub text : cs ≡ before ++ (action ++ (gap ++ signed minus (digits ++ rest)))
  pub before_spaces : AllSpaces before
  pub known : (action ≡ restart_word) ⊎ (action ≡ reset_word)
  pub gap_spaces : AllSpaces gap
  pub gap_some : 0 < length gap
  pub all_digits : AllDigits digits
  pub some_digit : 0 < length digits
  pub stops : starts_digit rest ≡ false
  pub value : n ≡ pattern_of minus digits
  pub positive : 0 < n
  pub in_range : n < 2 ^ 31

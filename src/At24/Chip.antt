-- ===== src/At24/Chip.antt =====
-- The AT24C256 that 22_i2c_at24.c drives, as its data sheet describes it: memory cells that a page
-- write sets and a sequential read returns. The chip is no part of the repository.
use yocto_meta_hsiao.Base.{
  ℕ, zero, suc, ◌+◌, ◌%◌, ◌≤◌, ◌<◌, ◌≡◌, refl, true, false, List, [], ◌∷◌, ◌==◌, if◌then◌else◌,
  length, is_neg, arith,
}
use yocto_meta_hsiao.At24.{Kernel, eeprom_size, page_size, write_msg, read_msgs}

-- The cells after the bytes are put at the address `a` and on.
abbrev pub store : ℕ → List ℕ → (ℕ → ℕ) → ℕ → ℕ
store a [] f j = f j
store a (x ∷ xs) f j = if a == j then x else store (suc a) xs f j

-- The `n` cells from the address `a` on.
abbrev pub range : (ℕ → ℕ) → ℕ → ℕ → List ℕ
range f a zero = []
range f a (suc n) = f a ∷ range f (suc a) n

pub store_below : (a : ℕ) (xs : List ℕ) (f : ℕ → ℕ) (j : ℕ) → j < a → store a xs f j ≡ f j
store_below a [] f j h = refl
store_below a (x ∷ xs) f j h = ground (arith, store_below (suc a) xs f j)

pub store_above :
    (a : ℕ) (xs : List ℕ) (f : ℕ → ℕ) (j : ℕ) → a + length xs ≤ j → store a xs f j ≡ f j
store_above a [] f j h = refl
store_above a (x ∷ xs) f j h = ground (arith, store_above (suc a) xs f j)

pub range-cong : (f g : ℕ → ℕ) (a n : ℕ) → ((j : ℕ) → a ≤ j → f j ≡ g j) → range f a n ≡ range g a n
range-cong f g a zero h = refl
range-cong f g a (suc n) h =
    ground (arith, h a, range-cong f g (suc a) n (λ j le. h j (omega arith)))

-- What is stored is read back.
pub range-store : (a : ℕ) (xs : List ℕ) (f : ℕ → ℕ) → range (store a xs f) a (length xs) ≡ xs
range-store a [] f = refl
range-store a (x ∷ xs) f = ground (
  arith,
  range-cong (store a (x ∷ xs) f) (store (suc a) xs f) (suc a) (length xs) (λ j le. ground arith),
  range-store (suc a) xs f,
)

-- What the driver relies on, with `cell` the contents of the chip on the bus. A transfer of an
-- address and data within one page succeeds and sets those cells, and a transfer of an address and
-- a read of cells that exist succeeds, returns them, and changes none.
pub record IsEeprom {S : Type 0} (k : Kernel S) (cell : S → ℕ → ℕ) : Type 0 where
  pub writes :
      (s : S) (dev a n : ℕ) (bytes : List ℕ)
      → a < eeprom_size
      → n ≡ length bytes
      → 0 < n
      → a % page_size + n ≤ page_size
      → let (s', ret, _) = k.transfer s (write_msg dev a n bytes ∷ []) in
        (is_neg ret ≡ false) × ((j : ℕ) → cell s' j ≡ store a bytes (cell s) j)
  pub reads :
      (s : S) (dev a n : ℕ)
      → 0 < n
      → a + n ≤ eeprom_size
      → let (s', ret, bytes) = k.transfer s (read_msgs dev a n) in
        (is_neg ret ≡ false) × (bytes ≡ range (cell s) a n) × ((j : ℕ) → cell s' j ≡ cell s j)

-- What the driver relies on where transfers may fail, as those do that come in the chip's write cycle:
-- it does not acknowledge its address then. A transfer of an address and data within one page, or of
-- an address and a read of cells that exist, either succeeds and does what `IsEeprom` says, or fails
-- and changes no cell.
pub record MayNack {S : Type 0} (k : Kernel S) (cell : S → ℕ → ℕ) : Type 0 where
  pub writes :
      (s : S) (dev a n : ℕ) (bytes : List ℕ)
      → a < eeprom_size
      → n ≡ length bytes
      → 0 < n
      → a % page_size + n ≤ page_size
      → let (s', ret, _) = k.transfer s (write_msg dev a n bytes ∷ []) in
        (is_neg ret ≡ false → (j : ℕ) → cell s' j ≡ store a bytes (cell s) j)
        × (is_neg ret ≡ true → (j : ℕ) → cell s' j ≡ cell s j)
  pub reads :
      (s : S) (dev a n : ℕ)
      → 0 < n
      → a + n ≤ eeprom_size
      → let (s', ret, bytes) = k.transfer s (read_msgs dev a n) in
        (is_neg ret ≡ false → bytes ≡ range (cell s) a n) × ((j : ℕ) → cell s' j ≡ cell s j)

-- ===== src/At24/Example.antt =====
-- A chip that is a function from addresses to bytes, for the driver of 22_i2c_at24.c.
use yocto_meta_hsiao.Base.{
  ℕ, ◌+◌, ◌*◌, ◌%◌, ◌^◌, refl, ap, ◌∙◌, true, false, Option, none, some, List, [], ◌∷◌, length, leb,
  if◌then◌else◌, take, drop, ℤ, pos, neg, arith,
}
use yocto_meta_hsiao.At24.{At24Data, Kernel, I2cMsg, eeprom_size, page_size}
use yocto_meta_hsiao.At24.Chip.{store, range, IsEeprom}
use yocto_meta_hsiao.At24.Stores.{IsAt24, CopiesFrom}

abbrev pub at24 : At24Data
at24 = record { addr = 0x50; size = eeprom_size; page_size = page_size }

abbrev pub Memory : Type 0
Memory = ℕ → ℕ

-- A chip on the bus: it takes an address and data, or an address and a read.
abbrev pub on_chip : Memory → List (List ℕ) → ℕ → Memory × ℤ × List ℕ
on_chip m ((hi ∷ lo ∷ bytes) ∷ []) n = (store (hi * 256 + lo) bytes m, pos 1, [])
on_chip m ((hi ∷ lo ∷ []) ∷ [] ∷ []) n = (m, pos 2, range m (hi * 256 + lo) n)
on_chip m _ n = (m, neg 6, [])

abbrev pub bufs : List I2cMsg → List (List ℕ)
bufs [] = []
bufs (m ∷ ms) = m.buf ∷ bufs ms

abbrev pub last_len : List I2cMsg → ℕ
last_len [] = 0
last_len (m ∷ []) = m.len
last_len (m ∷ n ∷ ms) = last_len (n ∷ ms)

-- `copy_from_user` from a buffer that holds the list, and faults beyond it.
abbrev pub copy_bytes : List ℕ → ℕ → ℕ → Option (List ℕ)
copy_bytes xs i n = if leb (i + n) (length xs) then some (take n (drop i xs)) else none

abbrev pub kernel : List ℕ → Kernel Memory
kernel xs = record {
  allocates = λ n. true;
  copy_in = copy_bytes xs;
  copy_out_fails = λ bytes. false;
  transfer = λ m ms. on_chip m (bufs ms) (last_len ms);
}

abbrev pub cells : Memory → ℕ → ℕ
cells m = m

pub kernel-IsEeprom : (xs : List ℕ) → IsEeprom (kernel xs) cells
kernel-IsEeprom xs = record {
  writes = λ s dev a n bytes h l p_n fits. (refl, λ j. ap (λ t. store t bytes s j) (omega arith));
  reads = λ s dev a n p_n fits. (
    refl,
    ap (λ t. range s t (n % 2 ^ 16)) (omega arith) ∙ ap (range s a) (omega arith),
    λ j. refl,
  );
}

pub kernel-CopiesFrom : (xs : List ℕ) → CopiesFrom (kernel xs) xs
kernel-CopiesFrom xs i n h = ground arith

pub at24-IsAt24 : IsAt24 at24
at24-IsAt24 = record { size_eq = refl; page_eq = refl }

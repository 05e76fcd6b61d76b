-- ===== src/At24/App.antt =====
-- recipes-app/files/22_i2c_at24c_app.c, the test program of the EEPROM, over the driver
-- 22_i2c_at24.c: what `main` prints and returns, with its calls of `write`, `lseek` and `read`
-- those of the driver. Its text is what the kernel's `copy_in` copies from.
use yocto_meta_hsiao.Base.{
  overlay, replicate, ◌==◌, ◌++◌, false, none, some, zero, negsuc, length, drop, leb, is_neg, set,
  pos_part,
}
use yocto_meta_hsiao.Text.{codes, c_string}
use yocto_meta_hsiao.At24.{
  not, if◌then◌else◌, ◌∷◌, true, Bool, pos, [], suc, Option, ℤ, List, ℕ, At24Data, Kernel, World,
  at24_eeprom_read, at24_eeprom_write,
}
use yocto_meta_hsiao.At24.Seek.{at24_eeprom_llseek, seek_set}
use yocto_meta_hsiao.At24.Stores.{delivered}
pub mod Passes

-- The bytes of `write_data` that are written.
abbrev pub write_data : List ℕ
write_data = codes "i.MX93_AT24C256_TEST"

abbrev pub read_buf_size : ℕ
read_buf_size = 64

-- Of the lines that `main` prints, those that tell how it went; the texts are those after `%s`.
pub data Line : Type 0 where
  usage cannot_open writing write_failed reading read_failed passed : Line
  read_back failed : List ℕ → Line

-- The exit code, the lines, and whether the terminating NUL is put behind the end of `read_buf`.
pub record Outcome : Type 0 where
  pub exit : ℤ
  pub lines : List Line
  pub past_end : Bool

-- `read_buf`, cleared, after the read.
abbrev pub filled : List ℕ → List ℕ
filled bytes = overlay bytes (replicate read_buf_size 0)

-- The loop over the first `ret` bytes, which puts a NUL over the first that is erased.
unfoldable pub cut_erased : ℕ → List ℕ → List ℕ
cut_erased zero buf = buf
cut_erased (suc ret) [] = []
cut_erased (suc ret) (c ∷ buf) =
    let rest = cut_erased ret buf in if c == 0xFF then 0 ∷ buf else c ∷ rest

-- `strncmp(s, t, n) == 0`; behind its end a text has a NUL.
unfoldable pub strncmp_eq : ℕ → List ℕ → List ℕ → Bool
strncmp_eq zero s t = true
strncmp_eq (suc n) [] [] = true
strncmp_eq (suc n) [] (d ∷ t) = d == 0
strncmp_eq (suc n) (c ∷ s) [] = c == 0
strncmp_eq (suc n) (c ∷ s) (d ∷ t) =
    let rest = strncmp_eq n s t in if not (c == d) then false else if c == 0 then true else rest

-- The clean-up and the comparison, after a read that returned `ret` and gave `bytes`.
unfoldable pub verdict : List Line → ℕ → List ℕ → Outcome
verdict printed ret bytes =
    let buf = cut_erased ret (set (filled bytes) ret 0) in
    let last =
      if strncmp_eq (length write_data) write_data buf then passed else failed (c_string buf) in
    record {
      exit = pos 0;
      lines = printed ++ read_back (c_string buf) ∷ last ∷ [];
      past_end = leb read_buf_size ret;
    }

module _ {S : Type 0} (k : Kernel S) (p : At24Data) where
  -- From `lseek` on; the position that the system keeps is the driver's, unless its call failed.
  unfoldable pub seek_and_read : List Line → World S → Outcome
  unfolding verdict
  seek_and_read printed w =
      let back = (at24_eeprom_llseek p w.offset (pos 0) seek_set).1 in
      let (ret, w') = at24_eeprom_read k p read_buf_size (record w { offset = back }) in
      let now = printed ++ reading ∷ [] in
      if is_neg ret
      then record { exit = negsuc 0; lines = now ++ read_failed ∷ []; past_end = false }
      else verdict now (pos_part ret) (delivered w'.log)

  -- `main`, with `fd` what `open` returns.
  unfoldable pub at24_app : ℕ → ℤ → World S → Option Outcome
  unfolding seek_and_read
  at24_app argc fd w =
      if not (argc == 2)
      then some (record { exit = pos 1; lines = usage ∷ []; past_end = false })
      else if is_neg fd
      then some (record { exit = pos 1; lines = cannot_open ∷ []; past_end = false })
      else elim (at24_eeprom_write k p (length write_data) w) [
        | none ↦ none
        | some (ret, w') ↦ some (
            if is_neg ret
            then seek_and_read (writing ∷ write_failed ∷ []) (record w' { offset = w.offset })
            else seek_and_read (writing ∷ []) w')
      ]

-- ===== src/Chardev.antt =====
-- The character devices of recipes-kernel/hsiao-kmod/files/3_chardevtest.c and 5_new_chardevtest.c,
-- whose `read` and `write` are the same text, and the program that uses them,
-- recipes-app/files/3_chardevtest_app.c (5_new_chardevtest_app.c is the same text).
use yocto_meta_hsiao.Base.{
  overlay, replicate, is_nonzero, ◌-◌, zero, suc, min, leb, eqb_ℤ, ◌∷◌, ◌++◌, [], if◌then◌else◌,
  true, false, none, some, not, pos, ℕ, ℤ, Bool, List, Option, length, take, drop, ltb, is_neg,
}
use yocto_meta_hsiao.Text.{codes, c_string}
use yocto_meta_hsiao.Text.Scan.{atoi}
pub mod Faults
pub mod Cdev
mod Tests

abbrev pub buf_size : ℕ
buf_size = 256

-- `kerneldata` and `usrdata`, with their NUL.
abbrev pub kerneldata : List ℕ
kerneldata = codes "kernel data!" ++ 0 ∷ []

abbrev pub usrdata : List ℕ
usrdata = codes "usr data!" ++ 0 ∷ []

-- TRUE is 0 and FALSE is 1.
abbrev pub truth : Bool → ℤ
truth ok = if ok then pos 0 else pos 1

-- `Char_Dev_Init` of 3_chardevtest.c, from what `register_chrdev` returns: a failure is FALSE, no
-- negative number, and the module stays loaded with no device.
abbrev pub char_dev_register : ℤ → ℤ
char_dev_register ret = truth (not (is_nonzero ret))

-- `read_buf` and `write_buf`.
pub record Buffers : Type 0 where
  pub read_buf : List ℕ
  pub write_buf : List ℕ

-- `chrdevbase_read(file, buf, len, ppos)`, where `copy_to_user` can copy `copied` bytes before it
-- faults: the result, the bytes given to the user, and the buffers; `none` if `len` runs over the
-- end of `read_buf`, which the code does not test.
unfoldable pub chrdevbase_read : ℕ → ℕ → Buffers → Option (ℤ × List ℕ × Buffers)
chrdevbase_read copied len b =
    let read_buf' = overlay kerneldata b.read_buf in
    if ltb buf_size len
    then none
    else some
        (truth (leb len copied), take (min copied len) read_buf', record b { read_buf = read_buf' })

-- `chrdevbase_write(file, buf, len, ppos)` of the bytes of the user's buffer; what `copy_from_user`
-- cannot copy it fills with zeros.
unfoldable pub chrdevbase_write : ℕ → List ℕ → Buffers → Option (ℤ × Buffers)
chrdevbase_write copied bytes b =
    let left = take copied bytes ++ replicate (length bytes - copied) 0 in
    if ltb buf_size (length bytes)
    then none
    else some (truth (leb (length bytes) copied), record b { write_buf = overlay left b.write_buf })

-- How `main` ends, or that it goes on to `close`.
pub data Ending : Type 0 where
  done usage open_error read_error write_error close_error : Ending

pub record Outcome : Type 0 where
  pub ending : Ending
  pub printed : Option (List ℕ)
  pub wrong_argument : Bool
  pub buffers : Buffers

abbrev close_with : ℤ → Option (List ℕ) → Bool → Buffers → Outcome
close_with closed printed wrong b = record {
  ending = if is_neg closed then close_error else done;
  printed = printed;
  wrong_argument = wrong;
  buffers = b;
}

abbrev pub stopped : Ending → Buffers → Outcome
stopped ending b = record { ending = ending; printed = none; wrong_argument = false; buffers = b }

-- `read` of ten bytes into `read_buffer`, which held `stack`, and what is printed for `%s`.
abbrev on_read : ℤ → List ℕ → Option (ℤ × List ℕ × Buffers) → Option Outcome
on_read closed stack none = none
on_read closed stack (some (ret, bytes, b)) = some (
    if is_neg ret
    then stopped read_error b
    else close_with closed (some (c_string (overlay bytes stack))) false b)

abbrev on_write : ℤ → Option (ℤ × Buffers) → Option Outcome
on_write closed none = none
on_write closed (some (ret, b)) =
    some (if is_neg ret then stopped write_error b else close_with closed none false b)

-- `main`, from the results of `open` and `close`, how many bytes the driver can copy, and what
-- `read_buffer` held before.
unfoldable pub chardev_app : List (List ℕ) → ℤ → ℤ → ℕ → List ℕ → Buffers → Option Outcome
chardev_app (prog ∷ filename ∷ mode ∷ []) fd closed copied stack b =
    if is_neg fd
    then some (stopped open_error b)
    else if eqb_ℤ (atoi mode) (pos 1)
    then on_read closed stack (chrdevbase_read copied 10 b)
    else if eqb_ℤ (atoi mode) (pos 2)
    then on_write closed (chrdevbase_write copied usrdata b)
    else some (close_with closed none true b)
chardev_app argv fd closed copied stack b = some (stopped usage b)

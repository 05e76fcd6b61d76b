-- ===== src/At24/Seek.antt =====
-- `at24_eeprom_llseek` of recipes-kernel/hsiao-kmod/files/22_i2c_at24.c.
use yocto_meta_hsiao.Base.{
  ℕ, ◌-◌, ◌%◌, ◌^◌, ◌<◌, ◌≡◌, ◌⊎◌, false, ◌&&◌, ◌==◌, if◌then◌else◌, ℤ, pos, neg, pos_part, is_neg,
  ◌+ℤ◌, ◌-ℤ◌, ltb_ℤ, leb_ℤ, arith,
}
use yocto_meta_hsiao.At24.{At24Data, einval}

abbrev pub seek_set : ℕ
seek_set = 0

abbrev pub seek_cur : ℕ
seek_cur = 1

abbrev pub seek_end : ℕ
seek_end = 2

-- `-(priv->size)`: the negation of an `unsigned int`.
abbrev pub minus_size : At24Data → ℕ
minus_size p = (2 ^ 32 - p.size % 2 ^ 32) % 2 ^ 32

-- The result, and `file->f_pos` afterwards.
pub at24_eeprom_llseek : At24Data → ℤ → ℤ → ℕ → ℤ × ℤ
at24_eeprom_llseek p f_pos offset whence =
    if whence == seek_set
    then (if leb_ℤ (pos 0) offset && ltb_ℤ offset (pos p.size)
        then (offset, offset)
        else (neg einval, f_pos))
    else if whence == seek_cur
    then (if leb_ℤ (pos 0) (f_pos +ℤ offset) && ltb_ℤ (f_pos +ℤ offset) (pos p.size)
        then (f_pos +ℤ offset, f_pos +ℤ offset)
        else (neg einval, f_pos))
    else if whence == seek_end
    then (if leb_ℤ offset (pos 0) && ltb_ℤ (pos (minus_size p)) offset
        then (pos p.size +ℤ offset, pos p.size +ℤ offset)
        else (neg einval, f_pos))
    else (neg einval, f_pos)

-- A position that lies on the chip.
abbrev pub OnChip : At24Data → ℤ → Type 0
OnChip p off = (is_neg off ≡ false) × (pos_part off < p.size)

-- Whatever is asked for, a position on the chip stays on the chip, and either it is the result or
-- the result is -EINVAL and the position is unchanged.
llseek-OnChip :
    (p : At24Data) (f_pos offset : ℤ) (whence : ℕ)
    → OnChip p f_pos
    → let (ret, f_pos') = at24_eeprom_llseek p f_pos offset whence in
      OnChip p f_pos' × (((ret ≡ neg einval) × (f_pos' ≡ f_pos)) ⊎ (ret ≡ f_pos'))
unfolding at24_eeprom_llseek
llseek-OnChip p f_pos offset whence c = ground arith

pub llseek_back :
    (p : At24Data) (f_pos : ℤ) (o : ℕ)
    → o < p.size
    → (at24_eeprom_llseek p f_pos (pos o) seek_set).1 ≡ pos o
unfolding at24_eeprom_llseek
llseek_back p f_pos o h = ground arith

pos_add_diff : (o n : ℕ) → pos o +ℤ (pos n -ℤ pos o) ≡ pos n
pos_add_diff o n = ground arith

-- SEEK_SET and SEEK_CUR to a position on the chip succeed, and move there.
llseek_moves :
    (p : At24Data) (o n : ℕ)
    → o < p.size
    → n < p.size
    → (at24_eeprom_llseek p (pos o) (pos n) seek_set ≡ (pos n, pos n))
      × (at24_eeprom_llseek p (pos o) (pos n -ℤ pos o) seek_cur ≡ (pos n, pos n))
unfolding at24_eeprom_llseek
llseek_moves p o n ho hn = rw (pos_add_diff o n) (ground arith)

-- SEEK_END fails for every offset: the size is unsigned, so its negation is no negative bound.
llseek_end_fails :
    (p : At24Data) (f_pos offset : ℤ)
    → at24_eeprom_llseek p f_pos offset seek_end ≡ (neg einval, f_pos)
unfolding at24_eeprom_llseek
llseek_end_fails p f_pos offset = ground arith

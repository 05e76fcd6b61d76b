-- ===== src/Led/Write.antt =====
-- What a write to the LED drivers does to the pin.
use yocto_meta_hsiao.Base.{
  ℕ, ◌<◌, ◌≡◌, Bool, false, List, [], ◌∷◌, some, ◌==◌, if◌then◌else◌, pos, neg, arith,
}
use yocto_meta_hsiao.Led.{led_write, einval}

-- Where the user writes a single byte, LED_ON or LED_OFF, the write obeys it
-- exactly if the second byte of the buffer, left there by an earlier write, is 0; otherwise it
-- fails with -EINVAL and leaves the pin.
one_byte_write :
    (c first high : ℕ) (rest : List ℕ) (pin : Bool)
    → c < 2
    → led_write false (c ∷ []) (first ∷ high ∷ rest) pin
      ≡ some (
          if high == 0
          then (pos 0, c ∷ high ∷ rest, c == 1)
          else (neg einval, c ∷ high ∷ rest, pin))
unfolding led_write
one_byte_write c first high rest pin h = ground arith

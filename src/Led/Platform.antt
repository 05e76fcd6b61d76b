-- ===== src/Led/Platform.antt =====
-- recipes-kernel/hsiao-kmod/files/16_gpioled_platform.c, which lights an LED while its platform
-- device is bound.
use yocto_meta_hsiao.Base.{
  is_nonzero, ◌≡◌, ◌≢◌, if◌then◌else◌, refl, true, false, pos, arith, Bool, ℤ,
}

-- What `devm_gpiod_get_optional` returns: a descriptor of a pin that is now an output at low, no
-- pin, or an error pointer. The calls that set a pin do nothing with the last two.
pub data GpioDesc : Type 0 where
  desc no_desc error_desc : GpioDesc

-- The descriptor that `gpioled` keeps, and the level of the pin in the device tree.
pub record LedGpio : Type 0 where
  pub gpiod : GpioDesc
  pub level : Bool

abbrev pub gpiod_set_value : Bool → LedGpio → LedGpio
gpiod_set_value level g = elim g.gpiod [
  | desc ↦ record g { level = level }
  | no_desc ↦ g
  | error_desc ↦ g
]

abbrev pub got : GpioDesc → Bool → Bool
got desc level = false
got no_desc level = level
got error_desc level = level

-- `gpioled_probe`, from what the pin's request returns; the property that it reads is not used.
unfoldable pub gpioled_probe : GpioDesc → LedGpio → ℤ × LedGpio
gpioled_probe gpiod g =
    (pos 0, gpiod_set_value true (record { gpiod = gpiod; level = got gpiod g.level }))

-- `gpioled_remove`
unfoldable pub gpioled_remove : LedGpio → LedGpio
gpioled_remove g = gpiod_set_value false g

-- `gpioled_dev_init`, from what the registration of the driver returns.
abbrev pub gpioled_dev_init : ℤ → ℤ
gpioled_dev_init ret = if is_nonzero ret then ret else pos 0

-- The probe always succeeds. Where it gets the pin, the pin is high until the remove and low
-- after it; where it gets none, or an error, it touches no pin.
probe-remove :
    (gpiod : GpioDesc) (g : LedGpio)
    → let (ret, g') = gpioled_probe gpiod g in
      (ret ≡ pos 0)
      × (gpiod ≡ desc → (g'.level ≡ true) × ((gpioled_remove g').level ≡ false))
      × (gpiod ≢ desc → (g'.level ≡ g.level) × ((gpioled_remove g').level ≡ g.level))
unfolding gpioled_probe gpioled_remove
probe-remove desc g = (refl, λ e. (refl, refl), λ e. absurd (e refl))
probe-remove no_desc g = (refl, λ e. absurd (ground (arith, e)), λ e. (refl, refl))
probe-remove error_desc g = (refl, λ e. absurd (ground (arith, e)), λ e. (refl, refl))

-- ===== src/Registration.antt =====
-- What the drivers of recipes-kernel/ register with the kernel when they are loaded and give back:
-- the calls that succeed, in order, and the rule that resources are released in the reverse order.
pub mod Unwind
pub mod Leaky
pub mod TimerModule
pub mod Files
mod Tests
use yocto_meta_hsiao.Base.{
  ℕ, ◌+◌, ◌*◌, ◌/◌, ◌%◌, ◌^◌, Bool, true, false, List, [], ◌∷◌, Option, none, some, ◌==◌,
  if◌then◌else◌, ℤ, negsuc,
}

pub data Resource : Type 0 where
  region cdev class device workqueue gpio : Resource

-- A call that acquires a resource, or that releases it.
pub data KernelCall : Type 0 where
  acquire release : Resource → KernelCall

-- A result that is a pointer, tested by `IS_ERR`; `err n` is the error number n + 1.
pub data Ptr : Type 0 where
  valid : Ptr
  err : ℕ → Ptr

abbrev resource_id : Resource → ℕ
resource_id region = 0
resource_id cdev = 1
resource_id class = 2
resource_id device = 3
resource_id workqueue = 4
resource_id gpio = 5

abbrev pub release_top : Resource → List Resource → Option (List Resource)
release_top r [] = none
release_top r (s ∷ held) = if resource_id r == resource_id s then some held else none

-- What is held after the calls, the newest first; `none` if something is released that is not the
-- resource acquired last of those held.
abbrev pub replay : List KernelCall → List Resource → Option (List Resource)
replay [] held = some held
replay (acquire r ∷ calls) held = replay calls (r ∷ held)
replay (release r ∷ calls) held = elim (release_top r held) [
  | none ↦ none
  | some rest ↦ replay calls rest
]

-- MKDEV, MAJOR and MINOR: 20 bits of minor number.
abbrev pub mkdev : ℕ → ℕ → ℕ
mkdev major minor = major * 2 ^ 20 + minor

abbrev pub major_of : ℕ → ℕ
major_of dev = dev / 2 ^ 20

abbrev pub minor_of : ℕ → ℕ
minor_of dev = dev % 2 ^ 20

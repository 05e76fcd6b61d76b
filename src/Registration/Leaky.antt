-- ===== src/Registration/Leaky.antt =====
-- The modules that do not unwind: `Char_Dev_Init` and `Char_Dev_Exit` of
-- hsiao-kmod/files/5_new_chardevtest.c, and `Led_Init` and `Led_Exit` of 8_gpioled.c and 9_thread.c
-- (the second has its lock to initialise as well).
use yocto_meta_hsiao.Base.{
  ℕ, ◌≡◌, ◌≢◌, Bool, true, false, not, List, [], ◌∷◌, ◌++◌, none, some, ◌==◌, if◌then◌else◌, ℤ, pos,
  neg, is_neg, is_nonzero, arith,
}
use yocto_meta_hsiao.Registration.{
  Resource, region, cdev, class, device, gpio, KernelCall, acquire, release, Ptr, valid, err,
  replay, mkdev, major_of, minor_of,
}

-- The device numbers that `cdevinfo`, `gpioled` and `timerdev` keep.
pub record Numbers : Type 0 where
  pub major : ℕ
  pub minor : ℕ
  pub dev_id : ℕ

-- What the kernel answers; `dev` is the number that `alloc_chrdev_region` picks.
pub record Answers : Type 0 where
  pub dev : ℕ
  pub region_ret : ℤ
  pub cdev_ret : ℤ
  pub class_ptr : Ptr
  pub device_ptr : Ptr

-- What an init leaves: its result, its calls, and the numbers.
pub record Left : Type 0 where
  pub ret : ℤ
  pub calls : List KernelCall
  pub numbers : Numbers

-- An error pointer is only reported, and the init goes on.
abbrev pub acquired : Resource → Ptr → List KernelCall
acquired r valid = acquire r ∷ []
acquired r (err n) = []

-- `register_chrdev_region` for a major number that is set, else `alloc_chrdev_region`.
abbrev pub with_numbers : Numbers → Answers → Numbers
with_numbers s a =
    if not (s.major == 0)
    then record s { dev_id = mkdev s.major s.minor }
    else if is_nonzero a.region_ret
    then s
    else record { major = major_of a.dev; minor = minor_of a.dev; dev_id = a.dev }

-- `Char_Dev_Init`
unfoldable pub char_dev_init : Numbers → Answers → Left
char_dev_init s a =
    if is_nonzero a.region_ret
    then record { ret = a.region_ret; calls = []; numbers = with_numbers s a }
    else if is_nonzero a.cdev_ret
    then record { ret = a.cdev_ret; calls = acquire region ∷ []; numbers = with_numbers s a }
    else record {
      ret = a.cdev_ret;
      calls =
          acquire region
          ∷ acquire cdev
          ∷ (acquired class a.class_ptr ++ acquired device a.device_ptr);
      numbers = with_numbers s a;
    }

-- `Char_Dev_Exit`
unfoldable pub char_dev_exit : List KernelCall
char_dev_exit = release class ∷ release device ∷ release cdev ∷ release region ∷ []

-- What the device tree and the pins answer: is the node there, the number of the pin or an error,
-- and the result of `gpio_direction_output`.
pub record Pins : Type 0 where
  pub node : Bool
  pub led_gpio : ℤ
  pub direction : ℤ

-- The part of `Led_Init` of 8_gpioled.c and 9_thread.c behind the device node: its result. It asks
-- for no pin by `gpio_request`.
abbrev pub led_pins : Pins → ℤ
led_pins g =
    if not g.node
    then neg 22
    else if is_neg g.led_gpio
    then neg 22
    else if is_nonzero g.direction
    then pos 22
    else g.direction

-- `Led_Init`: the registration of `Char_Dev_Init`, then the pin.
unfoldable pub led_init : Numbers → Answers → Pins → Left
unfolding char_dev_init
led_init s a g =
    let l = char_dev_init s a in if is_nonzero l.ret then l else record l { ret = led_pins g }

-- `Led_Exit`
pub led_exit : List KernelCall
unfolding char_dev_exit
led_exit = release gpio ∷ char_dev_exit

-- `Led_Exit` of 9_thread.c, the same text.
abbrev thread_led_exit : List KernelCall
thread_led_exit = led_exit

-- Where `Led_Init` of the LED drivers fails after it has registered the device number, not
-- everything that it acquired is released: some resource is still held, or was released out of
-- order.
pub led_init_leaks :
    (s : Numbers) (a : Answers) (g : Pins)
    → is_nonzero a.region_ret ≡ false
    → is_nonzero (led_init s a g).ret ≡ true
    → replay (led_init s a g).calls [] ≢ some []
unfolding led_init
led_init_leaks s a g registered failed e = ground arith

-- After an init that acquired everything, the exit destroys the class before the device made in it.
char_dev_exit_order :
    (s : Numbers) (a : Answers)
    → is_nonzero a.region_ret ≡ false
    → is_nonzero a.cdev_ret ≡ false
    → a.class_ptr ≡ valid
    → a.device_ptr ≡ valid
    → replay ((char_dev_init s a).calls ++ char_dev_exit) [] ≡ none
unfolding char_dev_init char_dev_exit
char_dev_exit_order s a r c k d = ground arith

-- Whether the number is picked by the kernel or set before, the three fields agree after an init
-- that registers it: `dev_id` is made of `major` and `minor`.
numbers_agree :
    (s : Numbers) (a : Answers)
    → is_nonzero a.region_ret ≡ false
    → let n = (char_dev_init s a).numbers in n.dev_id ≡ mkdev n.major n.minor
unfolding char_dev_init
numbers_agree s a r = ground arith

-- ===== src/Registration/TimerModule.antt =====
-- `Timer_Init`, its `Led_Init`, and `Timer_Exit` of hsiao-kmod/files/12_timer.c.
use yocto_meta_hsiao.Base.{
  arith, is_nonzero, ◌≡◌, ◌≢◌, ◌∷◌, ◌++◌, [], if◌then◌else◌, true, false, none, some, not, pos, neg,
  ℤ, Bool, List, is_neg,
}
use yocto_meta_hsiao.Registration.{KernelCall, release, gpio, valid, replay}
use yocto_meta_hsiao.Registration.Leaky.{
  led_init, led_init_leaks, Numbers, Answers, Left, Pins, char_dev_init, char_dev_exit,
}

-- `Led_Init`, with `desc` the result of `gpio_to_desc`, and its calls: the pin is freed where it
-- has no descriptor, and never asked for.
unfoldable pub timer_led_init : Pins → Bool → ℤ × List KernelCall
timer_led_init g desc =
    if not g.node
    then (neg 22, [])
    else if is_neg g.led_gpio
    then (neg 22, [])
    else if is_nonzero g.direction
    then (pos 22, [])
    else if not desc
    then (neg 14, release gpio ∷ [])
    else (pos 0, [])

-- The numbers of `timerdev` before `Timer_Init`, which always lets the kernel pick them.
abbrev unset : Numbers
unset = record { major = 0; minor = 0; dev_id = 0 }

-- `Timer_Init`: the registration of `Char_Dev_Init`, then the pin.
unfoldable pub timer_init : Answers → Pins → Bool → Left
timer_init a g desc =
    let l = char_dev_init unset a in
    let (ret, calls) = timer_led_init g desc in
    if is_nonzero l.ret
    then l
    else if is_nonzero ret
    then record l { ret = neg 14; calls = l.calls ++ calls }
    else record l { calls = l.calls ++ calls }

-- `Timer_Exit`, `gpio_num` being that of a pin that was found: it frees the pin, too.
pub timer_exit : List KernelCall
timer_exit = release gpio ∷ char_dev_exit

timer_exit_order :
    (a : Answers) (g : Pins) (desc : Bool)
    → is_nonzero a.region_ret ≡ false
    → is_nonzero (timer_init a g desc).ret ≡ false
    → a.class_ptr ≡ valid
    → a.device_ptr ≡ valid
    → replay ((timer_init a g desc).calls ++ timer_exit) [] ≡ none
unfolding timer_init timer_led_init char_dev_init char_dev_exit timer_exit
timer_exit_order a g desc registered done c d = ground arith

timer_init_leaks :
    (a : Answers) (g : Pins) (desc : Bool)
    → is_nonzero a.region_ret ≡ false
    → is_nonzero (timer_init a g desc).ret ≡ true
    → replay (timer_init a g desc).calls [] ≢ some []
unfolding timer_init timer_led_init char_dev_init
timer_init_leaks a g desc registered failed e = ground arith

-- Where `Led_Init` of the LED drivers or `Timer_Init` fails after it has registered the device
-- number, not everything that it acquired is released: some resource is still held, or something was
-- released out of order or not acquired. Where `Timer_Init` succeeds and acquires everything,
-- `Timer_Exit` releases out of order.
inits_leak :
    (s : Numbers) (a : Answers) (g : Pins) (desc : Bool)
    → is_nonzero a.region_ret ≡ false
    → (is_nonzero (led_init s a g).ret ≡ true → replay (led_init s a g).calls [] ≢ some [])
      × (is_nonzero (timer_init a g desc).ret ≡ true
          → replay (timer_init a g desc).calls [] ≢ some [])
      × (is_nonzero (timer_init a g desc).ret ≡ false
          → a.class_ptr ≡ valid
          → a.device_ptr ≡ valid
          → replay ((timer_init a g desc).calls ++ timer_exit) [] ≡ none)
inits_leak s a g desc registered = (
  led_init_leaks s a g registered,
  timer_init_leaks a g desc registered,
  timer_exit_order a g desc registered,
)

-- ===== src/Led/Unprepared.antt =====
-- What 9_thread.c leaves if `Led_Init` returns its positive error.
use yocto_meta_hsiao.Base.{arith, is_nonzero, ◌≡◌, refl, true, false, none, some, pos, neg, is_neg}
use yocto_meta_hsiao.Registration.Leaky.{Numbers, Answers, Pins, led_init, char_dev_init}
use yocto_meta_hsiao.Led.{semaphore, thread_led_init, led_open, ebusy}

led_init_positive :
    (s : Numbers) (a : Answers) (g : Pins)
    → is_nonzero a.region_ret ≡ false
    → is_nonzero a.cdev_ret ≡ false
    → g.node ≡ true
    → is_neg g.led_gpio ≡ false
    → is_nonzero g.direction ≡ true
    → (led_init s a g).ret ≡ pos 22
unfolding led_init char_dev_init
led_init_positive s a g region cdev node pin output =
    ground (arith, region, cdev, node, pin, output)

-- If the registration succeeds and the pin is found but cannot be made an output, `Led_Init`
-- returns 22, which is no negative error, and the locks are such that with the semaphore an open
-- waits, or fails with -EBUSY when a signal comes and leaves the locks as they are.
unprepared-led_open :
    (s : Numbers) (a : Answers) (g : Pins)
    → is_nonzero a.region_ret ≡ false
    → is_nonzero a.cdev_ret ≡ false
    → g.node ≡ true
    → is_neg g.led_gpio ≡ false
    → is_nonzero g.direction ≡ true
    → let (left, d) = thread_led_init semaphore s a g in
      (left.ret ≡ pos 22)
      × (led_open semaphore false d ≡ none)
      × (led_open semaphore true d ≡ some (neg ebusy, d))
unfolding thread_led_init led_open
unprepared-led_open s a g region cdev node pin output =
    let e = led_init_positive s a g region cdev node pin output in rw e (refl, refl, refl)

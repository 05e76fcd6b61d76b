-- ===== src/Registration/Unwind.antt =====
-- The drivers that unwind: `at24_probe` and `at24_remove` of hsiao-kmod/files/22_i2c_at24.c,
-- `lpuart_probe` and `lpuart_remove` of lpuart_interrupt.c and lpuart_polling.c, and
-- `net_watchdog_init` and `net_watchdog_exit` of ethernet/files/3_net_watchdog.c.
use yocto_meta_hsiao.Base.{
  ◌≡◌, ◌⊎◌, Bool, true, not, List, [], ◌∷◌, ◌++◌, Option, none, some, if◌then◌else◌, ℤ, pos, negsuc,
  neg, is_neg, is_nonzero, arith,
}
use yocto_meta_hsiao.Registration.{
  region, cdev, class, device, workqueue, KernelCall, acquire, release, Ptr, valid, err, replay,
}

-- What the kernel answers to the registration of a character device.
pub record Answers : Type 0 where
  pub region_ret : ℤ
  pub cdev_ret : ℤ
  pub class_ptr : Ptr
  pub device_ptr : Ptr

-- The error labels of a probe, each falling through to the next.
abbrev unreg_region : List KernelCall
unreg_region = release region ∷ []

abbrev del_cdev : List KernelCall
del_cdev = release cdev ∷ unreg_region

abbrev destroy_class : List KernelCall
destroy_class = release class ∷ del_cdev

-- From the class on, with the region and the cdev held.
abbrev device_steps : Ptr → ℤ × List KernelCall
device_steps valid = (pos 0, acquire device ∷ [])
device_steps (err n) = (negsuc n, destroy_class)

abbrev class_steps : Ptr → Ptr → ℤ × List KernelCall
class_steps valid d = let (ret, calls) = device_steps d in (ret, acquire class ∷ calls)
class_steps (err n) d = (negsuc n, del_cdev)

-- The steps numbered 1 to 4 in `at24_probe` and 4.1 to 4.4 in `lpuart_probe`.
pub register_steps : Answers → ℤ × List KernelCall
register_steps a =
    if is_neg a.region_ret
    then (a.region_ret, [])
    else if is_neg a.cdev_ret
    then (a.cdev_ret, acquire region ∷ unreg_region)
    else (let (ret, calls) = class_steps a.class_ptr a.device_ptr in
        (ret, acquire region ∷ acquire cdev ∷ calls))

-- `at24_probe`; what `devm_kzalloc` gives is released by the kernel.
pub at24_probe : Bool → Answers → ℤ × List KernelCall
unfolding register_steps
at24_probe allocated a = if allocated then register_steps a else (neg 12, [])

pub at24_remove : List KernelCall
at24_remove = release device ∷ release class ∷ release cdev ∷ release region ∷ []

-- What `lpuart_probe` asks for first, all managed by the kernel: memory, the mapped registers, the
-- clock and the interrupt number.
pub record Managed : Type 0 where
  pub allocated : Bool
  pub base : Ptr
  pub clk : Ptr
  pub irq : ℤ

abbrev ptr_error : Ptr → Option ℤ
ptr_error valid = none
ptr_error (err n) = some (negsuc n)

abbrev or_else : Option ℤ → ℤ × List KernelCall → ℤ × List KernelCall
or_else none r = r
or_else (some e) r = (e, [])

-- `lpuart_probe` of lpuart_interrupt.c.
pub lpuart_probe : Managed → Answers → ℤ × List KernelCall
unfolding register_steps
lpuart_probe m a =
    if not m.allocated
    then (neg 12, [])
    else or_else (ptr_error m.base)
        (or_else (ptr_error m.clk) (if is_neg m.irq then (m.irq, []) else register_steps a))

-- `lpuart_probe` of lpuart_polling.c: the same with no interrupt.
pub polling_probe : Managed → Answers → ℤ × List KernelCall
unfolding register_steps
polling_probe m a =
    if not m.allocated
    then (neg 12, [])
    else or_else (ptr_error m.base) (or_else (ptr_error m.clk) (register_steps a))

pub lpuart_remove : List KernelCall
lpuart_remove = release device ∷ release class ∷ release cdev ∷ release region ∷ []

-- `lpuart_remove` of lpuart_polling.c, the same text.
abbrev polling_remove : List KernelCall
polling_remove = lpuart_remove

-- `net_watchdog_init`. Its labels end in `destroy_workqueue`.
abbrev err_wq : List KernelCall
err_wq = release workqueue ∷ []

abbrev watchdog_device : Ptr → ℤ × List KernelCall
watchdog_device valid = (pos 0, acquire device ∷ [])
watchdog_device (err n) = (negsuc n, release class ∷ release cdev ∷ release region ∷ err_wq)

abbrev watchdog_class : Ptr → Ptr → ℤ × List KernelCall
watchdog_class valid d = let (ret, calls) = watchdog_device d in (ret, acquire class ∷ calls)
watchdog_class (err n) d = (negsuc n, release cdev ∷ release region ∷ err_wq)

pub net_watchdog_init : Bool → Answers → ℤ × List KernelCall
net_watchdog_init has_queue a =
    if not has_queue
    then (neg 12, [])
    else if is_nonzero a.region_ret
    then (a.region_ret, acquire workqueue ∷ err_wq)
    else if is_nonzero a.cdev_ret
    then (a.cdev_ret, acquire workqueue ∷ acquire region ∷ release region ∷ err_wq)
    else (let (ret, calls) = watchdog_class a.class_ptr a.device_ptr in
        (ret, acquire workqueue ∷ acquire region ∷ acquire cdev ∷ calls))

pub net_watchdog_exit : List KernelCall
net_watchdog_exit =
    release device ∷ release class ∷ release cdev ∷ release region ∷ release workqueue ∷ []

-- A probe is balanced: it fails, with everything it had acquired released in the reverse order, or
-- it succeeds, and what removes the driver releases all that it holds, in the reverse order.
abbrev pub Balanced : List KernelCall → ℤ × List KernelCall → Type 0
Balanced remove (ret, calls) =
    ((is_nonzero ret ≡ true) × (replay calls [] ≡ some []))
    ⊎ ((ret ≡ pos 0) × (replay (calls ++ remove) [] ≡ some []))

-- Whatever the kernel answers, the probe of the EEPROM driver either fails, having released in the
-- reverse order all that it had acquired, or succeeds, and its remove then releases all, in the
-- reverse order.
at24_probe-Balanced :
    (allocated : Bool) (a : Answers) → Balanced at24_remove (at24_probe allocated a)
unfolding at24_probe at24_remove
at24_probe-Balanced allocated a = ground arith

-- Whatever the kernel answers, the probe of each UART driver either fails, having released in the
-- reverse order all that it had acquired, or succeeds, and the remove then releases all, in the
-- reverse order.
pub lpuart_probe-Balanced :
    (m : Managed) (a : Answers)
    → Balanced lpuart_remove (lpuart_probe m a) × Balanced polling_remove (polling_probe m a)
unfolding lpuart_probe polling_probe lpuart_remove
lpuart_probe-Balanced m a = (ground arith, ground arith)

-- Whatever the kernel answers, the watchdog's init either fails, having released in the reverse
-- order all that it had acquired, or succeeds, and its exit then releases all, in the reverse
-- order.
net_watchdog_init-Balanced :
    (has_queue : Bool) (a : Answers) → Balanced net_watchdog_exit (net_watchdog_init has_queue a)
unfolding net_watchdog_init net_watchdog_exit
net_watchdog_init-Balanced has_queue a = ground arith

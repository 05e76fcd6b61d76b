-- ===== src/Registration/Tests.antt =====
-- The theorems on registration at concrete answers of the kernel.
use yocto_meta_hsiao.Base.{Bool, ◌&&◌, List, [], ◌∷◌, ◌≡◌, refl, false, true, pos, neg}
use yocto_meta_hsiao.Registration.Files.{
  FileOp, open_op, release_op, read_op, write_op, llseek_op, ioctl_op, at24_fops, timer_fops,
  chrdevbase_fops, new_chrdevbase_fops, gpioled_fops, thread_fops, uart_fops, polling_fops,
  net_watchdog_fops,
}
use yocto_meta_hsiao.Registration.{valid, err, mkdev}
use yocto_meta_hsiao.Registration.Unwind.{
  Managed, Balanced, at24_probe, at24_remove, lpuart_probe, polling_probe, lpuart_remove,
  lpuart_probe-Balanced, net_watchdog_init, net_watchdog_exit,
}
use yocto_meta_hsiao.Registration.Unwind
use yocto_meta_hsiao.Registration.Leaky
use yocto_meta_hsiao.Registration.Leaky.{Numbers, led_init, Pins}

-- No class can be created.
abbrev no_class : Unwind.Answers
no_class = record { region_ret = pos 0; cdev_ret = pos 0; class_ptr = err 11; device_ptr = valid }

abbrev managed : Managed
managed = record { allocated = true; base = valid; clk = valid; irq = pos 30 }

lpuart_probe-Balanced_example :
    Balanced lpuart_remove (lpuart_probe managed no_class)
    × Balanced lpuart_remove (polling_probe managed no_class)
lpuart_probe-Balanced_example = lpuart_probe-Balanced managed no_class

abbrev all_well : Leaky.Answers
all_well = record {
  dev = mkdev 240 3;
  region_ret = pos 0;
  cdev_ret = pos 0;
  class_ptr = valid;
  device_ptr = valid;
}

abbrev no_output : Pins
no_output = record { node = true; led_gpio = pos 7; direction = neg 5 }

abbrev unset : Numbers
unset = record { major = 0; minor = 0; dev_id = 0 }

-- Does a table have a function for each of the calls?
abbrev has : List FileOp → FileOp → Bool
has [] op = false
has (open_op ∷ ops) open_op = true
has (release_op ∷ ops) release_op = true
has (read_op ∷ ops) read_op = true
has (write_op ∷ ops) write_op = true
has (llseek_op ∷ ops) llseek_op = true
has (ioctl_op ∷ ops) ioctl_op = true
has (op' ∷ ops) op = has ops op

abbrev serves : List FileOp → List FileOp → Bool
serves ops [] = true
serves ops (op ∷ asked) = has ops op && serves ops asked

-- The calls that the programs make have functions, of the EEPROM, the timer, the character devices,
-- the LEDs and the watchdog.
programs_served :
    (serves at24_fops (open_op ∷ write_op ∷ llseek_op ∷ read_op ∷ []) ≡ true)
    × (serves timer_fops (open_op ∷ ioctl_op ∷ []) ≡ true)
    × (serves chrdevbase_fops (open_op ∷ read_op ∷ write_op ∷ release_op ∷ []) ≡ true)
    × (serves new_chrdevbase_fops (open_op ∷ read_op ∷ write_op ∷ release_op ∷ []) ≡ true)
    × (serves gpioled_fops (open_op ∷ write_op ∷ release_op ∷ []) ≡ true)
    × (serves thread_fops (open_op ∷ write_op ∷ release_op ∷ []) ≡ true)
    × (serves net_watchdog_fops (open_op ∷ write_op ∷ release_op ∷ []) ≡ true)
programs_served = (refl, refl, refl, refl, refl, refl, refl)

-- The polling UART driver is not told when its device is closed.
polling_not_released :
    (serves uart_fops (release_op ∷ []) ≡ true) × (serves polling_fops (release_op ∷ []) ≡ false)
polling_not_released = (refl, refl)

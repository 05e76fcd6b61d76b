-- ===== src/Registration/Files.antt =====
-- The device files of the drivers: which calls their `struct file_operations` have a function for,
-- and the `open` and `release` functions that only keep or find the driver's data. Those of
-- K/9_thread.c and of the LPUART drivers, which do more, are in Led.antt and Lpuart/Power.
use yocto_meta_hsiao.Base.{◌∷◌, [], pos, ℤ, List, ℕ}

-- The calls that a program makes of a device file.
pub data FileOp : Type 0 where
  open_op release_op read_op write_op llseek_op ioctl_op : FileOp

abbrev pub at24_fops : List FileOp
at24_fops = open_op ∷ read_op ∷ write_op ∷ llseek_op ∷ []

abbrev pub timer_fops : List FileOp
timer_fops = open_op ∷ ioctl_op ∷ []

abbrev pub chrdevbase_fops : List FileOp
chrdevbase_fops = open_op ∷ release_op ∷ read_op ∷ write_op ∷ []

-- The table of 5_new_chardevtest.c.
abbrev pub new_chrdevbase_fops : List FileOp
new_chrdevbase_fops = open_op ∷ release_op ∷ read_op ∷ write_op ∷ []

abbrev pub gpioled_fops : List FileOp
gpioled_fops = open_op ∷ release_op ∷ read_op ∷ write_op ∷ []

-- The table of 9_thread.c.
abbrev pub thread_fops : List FileOp
thread_fops = open_op ∷ release_op ∷ read_op ∷ write_op ∷ []

abbrev pub uart_fops : List FileOp
uart_fops = open_op ∷ release_op ∷ write_op ∷ read_op ∷ []

-- The table of lpuart_polling.c.
abbrev pub polling_fops : List FileOp
polling_fops = open_op ∷ write_op ∷ read_op ∷ []

abbrev pub net_watchdog_fops : List FileOp
net_watchdog_fops = open_op ∷ release_op ∷ write_op ∷ []

-- `file->private_data`, the address of the driver's data, which is 0 before it is set.
pub record OpenFile : Type 0 where
  pub private_data : ℕ

-- `at24_open`, for `inode->i_cdev`, with `container_of(_, struct at24_data, cdev)` of the kernel.
abbrev at24_open : (ℕ → ℕ) → ℕ → OpenFile → ℤ × OpenFile
at24_open container_of i_cdev f = (pos 0, record f { private_data = container_of i_cdev })

-- How `uart_open` of the LPUART drivers begins, with that of `struct lpuart_dev`.
abbrev uart_find : (ℕ → ℕ) → ℕ → OpenFile → OpenFile
uart_find container_of i_cdev f = record f { private_data = container_of i_cdev }

-- `Timer_Open`, for the address of `timerdev`.
abbrev timer_open : ℕ → OpenFile → ℤ × OpenFile
timer_open timerdev f = (pos 0, record f { private_data = timerdev })

-- `Led_Open` of 8_gpioled.c, for the address of `gpioled`.
abbrev gpioled_open : ℕ → OpenFile → ℤ × OpenFile
gpioled_open gpioled f = (pos 0, record f { private_data = gpioled })

-- `chrdevbase_open` and `chrdevbase_release` of 3_chardevtest.c return TRUE, and those of the watchdog 0.
abbrev chrdevbase_open : ℤ
chrdevbase_open = pos 0

abbrev chrdevbase_release : ℤ
chrdevbase_release = pos 0

abbrev net_watchdog_open : ℤ
net_watchdog_open = pos 0

abbrev net_watchdog_release : ℤ
net_watchdog_release = pos 0

-- ===== src/Lib.antt =====
-- Verification of the C programs and kernel modules of this repository: the I2C EEPROM driver, the
-- network watchdog and the monitor that drives it, the status program of an interface, the two LPUART
-- drivers, the LED, timer and character device drivers, and the programs that use them.
--
-- Parts, and where they are modelled (paths from the repository's root; K stands for
-- recipes-kernel/hsiao-kmod/files):
--   * K/22_i2c_at24.c, the EEPROM behind an I2C bus: At24.antt has `at24_eeprom_read` and
--     `at24_eeprom_write` with their kernel calls, At24/Seek `at24_eeprom_llseek`. The position,
--     the bus and a log of the kernel calls are a record `World`. At24/Chip says what the chip
--     behind the bus does with a message, for the theorems on what is stored; At24/Nacks has the
--     calls on a chip that need not acknowledge. At24/Sharing breaks
--     the calls of any number of processes into turns at the lock, over a bus that may also change
--     by itself; At24/Sharing/Memory is the memory that they are compared with, At24/Sharing/Cycle
--     and At24/Sharing/Solo have the chip's write cycle.
--   * recipes-kernel/ethernet/files/3_net_watchdog.c, which restarts an interface when it is told
--     to by a write: Watchdog.antt has the parser, `net_watchdog_write` and the work item on the
--     record `RestartContext`; Watchdog/Grammar is the grammar that the parser is compared with. Watchdog/Race breaks overlapping writes and the worker into their
--     accesses to the shared context, a step relation.
--   * recipes-app/ethernet/files/3_net_monitor.c, which pings a host and writes to the watchdog when
--     it does not answer: NetMonitor.antt has `checksum`, `has_ipv4_address`, `send_ping_once` and
--     one round of the loop in `main`; Watchdog/Parse has the line that `request_restart` writes,
--     next to the parser that reads it, NetMonitor/Main the arguments of `main` and what a round
--     reads from the system. Supervision.antt runs the rounds together with the driver: each request
--     is a write to it.
--   * recipes-app/ethernet/files/1_eth_status.c, which reports the state of an interface:
--     EthStatus.antt has what it reads from sysfs, the flags and the addresses, EthStatus/Report
--     `main`, EthStatus/Whole what it would report with buffers of any size. The search for a default route, which both programs have, is Routes.antt.
--   * recipes-kernel/ethernet/files/2_net_event_monitor.c, which prints the events of the network
--     devices: NetEvents.antt.
--   * K/lpuart_interrupt.c and K/lpuart_polling.c, character drivers of a UART: Lpuart.antt has the
--     register polling, `uart_write` and the polling `uart_read`, Lpuart/Receive the interrupt
--     handler and the `uart_read` it feeds through the kernel's FIFO, Lpuart/Power the order of
--     the calls in `uart_open` and `uart_close`. Lpuart/Race breaks `uart_read` into the turns of
--     any number of processes, with the interrupt handler between them; Lpuart/Race/Reopen is a
--     second `uart_open` meanwhile, Lpuart/Writers the same for `uart_write`. Lpuart/Wire connects two
--     boards.
--   * The module and device functions of these drivers, and `Char_Dev_Init`, `Char_Dev_Exit`,
--     `Led_Init` and `Led_Exit` of K/5_new_chardevtest.c, K/8_gpioled.c and K/9_thread.c:
--     Registration.antt, with Registration/Unwind for the drivers that release what they acquired
--     when they fail and Registration/Leaky for those that do not; Registration/TimerModule has
--     those of K/12_timer.c, Registration/Files the tables of file operations, and the `open` and
--     `release` functions that do no more than find or store the driver's data.
--   * K/9_thread.c and K/8_gpioled.c: Led.antt has `Led_Open` and `Led_Release` with their three kinds
--     of lock, its set-up in `Led_Init`, and `Led_Write`. Led/App and Led/ThreadApp are the programs
--     recipes-app/files/8_gpioled_app.c and 9_thread_app.c over them, Led/Sharing any number of
--     processes that run the second at the same time, Led/Platform is K/16_gpioled_platform.c.
--   * K/12_timer.c: Timer.antt has its ioctl and callback. Timer/App is the program
--     recipes-app/files/12_timer_app.c, over any device; Timer/Blink puts the two together, jiffy by
--     jiffy, over a kernel that may run an expired timer any number of jiffies late.
--   * recipes-app/files/22_i2c_at24c_app.c, the test of the EEPROM: At24/App, over the driver.
--   * K/3_chardevtest.c and its program recipes-app/files/3_chardevtest_app.c: Chardev.antt.
--     K/5_new_chardevtest.c and 5_new_chardevtest_app.c, whose read, write and `main` are the same
--     text: Chardev/Cdev, which runs the program any number of times.
--   * Text.antt, Text/Files and Text/Scan have the library functions on text that these programs use:
--     `fgets`, `snprintf`, `strrchr`, `strcmp`, `atoi`, and `sscanf` and `scanf` with their
--     conversions; Base.antt has the helpers that all share.
-- The tests and the theorems at concrete inputs are in the Tests module of each part.
--
-- Numbers are natural numbers with the wrap-around of 64-bit, 32-bit and 16-bit values written out
-- where the code can reach it; an `int` or `loff_t` is an integer. The kernel, the bus, the user's
-- memory and the network are parameters or lists of answers; what a theorem needs of them is a
-- hypothesis or a record of laws (`IsEeprom`, `MayNack`, `IsQueue`, `IsWire`), which the tests fill.
--
-- Loops. The write loop of the EEPROM driver runs on fuel, one more than the bytes to write:
-- each round writes a byte at least. The loop of the timer program runs on one more than the
-- bytes of its input, since a round that goes on has read one; the lines of a file are read on
-- its length (`lines-whole`), for the same reason. The 15 seconds of the LED program are five
-- rounds. Busy waiting on a UART and sleeping in its `uart_read` take the values and wakings
-- that will come as a list, and return `none` when it ends.
--
-- Not modelled: the layout of printed lines; the interrupt flags and the sleeping in
-- the locks of K/9_thread.c; device trees, recipes and configuration.
-- recipes-app/files/16_gpioled_platform_app.c is empty.
pub mod Base
pub mod At24
pub mod Text
pub mod Watchdog
pub mod Registration
pub mod Lpuart
pub mod Chardev
pub mod Led
pub mod Routes
pub mod EthStatus
pub mod NetEvents
pub mod NetMonitor
pub mod Supervision
pub mod Timer

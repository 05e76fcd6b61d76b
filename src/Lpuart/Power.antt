-- ===== src/Lpuart/Power.antt =====
-- `uart_open` of both LPUART drivers and `uart_close` of lpuart_interrupt.c: the order in which they
-- take and give back the FIFO, the clock and the interrupt, and write the registers.
use yocto_meta_hsiao.Base.{
  ℕ, zero, suc, ◌+◌, ◌-◌, ◌^◌, ◌≡◌, refl, Bool, true, false, List, [], ◌∷◌, ◌++◌, Option, none,
  some, ◌==◌, ◌&&◌, not, if◌then◌else◌, ℤ, pos, is_nonzero, arith,
}

-- Calls of the kernel that took effect, and writes of the CTRL and BAUD registers.
pub data PowerCall : Type 0 where
  kfifo_alloc kfifo_free clk_enable clk_disable request_irq free_irq : PowerCall
  writel_ctrl writel_baud : ℕ → PowerCall

-- CTRL_TE, CTRL_RE and CTRL_RIE.
abbrev pub ctrl_te : ℕ
ctrl_te = 2 ^ 19

abbrev pub ctrl_re : ℕ
ctrl_re = 2 ^ 18

abbrev pub ctrl_rie : ℕ
ctrl_rie = 2 ^ 21

-- What `kfifo_alloc`, `clk_prepare_enable` and `request_irq` return.
pub record OpenAnswers : Type 0 where
  pub fifo_ret : ℤ
  pub clk_ret : ℤ
  pub irq_ret : ℤ

-- `uart_open` of lpuart_interrupt.c: its result and its calls in order.
unfoldable pub uart_open : OpenAnswers → ℤ × List PowerCall
uart_open a =
    if is_nonzero a.fifo_ret
    then (a.fifo_ret, [])
    else if is_nonzero a.clk_ret
    then (a.clk_ret, kfifo_alloc ∷ kfifo_free ∷ [])
    else if is_nonzero a.irq_ret
    then (a.irq_ret, kfifo_alloc ∷ clk_enable ∷ clk_disable ∷ kfifo_free ∷ [])
    else (
      pos 0,
      kfifo_alloc
          ∷ clk_enable
          ∷ request_irq
          ∷ writel_ctrl 0
          ∷ writel_baud 0xF00000D
          ∷ writel_ctrl (ctrl_te + ctrl_re + ctrl_rie)
          ∷ [],
    )

-- `uart_close` of lpuart_interrupt.c.
unfoldable pub uart_close : List PowerCall
uart_close = writel_ctrl 0 ∷ free_irq ∷ clk_disable ∷ kfifo_free ∷ []

-- `uart_open` of lpuart_polling.c, from what `clk_prepare_enable` returns.
unfoldable pub polling_open : ℤ → ℤ × List PowerCall
polling_open clk_ret = if is_nonzero clk_ret then (clk_ret, []) else (
  pos 0,
  clk_enable ∷ writel_ctrl 0 ∷ writel_baud 0xF00000D ∷ writel_ctrl (ctrl_te + ctrl_re) ∷ [],
)

-- The chip and the driver's resources: has the FIFO memory, how often is the clock enabled, is the
-- interrupt handler installed, and the registers.
pub record Power : Type 0 where
  pub fifo : Bool
  pub clk : ℕ
  pub irq : Bool
  pub ctrl : ℕ
  pub baud : ℕ

abbrev has_clock : ℕ → Bool
has_clock zero = false
has_clock (suc n) = true

-- The effect of a call; `none` where it may not be made: memory, clock or interrupt given back that
-- is not held, an interrupt handler without a FIFO to fill, a register written without the clock,
-- the baud rate written with the port enabled, the FIFO freed under the interrupt handler.
abbrev pub step_power : PowerCall → Power → Option Power
step_power kfifo_alloc p = some (record p { fifo = true })
step_power kfifo_free p = if p.fifo && not p.irq then some (record p { fifo = false }) else none
step_power clk_enable p = some (record p { clk = suc p.clk })
step_power clk_disable p = if has_clock p.clk then some (record p { clk = p.clk - 1 }) else none
step_power request_irq p = if p.fifo && not p.irq then some (record p { irq = true }) else none
step_power free_irq p = if p.irq then some (record p { irq = false }) else none
step_power (writel_ctrl v) p = if has_clock p.clk then some (record p { ctrl = v }) else none
step_power (writel_baud v) p =
    if has_clock p.clk && p.ctrl == 0 then some (record p { baud = v }) else none

abbrev pub run_power : List PowerCall → Power → Option Power
run_power [] p = some p
run_power (c ∷ calls) p = elim (step_power c p) [ none ↦ none | some q ↦ run_power calls q ]

-- No one has the port open.
abbrev pub IsClosed : Power → Type 0
IsClosed p = (p.fifo ≡ false) × (p.irq ≡ false)

-- What an open port is.
abbrev pub opened : Power → Power
opened p = record {
  fifo = true;
  clk = suc p.clk;
  irq = true;
  ctrl = ctrl_te + ctrl_re + ctrl_rie;
  baud = 0xF00000D;
}

-- `uart_open` on a closed port makes only calls that are allowed, whatever the kernel answers: if
-- it fails, all is as before, and if it succeeds the port is set up, and `uart_close` gives
-- everything back, with the port disabled.
pub open-close :
    (a : OpenAnswers) (p : Power)
    → IsClosed p
    → let (ret, calls) = uart_open a in
      (is_nonzero ret ≡ true → run_power calls p ≡ some p)
      × (is_nonzero ret ≡ false → run_power calls p ≡ some (opened p))
      × (is_nonzero ret ≡ false
          → run_power (calls ++ uart_close) p ≡ some (record p { ctrl = 0; baud = 0xF00000D }))
unfolding uart_open uart_close
open-close a p (no_fifo, no_irq) = ground (arith, no_fifo, no_irq)

-- A second `uart_open` of a port that is open breaks the rules when its own FIFO is allocated and
-- `request_irq` refuses the interrupt line, which the first opener has: unwinding, it frees the
-- FIFO that the first opener's interrupt handler fills.
second_open :
    (a : OpenAnswers) (p : Power)
    → is_nonzero a.fifo_ret ≡ false
    → is_nonzero a.irq_ret ≡ true
    → (is_nonzero (uart_open a).0 ≡ true) × (run_power (uart_open a).1 (opened p) ≡ none)
unfolding uart_open
second_open a p h i = ground (arith, h, i)

-- A number of successful opens of the polling driver.
abbrev pub open_times : ℕ → List PowerCall
unfolding polling_open
open_times zero = []
open_times (suc n) = (polling_open (pos 0)).1 ++ open_times n

-- Opened any number of times, the polling driver makes only calls that are allowed, and leaves the
-- clock enabled once more for each open; it has no operation that gives it back.
polling_open-counts :
    (n : ℕ) (p : Power) → (q : Power) × (run_power (open_times n) p ≡ some q) × (q.clk ≡ p.clk + n)
unfolding polling_open
polling_open-counts zero p = (p, refl, omega arith)
polling_open-counts (suc n) p =
    let ready = record p { clk = suc p.clk; ctrl = ctrl_te + ctrl_re; baud = 0xF00000D } in
    let (q, ran, count) = polling_open-counts n ready in (q, ran, omega (arith, count))

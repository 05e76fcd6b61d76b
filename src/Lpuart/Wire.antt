-- ===== src/Lpuart/Wire.antt =====
-- Two boards with LPUARTs on one wire: `uart_write` on the one, and on the other the interrupt
-- handler and `uart_read` of lpuart_interrupt.c. The wire and the two chips are a parameter, which
-- says what interrupts the bytes written to DATA on the one board cause on the other.
use yocto_meta_hsiao.Base.{
  subst, refl, append_assoc, length-append, ◌+◌, arith, false, take_all, ◌≤◌, ◌<◌, ◌==◌, ◌∙◌, ◌∷◌,
  ◌++◌, [], sym, ap, true, some, pos, ℤ, List, Option, min, length, All, ℕ, ◌≡◌,
}
use yocto_meta_hsiao.Lpuart.{Line, uart_write}
use yocto_meta_hsiao.Lpuart.Transmit.{sent, readable, ready_reads, write-sends}
use yocto_meta_hsiao.Lpuart.Receive.{
  Kfifo, IsQueue, Interrupt, Sleep, Ended, Buffer, fifo_size, arrive, uart_read,
}
use yocto_meta_hsiao.Lpuart.Receive.Queue.{received, arrive-take}
use yocto_meta_hsiao.Lpuart.Receive.Reads.{available, read-delivers}

-- What a wire promises: each byte causes an interrupt with that byte, in order, and no others do.
abbrev pub IsWire : (List ℕ → List Interrupt) → Type 0
IsWire wire = (bs : List ℕ) → All (λ c. c < 256) bs → received (wire bs) ≡ bs

-- The sleep of a reader, from the interrupts that come before it has the lock again.
abbrev pub until : List Interrupt → List Sleep
until is = record { arrivals = is; signalled = false; taken = 0; locked = true } ∷ []

received-append :
    (early late : List Interrupt) → received (early ++ late) ≡ received early ++ received late
received-append [] late = refl
received-append (i ∷ early) late = ground (arith, received-append early late)

-- With a wire that brings each byte as one interrupt, in order, a reader that waits with an empty FIFO
-- on one board, its buffer not empty and one that can be written, and a writer on the other, with no
-- signal and no other reader: if the bytes that can be read are at most the 512 of the FIFO, and STAT
-- shows TDRE once for each, then the write returns, having sent them all. Wherever the interrupts are
-- cut into those that come before the reader, woken, has its lock again, one byte at least, and those
-- that come after its read, the read returns as many of the bytes that had come as fit its buffer; and
-- the bytes that it got, followed by what is in its FIFO in the end, are all that could be read, in
-- order, also where the write ends early with -EFAULT.
pub wire-delivers :
    (F : Kfifo) (contents : F.State → List ℕ)
    → IsQueue F contents
    → (wire : List ℕ → List Interrupt) → IsWire wire
    → (user : List (Option ℕ)) (stat : List ℕ) (b : Buffer) (s : F.State)
    → All (λ c. c < 256) (readable user)
    → length (readable user) ≤ fifo_size
    → length (readable user) ≤ ready_reads stat
    → 0 < b.count
    → b.count ≤ b.room
    → contents s ≡ []
    → (early late : List Interrupt) → wire (readable user) ≡ early ++ late
    → 0 < length (received early)
    → (ret : ℤ) × (m : Line) × (e : Ended F.State) × (uart_write
          (some user)
          (record { stat = stat; log = [] })
        ≡ some (ret, m))
      × (sent m.log ≡ readable user)
      × (uart_read F (some b) true (until early) s ≡ some e)
      × (e.ret ≡ pos (length e.bytes))
      × (length e.bytes ≡ min b.count (length (received early)))
      × (e.bytes ++ contents (arrive F late e.fifo) ≡ readable user)
wire-delivers F contents q wire w user stat b s bytes few times positive room empty early late cut
      woken =
    let (m, wrote, goes, paced) = write-sends user stat times in
    let brings : received early ++ received late ≡ readable user =
      sym (received-append early late) ∙ (ap received (sym cut) ∙ w (readable user) bytes) in
    let fits : length (received early) + length (received late) ≤ fifo_size =
      omega (arith, ap (λ xs. length xs) brings, length-append (received early) (received late)) in
    let is_empty : F.is_empty s ≡ true = q.is_empty_lem s ∙ ap (λ xs. length xs == 0) empty in
    let all : available F contents q s early ≡ received early =
      rw is_empty (take_all fifo_size (received early) (omega arith)) in
    let (e, read, ret, number, kept) =
      read-delivers F contents q b early s room positive
        (subst (λ xs. 0 < length xs) (sym all) woken) in
    let held : e.bytes ++ contents e.fifo ≡ received early = kept ∙ all in
    let less : length (contents e.fifo ++ received late) ≤ fifo_size = omega (
      arith,
      ap (λ xs. length xs) held,
      length-append e.bytes (contents e.fifo),
      length-append (contents e.fifo) (received late),
    ) in
    (
      _,
      m,
      e,
      wrote,
      goes,
      read,
      ret,
      number ∙ ap (λ xs. min b.count (length xs)) all,
      ap (λ xs. e.bytes ++ xs)
            (arrive-take F contents q late e.fifo
              ∙ take_all fifo_size (contents e.fifo ++ received late) less)
          ∙ (sym (append_assoc e.bytes (contents e.fifo) (received late))
              ∙ (ap (λ xs. xs ++ received late) held ∙ brings)),
    )

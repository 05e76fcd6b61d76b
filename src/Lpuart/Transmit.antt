-- ===== src/Lpuart/Transmit.antt =====
-- What `uart_write` of the two LPUART drivers puts on the wire.
use yocto_meta_hsiao.Base.{
  is_neg, ◌+◌, ℕ, suc, ◌≤◌, ◌<◌, ◌≡◌, refl, sym, ap, inl, inr, Bool, true, false, List, [], ◌∷◌,
  ◌++◌, append-nil, append_assoc, Option, none, some, if◌then◌else◌, length, pos, neg, Bool-cases,
  subst, arith,
}
use yocto_meta_hsiao.Lpuart.{
  uart_write_at, tdre, Access, readl_stat, writel_data, Line, wait_tdre, lpuart_putc, write_loop,
  uart_write, efault,
}

-- The bytes written to DATA, in order, of a log whose newest access comes first.
abbrev pub sent : List Access → List ℕ
sent [] = []
sent (writel_data c ∷ log) = sent log ++ c ∷ []
sent (readl_stat v ∷ log) = sent log

-- Was TDRE set when STAT was last read, with no write of DATA since?
abbrev pub is_ready : List Access → Bool
is_ready [] = false
is_ready (writel_data c ∷ log) = false
is_ready (readl_stat v ∷ log) = tdre v

-- Each write of DATA comes directly after a read of STAT that saw TDRE.
abbrev pub Paced : List Access → Type 0
Paced [] = Unit {0}
Paced (writel_data c ∷ log) = (is_ready log ≡ true) × Paced log
Paced (readl_stat v ∷ log) = Paced log

-- The values of STAT with TDRE set.
abbrev pub ready_reads : List ℕ → ℕ
ready_reads [] = 0
ready_reads (v ∷ stat) = if tdre v then suc (ready_reads stat) else ready_reads stat

-- The bytes before the first that cannot be read.
abbrev pub readable : List (Option ℕ) → List ℕ
readable [] = []
readable (none ∷ user) = []
readable (some c ∷ user) = c ∷ readable user

-- All the bytes can be read.
abbrev pub is_readable : List (Option ℕ) → Bool
is_readable [] = true
is_readable (none ∷ user) = false
is_readable (some c ∷ user) = is_readable user

wait_tdre_lem :
    (stat : List ℕ) (log : List Access)
    → Paced log
    → 0 < ready_reads stat
    → (m : Line) × (wait_tdre stat log ≡ some m)
      × (suc (ready_reads m.stat) ≡ ready_reads stat)
      × (sent m.log ≡ sent log)
      × (is_ready m.log ≡ true)
      × Paced m.log
unfolding wait_tdre
wait_tdre_lem [] log paced h = absurd (omega arith)
wait_tdre_lem (v ∷ stat) log paced h = elim (Bool-cases (tdre v)) [
  | inl e ↦ rw e (record { stat = stat; log = readl_stat v ∷ log }, refl, refl, refl, e, paced)
  | inr e ↦ rw e (
      wait_tdre_lem stat (readl_stat v ∷ log) paced
        (subst (λ b. 0 < (if b then suc (ready_reads stat) else ready_reads stat)) e h))
]

-- With TDRE set in some read, a byte goes out, and paced.
putc_lem :
    (l : Line) (c : ℕ)
    → Paced l.log
    → 0 < ready_reads l.stat
    → (m : Line) × (lpuart_putc l c ≡ some m)
      × (suc (ready_reads m.stat) ≡ ready_reads l.stat)
      × (sent m.log ≡ sent l.log ++ c ∷ [])
      × Paced m.log
unfolding lpuart_putc
putc_lem l c paced h =
    let (m, e, less, same, ready, paced') = wait_tdre_lem l.stat l.log paced h in
    rw (e, lpuart_putc)
      (
        record m { log = writel_data c ∷ m.log },
        refl,
        less,
        ap (λ ys. ys ++ c ∷ []) same,
        (ready, paced'),
      )

write_loop_lem :
    (user : List (Option ℕ)) (count : ℕ) (l : Line)
    → Paced l.log
    → length (readable user) ≤ ready_reads l.stat
    → (m : Line) × (write_loop user count l
        ≡ some (if is_readable user then pos count else neg efault, m))
      × (sent m.log ≡ sent l.log ++ readable user)
      × Paced m.log
unfolding write_loop
write_loop_lem [] count l paced h = (l, refl, sym (append-nil (sent l.log)), paced)
write_loop_lem (none ∷ user) count l paced h = (l, refl, sym (append-nil (sent l.log)), paced)
write_loop_lem (some c ∷ user) count l paced h =
    let (m, e, less, goes, paced') = putc_lem l c paced (omega arith) in
    let (m', e', goes', paced'') = write_loop_lem user count m paced' (omega (arith, less)) in
    rw (e, write_loop)
      (m', e', rw (goes', goes) (append_assoc (sent l.log) (c ∷ []) (readable user)), paced'')

-- If STAT shows TDRE at least once for each byte that can be read, `uart_write` returns: with
-- their number if all the user's bytes can be read, else with -EFAULT. It has then sent, in order, exactly the bytes before the
-- first that cannot be read, each directly after a read of STAT that saw TDRE.
pub write-sends :
    (user : List (Option ℕ)) (stat : List ℕ)
    → length (readable user) ≤ ready_reads stat
    → (m : Line) × (uart_write (some user) (record { stat = stat; log = [] })
        ≡ some (if is_readable user then pos (length user) else neg efault, m))
      × (sent m.log ≡ readable user)
      × Paced m.log
unfolding uart_write
write-sends user stat h = write_loop_lem user (length user) (record { stat = stat; log = [] }) tt h

advance_lem :
    (ok : Bool) (n off : ℕ)
    → (if is_neg (if ok then pos n else neg efault) then off else off + n)
      ≡ (if ok then off + n else off)
advance_lem true n off = refl
advance_lem false n off = refl

-- The file position goes on by `count` where all bytes are sent, and stays where one cannot be read.
uart_write_at-advances :
    (user : List (Option ℕ)) (off : ℕ) (stat : List ℕ)
    → length (readable user) ≤ ready_reads stat
    → (m : Line) × (uart_write (some user) (record { stat = stat; log = [] })
        ≡ some (if is_readable user then pos (length user) else neg efault, m))
      × (uart_write_at (some user) off (record { stat = stat; log = [] })
          ≡ some (
            if is_readable user then pos (length user) else neg efault,
            if is_readable user then off + length user else off,
            m,
          ))
unfolding uart_write uart_write_at
uart_write_at-advances user off stat h =
    let (m, wrote, goes, paced) =
      write_loop_lem user (length user) (record { stat = stat; log = [] }) tt h in
    (m, wrote, rw (wrote, uart_write_at, advance_lem (is_readable user) (length user) off) refl)

-- ===== src/Lpuart/Receive/Queue.antt =====
-- The interrupt handler of lpuart_interrupt.c against a bounded queue.
use yocto_meta_hsiao.Base.{
  ℕ, zero, suc, ◌%◌, ◌≡◌, ◌∙◌, refl, sym, ap, inl, inr, List, [], ◌∷◌, ◌++◌, append-nil,
  append_assoc, ltb, ◌&&◌, if◌then◌else◌, length, take, take_all, length-append, Bool-cases, arith,
}
use yocto_meta_hsiao.Lpuart.{rdrf}
use yocto_meta_hsiao.Lpuart.Receive.{Kfifo, IsQueue, Interrupt, fifo_size, lpuart_isr, arrive}

-- The bytes that a run of interrupts brings: those with RDRF set in STAT.
abbrev pub received : List Interrupt → List ℕ
received [] = []
received (i ∷ is) = if rdrf i.status then i.data_reg % 256 ∷ received is else received is

take-take_append {ℓ} :
    {A : Type ℓ} (n : ℕ) (xs ys : List A) → take n (take n xs ++ ys) ≡ take n (xs ++ ys)
take-take_append zero xs ys = refl
take-take_append (suc n) [] ys = refl
take-take_append (suc n) (x ∷ xs) ys = ap (◌∷◌ x) (take-take_append n xs ys)

take_full {ℓ} : {A : Type ℓ} (n : ℕ) (xs ys : List A) → length xs ≡ n → take n (xs ++ ys) ≡ xs
take_full zero [] ys h = refl
take_full zero (x ∷ xs) ys h = absurd (omega arith)
take_full (suc n) [] ys h = absurd (omega arith)
take_full (suc n) (x ∷ xs) ys h = ap (◌∷◌ x) (take_full n xs ys (omega arith))

received_cons :
    (i : Interrupt) (is : List Interrupt) → received (i ∷ []) ++ received is ≡ received (i ∷ is)
received_cons i is = ground arith

module _ (F : Kfifo) (contents : F.State → List ℕ) (q : IsQueue F contents) where
  -- One interrupt keeps the oldest 512 bytes and wakes the readers if its byte found room.
  pub isr_lem :
      (i : Interrupt) (s : F.State)
      → (contents (lpuart_isr F i s).0 ≡ take fifo_size (contents s ++ received (i ∷ [])))
        × ((lpuart_isr F i s).1 ≡ (rdrf i.status && ltb (length (contents s)) fifo_size))
  unfolding lpuart_isr
  isr_lem i s = elim (Bool-cases (rdrf i.status)) [
    | inr e ↦
        rw (e, append-nil (contents s)) (sym (take_all fifo_size (contents s) (q.bounded s)), refl)
    | inl e ↦ elim (Bool-cases (ltb (length (contents s)) fifo_size)) [
      | inl room ↦
          (let (t, put, goes) = q.put_room s (i.data_reg % 256) (ground arith) in
            rw (e, put, room)
              (
                goes
                    ∙ sym (
                        take_all fifo_size (contents s ++ i.data_reg % 256 ∷ [])
                          (grind (arith, length-append (contents s) (i.data_reg % 256 ∷ [])))),
                refl,
              ))
      | inr full ↦
          (let at_size : length (contents s) ≡ fifo_size = ground (arith, q.bounded s) in
            rw (e, q.put_full s (i.data_reg % 256) at_size, full)
              (sym (take_full fifo_size (contents s) (i.data_reg % 256 ∷ []) at_size), refl))
    ]
  ]

  -- After a burst of interrupts with no read in between, the FIFO holds the first 512 bytes of what
  -- it held followed by what arrived: bytes are kept in order, and only those that find it full are
  -- dropped.
  pub arrive-take :
      (is : List Interrupt) (s : F.State)
      → contents (arrive F is s) ≡ take fifo_size (contents s ++ received is)
  arrive-take [] s =
      rw (append-nil (contents s)) (sym (take_all fifo_size (contents s) (q.bounded s)))
  arrive-take (i ∷ is) s =
      arrive-take is (lpuart_isr F i s).0
      ∙ ap (λ xs. take fifo_size (xs ++ received is)) (isr_lem i s).0
      ∙ take-take_append fifo_size (contents s ++ received (i ∷ [])) (received is)
      ∙ ap (take fifo_size) (
          append_assoc (contents s) (received (i ∷ [])) (received is)
          ∙ ap (◌++◌ (contents s)) (received_cons i is))

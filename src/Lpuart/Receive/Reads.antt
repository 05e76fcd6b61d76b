-- ===== src/Lpuart/Receive/Reads.antt =====
-- `uart_read` of lpuart_interrupt.c: what it delivers, and how it uses its lock.
use yocto_meta_hsiao.Base.{
  ℕ, ◌≤◌, ◌<◌, ◌≡◌, ◌∙◌, refl, sym, ap, inl, inr, ◌⊎◌, Bool, true, false, List, [], ◌∷◌, ◌++◌,
  Option, none, some, ltb, ◌==◌, if◌then◌else◌, length, take, drop, min, take-append-drop,
  length-take, Bool-cases, subst, pos, neg, arith,
}
use yocto_meta_hsiao.Lpuart.{einval, efault}
use yocto_meta_hsiao.Lpuart.Receive.{
  Kfifo, IsQueue, Interrupt, Sleep, Step, lock, unlock, sleep, test_empty, copy_out, Ended, Buffer,
  fifo_size, erestartsys, arrive, read_out, read_loop, uart_read,
}
use yocto_meta_hsiao.Lpuart.Receive.Queue.{received, arrive-take}

-- The lock before and after a step; `none` where the driver may not take it: the FIFO is tested and
-- read with the lock, and a reader sleeps without it.
abbrev pub obey : Step → Bool → Option Bool
obey lock false = some true
obey unlock true = some false
obey sleep false = some false
obey test_empty true = some true
obey copy_out true = some true
obey t locked = none

-- Is the lock held after the steps, the newest first? `none` if one of them was not allowed.
abbrev pub holds : List Step → Option Bool
holds [] = some false
holds (t ∷ steps) = elim (holds steps) [ none ↦ none | some locked ↦ obey t locked ]

-- The results of a read.
abbrev pub Result : {S : Type 0} → Ended S → Type 0
Result e =
    ((e.ret ≡ neg einval) × (e.bytes ≡ []))
    ⊎ ((e.ret ≡ neg erestartsys) × (e.bytes ≡ []))
    ⊎ (e.ret ≡ neg efault)
    ⊎ ((e.ret ≡ pos (length e.bytes)) × (0 < length e.bytes))

-- If the call returns, it satisfies `P`.
abbrev pub WhenEnded : {S : Type 0} → (Ended S → Type 0) → Option (Ended S) → Type 0
WhenEnded P none = Unit {0}
WhenEnded P (some e) = P e

no_bytes : (xs : List ℕ) → (length xs == 0) ≡ true → xs ≡ []
no_bytes [] h = refl
no_bytes (x ∷ xs) h = absurd (ground arith)

some_bytes : (xs : List ℕ) → 0 < length xs → (length xs == 0) ≡ false
some_bytes xs h = ground arith

module _ (F : Kfifo) (contents : F.State → List ℕ) (q : IsQueue F contents) where
  read_out_lem :
      (b : Buffer) (s : F.State) (steps : List Step)
      → b.count ≤ b.room
      → let e = read_out F b s steps in
        (e.ret ≡ pos (length e.bytes))
        × (e.bytes ≡ take b.count (contents s))
        × (contents e.fifo ≡ drop b.count (contents s))
  unfolding read_out
  read_out_lem b s steps h =
      let (fault, bytes, left) = q.to_user_lem s b.count b.room in
      let whole : min b.count b.room ≡ b.count = omega arith in
      let fits : ltb b.room (length (take b.count (contents s))) ≡ false =
        grind (arith, length-take b.count (contents s)) in
      rw (fault, fits)
        (
          refl,
          bytes ∙ ap (λ n. take n (contents s)) whole,
          left ∙ ap (λ n. drop n (contents s)) whole,
        )

  read_out-Result :
      (b : Buffer) (s : F.State) (steps : List Step)
      → 0 < b.count
      → 0 < length (contents s)
      → Result (read_out F b s steps)
  unfolding read_out
  read_out-Result b s steps positive some_held =
      let (fault, bytes, left) = q.to_user_lem s b.count b.room in
      elim (Bool-cases (ltb b.room (length (take b.count (contents s))))) [
        | inl e ↦ rw (fault, e) (inr (inr (inl refl)))
        | inr e ↦
            rw (fault, e)
              (inr (
                inr (
                  inr (
                    refl,
                    subst (λ xs. 0 < length xs) (sym bytes)
                        (grind (
                          arith,
                          e,
                          length-take b.count (contents s),
                          length-take (min b.count b.room) (contents s),
                        )),
                  ))))
      ]

  nonempty : (s : F.State) → F.is_empty s ≡ false → 0 < length (contents s)
  nonempty s e = ground (arith, sym (q.is_empty_lem s) ∙ e)

  loop_ends :
      (b : Buffer) (ws : List Sleep) (s : F.State) (steps : List Step)
      → 0 < b.count
      → holds steps ≡ some true
      → WhenEnded (λ e. (holds e.steps ≡ some false) × Result e) (read_loop F b ws s steps)
  unfolding read_loop read_out
  loop_ends b [] s steps positive h = elim (Bool-cases (F.is_empty s)) [
    | inl e ↦ rw e tt
    | inr e ↦ rw (e, h) (refl, (read_out-Result b s (test_empty ∷ steps) positive (nonempty s e)))
  ]
  loop_ends b (w ∷ ws) s steps positive h = elim (Bool-cases (F.is_empty s)) [
    | inr e ↦ rw (e, h) (refl, (read_out-Result b s (test_empty ∷ steps) positive (nonempty s e)))
    | inl e ↦ elim (Bool-cases w.signalled) [
      | inl signal ↦ rw (e, signal, h) (refl, inr (inl (refl, refl)))
      | inr signal ↦ elim (Bool-cases w.locked) [
        | inr free ↦ rw (e, signal, free, h) (refl, inr (inl (refl, refl)))
        | inl got ↦ rw (e, signal, got) (loop_ends b ws _ _ positive (rw h refl))
      ]
    ]
  ]

  -- On every path on which `uart_read` returns, it has tested and read the FIFO with its lock held,
  -- slept without it, and released it; and it returns -EINVAL or -ERESTARTSYS with no byte read,
  -- -EFAULT, or the number of bytes read, which is then not 0.
  read-ends :
      (user : Option Buffer) (locked : Bool) (ws : List Sleep) (s : F.State)
      → WhenEnded (λ e. (holds e.steps ≡ some false) × Result e) (uart_read F user locked ws s)
  unfolding uart_read
  read-ends none locked ws s = (refl, inl (refl, refl))
  read-ends (some b) locked ws s = elim (Bool-cases (b.count == 0)) [
    | inl e ↦ rw e (refl, inl (refl, refl))
    | inr e ↦ elim (Bool-cases locked) [
      | inr free ↦ rw (e, free) (refl, inr (inl (refl, refl)))
      | inl got ↦ rw (e, got) (loop_ends b ws s (lock ∷ []) (ground arith) refl)
    ]
  ]

  -- What a reader alone finds: the bytes of the FIFO, or if there are none those that arrive while
  -- it sleeps, up to the size of the FIFO.
  abbrev pub available : F.State → List Interrupt → List ℕ
  available s is = if F.is_empty s then take fifo_size (received is) else contents s

  alone_awake :
      (s : F.State) (is : List Interrupt)
      → F.is_empty s ≡ true
      → contents (F.to_user (arrive F is s) 0 0).2 ≡ take fifo_size (received is)
  alone_awake s is e =
      (q.to_user_lem (arrive F is s) 0 0).2
      ∙ arrive-take F contents q is s
      ∙ ap (λ xs. take fifo_size (xs ++ received is))
          (no_bytes (contents s) (sym (q.is_empty_lem s) ∙ e))

  -- The last step of a read, from what the FIFO then holds.
  delivers_all :
      (b : Buffer) (s : F.State) (steps : List Step) (found : List ℕ)
      → b.count ≤ b.room
      → contents s ≡ found
      → let e = read_out F b s steps in
        (e.ret ≡ pos (length e.bytes))
        × (length e.bytes ≡ min b.count (length found))
        × (e.bytes ++ contents e.fifo ≡ found)
  delivers_all b s steps found h same =
      let (ret, bytes, left) = read_out_lem b s steps h in
      (
        ret,
        ap (λ xs. length xs) bytes
            ∙ ap (λ xs. length (take b.count xs)) same
            ∙ length-take b.count found,
        rw (bytes, left) (take-append-drop b.count (contents s) ∙ same),
      )

  -- A reader with the lock, a buffer of at least one byte that can be written, no signal and no
  -- other reader returns, if a byte is in the FIFO or arrives in its first sleep. It returns the
  -- number of bytes it read, `count` or all there are, and what it read followed by what the FIFO
  -- still holds is what it found: no byte is lost, repeated or reordered.
  pub read-delivers :
      (b : Buffer) (is : List Interrupt) (s : F.State)
      → b.count ≤ b.room
      → 0 < b.count
      → 0 < length (available s is)
      → (e : Ended F.State) × (uart_read F
            (some b)
            true
            (record { arrivals = is; signalled = false; taken = 0; locked = true } ∷ [])
            s
          ≡ some e)
        × (e.ret ≡ pos (length e.bytes))
        × (length e.bytes ≡ min b.count (length (available s is)))
        × (e.bytes ++ contents e.fifo ≡ available s is)
  unfolding uart_read read_loop
  read-delivers b is s room positive some_there = elim (Bool-cases (b.count == 0)) [
    | inl zero_count ↦ absurd (ground arith)
    | inr e ↦ elim (Bool-cases (F.is_empty s)) [
      | inr full ↦
          (let steps = test_empty ∷ lock ∷ [] in
            let (ret, number, kept) = delivers_all b s steps (contents s) room refl in
            rw (e, full) (read_out F b s steps, refl, ret, number, kept))
      | inl empty ↦
          (let t = (F.to_user (arrive F is s) 0 0).2 in
            let same = alone_awake s is empty in
            let there =
              subst (λ z. 0 < length (if z then take fifo_size (received is) else contents s)) empty
                some_there in
            let awake =
              q.is_empty_lem t
              ∙ ap (λ xs. length xs == 0) same
              ∙ some_bytes (take fifo_size (received is)) there in
            let steps = test_empty ∷ lock ∷ sleep ∷ unlock ∷ test_empty ∷ lock ∷ [] in
            let (ret, number, kept) =
              delivers_all b t steps (take fifo_size (received is)) room same in
            rw (e, empty, awake) (read_out F b t steps, refl, ret, number, kept))
    ]
  ]

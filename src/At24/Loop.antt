-- ===== src/At24/Loop.antt =====
-- The loop of `at24_eeprom_write`, and a rule for what holds when it ends.
use yocto_meta_hsiao.Base.{
  ℕ, zero, suc, ◌+◌, ◌-◌, ◌≤◌, ◌<◌, ◌≡◌, inl, inr, true, false, List, [], Option, none, some, ◌∷◌,
  ltb, tests, Bool-cases, Option-cases, ℤ, pos, neg, ◌+ℤ◌, leb_ℤ, is_neg, arith,
}
use yocto_meta_hsiao.At24.{
  At24Data, Kernel, World, Call, i2c_transfer, msleep, write_msg, chunk_addr, kfree, kmalloc,
  mutex_lock, mutex_unlock, copy_from_user, chunk_len, send_chunk, write_loop, at24_eeprom_write,
  clip, efault, efbig, enomem,
}

-- The call returned, and its result satisfies `P`.
abbrev pub Returns : {S : Type 0} → (ℤ → World S → Type 0) → Option (ℤ × World S) → Type 0
Returns P none = ⊥
Returns P (some (ret, w)) = P ret w

-- The calls of a round up to the transfer's result.
abbrev pub round_log : {S : Type 0} → At24Data → ℕ → ℕ → List ℕ → World S → List Call
round_log p total n bytes w =
    mutex_unlock
    ∷ i2c_transfer (write_msg p.addr (chunk_addr w total) n bytes ∷ [])
    ∷ copy_from_user total n
    ∷ mutex_lock
    ∷ w.log

module _ {S : Type 0} (k : Kernel S) (p : At24Data) (total n : ℕ) (bytes : List ℕ)
    (w : World S) where
  -- A round whose transfer fails leaves the position alone.
  pub send_chunk_bad :
      let (ret, w') = send_chunk k p total n bytes w in
      is_neg ret ≡ true → (w'.offset ≡ w.offset) × (w'.log ≡ round_log p total n bytes w)
  unfolding send_chunk
  send_chunk_bad bad = ground arith

  -- A round whose transfer succeeds moves the position by the bytes written, and sleeps.
  pub send_chunk_good :
      let (ret, w') = send_chunk k p total n bytes w in
      is_neg ret ≡ false
      → (w'.offset ≡ w.offset +ℤ pos n) × (w'.log ≡ msleep 5 ∷ round_log p total n bytes w)
  unfolding send_chunk
  send_chunk_good good = ground arith

  -- A round's result and its bus are those of its transfer.
  pub send_chunk_transfer :
      let (ret, w') = send_chunk k p total n bytes w in
      let (bus', ret', _) = k.transfer w.bus (write_msg p.addr (chunk_addr w total) n bytes ∷ []) in
      (ret ≡ ret') × (w'.bus ≡ bus')
  unfolding send_chunk
  send_chunk_transfer = ground arith

module _ {S : Type 0} (k : Kernel S) (p : At24Data) (count : ℕ) where
  -- What a proof about the loop has to give, for an invariant and a postcondition.
  pub record LoopRule (Inv : ℕ → World S → Type 0) (Post : ℤ → World S → Type 0) : Type 0 where
    pub done :
        (total : ℕ) (w : World S)
        → Inv total w
        → total ≡ count
        → Post (pos total) (record w { log = kfree ∷ w.log })
    pub fault :
        (total : ℕ) (w : World S)
        → Inv total w
        → total < count
        → let n = chunk_len p count w total in
          k.copy_in total n ≡ none
          → Post (neg efault) (record w {
            log = kfree ∷ mutex_unlock ∷ copy_from_user total n ∷ mutex_lock ∷ w.log;
          })
    pub bus_error :
        (total : ℕ) (bytes : List ℕ) (w : World S)
        → Inv total w
        → total < count
        → let n = chunk_len p count w total in
          let (ret, w') = send_chunk k p total n bytes w in
          k.copy_in total n ≡ some bytes
          → is_neg ret ≡ true
          → Post ret (record w' { log = kfree ∷ w'.log })
    pub next :
        (total : ℕ) (bytes : List ℕ) (w : World S)
        → Inv total w
        → total < count
        → let n = chunk_len p count w total in
          let (ret, w') = send_chunk k p total n bytes w in
          k.copy_in total n ≡ some bytes → is_neg ret ≡ false → Inv (total + n) w'

  pub chunk_len_bounds :
      (total : ℕ) (w : World S)
      → 0 < p.page_size
      → total < count
      → (0 < chunk_len p count w total) × (total + chunk_len p count w total ≤ count)
  chunk_len_bounds total w h lt = omega arith

  module _ {Inv : ℕ → World S → Type 0} {Post : ℤ → World S → Type 0}
      (rule : LoopRule Inv Post) where
    pub write_loop-Returns :
        (fuel total : ℕ) (w : World S)
        → 0 < p.page_size
        → count - total < fuel
        → total ≤ count
        → Inv total w
        → Returns Post (write_loop k fuel p count total w)
    unfolding write_loop
    write_loop-Returns zero total w h f le inv = absurd (omega arith)
    write_loop-Returns (suc fuel) total w h f le inv = elim (Bool-cases (ltb total count)) [
      | inl more ↦
          rw (more, write_loop, Returns)
            (elim (Option-cases (k.copy_in total (chunk_len p count w total))) [
              | inl e ↦ rw (e, Returns) (rule.fault total w inv (omega tests) e)
              | inr (bytes, e) ↦
                  rw (e, Returns)
                    (elim (Bool-cases
                      (is_neg (send_chunk k p total (chunk_len p count w total) bytes w).0)) [
                        | inl bad ↦
                            rw (bad, Returns) (rule.bus_error total bytes w inv (omega tests) e bad)
                        | inr good ↦
                            rw (good, Returns)
                              (write_loop-Returns fuel (total + chunk_len p count w total) _ h
                                (omega (tests, chunk_len_bounds total w h))
                                (omega (tests, chunk_len_bounds total w h))
                                (rule.next total bytes w inv (omega tests) e good))
                      ])
            ])
      | inr done ↦ rw (done, write_loop, Returns) (rule.done total w inv (ground (arith, done)))
    ]

    -- The whole call: the two early returns, and the loop from its start.
    pub at24_eeprom_write-Returns :
        (asked : ℕ) (w : World S)
        → 0 < p.page_size
        → clip p w.offset asked ≡ count
        → (leb_ℤ (pos p.size) w.offset ≡ true → Post (neg efbig) w)
        → (k.allocates (2 + p.page_size) ≡ false → Post (neg enomem) w)
        → Inv 0 (record w { log = kmalloc (2 + p.page_size) ∷ w.log })
        → Returns Post (at24_eeprom_write k p asked w)
    unfolding at24_eeprom_write
    at24_eeprom_write-Returns asked w h c big nomem inv =
        elim (Bool-cases (leb_ℤ (pos p.size) w.offset)) [
          | inl out ↦ rw (out, Returns) (big out)
          | inr in_range ↦ rw in_range (elim (Bool-cases (k.allocates (2 + p.page_size))) [
            | inl enough ↦
                rw (enough, c)
                  (write_loop-Returns (suc count) 0 _ h (omega arith) (omega arith) inv)
            | inr short ↦ rw (short, Returns) (nomem short)
          ])
        ]

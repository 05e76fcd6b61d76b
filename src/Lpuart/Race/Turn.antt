-- ===== src/Lpuart/Race/Turn.antt =====
-- What a turn of a process in `uart_read` of lpuart_interrupt.c does: who holds the mutex after it,
-- what the process may then rely on, and where each received byte is.
use yocto_meta_hsiao.Base.{
  length-take, take-append-drop, append_assoc, ap, min, length, take, ltb, Bool-cases, ◌∙◌, [], sym,
  inr, none, arith, Option, refl, ◌≤◌, ◌<◌, ◌⊎◌, ◌≢◌, ◌++◌, inl, true, false, some, pos, neg, ℤ,
  Bool, List, ℕ, ◌≡◌,
}
use yocto_meta_hsiao.Lpuart.{einval, efault}
use yocto_meta_hsiao.Lpuart.Receive.{Kfifo, IsQueue, Buffer, erestartsys, read_out}
use yocto_meta_hsiao.Lpuart.Race.{
  lost, Reader, idle, locking, testing, releasing, waiting, asleep, copying, leaving, returned,
  Shared, is_free, turn,
}

-- Between `mutex_lock_interruptible` and `mutex_unlock`.
abbrev pub locked : Reader → Bool
locked (testing b) = true
locked (releasing b) = true
locked (copying b) = true
locked (leaving n ret) = true
locked p = false

-- What `uart_read` with a buffer of `n` bytes may return: an error, or how many bytes it has
-- copied, at least one and at most `n`.
abbrev pub ReadResult : ℕ → ℤ → Type 0
ReadResult n ret =
    (ret ≡ neg einval)
    ⊎ (ret ≡ neg erestartsys)
    ⊎ (ret ≡ neg efault)
    ⊎ ((k : ℕ) × (ret ≡ pos k) × (0 < k) × (k ≤ n))

module _ (F : Kfifo) where
  -- What a process relies on where it stands.
  abbrev pub Sound : F.State → Reader → Type 0
  Sound s idle = Unit {0}
  Sound s (locking b) = 0 < b.count
  Sound s (testing b) = 0 < b.count
  Sound s (releasing b) = 0 < b.count
  Sound s (waiting b) = 0 < b.count
  Sound s (asleep b) = (0 < b.count) × (F.is_empty s ≡ true)
  Sound s (lost b) = ⊥
  Sound s (copying b) = (0 < b.count) × (F.is_empty s ≡ false)
  Sound s (leaving n ret) = ReadResult n ret
  Sound s (returned n ret) = ReadResult n ret

-- What one turn of process `i` does to the memory and to where it stands.
pub record Local {F : Kfifo} (contents : F.State → List ℕ) (i : ℕ) (m n : Shared F) (p q : Reader)
    : Type 0 where
  pub held : locked q ≡ true → n.owner ≡ some i
  pub owned : n.owner ≡ some i → locked q ≡ true
  pub others :
      (j : ℕ)
      → i ≢ j
      → (n.owner ≡ some j → m.owner ≡ some j) × (m.owner ≡ some j → n.owner ≡ some j)
  pub sound : Sound F n.fifo q
  pub kept : (n.fifo ≡ m.fifo) ⊎ ((m.owner ≡ some i) × (F.is_empty m.fifo ≡ false))
  pub stream : n.accepted ≡ n.given ++ contents n.fifo

free_none : (owner : Option ℕ) → is_free owner ≡ true → owner ≡ none
free_none none e = refl
free_none (some j) e = absurd (ground arith)

-- A turn that leaves the memory as it is.
stay :
    {F : Kfifo} {contents : F.State → List ℕ} {m : Shared F} {i : ℕ} {p : Reader}
    → (r : Reader) → locked r ≡ locked p
    → (locked p ≡ true → m.owner ≡ some i)
    → (m.owner ≡ some i → locked p ≡ true)
    → Sound F m.fifo r
    → m.accepted ≡ m.given ++ contents m.fifo
    → Local contents i m m p r
stay r e h o s st = record {
  held = λ a. h (sym e ∙ a);
  owned = λ a. e ∙ o a;
  others = λ j ne. (λ a. a, λ a. a);
  sound = s;
  kept = inl refl;
  stream = st;
}

-- A turn that gives the mutex back.
give_back :
    {F : Kfifo} {contents : F.State → List ℕ} {m : Shared F} {i : ℕ} {p : Reader}
    → (r : Reader) → locked r ≡ false
    → m.owner ≡ some i
    → Sound F m.fifo r
    → m.accepted ≡ m.given ++ contents m.fifo
    → Local contents i m (record m { owner = none }) p r
give_back r e own s st = record {
  held = λ a. ground arith;
  owned = λ a. ground arith;
  others = λ j ne. (λ a. ground arith, λ a. ground arith);
  sound = s;
  kept = inl refl;
  stream = st;
}

module _ (F : Kfifo) (contents : F.State → List ℕ) (q : IsQueue F contents) where
  take_lock :
      (i : ℕ) (m : Shared F) (b : Buffer)
      → m.owner ≡ none
      → 0 < b.count
      → m.accepted ≡ m.given ++ contents m.fifo
      → Local contents i m (record m { owner = some i }) (locking b) (testing b)
  take_lock i m b e s st = record {
    held = λ a. refl;
    owned = λ a. refl;
    others = λ j ne. (λ a. ground arith, λ a. ground arith);
    sound = s;
    kept = inl refl;
    stream = st;
  }

  -- Copying from a FIFO that is not empty.
  read_out-splits :
      (b : Buffer) (s : F.State)
      → 0 < b.count
      → F.is_empty s ≡ false
      → let e = read_out F b s [] in
        ReadResult b.count e.ret × (contents s ≡ e.bytes ++ contents e.fifo)
  unfolding read_out
  read_out-splits b s positive full =
      let (fault, bytes, left) = q.to_user_lem s b.count b.room in
      let some_held : 0 < length (contents s) = ground (arith, q.is_empty_lem s) in
      let splits : contents s
          ≡ (F.to_user s b.count b.room).1 ++ contents (F.to_user s b.count b.room).2 =
        rw (bytes, left) (sym (take-append-drop (min b.count b.room) (contents s))) in
      elim (Bool-cases (ltb b.room (length (take b.count (contents s))))) [
        | inl e ↦ rw (fault, e) (inr (inr (inl refl)), splits)
        | inr e ↦
            rw (fault, e)
              (
                inr (
                    inr (
                      inr (
                        length (F.to_user s b.count b.room).1,
                        refl,
                        rw bytes (
                            grind (
                              arith,
                              length-take b.count (contents s),
                              length-take (min b.count b.room) (contents s),
                            )),
                        rw bytes (
                            grind (
                              arith,
                              length-take b.count (contents s),
                              length-take (min b.count b.room) (contents s),
                            )),
                      ))),
                splits,
              )
      ]

  copy :
      (i : ℕ) (m : Shared F) (b : Buffer)
      → m.owner ≡ some i
      → 0 < b.count
      → F.is_empty m.fifo ≡ false
      → m.accepted ≡ m.given ++ contents m.fifo
      → let e = read_out F b m.fifo [] in
        Local contents i m
          (record m { fifo = e.fifo; given = m.given ++ e.bytes })
          (copying b)
          (leaving b.count e.ret)
  copy i m b own s full st = record {
    held = λ a. own;
    owned = λ a. refl;
    others = λ j ne. (λ a. a, λ a. a);
    sound = (read_out-splits b m.fifo s full).0;
    kept = inr (own, full);
    stream =
        st ∙ ap (◌++◌ m.given) (read_out-splits b m.fifo s full).1 ∙ sym (append_assoc m.given _ _);
  }

  pub turn-Local :
      (i : ℕ) (sig : Bool) (m : Shared F) (p : Reader)
      → (locked p ≡ true → m.owner ≡ some i)
      → (m.owner ≡ some i → locked p ≡ true)
      → Sound F m.fifo p
      → m.accepted ≡ m.given ++ contents m.fifo
      → let (n, r) = turn F i sig m p in Local contents i m n p r
  unfolding turn
  turn-Local i sig m idle h o s st = stay idle refl h o s st
  turn-Local i true m (locking b) h o s st =
      stay (returned b.count (neg erestartsys)) refl h o (inr (inl refl)) st
  turn-Local i false m (locking b) h o s st = elim (Bool-cases (is_free m.owner)) [
    | inl e ↦ rw e (take_lock i m b (free_none m.owner e) s st)
    | inr e ↦ rw e (stay (locking b) refl h o s st)
  ]
  turn-Local i sig m (testing b) h o s st = elim (Bool-cases (F.is_empty m.fifo)) [
    | inl e ↦ rw e (stay (releasing b) refl h o s st)
    | inr e ↦ rw e (stay (copying b) refl h o (s, e) st)
  ]
  turn-Local i sig m (releasing b) h o s st = give_back (waiting b) refl (h refl) s st
  turn-Local i true m (waiting b) h o s st = elim (Bool-cases (F.is_empty m.fifo)) [
    | inr e ↦ rw e (stay (locking b) refl h o s st)
    | inl e ↦ rw e (stay (returned b.count (neg erestartsys)) refl h o (inr (inl refl)) st)
  ]
  turn-Local i false m (waiting b) h o s st = elim (Bool-cases (F.is_empty m.fifo)) [
    | inr e ↦ rw e (stay (locking b) refl h o s st)
    | inl e ↦ rw e (stay (asleep b) refl h o (s, e) st)
  ]
  turn-Local i true m (asleep b) h o s st = stay (waiting b) refl h o s.0 st
  turn-Local i false m (asleep b) h o s st = stay (asleep b) refl h o s st
  turn-Local i sig m (lost b) h o s st = absurd s
  turn-Local i sig m (copying b) h o s st = copy i m b (h refl) s.0 s.1 st
  turn-Local i sig m (leaving n ret) h o s st = give_back (returned n ret) refl (h refl) s st
  turn-Local i sig m (returned n ret) h o s st = stay (returned n ret) refl h o s st

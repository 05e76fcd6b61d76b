-- ===== src/Chardev/Faults.antt =====
-- What a user of the character devices gets to know of their errors.
use yocto_meta_hsiao.Base.{
  ◌-◌, ltb, append-nil, take_all, Bool-cases, refl, inl, inr, arith, min, take, leb, is_neg, eqb_ℤ,
  ◌≤◌, ◌≡◌, ◌∷◌, ◌++◌, [], if◌then◌else◌, true, false, some, pos, ℕ, Bool, List, length, drop,
}
use yocto_meta_hsiao.Text.{codes, c_string}
use yocto_meta_hsiao.Text.Scan.{atoi}
use yocto_meta_hsiao.Chardev.{
  truth, Buffers, Outcome, done, kerneldata, chrdevbase_read, chrdevbase_write, chardev_app,
}

truth_cases : (ok : Bool) → is_neg (truth ok) ≡ false
truth_cases true = refl
truth_cases false = refl

-- The results of `read` and `write` for lengths within the buffers: 0 where all is copied, else 1,
-- which for the caller is one byte read or written, and never an error; `read` gives the user the
-- text of the driver as far as it is copied, and a `write` that copies all puts it at the front of
-- `write_buf`.
read_write_lem :
    (copied len : ℕ) (bytes : List ℕ) (b : Buffers)
    → len ≤ 256
    → length bytes ≤ 256
    → (chrdevbase_read copied len b
        ≡ some (
          if leb len copied then pos 0 else pos 1,
          take (min copied len) (kerneldata ++ drop 13 b.read_buf),
          record b { read_buf = kerneldata ++ drop 13 b.read_buf },
        ))
      × (length bytes ≤ copied
          → chrdevbase_write copied bytes b
            ≡ some (pos 0, record b { write_buf = bytes ++ drop (length bytes) b.write_buf }))
unfolding chrdevbase_read chrdevbase_write
read_write_lem copied len bytes b h k = (
  (let fits : ltb 256 len ≡ false = ground arith in rw fits refl),
  λ all.
      let fits : ltb 256 (length bytes) ≡ false = ground arith in
      let done : leb (length bytes) copied ≡ true = ground arith in
      let none_left : length bytes - copied ≡ 0 = omega arith in
      rw (fits, done, take_all copied bytes all, none_left, append-nil) refl,
)

-- Once the device is open and can be closed, the program ends well and reports no error, whether
-- it reads or writes, and however much the driver can copy.
chardev_app-done :
    (prog filename mode : List ℕ) (fd closed copied : ℕ) (stack : List ℕ) (b : Buffers)
    → (o : Outcome) × (chardev_app
          (prog ∷ filename ∷ mode ∷ [])
          (pos fd)
          (pos closed)
          copied
          stack
          b
        ≡ some o)
      × (o.ending ≡ done)
unfolding chardev_app chrdevbase_read chrdevbase_write
chardev_app-done prog filename mode fd closed copied stack b =
    let r = truth_cases (leb 10 copied) in
    elim (Bool-cases (eqb_ℤ (atoi mode) (pos 1))) [
      | inl reads ↦ rw (reads, r) (_, refl, refl)
      | inr e ↦ elim (Bool-cases (eqb_ℤ (atoi mode) (pos 2))) [
        | inl writes ↦ rw (e, writes, r) (_, refl, refl)
        | inr other ↦ rw (e, other) (_, refl, refl)
      ]
    ]

-- The ten bytes that are read, where all can be copied, have no NUL: the program prints them and
-- what its stack held behind them, up to the first NUL there.
chardev_app-overreads :
    (prog filename mode : List ℕ) (fd closed copied : ℕ) (stack : List ℕ) (b : Buffers)
    → eqb_ℤ (atoi mode) (pos 1) ≡ true
    → 10 ≤ copied
    → (o : Outcome) × (chardev_app
          (prog ∷ filename ∷ mode ∷ [])
          (pos fd)
          (pos closed)
          copied
          stack
          b
        ≡ some o)
      × (o.printed ≡ some (codes "kernel dat" ++ c_string (drop 10 stack)))
unfolding chardev_app chrdevbase_read c_string
chardev_app-overreads prog filename mode fd closed copied stack b h k =
    let all : leb 10 copied ≡ true = ground arith in
    let ten : min copied 10 ≡ 10 = omega arith in rw (h, all, ten) (_, refl, refl)

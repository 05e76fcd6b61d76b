-- ===== src/Chardev/Cdev.antt =====
-- recipes-kernel/hsiao-kmod/files/5_new_chardevtest.c behind its registration, with its program
-- recipes-app/files/5_new_chardevtest_app.c: the text of the driver with the fixed number and of its
-- program. One run of the program after another leaves its traces in the driver's buffers.
use yocto_meta_hsiao.Base.{
  Bool-cases, eqb_ℤ, ◌∙◌, ◌||◌, ◌∷◌, ◌++◌, [], if◌then◌else◌, ap, inl, inr, true, false, none, some,
  pos, arith, ℤ, Bool, List, Option, drop, refl, ℕ, ◌≡◌,
}
use yocto_meta_hsiao.Text.Scan.{atoi}
use yocto_meta_hsiao.Chardev.{
  Buffers, Outcome, kerneldata, usrdata, chrdevbase_read, chrdevbase_write, chardev_app,
}

-- `chrdevbase_open` and `chrdevbase_release`.
abbrev new_chrdevbase_open : ℤ
new_chrdevbase_open = pos 0

abbrev new_chrdevbase_release : ℤ
new_chrdevbase_release = pos 0

-- `chrdevbase_read`
abbrev new_chrdevbase_read : ℕ → ℕ → Buffers → Option (ℤ × List ℕ × Buffers)
new_chrdevbase_read = chrdevbase_read

-- `chrdevbase_write`
abbrev new_chrdevbase_write : ℕ → List ℕ → Buffers → Option (ℤ × Buffers)
new_chrdevbase_write = chrdevbase_write

-- `main`
abbrev pub new_chardev_app : List (List ℕ) → ℤ → ℤ → ℕ → List ℕ → Buffers → Option Outcome
new_chardev_app = chardev_app

-- A run of the program: its file, its second argument, what `close` returns, and what its stack held. The
-- file opens, and all of its ten bytes can be copied.
pub record Run : Type 0 where
  pub fd : ℕ
  pub mode : List ℕ
  pub closed : ℤ
  pub stack : List ℕ

-- One run after another, each on the buffers that the last one left.
abbrev pub run_all : List ℕ → List ℕ → List Run → Buffers → Option Buffers
run_all prog filename [] b = some b
run_all prog filename (r ∷ rs) b =
    elim (new_chardev_app (prog ∷ filename ∷ r.mode ∷ []) (pos r.fd) r.closed 10 r.stack b) [
      | none ↦ none
      | some o ↦ run_all prog filename rs o.buffers
    ]

abbrev pub reads : List ℕ → Bool
reads mode = eqb_ℤ (atoi mode) (pos 1)

abbrev pub writes : List ℕ → Bool
writes mode = eqb_ℤ (atoi mode) (pos 2)

-- The buffers after a run.
abbrev pub traces : Bool → Bool → Buffers → Buffers
traces read written b = record {
  read_buf = if read then kerneldata ++ drop 13 b.read_buf else b.read_buf;
  write_buf = if written then usrdata ++ drop 10 b.write_buf else b.write_buf;
}

abbrev pub any : (List ℕ → Bool) → List Run → Bool
any p [] = false
any p (r ∷ rs) = p r.mode || any p rs

not_both : (z : ℤ) → eqb_ℤ z (pos 1) ≡ true → eqb_ℤ z (pos 2) ≡ false
not_both z e = ground arith

run_traces :
    (prog filename : List ℕ) (r : Run) (b : Buffers)
    → (o : Outcome) × (new_chardev_app
          (prog ∷ filename ∷ r.mode ∷ [])
          (pos r.fd)
          r.closed
          10
          r.stack
          b
        ≡ some o)
      × (o.buffers ≡ traces (reads r.mode) (writes r.mode) b)
unfolding chardev_app chrdevbase_read chrdevbase_write
run_traces prog filename r b = elim (Bool-cases (reads r.mode)) [
  | inl read ↦ rw (read, not_both (atoi r.mode) read) (_, refl, refl)
  | inr e ↦ elim (Bool-cases (writes r.mode)) [
    | inl written ↦ rw (e, written) (_, refl, refl)
    | inr other ↦ rw (e, other) (_, refl, refl)
  ]
]

traces_twice :
    (r s w v : Bool) (b : Buffers) → traces s v (traces r w b) ≡ traces (r || s) (w || v) b
traces_twice r s w v b = ground arith

-- After any number of runs, with whatever arguments and however each ends, the front of `read_buf`
-- holds the driver's text if some run has read, the front of `write_buf` the program's text if some
-- run has written, and all else in the buffers is as it was: nothing a run does depends on the runs
-- before it.
pub run_all-traces :
    (prog filename : List ℕ) (rs : List Run) (b : Buffers)
    → run_all prog filename rs b ≡ some (traces (any reads rs) (any writes rs) b)
run_all-traces prog filename [] b = refl
run_all-traces prog filename (r ∷ rs) b =
    let (o, ran, left) = run_traces prog filename r b in
    rw (ran, run_all)
      (run_all-traces prog filename rs o.buffers
        ∙ ap some (
            ap (traces (any reads rs) (any writes rs)) left
            ∙ traces_twice (reads r.mode) (any reads rs) (writes r.mode) (any writes rs) b))

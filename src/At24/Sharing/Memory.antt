-- ===== src/At24/Sharing/Memory.antt =====
-- The processes that share the EEPROM of 22_i2c_at24.c against a memory, which writes set and reads
-- return at once.
use yocto_meta_hsiao.Base.{
  ◌++◌, ◌⊎◌, inl, inr, is_neg, if◌then◌else◌, arith, ap, fun_ext, sym, refl, to_u64, some, pos_part,
  min, length, subst, true, false, ◌%◌, ◌-◌, ◌∙◌, ◌+◌, ◌-◌, ◌%◌, ◌^◌, ◌≤◌, ◌<◌, ◌≡◌, ◌∷◌, [], pos,
  ℤ, List, min, pos_part, ℕ,
}
use yocto_meta_hsiao.At24.{clip, At24Data, Kernel, World, eeprom_size, page_size}
use yocto_meta_hsiao.At24.Loop.{Returns}
use yocto_meta_hsiao.At24.Chip.{store, range, range-cong, MayNack}
use yocto_meta_hsiao.At24.Nacks.{ReadEnds, read_nack, WriteEnds, write_nack}
use yocto_meta_hsiao.At24.Stores.{IsAt24, CopiesFrom, clip_lem, delivered}
use yocto_meta_hsiao.At24.Sharing.{File, Job, Done, Request, read, write, world, System, Run, Reach}
use yocto_meta_hsiao.At24.Sharing.Alone.{serve}
use yocto_meta_hsiao.At24.Sharing.Serial.{AtOnce, Serial, unused, moved, served}
use yocto_meta_hsiao.At24.Sharing.Order.{Accounts, calls-Serial}

abbrev pub count_of : Request → ℕ
count_of (read count) = count
count_of (write count) = count

-- The cell at a file's position.
abbrev pub place : File → ℕ
place f = pos_part f.offset

abbrev pub WithinPage : Request → ℕ → Type 0
WithinPage (read count) o = Unit
WithinPage (write count) o = o % page_size + count ≤ page_size

-- A read or a write of some bytes from a position on the chip, the write within a page.
pub record Fits (j : Job) : Type 0 where
  pub at : j.file.offset ≡ pos (place j.file)
  pub on_chip : place j.file < eeprom_size
  pub some_bytes : 0 < count_of j.request
  pub few : count_of j.request < 2 ^ 63
  pub within : WithinPage j.request (place j.file)

-- A call on the memory `m` has the result of a memory: a write all its bytes, and a read those
-- that are there up to the chip's end; or it fails with a bus error, and the position stays.
abbrev pub Answers : (ℕ → ℕ) → Request → File → ℤ → File → Type 0
Answers m (read count) f ret g =
    let n = min count (eeprom_size - place f) in
    ((ret ≡ pos n) × (g.offset ≡ pos (place f + n)) × (delivered g.log ≡ range m (place f) n))
    ⊎ ((is_neg ret ≡ true) × (g.offset ≡ f.offset) × (delivered g.log ≡ []))
Answers m (write count) f ret g =
    ((ret ≡ pos count) × (g.offset ≡ pos (place f + count)))
    ⊎ ((is_neg ret ≡ true) × (g.offset ≡ f.offset))

module _ (user : ℕ → Job → List ℕ) (before : ℕ → ℕ) where
  -- The memory that a history leaves, if `user i j` is the buffer of process `i` in the call `j`: the
  -- writes that did not fail set their bytes.
  pub memory : List (ℕ × Done) → ℕ → ℕ
  memory [] = before
  memory ((i, d) ∷ h) = elim (d.job.request) [
    | read count ↦ memory h
    | write count ↦
        if is_neg d.ret then memory h else store (place d.job.file) (user i d.job) (memory h)
  ]

  pub AllAnswer : List (ℕ × Done) → Type 0
  AllAnswer [] = Unit
  AllAnswer ((i, d) ∷ h) = Answers (memory h) d.job.request d.job.file d.ret d.file × AllAnswer h

-- What the calls rely on: the chip, its sizes, the processes' buffers, and a bus that does not
-- change the cells by itself.
module _ {S : Type 0} (kernel : ℕ → Job → Kernel S) (cell : S → ℕ → ℕ)
    (chip : (i : ℕ) (j : Job) → MayNack (kernel i j) cell) (p : At24Data) (sizes : IsAt24 p)
    (user : ℕ → Job → List ℕ) (copies : (i : ℕ) (j : Job) → CopiesFrom (kernel i j) (user i j))
    (full : (i : ℕ) (j : Job) → length (user i j) ≡ count_of j.request)
    (granted : (i : ℕ) (j : Job) (n : ℕ) → (kernel i j).allocates n ≡ true)
    (copied : (i : ℕ) (j : Job) (bytes : List ℕ) → (kernel i j).copy_out_fails bytes ≡ false)
    (moves : S → S → Type 0) (first : S)
    (kept : (s t : S) → moves s t → (a : ℕ) → cell t a ≡ cell s a) where
  write_at_once :
      (o count : ℕ)
      → o < eeprom_size
      → count < 2 ^ 63
      → o % page_size + count ≤ page_size
      → to_u64 (pos o) % p.page_size + clip p (pos o) count ≤ p.page_size
  write_at_once o count h few within =
      rw (clip_lem p o count sizes h few, sizes.page_eq) (omega arith)

  request-AtOnce :
      (r : Request) (f : File)
      → Fits (record { request = r; file = f })
      → AtOnce p (record { request = r; file = f })
  request-AtOnce (read count) f fits = tt
  request-AtOnce (write count) f fits =
      rw (fits.at) (write_at_once (place f) count fits.on_chip fits.few fits.within)

  Fits-AtOnce : (j : Job) → Fits j → AtOnce p j
  Fits-AtOnce j fits = request-AtOnce j.request j.file fits

  -- One call, on a bus with the cells `m`.
  read_answers :
      (i count : ℕ) (f g : File) (bus bus' : S) (ret : ℤ) (m : ℕ → ℕ)
      → Fits (record { request = read count; file = f })
      → ((a : ℕ) → cell bus a ≡ m a)
      → serve (kernel i (record { request = read count; file = f })) p (read count) (world bus f)
        ≡ some (ret, world bus' g)
      → Answers m (read count) f ret g × ((a : ℕ) → cell bus' a ≡ m a)
  read_answers i count f g bus bus' ret m fits same e =
      let j : Job = record { request = read count; file = f } in
      let n = min count (eeprom_size - place f) in
      let P : ℤ → World S → Type 0 = λ ret w.
        ReadEnds (kernel i j) cell (chip i j) p sizes (place f) count (world bus f) ret w
        × ((a : ℕ) → cell w.bus a ≡ cell bus a) in
      let got : Returns P (some (ret, world bus' g)) = subst (Returns P) e (
        read_nack (kernel i j) cell (chip i j) p sizes (place f) count (world bus f) fits.at
          fits.on_chip fits.some_bytes fits.few (granted i j _) (copied i j)) in
      (
        elim (got.0) [
          | inl (r, o, d) ↦ inl (r, o, d ∙ range-cong (cell bus) m (place f) n (λ a le. same a))
          | inr (bad, o, d) ↦ inr (bad, o, d)
        ],
        λ a. got.1 a ∙ same a,
      )

  -- What the memory is after a write of process `i`.
  abbrev after_write : (i : ℕ) → Job → ℤ → (ℕ → ℕ) → ℕ → ℕ
  after_write i j ret m = if is_neg ret then m else store (place j.file) (user i j) m

  write_answers :
      (i count : ℕ) (f g : File) (bus bus' : S) (ret : ℤ) (m : ℕ → ℕ)
      → Fits (record { request = write count; file = f })
      → ((a : ℕ) → cell bus a ≡ m a)
      → let j : Job = record { request = write count; file = f } in
        serve (kernel i j) p (write count) (world bus f) ≡ some (ret, world bus' g)
        → Answers m (write count) f ret g × ((a : ℕ) → cell bus' a ≡ after_write i j ret m a)
  write_answers i count f g bus bus' ret m fits same e =
      let j : Job = record { request = write count; file = f } in
      let xs = user i j in
      let size : length xs ≡ count = full i j in
      let some_there : 0 < length xs = omega (arith, size, fits.some_bytes) in
      let in_page : place f % page_size + length xs ≤ page_size =
        omega (arith, size, fits.within) in
      let P : ℤ → World S → Type 0 =
        WriteEnds (kernel i j) cell (chip i j) p sizes (place f) xs (copies i j) fits.on_chip
          some_there in_page (cell bus) in
      let got : Returns P (some (ret, world bus' g)) =
        subst (Returns P)
          (subst (λ n. serve (kernel i j) p (write n) (world bus f) ≡ some (ret, world bus' g))
            (sym size) e)
          (write_nack (kernel i j) cell (chip i j) p sizes (place f) xs (copies i j) fits.on_chip
            some_there in_page (world bus f) fits.at (granted i j _)) in
      elim got [
        | inl (r, o, stored) ↦
            let good : is_neg ret ≡ false = rw r refl in
            (
              inl (r ∙ ap pos size, o ∙ ap (λ n. pos (place f + n)) size),
              λ a. stored a ∙ (ap (λ m. store (place f) xs m a) (fun_ext same) ∙ rw good refl),
            )
        | inr (bad, o, kept_) ↦ (inr (bad, o ∙ sym fits.at), λ a. kept_ a ∙ (same a ∙ rw bad refl))
      ]

  abbrev IsMemory : S → List (ℕ × Done) → Type 0
  IsMemory bus h =
      ((a : ℕ) → cell bus a ≡ memory user (cell first) h a) × AllAnswer user (cell first) h

  served-IsMemory :
      (i : ℕ) (r : Request) (f g : File) (ret : ℤ) (bus bus' : S) (h : List (ℕ × Done))
      → IsMemory bus h
      → Fits (record { request = r; file = f })
      → let j : Job = record { request = r; file = f } in
        serve (kernel i j) p r (world bus f) ≡ some (ret, world bus' g)
        → IsMemory bus' ((i, record { job = j; ret = ret; file = g }) ∷ h)
  unfolding memory AllAnswer
  served-IsMemory i (read count) f g ret bus bus' h (same, all) fits e =
      let (a, cells) =
        read_answers i count f g bus bus' ret (memory user (cell first) h) fits same e in
      (cells, (a, all))
  served-IsMemory i (write count) f g ret bus bus' h (same, all) fits e =
      let (a, cells) =
        write_answers i count f g bus bus' ret (memory user (cell first) h) fits same e in
      (cells, (a, all))

  Serial-IsMemory :
      {bus : S} {h : List (ℕ × Done)} → Serial kernel p Fits moves first bus h → IsMemory bus h
  unfolding memory AllAnswer
  Serial-IsMemory unused = (λ a. refl, tt)
  Serial-IsMemory (moved {bus} {bus'} s e) =
      let (same, all) = Serial-IsMemory s in (λ a. kept bus bus' e a ∙ same a, all)
  Serial-IsMemory (served {bus} {bus'} {h} i d s ok e) =
      served-IsMemory i d.job.request d.job.file d.file d.ret bus bus' h (Serial-IsMemory s) ok e

  -- Processes that read and write some bytes, fewer than 2 ^ 63, from positions on the chip, all at
  -- once, each write within a page, with the chip of 32768 cells and 64-byte pages, which may fail to
  -- acknowledge any transfer and then changes no cell, cells that only transfers change, buffers that
  -- are granted, and user memory that can be read and written and holds as many bytes as a call asks
  -- for, are a memory: at any state and at any later one, their calls can be put in an order such that
  -- the cells are those that the writes that did not fail leave if each sets its bytes at once, and
  -- every call either fails with a negative result and its position kept, or returns a memory's
  -- answer: a read the cells as they were at its place in the order, up to the chip's end, and a write
  -- all its bytes, with the position moved past them. A process' calls stand in the order as it made
  -- them, perhaps with the one that it is in; and the later order only puts calls behind those of the
  -- order before.
  pub calls-memory :
      {s t : System S}
      → Reach kernel p Fits moves first s
      → Run kernel p Fits moves s t
      → (h more : List (ℕ × Done)) × ((i : ℕ) → Accounts kernel p Fits moves first h s i)
        × ((i : ℕ) → Accounts kernel p Fits moves first (more ++ h) t i)
        × ((a : ℕ) → cell s.shared.bus a ≡ memory user (cell first) h a)
        × ((a : ℕ) → cell t.shared.bus a ≡ memory user (cell first) (more ++ h) a)
        × AllAnswer user (cell first) (more ++ h)
  calls-memory r run =
      let (h, more, serial, accounts, serial', accounts') =
        calls-Serial kernel p Fits moves first Fits-AtOnce r run in
      let (same, all) = Serial-IsMemory serial in
      let (same', all') = Serial-IsMemory serial' in
      (h, more, accounts, accounts', same, same', all')

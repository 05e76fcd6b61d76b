-- ===== src/Led/Sharing/Alone.antt =====
-- A process that shares the LED of 9_thread.c, turn by turn, against `main` of 9_thread_app.c as one
-- function.
use yocto_meta_hsiao.Base.{
  subst, update_same, update_other, ◌∷◌, [], sym, ap, true, zero, suc, negsuc, ℤ, List, Option,
  length, ◌≢◌, ◌∙◌, false, some, pos, Bool, refl, ℕ, ◌≡◌,
}
use yocto_meta_hsiao.Led.{led_open, GpioledDev, thread_led_write, ThreadType, led_release}
use yocto_meta_hsiao.Text.Scan.{atoi}
use yocto_meta_hsiao.Led.App.{
  led_write-status, to_u16, open_error, answered, data_buffer, Ending, write_error, after_write,
}
use yocto_meta_hsiao.Led.ThreadApp.{held, opened, seconds, thread_app, Shared}
use yocto_meta_hsiao.Led.Sharing.Turn.{Shows}
use yocto_meta_hsiao.Led.Sharing.Invariant.{Reach-Inv}
use yocto_meta_hsiao.Led.Sharing.{
  leaving, writing, opening, Launch, App, looping, ended, turn, Programs, go, Run, Reach,
}

-- A state that process `i` reaches alone from `s`, with the driver and where the process stands.
record Alone (k : ThreadType) (s : Programs) (i : ℕ) (m : Shared) (p : App) : Type 0 where
  last : Programs
  run : Run k s last
  shared : last.shared ≡ m
  here : last.app i ≡ p
  others : (j : ℕ) → i ≢ j → last.app j ≡ s.app j

goes :
    {k : ThreadType} {s : Programs} {i : ℕ} {m n : Shared} {p q : App}
    → (signalled : Bool) → turn k signalled m p ≡ some (n, q)
    → Alone k s i m p
    → Alone k s i n q
goes {k} {i} {n} {q} signalled e a =
    let turned : turn k signalled a.last.shared (a.last.app i) ≡ some (n, q) =
      rw (a.shared, a.here) e in
    record {
      last = _;
      run = Run.step a.run (go i signalled n q turned);
      shared = refl;
      here = update_same a.last.app i q;
      others = λ j ne. update_other a.last.app i j q ne ∙ a.others j ne;
    }

-- The rounds of the loop, and the release.
finishes :
    {k : ThreadType} {s : Programs} {i : ℕ} {m : Shared} (l : Launch)
    → Alone k s i m (looping l 0)
    → Alone k s i
        (record m { dev = (led_release k m.dev).1 })
        (ended (after_write (pos 0) l.closed))
unfolding turn
finishes l a =
    goes false refl
      (goes false refl (goes false refl (goes false refl (goes false refl (goes false refl a)))))

-- A process alone, against the program as a function.
abbrev Agrees : (k : ThreadType) (s : Programs) (i : ℕ) → Option (Ending × List ℕ × Shared) → Type 0
Agrees k s i o =
    (t : Programs) × (ending : Ending) × (printed : List ℕ) × Run k s t
    × (o ≡ some (ending, printed, t.shared))
    × (t.app i ≡ ended ending)
    × ((j : ℕ) → i ≢ j → t.app j ≡ s.app j)

agrees :
    {k : ThreadType} {s : Programs} {i : ℕ} {o : Option (Ending × List ℕ × Shared)} {m : Shared}
    {ending : Ending}
    → (printed : List ℕ) → o ≡ some (ending, printed, m)
    → Alone k s i m (ended ending)
    → Agrees k s i o
agrees {ending} printed e a = (
  a.last,
  ending,
  printed,
  a.run,
  e ∙ ap (λ m. some (ending, printed, m)) (sym a.shared),
  a.here,
  a.others,
)

-- From the write on, for each status.
from_write :
    {k : ThreadType} {s : Programs} {i : ℕ} {m : Shared} (l : Launch) (v : ℕ) (buf : List ℕ)
    → thread_led_write false (data_buffer l.arg l.stack) m.buf m.pin
      ≡ some ((answered v m.pin).0, buf, (answered v m.pin).1)
    → Alone k s i m (writing l)
    → Agrees k s i
        (held k l.closed m (thread_led_write false (data_buffer l.arg l.stack) m.buf m.pin))
unfolding turn seconds
from_write {k} {m} l zero buf w a =
    agrees (3 ∷ 6 ∷ 9 ∷ 12 ∷ 15 ∷ []) (rw (w, held) refl)
      (finishes l (goes {n = record m { buf = buf; pin = false }} false (rw (w, turn) refl) a))
from_write {k} {m} l (suc zero) buf w a =
    agrees (3 ∷ 6 ∷ 9 ∷ 12 ∷ 15 ∷ []) (rw (w, held) refl)
      (finishes l (goes {n = record m { buf = buf; pin = true }} false (rw (w, turn) refl) a))
from_write {k} {m} l (suc (suc v)) buf w a = agrees [] (rw (w, held) refl) (
    goes false refl
      (goes {n = record m { buf = buf }} {q = leaving write_error} false (rw (w, turn) refl) a))

-- Wherever the processes are, one that is about to open the device, and can or is refused, can go on
-- alone to its end, and then has ended as `main`, as one function, does, with the locks, the
-- driver's buffer and the pin that `main` leaves; the other processes are where they were.
pub alone-thread_app :
    (k : ThreadType) {s : Programs} (i : ℕ) (signalled : Bool) (l : Launch) (ret : ℤ)
    (d : GpioledDev) (prog filename : List ℕ)
    → Reach k s
    → s.app i ≡ opening l
    → led_open k signalled s.shared.dev ≡ some (ret, d)
    → (t : Programs) × (ending : Ending) × (printed : List ℕ) × Run k s t
      × (thread_app k (prog ∷ filename ∷ l.arg ∷ []) signalled l.closed l.stack s.shared
          ≡ some (ending, printed, t.shared))
      × (t.app i ≡ ended ending)
      × ((j : ℕ) → i ≢ j → t.app j ≡ s.app j)
unfolding turn thread_app
alone-thread_app k {s} i signalled l (negsuc n) d prog filename r here e =
    let a : Alone k s i s.shared (opening l) = record {
      last = s;
      run = Run.here;
      shared = refl;
      here = here;
      others = λ j ne. refl;
    } in
    agrees [] (rw (e, opened) refl) (
      goes {m = s.shared} {n = record (s.shared) { dev = d }} {q = ended open_error} signalled
        (rw (e, turn) refl) a)
alone-thread_app k {s} i signalled l (pos n) d prog filename r here e =
    let a : Alone k s i s.shared (opening l) = record {
      last = s;
      run = Run.here;
      shared = refl;
      here = here;
      others = λ j ne. refl;
    } in
    let b =
      goes {k = k} {s = s} {m = s.shared} {n = record (s.shared) { dev = d }} {q = writing l}
        signalled (rw (e, turn) refl) a in
    let h : length l.stack ≡ 510 = subst (Shows s.shared.pin) here ((Reach-Inv r).shows i) in
    let v = to_u16 (atoi l.arg) in
    rw (e, opened) (from_write l v _ (led_write-status v l.stack s.shared.buf s.shared.pin h) b)

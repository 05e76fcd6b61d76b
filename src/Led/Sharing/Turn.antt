-- ===== src/Led/Sharing/Turn.antt =====
-- What a turn of a process that runs 9_thread_app.c does to the lock of 9_thread.c and to the LED.
use yocto_meta_hsiao.Base.{
  overlay, length, ◌-◌, Bool-cases, ◌+◌, ◌*◌, ◌/◌, ◌%◌, ◌^◌, ◌∷◌, none, Option, leb, ap, inr, zero,
  suc, pos, negsuc, ℤ, List, is_neg, subst, ◌<◌, ◌⊎◌, ◌∙◌, if◌then◌else◌, sym, inl, true, false,
  some, arith, Bool, refl, ℕ, ◌≡◌,
}
use yocto_meta_hsiao.Text.Scan.{atoi}
use yocto_meta_hsiao.Led.{
  GpioledDev, ThreadType, spin_lock, semaphore, mutex, led_open, led_release, led_write,
}
use yocto_meta_hsiao.Led.Exclusion.{
  Guarded, Guarded-Exclusive, Step-Guarded, opened, refused, released,
}
use yocto_meta_hsiao.Led.App.{
  answered, led_write-status, Ending, open_error, data_buffer, after_write, to_u16,
}
use yocto_meta_hsiao.Led.ThreadApp.{Shared}
use yocto_meta_hsiao.Led.Sharing.{
  Launch, App, idle, opening, writing, looping, leaving, ended, has_device, turn,
}

-- What a process relies on: up to its write, the size of its buffer, and in its loop that the LED is
-- as it asked, low for 0 and high for 1.
abbrev pub Shows : Bool → App → Type 0
Shows pin (opening l) = length l.stack ≡ 510
Shows pin (writing l) = length l.stack ≡ 510
Shows pin (looping l count) = (to_u16 (atoi l.arg) ≡ (if pin then 1 else 0)) × (count < 5)
Shows pin p = Unit {0}

-- What a turn of a process does, with `files` open before it.
pub record Local (k : ThreadType) (files : ℕ) (s t : Shared) (p q : App) : Type 0 where
  pub files' : ℕ
  pub guarded : Guarded k (record { dev = t.dev; files = files' })
  pub takes : has_device p ≡ false → has_device q ≡ true → files ≡ 0
  pub leaves : files' ≡ 0 → (has_device q ≡ false) × ((files ≡ 0) ⊎ (has_device p ≡ true))
  pub kept : (t.pin ≡ s.pin) ⊎ (has_device p ≡ true)
  pub shows : Shows t.pin q
  pub still : has_device q ≡ false → (files' ≡ 0) ⊎ ((files' ≡ files) × (has_device p ≡ false))

-- A turn that leaves the lock as it is.
stay :
    (k : ThreadType) {files : ℕ} {s t : Shared} {p q : App}
    → Guarded k (record { dev = s.dev; files = files })
    → t.dev ≡ s.dev
    → has_device q ≡ has_device p
    → (files ≡ 0 → has_device p ≡ false)
    → (t.pin ≡ s.pin) ⊎ (has_device p ≡ true)
    → Shows t.pin q
    → Local k files s t p q
stay k {files} {s} {t} {p} {q} g same e free pin sh = record {
  files' = files;
  guarded = subst (λ d. Guarded k (record { dev = d; files = files })) (sym same) g;
  takes = λ a b. ground (arith, e);
  leaves = λ z. (e ∙ free z, inl z);
  kept = pin;
  shows = sh;
  still = λ a. inr (refl, sym e ∙ a);
}

-- A write that does not fail sets the pin as the status asks.
write_level :
    (v : ℕ) (stack buf buf' : List ℕ) (pin pin' : Bool) (n : ℕ)
    → led_write false (v % 256 ∷ v / 256 ∷ stack) buf pin ≡ some (pos n, buf', pin')
    → v ≡ (if pin' then 1 else 0)
unfolding led_write
write_level v stack buf buf' pin pin' n e =
    let same : v % 256 + 256 * (v / 256) ≡ v = omega arith in ground (arith, same, e)

open_zero :
    (k : ThreadType) (sig : Bool) (n : ℕ) (d d' : GpioledDev)
    → led_open k sig d ≡ some (pos n, d')
    → n ≡ 0
unfolding led_open
open_zero spin_lock sig n d d' e = ground (arith, e)
open_zero semaphore sig n d d' e = ground (arith, e)
open_zero mutex sig n d d' e = ground (arith, e)

open-Local :
    (k : ThreadType) (sig : Bool) (files : ℕ) (s : Shared) (l : Launch) (ret : ℤ) (d : GpioledDev)
    → Guarded k (record { dev = s.dev; files = files })
    → length l.stack ≡ 510
    → led_open k sig s.dev ≡ some (ret, d)
    → Local k files s
        (record s { dev = d })
        (opening l)
        (if is_neg ret then ended open_error else writing l)
open-Local k sig files s l (pos n) d g whole e =
    let zero_ = open_zero k sig n s.dev d e in
    let g' =
      Step-Guarded k {s = record { dev = s.dev; files = files }}
        (opened sig d (e ∙ ap (λ m. some (pos m, d)) zero_)) g in
    let once = (Guarded-Exclusive k _ g').0 in
    record {
      files' = suc files;
      guarded = g';
      takes = λ a b. omega (arith, once);
      leaves = λ z. absurd (omega (arith, z));
      kept = inl refl;
      shows = whole;
      still = λ a. absurd (ground arith);
    }
open-Local k sig files s l (negsuc n) d g whole e = record {
  files' = files;
  guarded = Step-Guarded k {s = record { dev = s.dev; files = files }} (refused sig n d e) g;
  takes = λ a b. ground arith;
  leaves = λ z. (refl, inl z);
  kept = inl refl;
  shows = tt;
  still = λ a. inr (refl, refl);
}

close-Local :
    (k : ThreadType) (files : ℕ) (s : Shared) (e : Ending)
    → Guarded k (record { dev = s.dev; files = files })
    → (files ≡ 0 → has_device (leaving e) ≡ false)
    → Local k files s (record s { dev = (led_release k s.dev).1 }) (leaving e) (ended e)
close-Local k zero s e g free = absurd (ground (arith, free refl))
close-Local k (suc n) s e g free = record {
  files' = n;
  guarded = Step-Guarded k {s = record { dev = s.dev; files = suc n }} (released n refl) g;
  takes = λ a b. ground arith;
  leaves = λ z. (refl, inr refl);
  kept = inl refl;
  shows = tt;
  still = λ a. let once = (Guarded-Exclusive k _ g).0 in inl (omega (arith, once));
}

write-Local :
    (k : ThreadType) (files : ℕ) (s : Shared) (l : Launch) (ret : ℤ) (buf : List ℕ) (pin : Bool)
    → Guarded k (record { dev = s.dev; files = files })
    → (files ≡ 0 → has_device (writing l) ≡ false)
    → led_write false (data_buffer l.arg l.stack) s.buf s.pin ≡ some (ret, buf, pin)
    → Local k files s
        (record s { buf = buf; pin = pin })
        (writing l)
        (if is_neg ret then leaving (after_write ret l.closed) else looping l 0)
write-Local k files s l (negsuc n) buf pin g free e = stay k g refl refl free (inr refl) tt
write-Local k files s l (pos n) buf pin g free e =
    stay k g refl refl free (inr refl)
      (write_level (to_u16 (atoi l.arg)) l.stack s.buf buf s.pin pin n e, omega arith)

-- What holds of a turn that does not overrun the driver's buffer.
abbrev pub Turned : (k : ThreadType) → ℕ → Shared → App → Option (Shared × App) → Type 0
Turned k files s p none = Unit {0}
Turned k files s p (some (t, q)) = Local k files s t p q

pub turn-Turned :
    (k : ThreadType) (sig : Bool) (files : ℕ) (s : Shared) (p : App)
    → Guarded k (record { dev = s.dev; files = files })
    → (files ≡ 0 → has_device p ≡ false)
    → Shows s.pin p
    → Turned k files s p (turn k sig s p)
unfolding turn
turn-Turned k sig files s idle g free sh = stay k g refl refl free (inl refl) tt
turn-Turned k sig files s (opening l) g free sh = from (led_open k sig s.dev) refl
  where
    from :
        (o : Option (ℤ × GpioledDev))
        → led_open k sig s.dev ≡ o
        → Turned k files s (opening l) (turn k sig s (opening l))
    from none e = rw (e, Turned) (stay k g refl refl free (inl refl) sh)
    from (some (ret, d)) e = rw (e, Turned) (open-Local k sig files s l ret d g sh e)
turn-Turned k sig files s (writing l) g free sh =
    from (led_write false (data_buffer l.arg l.stack) s.buf s.pin) refl
  where
    from :
        (o : Option (ℤ × List ℕ × Bool))
        → led_write false (data_buffer l.arg l.stack) s.buf s.pin ≡ o
        → Turned k files s (writing l) (turn k sig s (writing l))
    from none e = rw (e, Turned) tt
    from (some (ret, buf, pin)) e = rw (e, Turned) (write-Local k files s l ret buf pin g free e)
turn-Turned k sig files s (looping l c) g free sh = elim (Bool-cases (leb 5 ((c + 1) % 2 ^ 16))) [
  | inl e ↦ rw e (stay k g refl refl free (inl refl) tt)
  | inr e ↦ rw e (stay k g refl refl free (inl refl) (sh.0, ground arith))
]
turn-Turned k sig files s (leaving x) g free sh = close-Local k files s x g free
turn-Turned k sig files s (ended x) g free sh = stay k g refl refl free (inl refl) tt

-- How many turns a process with the device still takes, at most, before it has released it.
abbrev pub turns_left : App → ℕ
turns_left (writing l) = 7
turns_left (looping l count) = 6 - count
turns_left (leaving e) = 1
turns_left p = 0

-- A turn of a process with the device can be taken, and brings it nearer to the release.
pub turn-turns_left :
    (k : ThreadType) (sig : Bool) (s : Shared) (p : App)
    → has_device p ≡ true
    → Shows s.pin p
    → (t : Shared) × (q : App) × (turn k sig s p ≡ some (t, q)) × (turns_left q < turns_left p)
unfolding turn
turn-turns_left k sig s (writing l) h sh =
    let wrote = led_write-status (to_u16 (atoi l.arg)) l.stack s.buf s.pin sh in
    let (ret, pin) = answered (to_u16 (atoi l.arg)) s.pin in
    (
      record s { buf = overlay (data_buffer l.arg l.stack) s.buf; pin = pin },
      (if is_neg ret then leaving (after_write ret l.closed) else looping l 0),
      rw (wrote, turn) refl,
      ground arith,
    )
turn-turns_left k sig s (looping l c) h sh = (_, _, refl, ground (arith, sh.1))
turn-turns_left k sig s (leaving x) h sh = (_, _, refl, omega arith)
turn-turns_left k sig s idle h sh = absurd (ground (arith, h))
turn-turns_left k sig s (opening l) h sh = absurd (ground (arith, h))
turn-turns_left k sig s (ended x) h sh = absurd (ground (arith, h))

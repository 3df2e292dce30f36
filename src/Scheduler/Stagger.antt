-- ===== src/Scheduler/Stagger.antt =====
-- The offsets of the first refreshes: distinct shares of one window, which ends before any ticker
-- fires; and the refreshes that one loop makes.
use native.Mathlib.Nat.{div-mul-le_self, le-div_iff_mul-le}
use native.Mathlib.Decide.{dec_lt}
use digitalocean_exporter.Base.{
  ℕ, zero, suc, ◌+◌, ◌*◌, ◌/◌, ◌≤◌, ◌<◌, List, [], ◌∷◌, ◌++◌, ℤ, pos, negsuc, leb, ◌≡◌, refl, ap,
  inl, inr, arith, if◌then◌else◌, length, replicate, All, All-append, Bool-cases,
}
use digitalocean_exporter.Base.Int.{positive, min_ℤ, ◌≤ℤ◌, ◌<ℤ◌}
use digitalocean_exporter.Scheduler.{
  Collector, Entry, Scheduler, Signal, done, fired, ticks, loop, register, max_stagger, window_from,
  stagger_window, stagger, offsets_from, offsets,
}

abbrev pub IsPositive : Entry → Type 0
IsPositive e = pos 0 <ℤ e.interval

-- `time.NewTicker` gets a positive interval from every entry, whatever was asked for.
register-IsPositive :
    (c : Collector) (interval timeout : ℤ) (s : Scheduler)
    → All IsPositive s.entries
    → All IsPositive (register c interval timeout s).entries
unfolding register
register-IsPositive c interval timeout s h = All-append IsPositive s.entries _ h (ground arith, tt)

-- The window is no longer than the cap, or than the shortest interval.
window_from-le :
    (window : ℤ) (entries : List Entry)
    → (window_from window entries ≤ℤ window)
      × All (λ e. window_from window entries ≤ℤ e.interval) entries
unfolding window_from
window_from-le window [] = (omega arith, tt)
window_from-le window (e ∷ entries) =
    let (w, a) = window_from-le (min_ℤ window e.interval) entries in
    (ground arith, (ground arith, a))

window_from-pos :
    (window : ℤ) (entries : List Entry)
    → pos 0 <ℤ window
    → All IsPositive entries
    → pos 0 <ℤ window_from window entries
unfolding window_from
window_from-pos window [] h a = h
window_from-pos window (e ∷ entries) h a =
    window_from-pos (min_ℤ window e.interval) entries (ground arith) a.1

-- For an index below the count both early returns agree with the share.
stagger_lem : (n i count : ℕ) → i < count → stagger i count (pos n) ≡ pos (n / count * i)
unfolding stagger
stagger_lem n i count h = elim (Bool-cases (leb i 0)) [
  | inl z ↦ let e : i ≡ 0 = ground arith in rw (z, e) (ap pos (omega arith))
  | inr p ↦ ground arith
]

share_mono : (n i j count : ℕ) → i < j → j < count → count ≤ n → n / count * i < n / count * j
share_mono n i j count h k l =
    let q : 1 ≤ n / count = (le-div_iff_mul-le (omega arith)).1 (omega arith) in grind arith

share-lt : (n i count : ℕ) → 0 < n → i < count → n / count * i < n
share-lt n i count h k = elim (dec_lt 0 (n / count)) [
  | yes q ↦ grind (arith, div-mul-le_self n count)
  | no z ↦ let e : n / count ≡ 0 = omega arith in rw e (omega arith)
]

abbrev pub Increasing : List ℤ → Type 0
Increasing [] = Unit
Increasing (x ∷ xs) = All (λ y. x <ℤ y) xs × Increasing xs

All-offsets_from :
    (P : ℤ → Type 0) (index count : ℕ) (window : ℤ) (entries : List Entry)
    → ((i : ℕ) → index ≤ i → i < index + length entries → P (stagger i count window))
    → All P (offsets_from index count window entries)
unfolding offsets_from
All-offsets_from P index count window [] h = tt
All-offsets_from P index count window (e ∷ entries) h = (
  h index (omega arith) (omega arith),
  All-offsets_from P (index + 1) count window entries (λ i l u. h i (omega arith) (omega arith)),
)

Increasing-offsets_from :
    (index count n : ℕ) (entries : List Entry)
    → index + length entries ≤ count
    → count ≤ n
    → Increasing (offsets_from index count (pos n) entries)
unfolding offsets_from
Increasing-offsets_from index count n [] h l = tt
Increasing-offsets_from index count n (e ∷ entries) h l = (
  All-offsets_from _ (index + 1) count (pos n) entries (λ i lo hi.
      rw (stagger_lem n index count (omega arith), stagger_lem n i count (omega arith))
        (omega (arith, share_mono n index i count (omega arith) (omega arith) l))),
  Increasing-offsets_from (index + 1) count n entries (omega arith) l,
)

-- The offsets that fit a window of `n` nanoseconds.
abbrev pub FitsWindow : ℤ → List ℤ → Type 0
FitsWindow window os = All (λ o. (pos 0 ≤ℤ o) × (o <ℤ window)) os

FitsWindow-offsets_from :
    (n : ℕ) (entries : List Entry)
    → 0 < n
    → FitsWindow (pos n) (offsets_from 0 (length entries) (pos n) entries)
FitsWindow-offsets_from n entries p =
    All-offsets_from (λ o. (pos 0 ≤ℤ o) × (o <ℤ pos n)) 0 (length entries) (pos n) entries
      (λ i lo hi.
        let k : i < length entries = omega arith in
        rw (stagger_lem n i (length entries) k) (omega (arith, share-lt n i (length entries) p k)))

FitsWindow-window :
    (window : ℤ) (entries : List Entry)
    → pos 0 <ℤ window
    → FitsWindow window (offsets_from 0 (length entries) window entries)
      × (pos (length entries) ≤ℤ window
          → Increasing (offsets_from 0 (length entries) window entries))
FitsWindow-window (pos n) entries h = (
  FitsWindow-offsets_from n entries (omega arith),
  λ wide. Increasing-offsets_from 0 (length entries) n entries (omega arith) (omega arith),
)
FitsWindow-window (negsuc n) entries h = absurd (omega arith)

-- The intervals being positive, every loop starts within one window, which is no longer than the cap
-- of three seconds or than any interval, so no ticker fires before the first refresh of any
-- collector. In a window of at least as many nanoseconds as there are collectors the offsets grow
-- strictly in the order of registration, so no two collectors start together.
pub offsets_lem :
    (entries : List Entry)
    → All IsPositive entries
    → FitsWindow (stagger_window entries) (offsets entries)
      × (stagger_window entries ≤ℤ max_stagger)
      × All (λ e. stagger_window entries ≤ℤ e.interval) entries
      × (pos (length entries) ≤ℤ stagger_window entries → Increasing (offsets entries))
unfolding offsets stagger_window
offsets_lem entries a =
    let (fit, grow) =
      FitsWindow-window _ entries (window_from-pos max_stagger entries (omega arith) a) in
    let (cap, short) = window_from-le max_stagger entries in (fit, cap, short, grow)

ticks_lem : (signals : List Signal) (n : ℕ) → ticks (replicate n fired ++ done ∷ signals) ≡ n
unfolding ticks
ticks_lem signals zero = refl
ticks_lem signals (suc n) = ap suc (ticks_lem signals n)

-- A collector whose context is done while its first refresh is held back never refreshes. Otherwise it
-- refreshes once at its start and once for each tick before the context is done, and never after.
pub loop_lem :
    (offset : ℤ) (after : List Signal) (n : ℕ)
    → loop offset (replicate n fired ++ done ∷ after) ≡ (if positive offset then n else suc n)
unfolding loop
loop_lem offset after zero = refl
loop_lem offset after (suc n) = rw (ticks_lem after n)

-- ===== src/Text/Laws.antt =====
-- Laws of `Split`, `TrimSpace` and `Cut`.
use Prim.Native.Char.{Char, code}
use Prim.Native.String.{◌∷◌ as cons, ◌++◌ as str_append}
use text.Mathlib.TextLemmas.{cons-append, nil-append}
use digitalocean_exporter.Base.{
  ℕ, String, string_eq, nat_eq, Bool, true, false, not, ◌&&◌, List, [], ◌∷◌, ◌++◌, ◌==◌, ◌≡◌, refl,
  arith, All, Bool-cases, inl, inr,
}
use digitalocean_exporter.Text.{split, trim_left, trim_right, trim_space, cut, push, is_space}

-- The character with this code does not occur.
abbrev pub lacks : ℕ → String → Bool
lacks sep String.[] = true
lacks sep (String.◌∷◌ c s) = not (code c == sep) && lacks sep s

lacks-cons :
    (sep : ℕ) (c : Char) (s : String)
    → lacks sep (cons c s) ≡ true
    → ((code c == sep) ≡ false) × (lacks sep s ≡ true)
lacks-cons sep c s h = (ground arith, ground arith)

-- What is cut at a character that the part before lacks is that part and the rest.
pub cut-append :
    (sep : ℕ) (mark : Char) (before behind : String)
    → code mark ≡ sep
    → lacks sep before ≡ true
    → cut sep (str_append before (cons mark behind)) ≡ (before, behind, true)
unfolding cut
cut-append sep mark String.[] behind m h =
    rw (nil-append, cut) (rw ((nat_eq.beq_iff (code mark) sep).1 m))
cut-append sep mark (String.◌∷◌ c s) behind m h =
    let (ne, l) = lacks-cons sep c s h in
    rw (cons-append, cut) (rw (ne, cut-append sep mark s behind m l))

pub cut_absent : (sep : ℕ) (s : String) → lacks sep s ≡ true → cut sep s ≡ (s, "", false)
unfolding cut
cut_absent sep String.[] h = refl
cut_absent sep (String.◌∷◌ c s) h =
    let (ne, l) = lacks-cons sep c s h in rw (ne, cut_absent sep s l)

push-append :
    (c : Char) (w : String) (ws vs : List String) → push c ((w ∷ ws) ++ vs) ≡ push c (w ∷ ws) ++ vs
push-append c w ws vs = refl

split-cons : (sep : ℕ) (s : String) → (w : String) × (ws : List String) × (split sep s ≡ w ∷ ws)
unfolding split
split-cons sep String.[] = ("", [], refl)
split-cons sep (String.◌∷◌ c s) = elim (Bool-cases (code c == sep)) [
  | inl t ↦ ("", split sep s, rw (split, t))
  | inr f ↦ let (w, ws, e) = split-cons sep s in (cons c w, ws, rw (split, f, e))
]

-- A text joined of two by the separator splits into the pieces of the first and those of the second.
pub split-append :
    (sep : ℕ) (mark : Char) (a b : String)
    → code mark ≡ sep
    → split sep (str_append a (cons mark b)) ≡ split sep a ++ split sep b
unfolding split
split-append sep mark String.[] b m =
    rw (nil-append, split) (rw ((nat_eq.beq_iff (code mark) sep).1 m))
split-append sep mark (String.◌∷◌ c a) b m =
    rw (cons-append, split)
      (elim (Bool-cases (code c == sep)) [
        | inl t ↦ rw (t, split-append sep mark a b m)
        | inr f ↦ let (w, ws, e) = split-cons sep a in rw (f, split-append sep mark a b m) (rw e)
      ])

-- No piece of a split text has the separator in it.
pub split-lacks : (sep : ℕ) (s : String) → All (λ w. lacks sep w ≡ true) (split sep s)
unfolding split
split-lacks sep String.[] = (refl, tt)
split-lacks sep (String.◌∷◌ c s) = elim (Bool-cases (code c == sep)) [
  | inl t ↦ rw (split, t) (refl, split-lacks sep s)
  | inr f ↦
      let (w, ws, e) = split-cons sep s in
      let h : All (λ w. lacks sep w ≡ true) (w ∷ ws) = rw e at (split-lacks sep s) in
      rw (split, f, e) (rw (f, h.0), h.1)
]

trim_left-lacks : (sep : ℕ) (s : String) → lacks sep s ≡ true → lacks sep (trim_left s) ≡ true
unfolding trim_left
trim_left-lacks sep String.[] h = refl
trim_left-lacks sep (String.◌∷◌ c s) h = elim (Bool-cases (is_space (code c))) [
  | inl t ↦ rw (trim_left, t) (trim_left-lacks sep s (lacks-cons sep c s h).1)
  | inr f ↦ rw (trim_left, f) h
]

trim_right-lacks : (sep : ℕ) (s : String) → lacks sep s ≡ true → lacks sep (trim_right s) ≡ true
unfolding trim_right
trim_right-lacks sep String.[] h = refl
trim_right-lacks sep (String.◌∷◌ c s) h =
    let (ne, l) = lacks-cons sep c s h in
    elim (Bool-cases (trim_right s == "" && is_space (code c))) [
      | inl t ↦ rw (trim_right, t)
      | inr f ↦ rw (trim_right, f) (rw (ne, trim_right-lacks sep s l))
    ]

-- Trimming brings no separator in.
pub trim_space-lacks : (sep : ℕ) (s : String) → lacks sep s ≡ true → lacks sep (trim_space s) ≡ true
unfolding trim_space
trim_space-lacks sep s h = trim_right-lacks sep (trim_left s) (trim_left-lacks sep s h)

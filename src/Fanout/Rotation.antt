-- ===== src/Fanout/Rotation.antt =====
-- `rotate` and `advance`: where a refresh starts, and that the refreshes reach the whole fleet.
use native.Mathlib.Nat.{mod-add-mod, mod-lt, mod-eq_of_lt, mod-eq-sub-mod}
use mathlib.Core.Path.{subst}
use mathlib.Core.List.{append_assoc, append-nil}
use digitalocean_exporter.Base.{
  ℕ, zero, suc, ◌+◌, ◌-◌, ◌%◌, ◌≤◌, ◌<◌, List, [], ◌∷◌, ◌++◌, ◌≡◌, refl, sym, ap, ◌∙◌, arith,
  length, take, drop, take-append-drop, length-take, length-append, All, All-append, inl, inr, ◌⊎◌,
}
use digitalocean_exporter.Fanout.{Reference, rotate, advance}

lt_or_ge : (a b : ℕ) → (a < b) ⊎ (b ≤ a)
lt_or_ge a b = omega arith

module _ {A : Type 0} where
  abbrev cycle : ℕ → List A → List A
  cycle k xs = drop k xs ++ take k xs

  drop-append : (a b : List A) → drop (length a) (a ++ b) ≡ b
  drop-append [] b = refl
  drop-append (x ∷ a) b = drop-append a b

  take-append : (a b : List A) → take (length a) (a ++ b) ≡ a
  take-append [] b = refl
  take-append (x ∷ a) b = rw (take-append a b)

  cycle-append : (k : ℕ) (a b : List A) → k ≡ length a → cycle k (a ++ b) ≡ b ++ a
  cycle-append k a b e = rw (e, drop-append a b, take-append a b)

  -- A list is cut in two at every index within it.
  cut_at :
      (k : ℕ) (xs : List A)
      → k ≤ length xs
      → (a : List A) × (b : List A) × (xs ≡ a ++ b) × (length a ≡ k)
  cut_at k xs h =
      (take k xs, drop k xs, sym (take-append-drop k xs), omega (arith, length-take k xs))

  -- Two turns are one, by the three parts that they cut the list into.
  cycle_parts_lt :
      (a b d : List A)
      → cycle (length a + length b) (a ++ (b ++ d))
        ≡ cycle (length b) (cycle (length a) (a ++ (b ++ d)))
  cycle_parts_lt a b d =
      ap (cycle (length a + length b)) (sym (append_assoc a b d))
      ∙ cycle-append (length a + length b) (a ++ b) d (sym (length-append a b))
      ∙ sym (append_assoc d a b)
      ∙ sym (cycle-append (length b) b (d ++ a) refl)
      ∙ ap (cycle (length b)) (sym (append_assoc b d a))
      ∙ ap (cycle (length b)) (sym (cycle-append (length a) a (b ++ d) refl))

  cycle_parts_ge :
      (b d c : List A) (k i : ℕ)
      → k ≡ length (b ++ d)
      → i ≡ length (c ++ b)
      → cycle (length b) ((b ++ d) ++ c) ≡ cycle i (cycle k ((b ++ d) ++ c))
  cycle_parts_ge b d c k i hk hi =
      ap (cycle (length b)) (append_assoc b d c)
      ∙ cycle-append (length b) b (d ++ c) refl
      ∙ append_assoc d c b
      ∙ sym (cycle-append i (c ++ b) d hi)
      ∙ ap (cycle i) (append_assoc c b d)
      ∙ ap (cycle i) (sym (cycle-append k (b ++ d) c hk))

  cycle-cycle_lt :
      (k i : ℕ) (xs : List A) → k + i < length xs → cycle (k + i) xs ≡ cycle i (cycle k xs)
  cycle-cycle_lt k i xs h =
      let (a, c, e, p) = cut_at k xs (omega arith) in
      let (b, d, e', q) = cut_at i c (omega (arith, ap length e, length-append a c)) in
      let whole : a ++ (b ++ d) ≡ xs = sym (e ∙ ap (λ t. a ++ t) e') in
      let r : cycle (length a + length b) xs ≡ cycle (length b) (cycle (length a) xs) =
        subst (λ x. cycle (length a + length b) x ≡ cycle (length b) (cycle (length a) x)) whole
          (cycle_parts_lt a b d) in
      subst (λ m. cycle (m + i) xs ≡ cycle i (cycle m xs)) p
        (subst (λ m. cycle (length a + m) xs ≡ cycle m (cycle (length a) xs)) q r)

  cycle-cycle_ge :
      (k i : ℕ) (xs : List A)
      → k ≤ length xs
      → i ≤ length xs
      → length xs ≤ k + i
      → cycle (k + i - length xs) xs ≡ cycle i (cycle k xs)
  cycle-cycle_ge k i xs h h' g =
      let (a, c, e, p) = cut_at k xs h in
      let n : length xs ≡ k + length c = omega (arith, ap length e, length-append a c) in
      let (b, d, e', q) = cut_at (k + i - length xs) a (omega arith) in
      let whole : (b ++ d) ++ c ≡ xs = sym (e ∙ ap (λ t. t ++ c) e') in
      let r : cycle (length b) xs ≡ cycle i (cycle k xs) =
        subst (λ x. cycle (length b) x ≡ cycle i (cycle k x)) whole
          (cycle_parts_ge b d c k i (sym p ∙ ap length e') (omega (arith, length-append c b))) in
      subst (λ m. cycle m xs ≡ cycle i (cycle k xs)) q r

rotate-cycle :
    (cursor : ℕ) (r : Reference) (rs : List Reference)
    → rotate cursor (r ∷ rs) ≡ cycle (cursor % length (r ∷ rs)) (r ∷ rs)
unfolding rotate
rotate-cycle cursor r rs = refl

cycle-mod :
    (k i : ℕ) (xs : List Reference)
    → k < length xs
    → i ≤ length xs
    → cycle ((k + i) % length xs) xs ≡ cycle i (cycle k xs)
cycle-mod k i xs h h' = elim (lt_or_ge (k + i) (length xs)) [
  | inl l ↦ rw (mod-eq_of_lt l) (cycle-cycle_lt k i xs l)
  | inr g ↦
      let small : k + i - length xs < length xs = omega arith in
      let e : (k + i) % length xs ≡ k + i - length xs = mod-eq-sub-mod g ∙ mod-eq_of_lt small in
      rw e (cycle-cycle_ge k i xs (omega arith) h' g)
]

-- After a refresh that reached `by` resources of the listing, the next one measures the same listing
-- from the resource after those: the resources that were not reached come first, in their order, and the
-- ones that were reached come last.
pub rotate-advance :
    (cursor by : ℕ) (refs : List Reference)
    → by ≤ length refs
    → rotate (advance cursor by (length refs)) refs
      ≡ drop by (rotate cursor refs) ++ take by (rotate cursor refs)
unfolding rotate advance
rotate-advance cursor zero [] h = refl
rotate-advance cursor (suc by) [] h = refl
rotate-advance cursor by (r ∷ rs) h =
    let n = length (r ∷ rs) in
    let e : (cursor + by) % n % n ≡ (cursor % n + by) % n =
      mod-eq_of_lt (mod-lt (cursor + by) (omega arith)) ∙ sym (mod-add-mod cursor n by) in
    ap (λ m. cycle m (r ∷ rs)) e
    ∙ cycle-mod (cursor % n) by (r ∷ rs) (mod-lt cursor (omega arith)) h

-- The resources that refreshes measure which reach so many resources each.
abbrev pub visits : ℕ → List Reference → List ℕ → List Reference
visits cursor refs [] = []
visits cursor refs (by ∷ counts) =
    take by (rotate cursor refs) ++ visits (advance cursor by (length refs)) refs counts

abbrev pub sum : List ℕ → ℕ
sum [] = 0
sum (n ∷ ns) = n + sum ns

pub length-rotate : (cursor : ℕ) (refs : List Reference) → length (rotate cursor refs) ≡ length refs
unfolding rotate
length-rotate cursor [] = refl
length-rotate cursor (r ∷ rs) =
    let k = cursor % length (r ∷ rs) in
    length-append (drop k (r ∷ rs)) (take k (r ∷ rs))
    ∙ omega (
      arith,
      ap length (take-append-drop k (r ∷ rs)),
      length-append (take k (r ∷ rs)) (drop k (r ∷ rs)),
    )

module _ (P : Reference → Type 0) where
  All-append_left : (xs ys : List Reference) → All P (xs ++ ys) → All P xs
  All-append_left [] ys h = tt
  All-append_left (x ∷ xs) ys h = (h.0, All-append_left xs ys h.1)

  All-append_right : (xs ys : List Reference) → All P (xs ++ ys) → All P ys
  All-append_right [] ys h = h
  All-append_right (x ∷ xs) ys h = All-append_right xs ys h.1

  take-All : (n : ℕ) (u v : List Reference) → length u ≤ n → All P (take n (u ++ v)) → All P u
  take-All n [] v h a = tt
  take-All zero (x ∷ u) v h a = elim h [ ]
  take-All (suc n) (x ∷ u) v h a = (a.0, take-All n u v (omega arith) a.1)

  cover :
      (cursor : ℕ) (refs : List Reference) (counts : List ℕ) (u v : List Reference)
      → All (λ by. by ≤ length refs) counts
      → rotate cursor refs ≡ u ++ v
      → length u ≤ sum counts
      → All P (visits cursor refs counts)
      → All P u
  cover cursor refs [] [] v b e h a = tt
  cover cursor refs [] (x ∷ u) v b e h a = elim h [ ]
  cover cursor refs (by ∷ counts) u v b e h a =
      let now : All P (take by (u ++ v)) =
        subst (λ l. All P (take by l)) e (All-append_left (take by (rotate cursor refs)) _ a) in
      elim (lt_or_ge by (length u)) [
        | inr g ↦ take-All by u v g now
        | inl l ↦
            let (p, q, s, t) = cut_at by u (omega arith) in
            let e2 : u ++ v ≡ p ++ (q ++ v) = ap (λ w. w ++ v) s ∙ append_assoc p q v in
            let first : take by (u ++ v) ≡ p =
              ap (take by) e2
              ∙ subst (λ m. take m (p ++ (q ++ v)) ≡ p) t (take-append p (q ++ v)) in
            let turned : rotate (advance cursor by (length refs)) refs ≡ q ++ (v ++ p) =
              rotate-advance cursor by refs b.0
              ∙ ap (cycle by) (e ∙ e2)
              ∙ cycle-append by p (q ++ v) (sym t)
              ∙ append_assoc q v p in
            let later =
              cover (advance cursor by (length refs)) refs counts q (v ++ p) b.1 turned
                (omega (arith, ap length s, length-append p q))
                (All-append_right (take by (rotate cursor refs)) _ a) in
            subst (All P) (sym s) (All-append P p q (subst (All P) first now) later)
      ]

-- A fleet too large for one refresh is covered by a few: whatever holds of all the resources which
-- refreshes of one listing reach, each of them from where the one before it stopped and none of them
-- more than the listing has, holds of every resource of it, once they have reached as many as there are.
pub visits_cover :
    (P : Reference → Type 0) (cursor : ℕ) (refs : List Reference) (counts : List ℕ)
    → All (λ by. by ≤ length refs) counts
    → length refs ≤ sum counts
    → All P (visits cursor refs counts)
    → All P refs
visits_cover P cursor [] counts b h a = tt
visits_cover P cursor (r ∷ rs) counts b h a =
    let k = cursor % length (r ∷ rs) in
    let turned = subst (All P) (rotate-cycle cursor r rs) (
      cover P cursor (r ∷ rs) counts (rotate cursor (r ∷ rs)) [] b
        (sym (append-nil (rotate cursor (r ∷ rs)))) (omega (arith, length-rotate cursor (r ∷ rs)))
        a) in
    subst (All P) (take-append-drop k (r ∷ rs)) (
      All-append P (take k (r ∷ rs)) (drop k (r ∷ rs))
        (All-append_right P (drop k (r ∷ rs)) _ turned)
        (All-append_left P (drop k (r ∷ rs)) _ turned))

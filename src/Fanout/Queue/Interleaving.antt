-- ===== src/Fanout/Queue/Interleaving.antt =====
-- Every order in which the workers can finish gives the same results, and every run comes to an end.
use mathlib.Core.Path.{subst}
use mathlib.Core.List.{append-nil}
use native.Mathlib.Nat.{zero-add}
use digitalocean_exporter.Base.{
  some_inj, ℕ, zero, suc, ◌+◌, ◌-◌, ◌*◌, ◌≤◌, ◌<◌, nat_eq, true, false, ◌==◌, none, some, List, [],
  ◌∷◌, ◌++◌, GoError, Result, length, length-append, get_elem?, ltb, ◌≡◌, refl, sym, ap, ◌∙◌, arith,
  ◌⊎◌, inl, inr, if◌then◌else◌, Bool-cases, map, take, drop, contains, All, contains-append,
}
use digitalocean_exporter.Fanout.{Reading, Reference, measured, unmeasured, measure_all}
use digitalocean_exporter.Fanout.Queue.{
  State, starting, store, Step, hand_out, finish, context_done, close, Runs, stay, then_step,
  then_canceled, IsOver, outcome_from, outcome,
}

lt_or_eq : (a b : ℕ) → a ≤ b → (a < b) ⊎ (a ≡ b)
lt_or_eq a b h = omega arith

ltb_lt : (a b : ℕ) → a < b → ltb a b ≡ true
ltb_lt a b h = ground arith

ltb_ge : (a b : ℕ) → b ≤ a → ltb a b ≡ false
ltb_ge a b h = ground arith

take_all : {A : Type 0} (n : ℕ) (xs : List A) → length xs ≤ n → take n xs ≡ xs
take_all zero [] h = refl
take_all zero (x ∷ xs) h = let z : 1 ≤ 0 = omega arith in elim z [ ]
take_all (suc n) [] h = refl
take_all (suc n) (x ∷ xs) h = ap (λ t. x ∷ t) (take_all n xs (omega arith))

drop_all : {A : Type 0} (n : ℕ) (xs : List A) → length xs ≤ n → drop n xs ≡ []
drop_all zero [] h = refl
drop_all zero (x ∷ xs) h = let z : 1 ≤ 0 = omega arith in elim z [ ]
drop_all (suc n) [] h = refl
drop_all (suc n) (x ∷ xs) h = drop_all n xs (omega arith)

All-removed :
    (Q : ℕ → Type 0) (before after : List ℕ) (i : ℕ)
    → All Q (before ++ i ∷ after)
    → All Q (before ++ after)
All-removed Q [] after i h = h.1
All-removed Q (b ∷ before) after i h = (h.0, All-removed Q before after i h.1)

module _ {P : Type 0} (measure : Reference → Result (Reading P)) (concurrency : ℕ)
    (refs : List Reference) where
  -- Each index that was handed out is being measured, or its result is stored.
  abbrev Inv : State P → Type 0
  Inv s =
      (s.next ≤ length refs)
      × ((i : ℕ) (ref : Reference)
          → get_elem? refs i ≡ some ref
          → i < s.next
          → (contains s.busy i ≡ true) ⊎ (s.results i ≡ some (measured measure ref)))

  Inv-starting : Inv starting
  Inv-starting = (omega arith, λ i ref g h. absurd (omega arith))

  moved :
      (before after : List ℕ) (i j : ℕ)
      → contains (before ++ i ∷ after) j ≡ true
      → (i == j) ≡ false
      → contains (before ++ after) j ≡ true
  moved before after i j h n =
      ground (arith, contains-append before (i ∷ after) j, contains-append before after j)

  handed :
      (s : State P) (i : ℕ) (ref : Reference)
      → ((i < s.next) → (contains s.busy i ≡ true) ⊎ (s.results i ≡ some (measured measure ref)))
      → i < s.next + 1
      → (contains (s.next ∷ s.busy) i ≡ true) ⊎ (s.results i ≡ some (measured measure ref))
  handed s i ref v h = elim (Bool-cases (s.next == i)) [
    | inl t ↦ inl (rw t refl)
    | inr f ↦ elim (v (ground arith)) [ inl b ↦ inl (rw (f, b) refl) | inr e ↦ inr e ]
  ]

  finished :
      (s : State P) (before after : List ℕ) (i j : ℕ) (ref r : Reference)
      → s.busy ≡ before ++ i ∷ after
      → get_elem? refs i ≡ some ref
      → get_elem? refs j ≡ some r
      → (contains s.busy j ≡ true) ⊎ (s.results j ≡ some (measured measure r))
      → (contains (before ++ after) j ≡ true)
        ⊎ (store i (measured measure ref) s.results j ≡ some (measured measure r))
  unfolding store
  finished s before after i j ref r e g g' v = elim (Bool-cases (i == j)) [
    | inl t ↦
        let ij : i ≡ j = (nat_eq.beq_iff i j).0 t in
        let same : ref ≡ r = some_inj (sym g ∙ ap (get_elem? refs) ij ∙ g') in
        inr (rw t (ap (λ x. some (measured measure x)) same))
    | inr f ↦ elim v [
      | inl b ↦ inl (moved before after i j (ap (λ l. contains l j) (sym e) ∙ b) f)
      | inr q ↦ inr (rw f q)
    ]
  ]

  Step-Inv : {s t : State P} → Step measure concurrency refs s t → Inv s → Inv t
  Step-Inv {s = s} (hand_out o l b) (k, v) =
      (omega arith, λ i ref g h. handed s i ref (v i ref g) h)
  Step-Inv {s = s} (finish before after i ref e g) (k, v) =
      (k, λ j r g' h. finished s before after i j ref r e g g' (v j r g' h))
  Step-Inv (context_done c o l) v = v
  Step-Inv (close o l) v = v

  Runs-Inv : {s t : State P} → Runs measure concurrency refs s t → Inv s → Inv t
  Runs-Inv stay v = v
  Runs-Inv (then_step r st) v = Step-Inv st (Runs-Inv r v)
  Runs-Inv (then_canceled r) v = Runs-Inv r v

  outcome_from-unmeasured :
      (e : GoError) (s : State P) (j : ℕ) (rs : List Reference)
      → s.next ≤ j
      → outcome_from measure concurrency refs e s j rs ≡ map (unmeasured measure e) rs
  unfolding outcome_from
  outcome_from-unmeasured e s j [] l = refl
  outcome_from-unmeasured e s j (r ∷ rs) l =
      rw (ltb_ge j s.next l, outcome_from-unmeasured e s (j + 1) rs (omega arith))

  outcome_from-measured :
      (e : GoError) (s : State P) (j n : ℕ) (rs : List Reference)
      → j + n ≡ s.next
      → ((i : ℕ) (ref : Reference)
          → get_elem? rs i ≡ some ref
          → j + i < s.next
          → s.results (j + i) ≡ some (measured measure ref))
      → outcome_from measure concurrency refs e s j rs
        ≡ map (measured measure) (take n rs) ++ map (unmeasured measure e) (drop n rs)
  unfolding outcome_from
  outcome_from-measured e s j zero rs l h = outcome_from-unmeasured e s j rs (omega arith)
  outcome_from-measured e s j (suc n) [] l h = refl
  outcome_from-measured e s j (suc n) (r ∷ rs) l h =
      let here : s.results j ≡ some (measured measure r) =
        ap s.results (omega arith) ∙ h 0 r refl (omega arith) in
      rw (ltb_lt j s.next (omega arith), here)
        (ap (λ t. measured measure r ∷ t)
          (outcome_from-measured e s (j + 1) n rs (omega arith)
            (λ i ref g k. ap s.results (omega arith) ∙ h (suc i) ref g (omega arith))))

  not_busy :
      (s : State P) (i : ℕ) (ref : Reference)
      → s.busy ≡ []
      → (contains s.busy i ≡ true) ⊎ (s.results i ≡ some (measured measure ref))
      → s.results i ≡ some (measured measure ref)
  not_busy s i ref b (inl t) = cc
  not_busy s i ref b (inr e) = e

  -- However the workers interleave, once all of them are done the results are those that a loop over
  -- the list would have given: each reference that was handed out is measured and stands at its own
  -- index, and each one from where the dispatch stopped on has the error of the context.
  pub Runs-outcome :
      {s : State P} (e : GoError)
      → Runs measure concurrency refs starting s
      → IsOver measure concurrency refs s
      → (outcome measure concurrency refs e s ≡ measure_all measure (some (s.next, e)) refs)
        × (s.next ≡ length refs
            → outcome measure concurrency refs e s ≡ measure_all measure none refs)
  unfolding measure_all
  Runs-outcome {s = s} e r (o, b) =
      let (k, v) = Runs-Inv r Inv-starting in
      let all_stored =
        λ (i : ℕ) (ref : Reference) (g : get_elem? refs i ≡ some ref) (l : 0 + i < s.next).
          ap s.results (zero-add i) ∙ not_busy s i ref b (v i ref g (omega arith)) in
      let cut = outcome_from-measured e s 0 s.next refs (omega arith) all_stored in
      (
        cut,
        λ n.
            cut
            ∙ ap (λ t. map (measured measure) t ++ map (unmeasured measure e) (drop s.next refs))
                (take_all s.next refs (omega arith))
            ∙ ap (λ t. map (measured measure) refs ++ map (unmeasured measure e) t)
                (drop_all s.next refs (omega arith))
            ∙ append-nil (map (measured measure) refs),
      )

  -- What is left to do.
  abbrev pub weight : State P → ℕ
  weight s = 2 * (length refs - s.next) + length s.busy + (if s.is_open then 1 else 0)

  Step-weight : {s t : State P} → Step measure concurrency refs s t → weight t < weight s
  Step-weight {s = s} (hand_out o l b) = omega arith
  Step-weight {s = s} (finish before after i ref e g) =
      omega (arith, ap length e, length-append before (i ∷ after), length-append before after)
  Step-weight {s = s} (context_done c o l) = rw o (omega arith)
  Step-weight {s = s} (close o l) = rw o (omega arith)

  -- Only indices of the list are handed out.
  abbrev InRange : State P → Type 0
  InRange s = (s.next ≤ length refs) × All (λ i. i < length refs) s.busy

  Step-InRange : {s t : State P} → Step measure concurrency refs s t → InRange s → InRange t
  Step-InRange {s = s} (hand_out o l b) (k, v) = (omega arith, (l, v))
  Step-InRange {s = s} (finish before after i ref e g) (k, v) = (
    k,
    All-removed (λ j. j < length refs) before after i (subst (All (λ j. j < length refs)) e v),
  )
  Step-InRange (context_done c o l) v = v
  Step-InRange (close o l) v = v

  Runs-InRange : {s t : State P} → Runs measure concurrency refs s t → InRange s → InRange t
  Runs-InRange stay v = v
  Runs-InRange (then_step r st) v = Step-InRange st (Runs-InRange r v)
  Runs-InRange (then_canceled r) v = Runs-InRange r v

  found :
      (xs : List Reference) (i : ℕ)
      → i < length xs
      → (ref : Reference) × (get_elem? xs i ≡ some ref)
  found [] i h = elim h [ ]
  found (x ∷ xs) zero h = (x, refl)
  found (x ∷ xs) (suc i) h = found xs i (omega arith)

  progress :
      (s : State P)
      → 0 < concurrency
      → InRange s
      → IsOver measure concurrency refs s ⊎ ((t : State P) × Step measure concurrency refs s t)
  progress s p v = by_state s p v s.busy refl
    where
      by_state :
          (s : State P)
          → 0 < concurrency
          → InRange s
          → (busy : List ℕ) → s.busy ≡ busy
          → IsOver measure concurrency refs s ⊎ ((t : State P) × Step measure concurrency refs s t)
      by_state s p v (i ∷ busy) e =
          let bound = subst (All (λ j. j < length refs)) e v.1 in
          let (ref, g) = found refs i bound.0 in inr (_, finish [] busy i ref e g)
      by_state s p v [] e = elim (Bool-cases s.is_open) [
        | inr f ↦ inl (f, e)
        | inl o ↦ elim (lt_or_eq s.next (length refs) v.0) [
          | inl l ↦ inr (_, hand_out o l (omega (arith, ap length e)))
          | inr q ↦ inr (_, close o q)
        ]
      ]

  -- No run is stuck before it is over, given a worker and whether or not the context is done, and each step
  -- leaves less to do: the dispatcher and the workers always come to the end.
  pub Step-progress :
      {s : State P}
      → 0 < concurrency
      → Runs measure concurrency refs starting s
      → (IsOver measure concurrency refs s ⊎ ((t : State P) × Step measure concurrency refs s t))
        × ((t : State P) → Step measure concurrency refs s t → weight t < weight s)
  Step-progress {s = s} p r =
      (progress s p (Runs-InRange r (omega arith, tt)), λ t st. Step-weight st)

-- ===== src/Details/Each.antt =====
-- The lookups of one refresh against the relation that describes them.
use mathlib.Core.Path.{subst}
use digitalocean_exporter.Base.{
  none-some, ◌⊎◌, String, string_eq, true, Option, none, some, some_inj, List, [], ◌∷◌, map,
  GoError, Result, ok, err, ◌≡◌, refl, sym, ap, ◌∙◌, inl, inr, Option-cases, Bool-cases, ◌==◌,
  if◌then◌else◌,
}
use digitalocean_exporter.Base.Assoc.{Assoc, lookup, insert, lookup-insert}
use digitalocean_exporter.Details.{
  Fields, previous_from, known_of, previous_from, installed, refresh_after, settle, appended,
  refresh_one, refresh_each,
}

module _ {S D : Type 0} (fields : Fields S D) where
  -- The last cluster of the snapshot with this id.
  abbrev pub last_with : List S → String → Option S
  last_with [] id = none
  last_with (cl ∷ snap) id =
      let rest = last_with snap id in
      elim rest [ some x ↦ some x | none ↦ if fields.id cl == id then some cl else none ]

  abbrev details_in : Option S → D → D
  details_in none d = d
  details_in (some cl) d = fields.details cl

  -- What the snapshot says of the cluster with this id, or the zero value.
  abbrev pub known_before : List S → String → D
  known_before snap id = details_in (last_with snap id) fields.nothing

  known_of-previous :
      (m : Assoc String D) (snap : List S) (id : String)
      → known_of fields (lookup id (previous_from fields m snap))
        ≡ details_in (last_with snap id) (known_of fields (lookup id m))
  unfolding previous_from
  known_of-previous m [] id = refl
  known_of-previous m (cl ∷ snap) id =
      known_of-previous (insert (fields.id cl) (fields.details cl) m) snap id
      ∙ elim (Option-cases (last_with snap id)) [
        | inr (x, e) ↦ rw e refl
        | inl n ↦
            rw (n, lookup-insert (fields.id cl) id (fields.details cl) m)
              (elim (Bool-cases (fields.id cl == id)) [ inl t ↦ rw t refl | inr f ↦ rw f refl ])
      ]

  pub known_of-before :
      (snap : List S) (id : String)
      → known_of fields (lookup id (previous_from fields [] snap)) ≡ known_before snap id
  unfolding lookup
  known_of-before snap id = known_of-previous [] snap id

module _ {S D W : Type 0} (fields : Fields S D) (ctx_err : W → Option GoError)
    (ask : String → W → Option (Result D × W)) (before : String → D) where
  -- Every cluster in turn, in the world that the lookups before its own have left, has what its lookup
  -- learned, or, if that failed while the context was not done, what was known before.
  pub data Filled : W → List S → List S → W → Type 0 where
    done : {w : W} → Filled w [] [] w
    learned :
        {w v u : W} {cl : S} {cls out : List S} (d : D)
        → ask (fields.id cl) w ≡ some (ok d, v)
        → Filled v cls out u
        → Filled w (cl ∷ cls) (fields.with_details d cl ∷ out) u
    carried :
        {w v u : W} {cl : S} {cls out : List S} (e : GoError)
        → ask (fields.id cl) w ≡ some (err e, v)
        → ctx_err v ≡ none
        → Filled v cls out u
        → Filled w (cl ∷ cls) (fields.with_details (before (fields.id cl)) cl ∷ out) u

  -- How the lookups can fail: one of them does, and the context is done after it.
  pub data Stopped : W → List S → GoError → W → Type 0 where
    here :
        {w v : W} {cl : S} {cls : List S} {x : GoError} (e : GoError)
        → ask (fields.id cl) w ≡ some (err e, v)
        → ctx_err v ≡ some x
        → Stopped w (cl ∷ cls) e v
    further :
        {w v u : W} {cl : S} {cls : List S} {e : GoError} (got : Result D)
        → ask (fields.id cl) w ≡ some (got, v)
        → Stopped v cls e u
        → Stopped w (cl ∷ cls) e u

  -- The clusters are those that were listed, whatever their lookups gave.
  pub Filled-same :
      {A : Type 0} (part : S → A) {w u : W} {cls out : List S}
      → ((d : D) (cl : S) → part (fields.with_details d cl) ≡ part cl)
      → Filled w cls out u
      → map part out ≡ map part cls
  Filled-same part same done = refl
  Filled-same part same (learned {cl = cl} d a f) = rw (same d cl, Filled-same part same f)
  Filled-same part same (carried {cl = cl} e a q f) =
      rw (same (before (fields.id cl)) cl, Filled-same part same f)

module _ {S D W : Type 0} (fields : Fields S D) (ctx_err : W → Option GoError)
    (ask : String → W → Option (Result D × W)) where
  -- The same is known before.
  Filled-before :
      {b c : String → D} {w u : W} {cls out : List S}
      → ((id : String) → b id ≡ c id)
      → Filled fields ctx_err ask b w cls out u
      → Filled fields ctx_err ask c w cls out u
  Filled-before same done = done
  Filled-before same (learned d a f) = learned d a (Filled-before same f)
  Filled-before {c = c} same (carried {w = w} {u = u} {cl = cl} {cls = cls} {out = out} e a q f) =
      subst (λ d. Filled fields ctx_err ask c w (cl ∷ cls) (fields.with_details d cl ∷ out) u)
        (sym (same (fields.id cl))) (carried e a q (Filled-before same f))

  Stopped-before :
      {b c : String → D} {w u : W} {cls : List S} {e : GoError}
      → Stopped fields ctx_err ask b w cls e u
      → Stopped fields ctx_err ask c w cls e u
  Stopped-before (here e a q) = here e a q
  Stopped-before (further got a s) = further got a (Stopped-before s)

module _ {S D W : Type 0} (fields : Fields S D) (ctx_err : W → Option GoError)
    (ask : String → W → Option (Result D × W)) (previous : Assoc String D) where
  abbrev mapped : String → D
  mapped id = known_of fields (lookup id previous)

  -- What the answer of the loop says.
  abbrev pub Told : W → List S → Result (List S) → W → Type 0
  Told w cls (ok out) u = Filled fields ctx_err ask mapped w cls out u
  Told w cls (err e) u = Stopped fields ctx_err ask mapped w cls e u

  Told-rest :
      (cl filled : S) (cls : List S) (w v u : W) (o : Option (Result (List S) × W))
      (r : Result (List S))
      → ((s : Result (List S)) (u' : W) → o ≡ some (s, u') → Told v cls s u')
      → ((out : List S) (u' : W)
          → Filled fields ctx_err ask mapped v cls out u'
          → Filled fields ctx_err ask mapped w (cl ∷ cls) (filled ∷ out) u')
      → ((e : GoError) (u' : W)
          → Stopped fields ctx_err ask mapped v cls e u'
          → Stopped fields ctx_err ask mapped w (cl ∷ cls) e u')
      → appended fields ctx_err ask previous filled o ≡ some (r, u)
      → Told w (cl ∷ cls) r u
  Told-rest cl filled cls w v u none r ih good bad h = cc
  Told-rest cl filled cls w v u (some (err e, u')) r ih good bad h =
      subst (λ p. Told w (cl ∷ cls) p.0 p.1) (some_inj h) (bad e u' (ih (err e) u' refl))
  Told-rest cl filled cls w v u (some (ok out, u')) r ih good bad h =
      subst (λ p. Told w (cl ∷ cls) p.0 p.1) (some_inj h) (good out u' (ih (ok out) u' refl))

  -- What `refresh_each` makes of the first lookup.
  abbrev after_one : List S → Option (Result S × W) → Option (Result (List S) × W)
  after_one cls o = elim o [
    | none ↦ none
    | some (err e, v) ↦ some (err e, v)
    | some (ok filled, v) ↦
        appended fields ctx_err ask previous filled
          (refresh_each fields ctx_err ask previous true cls v)
  ]

  Told-failed :
      (cl : S) (cls : List S) (w v u : W) (e : GoError) (r : Result (List S)) (c : Option GoError)
      → ask (fields.id cl) w ≡ some (err e, v)
      → ctx_err v ≡ c
      → ((s : Result (List S)) (u' : W)
          → refresh_each fields ctx_err ask previous true cls v ≡ some (s, u')
          → Told v cls s u')
      → after_one cls (
          some (elim c [
            | some _ ↦ (err e, v)
            | none ↦
                (ok (fields.with_details (known_of fields (lookup (fields.id cl) previous)) cl), v)
          ]))
        ≡ some (r, u)
      → Told w (cl ∷ cls) r u
  Told-failed cl cls w v u e r (some x) a q ih h =
      subst (λ p. Told w (cl ∷ cls) p.0 p.1) (some_inj h) (here e a q)
  Told-failed cl cls w v u e r none a q ih h =
      Told-rest cl _ cls w v u (refresh_each fields ctx_err ask previous true cls v) r ih
        (λ out u' f. carried e a q f) (λ x u' s. further (err e) a s) h

  Told-one :
      (cl : S) (cls : List S) (w v u : W) (got : Result D) (r : Result (List S))
      → ask (fields.id cl) w ≡ some (got, v)
      → ((s : Result (List S)) (u' : W)
          → refresh_each fields ctx_err ask previous true cls v ≡ some (s, u')
          → Told v cls s u')
      → after_one cls (some (settle fields ctx_err ask previous cl got v)) ≡ some (r, u)
      → Told w (cl ∷ cls) r u
  unfolding settle
  Told-one cl cls w v u (ok d) r a ih h =
      Told-rest cl (fields.with_details d cl) cls w v u
        (refresh_each fields ctx_err ask previous true cls v) r ih (λ out u' f. learned d a f)
        (λ x u' s. further (ok d) a s) h
  Told-one cl cls w v u (err e) r a ih h = Told-failed cl cls w v u e r (ctx_err v) a refl ih h

  Told-lookup :
      (cl : S) (cls : List S) (w u : W) (o : Option (Result D × W)) (r : Result (List S))
      → ask (fields.id cl) w ≡ o
      → ((v : W) (s : Result (List S)) (u' : W)
          → refresh_each fields ctx_err ask previous true cls v ≡ some (s, u')
          → Told v cls s u')
      → after_one cls (elim o [
        | none ↦ none
        | some (got, v) ↦ some (settle fields ctx_err ask previous cl got v)
      ])
        ≡ some (r, u)
      → Told w (cl ∷ cls) r u
  Told-lookup cl cls w u none r a ih h = cc
  Told-lookup cl cls w u (some (got, v)) r a ih h = Told-one cl cls w v u got r a (ih v) h

  -- The loop over the clusters does what the relations say: an answer has every cluster in its order, each
  -- with the details of its own lookup or with the previous ones, and an error is that of a lookup after
  -- which the context was done. A lookup that fails while there is time never fails the refresh.
  pub refresh_each-Told :
      (cls : List S) (w u : W) (r : Result (List S))
      → refresh_each fields ctx_err ask previous true cls w ≡ some (r, u)
      → Told w cls r u
  unfolding refresh_each refresh_one
  refresh_each-Told [] w u r h = subst (λ p. Told w [] p.0 p.1) (some_inj h) done
  refresh_each-Told (cl ∷ cls) w u r h =
      Told-lookup cl cls w u (ask (fields.id cl) w) r refl
        (λ v s u' q. refresh_each-Told cls v u' s q) h

module _ {S D W : Type 0} (fields : Fields S D) (ctx_err : W → Option GoError)
    (ask : String → W → Option (Result D × W)) where
  -- What a refresh with the lookups may leave, by what the listing gave: its error and the old clusters, or
  -- all the listed clusters with their details, or the old ones and the error of a lookup that was stopped.
  abbrev pub Outcome : List S → Option (Result (List S) × W) → Option GoError → List S → W → Type 0
  Outcome snap none e snap' w' = ⊥
  Outcome snap (some (err x, v)) e snap' w' = (e ≡ some x) × (snap' ≡ snap) × (w' ≡ v)
  Outcome snap (some (ok cls, v)) e snap' w' =
      ((e ≡ none) × Filled fields ctx_err ask (known_before fields snap) v cls snap' w')
      ⊎ ((x : GoError) × (e ≡ some x)
          × (snap' ≡ snap)
          × Stopped fields ctx_err ask (known_before fields snap) v cls x w')

  abbrev Left : List S → List S → W → (Option GoError × List S × W) → Type 0
  Left snap cls v (e, snap', w') = Outcome snap (some (ok cls, v)) e snap' w'

  installed-Left :
      (snap cls : List S) (v : W) (o : Option (Result (List S) × W)) (e : Option GoError)
      (snap' : List S) (w' : W)
      → ((r : Result (List S)) (u : W)
          → o ≡ some (r, u)
          → Told fields ctx_err ask (previous_from fields [] snap) v cls r u)
      → installed fields ctx_err ask true snap o ≡ some (e, snap', w')
      → Outcome snap (some (ok cls, v)) e snap' w'
  installed-Left snap cls v none e snap' w' t h = cc
  installed-Left snap cls v (some (err x, u)) e snap' w' t h =
      subst (Left snap cls v) (some_inj h)
        (inr (x, refl, refl, Stopped-before fields ctx_err ask (t (err x) u refl)))
  installed-Left snap cls v (some (ok next, u)) e snap' w' t h =
      subst (Left snap cls v) (some_inj h) (
        inl (
          refl,
          Filled-before fields ctx_err ask (λ id. known_of-before fields snap id)
              (t (ok next) u refl),
        ))

  pub refresh_after-Outcome :
      (snap : List S) (o : Option (Result (List S) × W)) (e : Option GoError) (snap' : List S)
      (w' : W)
      → refresh_after fields ctx_err ask true snap o ≡ some (e, snap', w')
      → Outcome snap o e snap' w'
  unfolding refresh_after
  refresh_after-Outcome snap none e snap' w' h = absurd (none-some h)
  refresh_after-Outcome snap (some (err x, v)) e snap' w' h =
      let q : (some x, snap, v) ≡ (e, snap', w') = some_inj h in
      (sym (ap (λ p. p.0) q), sym (ap (λ p. p.1) q), sym (ap (λ p. p.2) q))
  refresh_after-Outcome snap (some (ok cls, v)) e snap' w' h =
      installed-Left snap cls v
        (refresh_each fields ctx_err ask (previous_from fields [] snap) true cls v) e snap' w'
        (λ r u q. refresh_each-Told fields ctx_err ask (previous_from fields [] snap) cls v u r q) h

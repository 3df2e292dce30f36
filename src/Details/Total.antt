-- ===== src/Details/Total.antt =====
-- The lookups of one refresh come to an end when each of them does.
use digitalocean_exporter.Base.{
  none-some, String, string_eq, true, Option, none, some, List, [], ◌∷◌, GoError, Result, ok, err,
  ◌≡◌, refl,
}
use digitalocean_exporter.Base.Assoc.{Assoc}
use digitalocean_exporter.Details.{
  Fields, previous_from, installed, refresh_after, settle, appended, refresh_one, refresh_each,
}
use digitalocean_exporter.Details.Each.{Outcome, refresh_after-Outcome}

-- A value that a loop ends with.
abbrev pub Ends : {A : Type 0} → Option A → Type 0
Ends {A = A} o = (a : A) × (o ≡ some a)

module _ {S D W : Type 0} (fields : Fields S D) (ctx_err : W → Option GoError)
    (ask : String → W → Option (Result D × W)) (previous : Assoc String D) where
  appended-Ends :
      (filled : S) (o : Option (Result (List S) × W))
      → Ends o
      → Ends (appended fields ctx_err ask previous filled o)
  appended-Ends filled none h = h
  appended-Ends filled (some (err e, u)) h = (_, refl)
  appended-Ends filled (some (ok rest, u)) h = (_, refl)

  -- One turn of the loop, after its lookup.
  abbrev turned : List S → Option (Result S × W) → Option (Result (List S) × W)
  turned cls o = elim o [
    | none ↦ none
    | some (err e, v) ↦ some (err e, v)
    | some (ok filled, v) ↦
        appended fields ctx_err ask previous filled
          (refresh_each fields ctx_err ask previous true cls v)
  ]

  turned-Ends :
      (cls : List S)
      → ((v : W) → Ends (refresh_each fields ctx_err ask previous true cls v))
      → (one : Result S × W) → Ends (turned cls (some one))
  turned-Ends cls ih (err e, v) = (_, refl)
  turned-Ends cls ih (ok filled, v) = appended-Ends filled _ (ih v)

  refresh_each-Ends :
      ((id : String) (v : W) → Ends (ask id v))
      → (cls : List S) (v : W) → Ends (refresh_each fields ctx_err ask previous true cls v)
  unfolding refresh_each refresh_one
  refresh_each-Ends all [] v = (_, refl)
  refresh_each-Ends all (cl ∷ cls) v =
      let ((got, u), e) = all (fields.id cl) v in
      let (a, h) =
        turned-Ends cls (refresh_each-Ends all cls) (settle fields ctx_err ask previous cl got u) in
      (a, rw (refresh_each, e) h)

module _ {S D W : Type 0} (fields : Fields S D) (ctx_err : W → Option GoError)
    (ask : String → W → Option (Result D × W)) where
  installed-Ends :
      (snap : List S) (o : Option (Result (List S) × W))
      → Ends o
      → Ends (installed fields ctx_err ask true snap o)
  installed-Ends snap none h = absurd (none-some h.1)
  installed-Ends snap (some (err e, u)) h = (_, refl)
  installed-Ends snap (some (ok next, u)) h = (_, refl)

  refresh_after-Ends :
      (snap : List S)
      → ((id : String) (v : W) → Ends (ask id v))
      → (listed : Result (List S) × W)
      → Ends (refresh_after fields ctx_err ask true snap (some listed))
  unfolding refresh_after
  refresh_after-Ends snap all (err e, v) = (_, refl)
  refresh_after-Ends snap all (ok cls, v) =
      installed-Ends snap
        (refresh_each fields ctx_err ask (previous_from fields [] snap) true cls v)
        (refresh_each-Ends fields ctx_err ask (previous_from fields [] snap) all cls v)

  -- When the listing has ended and each lookup ends, the refresh ends, as `Outcome` says.
  pub refresh_after-total :
      (snap : List S)
      → ((id : String) (v : W) → Ends (ask id v))
      → (listed : Result (List S) × W)
      → (e : Option GoError) × (after : List S) × (u : W) × (refresh_after fields ctx_err ask true
            snap
            (some listed)
          ≡ some (e, after, u))
        × Outcome fields ctx_err ask snap (some listed) e after u
  refresh_after-total snap all listed =
      let ((e, after, u), h) = refresh_after-Ends snap all listed in
      (e, after, u, h, refresh_after-Outcome fields ctx_err ask snap (some listed) e after u h)

-- ===== src/LoadBalancerMetrics/Measured.antt =====
-- `measure`: which points a measured load balancer has, and when it is measured at all.
use mathlib.Core.Path.{subst}
use mathlib.Core.List.{append_assoc, append-nil}
use digitalocean_exporter.Base.{
  ok_inj, ℕ, ℤ, Bool, true, false, not, ◌&&◌, ◌||◌, Option, some, List, [], ◌∷◌, ◌++◌, GoError,
  Result, ok, err, ◌>>=◌, ◌≡◌, refl, sym, ap, ◌∙◌, map, if◌then◌else◌, Bool-cases, inl, inr,
}
use digitalocean_exporter.Timeseries.{Model, MetricsResponse, Sample, label}
use digitalocean_exporter.Fanout
use digitalocean_exporter.Fanout.{Reading, Reference, Collector, rotate, starved}
use digitalocean_exporter.Fanout.Refresh.{ref_of}
use digitalocean_exporter.LoadBalancerMetrics.{
  Endpoint, Spec, Point, specs, extended_specs, add_sample, add_samples, read, measure_base,
  contain, measure_extended, measure, failures, refresh, fresh,
}

module _ {V Stamp : Type 0} (model : Model V Stamp) (unix : Stamp → ℤ)
    (answer : Endpoint → Reference → Result (Option (MetricsResponse V Stamp))) where
  -- The points of one answer, by the load balancer they are of.
  abbrev points_of : Reference → Spec → List (Sample V Stamp) → List (Point V)
  points_of ref s samples =
      map
        (λ (sample : Sample V Stamp).
          let p : Point V = record {
            desc = s.desc;
            labels = ref.id ∷ ref.name ∷ map (label sample) s.series_labels;
            value = sample.value;
          } in
          p)
        samples

  abbrev given : Reference → Spec → Result (List (Sample V Stamp)) → List (Point V)
  given ref s (ok samples) = points_of ref s samples
  given ref s (err _) = []

  -- The points of the requests that were answered, in the order of the specs.
  abbrev pub reported : List Spec → Reference → List (Point V)
  reported [] ref = []
  reported (s ∷ ss) ref = given ref s (read model unix answer s ref) ++ reported ss ref

  -- What `d` has of `out`, and the points it has in addition.
  abbrev Grows : Reference → Reading (Point V) → List (Point V) → Reading (Point V) → Type 0
  Grows ref out more d = (ref_of d ≡ ref) × (d.up ≡ out.up) × (d.points ≡ out.points ++ more)

  Grows-none :
      (ref : Reference) (out d : Reading (Point V))
      → ref_of out ≡ ref
      → out ≡ d
      → Grows ref out [] d
  Grows-none ref out d r e = (
    ap ref_of (sym e) ∙ r,
    ap (λ x. x.up) (sym e),
    ap (λ x. x.points) (sym e) ∙ sym (append-nil out.points),
  )

  Grows-more :
      (ref : Reference) (out mid d : Reading (Point V)) (a b : List (Point V))
      → Grows ref out a mid
      → Grows ref mid b d
      → Grows ref out (a ++ b) d
  Grows-more ref out mid d a b (r, u, p) (r', u', p') =
      (r', u' ∙ u, p' ∙ ap (λ x. x ++ b) p ∙ append_assoc out.points a b)

  add_samples-Grows :
      (s : Spec) (samples : List (Sample V Stamp)) (out : Reading (Point V))
      → Grows
          (ref_of out)
          out
          (points_of (ref_of out) s samples)
          (add_samples model unix s samples out)
  unfolding add_samples
  add_samples-Grows s [] out = Grows-none (ref_of out) out out refl refl
  add_samples-Grows s (sample ∷ samples) out =
      let mid = add_sample model unix s sample out in
      Grows-more (ref_of out) out mid (add_samples model unix s samples mid)
        (points_of (ref_of out) s (sample ∷ [])) (points_of (ref_of out) s samples)
        (refl, refl, refl) (add_samples-Grows s samples mid)

  add_samples-of :
      (s : Spec) (ref : Reference) (samples : List (Sample V Stamp)) (out : Reading (Point V))
      → ref_of out ≡ ref
      → Grows ref out (points_of ref s samples) (add_samples model unix s samples out)
  add_samples-of s ref samples out r =
      subst (λ k. Grows k out (points_of k s samples) (add_samples model unix s samples out)) r
        (add_samples-Grows s samples out)

  measure_base-Grows :
      (ss : List Spec) (ref : Reference) (out d : Reading (Point V))
      → ref_of out ≡ ref
      → measure_base model unix answer ss ref out ≡ ok d
      → Grows ref out (reported ss ref) d
  unfolding measure_base
  measure_base-Grows [] ref out d r h = Grows-none ref out d r (ok_inj h)
  measure_base-Grows (s ∷ ss) ref out d r h =
      after (read model unix answer s ref) (λ mid. measure_base-Grows ss ref mid d) h
    where
      after :
          (got : Result (List (Sample V Stamp)))
          → ((mid : Reading (Point V))
              → ref_of mid ≡ ref
              → measure_base model unix answer ss ref mid ≡ ok d
              → Grows ref mid (reported ss ref) d)
          → (got >>= (λ samples.
              measure_base model unix answer ss ref (add_samples model unix s samples out)))
            ≡ ok d
          → Grows ref out (given ref s got ++ reported ss ref) d
      after (err e) ih q = cc
      after (ok samples) ih q =
          let mid = add_samples model unix s samples out in
          let g = add_samples-of s ref samples out r in
          Grows-more ref out mid d (points_of ref s samples) (reported ss ref) g (ih mid g.0 q)

  contain-Grows :
      (s : Spec) (ref : Reference) (got : Result (List (Sample V Stamp)))
      (out d : Reading (Point V))
      → ref_of out ≡ ref
      → contain model unix answer s got out ≡ ok d
      → Grows ref out (given ref s got) d
  unfolding contain
  contain-Grows s ref (ok samples) out d r h =
      subst (Grows ref out (points_of ref s samples)) (ok_inj h)
        (add_samples-of s ref samples out r)
  contain-Grows s ref (err e) out d r h = elim (Bool-cases (starved e)) [
    | inl t ↦ cc
    | inr f ↦ Grows-none ref out d r (ok_inj cc)
  ]

  measure_extended-Grows :
      (ss : List Spec) (ref : Reference) (out d : Reading (Point V))
      → ref_of out ≡ ref
      → measure_extended model unix answer ss ref out ≡ ok d
      → Grows ref out (reported ss ref) d
  unfolding measure_extended
  measure_extended-Grows [] ref out d r h = Grows-none ref out d r (ok_inj h)
  measure_extended-Grows (s ∷ ss) ref out d r h =
      after (contain model unix answer s got out) (λ mid e. contain-Grows s ref got out mid r e)
        (λ mid. measure_extended-Grows ss ref mid d) h
    where
      got : Result (List (Sample V Stamp))
      got = read model unix answer s ref

      after :
          (next : Result (Reading (Point V)))
          → ((mid : Reading (Point V)) → next ≡ ok mid → Grows ref out (given ref s got) mid)
          → ((mid : Reading (Point V))
              → ref_of mid ≡ ref
              → measure_extended model unix answer ss ref mid ≡ ok d
              → Grows ref mid (reported ss ref) d)
          → (next >>= (λ mid. measure_extended model unix answer ss ref mid)) ≡ ok d
          → Grows ref out (given ref s got ++ reported ss ref) d
      after (err e) k ih q = cc
      after (ok mid) k ih q =
          let g = k mid refl in
          Grows-more ref out mid d (given ref s got) (reported ss ref) g (ih mid g.0 q)

  -- The points of all the metrics that were asked for.
  abbrev pub all_reported : Bool → Reference → List (Point V)
  all_reported true ref = reported specs ref ++ reported extended_specs ref
  all_reported false ref = reported specs ref

  -- A measured load balancer is up, goes by the reference it was asked for and has the points of each
  -- metric that was answered, in the order of the specs; those of the extended metrics exactly if the
  -- flag is set.
  pub measure-points :
      (extended : Bool) (ref : Reference) (d : Reading (Point V))
      → measure model unix answer extended ref ≡ ok d
      → (ref_of d ≡ ref) × (d.up ≡ 1) × (d.points ≡ all_reported extended ref)
  unfolding measure
  measure-points extended ref d h =
      after extended (measure_base model unix answer specs ref start)
        (λ out e. measure_base-Grows specs ref start out refl e) h
    where
      start : Reading (Point V)
      start = fresh model unix answer ref

      after :
          (flag : Bool) (base : Result (Reading (Point V)))
          → ((out : Reading (Point V)) → base ≡ ok out → Grows ref start (reported specs ref) out)
          → (base >>= (λ out.
              if flag then measure_extended model unix answer extended_specs ref out else ok out))
            ≡ ok d
          → (ref_of d ≡ ref) × (d.up ≡ 1) × (d.points ≡ all_reported flag ref)
      after flag (err e) k q = cc
      after false (ok out) k q =
          subst (Grows ref start (reported specs ref)) (ok_inj q) (k out refl)
      after true (ok out) k q =
          let g = k out refl in
          Grows-more ref start out d (reported specs ref) (reported extended_specs ref) g
            (measure_extended-Grows extended_specs ref out d g.0 q)

  abbrev pub is_ok : {A : Type 0} → Result A → Bool
  is_ok (ok _) = true
  is_ok (err _) = false

  -- What becomes of a request for an extended metric: it was answered, or failed of its own.
  abbrev pub tolerated : {A : Type 0} → Result A → Bool
  tolerated (ok _) = true
  tolerated (err e) = not (starved e)

  abbrev pub every : (Spec → Bool) → List Spec → Bool
  every p [] = true
  every p (s ∷ ss) = p s && every p ss

  measure_base-is_ok :
      (ss : List Spec) (ref : Reference) (out : Reading (Point V))
      → is_ok (measure_base model unix answer ss ref out)
        ≡ every (λ s. is_ok (read model unix answer s ref)) ss
  unfolding measure_base
  measure_base-is_ok [] ref out = refl
  measure_base-is_ok (s ∷ ss) ref out =
      after (read model unix answer s ref) (λ o. measure_base-is_ok ss ref o)
    where
      after :
          (got : Result (List (Sample V Stamp)))
          → ((o : Reading (Point V))
              → is_ok (measure_base model unix answer ss ref o)
                ≡ every (λ t. is_ok (read model unix answer t ref)) ss)
          → is_ok (
              got >>= (λ samples.
                measure_base model unix answer ss ref (add_samples model unix s samples out)))
            ≡ is_ok got && every (λ t. is_ok (read model unix answer t ref)) ss
      after (err e) ih = refl
      after (ok samples) ih = ih (add_samples model unix s samples out)

  measure_extended-is_ok :
      (ss : List Spec) (ref : Reference) (out : Reading (Point V))
      → is_ok (measure_extended model unix answer ss ref out)
        ≡ every (λ s. tolerated (read model unix answer s ref)) ss
  unfolding measure_extended contain
  measure_extended-is_ok [] ref out = refl
  measure_extended-is_ok (s ∷ ss) ref out =
      after (read model unix answer s ref) (λ o. measure_extended-is_ok ss ref o)
    where
      after :
          (got : Result (List (Sample V Stamp)))
          → ((o : Reading (Point V))
              → is_ok (measure_extended model unix answer ss ref o)
                ≡ every (λ t. tolerated (read model unix answer t ref)) ss)
          → is_ok (
              contain model unix answer s got out
              >>= (λ next. measure_extended model unix answer ss ref next))
            ≡ tolerated got && every (λ t. tolerated (read model unix answer t ref)) ss
      after (ok samples) ih = ih (add_samples model unix s samples out)
      after (err e) ih = elim (Bool-cases (starved e)) [ inl t ↦ rw t | inr f ↦ rw f (ih out) ]

  -- A load balancer is measured exactly if every base metric was answered and, with the flag set, each
  -- extended metric was answered or failed for a reason other than the context.
  pub measure-success :
      (extended : Bool) (ref : Reference)
      → is_ok (measure model unix answer extended ref)
        ≡ every (λ s. is_ok (read model unix answer s ref)) specs
          && (not extended || every (λ s. tolerated (read model unix answer s ref)) extended_specs)
  unfolding measure
  measure-success extended ref =
      after extended (measure_base model unix answer specs ref (fresh model unix answer ref))
      ∙ ap
          (λ b.
            b
            && (not extended
                || every (λ s. tolerated (read model unix answer s ref)) extended_specs))
          (measure_base-is_ok specs ref (fresh model unix answer ref))
    where
      after :
          (flag : Bool) (base : Result (Reading (Point V)))
          → is_ok (
              base >>= (λ out.
                if flag then measure_extended model unix answer extended_specs ref out else ok out))
            ≡ is_ok base
              && (not flag || every (λ s. tolerated (read model unix answer s ref)) extended_specs)
      after flag (err e) = refl
      after false (ok out) = refl
      after true (ok out) = measure_extended-is_ok extended_specs ref out

  -- After a refresh whose listing succeeded, the snapshot has one load balancer for each that was listed,
  -- under its id and its name and in the order of the rotation. A listing that fails changes nothing.
  pub refresh-references :
      (extended : Bool) (cut : Option (ℕ × GoError)) (ctx_err : Option GoError)
      (c : Collector (Point V))
      → ((refs : List Reference)
          → map ref_of (refresh model unix answer extended (ok refs) cut ctx_err c).1.snap
            ≡ rotate c.cursor refs)
        × ((e : GoError) → refresh model unix answer extended (err e) cut ctx_err c ≡ (some e, c))
  unfolding refresh
  refresh-references extended =
      Fanout.Refresh.refresh-refs failures (measure model unix answer extended) (λ ref d h.
        let (r, u, p) = measure-points extended ref d h in
        (ap (λ x. x.id) r, ap (λ x. x.name) r, u))

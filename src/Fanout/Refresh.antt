-- ===== src/Fanout/Refresh.antt =====
-- `Refresh`: what a refresh leaves, when it is a success, and where the next one starts.
use digitalocean_exporter.Base.{
  map-append, ℕ, suc, ◌≤◌, nat_eq, true, Option, none, some, List, [], ◌∷◌, ◌++◌, map, GoError, is,
  Result, ok, err, length, take, drop, keep, ◌≡◌, refl, sym, ap, ◌∙◌, arith, take-append-drop,
  length-map, length-append, length-take, All, All-append, Option-cases, inl, inr, keep-append,
}
use digitalocean_exporter.Fanout.{
  Reading, Reference, Measurement, Collector, Failures, rotate, advance, starved, measured,
  unmeasured, measure_all, is_reached, reached_count, report, refresh,
}
use digitalocean_exporter.Fanout.Rotation.{rotate-advance, length-rotate}
use digitalocean_exporter.Fanout.Snapshot.{expected, find, merge_lem}

module _ {P : Type 0} where
  abbrev pub ref_of : Reading P → Reference
  ref_of d = record { id = d.id; name = d.name }

module _ {P : Type 0} (measure : Reference → Result (Reading P)) where
  map-measured :
      (refs : List Reference)
      → map (λ (r : Measurement P). r.ref) (map (measured measure) refs) ≡ refs
  map-measured [] = refl
  map-measured (r ∷ refs) = rw (map-measured refs)

  map-unmeasured :
      (e : GoError) (refs : List Reference)
      → map (λ (r : Measurement P). r.ref) (map (unmeasured measure e) refs) ≡ refs
  map-unmeasured e [] = refl
  map-unmeasured e (r ∷ refs) = rw (map-unmeasured e refs)

  measure_all-refs :
      (cut : Option (ℕ × GoError)) (refs : List Reference)
      → map (λ (r : Measurement P). r.ref) (measure_all measure cut refs) ≡ refs
  unfolding measure_all
  measure_all-refs none refs = map-measured refs
  measure_all-refs (some (q, e)) refs =
      map-append (λ (r : Measurement P). r.ref) (map (measured measure) (take q refs))
        (map (unmeasured measure e) (drop q refs))
      ∙ ap
          (λ xs.
            xs ++ map (λ (r : Measurement P). r.ref) (map (unmeasured measure e) (drop q refs)))
          (map-measured (take q refs))
      ∙ ap (λ xs. take q refs ++ xs) (map-unmeasured e (drop q refs))
      ∙ take-append-drop q refs

  length-measure_all :
      (cut : Option (ℕ × GoError)) (refs : List Reference)
      → length (measure_all measure cut refs) ≡ length refs
  length-measure_all cut refs =
      sym (length-map (measure_all measure cut refs) (λ (r : Measurement P). r.ref))
      ∙ ap length (measure_all-refs cut refs)

  All-reached :
      (rs : List (Measurement P)) → All (λ r. is_reached r ≡ true) rs → reached_count rs ≡ length rs
  All-reached [] a = refl
  All-reached (r ∷ rs) a = rw a.0 (ap suc (All-reached rs a.1))

  none_reached :
      (e : GoError) (refs : List Reference)
      → starved e ≡ true
      → reached_count (map (unmeasured measure e) refs) ≡ 0
  unfolding starved is
  none_reached e [] h = refl
  none_reached e (r ∷ refs) h = rw h (none_reached e refs h)

module _ {P : Type 0} (failures : Failures) (measure : Reference → Result (Reading P)) where
  -- A refresh that an error of the context cuts short at `queued`, having measured each resource before
  -- it or seen it fail of its own, is followed, on the same listing, by one that starts with the first
  -- resource that was not handed out and ends with those that were.
  pub refresh-resumes :
      (refs : List Reference) (queued : ℕ) (e : GoError) (ctx_err : Option GoError)
      (c : Collector P)
      → queued ≤ length refs
      → starved e ≡ true
      → All (λ r. is_reached r ≡ true) (map (measured measure) (take queued (rotate c.cursor refs)))
      → rotate (refresh failures measure (ok refs) (some (queued, e)) ctx_err c).1.cursor refs
        ≡ drop queued (rotate c.cursor refs) ++ take queued (rotate c.cursor refs)
  unfolding refresh report measure_all
  refresh-resumes refs queued e ctx_err c h s a =
      let turned = rotate c.cursor refs in
      let done = map (measured measure) (take queued turned) in
      let rest = map (unmeasured measure e) (drop queued turned) in
      let n : length (done ++ rest) ≡ length refs =
        length-measure_all measure (some (queued, e)) turned ∙ length-rotate c.cursor refs in
      let reached : reached_count (done ++ rest) ≡ queued =
        ap length (keep-append is_reached done rest)
        ∙ length-append (keep is_reached done) (keep is_reached rest)
        ∙ omega (
          arith,
          All-reached measure done a,
          none_reached measure e (drop queued turned) s,
          length-map (take queued turned) (measured measure),
          length-take queued turned,
          length-rotate c.cursor refs,
        ) in
      ap (λ k. rotate k refs)
        (ap (advance c.cursor (reached_count (done ++ rest))) n
          ∙ ap (λ k. advance c.cursor k (length refs)) reached)
      ∙ rotate-advance c.cursor queued refs h

module _ {P : Type 0} (failures : Failures) (measure : Reference → Result (Reading P))
    (identifies : (ref : Reference) (d : Reading P)
      → measure ref ≡ ok d
      → (d.id ≡ ref.id) × (d.name ≡ ref.name) × (d.up ≡ 1)) where
  -- What a result says of the resource it is about.
  abbrev Agrees : Measurement P → Type 0
  Agrees r = (d : Reading P) → r.got ≡ ok d → (d.id ≡ r.ref.id) × (d.name ≡ r.ref.name) × (d.up ≡ 1)

  Agrees-measured : (refs : List Reference) → All Agrees (map (measured measure) refs)
  Agrees-measured [] = tt
  Agrees-measured (r ∷ refs) = (identifies r, Agrees-measured refs)

  Agrees-unmeasured :
      (e : GoError) (refs : List Reference) → All Agrees (map (unmeasured measure e) refs)
  Agrees-unmeasured e [] = tt
  Agrees-unmeasured e (r ∷ refs) = ((λ d h. cc), Agrees-unmeasured e refs)

  Agrees-measure_all :
      (cut : Option (ℕ × GoError)) (refs : List Reference)
      → All Agrees (measure_all measure cut refs)
  unfolding measure_all
  Agrees-measure_all none refs = Agrees-measured refs
  Agrees-measure_all (some (q, e)) refs =
      All-append Agrees (map (measured measure) (take q refs)) _ (Agrees-measured (take q refs))
        (Agrees-unmeasured e (drop q refs))

  expected-ref :
      (snap : List (Reading P)) (ref : Reference) (got : Result (Reading P))
      → Agrees (record { ref = ref; got = got })
      → ref_of (expected snap (record { ref = ref; got = got })) ≡ ref
  expected-ref snap ref (ok d) a = let (i, n, u) = a d refl in rw (i, n)
  expected-ref snap ref (err e) a = elim (Option-cases (find ref.id snap)) [
    | inl n ↦ rw n
    | inr (d, n) ↦ rw n
  ]

  expected-refs :
      (snap : List (Reading P)) (rs : List (Measurement P))
      → All Agrees rs
      → map ref_of (map (expected snap) rs) ≡ map (λ (r : Measurement P). r.ref) rs
  expected-refs snap [] a = refl
  expected-refs snap (r ∷ rs) a = rw (expected-ref snap r.ref r.got a.0, expected-refs snap rs a.1)

  -- After a refresh whose listing succeeded, the snapshot has one resource for each that was listed, under
  -- its id and its name and in the order of the rotation, whatever failed and wherever the refresh was
  -- cut: no resource is lost, and one that has gone away is dropped. A listing that fails changes nothing.
  pub refresh-refs :
      (cut : Option (ℕ × GoError)) (ctx_err : Option GoError) (c : Collector P)
      → ((refs : List Reference)
          → map ref_of (refresh failures measure (ok refs) cut ctx_err c).1.snap
            ≡ rotate c.cursor refs)
        × ((e : GoError) → refresh failures measure (err e) cut ctx_err c ≡ (some e, c))
  unfolding refresh report
  refresh-refs cut ctx_err c = (
    λ refs.
        let rs = measure_all measure cut (rotate c.cursor refs) in
        ap (map ref_of) (merge_lem c.snap rs)
        ∙ expected-refs c.snap rs (Agrees-measure_all cut (rotate c.cursor refs))
        ∙ measure_all-refs measure cut (rotate c.cursor refs),
    λ e. refl,
  )

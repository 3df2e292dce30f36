-- ===== src/DropletMetrics/Measured.antt =====
-- `measure` and `Refresh` of a droplet: a measured droplet goes by the reference that was listed.
use digitalocean_exporter.Base.{
  ok_inj, ℕ, ℤ, Option, some, List, [], ◌∷◌, GoError, Result, ok, err, ◌>>=◌, ◌≡◌, refl, sym, ap,
  ◌∙◌, map,
}
use digitalocean_exporter.Timeseries.{Model, MetricsResponse, Sample}
use digitalocean_exporter.Fanout
use digitalocean_exporter.Fanout.{Reading, Reference, Collector, rotate}
use digitalocean_exporter.Fanout.Refresh.{ref_of}
use digitalocean_exporter.DropletMetrics.{
  Endpoint, Spec, Point, specs, add_samples, read, measure_from, measure, failures, refresh,
}

module _ {V Stamp : Type 0} (model : Model V Stamp) (unix : Stamp → ℤ)
    (fetch : Endpoint → Reference → Result (Option (MetricsResponse V Stamp))) where
  add_samples-identity :
      (s : Spec) (ref : Reference) (samples : List (Sample V Stamp)) (out : Reading (Point V))
      → ((add_samples model unix s ref samples out).id ≡ out.id)
        × ((add_samples model unix s ref samples out).name ≡ out.name)
        × ((add_samples model unix s ref samples out).up ≡ out.up)
  unfolding add_samples
  add_samples-identity s ref [] out = (refl, refl, refl)
  add_samples-identity s ref (sample ∷ samples) out = add_samples-identity s ref samples _

  measure_from-identity :
      (ss : List Spec) (ref : Reference) (out d : Reading (Point V))
      → measure_from model unix fetch ss ref out ≡ ok d
      → (d.id ≡ out.id) × (d.name ≡ out.name) × (d.up ≡ out.up)
  unfolding measure_from
  measure_from-identity [] ref out d h =
      let e : out ≡ d = ok_inj h in
      (ap (λ x. x.id) (sym e), ap (λ x. x.name) (sym e), ap (λ x. x.up) (sym e))
  measure_from-identity (s ∷ ss) ref out d h =
      after (read model unix fetch s ref) (λ o. measure_from-identity ss ref o d) h
    where
      after :
          (got : Result (List (Sample V Stamp)))
          → ((o : Reading (Point V))
              → measure_from model unix fetch ss ref o ≡ ok d
              → (d.id ≡ o.id) × (d.name ≡ o.name) × (d.up ≡ o.up))
          → (got >>= (λ samples.
              measure_from model unix fetch ss ref (add_samples model unix s ref samples out)))
            ≡ ok d
          → (d.id ≡ out.id) × (d.name ≡ out.name) × (d.up ≡ out.up)
      after (err e) rest q = cc
      after (ok samples) rest q =
          let (a, b, c) = rest (add_samples model unix s ref samples out) q in
          let (x, y, z) = add_samples-identity s ref samples out in (a ∙ x, b ∙ y, c ∙ z)

  -- A measured droplet is up and goes by the reference it was asked for.
  pub measure-identity :
      (ref : Reference) (d : Reading (Point V))
      → measure model unix fetch ref ≡ ok d
      → (d.id ≡ ref.id) × (d.name ≡ ref.name) × (d.up ≡ 1)
  unfolding measure
  measure-identity ref d h = measure_from-identity specs ref _ d h

  -- After a refresh whose listing succeeded, the snapshot has one droplet for each that was listed, under
  -- its id and its name and in the order of the rotation, whatever failed and wherever the refresh was
  -- cut: no droplet is lost, and one that has gone away is dropped, even by a refresh that returns an
  -- error. A listing that fails changes nothing.
  pub refresh-refs :
      (cut : Option (ℕ × GoError)) (ctx_err : Option GoError) (c : Collector (Point V))
      → ((refs : List Reference)
          → map ref_of (refresh model unix fetch (ok refs) cut ctx_err c).1.snap
            ≡ rotate c.cursor refs)
        × ((e : GoError) → refresh model unix fetch (err e) cut ctx_err c ≡ (some e, c))
  unfolding refresh
  refresh-refs = Fanout.Refresh.refresh-refs failures (measure model unix fetch) measure-identity

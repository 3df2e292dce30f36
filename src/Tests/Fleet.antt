-- ===== src/Tests/Fleet.antt =====
-- Three droplets, of which one cannot be measured, and a refresh that is cut after the second.
use digitalocean_exporter.Base.{
  ℕ, nat_eq, ℤ, pos, string_eq, true, false, Option, none, some, List, [], ◌∷◌, ◌++◌, map, Result,
  ok, err, ◌≡◌, refl, arith, All, GoError, is, sentinel, opaque, deadline_exceeded, take, drop,
  ◌==◌, if◌then◌else◌, ltb, contains,
}
use digitalocean_exporter.Timeseries.{Model, MetricsResponse}
use digitalocean_exporter.Fanout
use digitalocean_exporter.Fanout.{
  Reference, Reading, Collector, rotate, advance, starved, measured, is_reached,
}
use digitalocean_exporter.Fanout.Rotation.{visits, rotate-advance, visits_cover}
use digitalocean_exporter.Fanout.Refresh.{ref_of, refresh-resumes}
use digitalocean_exporter.DropletMetrics.{
  Endpoint, Point, failures, measure, measure_from, read, refresh,
}
use digitalocean_exporter.DropletMetrics.Measured.{refresh-refs}

abbrev model : Model ℕ ℕ
model = record { is_nan = λ v. false; after = λ a b. ltb b a }

abbrev unix : ℕ → ℤ
unix n = pos n

abbrev empty_answer : MetricsResponse ℕ ℕ
empty_answer = record { status = "success"; result = [] }

abbrev fetch : Endpoint → Reference → Result (Option (MetricsResponse ℕ ℕ))
fetch endpoint ref = if ref.name == "broken" then err (opaque "500") else ok (some empty_answer)

abbrev fleet : List Reference
fleet =
    record { id = "1"; name = "web" }
    ∷ record { id = "2"; name = "broken" }
    ∷ record { id = "3"; name = "db" }
    ∷ []

abbrev collector : Collector (Point ℕ)
collector = record { snap = []; cursor = 2 }

abbrev gauge : Reference → Result (Reading (Point ℕ))
gauge = measure model unix fetch

abbrev late : GoError
late = sentinel deadline_exceeded

abbrev not_done : Option GoError
not_done = none

abbrev cut : Option (ℕ × GoError)
cut = some (2, late)

rotate-advance_example :
    rotate (advance 2 2 3) fleet ≡ drop 2 (rotate 2 fleet) ++ take 2 (rotate 2 fleet)
rotate-advance_example = rotate-advance 2 2 fleet (omega arith)

abbrev IsVisited : Reference → Type 0
IsVisited r = contains (map (λ (v : Reference). v.id) (visits 2 fleet (2 ∷ 1 ∷ []))) r.id ≡ true

All-IsVisited : All IsVisited (visits 2 fleet (2 ∷ 1 ∷ []))
unfolding rotate advance
All-IsVisited = (refl, (refl, (refl, tt)))

visits_cover_example : All IsVisited fleet
visits_cover_example =
    visits_cover IsVisited 2 fleet (2 ∷ 1 ∷ []) (omega arith, (omega arith, tt)) (omega arith)
      All-IsVisited

late-starved : starved late ≡ true
unfolding starved is
late-starved = refl

both_reached : All (λ r. is_reached r ≡ true) (map (measured gauge) (take 2 (rotate 2 fleet)))
unfolding rotate measure measure_from read starved
both_reached = (refl, (refl, tt))

refresh-resumes_example :
    rotate (Fanout.refresh failures gauge (ok fleet) cut (some late) collector).1.cursor fleet
    ≡ drop 2 (rotate 2 fleet) ++ take 2 (rotate 2 fleet)
refresh-resumes_example =
    refresh-resumes failures gauge fleet 2 late (some late) collector (omega arith) late-starved
      both_reached

refresh-refs_example :
    ((refs : List Reference)
      → map ref_of (refresh model unix fetch (ok refs) cut (some late) collector).1.snap
        ≡ rotate 2 refs)
    × ((e : GoError)
        → refresh model unix fetch (err e) cut (some late) collector ≡ (some e, collector))
refresh-refs_example = refresh-refs model unix fetch cut (some late) collector

-- ===== src/Fanout.antt =====
-- The fan-out that internal/collector/dropletmetrics/dropletmetrics.go and
-- internal/collector/loadbalancermetrics/loadbalancermetrics.go share line for line: what is measured
-- for every resource of a list, in an order that rotates.
--
-- `P` is the collector's type of points. How one resource is measured is the argument `measure`: one
-- refresh makes a request at most once, so an answer is a function of the request. The workers take
-- the resources in the order of the queue; all that the results depend on is at which index the
-- dispatch stopped, the argument `cut`, with the context's error: Queue says why.
pub mod Rotation
pub mod Snapshot
pub mod Refresh
pub mod Queue
use digitalocean_exporter.Base.{
  ℕ, zero, suc, ◌+◌, ◌%◌, nat_eq, ℤ, pos, String, string_eq, Bool, true, false, not, ◌||◌, ◌==◌,
  Option, none, some, List, [], ◌∷◌, ◌++◌, map, GoError, Sentinel, sentinel, opaque, wrap, join, is,
  Result, ok, err, canceled, deadline_exceeded, length, take, drop, keep, if◌then◌else◌,
}
use digitalocean_exporter.Base.Int.{positive}
use digitalocean_exporter.Base.Assoc.{Assoc, lookup, insert}

-- `droplet`: what one refresh learned about a single resource.
pub record Reading (P : Type 0) : Type 0 where
  pub id : String
  pub name : String
  pub up : ℕ
  pub sampled : ℤ
  pub points : List P

pub record Reference : Type 0 where
  pub id : String
  pub name : String

-- `result`; the reading of a failed one is never read.
pub record Measurement (P : Type 0) : Type 0 where
  pub ref : Reference
  pub got : Result (Reading P)

pub record Collector (P : Type 0) : Type 0 where
  pub snap : List (Reading P)
  pub cursor : ℕ

-- `starved`
unfoldable pub starved : GoError → Bool
starved e = is e canceled || is e deadline_exceeded

-- `rotate`
unfoldable pub rotate : ℕ → List Reference → List Reference
rotate cursor [] = []
rotate cursor (r ∷ rs) =
    let from = cursor % length (r ∷ rs) in drop from (r ∷ rs) ++ take from (r ∷ rs)

-- `advance`
unfoldable pub advance : ℕ → ℕ → ℕ → ℕ
advance cursor by zero = cursor
advance cursor by (suc n) = (cursor + by) % suc n

module _ {P : Type 0} (measure : Reference → Result (Reading P)) where
  abbrev pub measured : Reference → Measurement P
  measured ref = record { ref = ref; got = measure ref }

  abbrev pub unmeasured : GoError → Reference → Measurement P
  unmeasured e ref = record { ref = ref; got = err (wrap "not measured" e) }

  -- `measureAll`: `cut` is the index and the context's error where the dispatch stopped.
  unfoldable pub measure_all : Option (ℕ × GoError) → List Reference → List (Measurement P)
  measure_all none refs = map measured refs
  measure_all (some (queued, e)) refs =
      map measured (take queued refs) ++ map (unmeasured e) (drop queued refs)

-- What `Collect` sends: the up and the sampled gauge of a reading, and its points.
pub data Sent (P : Type 0) : Type 0 where
  up_sent : ℕ → String → String → Sent P
  sampled_sent : ℤ → String → String → Sent P
  point_sent : P → Sent P

module _ {P : Type 0} where
  -- `previous[d.id] = d`
  unfoldable pub index_from : Assoc String (Reading P) → List (Reading P) → Assoc String (Reading P)
  index_from m [] = m
  index_from m (d ∷ ds) = index_from (insert d.id d m) ds

  abbrev pub zero_reading : Reading P
  zero_reading = record { id = ""; name = ""; up = 0; sampled = pos 0; points = [] }

  -- `previous[r.ref.id]`, and what the loop of `merge` makes of it.
  abbrev pub stale_of : Reference → Option (Reading P) → Reading P
  stale_of ref none = record zero_reading { id = ref.id; name = ref.name; up = 0 }
  stale_of ref (some d) = record d { id = ref.id; name = ref.name; up = 0 }

  abbrev pub merged : Assoc String (Reading P) → Measurement P → Reading P
  merged previous r = elim r.got [ ok d ↦ d | err _ ↦ stale_of r.ref (lookup r.ref.id previous) ]

  -- `merge`
  unfoldable pub merge : List (Reading P) → List (Measurement P) → List (Reading P)
  unfolding index_from
  merge snap results = map (merged (index_from [] snap)) results

  abbrev pub is_measured : Measurement P → Bool
  is_measured r = elim r.got [ ok _ ↦ true | err _ ↦ false ]

  abbrev pub is_reached : Measurement P → Bool
  is_reached r = elim r.got [ ok _ ↦ true | err e ↦ not (starved e) ]

  -- `measured` and `reached` of `report`.
  abbrev pub measured_count : List (Measurement P) → ℕ
  measured_count rs = length (keep is_measured rs)

  abbrev pub reached_count : List (Measurement P) → ℕ
  reached_count rs = length (keep is_reached rs)

  -- `results[len(results)-1].err`
  unfoldable pub last_error : List (Measurement P) → GoError
  last_error [] = opaque ""
  last_error (r ∷ []) = elim r.got [ ok _ ↦ opaque "<nil>" | err e ↦ e ]
  last_error (r ∷ s ∷ rs) = last_error (s ∷ rs)

  -- `Collect`
  unfoldable pub collect : List (Reading P) → List (Sent P)
  collect [] = []
  collect (d ∷ snap) =
      let rest = map point_sent d.points ++ collect snap in
      up_sent d.up d.id d.name
      ∷ (if positive d.sampled then sampled_sent d.sampled d.id d.name ∷ rest else rest)

-- The two sentinels of a collector: the refresh was cut short, and nothing was measured.
pub record Failures : Type 0 where
  pub cut_short : Sentinel
  pub none_measured : Sentinel

module _ {P : Type 0} (failures : Failures) where
  -- The error of `report`; `ctx_err` is `ctx.Err()`.
  unfoldable pub report_error : Option GoError → List (Measurement P) → Option GoError
  unfolding last_error
  report_error (some e) rs = some (join (sentinel failures.cut_short) e)
  report_error none [] = none
  report_error none (r ∷ rs) =
      if measured_count (r ∷ rs) == 0
      then some (join (sentinel failures.none_measured) (last_error (r ∷ rs)))
      else none

  -- `report`
  unfoldable pub report :
      Option GoError → List (Measurement P) → Collector P → Option GoError × Collector P
  unfolding advance report_error starved
  report ctx_err rs c = (
    report_error ctx_err rs,
    record c { cursor = advance c.cursor (reached_count rs) (length rs) },
  )

  module _ (measure : Reference → Result (Reading P)) where
    -- `Refresh`, by what the listing returned, where the dispatch stopped and `ctx.Err()` at the end.
    unfoldable pub refresh :
        Result (List Reference)
        → Option (ℕ × GoError)
        → Option GoError
        → Collector P
        → Option GoError × Collector P
    unfolding measure_all rotate merge report
    refresh (err e) cut ctx_err c = (some e, c)
    refresh (ok refs) cut ctx_err c =
        let results = measure_all measure cut (rotate c.cursor refs) in
        report ctx_err results (record c { snap = merge c.snap results })

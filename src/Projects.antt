-- ===== src/Projects.antt =====
-- internal/collector/projects/projects.go: the projects of the account, and how many resources of each type
-- they own.
--
-- The snapshot is an association list, and `Collect` takes the order of that list for the map's. The fuel is
-- that of each walk.
pub mod Counts
pub mod Outcome
use digitalocean_exporter.Base.{
  ℕ, suc, ◌+◌, nat_eq, String, string_eq, Bool, true, false, not, ◌&&◌, ◌==◌, ltb, Option, none,
  some, List, [], ◌∷◌, ◌++◌, map, GoError, sentinel, opaque, join, no_project_measured, Result, ok,
  err, length, if◌then◌else◌,
}
use digitalocean_exporter.Base.Assoc.{Assoc, lookup, insert}
use digitalocean_exporter.Base.Tally.{tally}
use digitalocean_exporter.Metrics.{Gauge, gauge, count, for_each}
use digitalocean_exporter.Paging.{Api, all}
use digitalocean_exporter.Text.{cut, format_bool, str_le}

-- godo.Project
pub record ApiProject : Type 0 where
  pub id : String
  pub name : String
  pub purpose : String
  pub environment : String
  pub is_default : Bool

-- godo.ProjectResource
pub record ApiResource : Type 0 where
  pub urn : String

pub record TypeCount : Type 0 where
  pub resource_type : String
  pub count : ℕ

pub record Project : Type 0 where
  pub id : String
  pub name : String
  pub purpose : String
  pub environment : String
  pub is_default : String
  pub counts : List TypeCount
  pub known : Bool

-- `urnType`; the three parts of `SplitN` are there when both cuts found a colon.
unfoldable pub urn_type : String → String
unfolding cut
urn_type urn =
    let first = cut 58 urn in
    let second = cut 58 first.1 in
    if first.2 && second.2 && first.0 == "do" && not (second.0 == "") then second.0 else "unknown"

abbrev pub type_count : String × ℕ → TypeCount
type_count entry = record { resource_type = entry.0; count = entry.1 }

-- `sort.Slice` by the type, of which no two are the same here.
unfoldable pub place_count : TypeCount → List TypeCount → List TypeCount
place_count x [] = x ∷ []
place_count x (y ∷ ys) =
    let rest = place_count x ys in
    if str_le x.resource_type y.resource_type then x ∷ y ∷ ys else y ∷ rest

unfoldable pub sort_counts : List TypeCount → List TypeCount
unfolding place_count
sort_counts [] = []
sort_counts (x ∷ xs) = place_count x (sort_counts xs)

-- The end of `countResources`, over the resources that were listed.
unfoldable pub counts_of : List ApiResource → List TypeCount
unfolding urn_type tally sort_counts
counts_of resources =
    sort_counts (map type_count (tally [] (map (λ (r : ApiResource). urn_type r.urn) resources)))

abbrev count_listed :
    {W : Type 0} → Option (Result (List ApiResource) × W) → Option (Result (List TypeCount) × W)
count_listed none = none
count_listed (some (ok resources, w)) = some (ok (counts_of resources), w)
count_listed (some (err e, w)) = some (err e, w)

-- The counts of an entry whose lookup failed: the old ones, if they are known.
abbrev pub carry : Option Project → Project → Project
carry none entry = entry
carry (some old) entry =
    if old.known then record entry { counts = old.counts; known = true } else entry

-- The entry that `measure` returns, by what the lookup answered.
unfoldable pub measure : Assoc String Project → ApiProject → Result (List TypeCount) → Project
measure previous p got =
    let entry : Project = record {
      id = p.id;
      name = p.name;
      purpose = p.purpose;
      environment = p.environment;
      is_default = format_bool p.is_default;
      counts = [];
      known = false;
    } in
    elim got [
      | ok counts ↦ record entry { counts = counts; known = true }
      | err _ ↦ carry (lookup p.id previous) entry
    ]

-- `next`, `failed` and `lastErr` of `Refresh`.
pub record Pass : Type 0 where
  pub next : Assoc String Project
  pub failed : ℕ
  pub last_err : GoError

-- One turn of the loop of `Refresh`, by what the lookup answered.
unfoldable pub enter : Assoc String Project → ApiProject → Result (List TypeCount) → Pass → Pass
unfolding measure insert
enter previous p got pass =
    let next = insert p.id (measure previous p got) pass.next in
    elim got [
      | ok _ ↦ record pass { next = next }
      | err e ↦ record { next = next; failed = pass.failed + 1; last_err = e }
    ]

abbrev pub start : Pass
start = record { next = []; failed = 0; last_err = opaque "" }

-- The end of `Refresh`: the error, and the snapshot.
unfoldable pub finish : ℕ → Pass → Assoc String Project → Option GoError × Assoc String Project
finish listed pass previous =
    if ltb 0 pass.failed && pass.failed == listed
    then (some (join (sentinel no_project_measured) pass.last_err), previous)
    else (none, pass.next)

module _ {W Links : Type 0} (list : Api ApiProject W Links)
    (list_resources : String → Api ApiResource W Links) (fuel : ℕ) where
  -- `countResources`
  unfoldable pub count_resources : String → W → Option (Result (List TypeCount) × W)
  unfolding counts_of all
  count_resources id w =
      count_listed (all "project resources" (λ (r : ApiResource). r.urn) (list_resources id) fuel w)

  -- The loop of `Refresh`.
  unfoldable pub gather : Assoc String Project → List ApiProject → Pass → W → Option (Pass × W)
  unfolding count_resources enter
  gather previous [] pass w = some (pass, w)
  gather previous (p ∷ ps) pass w = elim (count_resources p.id w) [
    | none ↦ none
    | some (got, v) ↦ gather previous ps (enter previous p got pass) v
  ]

  abbrev pub finished :
      ℕ
      → Assoc String Project
      → Option (Pass × W)
      → Option (Option GoError × Assoc String Project × W)
  finished listed previous none = none
  finished listed previous (some (pass, w)) =
      let (failure, snap) = finish listed pass previous in some (failure, snap, w)

  -- `Refresh`: the error, the snapshot and the world after it.
  unfoldable pub refresh :
      Assoc String Project → W → Option (Option GoError × Assoc String Project × W)
  unfolding gather finish
  refresh snap w = elim (all "projects" (λ (p : ApiProject). p.id) list fuel w) [
    | none ↦ none
    | some (err e, v) ↦ some (some e, snap, v)
    | some (ok ps, v) ↦ finished (length ps) snap (gather snap ps start v)
  ]

abbrev count_gauge : Project → TypeCount → List Gauge
count_gauge p tc =
    gauge "digitalocean_project_resources" (count tc.count) (p.id ∷ p.name ∷ tc.resource_type ∷ [])
    ∷ []

abbrev project_gauges : String × Project → List Gauge
project_gauges entry =
    let p = entry.1 in
    gauge "digitalocean_project_info" (count 1)
      (p.id ∷ p.name ∷ p.purpose ∷ p.environment ∷ p.is_default ∷ [])
    ∷ for_each (count_gauge p) p.counts

-- `Collect`
unfoldable pub collect : Assoc String Project → List Gauge
unfolding for_each
collect snap = for_each project_gauges snap

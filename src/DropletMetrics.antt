-- ===== src/DropletMetrics.antt =====
-- internal/collector/dropletmetrics/dropletmetrics.go and metrics.go: what the monitoring agent of
-- every droplet reports. The fan-out is in Fanout.
--
-- A measured value is of the type `V`, a timestamp of the type `Stamp` with its Unix seconds, and an
-- answer of the monitoring API is the function `fetch`.
pub mod Measured
use Prim.Native.String.{◌++◌ as str_append}
use digitalocean_exporter.Base.{
  ℕ, zero, suc, ◌+◌, ◌%◌, nat_eq, ℤ, pos, String, string_eq, Bool, true, false, not, ◌&&◌, ◌||◌,
  ◌==◌, Option, none, some, List, [], ◌∷◌, ◌++◌, map, GoError, sentinel, opaque, wrap, join, is,
  Result, ok, err, ◌>>=◌, Sentinel, canceled, deadline_exceeded, no_droplet_measured,
  refresh_cut_short, length, take, drop, keep, contains, if◌then◌else◌,
}
use digitalocean_exporter.Base.Int.{ltb_ℤ, positive}
use digitalocean_exporter.Base.Assoc.{Assoc, lookup, insert}
use digitalocean_exporter.Fanout
use digitalocean_exporter.Fanout.{Reading, Reference, Collector, Failures}
use digitalocean_exporter.Filter.{Filter, matches, single_tag}
use digitalocean_exporter.Paging.{Api, all}
use digitalocean_exporter.Timeseries.{Model, MetricsResponse, Sample, label, latest}

-- The requests of the monitoring API, by the client's methods.
pub data Endpoint : Type 0 where
  get_droplet_cpu get_droplet_total_memory get_droplet_available_memory : Endpoint
  get_droplet_free_memory get_droplet_cached_memory : Endpoint
  get_droplet_filesystem_size get_droplet_filesystem_free : Endpoint
  get_droplet_load_1 get_droplet_load_5 get_droplet_load_15 : Endpoint

pub data ValueType : Type 0 where
  counter gauge : ValueType

-- `spec`, with the descriptor by its name.
pub record Spec : Type 0 where
  pub name : String
  pub desc : String
  pub value_type : ValueType
  pub series_labels : List String
  pub endpoint : Endpoint

abbrev filesystem_labels : List String
filesystem_labels = "device" ∷ "mountpoint" ∷ "fstype" ∷ []

abbrev a_gauge : String → String → List String → Endpoint → Spec
a_gauge name desc labels endpoint = record {
  name = name;
  desc = desc;
  value_type = gauge;
  series_labels = labels;
  endpoint = endpoint;
}

abbrev pub specs : List Spec
specs =
    record {
      name = "cpu";
      desc = "digitalocean_droplet_cpu_seconds_total";
      value_type = counter;
      series_labels = "mode" ∷ [];
      endpoint = get_droplet_cpu;
    }
    ∷ a_gauge "memory_total" "digitalocean_droplet_memory_total_bytes" [] get_droplet_total_memory
    ∷ a_gauge "memory_available" "digitalocean_droplet_memory_available_bytes" []
        get_droplet_available_memory
    ∷ a_gauge "memory_free" "digitalocean_droplet_memory_free_bytes" [] get_droplet_free_memory
    ∷ a_gauge "memory_cached" "digitalocean_droplet_memory_cached_bytes" []
        get_droplet_cached_memory
    ∷ a_gauge "filesystem_size" "digitalocean_droplet_filesystem_size_bytes" filesystem_labels
        get_droplet_filesystem_size
    ∷ a_gauge "filesystem_free" "digitalocean_droplet_filesystem_free_bytes" filesystem_labels
        get_droplet_filesystem_free
    ∷ a_gauge "load_1" "digitalocean_droplet_load1" [] get_droplet_load_1
    ∷ a_gauge "load_5" "digitalocean_droplet_load5" [] get_droplet_load_5
    ∷ a_gauge "load_15" "digitalocean_droplet_load15" [] get_droplet_load_15
    ∷ []

pub record Point (V : Type 0) : Type 0 where
  pub desc : String
  pub value_type : ValueType
  pub labels : List String
  pub value : V

module _ {V Stamp : Type 0} (model : Model V Stamp) (unix : Stamp → ℤ) where
  -- The samples of one answer, added to the droplet.
  unfoldable pub add_samples :
      Spec → Reference → List (Sample V Stamp) → Reading (Point V) → Reading (Point V)
  add_samples s ref [] out = out
  add_samples s ref (sample ∷ samples) out =
      let at = unix sample.time in
      add_samples s ref samples (record out {
        points =
            out.points
            ++ record {
              desc = s.desc;
              value_type = s.value_type;
              labels = ref.id ∷ ref.name ∷ map (label sample) s.series_labels;
              value = sample.value;
            }
              ∷ [];
        sampled = if ltb_ℤ out.sampled at then at else out.sampled;
      })

  module _ (fetch : Endpoint → Reference → Result (Option (MetricsResponse V Stamp))) where
    -- What one turn of the loop of `measure` reads.
    unfoldable pub read : Spec → Reference → Result (List (Sample V Stamp))
    unfolding latest
    read s ref = elim (fetch s.endpoint ref) [
      | err e ↦ err (wrap (str_append "fetch " s.name) e)
      | ok resp ↦ elim (latest model resp) [
        | err e ↦ err (wrap (str_append "read " s.name) e)
        | ok samples ↦ ok samples
      ]
    ]

    unfoldable pub measure_from :
        List Spec → Reference → Reading (Point V) → Result (Reading (Point V))
    unfolding read add_samples
    measure_from [] ref out = ok out
    measure_from (s ∷ rest) ref out = do
      samples ← read s ref
      measure_from rest ref (add_samples s ref samples out)

    -- `measure`
    unfoldable pub measure : Reference → Result (Reading (Point V))
    unfolding measure_from
    measure ref =
        measure_from specs ref
          (record { id = ref.id; name = ref.name; up = 1; sampled = pos 0; points = [] })

abbrev pub failures : Failures
failures = record { cut_short = refresh_cut_short; none_measured = no_droplet_measured }

-- godo.Droplet, as much of it as the listing reads.
pub record Listed : Type 0 where
  pub id : ℕ
  pub name : String
  pub tags : List String
  pub features : List String
  pub region : Option String

-- `regionSlug`
unfoldable pub region_slug : Listed → String
region_slug d = elim d.region [ none ↦ "" | some slug ↦ slug ]

abbrev pub monitoring_feature : String
monitoring_feature = "monitoring"

-- The test of the loop of `listDroplets`.
unfoldable pub is_wanted : Filter → Bool → Listed → Bool
unfolding matches region_slug
is_wanted f agent_only d =
    if not (matches f d.tags (region_slug d))
    then false
    else not (agent_only && not (contains d.features monitoring_feature))

-- The client's listings; `sprint` is `fmt.Sprint` of an id.
pub record Listings (W Links : Type 0) : Type 0 where
  pub list : Api Listed W Links
  pub list_by_tag : String → Api Listed W Links
  pub sprint : ℕ → String

module _ {W Links : Type 0} (droplets : Listings W Links) (f : Filter) (agent_only : Bool) where
  abbrev pub chosen : Option String → Api Listed W Links
  chosen none = droplets.list
  chosen (some tag) = droplets.list_by_tag tag

  abbrev pub refs_of : List Listed → List Reference
  refs_of ds =
      map
        (λ (d : Listed).
          let r : Reference = record { id = droplets.sprint d.id; name = d.name } in r)
        (keep (is_wanted f agent_only) ds)

  abbrev pub listed : Option (Result (List Listed) × W) → Option (Result (List Reference) × W)
  listed none = none
  listed (some (err e, w)) = some (err e, w)
  listed (some (ok ds, w)) = some (ok (refs_of ds), w)

  -- `listDroplets`
  unfoldable pub list_droplets : ℕ → W → Option (Result (List Reference) × W)
  unfolding is_wanted single_tag
  list_droplets fuel w =
      listed (all "droplets" (λ (d : Listed). d.id) (chosen (single_tag f)) fuel w)

module _ {V Stamp : Type 0} (model : Model V Stamp) (unix : Stamp → ℤ)
    (fetch : Endpoint → Reference → Result (Option (MetricsResponse V Stamp))) where
  -- `Refresh`, by what the listing returned, where the dispatch stopped and `ctx.Err()` at the end.
  unfoldable pub refresh :
      Result (List Reference)
      → Option (ℕ × GoError)
      → Option GoError
      → Collector (Point V)
      → Option GoError × Collector (Point V)
  unfolding measure
  refresh = Fanout.refresh failures (measure model unix fetch)

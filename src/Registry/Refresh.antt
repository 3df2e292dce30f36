-- ===== src/Registry/Refresh.antt =====
-- `Refresh` and `Collect` of internal/collector/registry/registry.go, with what they call.
use digitalocean_exporter.Base.{
  ℕ, nat_eq, ltb, String, string_eq, Bool, true, false, ◌==◌, ◌&&◌, Option, none, some, List, [],
  ◌∷◌, ◌++◌, GoError, sentinel, opaque, wrap, join, no_repositories_listed, Result, ok, err, length,
  keep, if◌then◌else◌,
}
use digitalocean_exporter.Base.Assoc.{Assoc, lookup, insert}
use digitalocean_exporter.Metrics.{Gauge, gauge, over, count, bool_value, known_gauge}
use digitalocean_exporter.Registry.{
  ApiRegistry, Repository, Stats, Snapshot, Subscription, Tier, Reading, Client, list, read_all,
}

-- `previous`
unfoldable pub previous : Option Snapshot → String → Option Stats
previous none name = none
previous (some snap) name = lookup name snap.registries

-- The three cases of the `switch` of `swap`: listed, or carried over, or never listed.
abbrev pub carried : Stats → Option Stats → Stats
carried stats none = stats
carried stats (some old) = record stats { repositories = old.repositories; known = old.known }

-- The figures of the listing.
abbrev pub enumerated : ApiRegistry → Stats
enumerated registry = record {
  name = registry.name;
  region = registry.region;
  storage_usage = registry.storage_usage_bytes;
  measured = registry.storage_usage_bytes_updated_at;
  repositories = [];
  known = false;
  up = false;
}

-- One turn of the loop of `swap`.
unfoldable pub stats_of : Option Snapshot → Reading → Stats
unfolding previous
stats_of snap r = elim r.got [
  | ok listed ↦ record (enumerated r.registry) { repositories = listed; known = true; up = true }
  | err _ ↦ carried (enumerated r.registry) (previous snap r.registry.name)
]

unfoldable pub swap_from : Option Snapshot → Assoc String Stats → List Reading → Assoc String Stats
unfolding stats_of
swap_from snap m [] = m
swap_from snap m (r ∷ rs) = swap_from snap (insert r.registry.name (stats_of snap r) m) rs

-- `applySubscription`
unfoldable pub apply_subscription : Option Subscription → Option Tier
apply_subscription none = none
apply_subscription (some sub) = sub.tier

-- `applySubscription` and `swap`: the snapshot that is installed.
unfoldable pub swap : Option Snapshot → Option Subscription → List Reading → Snapshot
unfolding swap_from apply_subscription
swap snap sub results = record {
  registries = swap_from snap [] results;
  tier = apply_subscription sub;
}

abbrev pub is_failed : Reading → Bool
is_failed r = elim r.got [ ok _ ↦ false | err _ ↦ true ]

-- `results[len(results)-1].err`
unfoldable pub last_error : List Reading → GoError
last_error [] = opaque ""
last_error (r ∷ []) = elim r.got [ ok _ ↦ opaque "<nil>" | err e ↦ e ]
last_error (r ∷ s ∷ rs) = last_error (s ∷ rs)

-- `reportFailures`
unfoldable pub report_failures : List Reading → Option GoError
unfolding last_error
report_failures results =
    let failed = length (keep is_failed results) in
    if ltb 0 failed && failed == length results
    then some (join (sentinel no_repositories_listed) (last_error results))
    else none

-- `markAbsent`
abbrev pub absent : Snapshot
absent = record { registries = []; tier = none }

-- The end of `Refresh`: the error, the snapshot and the world after it.
unfoldable pub install :
    {W : Type 0}
    → Option Snapshot
    → Option Subscription
    → Option (List Reading × W)
    → Option (Option GoError × Option Snapshot × W)
unfolding swap report_failures
install snap sub none = none
install snap sub (some (results, w)) =
    some (report_failures results, some (swap snap sub results), w)

module _ {W Links : Type 0} (client : Client W Links) where
  -- `subscription`
  unfoldable pub subscription : Bool → W → Result (Option Subscription) × W
  subscription multi w =
      let (got, v) = client.get_subscription multi w in
      elim got [ err e ↦ (err (wrap "get registry subscription" e), v) | ok sub ↦ (ok sub, v) ]

  -- `Refresh` of the registries that `list` found.
  unfoldable pub refresh_found :
      ℕ
      → Option Snapshot
      → List ApiRegistry
      → Bool
      → W
      → Option (Option GoError × Option Snapshot × W)
  unfolding subscription read_all install
  refresh_found fuel snap [] multi w = some (none, some absent, w)
  refresh_found fuel snap (reg ∷ regs) multi w =
      let (got, v) = subscription multi w in
      elim got [
        | err e ↦ some (some e, snap, v)
        | ok sub ↦ install snap sub (read_all client fuel (reg ∷ regs) multi v)
      ]

  -- `Refresh`
  unfoldable pub refresh : ℕ → Option Snapshot → W → Option (Option GoError × Option Snapshot × W)
  unfolding list refresh_found
  refresh fuel snap w =
      let (got, v) = list client w in
      elim got [
        | err e ↦ some (some e, snap, v)
        | ok found ↦ refresh_found fuel snap found.0 found.1 v
      ]

abbrev cents_per_dollar : ℕ
cents_per_dollar = 100

-- The gauges of the tier in `collectRegistry`.
abbrev tier_gauges : Option Tier → Stats → List Gauge
tier_gauges none reg = []
tier_gauges (some tier) reg =
    gauge "digitalocean_registry_storage_included_bytes" (count tier.included_storage_bytes)
      (reg.name ∷ reg.region ∷ [])
    ∷ gauge "digitalocean_registry_bandwidth_included_bytes" (count tier.included_bandwidth_bytes)
        (reg.name ∷ reg.region ∷ [])
    ∷ gauge "digitalocean_registry_subscription_monthly_price_usd"
        (over (count tier.monthly_price_in_cents) cents_per_dollar) (reg.name ∷ tier.slug ∷ [])
    ∷ gauge "digitalocean_registry_info" (count 1)
        (reg.name ∷ reg.region ∷ tier.slug ∷ tier.name ∷ [])
    ∷ []

-- `collectRegistry`
unfoldable pub collect_registry : Option Tier → Stats → List Gauge
collect_registry tier reg =
    gauge "digitalocean_registry_storage_usage_bytes" (count reg.storage_usage)
        (reg.name ∷ reg.region ∷ [])
      ∷ known_gauge "digitalocean_registry_storage_usage_updated_timestamp_seconds" reg.measured
          (reg.name ∷ reg.region ∷ [])
    ++ gauge "digitalocean_registry_up" (bool_value reg.up) (reg.name ∷ reg.region ∷ [])
      ∷ (if reg.known
          then gauge "digitalocean_registry_repositories" (count (length reg.repositories))
              (reg.name ∷ [])
            ∷ []
          else [])
    ++ tier_gauges tier reg

-- `collectRepositories`
unfoldable pub collect_repositories : String → List Repository → List Gauge
collect_repositories name [] = []
collect_repositories name (repo ∷ repos) =
    gauge "digitalocean_registry_repository_tags" (count repo.tags) (name ∷ repo.name ∷ [])
      ∷ gauge "digitalocean_registry_repository_manifests" (count repo.manifests)
          (name ∷ repo.name ∷ [])
      ∷ (if repo.manifest
          then gauge "digitalocean_registry_repository_latest_manifest_size_bytes"
              (count repo.manifest_size) (name ∷ repo.name ∷ [])
            ∷ []
          else [])
    ++ known_gauge "digitalocean_registry_repository_last_push_timestamp_seconds" repo.pushed
        (name ∷ repo.name ∷ [])
    ++ collect_repositories name repos

unfoldable pub collect_all : Option Tier → Assoc String Stats → List Gauge
unfolding collect_registry collect_repositories
collect_all tier [] = []
collect_all tier ((name, reg) ∷ regs) =
    collect_registry tier reg
    ++ collect_repositories reg.name reg.repositories
    ++ collect_all tier regs

-- `Collect`
unfoldable pub collect : Option Snapshot → List Gauge
unfolding collect_all
collect none = []
collect (some snap) = collect_all snap.tier snap.registries

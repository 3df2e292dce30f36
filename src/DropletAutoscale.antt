-- ===== src/DropletAutoscale.antt =====
-- internal/collector/dropletautoscale/dropletautoscale.go: the droplet autoscale pools, which the collector
-- asks for with a request of its own.
--
-- A float64 of the API is kept as its text, and `positive` is the test of it for being above zero.
use Prim.Native.String.{◌++◌ as str_append}
use digitalocean_exporter.Base.{
  ℕ, ltb, pos, String, string_eq, Bool, Option, none, some, List, [], ◌∷◌, ◌++◌, GoError, Result,
  ok, err, if◌then◌else◌,
}
use digitalocean_exporter.Listing.{refresh_list}
use digitalocean_exporter.Metrics.{Gauge, gauge, given, count, for_each}
use digitalocean_exporter.Paging.{Api, ListOptions}
use digitalocean_exporter.Text.{itoa, joined}

-- The `Config` of `apiPool`.
pub record PoolConfig : Type 0 where
  pub min_instances : ℕ
  pub max_instances : ℕ
  pub target_number_instances : ℕ
  pub target_cpu_utilization : String
  pub target_memory_utilization : String

-- The `DropletTemplate` of `apiPool`.
pub record DropletTemplate : Type 0 where
  pub region : String
  pub size : String

-- The `CurrentUtilization` of `apiPool`.
pub record Utilization : Type 0 where
  pub cpu : String
  pub memory : String

pub record ApiPool : Type 0 where
  pub id : String
  pub name : String
  pub status : String
  pub active_resources : ℕ
  pub config : PoolConfig
  pub droplet_template : DropletTemplate
  pub current_utilization : Option Utilization

-- `poolsRoot`; what `Meta` says is not read again.
pub record PoolsRoot (Links : Type 0) : Type 0 where
  pub pools : List ApiPool
  pub links : Option Links

-- The godo client: a GET of a path gives the decoded body, and the links of the response.
pub record Client (W Links : Type 0) : Type 0 where
  pub ctx_err : W → Option GoError
  pub get : String → W → Result (PoolsRoot Links × Option Links) × W
  pub is_last_page : Links → Bool
  pub current_page : Links → Result ℕ

-- One `query.Set`, as `Encode` writes it.
abbrev parameter : String → ℕ → List String
parameter name n = if ltb 0 n then str_append name (itoa (pos n)) ∷ [] else []

-- The path that `listPools` asks for; `Encode` puts the names in order.
unfoldable pub path_of : ListOptions → String
unfolding itoa joined
path_of opts =
    str_append "v2/droplets/autoscale?"
      (joined "&" (parameter "page=" opts.page ++ parameter "per_page=" opts.per_page))

-- The links that `listPools` leaves in the response.
abbrev pub links_of : {Links : Type 0} → PoolsRoot Links → Option Links → Option Links
links_of root links = elim root.links [ none ↦ links | some own ↦ some own ]

module _ {W Links : Type 0} (client : Client W Links) where
  abbrev pub listed :
      Result (PoolsRoot Links × Option Links) × W
      → Result (List ApiPool × Option (Option Links)) × W
  listed (err e, w) = (err e, w)
  listed (ok (root, links), w) = (ok (root.pools, some (links_of root links)), w)

  -- `listPools`
  unfoldable pub list_pools : ListOptions → W → Result (List ApiPool × Option (Option Links)) × W
  unfolding path_of
  list_pools opts w = listed (client.get (path_of opts) w)

  -- `c.listPools` as `Refresh` hands it to `paging.All`.
  unfoldable pub pool_api : Api ApiPool W Links
  unfolding list_pools
  pool_api = record {
    ctx_err = client.ctx_err;
    list = list_pools;
    is_last_page = client.is_last_page;
    current_page = client.current_page;
  }

  -- `Refresh`
  unfoldable pub refresh : ℕ → List ApiPool → W → Option (Option GoError × List ApiPool × W)
  unfolding pool_api refresh_list
  refresh fuel snap w =
      refresh_list "droplet autoscale pools" (λ (p : ApiPool). p.id) (λ pools. pools) pool_api fuel
        snap w

module _ (positive : String → Bool) where
  abbrev bound_gauges : List String → PoolConfig → List Gauge
  bound_gauges labels c =
      if ltb 0 c.max_instances
      then gauge "digitalocean_droplet_autoscale_pool_min_instances" (count c.min_instances) labels
        ∷ gauge "digitalocean_droplet_autoscale_pool_max_instances" (count c.max_instances) labels
        ∷ []
      else []

  abbrev target_gauges : List String → PoolConfig → List Gauge
  target_gauges labels c =
      if ltb 0 c.target_number_instances
      then gauge "digitalocean_droplet_autoscale_pool_target_instances"
          (count c.target_number_instances) labels
        ∷ []
      else []

  abbrev utilization_target : String → String → List String → List Gauge
  utilization_target desc value labels =
      if positive value then gauge desc (given value) labels ∷ [] else []

  abbrev utilization_gauges : List String → Option Utilization → List Gauge
  utilization_gauges labels none = []
  utilization_gauges labels (some u) =
      gauge "digitalocean_droplet_autoscale_pool_current_cpu_utilization_ratio" (given u.cpu) labels
      ∷ gauge "digitalocean_droplet_autoscale_pool_current_memory_utilization_ratio"
          (given u.memory) labels
      ∷ []

  -- `collectPool`
  unfoldable pub collect_pool : ApiPool → List Gauge
  collect_pool p =
      let labels = p.id ∷ p.name ∷ [] in
      gauge "digitalocean_droplet_autoscale_pool_info" (count 1)
          (labels ++ p.droplet_template.region ∷ p.droplet_template.size ∷ p.status ∷ [])
        ∷ gauge "digitalocean_droplet_autoscale_pool_active_instances" (count p.active_resources)
            labels
        ∷ bound_gauges labels p.config
      ++ target_gauges labels p.config
      ++ utilization_target "digitalocean_droplet_autoscale_pool_target_cpu_utilization_ratio"
          p.config.target_cpu_utilization labels
      ++ utilization_target "digitalocean_droplet_autoscale_pool_target_memory_utilization_ratio"
          p.config.target_memory_utilization labels
      ++ utilization_gauges labels p.current_utilization

  -- `Collect`
  unfoldable pub collect : List ApiPool → List Gauge
  unfolding collect_pool for_each
  collect snap = for_each collect_pool snap

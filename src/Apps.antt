-- ===== src/Apps.antt =====
-- internal/collector/apps/apps.go: the App Platform applications with their deployments and components.
--
-- A nil pointer of the API is `none`; a time is its Unix seconds, or `none` for the zero time.
use digitalocean_exporter.Base.{
  ℕ, ℤ, pos, String, string_eq, Bool, ◌==◌, Option, none, some, List, [], ◌∷◌, ◌++◌, map, GoError,
  if◌then◌else◌,
}
use digitalocean_exporter.Listing.{refresh_list}
use digitalocean_exporter.Metrics.{Gauge, gauge, whole, count, bool_value, for_each, known_gauge}
use digitalocean_exporter.Metrics.Statuses.{one_hot}
use digitalocean_exporter.Paging.{Api}

abbrev pub known_phases : List String
known_phases =
    "PENDING_BUILD" ∷ "BUILDING" ∷ "PENDING_DEPLOY" ∷ "DEPLOYING" ∷ "ACTIVE" ∷ "SUPERSEDED"
    ∷ "ERROR" ∷ "CANCELED" ∷ []

-- A service, a worker or a job of godo.AppSpec.
pub record ApiComponent : Type 0 where
  pub name : String
  pub instance_size_slug : String
  pub instance_count : ℤ

-- godo.AppSpec, with its static sites by their names.
pub record ApiSpec : Type 0 where
  pub name : String
  pub region : String
  pub services : List (Option ApiComponent)
  pub workers : List (Option ApiComponent)
  pub jobs : List (Option ApiComponent)
  pub static_sites : List (Option String)

-- godo.App, with the phase of its active deployment.
pub record ApiApp : Type 0 where
  pub id : String
  pub tier_slug : String
  pub default_ingress : String
  pub has_in_progress_deployment : Bool
  pub region : Option String
  pub active_deployment : Option String
  pub last_deployment_active_at : Option ℤ
  pub created_at : Option ℤ
  pub spec : Option ApiSpec

pub record Component : Type 0 where
  pub name : String
  pub kind : String
  pub size : String
  pub instances : ℤ

-- `app`; each of the three options is a pair of fields of it.
pub record App : Type 0 where
  pub id : String
  pub name : String
  pub tier : String
  pub region : String
  pub default_ingress : String
  pub phase : Option String
  pub in_progress : Bool
  pub last_deployment_active : Option ℤ
  pub created : Option ℤ
  pub components : List Component

-- One of the first three loops of `newComponents`.
unfoldable pub components_of : String → List (Option ApiComponent) → List Component
components_of kind [] = []
components_of kind (none ∷ xs) = components_of kind xs
components_of kind (some x ∷ xs) =
    record { name = x.name; kind = kind; size = x.instance_size_slug; instances = x.instance_count }
    ∷ components_of kind xs

unfoldable pub static_sites_of : List (Option String) → List Component
static_sites_of [] = []
static_sites_of (none ∷ xs) = static_sites_of xs
static_sites_of (some name ∷ xs) =
    record { name = name; kind = "static_site"; size = ""; instances = pos 0 } ∷ static_sites_of xs

-- `newComponents`
unfoldable pub new_components : ApiSpec → List Component
unfolding components_of static_sites_of
new_components spec =
    components_of "service" spec.services
    ++ components_of "worker" spec.workers
    ++ components_of "job" spec.jobs
    ++ static_sites_of spec.static_sites

-- The last part of `newApp`, what the spec says.
abbrev with_spec : Option ApiSpec → App → App
with_spec none out = out
with_spec (some spec) out = record out {
  name = spec.name;
  region = if out.region == "" then spec.region else out.region;
  components = new_components spec;
}

-- `newApp`
unfoldable pub new_app : ApiApp → App
unfolding new_components
new_app a = with_spec a.spec (record {
  id = a.id;
  name = "";
  tier = a.tier_slug;
  region = elim a.region [ none ↦ "" | some slug ↦ slug ];
  default_ingress = a.default_ingress;
  phase = a.active_deployment;
  in_progress = a.has_in_progress_deployment;
  last_deployment_active = a.last_deployment_active_at;
  created = a.created_at;
  components = [];
})

-- `Refresh`
--
-- No listed app is nil here: the key function has read the ID of each before the loop tests it for nil.
unfoldable pub refresh :
    {W Links : Type 0}
    → Api ApiApp W Links
    → ℕ
    → List App
    → W
    → Option (Option GoError × List App × W)
unfolding new_app refresh_list
refresh list fuel snap w = refresh_list "apps" (λ (a : ApiApp). a.id) (map new_app) list fuel snap w

-- `collectPhases`
unfoldable pub collect_phases : List String → Option String → List Gauge
unfolding one_hot
collect_phases labels none = []
collect_phases labels (some phase) =
    one_hot "digitalocean_app_deployment_phase" labels known_phases phase

abbrev component_gauge : List String → Component → List Gauge
component_gauge labels comp =
    gauge "digitalocean_app_component_instances" (whole comp.instances)
      (labels ++ comp.name ∷ comp.kind ∷ comp.size ∷ [])
    ∷ []

-- One turn of the loop of `Collect`.
unfoldable pub collect_one : App → List Gauge
unfolding collect_phases for_each
collect_one a =
    let labels = a.id ∷ a.name ∷ [] in
    gauge "digitalocean_app_info" (count 1) (labels ++ a.tier ∷ a.region ∷ a.default_ingress ∷ [])
      ∷ gauge "digitalocean_app_deployment_in_progress" (bool_value a.in_progress) labels
      ∷ known_gauge "digitalocean_app_last_deployment_active_timestamp_seconds"
          a.last_deployment_active labels
    ++ known_gauge "digitalocean_app_created_timestamp_seconds" a.created labels
    ++ collect_phases labels a.phase
    ++ for_each (component_gauge labels) a.components

-- `Collect`
unfoldable pub collect : List App → List Gauge
unfolding collect_one for_each
collect snap = for_each collect_one snap

-- ===== src/Kubernetes.antt =====
-- internal/collector/kubernetes/kubernetes.go: the managed Kubernetes clusters with their pools and nodes,
-- and the lookups of the versions they can be upgraded to.
--
-- godo is the parameter `Client`; a call takes the state of the world and returns the next one, and the
-- fuel is that of the walk over the list. A nil node is `none`; pools and clusters are never nil.
pub mod Pools
pub mod Refresh
use digitalocean_exporter.Base.{
  ℕ, suc, ◌+◌, nat_eq, ltb, String, string_eq, Bool, true, false, not, ◌==◌, Option, none, some,
  List, [], ◌∷◌, ◌++◌, map, keep, GoError, Result, ok, err, length, if◌then◌else◌,
}
use digitalocean_exporter.Base.Assoc.{Assoc}
use digitalocean_exporter.Details.{Fields, previous_from, refresh_each}
use digitalocean_exporter.Filter.{Filter, matches}
use digitalocean_exporter.Metrics.{Value, Gauge, gauge, count, bool_value}
use digitalocean_exporter.Metrics.Statuses.{one_hot}
use digitalocean_exporter.Paging.{Api, all}

abbrev pub running_state : String
running_state = "running"

-- godo.KubernetesNode, with the state of its status.
pub record ApiNode : Type 0 where
  pub id : String
  pub name : String
  pub droplet_id : String
  pub status : Option String

-- godo.KubernetesNodePool
pub record ApiPool : Type 0 where
  pub id : String
  pub name : String
  pub size : String
  pub count : ℕ
  pub auto_scale : Bool
  pub min_nodes : ℕ
  pub max_nodes : ℕ
  pub nodes : List (Option ApiNode)

-- godo.KubernetesMaintenancePolicy, with the day as a text.
pub record Maintenance : Type 0 where
  pub day : String
  pub start_time : String

-- godo.KubernetesCluster, with the state of its status.
pub record ApiCluster : Type 0 where
  pub id : String
  pub name : String
  pub region_slug : String
  pub version_slug : String
  pub auto_upgrade : Bool
  pub surge_upgrade : Bool
  pub ha : Bool
  pub registry_enabled : Bool
  pub status : Option String
  pub maintenance_policy : Option Maintenance
  pub node_pools : List ApiPool
  pub tags : List String

pub record Node : Type 0 where
  pub id : String
  pub name : String
  pub droplet_id : String
  pub state : String

pub record Pool : Type 0 where
  pub id : String
  pub name : String
  pub size : String
  pub nodes : ℕ
  pub running : ℕ
  pub auto_scale : Bool
  pub min_nodes : ℕ
  pub max_nodes : ℕ
  pub members : List Node

pub record Upgrades : Type 0 where
  pub known : Bool
  pub versions : List String

pub record Cluster : Type 0 where
  pub id : String
  pub name : String
  pub region : String
  pub version : String
  pub maintenance_day : String
  pub maintenance_start_time : String
  pub up : Bool
  pub auto_upgrade : Bool
  pub surge_upgrade : Bool
  pub ha : Bool
  pub registry : Bool
  pub pools : List Pool
  pub upgrades : Upgrades

-- The client; `get_upgrades` gives the slugs, `none` for a nil version.
pub record Client (W Links : Type 0) : Type 0 where
  pub ctx_err : W → Option GoError
  pub list : Api ApiCluster W Links
  pub get_upgrades : String → W → Result (List (Option String)) × W

abbrev pub member_of : ApiNode → Node
member_of n = record {
  id = n.id;
  name = n.name;
  droplet_id = n.droplet_id;
  state = elim n.status [ none ↦ "" | some state ↦ state ];
}

-- What a node adds to its pool.
abbrev pub added : ApiNode → Pool → Pool
added n out =
    let member = member_of n in
    record out {
      running = if member.state == running_state then out.running + 1 else out.running;
      members = out.members ++ member ∷ [];
    }

-- The loop of `newPool` over the nodes.
unfoldable pub add_members : List (Option ApiNode) → Pool → Pool
add_members [] out = out
add_members (none ∷ nodes) out = add_members nodes out
add_members (some n ∷ nodes) out = add_members nodes (added n out)

abbrev pub empty_pool : ApiPool → Pool
empty_pool np = record {
  id = np.id;
  name = np.name;
  size = np.size;
  nodes = np.count;
  running = 0;
  auto_scale = np.auto_scale;
  min_nodes = np.min_nodes;
  max_nodes = np.max_nodes;
  members = [];
}

-- `newPool`
unfoldable pub new_pool : ApiPool → Pool
unfolding add_members
new_pool np = add_members np.nodes (empty_pool np)

abbrev pub no_upgrades : Upgrades
no_upgrades = record { known = false; versions = [] }

-- `newCluster`
unfoldable pub new_cluster : ApiCluster → Cluster
unfolding new_pool
new_cluster kc = record {
  id = kc.id;
  name = kc.name;
  region = kc.region_slug;
  version = kc.version_slug;
  maintenance_day = elim kc.maintenance_policy [ none ↦ "" | some p ↦ p.day ];
  maintenance_start_time = elim kc.maintenance_policy [ none ↦ "" | some p ↦ p.start_time ];
  up = elim kc.status [ none ↦ false | some state ↦ state == running_state ];
  auto_upgrade = kc.auto_upgrade;
  surge_upgrade = kc.surge_upgrade;
  ha = kc.ha;
  registry = kc.registry_enabled;
  pools = map new_pool kc.node_pools;
  upgrades = no_upgrades;
}

-- The loop of `refreshUpgrades` over the versions.
unfoldable pub slugs_of : List (Option String) → List String
slugs_of [] = []
slugs_of (none ∷ versions) = slugs_of versions
slugs_of (some slug ∷ versions) =
    let rest = slugs_of versions in if slug == "" then rest else slug ∷ rest

abbrev pub fields : Fields Cluster Upgrades
fields = record {
  id = λ (cl : Cluster). cl.id;
  details = λ (cl : Cluster). cl.upgrades;
  with_details = λ (u : Upgrades) (cl : Cluster). record cl { upgrades = u };
  nothing = no_upgrades;
}

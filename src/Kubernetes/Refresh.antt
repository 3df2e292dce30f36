-- ===== src/Kubernetes/Refresh.antt =====
-- `Refresh` and `Collect` of internal/collector/kubernetes/kubernetes.go.
use digitalocean_exporter.Base.{
  ℕ, nat_eq, ltb, String, string_eq, Bool, true, Option, none, some, List, [], ◌∷◌, ◌++◌, map, keep,
  GoError, Result, ok, err, length, if◌then◌else◌,
}
use digitalocean_exporter.Details.{refresh_after}
use digitalocean_exporter.Filter.{Filter, matches}
use digitalocean_exporter.Metrics.{Gauge, gauge, count, bool_value}
use digitalocean_exporter.Metrics.Statuses.{one_hot}
use digitalocean_exporter.Paging.{all}
use digitalocean_exporter.Kubernetes.{
  ApiCluster, Node, Pool, Upgrades, Cluster, Client, new_cluster, slugs_of, fields, running_state,
}

module _ {W Links : Type 0} (client : Client W Links) where
  abbrev answered : Result (List (Option String)) → Result Upgrades
  answered (err e) = err e
  answered (ok versions) = ok (record { known = true; versions = slugs_of versions })

  -- The request of `refreshUpgrades`.
  unfoldable pub lookup_upgrades : String → W → Option (Result Upgrades × W)
  unfolding slugs_of
  lookup_upgrades id w = let (got, v) = client.get_upgrades id w in some (answered got, v)

-- The clusters that the loop of `Refresh` passes to `refreshUpgrades`.
unfoldable pub admitted : Filter → List ApiCluster → List Cluster
unfolding matches new_cluster
admitted f kcs = map new_cluster (keep (λ (kc : ApiCluster). matches f kc.tags kc.region_slug) kcs)

abbrev pub listed :
    {W : Type 0}
    → Filter
    → Option (Result (List ApiCluster) × W)
    → Option (Result (List Cluster) × W)
listed f none = none
listed f (some (err e, w)) = some (err e, w)
listed f (some (ok kcs, w)) = some (ok (admitted f kcs), w)

module _ {W Links : Type 0} (client : Client W Links) (f : Filter) (ask_upgrades : Bool) where
  -- `Refresh`
  unfoldable pub refresh : ℕ → List Cluster → W → Option (Option GoError × List Cluster × W)
  unfolding refresh_after lookup_upgrades admitted
  refresh fuel snap w =
      refresh_after fields client.ctx_err (lookup_upgrades client) ask_upgrades snap
        (listed f (all "kubernetes clusters" (λ (kc : ApiCluster). kc.id) client.list fuel w))

abbrev pub known_node_states : List String
known_node_states = "provisioning" ∷ running_state ∷ "draining" ∷ "deleting" ∷ []

-- `collectNode`
unfoldable pub collect_node : Cluster → Pool → Node → List Gauge
unfolding one_hot
collect_node cl p n =
    let labels = cl.id ∷ cl.name ∷ p.id ∷ p.name ∷ n.id ∷ n.name ∷ [] in
    one_hot "digitalocean_kubernetes_node_state" labels known_node_states n.state
    ++ gauge "digitalocean_kubernetes_node_info" (count 1) (labels ++ n.droplet_id ∷ []) ∷ []

unfoldable pub collect_nodes : Cluster → Pool → List Node → List Gauge
unfolding collect_node
collect_nodes cl p [] = []
collect_nodes cl p (n ∷ ns) = collect_node cl p n ++ collect_nodes cl p ns

-- `collectPools`
unfoldable pub collect_pools : Cluster → List Pool → List Gauge
unfolding collect_nodes
collect_pools cl [] = []
collect_pools cl (p ∷ ps) =
    let labels = cl.id ∷ cl.name ∷ p.id ∷ p.name ∷ p.size ∷ [] in
    gauge "digitalocean_kubernetes_node_pool_nodes" (count p.nodes) labels
      ∷ gauge "digitalocean_kubernetes_node_pool_nodes_running" (count p.running) labels
      ∷ gauge "digitalocean_kubernetes_node_pool_auto_scale" (bool_value p.auto_scale) labels
      ∷ gauge "digitalocean_kubernetes_node_pool_min_nodes" (count p.min_nodes) labels
      ∷ gauge "digitalocean_kubernetes_node_pool_max_nodes" (count p.max_nodes) labels
      ∷ collect_nodes cl p p.members
    ++ collect_pools cl ps

unfoldable pub version_gauges : Cluster → List String → List Gauge
version_gauges cl [] = []
version_gauges cl (v ∷ vs) =
    gauge "digitalocean_kubernetes_cluster_available_version_info" (count 1)
      (cl.id ∷ cl.name ∷ v ∷ [])
    ∷ version_gauges cl vs

-- `collectUpgrades`
unfoldable pub collect_upgrades : Cluster → List Gauge
unfolding version_gauges
collect_upgrades cl =
    if cl.upgrades.known
    then gauge "digitalocean_kubernetes_cluster_upgrade_available"
        (bool_value (ltb 0 (length cl.upgrades.versions))) (cl.id ∷ cl.name ∷ [])
      ∷ version_gauges cl cl.upgrades.versions
    else []

-- `Collect`
unfoldable pub collect : List Cluster → List Gauge
unfolding collect_upgrades collect_pools
collect [] = []
collect (cl ∷ snap) =
    let labels = cl.id ∷ cl.name ∷ cl.region ∷ [] in
    gauge "digitalocean_kubernetes_cluster_up" (bool_value cl.up) (labels ++ cl.version ∷ [])
      ∷ gauge "digitalocean_kubernetes_cluster_auto_upgrade" (bool_value cl.auto_upgrade) labels
      ∷ gauge "digitalocean_kubernetes_cluster_surge_upgrade" (bool_value cl.surge_upgrade) labels
      ∷ gauge "digitalocean_kubernetes_cluster_ha" (bool_value cl.ha) labels
      ∷ gauge "digitalocean_kubernetes_cluster_registry_enabled" (bool_value cl.registry) labels
      ∷ gauge "digitalocean_kubernetes_cluster_info" (count 1)
          (labels ++ cl.version ∷ cl.maintenance_day ∷ cl.maintenance_start_time ∷ [])
      ∷ collect_upgrades cl
    ++ collect_pools cl cl.pools
    ++ collect snap

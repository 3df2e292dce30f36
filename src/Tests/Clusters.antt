-- ===== src/Tests/Clusters.antt =====
-- One database on an endpoint that does not page, a pool of two nodes, and the statuses of a replica.
use mathlib.Core.Path.{subst}
use digitalocean_exporter.Base.{
  GoError, Option, ◌++◌, map, ◌⊎◌, ok_inj, ap, ℕ, suc, ◌≡◌, ◌≢◌, string_eq, nat_eq, String, true,
  false, none, some, List, [], ◌∷◌, concat, contains, Distinct, Result, ok, err, opaque, refl,
  arith, All,
}
use digitalocean_exporter.Details.Each.{Outcome}
use digitalocean_exporter.Details.Total.{Ends}
use digitalocean_exporter.Filter.{Filter}
use digitalocean_exporter.Metrics.Statuses.{one_hot, Singled, zero_series, one_hot-Singled}
use digitalocean_exporter.Paging.{keep_new, Api, ListOptions, all}
use digitalocean_exporter.Databases
use digitalocean_exporter.Databases.{
  ApiDatabase, ApiReplica, ApiBackup, list_clusters, databases_per_page,
}
use digitalocean_exporter.Databases.Listing.{list_clusters-ends}
use digitalocean_exporter.Databases.Served.{final, clusters_of, list_clusters-Served}
use digitalocean_exporter.Databases.Newest.{filled_in, refresh-Outcome}
use digitalocean_exporter.Databases.Refresh
use digitalocean_exporter.Databases.Refresh.{known_replica_statuses, lookup_details}
use digitalocean_exporter.Kubernetes
use digitalocean_exporter.Kubernetes.{ApiNode, ApiPool, ApiCluster, Pool, new_pool}
use digitalocean_exporter.Kubernetes.Refresh.{lookup_upgrades, listed}

abbrev database : ApiDatabase
database = record {
  id = "d1";
  name = "main";
  region_slug = "fra1";
  size_slug = "s";
  engine_slug = "pg";
  version_slug = "16";
  project_id = "p";
  private_network_uuid = "n";
  status = "online";
  num_nodes = 1;
  storage_size_mib = 1;
  users = [];
  db_names = [];
  maintenance_window = none;
  storage_autoscale = none;
  tags = [];
}

abbrev everything : Filter
everything = record { tags = none; regions = none }

abbrev nobody : {A : Type 0} → Api A ℕ ℕ
nobody = record {
  ctx_err = λ w. none;
  list = λ opts w. (ok ([], none), w);
  is_last_page = λ links. true;
  current_page = λ links. ok 0;
}

abbrev databases : Databases.Client ℕ ℕ
databases = record {
  ctx_err = λ w. none;
  list = λ opts w. (ok (database ∷ []), suc w);
  list_replicas = λ id. nobody;
  list_backups = λ id. nobody;
}

serves :
    (opts : ListOptions) (w v : ℕ) (page : List ApiDatabase)
    → databases.list opts w ≡ (ok page, v)
    → All (λ (db : ApiDatabase). contains ("d1" ∷ []) db.id ≡ true) page
serves opts w v page h =
    subst (All (λ (db : ApiDatabase). contains ("d1" ∷ []) db.id ≡ true)) (ok_inj (ap (λ p. p.0) h))
      (refl, tt)

list_clusters-ends_example :
    (r : Result (List Databases.Cluster) × ℕ) × (list_clusters databases everything 1 0 ≡ some r)
list_clusters-ends_example =
    list_clusters-ends databases everything ("d1" ∷ []) serves 1 0 (omega arith)

list_clusters-Served_example :
    list_clusters databases everything 1 0
    ≡ some (ok (clusters_of everything (concat ((database ∷ []) ∷ []))), 1)
list_clusters-Served_example =
    list_clusters-Served databases everything 1 (refl, tt) (final (database ∷ []) refl refl)
      (omega arith)

abbrev looked_up : Databases.Cluster
looked_up = record (Databases.new_cluster database) {
  details = record { known = true; replicas = []; last_backup = none };
}

-- The replicas cannot be read.
abbrev half_read : Databases.Client ℕ ℕ
half_read = record databases {
  list_replicas = λ id. record nobody { list = λ opts w. (err (opaque "500"), suc w) };
}

half_read-listed :
    list_clusters half_read everything 1 0 ≡ some (ok (Databases.new_cluster database ∷ []), 1)
unfolding list_clusters
half_read-listed = refl

half_read-Ends : (id : String) (w : ℕ) → Ends (lookup_details half_read 1 id w)
unfolding lookup_details all
half_read-Ends id w = (_, refl)

refresh-Outcome_example :
    (e : Option GoError) × (after : List Databases.Cluster) × (u : ℕ) × (Databases.Refresh.refresh
        half_read everything true 1
        (looked_up ∷ [])
        0
      ≡ some (e, after, u))
    × Outcome filled_in half_read.ctx_err
        (lookup_details half_read 1)
        (looked_up ∷ [])
        (some (ok (Databases.new_cluster database ∷ []), 1))
        e
        after
        u
refresh-Outcome_example =
    refresh-Outcome half_read everything 1 (looked_up ∷ []) 0
      (ok (Databases.new_cluster database ∷ []), 1) half_read-listed half_read-Ends

abbrev node : ApiNode
node = record { id = "n1"; name = "one"; droplet_id = "7"; status = some "running" }

abbrev pool : ApiPool
pool = record {
  id = "p1";
  name = "workers";
  size = "s";
  count = 3;
  auto_scale = false;
  min_nodes = 0;
  max_nodes = 0;
  nodes = some node ∷ none ∷ some (record node { id = "n2"; status = none }) ∷ [];
}

abbrev cluster : ApiCluster
cluster = record {
  id = "k1";
  name = "prod";
  region_slug = "fra1";
  version_slug = "1.30";
  auto_upgrade = true;
  surge_upgrade = false;
  ha = false;
  registry_enabled = true;
  status = some "running";
  maintenance_policy = none;
  node_pools = pool ∷ [];
  tags = [];
}

-- The lookup of the versions fails, while there is time.
abbrev kubernetes : Kubernetes.Client ℕ ℕ
kubernetes = record {
  ctx_err = λ w. none;
  list = record nobody { list = λ opts w. (ok (cluster ∷ [], none), suc w) };
  get_upgrades = λ id w. (err (opaque "500"), suc w);
}

kept_computed :
    Kubernetes.Refresh.refresh kubernetes everything true 1 [] 0
    ≡ some (none, Kubernetes.new_cluster cluster ∷ [], 2)
unfolding Kubernetes.Refresh.refresh all keep_new
kept_computed = refl

documented : Distinct known_replica_statuses
documented = (refl, (refl, (refl, (refl, (refl, tt)))))

abbrev degraded : String
degraded = "degraded"

one_hot-Singled_example :
    (degraded ≢ ""
      → (Singled "s"
            ("id" ∷ [])
            degraded
            known_replica_statuses
            (one_hot "s" ("id" ∷ []) known_replica_statuses degraded)
          × (contains known_replica_statuses degraded ≡ true))
        ⊎ (Singled "s"
              ("id" ∷ [])
              degraded
              (known_replica_statuses ++ degraded ∷ [])
              (one_hot "s" ("id" ∷ []) known_replica_statuses degraded)
            × (contains known_replica_statuses degraded ≡ false)))
    × (degraded ≡ ""
        → contains known_replica_statuses degraded ≡ false
        → one_hot "s" ("id" ∷ []) known_replica_statuses degraded
          ≡ map (zero_series "s" ("id" ∷ [])) known_replica_statuses)
one_hot-Singled_example = one_hot-Singled "s" ("id" ∷ []) degraded known_replica_statuses documented

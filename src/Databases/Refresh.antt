-- ===== src/Databases/Refresh.antt =====
-- The lookups, `Refresh` and `Collect` of internal/collector/databases/databases.go.
use digitalocean_exporter.Base.{
  ℕ, nat_eq, ℤ, String, string_eq, Bool, true, Option, none, some, List, [], ◌∷◌, ◌++◌, map,
  GoError, Result, ok, err, length, if◌then◌else◌,
}
use digitalocean_exporter.Base.Int.{ltb_ℤ}
use digitalocean_exporter.Details.{Fields, refresh_after}
use digitalocean_exporter.Filter.{Filter}
use digitalocean_exporter.Metrics.{Gauge, gauge, whole, count}
use digitalocean_exporter.Metrics.Statuses.{one_hot}
use digitalocean_exporter.Paging.{all}
use digitalocean_exporter.Databases.{
  ClusterDetails, ApiReplica, ApiBackup, Replica, Cluster, Client, no_details, list_clusters,
  engine_does_not_offer, online_status,
}

-- `at > d.lastBackup || !d.hasBackup`
abbrev pub newer : Option ℤ → ℤ → Option ℤ
newer none at = some at
newer (some last) at = if ltb_ℤ last at then some at else some last

-- The loop of `lookupDetails` over the backups.
unfoldable pub newest : Option ℤ → List ApiBackup → Option ℤ
newest last [] = last
newest last (b ∷ backups) = newest (newer last b.created_at) backups

module _ {W Links : Type 0} (client : Client W Links) (fuel : ℕ) where
  -- What becomes of an answer for an engine that does not offer the endpoint.
  unfoldable pub offered {ℓ} :
      {A : Type ℓ} → Option (Result (List A) × W) → Option (Result (List A) × W)
  unfolding engine_does_not_offer
  offered none = none
  offered (some (ok xs, w)) = some (ok xs, w)
  offered (some (err e, w)) = some ((if engine_does_not_offer e then ok [] else err e), w)

  abbrev replica_of : ApiReplica → Replica
  replica_of r = record { name = r.name; region = r.region; status = r.status }

  -- `listReplicas`
  unfoldable pub list_replicas : String → W → Option (Result (List Replica) × W)
  unfolding offered
  list_replicas id w =
      elim (offered
        (all "database replicas" (λ (r : ApiReplica). r.id) (client.list_replicas id) fuel w)) [
          | none ↦ none
          | some (err e, v) ↦ some (err e, v)
          | some (ok page, v) ↦ some (ok (map replica_of page), v)
        ]

  -- `listBackups`
  unfoldable pub list_backups : String → W → Option (Result (List ApiBackup) × W)
  unfolding offered
  list_backups id w = offered (
      all "database backups" (λ (b : ApiBackup). b.created_at_text) (client.list_backups id) fuel w)

  -- `lookupDetails`
  unfoldable pub lookup_details : String → W → Option (Result ClusterDetails × W)
  unfolding list_replicas list_backups newest
  lookup_details id w = elim (list_replicas id w) [
    | none ↦ none
    | some (err e, v) ↦ some (err e, v)
    | some (ok replicas, v) ↦ elim (list_backups id v) [
      | none ↦ none
      | some (err e, u) ↦ some (err e, u)
      | some (ok backups, u) ↦
          some (
            ok (record { known = true; replicas = replicas; last_backup = newest none backups }),
            u,
          )
    ]
  ]

abbrev pub fields : Fields Cluster ClusterDetails
fields = record {
  id = λ (cl : Cluster). cl.id;
  details = λ (cl : Cluster). cl.details;
  with_details = λ (d : ClusterDetails) (cl : Cluster). record cl { details = d };
  nothing = no_details;
}

module _ {W Links : Type 0} (client : Client W Links) (f : Filter) (ask_details : Bool) where
  -- `Refresh`
  unfoldable pub refresh : ℕ → List Cluster → W → Option (Option GoError × List Cluster × W)
  unfolding list_clusters refresh_after lookup_details
  refresh fuel snap w =
      refresh_after fields client.ctx_err (lookup_details client fuel) ask_details snap
        (list_clusters client f fuel w)

abbrev pub known_replica_statuses : List String
known_replica_statuses = "creating" ∷ online_status ∷ "resizing" ∷ "migrating" ∷ "forking" ∷ []

-- `collectReplica`
unfoldable pub collect_replica : Cluster → Replica → List Gauge
unfolding one_hot
collect_replica db r =
    one_hot "digitalocean_database_replica_status" (db.id ∷ db.name ∷ r.name ∷ r.region ∷ [])
      known_replica_statuses r.status

unfoldable pub collect_replicas : Cluster → List Replica → List Gauge
unfolding collect_replica
collect_replicas db [] = []
collect_replicas db (r ∷ rs) = collect_replica db r ++ collect_replicas db rs

abbrev backup_gauge : Cluster → Option ℤ → List Gauge
backup_gauge db none = []
backup_gauge db (some at) =
    gauge "digitalocean_database_last_backup_timestamp_seconds" (whole at)
      (db.id ∷ db.name ∷ db.region ∷ [])
    ∷ []

-- `collectDetails`
unfoldable pub collect_details : Cluster → List Gauge
unfolding collect_replicas
collect_details db =
    if db.details.known
    then gauge "digitalocean_database_replicas" (count (length db.details.replicas))
          (db.id ∷ db.name ∷ db.region ∷ [])
        ∷ collect_replicas db db.details.replicas
      ++ backup_gauge db db.details.last_backup
    else []

-- `Collect`
unfoldable pub collect : List Cluster → List Gauge
unfolding collect_details
collect [] = []
collect (db ∷ snap) =
    let full = db.id ∷ db.name ∷ db.region ∷ db.size ∷ db.engine ∷ db.version ∷ [] in
    let short = db.id ∷ db.name ∷ db.region ∷ [] in
    gauge "digitalocean_database_status" db.online full
      ∷ gauge "digitalocean_database_nodes" db.nodes full
      ∷ gauge "digitalocean_database_storage_bytes" db.storage short
      ∷ gauge "digitalocean_database_maintenance_pending" db.maintenance short
      ∷ gauge "digitalocean_database_users" db.users short
      ∷ gauge "digitalocean_database_databases" db.logical short
      ∷ gauge "digitalocean_database_storage_autoscale_enabled" db.autoscale short
      ∷ gauge "digitalocean_database_cluster_info" (count 1)
          (db.id ∷ db.name ∷ db.region ∷ db.project_id ∷ db.private_network_uuid ∷ [])
      ∷ collect_details db
    ++ collect snap

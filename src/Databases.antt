-- ===== src/Databases.antt =====
-- internal/collector/databases/databases.go: the managed database clusters, the walk over their list, and
-- the lookups of their replicas and backups.
--
-- godo is the parameter `Client`; a call takes the state of the world and returns the next one. The list
-- of clusters has its own walk, which takes fuel, one unit for each page, and `none` is a walk that is
-- not finished yet. Texts of the log are left out.
pub mod Refresh
pub mod Listing
pub mod Served
pub mod Newest
use digitalocean_exporter.Base.{
  ℕ, zero, suc, ◌+◌, ◌*◌, nat_eq, ltb, ℤ, String, string_eq, Bool, true, false, ◌||◌, ◌==◌, Option,
  none, some, List, [], ◌∷◌, ◌++◌, map, GoError, wrap, as_api_error, Result, ok, err, length,
  contains, if◌then◌else◌,
}
use digitalocean_exporter.Base.Int.{ltb_ℤ}
use digitalocean_exporter.Filter.{Filter, matches}
use digitalocean_exporter.Metrics.{Value, count, bool_value}
use digitalocean_exporter.Paging.{Api, ListOptions, all}
use digitalocean_exporter.Text.{equal_fold}

abbrev pub databases_per_page : ℕ
databases_per_page = 200

abbrev pub bytes_per_mebibyte : ℕ
bytes_per_mebibyte = 1024 * 1024

abbrev pub online_status : String
online_status = "online"

-- godo.Database, as much of it as the collector reads; the window's `Pending`, the autoscaling's
-- `Enabled`, and the lengths of two lists.
pub record ApiDatabase : Type 0 where
  pub id : String
  pub name : String
  pub region_slug : String
  pub size_slug : String
  pub engine_slug : String
  pub version_slug : String
  pub project_id : String
  pub private_network_uuid : String
  pub status : String
  pub num_nodes : ℕ
  pub storage_size_mib : ℕ
  pub users : List String
  pub db_names : List String
  pub maintenance_window : Option Bool
  pub storage_autoscale : Option Bool
  pub tags : List String

-- godo.DatabaseReplica
pub record ApiReplica : Type 0 where
  pub id : String
  pub name : String
  pub region : String
  pub status : String

-- godo.DatabaseBackup, by its time in Unix seconds and as a text.
pub record ApiBackup : Type 0 where
  pub created_at : ℤ
  pub created_at_text : String

pub record Replica : Type 0 where
  pub name : String
  pub region : String
  pub status : String

-- `details`; `last_backup` is `hasBackup` and `lastBackup`.
pub record ClusterDetails : Type 0 where
  pub known : Bool
  pub replicas : List Replica
  pub last_backup : Option ℤ

-- `cluster`
pub record Cluster : Type 0 where
  pub id : String
  pub name : String
  pub region : String
  pub size : String
  pub engine : String
  pub version : String
  pub project_id : String
  pub private_network_uuid : String
  pub online : Value
  pub nodes : Value
  pub storage : Value
  pub maintenance : Value
  pub users : Value
  pub logical : Value
  pub autoscale : Value
  pub details : ClusterDetails

abbrev pub no_details : ClusterDetails
no_details = record { known = false; replicas = []; last_backup = none }

-- A flag that the API leaves out is 0.
abbrev flag_value : Option Bool → Value
flag_value none = count 0
flag_value (some b) = bool_value b

-- `newCluster`
unfoldable pub new_cluster : ApiDatabase → Cluster
unfolding equal_fold
new_cluster db = record {
  id = db.id;
  name = db.name;
  region = db.region_slug;
  size = db.size_slug;
  engine = db.engine_slug;
  version = db.version_slug;
  project_id = db.project_id;
  private_network_uuid = db.private_network_uuid;
  online = bool_value (equal_fold db.status online_status);
  nodes = count db.num_nodes;
  storage = count (db.storage_size_mib * bytes_per_mebibyte);
  users = count (length db.users);
  logical = count (length db.db_names);
  maintenance = flag_value db.maintenance_window;
  autoscale = flag_value db.storage_autoscale;
  details = no_details;
}

pub record Client (W Links : Type 0) : Type 0 where
  pub ctx_err : W → Option GoError
  pub list : ListOptions → W → Result (List ApiDatabase) × W
  pub list_replicas : String → Api ApiReplica W Links
  pub list_backups : String → Api ApiBackup W Links

-- What the loop of `listClusters` carries, with `repeated` of the page at hand.
pub record Scan : Type 0 where
  pub next : List Cluster
  pub seen : List String
  pub repeated : Bool

-- What a cluster that was not seen before adds.
abbrev pub marked : Filter → ApiDatabase → Scan → Scan
marked f db s = record s {
  seen = db.id ∷ s.seen;
  next = if matches f db.tags db.region_slug then s.next ++ new_cluster db ∷ [] else s.next;
}

-- The inner loop over one page.
unfoldable pub scan : Filter → List ApiDatabase → Scan → Scan
unfolding matches new_cluster
scan f [] s = s
scan f (db ∷ page) s =
    let rest = scan f page (marked f db s) in
    if contains s.seen db.id then record s { repeated = true } else rest

abbrev pub first_options : ListOptions
first_options = record { page = 1; per_page = databases_per_page }

abbrev pub nothing_seen : Scan
nothing_seen = record { next = []; seen = []; repeated = false }

module _ {W Links : Type 0} (client : Client W Links) (f : Filter) where
  -- The loop of `listClusters`.
  unfoldable pub clusters_from : ℕ → ListOptions → Scan → W → Option (Result (List Cluster) × W)
  unfolding scan
  clusters_from zero opts s w = none
  clusters_from (suc fuel) opts s w =
      let (got, v) = client.list opts w in
      elim got [
        | err e ↦ some (err (wrap "list databases" e), v)
        | ok page ↦
            let t = scan f page s in
            elim (t.repeated || ltb (length page) databases_per_page) [
              | true ↦ some (ok t.next, v)
              | false ↦ clusters_from fuel (record opts { page = opts.page + 1 }) t v
            ]
      ]

  -- `listClusters`
  unfoldable pub list_clusters : ℕ → W → Option (Result (List Cluster) × W)
  unfolding clusters_from
  list_clusters fuel w = clusters_from fuel first_options nothing_seen w

-- `engineDoesNotOffer`
unfoldable pub engine_does_not_offer : GoError → Bool
unfolding as_api_error
engine_does_not_offer e = elim (as_api_error e) [
  | none ↦ false
  | some none ↦ false
  | some (some status) ↦ status == 400 || status == 404 || status == 412
]

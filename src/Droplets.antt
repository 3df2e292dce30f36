-- ===== src/Droplets.antt =====
-- internal/collector/droplets/droplets.go: the droplets of the account.
--
-- `parse_time` is `time.Parse(time.RFC3339, text)`, by the Unix seconds of the time. The prices that the API
-- gives as a float64 are kept as their texts.
pub mod Narrow
use digitalocean_exporter.Base.{
  ℕ, ℤ, pos, ◌*◌, String, string_eq, nat_eq, Bool, true, false, ◌==◌, Option, none, some, List, [],
  ◌∷◌, ◌++◌, map, keep, contains, GoError, if◌then◌else◌,
}
use digitalocean_exporter.Filter.{Filter, matches, single_tag}
use digitalocean_exporter.Listing.{refresh_list}
use digitalocean_exporter.Metrics.{
  Value, Gauge, gauge, given, count, bool_value, for_each, known_gauge,
}
use digitalocean_exporter.Paging.{Api}
use digitalocean_exporter.Text.{itoa, sorted_label}

abbrev pub bytes_per_mebibyte : ℕ
bytes_per_mebibyte = 1024 * 1024

abbrev pub bytes_per_gibibyte : ℕ
bytes_per_gibibyte = 1024 * 1024 * 1024

abbrev pub active_status : String
active_status = "active"

abbrev pub backups_feature : String
backups_feature = "backups"

abbrev pub monitoring_feature : String
monitoring_feature = "monitoring"

-- godo.Image, by the fields that are read.
pub record ApiImage : Type 0 where
  pub slug : String
  pub name : String

-- godo.Size, by the fields that are read.
pub record ApiSize : Type 0 where
  pub slug : String
  pub price_hourly : String
  pub price_monthly : String

-- godo.Droplet, by the fields that are read.
pub record ApiDroplet : Type 0 where
  pub id : ℕ
  pub name : String
  pub region : Option String
  pub size : Option ApiSize
  pub status : String
  pub image : Option ApiImage
  pub vpc_uuid : String
  pub tags : List String
  pub vcpus : ℕ
  pub memory : ℕ
  pub disk : ℕ
  pub features : List String
  pub created : String

-- `droplet`; `created` is `created` and `createdAt`.
pub record Droplet : Type 0 where
  pub id : String
  pub name : String
  pub region : String
  pub size : String
  pub status : String
  pub image : String
  pub vpc_uuid : String
  pub tags : String
  pub up : Bool
  pub cpus : ℕ
  pub memory : ℕ
  pub disk : ℕ
  pub price_hourly : Value
  pub price_monthly : Value
  pub backups : Bool
  pub monitoring_agent : Bool
  pub created : Option ℤ

-- `regionSlug`
unfoldable pub region_slug : ApiDroplet → String
region_slug d = elim d.region [ none ↦ "" | some slug ↦ slug ]

-- `imageName`
unfoldable pub image_name : Option ApiImage → String
image_name none = ""
image_name (some image) = if image.slug == "" then image.name else image.slug

-- The last part of `newDroplet`, what the size says.
abbrev with_size : Option ApiSize → Droplet → Droplet
with_size none out = out
with_size (some size) out = record out {
  size = size.slug;
  price_hourly = given size.price_hourly;
  price_monthly = given size.price_monthly;
}

abbrev pub by_tag :
    {W Links : Type 0}
    → Api ApiDroplet W Links
    → (String → Api ApiDroplet W Links)
    → Option String
    → Api ApiDroplet W Links
by_tag list list_by_tag none = list
by_tag list list_by_tag (some tag) = list_by_tag tag

-- `listing`
unfoldable pub listing :
    {W Links : Type 0}
    → Api ApiDroplet W Links
    → (String → Api ApiDroplet W Links)
    → Filter
    → Api ApiDroplet W Links
unfolding single_tag
listing list list_by_tag f = by_tag list list_by_tag (single_tag f)

module _ (parse_time : String → Option ℤ) where
  -- `newDroplet`
  unfoldable pub new_droplet : ApiDroplet → Droplet
  unfolding region_slug itoa image_name sorted_label
  new_droplet d = with_size d.size (record {
    id = itoa (pos d.id);
    name = d.name;
    region = region_slug d;
    size = "";
    status = d.status;
    image = image_name d.image;
    vpc_uuid = d.vpc_uuid;
    tags = sorted_label d.tags;
    up = d.status == active_status;
    cpus = d.vcpus;
    memory = d.memory * bytes_per_mebibyte;
    disk = d.disk * bytes_per_gibibyte;
    price_hourly = count 0;
    price_monthly = count 0;
    backups = contains d.features backups_feature;
    monitoring_agent = contains d.features monitoring_feature;
    created = parse_time d.created;
  })

  -- The loop of `Refresh`.
  unfoldable pub droplets_of : Filter → List ApiDroplet → List Droplet
  unfolding matches new_droplet
  droplets_of f ds =
      map new_droplet (keep (λ (d : ApiDroplet). matches f d.tags (region_slug d)) ds)

  -- `Refresh`; `list` and `list_by_tag` are the two listings of the client.
  unfoldable pub refresh :
      {W Links : Type 0}
      → Api ApiDroplet W Links
      → (String → Api ApiDroplet W Links)
      → Filter
      → ℕ
      → List Droplet
      → W
      → Option (Option GoError × List Droplet × W)
  unfolding listing droplets_of refresh_list
  refresh list list_by_tag f fuel snap w =
      refresh_list "droplets" (λ (d : ApiDroplet). d.id) (droplets_of f)
        (listing list list_by_tag f) fuel snap w

-- One turn of the loop of `Collect`.
abbrev collect_one : Droplet → List Gauge
collect_one d =
    let labels = d.id ∷ d.name ∷ d.region ∷ [] in
    gauge "digitalocean_droplet_up" (bool_value d.up) labels
      ∷ gauge "digitalocean_droplet_cpus" (count d.cpus) labels
      ∷ gauge "digitalocean_droplet_memory_bytes" (count d.memory) labels
      ∷ gauge "digitalocean_droplet_disk_bytes" (count d.disk) labels
      ∷ gauge "digitalocean_droplet_price_hourly" d.price_hourly labels
      ∷ gauge "digitalocean_droplet_price_monthly" d.price_monthly labels
      ∷ gauge "digitalocean_droplet_backups_enabled" (bool_value d.backups) labels
      ∷ gauge "digitalocean_droplet_monitoring_agent" (bool_value d.monitoring_agent) labels
      ∷ known_gauge "digitalocean_droplet_created_timestamp_seconds" d.created labels
    ++ gauge "digitalocean_droplet_info" (count 1)
        (labels ++ d.size ∷ d.status ∷ d.image ∷ d.vpc_uuid ∷ d.tags ∷ [])
      ∷ []

-- `Collect`
unfoldable pub collect : List Droplet → List Gauge
unfolding for_each
collect snap = for_each collect_one snap

-- ===== src/Images.antt =====
-- internal/collector/images/images.go: the private images, and how many there are of each type.
--
-- `parse_time` is `time.Parse(time.RFC3339, text)`, by the Unix seconds of the time. The size that the API
-- gives as a float64 is kept as its text. The map of the counts is an association list, and `Collect` takes
-- the order of that list for the map's.
pub mod Counts
use digitalocean_exporter.Base.{
  ℕ, ℤ, pos, ◌*◌, String, string_eq, nat_eq, Option, none, some, List, [], ◌∷◌, ◌++◌, map, GoError,
  length,
}
use digitalocean_exporter.Base.Assoc.{Assoc, lookup, insert}
use digitalocean_exporter.Base.Tally.{bump, tally}
use digitalocean_exporter.Listing.{refresh_list}
use digitalocean_exporter.Metrics.{
  Value, Gauge, gauge, whole, given, times, count, for_each, known_gauge,
}
use digitalocean_exporter.Paging.{Api}
use digitalocean_exporter.Text.{itoa, sorted_label}

abbrev pub bytes_per_gibibyte : ℕ
bytes_per_gibibyte = 1024 * 1024 * 1024

abbrev pub known_types : List String
known_types = "snapshot" ∷ "backup" ∷ "custom" ∷ []

-- godo.Image
pub record ApiImage : Type 0 where
  pub id : ℕ
  pub name : String
  pub type_ : String
  pub distribution : String
  pub status : String
  pub regions : List String
  pub size_gigabytes : String
  pub min_disk_size : ℕ
  pub created : String

-- `image`; `created` is `created` and `createdAt`.
pub record Image : Type 0 where
  pub id : String
  pub name : String
  pub kind : String
  pub distribution : String
  pub status : String
  pub regions : String
  pub size : Value
  pub min_disk : Value
  pub created : Option ℤ

pub record Snapshot : Type 0 where
  pub images : List Image
  pub counts : Assoc String ℕ

-- The loop of `Refresh` over the known types.
unfoldable pub zeros : List String → Assoc String ℕ → Assoc String ℕ
zeros [] counts = counts
zeros (kind ∷ kinds) counts = zeros kinds (insert kind 0 counts)

module _ (parse_time : String → Option ℤ) where
  -- `newImage`
  unfoldable pub new_image : ApiImage → Image
  unfolding itoa sorted_label
  new_image i = record {
    id = itoa (pos i.id);
    name = i.name;
    kind = i.type_;
    distribution = i.distribution;
    status = i.status;
    regions = sorted_label i.regions;
    size = times (given i.size_gigabytes) bytes_per_gibibyte;
    min_disk = count (i.min_disk_size * bytes_per_gibibyte);
    created = parse_time i.created;
  }

  -- One turn of the loop of `Refresh` over the images.
  abbrev pub add_image : ApiImage → Snapshot → Snapshot
  add_image i next =
      let img = new_image i in
      record next { images = next.images ++ img ∷ []; counts = bump img.kind next.counts }

  unfoldable pub add_images : List ApiImage → Snapshot → Snapshot
  unfolding new_image bump
  add_images [] next = next
  add_images (i ∷ is) next = add_images is (add_image i next)

  unfoldable pub snapshot_of : List ApiImage → Snapshot
  unfolding zeros add_images
  snapshot_of listed = add_images listed (record { images = []; counts = zeros known_types [] })

  -- `Refresh`; the snapshot is none before the first success.
  unfoldable pub refresh :
      {W Links : Type 0}
      → Api ApiImage W Links
      → ℕ
      → Option Snapshot
      → W
      → Option (Option GoError × Option Snapshot × W)
  unfolding snapshot_of refresh_list
  refresh list fuel snap w =
      refresh_list "images" (λ (i : ApiImage). i.id) (λ listed. some (snapshot_of listed)) list fuel
        snap w

abbrev image_gauges : Image → List Gauge
image_gauges i =
    let labels = i.id ∷ i.name ∷ i.kind ∷ [] in
    gauge "digitalocean_image_size_bytes" i.size labels
      ∷ gauge "digitalocean_image_min_disk_size_bytes" i.min_disk labels
      ∷ known_gauge "digitalocean_image_created_timestamp_seconds" i.created labels
    ++ gauge "digitalocean_image_info" (count 1)
        (labels ++ i.distribution ∷ i.status ∷ i.regions ∷ [])
      ∷ []

abbrev count_gauge : String × ℕ → List Gauge
count_gauge entry = gauge "digitalocean_images" (count entry.1) (entry.0 ∷ []) ∷ []

-- `Collect`
unfoldable pub collect : Option Snapshot → List Gauge
unfolding for_each
collect none = []
collect (some snap) = for_each image_gauges snap.images ++ for_each count_gauge snap.counts

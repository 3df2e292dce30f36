-- ===== src/Volumes.antt =====
-- internal/collector/volumes/volumes.go and internal/collector/domains/domains.go: two collectors that
-- read one list and keep what it says until the next refresh.
--
-- The listing of the client is the parameter `list`, as in Paging, and the fuel is that of the walk.
-- Sizes and counts are natural numbers; their conversion to float64 is left out.
pub mod Refresh
use digitalocean_exporter.Base.{
  ℕ, ◌*◌, String, string_eq, Bool, true, false, Option, none, some, List, [], ◌∷◌, ◌++◌, GoError,
  Result, ok, err, length, if◌then◌else◌,
}
use digitalocean_exporter.Filter.{Filter, matches}
use digitalocean_exporter.Listing.{refresh_list}
use digitalocean_exporter.Metrics.{Gauge, count}
use digitalocean_exporter.Paging.{Api}

-- godo.Volume, as much of it as the collector reads.
pub record ApiVolume : Type 0 where
  pub id : String
  pub name : String
  pub region : Option String
  pub size_gigabytes : ℕ
  pub droplet_ids : List ℕ
  pub tags : List String
  pub filesystem_type : String
  pub filesystem_label : String

pub record Volume : Type 0 where
  pub id : String
  pub name : String
  pub region : String
  pub filesystem_type : String
  pub filesystem_label : String
  pub size : ℕ
  pub droplets : ℕ

abbrev pub bytes_per_gibibyte : ℕ
bytes_per_gibibyte = 1024 * 1024 * 1024

-- `regionSlug`
unfoldable pub region_slug : ApiVolume → String
region_slug v = elim v.region [ none ↦ "" | some slug ↦ slug ]

-- `newVolume`
unfoldable pub new_volume : ApiVolume → Volume
unfolding region_slug
new_volume v = record {
  id = v.id;
  name = v.name;
  region = region_slug v;
  filesystem_type = v.filesystem_type;
  filesystem_label = v.filesystem_label;
  size = v.size_gigabytes * bytes_per_gibibyte;
  droplets = length v.droplet_ids;
}

-- The loop of `Refresh`.
unfoldable pub volumes_of : Filter → List ApiVolume → List Volume
unfolding matches region_slug new_volume
volumes_of f [] = []
volumes_of f (v ∷ vs) =
    let rest = volumes_of f vs in
    if matches f v.tags (region_slug v) then new_volume v ∷ rest else rest

-- `Collect`
unfoldable pub collect : List Volume → List Gauge
collect [] = []
collect (v ∷ snap) =
    record {
      desc = "digitalocean_volume_size_bytes";
      value = count v.size;
      labels = v.id ∷ v.name ∷ v.region ∷ [];
    }
    ∷ record {
      desc = "digitalocean_volume_droplets";
      value = count v.droplets;
      labels = v.id ∷ v.name ∷ v.region ∷ [];
    }
    ∷ record {
      desc = "digitalocean_volume_info";
      value = count 1;
      labels = v.id ∷ v.name ∷ v.region ∷ v.filesystem_type ∷ v.filesystem_label ∷ [];
    }
    ∷ collect snap

-- godo.Domain
pub record ApiDomain : Type 0 where
  pub name : String
  pub ttl : ℕ

pub record Domain : Type 0 where
  pub name : String
  pub ttl : ℕ

-- The loop of the domains collector's `Refresh`.
unfoldable pub domains_of : List ApiDomain → List Domain
domains_of [] = []
domains_of (z ∷ zones) = record { name = z.name; ttl = z.ttl } ∷ domains_of zones

-- The domains collector's `Collect`
unfoldable pub collect_domains : List Domain → List Gauge
collect_domains [] = []
collect_domains (d ∷ snap) =
    record { desc = "digitalocean_domain_ttl_seconds"; value = count d.ttl; labels = d.name ∷ [] }
    ∷ collect_domains snap

module _ {W Links : Type 0} where
  -- `Refresh`: the error, the snapshot and the world after it.
  unfoldable pub refresh_volumes :
      Api ApiVolume W Links
      → Filter
      → ℕ
      → List Volume
      → W
      → Option (Option GoError × List Volume × W)
  unfolding volumes_of refresh_list
  refresh_volumes list f fuel snap w =
      refresh_list "volumes" (λ (v : ApiVolume). v.id) (volumes_of f) list fuel snap w

  -- The domains collector's `Refresh`.
  unfoldable pub refresh_domains :
      Api ApiDomain W Links → ℕ → List Domain → W → Option (Option GoError × List Domain × W)
  unfolding domains_of refresh_list
  refresh_domains list fuel snap w =
      refresh_list "domains" (λ (d : ApiDomain). d.name) domains_of list fuel snap w

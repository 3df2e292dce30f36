-- ===== src/Tags.antt =====
-- internal/collector/tags/tags.go: how many resources of each type carry a tag.
--
-- A count that the API leaves out is `none`; the conversion of counts to float64 is left out.
use digitalocean_exporter.Base.{
  ℕ, String, string_eq, Option, none, some, List, [], ◌∷◌, ◌++◌, map, GoError,
}
use digitalocean_exporter.Paging.{Api}
use digitalocean_exporter.Metrics
use digitalocean_exporter.Metrics.{Gauge}
use digitalocean_exporter.Listing.{refresh_list}

-- godo.TaggedResources, by the counts that the collector reads.
pub record Resources : Type 0 where
  pub droplets : Option ℕ
  pub images : Option ℕ
  pub volumes : Option ℕ
  pub volume_snapshots : Option ℕ
  pub databases : Option ℕ

-- godo.Tag
pub record ApiTag : Type 0 where
  pub name : String
  pub resources : Option Resources

pub record TypeCount : Type 0 where
  pub resource_type : String
  pub count : ℕ

pub record Tag : Type 0 where
  pub name : String
  pub counts : List TypeCount

-- One `if` of `newTag`.
abbrev pub counted : String → Option ℕ → List TypeCount
counted resource_type none = []
counted resource_type (some n) = record { resource_type = resource_type; count = n } ∷ []

unfoldable pub counts_of : Option Resources → List TypeCount
counts_of none = []
counts_of (some r) =
    counted "droplet" r.droplets
    ++ counted "image" r.images
    ++ counted "volume" r.volumes
    ++ counted "volume_snapshot" r.volume_snapshots
    ++ counted "database" r.databases

-- `newTag`
unfoldable pub new_tag : ApiTag → Tag
unfolding counts_of
new_tag t = record { name = t.name; counts = counts_of t.resources }

-- `Collect`
unfoldable pub tag_gauges : String → List TypeCount → List Gauge
tag_gauges name [] = []
tag_gauges name (c ∷ counts) =
    record {
      desc = "digitalocean_tag_resources";
      value = Metrics.count c.count;
      labels = name ∷ c.resource_type ∷ [];
    }
    ∷ tag_gauges name counts

unfoldable pub collect_tags : List Tag → List Gauge
unfolding tag_gauges
collect_tags [] = []
collect_tags (t ∷ snap) = tag_gauges t.name t.counts ++ collect_tags snap

-- `Refresh`: the error, the snapshot and the world after it.
unfoldable pub refresh_tags :
    {W Links : Type 0}
    → Api ApiTag W Links
    → ℕ
    → List Tag
    → W
    → Option (Option GoError × List Tag × W)
unfolding new_tag refresh_list
refresh_tags list fuel snap w =
    refresh_list "tags" (λ (t : ApiTag). t.name) (map new_tag) list fuel snap w

-- ===== src/Tests/Buckets.antt =====
-- Two discovered buckets, of which the second cannot be read.
use digitalocean_exporter.Base.{
  ◌≡◌, ◌==◌, string_eq, String, Option, none, some, true, [], ◌∷◌, ok, opaque, pos, refl, contains,
  if◌then◌else◌,
}
use digitalocean_exporter.Base.Assoc.{Assoc, lookup}
use digitalocean_exporter.Spaces.{
  Bucket, bucket_eq, Refused, S3, Settings, Stats, Collector, bucket_usage, resolve_buckets,
  discovering, region_of, measure_all, refresh,
}
use digitalocean_exporter.Spaces.Regions.{proven_region, answered, region_of-refresh}
use digitalocean_exporter.Spaces.Figures.{reported, refresh_figures}

abbrev forbidden : Refused
forbidden = record { status = some 403; error = opaque "403" }

abbrev head : String → String → Option Refused × Assoc String String
head region name =
    if name == "logs"
    then (none, ("x-rgw-object-count", "3") ∷ ("x-rgw-bytes-used", "900") ∷ [])
    else (some forbidden, [])

abbrev s3 : S3
s3 = record {
  list_buckets = λ region. ok (some "logs" ∷ some "media" ∷ []);
  location = λ region name. ok "ams3";
  head = head;
}

abbrev settings : Settings
settings = record { buckets = []; region = "fra1"; concurrency = pos 4 }

abbrev logs : Bucket
logs = record { name = "logs"; region = "ams3" }

abbrev media : Bucket
media = record { name = "media"; region = "ams3" }

abbrev old : Stats
old = record { size = pos 70; objects = pos 2; up = true; known = true }

abbrev collector : Collector
collector = record { settings = settings; snap = (media, old) ∷ []; located = [] }

listed : resolve_buckets s3 collector ≡ ok (logs ∷ media ∷ [])
unfolding resolve_buckets lookup
listed = refl

region_of-refresh_example : region_of s3 (refresh s3 collector).1 "media" ≡ (
    if discovering collector
    then (elim (proven_region (measure_all s3 (logs ∷ media ∷ [])) "media") [
      | some region ↦ region
      | none ↦ answered s3 collector "media"
    ])
    else region_of s3 collector "media")
region_of-refresh_example = region_of-refresh s3 collector (logs ∷ media ∷ []) "media" listed

refresh_figures_example : lookup media (refresh s3 collector).1.snap ≡ (
    if contains (logs ∷ media ∷ []) media
    then some (reported (bucket_usage s3 "ams3" "media") (lookup media collector.snap))
    else none)
refresh_figures_example = refresh_figures s3 collector (logs ∷ media ∷ []) media listed

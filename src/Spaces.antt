-- ===== src/Spaces.antt =====
-- internal/collector/spaces/spaces.go and internal/spacesclient: the buckets of Spaces, discovered or
-- configured, and where each was last measured.
--
-- The S3 client is the parameter `S3`. A refresh locates and measures a bucket at most once for each
-- time that it is listed, so an answer is a function of the bucket. Counts are `int64`; their
-- conversion to float64 is left out.
pub mod Regions
pub mod Figures
use Prim.Native.String.{◌++◌ as str_append}
use digitalocean_exporter.Base.{
  ℕ, suc, ◌+◌, nat_eq, ℤ, pos, String, string_eq, Bool, true, false, not, ◌&&◌, Eq, ◌==◌, Option,
  none, some, List, [], ◌∷◌, ◌++◌, map, GoError, sentinel, opaque, wrap, join, Result, ok, err,
  ◌>>=◌, Sentinel, no_bucket_measured, no_usage, length, keep, ◌≡◌, ◌↔◌, refl, arith, beq_refl,
  if◌then◌else◌,
}
use digitalocean_exporter.Base.Assoc.{Assoc, lookup, insert}
use digitalocean_exporter.Doclient.Backoff.{atoi}

pub record Bucket : Type 0 where
  pub name : String
  pub region : String

abbrev pub same_bucket : Bucket → Bucket → Bool
same_bucket a b = a.name == b.name && a.region == b.region

pub same_bucket_iff : (a b : Bucket) → (same_bucket a b ≡ true) ↔ (a ≡ b)
same_bucket_iff a b = (
  λ h.
      let n : (a.name == b.name) ≡ true = ground arith in
      let r : (a.region == b.region) ≡ true = ground arith in
      let n' = (string_eq.beq_iff a.name b.name).0 n in
      let r' = (string_eq.beq_iff a.region b.region).0 r in rw (n', r'),
  λ h. rw (h, beq_refl b.name, beq_refl b.region),
)

instance abbrev pub bucket_eq : Eq Bucket
bucket_eq = record { beq = same_bucket; beq_iff = same_bucket_iff }

-- `stats`
pub record Stats : Type 0 where
  pub size : ℤ
  pub objects : ℤ
  pub up : Bool
  pub known : Bool

-- spacesclient.Usage
pub record BucketUsage : Type 0 where
  pub objects : ℤ
  pub bytes : ℤ

-- The error of a request, with the status of the response where there is one.
pub record Refused : Type 0 where
  pub error : GoError
  pub status : Option ℕ

-- What the code takes from the S3 clients, each of which is for one region.
pub record S3 : Type 0 where
  pub list_buckets : String → Result (List (Option String))
  pub location : String → String → Result String
  -- the refusal of a HEAD request, or the headers of its response
  pub head : String → String → Option Refused × Assoc String String

pub record Settings : Type 0 where
  pub buckets : List Bucket
  pub region : String
  pub concurrency : ℤ

pub record Collector : Type 0 where
  pub settings : Settings
  pub snap : Assoc Bucket Stats
  pub located : Assoc String String

-- `result`
pub record Measurement : Type 0 where
  pub bucket : Bucket
  pub got : Result BucketUsage

abbrev pub object_count_header : String
object_count_header = "x-rgw-object-count"

abbrev pub bytes_used_header : String
bytes_used_header = "x-rgw-bytes-used"

-- `discovering`
abbrev pub discovering : Collector → Bool
discovering c = elim c.settings.buckets [ [] ↦ true | _ ∷ _ ↦ false ]

-- `usageHeader`; the headers' names are looked up in any case.
unfoldable pub usage_header : Assoc String String → String → Result ℤ
unfolding atoi
usage_header header name = elim (lookup name header) [
  | none ↦ err (wrap name (sentinel no_usage))
  | some raw ↦
      if raw == ""
      then err (wrap name (sentinel no_usage))
      else elim (atoi raw) [ none ↦ err (opaque (str_append "parse " name)) | some n ↦ ok n ]
]

module _ (s3 : S3) where
  abbrev pub refused : String → Refused → GoError
  refused bucket r = elim r.status [
    | none ↦ wrap (str_append "head bucket " bucket) r.error
    | some n ↦
        if n == 403
        then wrap (str_append "head bucket, no read grant or an invalid key pair: " bucket) r.error
        else wrap (str_append "head bucket " bucket) r.error
  ]

  -- `BucketUsage`
  unfoldable pub bucket_usage : String → String → Result BucketUsage
  unfolding usage_header
  bucket_usage region bucket =
      let (failed, header) = s3.head region bucket in
      elim failed [
        | some r ↦ err (refused bucket r)
        | none ↦ do
          objects ← usage_header header object_count_header
          bytes ← usage_header header bytes_used_header
          ok (record { objects = objects; bytes = bytes })
      ]

  -- What `locate` makes of the answer.
  abbrev pub located_in : String → String → Result String → Result String
  located_in region name (err e) = err (wrap (str_append "locate bucket " name) e)
  located_in region name (ok found) = ok (if found == "" then region else found)

  -- `locate`
  unfoldable pub locate : String → String → Result String
  locate region name = located_in region name (s3.location region name)

  -- The default region stands for an error of `locate`.
  abbrev pub or_assumed : String → Result String → String
  or_assumed region (ok found) = found
  or_assumed region (err _) = region

  -- `regionOf`, with `cachedRegion`
  unfoldable pub region_of : Collector → String → String
  unfolding locate
  region_of c name = elim (lookup name c.located) [
    | some region ↦ region
    | none ↦ or_assumed c.settings.region (locate c.settings.region name)
  ]

  -- `aws.ToString`
  abbrev pub to_string : Option String → String
  to_string none = ""
  to_string (some s) = s

  abbrev pub located_bucket : Collector → Option String → Bucket
  located_bucket c name = record { name = to_string name; region = region_of c (to_string name) }

  -- `discover`
  unfoldable pub discover : Collector → Result (List Bucket)
  unfolding region_of
  discover c = elim (s3.list_buckets c.settings.region) [
    | err e ↦ err (wrap "list buckets" e)
    | ok listed ↦ ok (map (located_bucket c) listed)
  ]

  abbrev pub with_default : String → Bucket → Bucket
  with_default region b = if b.region == "" then record b { region = region } else b

  -- `resolveBuckets`
  unfoldable pub resolve_buckets : Collector → Result (List Bucket)
  unfolding discover
  resolve_buckets c =
      if discovering c
      then discover c
      else ok (map (with_default c.settings.region) c.settings.buckets)

  -- `measureAll`
  unfoldable pub measure_all : List Bucket → List Measurement
  unfolding bucket_usage
  measure_all buckets =
      map
        (λ b. let m : Measurement = record { bucket = b; got = bucket_usage b.region b.name } in m)
        buckets

-- The loop of `rememberRegions`.
unfoldable pub regions_from : Assoc String String → List Measurement → Assoc String String
regions_from located [] = located
regions_from located (r ∷ rs) =
    regions_from
      (elim r.got [ ok _ ↦ insert r.bucket.name r.bucket.region located | err _ ↦ located ]) rs

-- `rememberRegions`
unfoldable pub remember_regions : List Measurement → Collector → Collector
unfolding regions_from
remember_regions rs c = record c { located = regions_from [] rs }

abbrev pub no_stats : Stats
no_stats = record { size = pos 0; objects = pos 0; up = false; known = false }

abbrev pub or_no_stats : Option Stats → Stats
or_no_stats none = no_stats
or_no_stats (some s) = s

-- What one turn of the loop of `merge` writes.
abbrev pub stats_of : Assoc Bucket Stats → Measurement → Stats
stats_of snap r = elim r.got [
  | ok usage ↦ record { size = usage.bytes; objects = usage.objects; up = true; known = true }
  | err _ ↦ record (or_no_stats (lookup r.bucket snap)) { up = false }
]

unfoldable pub merge_from :
    Assoc Bucket Stats → Assoc Bucket Stats → List Measurement → Assoc Bucket Stats
merge_from snap next [] = next
merge_from snap next (r ∷ rs) = merge_from snap (insert r.bucket (stats_of snap r) next) rs

-- `merge`
unfoldable pub merge : List Measurement → Collector → Collector
unfolding merge_from
merge rs c = record c { snap = merge_from c.snap [] rs }

abbrev pub is_failed : Measurement → Bool
is_failed r = elim r.got [ ok _ ↦ false | err _ ↦ true ]

-- `results[len(results)-1].err`
unfoldable pub last_error : List Measurement → GoError
last_error [] = opaque ""
last_error (r ∷ []) = elim r.got [ ok _ ↦ opaque "<nil>" | err e ↦ e ]
last_error (r ∷ s ∷ rs) = last_error (s ∷ rs)

-- The end of `Refresh`.
unfoldable pub refresh_error : List Measurement → Option GoError
unfolding last_error
refresh_error rs =
    let failed = length (keep is_failed rs) in
    if not (failed == 0) && failed == length rs
    then some (join (sentinel no_bucket_measured) (last_error rs))
    else none

module _ (s3 : S3) where
  abbrev pub measured : Result (List Bucket) → Collector → Option GoError × Collector
  measured (err e) c = (some e, c)
  measured (ok buckets) c =
      let rs = measure_all s3 buckets in
      let merged = merge rs c in
      (refresh_error rs, if discovering c then remember_regions rs merged else merged)

  -- `Refresh`
  unfoldable pub refresh : Collector → Option GoError × Collector
  unfolding resolve_buckets measure_all merge remember_regions refresh_error
  refresh c = measured (resolve_buckets s3 c) c

-- What `Collect` sends: the up gauge of a bucket, and its figures.
pub data Sent : Type 0 where
  up_sent : ℕ → Bucket → Sent
  size_sent objects_sent : ℤ → Bucket → Sent

-- `boolToFloat`
abbrev pub bool_to_float : Bool → ℕ
bool_to_float true = 1
bool_to_float false = 0

-- `Collect`
unfoldable pub collect : Assoc Bucket Stats → List Sent
collect [] = []
collect ((b, s) ∷ snap) =
    let rest = collect snap in
    up_sent (bool_to_float s.up) b
    ∷ (if s.known then size_sent s.size b ∷ objects_sent s.objects b ∷ rest else rest)

-- ===== src/Spaces/Regions.antt =====
-- The cache of regions: a bucket is asked for where it was last measured, and located again otherwise.
use digitalocean_exporter.Base.{
  String, string_eq, ◌==◌, Option, none, some, List, [], ◌∷◌, Result, ok, err, ◌≡◌, refl, ap, ◌∙◌,
  if◌then◌else◌, Bool-cases, Option-cases, inl, inr,
}
use digitalocean_exporter.Base.Assoc.{Assoc, lookup, insert, lookup-insert}
use digitalocean_exporter.Spaces.{
  Bucket, BucketUsage, S3, Collector, Measurement, locate, located_in, or_assumed, region_of,
  regions_from, remember_regions, resolve_buckets, discovering, measure_all, measured, merge,
  refresh,
}

abbrev pub or_else : Option String → Option String → Option String
or_else (some r) x = some r
or_else none x = x

abbrev pub proved : Measurement → String → Option String
proved r name = elim r.got [
  | err _ ↦ none
  | ok _ ↦ if r.bucket.name == name then some r.bucket.region else none
]

-- The region of the last of the results that measured a bucket of this name.
abbrev pub proven_region : List Measurement → String → Option String
proven_region [] name = none
proven_region (r ∷ rs) name = or_else (proven_region rs name) (proved r name)

abbrev remembered : Assoc String String → Bucket → Result BucketUsage → Assoc String String
remembered m b got = elim got [ ok _ ↦ insert b.name b.region m | err _ ↦ m ]

lookup-remembered :
    (m : Assoc String String) (b : Bucket) (got : Result BucketUsage) (name : String)
    → lookup name (remembered m b got)
      ≡ or_else (proved (record { bucket = b; got = got }) name) (lookup name m)
lookup-remembered m b (err e) name = refl
lookup-remembered m b (ok u) name =
    rw (lookup-insert b.name name b.region m)
      (elim (Bool-cases (b.name == name)) [ inl t ↦ rw t | inr f ↦ rw f ])

or_else_assoc : (a b c : Option String) → or_else a (or_else b c) ≡ or_else (or_else a b) c
or_else_assoc (some x) b c = refl
or_else_assoc none b c = refl

or_else-none : (a : Option String) → or_else a none ≡ a
or_else-none (some x) = refl
or_else-none none = refl

lookup-regions_from :
    (m : Assoc String String) (rs : List Measurement) (name : String)
    → lookup name (regions_from m rs) ≡ or_else (proven_region rs name) (lookup name m)
unfolding regions_from
lookup-regions_from m [] name = refl
lookup-regions_from m (r ∷ rs) name =
    lookup-regions_from (remembered m r.bucket r.got) rs name
    ∙ ap (or_else (proven_region rs name)) (lookup-remembered m r.bucket r.got name)
    ∙ or_else_assoc (proven_region rs name) (proved r name) (lookup name m)

-- Where the code asks for a bucket that it lists: the default region stands for no answer, and for the
-- empty one.
abbrev pub found_or : String → Result String → String
found_or region (err _) = region
found_or region (ok found) = if found == "" then region else found

abbrev pub answered : S3 → Collector → String → String
answered s3 c name = found_or c.settings.region (s3.location c.settings.region name)

assumed-located :
    (s3 : S3) (region name : String) (got : Result String)
    → or_assumed s3 region (located_in s3 region name got) ≡ found_or region got
assumed-located s3 region name (ok x) = refl
assumed-located s3 region name (err x) = refl

region_of-looked :
    (s3 : S3) (c : Collector) (name : String)
    → region_of s3 c name
      ≡ (elim (lookup name c.located) [ some region ↦ region | none ↦ answered s3 c name ])
unfolding region_of locate
region_of-looked s3 c name = elim (Option-cases (lookup name c.located)) [
  | inl n ↦
      rw (n, region_of)
        (assumed-located s3 c.settings.region name (s3.location c.settings.region name))
  | inr (r, n) ↦ rw (n, region_of) refl
]

region_of-remember_regions :
    (s3 : S3) (rs : List Measurement) (c : Collector) (name : String)
    → region_of s3 (remember_regions rs c) name
      ≡ (elim (proven_region rs name) [ some region ↦ region | none ↦ answered s3 c name ])
unfolding remember_regions lookup
region_of-remember_regions s3 rs c name =
    region_of-looked s3 (record c { located = regions_from [] rs }) name
    ∙ ap (λ (o : Option String). elim o [ some region ↦ region | none ↦ answered s3 c name ])
        (lookup-regions_from [] rs name ∙ or_else-none (proven_region rs name))

-- After a refresh that has discovered its buckets, one of them is measured in the region where that refresh
-- last measured a bucket of its name. If it measured none, because it failed or was not listed, the bucket
-- is located again, whatever an earlier refresh had remembered. After a refresh that was given its buckets,
-- a bucket's region is what it was before.
pub region_of-refresh :
    (s3 : S3) (c : Collector) (buckets : List Bucket) (name : String)
    → resolve_buckets s3 c ≡ ok buckets
    → region_of s3 (refresh s3 c).1 name ≡ (
        if discovering c
        then (elim (proven_region (measure_all s3 buckets) name) [
          | some region ↦ region
          | none ↦ answered s3 c name
        ])
        else region_of s3 c name)
unfolding refresh merge region_of
region_of-refresh s3 c buckets name got =
    ap (λ x. region_of s3 (measured s3 x c).1 name) got ∙ elim (Bool-cases (discovering c)) [
      | inl on ↦ rw on (region_of-remember_regions s3 (measure_all s3 buckets) c name)
      | inr off ↦ rw off refl
    ]

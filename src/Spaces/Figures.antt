-- ===== src/Spaces/Figures.antt =====
-- The snapshot of the buckets' figures, and when a refresh is an error.
use digitalocean_exporter.Base.{
  ℕ, ◌≤◌, ◌<◌, nat_eq, string_eq, true, false, pos, contains, not, ◌&&◌, ◌==◌, Option, none, some,
  List, [], ◌∷◌, Result, ok, err, ◌≡◌, ◌↔◌, ◌⊎◌, refl, sym, ap, ◌∙◌, arith, if◌then◌else◌, length,
  keep, length-keep-le, Bool-cases, Option-cases, inl, inr, GoError, join, sentinel,
  no_bucket_measured,
}
use digitalocean_exporter.Base.Assoc.{Assoc, lookup, insert, lookup-insert}
use digitalocean_exporter.Spaces.{
  Bucket, bucket_eq, Stats, BucketUsage, S3, Collector, Measurement, bucket_usage, resolve_buckets,
  measure_all, stats_of, merge_from, merge, discovering, remember_regions, is_failed, refresh_error,
  last_error, measured, refresh,
}

-- The last result for this bucket.
abbrev last_of : List Measurement → Bucket → Option Measurement
last_of [] b = none
last_of (r ∷ rs) b =
    let rest = last_of rs b in
    elim rest [ some x ↦ some x | none ↦ if r.bucket == b then some r else none ]

abbrev figures : Assoc Bucket Stats → Option Measurement → Option Stats → Option Stats
figures snap none rest = rest
figures snap (some r) rest = some (stats_of snap r)

lookup-merge_from :
    (snap next : Assoc Bucket Stats) (rs : List Measurement) (b : Bucket)
    → lookup b (merge_from snap next rs) ≡ figures snap (last_of rs b) (lookup b next)
unfolding merge_from
lookup-merge_from snap next [] b = refl
lookup-merge_from snap next (r ∷ rs) b =
    lookup-merge_from snap (insert r.bucket (stats_of snap r) next) rs b
    ∙ elim (Option-cases (last_of rs b)) [
      | inr (x, e) ↦ rw e
      | inl n ↦
          rw (n, lookup-insert r.bucket b (stats_of snap r) next)
            (elim (Bool-cases (r.bucket == b)) [ inl t ↦ rw t | inr f ↦ rw f ])
    ]

lookup-merge :
    (rs : List Measurement) (c : Collector) (b : Bucket)
    → lookup b (merge rs c).snap ≡ figures c.snap (last_of rs b) none
unfolding merge lookup
lookup-merge rs c b = lookup-merge_from c.snap [] rs b

-- What the snapshot says of a bucket: it is up with the figures that were just read, or down with those of
-- the snapshot before, or with none where it had none.
abbrev pub reported : Result BucketUsage → Option Stats → Stats
reported (ok usage) before = record {
  size = usage.bytes;
  objects = usage.objects;
  up = true;
  known = true;
}
reported (err _) none = record { size = pos 0; objects = pos 0; up = false; known = false }
reported (err _) (some old) = record {
  size = old.size;
  objects = old.objects;
  up = false;
  known = old.known;
}

stats_of-reported :
    (snap : Assoc Bucket Stats) (b : Bucket) (got : Result BucketUsage)
    → stats_of snap (record { bucket = b; got = got }) ≡ reported got (lookup b snap)
stats_of-reported snap b (ok usage) = refl
stats_of-reported snap b (err e) = elim (Option-cases (lookup b snap)) [
  | inl n ↦ rw n refl
  | inr (old, n) ↦ rw n refl
]

module _ (s3 : S3) where
  -- The one result for a bucket of the list.
  abbrev result_of : Bucket → Measurement
  result_of b = record { bucket = b; got = bucket_usage s3 b.region b.name }

  last_of-measure_all :
      (buckets : List Bucket) (b : Bucket)
      → last_of (measure_all s3 buckets) b
        ≡ (if contains buckets b then some (result_of b) else none)
  unfolding measure_all
  last_of-measure_all [] b = refl
  last_of-measure_all (x ∷ xs) b =
      let rest = last_of-measure_all xs b in
      elim (Bool-cases (contains xs b)) [
        | inl t ↦
            let found : last_of (measure_all s3 xs) b ≡ some (result_of b) = rest ∙ rw t refl in
            let inside : contains (x ∷ xs) b ≡ true = ground arith in rw (found, inside) refl
        | inr f ↦
            let found : last_of (measure_all s3 xs) b ≡ none = rest ∙ rw f refl in
            elim (Bool-cases (x == b)) [
              | inl t ↦
                  let same : x ≡ b = (bucket_eq.beq_iff x b).0 t in
                  rw (found, t) (ap (λ y. some (result_of y)) same)
              | inr n ↦ rw (found, n, f) refl
            ]
      ]

  snap-measured :
      (c : Collector) (buckets : List Bucket)
      → (measured s3 (ok buckets) c).1.snap ≡ (merge (measure_all s3 buckets) c).snap
  unfolding remember_regions
  snap-measured c buckets = elim (Bool-cases (discovering c)) [
    | inl t ↦ rw t refl
    | inr f ↦ rw f refl
  ]

  -- A refresh that has its buckets leaves a snapshot with exactly those, even where all of them failed: one
  -- whose usage was read is up with its new figures, and one that failed is down with those of the snapshot
  -- before, or with no known figures if it had none. No bucket changes another's, and one that is no longer
  -- listed is gone.
  pub refresh_figures :
      (c : Collector) (buckets : List Bucket) (b : Bucket)
      → resolve_buckets s3 c ≡ ok buckets
      → lookup b (refresh s3 c).1.snap ≡ (
          if contains buckets b
          then some (reported (bucket_usage s3 b.region b.name) (lookup b c.snap))
          else none)
  unfolding refresh
  refresh_figures c buckets b got =
      ap (λ x. lookup b (measured s3 x c).1.snap) got
      ∙ ap (lookup b) (snap-measured c buckets)
      ∙ lookup-merge (measure_all s3 buckets) c b
      ∙ ap (λ o. figures c.snap o none) (last_of-measure_all buckets b)
      ∙ elim (Bool-cases (contains buckets b)) [
        | inl t ↦ rw t (ap some (stats_of-reported c.snap b (bucket_usage s3 b.region b.name)))
        | inr f ↦ rw f refl
      ]

-- A bucket that is up has known figures.
abbrev pub UpIsKnown : Assoc Bucket Stats → Type 0
UpIsKnown snap = (b : Bucket) (s : Stats) → lookup b snap ≡ some s → s.up ≡ true → s.known ≡ true

stats_of-known :
    (snap : Assoc Bucket Stats) (b : Bucket) (got : Result BucketUsage)
    → (stats_of snap (record { bucket = b; got = got })).up ≡ true
    → (stats_of snap (record { bucket = b; got = got })).known ≡ true
stats_of-known snap b (ok u) h = refl
stats_of-known snap b (err e) h = cc

-- Whatever the results are, no bucket is reported up without figures: `Collect` never says that a bucket
-- is measured and leaves out its size.
pub merge-UpIsKnown : (rs : List Measurement) (c : Collector) → UpIsKnown (merge rs c).snap
merge-UpIsKnown rs c b s h u = known (last_of rs b) (sym (lookup-merge rs c b) ∙ h)
  where
    known : (o : Option Measurement) → figures c.snap o none ≡ some s → s.known ≡ true
    known none q = cc
    known (some r) q =
        let e : stats_of c.snap r ≡ s = cc in
        sym (ap (λ (t : Stats). t.known) e)
        ∙ stats_of-known c.snap r.bucket r.got (ap (λ (t : Stats). t.up) e ∙ u)

lt_or_eq : (a b : ℕ) → a ≤ b → (a < b) ⊎ (a ≡ b)
lt_or_eq a b h = omega arith

failed_test :
    (failed n : ℕ) (e : GoError)
    → failed ≤ n
    → ((if not (failed == 0) && failed == n then some e else none) ≡ none)
      ↔ ((n ≡ 0) ⊎ (failed < n))
failed_test failed n e h = (
  λ q. elim (lt_or_eq failed n h) [
    | inl l ↦ inr l
    | inr same ↦ elim (Bool-cases (n == 0)) [
      | inl z ↦ inl ((nat_eq.beq_iff n 0).0 z)
      | inr f ↦ inl (ground arith)
    ]
  ],
  λ q. ground arith,
)

-- A refresh that has its buckets is an error exactly if there are some and every one of them failed.
pub refresh_error-none :
    (rs : List Measurement)
    → (refresh_error rs ≡ none) ↔ ((length rs ≡ 0) ⊎ (length (keep is_failed rs) < length rs))
unfolding refresh_error
refresh_error-none rs =
    failed_test (length (keep is_failed rs)) (length rs)
      (join (sentinel no_bucket_measured) (last_error rs)) (length-keep-le is_failed rs)

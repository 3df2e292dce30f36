-- ===== src/Config/Lists.antt =====
-- `splitList` and `parseBucket`: the environment form of a repeatable flag, and bucket specifications.
use Prim.Native.String.{◌++◌ as str_append}
use text.Mathlib.TextLemmas.{cons-append, nil-append}
use mathlib.Core.List.{append_assoc}
use digitalocean_exporter.Base.{
  String, string_eq, nat_eq, true, List, [], ◌∷◌, ◌++◌, ◌==◌, ◌≡◌, ◌≢◌, refl, arith, All,
  All-append, Bool-cases, inl, inr, ok, beq_ne, ne_of_beq,
}
use digitalocean_exporter.Text.{split, trim_space, cut}
use digitalocean_exporter.Text.Laws.{
  lacks, split-append, split-lacks, trim_space-lacks, cut-append, cut_absent,
}
use digitalocean_exporter.Config.{
  values_of, split_list, region_or, bucket_of, parse_bucket, SpacesBucket,
}

values_of-append : (us vs : List String) → values_of (us ++ vs) ≡ values_of us ++ values_of vs
unfolding values_of
values_of-append [] vs = refl
values_of-append (u ∷ us) vs = elim (Bool-cases (trim_space u == "")) [
  | inl t ↦ rw (t, values_of-append us vs)
  | inr f ↦ rw (f, values_of-append us vs)
]

-- One value with a comma in it means the same as two values: the environment form of a flag asks for
-- what the flag given twice asks for.
pub split_list-comma :
    (a b : String) (raw : List String)
    → split_list (str_append a (str_append "," b) ∷ raw) ≡ split_list (a ∷ b ∷ raw)
unfolding split_list
split_list-comma a b raw = rw (
  cons-append,
  nil-append,
  split-append b',' _ a b refl,
  values_of-append (split b',' a) (split b',' b),
  append_assoc,
)

-- A value that a list of values can hold: it has no comma in it and is not empty.
abbrev pub IsValue : String → Type 0
IsValue v = (lacks b',' v ≡ true) × (v ≢ "")

values_of-IsValue :
    (vs : List String) → All (λ v. lacks b',' v ≡ true) vs → All IsValue (values_of vs)
unfolding values_of
values_of-IsValue [] h = tt
values_of-IsValue (v ∷ vs) h = elim (Bool-cases (trim_space v == "")) [
  | inl t ↦ rw t (values_of-IsValue vs h.1)
  | inr f ↦ rw f (
    (trim_space-lacks b',' v h.0, λ e. ground (arith, string_eq.beq_iff (trim_space v) "")),
    values_of-IsValue vs h.1,
  )
]

-- Every value of a list flag is not empty and has no comma in it.
pub split_list-IsValue : (raw : List String) → All IsValue (split_list raw)
unfolding split_list
split_list-IsValue [] = tt
split_list-IsValue (entry ∷ raw) =
    All-append IsValue (values_of (split b',' entry)) (split_list raw)
      (values_of-IsValue (split b',' entry) (split-lacks b',' entry)) (split_list-IsValue raw)

bucket_of-ok :
    (spec name region : String) (b : SpacesBucket)
    → bucket_of spec name region ≡ ok b
    → (b.name ≢ "") × (b.region ≢ "")
unfolding bucket_of
bucket_of-ok spec name region b h = elim (Bool-cases (name == "")) [
  | inl t ↦ ground arith
  | inr n ↦ elim (Bool-cases (region == "")) [
    | inl t ↦ ground arith
    | inr r ↦
        let e : record { name = name; region = region } ≡ b = ground arith in
        rw (← e) (ne_of_beq name "" n, ne_of_beq region "" r)
  ]
]

bucket_of_valid :
    (spec name region : String)
    → name ≢ ""
    → region ≢ ""
    → bucket_of spec name region ≡ ok (record { name = name; region = region })
unfolding bucket_of
bucket_of_valid spec name region n r = rw (beq_ne name "" n, beq_ne region "" r)

-- A bucket that parses has a name and a region.
pub parse_bucket-ok :
    (spec default_region : String) (b : SpacesBucket)
    → parse_bucket spec default_region ≡ ok b
    → (b.name ≢ "") × (b.region ≢ "")
unfolding parse_bucket
parse_bucket-ok spec default_region b h =
    let (name, region, found) = cut b'@' spec in
    bucket_of-ok spec name (region_or region found default_region) b h

module _ (name default_region : String) (l : lacks b'@' name ≡ true) (n : name ≢ "") where
  -- `name@region` is that bucket in that region, whatever the default.
  pub parse_bucket_at :
      (region : String)
      → region ≢ ""
      → parse_bucket (str_append name (str_append "@" region)) default_region
        ≡ ok (record { name = name; region = region })
  unfolding parse_bucket region_or
  parse_bucket_at region r =
      rw (cons-append, nil-append, cut-append b'@' _ name region refl l, beq_ne region "" r)
        (bucket_of_valid _ name region n r)

  -- `name`, and `name@` too, is the bucket in the default region.
  pub parse_bucket_default :
      default_region ≢ ""
      → (parse_bucket name default_region ≡ ok (record { name = name; region = default_region }))
        × (parse_bucket (str_append name "@") default_region
            ≡ ok (record { name = name; region = default_region }))
  unfolding parse_bucket region_or
  parse_bucket_default d = (
    rw (cut_absent b'@' name l) (bucket_of_valid _ name default_region n d),
    rw (cut-append b'@' _ name "" refl l) (bucket_of_valid _ name default_region n d),
  )

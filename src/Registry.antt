-- ===== src/Registry.antt =====
-- internal/collector/registry/registry.go: the container registries of the account and their
-- repositories.
--
-- godo is the parameter `Client`; a call takes the state of the world and returns the next one. A time is
-- its Unix seconds, or `none` for the zero time. The walk over the pages of repositories takes fuel, one
-- unit for each page, and `none` is a walk that is not finished yet. The map of the registries is an
-- association list, and `Collect` takes the order of that list for the map's.
pub mod Pages
pub mod Outcome
pub mod Refresh
use digitalocean_exporter.Base.{
  ℕ, zero, suc, ◌<◌, nat_eq, ℤ, String, string_eq, Bool, true, false, ◌==◌, Option, none, some,
  List, [], ◌∷◌, ◌++◌, map, GoError, sentinel, opaque, wrap, join, as_api_error,
  no_repositories_listed, Result, ok, err, length, if◌then◌else◌,
}
use digitalocean_exporter.Base.Assoc.{Assoc, lookup, insert}

abbrev pub repositories_per_page : ℕ
repositories_per_page = 200

-- godo.Registry
pub record ApiRegistry : Type 0 where
  pub name : String
  pub region : String
  pub storage_usage_bytes : ℕ
  pub storage_usage_bytes_updated_at : Option ℤ

-- godo.RepositoryManifest
pub record Manifest : Type 0 where
  pub compressed_size_bytes : ℕ
  pub updated_at : Option ℤ

-- godo.RepositoryV2
pub record ApiRepository : Type 0 where
  pub name : String
  pub tag_count : ℕ
  pub manifest_count : ℕ
  pub latest_manifest : Option Manifest

-- godo.RegistrySubscriptionTier
pub record Tier : Type 0 where
  pub name : String
  pub slug : String
  pub included_storage_bytes : ℕ
  pub included_bandwidth_bytes : ℕ
  pub monthly_price_in_cents : ℕ

-- godo.RegistrySubscription
pub record Subscription : Type 0 where
  pub tier : Option Tier

-- godo.TokenListOptions
pub record TokenListOptions : Type 0 where
  pub per_page : ℕ
  pub token : String

-- The services `Registries` (the flag is true) and `Registry` of the client.
pub record Client (W Links : Type 0) : Type 0 where
  pub list : W → Result (List ApiRegistry) × W
  pub get : W → Result (Option ApiRegistry) × W
  pub get_subscription : Bool → W → Result (Option Subscription) × W
  pub list_repositories :
      Bool → String → TokenListOptions → W → Result (List ApiRepository × Option (Option Links)) × W
  pub is_last_page : Links → Bool
  pub next_page_token : Links → Result String

pub record Repository : Type 0 where
  pub name : String
  pub tags : ℕ
  pub manifests : ℕ
  pub manifest : Bool
  pub manifest_size : ℕ
  pub pushed : Option ℤ

-- `registryStats`; `measured` is `measured` and `measuredAt`.
pub record Stats : Type 0 where
  pub name : String
  pub region : String
  pub storage_usage : ℕ
  pub measured : Option ℤ
  pub repositories : List Repository
  pub known : Bool
  pub up : Bool

pub record Snapshot : Type 0 where
  pub registries : Assoc String Stats
  -- the five figures of the tier, where `tier` is set
  pub tier : Option Tier

-- `result`
pub record Reading : Type 0 where
  pub registry : ApiRegistry
  pub got : Result (List Repository)

-- The two branches of `newRepository`.
abbrev with_manifest : Option Manifest → Repository → Repository
with_manifest none out = out
with_manifest (some m) out = record out {
  manifest = true;
  manifest_size = m.compressed_size_bytes;
  pushed = m.updated_at;
}

-- `newRepository`
unfoldable pub new_repository : ApiRepository → Repository
new_repository repo = with_manifest repo.latest_manifest (record {
  name = repo.name;
  tags = repo.tag_count;
  manifests = repo.manifest_count;
  manifest = false;
  manifest_size = 0;
  pushed = none;
})

-- `isNotFound`
unfoldable pub is_not_found : GoError → Bool
unfolding as_api_error
is_not_found e = elim (as_api_error e) [
  | none ↦ false
  | some none ↦ false
  | some (some status) ↦ status == 404
]

module _ {W Links : Type 0} (client : Client W Links) where
  -- The second half of `list`; `failed` is the error of the first endpoint.
  unfoldable pub single :
      Option GoError → Result (Option ApiRegistry) × W → Result (List ApiRegistry × Bool) × W
  unfolding is_not_found
  single failed (ok (some reg), w) = (ok (reg ∷ [], false), w)
  single failed (ok none, w) = (ok ([], false), w)
  single (some e) (err x, w) =
      (if is_not_found x then ok ([], false) else err (join (wrap "get registry" x) e), w)
  single none (err x, w) =
      (if is_not_found x then ok ([], false) else err (wrap "get registry" x), w)

  -- `list`
  unfoldable pub list : W → Result (List ApiRegistry × Bool) × W
  unfolding single
  list w =
      let (got, v) = client.list w in
      elim got [
        | ok [] ↦ single none (client.get v)
        | ok (reg ∷ regs) ↦ (ok (reg ∷ regs, true), v)
        | err e ↦ single (some e) (client.get v)
      ]

  -- The end of a turn of the loop of `repositories`: the token to ask with next, or none.
  unfoldable pub next_token : Option (Option Links) → Result (Option String)
  next_token none = ok none
  next_token (some none) = ok none
  next_token (some (some links)) =
      if client.is_last_page links then ok none else elim (client.next_page_token links) [
        | err e ↦ err (wrap "next page of repositories" e)
        | ok token ↦ ok (if token == "" then none else some token)
      ]

  -- The loop of `repositories`.
  unfoldable pub repositories_from :
      ℕ
      → Bool
      → String
      → TokenListOptions
      → List Repository
      → W
      → Option (Result (List Repository) × W)
  unfolding new_repository next_token
  repositories_from zero multi name opts out w = none
  repositories_from (suc fuel) multi name opts out w =
      let (got, v) = client.list_repositories multi name opts w in
      elim got [
        | err e ↦ some (err (wrap "list repositories" e), v)
        | ok (page, resp) ↦
            let grown = out ++ map new_repository page in
            elim (next_token resp) [
              | err e ↦ some (err e, v)
              | ok none ↦ some (ok grown, v)
              | ok (some token) ↦
                  repositories_from fuel multi name (record opts { token = token }) grown v
            ]
      ]

  abbrev pub first_options : TokenListOptions
  first_options = record { per_page = repositories_per_page; token = "" }

  -- `repositories`
  unfoldable pub repositories : ℕ → String → Bool → W → Option (Result (List Repository) × W)
  unfolding repositories_from
  repositories fuel name multi w = repositories_from fuel multi name first_options [] w

  -- `readAll`
  unfoldable pub read_all : ℕ → List ApiRegistry → Bool → W → Option (List Reading × W)
  unfolding repositories
  read_all fuel [] multi w = some ([], w)
  read_all fuel (reg ∷ regs) multi w = elim (repositories fuel reg.name multi w) [
    | none ↦ none
    | some (got, v) ↦ elim (read_all fuel regs multi v) [
      | none ↦ none
      | some (rest, u) ↦ some (record { registry = reg; got = got } ∷ rest, u)
    ]
  ]

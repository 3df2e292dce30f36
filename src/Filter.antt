-- ===== src/Filter.antt =====
-- internal/filter/filter.go: the filter by tag and by region. Go's `map[string]struct{}` is a list of
-- keys without repetition, and a nil map is `none`.
pub mod Laws
use digitalocean_exporter.Base.{
  String, string_eq, Bool, true, false, ◌&&◌, Option, none, some, List, [], ◌∷◌, contains,
  if◌then◌else◌,
}

pub record Filter : Type 0 where
  pub tags : Option (List String)
  pub regions : Option (List String)

-- `set[v] = struct{}{}`
unfoldable pub add : List String → String → List String
add set v = if contains set v then set else v ∷ set

unfoldable pub add_all : List String → List String → List String
unfolding add
add_all set [] = set
add_all set (v ∷ vs) = add_all (add set v) vs

unfoldable pub as_set : List String → Option (List String)
unfolding add_all
as_set [] = none
as_set (v ∷ vs) = some (add_all [] (v ∷ vs))

-- `New`
unfoldable pub new : List String → List String → Filter
unfolding as_set
new tags regions = record { tags = as_set tags; regions = as_set regions }

-- The loop of `MatchTags`.
unfoldable pub any_in : List String → List String → Bool
any_in set [] = false
any_in set (tag ∷ tags) = if contains set tag then true else any_in set tags

unfoldable pub match_tags : Filter → List String → Bool
unfolding any_in
match_tags f tags = elim f.tags [ none ↦ true | some set ↦ any_in set tags ]

unfoldable pub match_region : Filter → String → Bool
match_region f region = elim f.regions [ none ↦ true | some set ↦ contains set region ]

-- `Match`
unfoldable pub matches : Filter → List String → String → Bool
unfolding match_tags match_region
matches f tags region = match_tags f tags && match_region f region

abbrev pub only : List String → Option String
only (tag ∷ []) = some tag
only _ = none

-- `SingleTag`; `none` is the answer `"", false`.
unfoldable pub single_tag : Filter → Option String
single_tag f = elim f.regions [
  | some _ ↦ none
  | none ↦ elim f.tags [ none ↦ none | some set ↦ only set ]
]

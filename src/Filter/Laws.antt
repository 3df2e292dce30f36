-- ===== src/Filter/Laws.antt =====
-- What a filter built by `New` lets through, and when the API can do the filtering.
use digitalocean_exporter.Base.{
  String, Bool, true, false, ◌&&◌, ◌||◌, Option, none, some, List, [], ◌∷◌, contains, ◌==◌,
  string_eq, beq_refl, All, ◌≡◌, refl, arith,
}
use digitalocean_exporter.Filter.{Filter, add, add_all, new, any_in, matches, single_tag, only}

contains-add :
    (set : List String) (v k : String) → contains (add set v) k ≡ (contains set k || v == k)
unfolding add
contains-add set v k = ground (arith, string_eq.beq_iff v k)

contains-add_all :
    (set vs : List String) (k : String)
    → contains (add_all set vs) k ≡ (contains set k || contains vs k)
unfolding add_all
contains-add_all set [] k = ground arith
contains-add_all set (v ∷ vs) k =
    ground (arith, contains-add set v k, contains-add_all (add set v) vs k)

-- Whether the two lists have an element in common.
abbrev pub overlap : List String → List String → Bool
overlap asked [] = false
overlap asked (tag ∷ tags) = contains asked tag || overlap asked tags

any_in-add_all : (vs tags : List String) → any_in (add_all [] vs) tags ≡ overlap vs tags
unfolding any_in
any_in-add_all vs [] = refl
any_in-add_all vs (tag ∷ tags) = ground (arith, contains-add_all [] vs tag, any_in-add_all vs tags)

-- A condition nobody configured holds for everything.
abbrev pub admits : List String → Bool → Bool
admits [] b = true
admits (_ ∷ _) b = b

-- A resource passes exactly when it carries a tag that was asked for, or none was, and lies in a
-- region that was asked for, or none was.
pub matches-new :
    (asked regions tags : List String) (region : String)
    → matches (new asked regions) tags region
      ≡ (admits asked (overlap asked tags) && admits regions (contains regions region))
unfolding matches new
matches-new [] [] tags region = refl
matches-new [] (r ∷ rs) tags region = ground (arith, contains-add_all [] (r ∷ rs) region)
matches-new (a ∷ as') [] tags region = ground (arith, any_in-add_all (a ∷ as') tags)
matches-new (a ∷ as') (r ∷ rs) tags region =
    ground (arith, any_in-add_all (a ∷ as') tags, contains-add_all [] (r ∷ rs) region)

overlap-single : (a : String) (tags : List String) → any_in (a ∷ []) tags ≡ contains tags a
unfolding any_in
overlap-single a [] = refl
overlap-single a (t ∷ tags) =
    ground (arith, string_eq.beq_iff a t, string_eq.beq_iff t a, overlap-single a tags)

matches-single_tag_cases :
    (asked regions : Option (List String)) (tag : String) (tags : List String) (region : String)
    → let f : Filter = record { tags = asked; regions = regions } in
      single_tag f ≡ some tag → matches f tags region ≡ contains tags tag
unfolding matches single_tag
matches-single_tag_cases asked (some rs) tag tags region h = cc
matches-single_tag_cases none none tag tags region h = cc
matches-single_tag_cases (some []) none tag tags region h = cc
matches-single_tag_cases (some (a ∷ [])) none tag tags region h =
    ground (arith, overlap-single a tags)
matches-single_tag_cases (some (a ∷ b ∷ as')) none tag tags region h = cc

-- When the listing by tag can replace the filter, the client-side match after it asks for that tag and
-- for nothing else.
pub matches-single_tag :
    (f : Filter) (tag : String) (tags : List String) (region : String)
    → single_tag f ≡ some tag
    → matches f tags region ≡ contains tags tag
matches-single_tag f = matches-single_tag_cases f.tags f.regions

-- One more of the same element does not grow the set.
add_all_same : (a : String) (vs : List String) → All (λ v. v ≡ a) vs → add_all (a ∷ []) vs ≡ a ∷ []
unfolding add_all add
add_all_same a [] h = refl
add_all_same a (v ∷ vs) h = rw (h.0, beq_refl a) (add_all_same a vs h.1)

-- A tag given any number of times, with no region, is one tag.
pub single_tag-new_same :
    (a : String) (vs : List String) → All (λ v. v ≡ a) vs → single_tag (new (a ∷ vs) []) ≡ some a
unfolding single_tag new
single_tag-new_same a vs h = rw (add_all_same a vs h)

contains-only :
    (asked : List String) (t k : String) (set : List String)
    → ((j : String) → contains set j ≡ contains asked j)
    → only set ≡ some t
    → contains asked k ≡ (t == k)
contains-only asked t k [] h e = cc
contains-only asked t k (a ∷ []) h e = ground (arith, h k)
contains-only asked t k (a ∷ b ∷ set) h e = cc

-- A filter rides the listing by tag only if no region is asked for and the tag is all it asks for.
pub single_tag-new :
    (asked regions : List String) (t : String)
    → single_tag (new asked regions) ≡ some t
    → (regions ≡ []) × ((k : String) → contains asked k ≡ (t == k))
unfolding single_tag new
single_tag-new asked (r ∷ rs) t h = cc
single_tag-new [] [] t h = cc
single_tag-new (a ∷ as') [] t h = (
  refl,
  λ k. contains-only (a ∷ as') t k (add_all [] (a ∷ as')) (λ j. contains-add_all [] (a ∷ as') j) h,
)

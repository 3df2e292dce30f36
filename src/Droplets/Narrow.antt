-- ===== src/Droplets/Narrow.antt =====
-- The listing by tag against the listing of all droplets.
use digitalocean_exporter.Base.{
  ℕ, ℤ, nat_eq, string_eq, ◌≤◌, String, Bool, Option, none, some, List, [], ◌∷◌, map, keep,
  contains, concat, length, ◌≡◌, refl, sym, ap, ◌∙◌, Bool-cases, inl, inr,
}
use digitalocean_exporter.Filter.{Filter, matches, single_tag}
use digitalocean_exporter.Filter.Laws.{matches-single_tag}
use digitalocean_exporter.Listing.{refresh_list}
use digitalocean_exporter.Listing.Outcome.{refresh_list-of-Walks}
use digitalocean_exporter.Paging.{Api}
use digitalocean_exporter.Paging.Dedup.{firsts}
use digitalocean_exporter.Paging.Trace.{Walks}
use digitalocean_exporter.Droplets.{
  ApiDroplet, Droplet, region_slug, new_droplet, by_tag, listing, droplets_of, refresh,
}

abbrev pub has_tag : String → ApiDroplet → Bool
has_tag tag d = contains d.tags tag

abbrev pub id_of : ApiDroplet → ℕ
id_of d = d.id

keep-match :
    (f : Filter) (tag : String) (ds : List ApiDroplet)
    → single_tag f ≡ some tag
    → keep (λ (d : ApiDroplet). matches f d.tags (region_slug d)) ds ≡ keep (has_tag tag) ds
keep-match f tag [] h = refl
keep-match f tag (d ∷ ds) h =
    rw (matches-single_tag f tag d.tags (region_slug d) h, keep-match f tag ds h) refl

keep_twice : (p : ApiDroplet → Bool) (ds : List ApiDroplet) → keep p (keep p ds) ≡ keep p ds
keep_twice p [] = refl
keep_twice p (d ∷ ds) = elim (Bool-cases (p d)) [
  | inl t ↦ rw (t, t, keep_twice p ds) refl
  | inr f ↦ rw (f, keep_twice p ds) refl
]

listing-tag :
    {W Links : Type 0} (list : Api ApiDroplet W Links)
    (list_by_tag : String → Api ApiDroplet W Links) (f : Filter) (tag : String)
    → single_tag f ≡ some tag
    → listing list list_by_tag f ≡ list_by_tag tag
unfolding listing
listing-tag list list_by_tag f tag h = ap (by_tag list list_by_tag) h

module _ (parse_time : String → Option ℤ) where
  narrow-droplets_of :
      (f : Filter) (tag : String) (ds : List ApiDroplet)
      → single_tag f ≡ some tag
      → droplets_of parse_time f (keep (has_tag tag) ds) ≡ droplets_of parse_time f ds
  unfolding droplets_of
  narrow-droplets_of f tag ds h = ap (map (new_droplet parse_time)) (
      keep-match f tag (keep (has_tag tag) ds) h
      ∙ keep_twice (has_tag tag) ds
      ∙ sym (keep-match f tag ds h))

  -- A filter that is one tag makes the refresh ask for the listing by that tag. Where that listing has,
  -- each once, the droplets of the account that carry the tag, the snapshot is the one that the listing
  -- of the whole account would have given.
  pub refresh-narrow :
      {W Links : Type 0} (list : Api ApiDroplet W Links)
      (list_by_tag : String → Api ApiDroplet W Links) (f : Filter) (tag : String) (fuel : ℕ)
      (snap : List Droplet) (account : List ApiDroplet) {w w' : W} {pages : List (List ApiDroplet)}
      → single_tag f ≡ some tag
      → Walks (list_by_tag tag) 0 w pages w'
      → firsts id_of (concat pages) ≡ keep (has_tag tag) account
      → length pages ≤ fuel
      → refresh parse_time list list_by_tag f fuel snap w
        ≡ some (none, droplets_of parse_time f account, w')
  unfolding refresh
  refresh-narrow list list_by_tag f tag fuel snap account {w = w} {w' = w'} one walks tagged
        enough =
      ap (λ source. refresh_list "droplets" id_of (droplets_of parse_time f) source fuel snap w)
        (listing-tag list list_by_tag f tag one)
      ∙ refresh_list-of-Walks "droplets" id_of (droplets_of parse_time f) (list_by_tag tag) fuel
          snap walks enough
      ∙ ap (λ ds. some (none, ds, w'))
          (ap (droplets_of parse_time f) tagged ∙ narrow-droplets_of f tag account one)

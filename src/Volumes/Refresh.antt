-- ===== src/Volumes/Refresh.antt =====
-- A refresh of a listing collector: all of the list, or the snapshot as it was.
use digitalocean_exporter.Base.{
  ℕ, ◌≤◌, string_eq, Bool, none, some, List, [], ◌∷◌, map, keep, length, concat, ◌≡◌, refl, ap, ◌∙◌,
  Bool-cases, inl, inr,
}
use digitalocean_exporter.Filter.{Filter, matches}
use digitalocean_exporter.Paging.{Api}
use digitalocean_exporter.Paging.Dedup.{firsts}
use digitalocean_exporter.Paging.Trace.{Walks}
use digitalocean_exporter.Listing.Outcome.{refresh_list-of-Walks}
use digitalocean_exporter.Volumes.{
  ApiVolume, Volume, new_volume, region_slug, volumes_of, refresh_volumes,
}

abbrev pub passes : Filter → ApiVolume → Bool
passes f v = matches f v.tags (region_slug v)

volumes_of-keep :
    (f : Filter) (vs : List ApiVolume) → volumes_of f vs ≡ map new_volume (keep (passes f) vs)
unfolding volumes_of
volumes_of-keep f [] = refl
volumes_of-keep f (v ∷ vs) = elim (Bool-cases (passes f v)) [
  | inl t ↦ rw (t, volumes_of-keep f vs)
  | inr n ↦ rw (n, volumes_of-keep f vs)
]

module _ {W Links : Type 0} (list : Api ApiVolume W Links) (f : Filter) where
  -- When the pages of the list come to an end, the snapshot is made of the volumes that the filter
  -- admits, each once and in the order of the API, and of nothing that was there before.
  pub refresh_volumes-of-Walks :
      {w w' : W} {pages : List (List ApiVolume)} (fuel : ℕ) (snap : List Volume)
      → Walks list 0 w pages w'
      → length pages ≤ fuel
      → refresh_volumes list f fuel snap w
        ≡ some (
          none,
          map new_volume (keep (passes f) (firsts (λ (v : ApiVolume). v.id) (concat pages))),
          w',
        )
  unfolding refresh_volumes
  refresh_volumes-of-Walks {w' = w'} {pages = pages} fuel snap r h =
      refresh_list-of-Walks "volumes" (λ (v : ApiVolume). v.id) (volumes_of f) list fuel snap r h
      ∙ ap (λ s. some (none, s, w'))
          (volumes_of-keep f (firsts (λ (v : ApiVolume). v.id) (concat pages)))

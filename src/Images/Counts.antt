-- ===== src/Images/Counts.antt =====
-- The counts of the images by type.
use digitalocean_exporter.Base.{
  Bool-cases, inl, inr, ℤ, suc, String, string_eq, nat_eq, true, ◌==◌, Option, some, List, [], ◌∷◌,
  ◌++◌, map, keep, length, contains, ◌≡◌, refl, sym, ap, ◌∙◌, arith,
}
use native.Mathlib.Nat.{zero-add}
use mathlib.Core.List.{append_assoc, append-nil}
use digitalocean_exporter.Base.Assoc.{lookup, insert}
use digitalocean_exporter.Base.Tally.{tally, count_of, times_in, count-tally, lookup-tally}
use digitalocean_exporter.Images.{
  ApiImage, Snapshot, known_types, new_image, add_image, zeros, add_images, snapshot_of,
}

zeros-known :
    (kind : String) → contains known_types kind ≡ true → lookup kind (zeros known_types []) ≡ some 0
unfolding zeros lookup insert
zeros-known kind h = ground arith

zeros-nothing : (kind : String) → count_of (lookup kind (zeros known_types [])) ≡ 0
unfolding zeros lookup insert
zeros-nothing kind = ground arith

module _ (parse_time : String → Option ℤ) where
  abbrev kind_of : ApiImage → String
  kind_of i = i.type_

  add_images-tally :
      (listed : List ApiImage) (s : Snapshot)
      → ((add_images parse_time listed s).counts ≡ tally s.counts (map kind_of listed))
        × ((add_images parse_time listed s).images ≡ s.images ++ map (new_image parse_time) listed)
  unfolding add_images tally new_image
  add_images-tally [] s = (refl, sym (append-nil s.images))
  add_images-tally (i ∷ is) s =
      let (a, b) = add_images-tally is (add_image parse_time i s) in
      (a, b ∙ append_assoc s.images (new_image parse_time i ∷ []) (map (new_image parse_time) is))

  times_in-map :
      (kind : String) (listed : List ApiImage)
      → times_in kind (map kind_of listed)
        ≡ length (keep (λ (i : ApiImage). i.type_ == kind) listed)
  times_in-map kind [] = refl
  times_in-map kind (i ∷ is) = elim (Bool-cases (i.type_ == kind)) [
    | inl t ↦ rw t (ap suc (times_in-map kind is))
    | inr f ↦ rw f (times_in-map kind is)
  ]

  -- A snapshot has every listed image in its order. It counts for each type exactly the images of that type,
  -- and has a count for each type that is documented, even when there is no image of it.
  pub count-snapshot_of :
      (listed : List ApiImage) (kind : String)
      → ((snapshot_of parse_time listed).images ≡ map (new_image parse_time) listed)
        × (count_of (lookup kind (snapshot_of parse_time listed).counts)
            ≡ length (keep (λ (i : ApiImage). i.type_ == kind) listed))
        × (contains known_types kind ≡ true
            → lookup kind (snapshot_of parse_time listed).counts
              ≡ some (length (keep (λ (i : ApiImage). i.type_ == kind) listed)))
  unfolding snapshot_of
  count-snapshot_of listed kind =
      let (a, b) =
        add_images-tally listed (record { images = []; counts = zeros known_types [] }) in
      let present : contains known_types kind ≡ true
          → lookup kind (snapshot_of parse_time listed).counts
            ≡ some (length (keep (λ (i : ApiImage). i.type_ == kind) listed)) =
        λ h.
          ap (lookup kind) a
          ∙ lookup-tally (zeros known_types []) (map kind_of listed) kind 0 (zeros-known kind h)
          ∙ ap some (zero-add _ ∙ times_in-map kind listed) in
      (
        b,
        ap (λ m. count_of (lookup kind m)) a
            ∙ count-tally (zeros known_types []) (map kind_of listed) kind
            ∙ omega (arith, zeros-nothing kind, times_in-map kind listed),
        present,
      )

-- ===== src/Paging/Dedup.antt =====
-- What `keepNew` keeps: the first item of each key, in order.
use digitalocean_exporter.Base.{
  ◌+◌, Bool, true, false, not, ◌&&◌, List, [], ◌∷◌, ◌++◌, map, Eq, ◌==◌, contains, keep, length,
  Distinct, keep_congr, keep-keep, keep_all, Distinct-keep, contains-keep-key, ◌≡◌, refl, sym, ◌∙◌,
  arith, length-append, if◌then◌else◌, Bool-cases, inl, inr,
}
use digitalocean_exporter.Paging.{Kept, keep_new}
use mathlib.Core.List.{append_assoc, append-nil}

module _ {T K : Type 0} ⦃e : Eq K⦄ (key : T → K) where
  -- The specification: of the items with one key only the first stays.
  abbrev pub firsts : List T → List T
  firsts [] = []
  firsts (x ∷ xs) = x ∷ keep (λ y. not (key y == key x)) (firsts xs)

  pub keep_new-append :
      (xs ys : List T) (s : Kept T K)
      → keep_new key (xs ++ ys) s ≡ keep_new key ys (keep_new key xs s)
  unfolding keep_new
  keep_new-append [] ys s = refl
  keep_new-append (x ∷ xs) ys s = keep_new-append xs ys (
      if contains s.seen (key x)
      then record s { dropped = s.dropped ++ key x ∷ [] }
      else record s { out = s.out ++ x ∷ []; seen = key x ∷ s.seen })

  -- The keys that are left are pairwise different.
  pub firsts-Distinct : (xs : List T) → Distinct (map key (firsts xs))
  firsts-Distinct [] = tt
  firsts-Distinct (x ∷ xs) = (
    rw (contains-keep-key key (λ k. not (k == key x)) (key x) (firsts xs))
        (ground (arith, e.beq_iff (key x) (key x))),
    Distinct-keep key _ (firsts xs) (firsts-Distinct xs),
  )

  -- No key is lost and none is invented.
  pub contains-firsts :
      (k : K) (xs : List T) → contains (map key (firsts xs)) k ≡ contains (map key xs) k
  contains-firsts k [] = refl
  contains-firsts k (x ∷ xs) =
      rw (contains-keep-key key (λ j. not (j == key x)) k (firsts xs), contains-firsts k xs)
        (ground (arith, e.beq_iff k (key x), e.beq_iff (key x) k))

  -- What the set of keys already seen lets through.
  abbrev pub unseen : List K → T → Bool
  unseen seen y = not (contains seen (key y))

  keep-unseen_dup :
      (seen : List K) (x : T) (ys : List T)
      → contains seen (key x) ≡ true
      → keep (unseen seen) (keep (λ y. not (key y == key x)) ys) ≡ keep (unseen seen) ys
  keep-unseen_dup seen x ys h =
      keep-keep _ _ ys
      ∙ keep_congr (λ y. unseen seen y && not (key y == key x)) (unseen seen) ys
          (λ y. ground (arith, e.beq_iff (key y) (key x)))

  keep-unseen_cons :
      (seen : List K) (x : T) (ys : List T)
      → keep (unseen (key x ∷ seen)) ys ≡ keep (unseen seen) (keep (λ y. not (key y == key x)) ys)
  keep-unseen_cons seen x ys =
      keep_congr (unseen (key x ∷ seen)) (λ y. unseen seen y && not (key y == key x)) ys
        (λ y. ground (arith, e.beq_iff (key y) (key x), e.beq_iff (key x) (key y)))
      ∙ sym (keep-keep _ _ ys)

  keep_new-dup :
      (x : T) (page : List T) (s : Kept T K)
      → contains s.seen (key x) ≡ true
      → keep_new key (x ∷ page) s
        ≡ keep_new key page (record s { dropped = s.dropped ++ key x ∷ [] })
  unfolding keep_new
  keep_new-dup x page s h = rw (h, keep_new)

  keep_new-new :
      (x : T) (page : List T) (s : Kept T K)
      → contains s.seen (key x) ≡ false
      → keep_new key (x ∷ page) s
        ≡ keep_new key page (record s { out = s.out ++ x ∷ []; seen = key x ∷ s.seen })
  unfolding keep_new
  keep_new-new x page s h = rw (h, keep_new)

  pub out-keep_new :
      (page : List T) (s : Kept T K)
      → (keep_new key page s).out ≡ s.out ++ keep (unseen s.seen) (firsts page)
  unfolding keep_new
  out-keep_new [] s = sym (append-nil s.out)
  out-keep_new (x ∷ page) s = elim (Bool-cases (contains s.seen (key x))) [
    | inl dup ↦ rw (
      dup,
      keep_new-dup x page s dup,
      out-keep_new page (record s { dropped = s.dropped ++ key x ∷ [] }),
      keep-unseen_dup s.seen x (firsts page) dup,
    )
    | inr new ↦ rw (
      new,
      keep_new-new x page s new,
      out-keep_new page (record s { out = s.out ++ x ∷ []; seen = key x ∷ s.seen }),
      append_assoc,
      keep-unseen_cons s.seen x (firsts page),
    )
  ]

  -- Every item is either kept or reported as a duplicate.
  pub count-keep_new :
      (page : List T) (s : Kept T K)
      → length (keep_new key page s).out + length (keep_new key page s).dropped
        ≡ length s.out + length s.dropped + length page
  unfolding keep_new
  count-keep_new [] s = omega arith
  count-keep_new (x ∷ page) s = ground (
    arith,
    length-append s.out (x ∷ []),
    length-append s.dropped (key x ∷ []),
    count-keep_new page (record s { dropped = s.dropped ++ key x ∷ [] }),
    count-keep_new page (record s { out = s.out ++ x ∷ []; seen = key x ∷ s.seen }),
  )

  -- From nothing, what is kept is the first item of each key.
  pub out-keep_new_start :
      (page : List T)
      → (keep_new key page (record { out = []; seen = []; dropped = [] })).out ≡ firsts page
  out-keep_new_start page =
      out-keep_new page (record { out = []; seen = []; dropped = [] })
      ∙ keep_all _ (firsts page) (λ x. refl)

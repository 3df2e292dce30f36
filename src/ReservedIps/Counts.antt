-- ===== src/ReservedIps/Counts.antt =====
-- The counts of the addresses by region and version.
use native.Mathlib.Nat.{zero-add}
use mathlib.Core.List.{append_assoc, append-nil}
use digitalocean_exporter.Base.{
  suc, string_eq, nat_eq, Bool-cases, inl, inr, ◌==◌, List, [], ◌∷◌, ◌++◌, map, keep, length, ◌≡◌,
  refl, sym, ap, ◌∙◌,
}
use digitalocean_exporter.Base.Assoc.{lookup}
use digitalocean_exporter.Base.Tally.{tally, count_of, times_in, count-tally}
use digitalocean_exporter.ReservedIps.{
  ApiIpv4, ApiIpv6, ReservedIp, Group, group_eq, group_of, Snapshot, new_ipv4, new_ipv6, add,
  add_all, snapshot_of, empty_snapshot,
}

add_all-tally :
    (ips : List ReservedIp) (s : Snapshot)
    → ((add_all ips s).counts ≡ tally s.counts (map group_of ips))
      × ((add_all ips s).ips ≡ s.ips ++ ips)
unfolding add_all add tally
add_all-tally [] s = (refl, sym (append-nil s.ips))
add_all-tally (ip ∷ ips) s =
    let (a, b) = add_all-tally ips (add ip s) in (a, b ∙ append_assoc s.ips (ip ∷ []) ips)

add_all-append :
    (xs ys : List ReservedIp) (s : Snapshot) → add_all ys (add_all xs s) ≡ add_all (xs ++ ys) s
unfolding add_all
add_all-append [] ys s = refl
add_all-append (x ∷ xs) ys s = add_all-append xs ys (add x s)

times_in-map :
    (g : Group) (ips : List ReservedIp)
    → times_in g (map group_of ips) ≡ length (keep (λ (ip : ReservedIp). group_of ip == g) ips)
times_in-map g [] = refl
times_in-map g (ip ∷ ips) = elim (Bool-cases (group_of ip == g)) [
  | inl t ↦ rw t (ap suc (times_in-map g ips))
  | inr f ↦ rw f (times_in-map g ips)
]

-- A snapshot has every listed address, those of version 4 before those of version 6, and counts for each
-- region and version exactly the addresses of both.
pub count-snapshot_of_both :
    (v4 : List ApiIpv4) (v6 : List ApiIpv6) (g : Group)
    → ((snapshot_of v4 v6).ips ≡ map new_ipv4 v4 ++ map new_ipv6 v6)
      × (count_of (lookup g (snapshot_of v4 v6).counts)
          ≡ length (keep (λ (ip : ReservedIp). group_of ip == g) (snapshot_of v4 v6).ips))
unfolding snapshot_of lookup
count-snapshot_of_both v4 v6 g =
    let whole = add_all-append (map new_ipv4 v4) (map new_ipv6 v6) empty_snapshot in
    let (a, b) = add_all-tally (map new_ipv4 v4 ++ map new_ipv6 v6) empty_snapshot in
    let ips = ap (λ (s : Snapshot). s.ips) whole ∙ b in
    (
      ips,
      ap (λ (s : Snapshot). count_of (lookup g s.counts)) whole
          ∙ ap (λ m. count_of (lookup g m)) a
          ∙ count-tally [] (map group_of (map new_ipv4 v4 ++ map new_ipv6 v6)) g
          ∙ zero-add _
          ∙ times_in-map g (map new_ipv4 v4 ++ map new_ipv6 v6)
          ∙ ap (λ xs. length (keep (λ (ip : ReservedIp). group_of ip == g) xs)) (sym ips),
    )

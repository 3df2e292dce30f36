-- ===== src/Kubernetes/Pools.antt =====
-- The figures of a pool, and what a refresh with the lookups of the versions leaves.
use mathlib.Core.List.{append_assoc, append-nil}
use digitalocean_exporter.Base.{
  ℕ, ◌≤◌, nat_eq, string_eq, Bool, true, ◌==◌, Option, none, some, List, [], ◌∷◌, ◌++◌, keep,
  keep-append, GoError, length, length-append, length-keep-le, ◌≡◌, refl, sym, ap, ◌∙◌, arith,
  Bool-cases, inl, inr,
}
use digitalocean_exporter.Details.Each.{Outcome, refresh_after-Outcome}
use digitalocean_exporter.Filter.{Filter}
use digitalocean_exporter.Paging.{all}
use digitalocean_exporter.Kubernetes.{
  ApiNode, ApiPool, ApiCluster, Node, Pool, Cluster, Client, member_of, added, empty_pool,
  add_members, new_pool, running_state, fields,
}
use digitalocean_exporter.Kubernetes.Refresh.{lookup_upgrades, listed, refresh}

abbrev pub is_running : Node → Bool
is_running n = n.state == running_state

-- The nodes that are there.
abbrev pub present : List (Option ApiNode) → List Node
present [] = []
present (none ∷ nodes) = present nodes
present (some n ∷ nodes) = member_of n ∷ present nodes

abbrev IsCounted : Pool → Type 0
IsCounted p = p.running ≡ length (keep is_running p.members)

added-IsCounted : (n : ApiNode) (out : Pool) → IsCounted out → IsCounted (added n out)
added-IsCounted n out c =
    let whole =
      ap length (keep-append is_running out.members (member_of n ∷ []))
      ∙ length-append (keep is_running out.members) (keep is_running (member_of n ∷ [])) in
    elim (Bool-cases (is_running (member_of n))) [
      | inl t ↦
          let one : length (keep is_running (member_of n ∷ [])) ≡ 1 = rw t in
          rw t (omega (arith, whole, c, one))
      | inr x ↦
          let nothing : length (keep is_running (member_of n ∷ [])) ≡ 0 = rw x in
          rw x (omega (arith, whole, c, nothing))
    ]

add_members-IsCounted :
    (nodes : List (Option ApiNode)) (out : Pool)
    → IsCounted out
    → IsCounted (add_members nodes out)
      × ((add_members nodes out).members ≡ out.members ++ present nodes)
unfolding add_members
add_members-IsCounted [] out c = (c, sym (append-nil out.members))
add_members-IsCounted (none ∷ nodes) out c = add_members-IsCounted nodes out c
add_members-IsCounted (some n ∷ nodes) out c =
    let (a, b) = add_members-IsCounted nodes (added n out) (added-IsCounted n out c) in
    (a, b ∙ append_assoc out.members (member_of n ∷ []) (present nodes))

-- A pool has each of its nodes that is there, in their order, and counts as running those of them whose
-- state is running: never more than it has.
pub new_pool-running :
    (np : ApiPool)
    → ((new_pool np).members ≡ present np.nodes)
      × ((new_pool np).running ≡ length (keep is_running (present np.nodes)))
      × ((new_pool np).running ≤ length (new_pool np).members)
unfolding new_pool
new_pool-running np =
    let (c, m) = add_members-IsCounted np.nodes (empty_pool np) refl in
    (
      m,
      c ∙ ap (λ ns. length (keep is_running ns)) m,
      omega (arith, c, length-keep-le is_running (new_pool np).members),
    )

module _ {W Links : Type 0} (client : Client W Links) (f : Filter) where
  -- A refresh with the lookups ends in one of three ways: the listing failed, and the clusters are the old
  -- ones; or every cluster that was listed and that the filter admits is there, with the versions of its own
  -- lookup or, where that failed while the context was not done, with those known before; or a lookup failed
  -- after which the context was done, and the clusters are the old ones.
  pub refresh-upgrades :
      (fuel : ℕ) (snap snap' : List Cluster) (w w' : W) (e : Option GoError)
      → refresh client f true fuel snap w ≡ some (e, snap', w')
      → Outcome fields client.ctx_err
          (lookup_upgrades client)
          snap
          (listed f (all "kubernetes clusters" (λ (kc : ApiCluster). kc.id) client.list fuel w))
          e
          snap'
          w'
  unfolding refresh
  refresh-upgrades fuel snap snap' w w' e h =
      refresh_after-Outcome fields client.ctx_err (lookup_upgrades client) snap
        (listed f (all "kubernetes clusters" (λ (kc : ApiCluster). kc.id) client.list fuel w)) e
        snap' w' h

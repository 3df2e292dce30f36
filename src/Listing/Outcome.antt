-- ===== src/Listing/Outcome.antt =====
-- A refresh of a listing collector: all of the list, or the snapshot as it was.
use digitalocean_exporter.Base.{
  ℕ, suc, ◌+◌, ◌≤◌, String, none, some, List, Eq, GoError, concat, length, ◌≡◌, ap,
}
use digitalocean_exporter.Paging.{Api}
use digitalocean_exporter.Paging.Dedup.{firsts}
use digitalocean_exporter.Paging.Trace.{Walks, Reaches, Fails}
use digitalocean_exporter.Paging.Walk.{all-of-Walks, all-Fails}
use digitalocean_exporter.Listing.{kept, refresh_list}

module _ {T K S W Links : Type 0} ⦃e : Eq K⦄ (what : String) (key : T → K) (convert : List T → S)
    (list : Api T W Links) where
  -- When the pages of the list come to an end, the snapshot is made of what was listed, each item once and
  -- in the order of the API, and of nothing that was there before.
  pub refresh_list-of-Walks :
      {w w' : W} {pages : List (List T)} (fuel : ℕ) (snap : S)
      → Walks list 0 w pages w'
      → length pages ≤ fuel
      → refresh_list what key convert list fuel snap w
        ≡ some (none, convert (firsts key (concat pages)), w')
  unfolding refresh_list
  refresh_list-of-Walks fuel snap r h = ap (kept convert snap) (all-of-Walks what key list fuel r h)

  -- A failure after any number of good pages is the error of the refresh, and leaves the snapshot as it
  -- was: half a list is never reported.
  pub refresh_list-Fails :
      {n q : ℕ} {w v v' : W} {x : GoError} (fuel : ℕ) (snap : S)
      → Reaches list 0 w n q v
      → Fails list what q v x v'
      → refresh_list what key convert list (n + suc fuel) snap w ≡ some (some x, snap, v')
  unfolding refresh_list
  refresh_list-Fails fuel snap r e = ap (kept convert snap) (all-Fails what key list fuel r e)

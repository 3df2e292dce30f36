-- ===== src/Listing.antt =====
-- `Refresh` of the collectors of internal/collector that read one list: every page is read before the
-- snapshot is replaced.
--
-- The listing of the client is the parameter `list`, as in Paging, and the fuel is that of the walk.
pub mod Outcome
use digitalocean_exporter.Base.{
  ℕ, String, Option, none, some, List, [], ◌∷◌, Bool, GoError, Result, ok, err, Eq, map, keep,
}
use digitalocean_exporter.Paging.{Api, all}

-- The end of `Refresh`: the error, the snapshot and the world after it.
abbrev pub kept :
    {T S W : Type 0}
    → (List T → S)
    → S
    → Option (Result (List T) × W)
    → Option (Option GoError × S × W)
kept convert snap none = none
kept convert snap (some (err e, w)) = some (some e, snap, w)
kept convert snap (some (ok items, w)) = some (none, convert items, w)

module _ {T K S W Links : Type 0} ⦃e : Eq K⦄ (what : String) (key : T → K)
    (convert : List T → S) where
  -- `Refresh`; `convert` is the loop over the listed items.
  unfoldable pub refresh_list : Api T W Links → ℕ → S → W → Option (Option GoError × S × W)
  unfolding all
  refresh_list list fuel snap w = kept convert snap (all what key list fuel w)

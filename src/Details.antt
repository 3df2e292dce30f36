-- ===== src/Details.antt =====
-- What internal/collector/databases/databases.go and internal/collector/kubernetes/kubernetes.go do alike:
-- one more lookup for every cluster of a list, of which a failure keeps what the last refresh knew.
--
-- `S` is the type of a cluster and `D` what the lookup learns. A lookup takes the state of the world and
-- returns the next one; `none` is a lookup that is not finished within its fuel.
pub mod Each
pub mod Total
use digitalocean_exporter.Base.{
  String, string_eq, Bool, true, false, Option, none, some, List, [], ◌∷◌, GoError, Result, ok, err,
}
use digitalocean_exporter.Base.Assoc.{Assoc, lookup, insert}

-- The fields of a cluster that the lookups read and write; `nothing` is the zero value of the details.
pub record Fields (S D : Type 0) : Type 0 where
  pub id : S → String
  pub details : S → D
  pub with_details : D → S → S
  pub nothing : D

module _ {S D : Type 0} (fields : Fields S D) where
  -- `previousDetails` and `previousUpgrades`, from a map on.
  unfoldable pub previous_from : Assoc String D → List S → Assoc String D
  previous_from m [] = m
  previous_from m (cl ∷ snap) = previous_from (insert (fields.id cl) (fields.details cl) m) snap

  -- `previous[cl.id]`
  abbrev pub known_of : Option D → D
  known_of none = fields.nothing
  known_of (some d) = d

module _ {S D W : Type 0} (fields : Fields S D) (ctx_err : W → Option GoError)
    (ask : String → W → Option (Result D × W)) (previous : Assoc String D) where
  -- The end of `refreshDetails` and of `refreshUpgrades`, by what the lookup gave.
  unfoldable pub settle : S → Result D → W → Result S × W
  unfolding lookup
  settle cl (ok d) w = (ok (fields.with_details d cl), w)
  settle cl (err e) w = elim (ctx_err w) [
    | some _ ↦ (err e, w)
    | none ↦ (ok (fields.with_details (known_of fields (lookup (fields.id cl) previous)) cl), w)
  ]

  -- `refreshDetails`, `refreshUpgrades`; the flag is `askDetails` or `askUpgrades`.
  unfoldable pub refresh_one : Bool → S → W → Option (Result S × W)
  unfolding settle
  refresh_one false cl w = some (ok cl, w)
  refresh_one true cl w = elim (ask (fields.id cl) w) [
    | none ↦ none
    | some (got, v) ↦ some (settle cl got v)
  ]

  -- The rest of the loop, after one cluster.
  abbrev pub appended : S → Option (Result (List S) × W) → Option (Result (List S) × W)
  appended filled none = none
  appended filled (some (err e, u)) = some (err e, u)
  appended filled (some (ok rest, u)) = some (ok (filled ∷ rest), u)

  -- The loop of `Refresh` over the clusters.
  unfoldable pub refresh_each : Bool → List S → W → Option (Result (List S) × W)
  unfolding refresh_one
  refresh_each flag [] w = some (ok [], w)
  refresh_each flag (cl ∷ cls) w = elim (refresh_one flag cl w) [
    | none ↦ none
    | some (err e, v) ↦ some (err e, v)
    | some (ok filled, v) ↦ appended filled (refresh_each flag cls v)
  ]

module _ {S D W : Type 0} (fields : Fields S D) (ctx_err : W → Option GoError)
    (ask : String → W → Option (Result D × W)) (flag : Bool) where
  -- The end of `Refresh`: the error, the snapshot and the world after it.
  abbrev pub installed :
      List S → Option (Result (List S) × W) → Option (Option GoError × List S × W)
  installed snap none = none
  installed snap (some (err e, w)) = some (some e, snap, w)
  installed snap (some (ok next, w)) = some (none, next, w)

  -- `Refresh`, by what the listing gave.
  unfoldable pub refresh_after :
      List S → Option (Result (List S) × W) → Option (Option GoError × List S × W)
  unfolding refresh_each previous_from
  refresh_after snap none = none
  refresh_after snap (some (err e, w)) = some (some e, snap, w)
  refresh_after snap (some (ok next, w)) =
      installed snap (refresh_each fields ctx_err ask (previous_from fields [] snap) flag next w)

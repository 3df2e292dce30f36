-- ===== src/Account.antt =====
-- internal/collector/account/account.go and internal/collector/limits/limits.go: the account with its
-- limits, and how many of the limited resources it uses.
pub mod Whole
use digitalocean_exporter.Base.{
  ℕ, String, string_eq, Bool, true, false, ◌==◌, Option, none, some, List, [], ◌∷◌, ◌++◌, GoError,
  sentinel, wrap, no_total, Result, ok, err,
}
use Prim.Native.String.{◌++◌ as str_append}
use digitalocean_exporter.Metrics.{Gauge, gauge, count, bool_value}
use digitalocean_exporter.Metrics.Statuses.{one_hot}

abbrev pub active_status : String
active_status = "active"

abbrev pub known_statuses : List String
known_statuses = active_status ∷ "warning" ∷ "locked" ∷ []

-- godo.Account
pub record ApiAccount : Type 0 where
  pub status : String
  pub email_verified : Bool
  pub droplet_limit : ℕ
  pub floating_ip_limit : ℕ
  pub reserved_ip_limit : ℕ
  pub volume_limit : ℕ

-- The account collector's `snapshot`.
pub record AccountSnapshot : Type 0 where
  pub status : String
  pub active : Bool
  pub verified : Bool
  pub droplet_limit : ℕ
  pub floating_ip_limit : ℕ
  pub reserved_ip_limit : ℕ
  pub volume_limit : ℕ

-- The account collector's `Refresh`, by what `Account.Get` answered.
unfoldable pub refresh_account :
    Result ApiAccount → Option AccountSnapshot → Option GoError × Option AccountSnapshot
refresh_account (err e) snap = (some (wrap "get account" e), snap)
refresh_account (ok acct) snap = (
  none,
  some (record {
    status = acct.status;
    active = acct.status == active_status;
    verified = acct.email_verified;
    droplet_limit = acct.droplet_limit;
    floating_ip_limit = acct.floating_ip_limit;
    reserved_ip_limit = acct.reserved_ip_limit;
    volume_limit = acct.volume_limit;
  }),
)

-- The account collector's `Collect`, with `collectStatus`.
unfoldable pub collect_account : Option AccountSnapshot → List Gauge
unfolding one_hot
collect_account none = []
collect_account (some snap) =
    one_hot "digitalocean_account_status" [] known_statuses snap.status
    ++ gauge "digitalocean_account_active" (bool_value snap.active) []
      ∷ gauge "digitalocean_account_verified" (bool_value snap.verified) []
      ∷ gauge "digitalocean_account_droplet_limit" (count snap.droplet_limit) []
      ∷ gauge "digitalocean_account_floating_ip_limit" (count snap.floating_ip_limit) []
      ∷ gauge "digitalocean_account_reserved_ip_limit" (count snap.reserved_ip_limit) []
      ∷ gauge "digitalocean_account_volume_limit" (count snap.volume_limit) []
      ∷ []

-- The limits collector's `snapshot`.
pub record LimitsSnapshot : Type 0 where
  pub droplets : ℕ
  pub reserved_ips : ℕ
  pub volumes : ℕ

-- `total`, of a response: none, or one that has a meta with its total or has none.
unfoldable pub total : Option (Option ℕ) → String → Result ℕ
total (some (some n)) resource = ok n
total _ resource = err (wrap (str_append "count " resource) (sentinel no_total))

-- `countDroplets`, `countReservedIPs` and `countVolumes`, by what the request answered.
unfoldable pub count_resource : String → Result (Option (Option ℕ)) → Result ℕ
unfolding total
count_resource resource (err e) = err (wrap (str_append "list " resource) e)
count_resource resource (ok resp) = total resp resource

-- The three requests of the limits collector, each of the world as it is then.
pub record Counters (W : Type 0) : Type 0 where
  pub list_droplets : W → Result (Option (Option ℕ)) × W
  pub list_reserved_ips : W → Result (Option (Option ℕ)) × W
  pub list_volumes : W → Result (Option (Option ℕ)) × W

-- A request and the count that is read from its answer.
abbrev pub counted : {W : Type 0} → String → Result (Option (Option ℕ)) × W → Result ℕ × W
counted resource (got, w) = (count_resource resource got, w)

module _ {W : Type 0} (api : Counters W) where
  unfoldable pub with_volumes :
      ℕ → ℕ → Option LimitsSnapshot → Result ℕ × W → Option GoError × Option LimitsSnapshot × W
  with_volumes droplets reserved snap (err e, w) = (some e, snap, w)
  with_volumes droplets reserved snap (ok volumes, w) =
      (none, some (record { droplets = droplets; reserved_ips = reserved; volumes = volumes }), w)

  unfoldable pub with_reserved :
      ℕ → Option LimitsSnapshot → Result ℕ × W → Option GoError × Option LimitsSnapshot × W
  unfolding with_volumes count_resource
  with_reserved droplets snap (err e, w) = (some e, snap, w)
  with_reserved droplets snap (ok reserved, w) =
      with_volumes droplets reserved snap (counted "volumes" (api.list_volumes w))

  unfoldable pub with_droplets :
      Option LimitsSnapshot → Result ℕ × W → Option GoError × Option LimitsSnapshot × W
  unfolding with_reserved count_resource
  with_droplets snap (err e, w) = (some e, snap, w)
  with_droplets snap (ok droplets, w) =
      with_reserved droplets snap (counted "reserved IPs" (api.list_reserved_ips w))

  -- The limits collector's `Refresh`: the error, the snapshot and the world after it.
  unfoldable pub refresh_limits :
      Option LimitsSnapshot → W → Option GoError × Option LimitsSnapshot × W
  unfolding with_droplets count_resource
  refresh_limits snap w = with_droplets snap (counted "droplets" (api.list_droplets w))

-- The limits collector's `Collect`.
unfoldable pub collect_limits : Option LimitsSnapshot → List Gauge
collect_limits none = []
collect_limits (some snap) =
    gauge "digitalocean_account_droplets" (count snap.droplets) []
    ∷ gauge "digitalocean_account_reserved_ips" (count snap.reserved_ips) []
    ∷ gauge "digitalocean_account_volumes" (count snap.volumes) []
    ∷ []

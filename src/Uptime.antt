-- ===== src/Uptime.antt =====
-- internal/collector/uptime/uptime.go: the uptime checks, with what the regions have observed of each.
--
-- `parse_time` is `time.Parse(time.RFC3339, text)`, by the Unix seconds of the time. A percentage that the
-- API gives as a float is kept as its text. The lookups of the states are those of Details, where the
-- answer of a lookup is the state, and that the check is up.
pub mod Settled
use digitalocean_exporter.Base.{
  ℕ, ℤ, String, string_eq, Bool, true, false, ◌==◌, Option, none, some, List, [], ◌∷◌, ◌++◌, map,
  GoError, Result, ok, err, if◌then◌else◌,
}
use digitalocean_exporter.Base.Assoc.{Assoc, lookup, keys}
use digitalocean_exporter.Details.{Fields, refresh_after}
use digitalocean_exporter.Metrics.{
  Value, Gauge, gauge, over, given, whole, count, bool_value, for_each, known_gauge,
}
use digitalocean_exporter.Metrics.Statuses.{one_hot}
use digitalocean_exporter.Paging.{Api, all}
use digitalocean_exporter.Text.{sort_strings, format_bool}

abbrev pub known_region_statuses : List String
known_region_statuses = "UP" ∷ "DOWN" ∷ "CHECKING" ∷ []

-- godo.UptimeCheck
pub record ApiCheck : Type 0 where
  pub id : String
  pub name : String
  pub type_ : String
  pub target : String
  pub enabled : Bool

-- godo.UptimeRegion
pub record ApiRegion : Type 0 where
  pub status : String
  pub thirty_day_uptime_percentage : String

-- godo.UptimePreviousOutage
pub record ApiOutage : Type 0 where
  pub region : String
  pub started_at : String
  pub duration_seconds : ℤ

-- godo.UptimeCheckState
pub record ApiState : Type 0 where
  pub regions : Assoc String ApiRegion
  pub previous_outage : ApiOutage

pub record RegionState : Type 0 where
  pub region : String
  pub status : String
  pub ratio : Value

-- `outage`; `start` is `start` and `hasStart`.
pub record Outage : Type 0 where
  pub region : String
  pub start : Option ℤ
  pub duration : ℤ

pub record State : Type 0 where
  pub known : Bool
  pub regions : List RegionState
  pub outage : Option Outage

pub record Check : Type 0 where
  pub id : String
  pub name : String
  pub ctype : String
  pub target : String
  pub enabled : String
  pub up : Bool
  pub state : State

abbrev pub no_state : State
no_state = record { known = false; regions = []; outage = none }

-- `newCheck`
unfoldable pub new_check : ApiCheck → Check
new_check uc = record {
  id = uc.id;
  name = uc.name;
  ctype = uc.type_;
  target = uc.target;
  enabled = format_bool uc.enabled;
  up = false;
  state = no_state;
}

-- One turn of the loop of `newState`, for a region that is a key of the map.
abbrev region_state : String → Option ApiRegion → List RegionState
region_state region none = []
region_state region (some r) =
    record {
      region = region;
      status = r.status;
      ratio = over (given r.thirty_day_uptime_percentage) 100;
    }
    ∷ []

unfoldable pub region_states : Assoc String ApiRegion → List String → List RegionState
unfolding lookup
region_states regions [] = []
region_states regions (region ∷ rest) =
    region_state region (lookup region regions) ++ region_states regions rest

module _ (parse_time : String → Option ℤ) where
  -- `newOutage`
  unfoldable pub new_outage : ApiOutage → Option Outage
  new_outage po =
      if po.region == ""
      then none
      else some (record {
        region = po.region;
        start = parse_time po.started_at;
        duration = po.duration_seconds;
      })

  -- `newState`
  unfoldable pub new_state : ApiState → State
  unfolding new_outage region_states sort_strings
  new_state st = record {
    known = true;
    regions = region_states st.regions (sort_strings (keys st.regions));
    outage = new_outage st.previous_outage;
  }

  -- What a lookup answers: the state, and that the check is up.
  abbrev pub answered : {W : Type 0} → Result ApiState × W → Option (Result (State × Bool) × W)
  answered (ok st, w) = some (ok (new_state st, true), w)
  answered (err e, w) = some (err e, w)

  -- The two fields of a check that `refreshState` writes. A check whose lookup fails is not up, whatever
  -- the last refresh found.
  abbrev pub fields : Fields Check (State × Bool)
  fields = record {
    id = λ ck. ck.id;
    details = λ ck. (ck.state, false);
    with_details = λ d ck. record ck { state = d.0; up = d.1 };
    nothing = (no_state, false);
  }

  -- What the listing leads to, with each check converted.
  abbrev pub converted :
      {W : Type 0} → Option (Result (List ApiCheck) × W) → Option (Result (List Check) × W)
  converted none = none
  converted (some (ok listed, w)) = some (ok (map new_check listed), w)
  converted (some (err e, w)) = some (err e, w)

  -- `Refresh`; `get_state` is `UptimeChecks.GetState`.
  unfoldable pub refresh :
      {W Links : Type 0}
      → Api ApiCheck W Links
      → (String → W → Result ApiState × W)
      → ℕ
      → List Check
      → W
      → Option (Option GoError × List Check × W)
  unfolding new_check new_state refresh_after
  refresh list get_state fuel snap w =
      refresh_after fields list.ctx_err (λ id v. answered (get_state id v)) true snap
        (converted (all "uptime checks" (λ (uc : ApiCheck). uc.id) list fuel w))

-- One turn of the first loop of `collectState`, with `collectRegionStatus`.
abbrev region_gauges : List String → RegionState → List Gauge
region_gauges labels r =
    one_hot "digitalocean_uptime_check_region_status" (labels ++ r.region ∷ [])
      known_region_statuses r.status
    ++ gauge "digitalocean_uptime_check_uptime_ratio" r.ratio (labels ++ r.region ∷ []) ∷ []

abbrev outage_gauges : List String → Option Outage → List Gauge
outage_gauges labels none = []
outage_gauges labels (some o) =
    known_gauge "digitalocean_uptime_check_previous_outage_start_timestamp_seconds" o.start
      (labels ++ o.region ∷ [])
    ++ gauge "digitalocean_uptime_check_previous_outage_duration_seconds" (whole o.duration)
        (labels ++ o.region ∷ [])
      ∷ []

-- `collectState`
unfoldable pub collect_state : List String → State → List Gauge
unfolding one_hot for_each
collect_state labels st =
    let known = for_each (region_gauges labels) st.regions ++ outage_gauges labels st.outage in
    if st.known then known else []

abbrev check_gauges : Check → List Gauge
check_gauges ck =
    let labels = ck.id ∷ ck.name ∷ [] in
    gauge "digitalocean_uptime_check_info" (count 1)
      (labels ++ ck.ctype ∷ ck.target ∷ ck.enabled ∷ [])
    ∷ gauge "digitalocean_uptime_check_up" (bool_value ck.up) labels
    ∷ collect_state labels ck.state

-- `Collect`
unfoldable pub collect : List Check → List Gauge
unfolding for_each collect_state
collect snap = for_each check_gauges snap

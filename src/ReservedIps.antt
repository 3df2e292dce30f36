-- ===== src/ReservedIps.antt =====
-- internal/collector/reservedips/reservedips.go: the reserved addresses of both versions, and how many there
-- are in each region.
--
-- The map of the counts is an association list, and `Collect` takes the order of that list for the map's.
pub mod Counts
use digitalocean_exporter.Base.{
  ℕ, ℤ, pos, String, string_eq, nat_eq, Bool, true, false, ◌&&◌, ◌==◌, Eq, Option, none, some, List,
  [], ◌∷◌, ◌++◌, map, GoError, Result, ok, err, length, ◌≡◌, ◌↔◌, refl, ap, ◌∙◌, beq_refl,
}
use digitalocean_exporter.Base.Assoc.{Assoc}
use digitalocean_exporter.Base.Tally.{bump, tally}
use digitalocean_exporter.Metrics.{Gauge, gauge, count, bool_value, for_each}
use digitalocean_exporter.Paging.{Api, all}
use digitalocean_exporter.Text.{itoa}

-- godo.Droplet, by the fields that are read.
pub record ApiDroplet : Type 0 where
  pub id : ℕ
  pub name : String

-- godo.ReservedIP
pub record ApiIpv4 : Type 0 where
  pub ip : String
  pub region : Option String
  pub project_id : String
  pub droplet : Option ApiDroplet

-- godo.ReservedIPV6
pub record ApiIpv6 : Type 0 where
  pub ip : String
  pub region_slug : String
  pub droplet : Option ApiDroplet

pub record ReservedIp : Type 0 where
  pub ip : String
  pub region : String
  pub version : String
  pub droplet_id : String
  pub droplet_name : String
  pub project_id : String
  pub assigned : Bool

pub record Group : Type 0 where
  pub region : String
  pub version : String

pub record Snapshot : Type 0 where
  pub ips : List ReservedIp
  pub counts : Assoc Group ℕ

abbrev pub same_group : Group → Group → Bool
same_group a b = a.region == b.region && a.version == b.version

and_true : (x y : Bool) → (x && y) ≡ true → (x ≡ true) × (y ≡ true)
and_true true y h = (refl, h)
and_true false y h = cc

abbrev group : String → String → Group
group region version = record { region = region; version = version }

pub same_group_iff : (a b : Group) → (same_group a b ≡ true) ↔ (a ≡ b)
same_group_iff a b = (
  λ t.
      let (r, v) = and_true (a.region == b.region) (a.version == b.version) t in
      ap (λ x. group x a.version) ((string_eq.beq_iff a.region b.region).0 r)
      ∙ ap (group b.region) ((string_eq.beq_iff a.version b.version).0 v),
  λ e. rw e (rw (beq_refl b.region, beq_refl b.version)),
)

instance abbrev pub group_eq : Eq Group
group_eq = record { beq = same_group; beq_iff = same_group_iff }

-- `assign`
unfoldable pub assign : Option ApiDroplet → ReservedIp → ReservedIp
unfolding itoa
assign none out = out
assign (some d) out = record out {
  assigned = true;
  droplet_id = itoa (pos d.id);
  droplet_name = d.name;
}

-- `newIPv4`
unfoldable pub new_ipv4 : ApiIpv4 → ReservedIp
unfolding assign
new_ipv4 ip = assign ip.droplet (record {
  ip = ip.ip;
  region = elim ip.region [ none ↦ "" | some slug ↦ slug ];
  version = "4";
  droplet_id = "";
  droplet_name = "";
  project_id = ip.project_id;
  assigned = false;
})

-- `newIPv6`
unfoldable pub new_ipv6 : ApiIpv6 → ReservedIp
unfolding assign
new_ipv6 ip = assign ip.droplet (record {
  ip = ip.ip;
  region = ip.region_slug;
  version = "6";
  droplet_id = "";
  droplet_name = "";
  project_id = "";
  assigned = false;
})

abbrev pub group_of : ReservedIp → Group
group_of ip = record { region = ip.region; version = ip.version }

-- `add`
unfoldable pub add : ReservedIp → Snapshot → Snapshot
unfolding bump
add ip s = record s { ips = s.ips ++ ip ∷ []; counts = bump (group_of ip) s.counts }

-- The two loops of `Refresh`, over the addresses of both lists.
unfoldable pub add_all : List ReservedIp → Snapshot → Snapshot
unfolding add
add_all [] s = s
add_all (ip ∷ ips) s = add_all ips (add ip s)

abbrev pub empty_snapshot : Snapshot
empty_snapshot = record { ips = []; counts = [] }

unfoldable pub snapshot_of : List ApiIpv4 → List ApiIpv6 → Snapshot
unfolding new_ipv4 new_ipv6 add_all
snapshot_of v4 v6 = add_all (map new_ipv6 v6) (add_all (map new_ipv4 v4) empty_snapshot)

module _ {W Links : Type 0} (list_v4 : Api ApiIpv4 W Links) (list_v6 : Api ApiIpv6 W Links) where
  -- The second listing of `Refresh`, and its end.
  unfoldable pub refresh_v6 :
      ℕ → Option Snapshot → List ApiIpv4 → W → Option (Option GoError × Option Snapshot × W)
  unfolding snapshot_of
  refresh_v6 fuel snap v4 w =
      elim (all "reserved IPv6 addresses" (λ (ip : ApiIpv6). ip.ip) list_v6 fuel w) [
        | none ↦ none
        | some (err e, v) ↦ some (some e, snap, v)
        | some (ok v6, v) ↦ some (none, some (snapshot_of v4 v6), v)
      ]

  -- `Refresh`; the snapshot is none before the first success.
  unfoldable pub refresh : ℕ → Option Snapshot → W → Option (Option GoError × Option Snapshot × W)
  unfolding refresh_v6
  refresh fuel snap w = elim (all "reserved IPs" (λ (ip : ApiIpv4). ip.ip) list_v4 fuel w) [
    | none ↦ none
    | some (err e, v) ↦ some (some e, snap, v)
    | some (ok v4, v) ↦ refresh_v6 fuel snap v4 v
  ]

abbrev ip_gauges : ReservedIp → List Gauge
ip_gauges ip =
    let labels = ip.ip ∷ ip.region ∷ ip.version ∷ [] in
    gauge "digitalocean_reserved_ip_assigned" (bool_value ip.assigned) labels
    ∷ gauge "digitalocean_reserved_ip_info" (count 1)
        (labels ++ ip.droplet_id ∷ ip.droplet_name ∷ ip.project_id ∷ [])
    ∷ []

abbrev count_gauge : Group × ℕ → List Gauge
count_gauge entry =
    gauge "digitalocean_reserved_ips" (count entry.1) (entry.0.region ∷ entry.0.version ∷ []) ∷ []

-- `Collect`
unfoldable pub collect : Option Snapshot → List Gauge
unfolding for_each
collect none = []
collect (some snap) = for_each ip_gauges snap.ips ++ for_each count_gauge snap.counts

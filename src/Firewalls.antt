-- ===== src/Firewalls.antt =====
-- internal/collector/firewalls/firewalls.go: the cloud firewalls and how many of their rules are open.
pub mod Open
use digitalocean_exporter.Base.{
  ℕ, suc, ◌+◌, String, string_eq, Bool, true, false, ◌||◌, ◌==◌, Option, none, some, List, [], ◌∷◌,
  ◌++◌, map, keep, GoError, length, if◌then◌else◌,
}
use digitalocean_exporter.Filter.{Filter, match_tags}
use digitalocean_exporter.Listing.{refresh_list}
use digitalocean_exporter.Metrics.{Gauge, gauge, count, for_each}
use digitalocean_exporter.Paging.{Api}

abbrev pub anywhere_v4 : String
anywhere_v4 = "0.0.0.0/0"

abbrev pub anywhere_v6 : String
anywhere_v6 = "::/0"

-- godo.Firewall, with the addresses of the sources of each inbound rule.
pub record ApiFirewall : Type 0 where
  pub id : String
  pub name : String
  pub status : String
  pub droplet_ids : List ℕ
  pub tags : List String
  pub inbound_rules : List (Option (List String))
  pub outbound_rules : ℕ
  pub pending_changes : ℕ

pub record Firewall : Type 0 where
  pub id : String
  pub name : String
  pub status : String
  pub droplets : ℕ
  pub tags : ℕ
  pub inbound : ℕ
  pub outbound : ℕ
  pub open_rules : ℕ
  pub pending : ℕ

-- The inner loop of `countOpen`, which breaks off at the first address that is open.
unfoldable pub reaches_anyone : List String → Bool
reaches_anyone [] = false
reaches_anyone (addr ∷ addrs) =
    let rest = reaches_anyone addrs in
    if addr == anywhere_v4 || addr == anywhere_v6 then true else rest

-- `countOpen`
unfoldable pub count_open : List (Option (List String)) → ℕ
unfolding reaches_anyone
count_open [] = 0
count_open (none ∷ rules) = count_open rules
count_open (some addrs ∷ rules) =
    let rest = count_open rules in if reaches_anyone addrs then suc rest else rest

-- `newFirewall`
unfoldable pub new_firewall : ApiFirewall → Firewall
unfolding count_open
new_firewall f = record {
  id = f.id;
  name = f.name;
  status = f.status;
  droplets = length f.droplet_ids;
  tags = length f.tags;
  inbound = length f.inbound_rules;
  outbound = f.outbound_rules;
  open_rules = count_open f.inbound_rules;
  pending = f.pending_changes;
}

-- The loop of `Refresh`; a firewall has no region.
unfoldable pub firewalls_of : Filter → List ApiFirewall → List Firewall
unfolding match_tags new_firewall
firewalls_of filter fs = map new_firewall (keep (λ (f : ApiFirewall). match_tags filter f.tags) fs)

-- `Refresh`
unfoldable pub refresh :
    {W Links : Type 0}
    → Api ApiFirewall W Links
    → Filter
    → ℕ
    → List Firewall
    → W
    → Option (Option GoError × List Firewall × W)
unfolding firewalls_of refresh_list
refresh list filter fuel snap w =
    refresh_list "firewalls" (λ (f : ApiFirewall). f.id) (firewalls_of filter) list fuel snap w

-- One turn of the loop of `Collect`.
abbrev collect_one : Firewall → List Gauge
collect_one f =
    let labels = f.id ∷ f.name ∷ [] in
    gauge "digitalocean_firewall_info" (count 1) (labels ++ f.status ∷ [])
    ∷ gauge "digitalocean_firewall_droplets" (count f.droplets) labels
    ∷ gauge "digitalocean_firewall_tags" (count f.tags) labels
    ∷ gauge "digitalocean_firewall_inbound_rules" (count f.inbound) labels
    ∷ gauge "digitalocean_firewall_outbound_rules" (count f.outbound) labels
    ∷ gauge "digitalocean_firewall_inbound_rules_open" (count f.open_rules) labels
    ∷ gauge "digitalocean_firewall_pending_changes" (count f.pending) labels
    ∷ []

-- `Collect`
unfoldable pub collect : List Firewall → List Gauge
unfolding for_each
collect snap = for_each collect_one snap

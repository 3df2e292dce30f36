-- ===== src/LoadBalancers.antt =====
-- internal/collector/loadbalancers/loadbalancers.go: the load balancers with their forwarding rules,
-- health checks and firewalls.
use digitalocean_exporter.Base.{
  ℕ, ℤ, String, string_eq, Bool, ◌==◌, Option, none, some, List, [], ◌∷◌, ◌++◌, map, keep, GoError,
  length,
}
use digitalocean_exporter.Filter.{Filter, matches}
use digitalocean_exporter.Listing.{refresh_list}
use digitalocean_exporter.Metrics.{Gauge, gauge, whole, count, bool_value, for_each}
use digitalocean_exporter.Paging.{Api}
use digitalocean_exporter.Text.{itoa, format_bool}

abbrev pub active_status : String
active_status = "active"

-- godo.ForwardingRule
pub record ApiRule : Type 0 where
  pub entry_protocol : String
  pub entry_port : ℤ
  pub target_protocol : String
  pub target_port : ℤ
  pub certificate_id : String
  pub tls_passthrough : Bool

-- godo.HealthCheck
pub record ApiHealthCheck : Type 0 where
  pub protocol : String
  pub port : ℤ
  pub path : String
  pub check_interval_seconds : ℤ
  pub response_timeout_seconds : ℤ
  pub healthy_threshold : ℤ
  pub unhealthy_threshold : ℤ

-- godo.LBFirewall
pub record ApiFirewall : Type 0 where
  pub allow : List String
  pub deny : List String

-- godo.LoadBalancer
pub record ApiLoadBalancer : Type 0 where
  pub id : String
  pub name : String
  pub ip : String
  pub region : Option String
  pub size_slug : String
  pub size_unit : ℕ
  pub type_ : String
  pub algorithm : String
  pub vpc_uuid : String
  pub tag : String
  pub tags : List String
  pub status : String
  pub droplet_ids : List ℕ
  pub forwarding_rules : List ApiRule
  pub health_check : Option ApiHealthCheck
  pub firewall : Option ApiFirewall

pub record ForwardingRule : Type 0 where
  pub entry_protocol : String
  pub entry_port : String
  pub target_protocol : String
  pub target_port : String
  pub certificate_id : String
  pub tls_passthrough : String

pub record HealthCheck : Type 0 where
  pub protocol : String
  pub port : String
  pub path : String
  pub interval : ℤ
  pub timeout : ℤ
  pub healthy : ℤ
  pub unhealthy : ℤ

pub record LoadBalancer : Type 0 where
  pub id : String
  pub name : String
  pub ip : String
  pub region : String
  pub size : String
  pub lb_type : String
  pub algorithm : String
  pub vpc_uuid : String
  pub tag : String
  pub status : Bool
  pub droplets : ℕ
  pub size_units : ℕ
  pub forwarding_rules : ℕ
  pub rules : List ForwardingRule
  pub health : Option HealthCheck
  pub firewall_allow : ℕ
  pub firewall_deny : ℕ

-- `regionSlug`
unfoldable pub region_slug : ApiLoadBalancer → String
region_slug lb = elim lb.region [ none ↦ "" | some slug ↦ slug ]

-- One turn of the loop of `newForwardingRules`.
abbrev new_forwarding_rule : ApiRule → ForwardingRule
new_forwarding_rule rule = record {
  entry_protocol = rule.entry_protocol;
  entry_port = itoa rule.entry_port;
  target_protocol = rule.target_protocol;
  target_port = itoa rule.target_port;
  certificate_id = rule.certificate_id;
  tls_passthrough = format_bool rule.tls_passthrough;
}

-- `newForwardingRules`
unfoldable pub new_forwarding_rules : List ApiRule → List ForwardingRule
unfolding itoa
new_forwarding_rules rules = map new_forwarding_rule rules

-- `newHealthCheck`
unfoldable pub new_health_check : Option ApiHealthCheck → Option HealthCheck
unfolding itoa
new_health_check none = none
new_health_check (some check) = some (record {
  protocol = check.protocol;
  port = itoa check.port;
  path = check.path;
  interval = check.check_interval_seconds;
  timeout = check.response_timeout_seconds;
  healthy = check.healthy_threshold;
  unhealthy = check.unhealthy_threshold;
})

-- `newLoadBalancer`
unfoldable pub new_load_balancer : ApiLoadBalancer → LoadBalancer
unfolding region_slug new_forwarding_rules new_health_check
new_load_balancer lb = record {
  id = lb.id;
  name = lb.name;
  ip = lb.ip;
  region = region_slug lb;
  size = lb.size_slug;
  lb_type = lb.type_;
  algorithm = lb.algorithm;
  vpc_uuid = lb.vpc_uuid;
  tag = lb.tag;
  status = lb.status == active_status;
  droplets = length lb.droplet_ids;
  size_units = lb.size_unit;
  forwarding_rules = length lb.forwarding_rules;
  rules = new_forwarding_rules lb.forwarding_rules;
  health = new_health_check lb.health_check;
  firewall_allow = elim lb.firewall [ none ↦ 0 | some f ↦ length f.allow ];
  firewall_deny = elim lb.firewall [ none ↦ 0 | some f ↦ length f.deny ];
}

-- The loop of `Refresh`.
unfoldable pub load_balancers_of : Filter → List ApiLoadBalancer → List LoadBalancer
unfolding matches region_slug new_load_balancer
load_balancers_of f lbs =
    map new_load_balancer (keep (λ (lb : ApiLoadBalancer). matches f lb.tags (region_slug lb)) lbs)

-- `Refresh`
unfoldable pub refresh :
    {W Links : Type 0}
    → Api ApiLoadBalancer W Links
    → Filter
    → ℕ
    → List LoadBalancer
    → W
    → Option (Option GoError × List LoadBalancer × W)
unfolding load_balancers_of refresh_list
refresh list f fuel snap w =
    refresh_list "load balancers" (λ (lb : ApiLoadBalancer). lb.id) (load_balancers_of f) list fuel
      snap w

-- `collectHealthCheck`
unfoldable pub collect_health_check : List String → Option HealthCheck → List Gauge
collect_health_check labels none = []
collect_health_check labels (some h) =
    gauge "digitalocean_loadbalancer_health_check_info" (count 1)
      (labels ++ h.protocol ∷ h.port ∷ h.path ∷ [])
    ∷ gauge "digitalocean_loadbalancer_health_check_interval_seconds" (whole h.interval) labels
    ∷ gauge "digitalocean_loadbalancer_health_check_timeout_seconds" (whole h.timeout) labels
    ∷ gauge "digitalocean_loadbalancer_health_check_healthy_threshold" (whole h.healthy) labels
    ∷ gauge "digitalocean_loadbalancer_health_check_unhealthy_threshold" (whole h.unhealthy) labels
    ∷ []

abbrev rule_gauge : List String → ForwardingRule → List Gauge
rule_gauge labels rule =
    gauge "digitalocean_loadbalancer_forwarding_rule_info" (count 1) (
      labels
      ++ rule.entry_protocol ∷ rule.entry_port ∷ rule.target_protocol ∷ rule.target_port
        ∷ rule.certificate_id ∷ rule.tls_passthrough ∷ [])
    ∷ []

-- One turn of the loop of `Collect`.
unfoldable pub collect_one : LoadBalancer → List Gauge
unfolding collect_health_check for_each
collect_one lb =
    let labels = lb.id ∷ lb.name ∷ lb.ip ∷ [] in
    gauge "digitalocean_loadbalancer_status" (bool_value lb.status) labels
      ∷ gauge "digitalocean_loadbalancer_droplets" (count lb.droplets) labels
      ∷ gauge "digitalocean_loadbalancer_size_units" (count lb.size_units) labels
      ∷ gauge "digitalocean_loadbalancer_forwarding_rules" (count lb.forwarding_rules) labels
      ∷ gauge "digitalocean_loadbalancer_info" (count 1)
          (labels ++ lb.region ∷ lb.size ∷ lb.lb_type ∷ lb.algorithm ∷ lb.vpc_uuid ∷ lb.tag ∷ [])
      ∷ gauge "digitalocean_loadbalancer_firewall_rules" (count lb.firewall_allow)
          (labels ++ "allow" ∷ [])
      ∷ gauge "digitalocean_loadbalancer_firewall_rules" (count lb.firewall_deny)
          (labels ++ "deny" ∷ [])
      ∷ for_each (rule_gauge labels) lb.rules
    ++ collect_health_check labels lb.health

-- `Collect`
unfoldable pub collect : List LoadBalancer → List Gauge
unfolding collect_one for_each
collect snap = for_each collect_one snap

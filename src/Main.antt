-- ===== src/Main.antt =====
-- cmd/digitalocean_exporter/main.go: which collectors are registered, and the two probes.
--
-- A collector is its name, which every `Name` method of internal/collector returns as it stands in the
-- table, and what its `Refresh` does, the parameter `refresh_of`.
pub mod Registered
pub mod Probes
pub mod Table
use Prim.Native.String.{◌++◌ as str_append}
use digitalocean_exporter.Base.{
  ℕ, ℤ, pos, String, string_eq, Bool, true, false, Option, none, some, List, [], ◌∷◌, if◌then◌else◌,
}
use digitalocean_exporter.Base.Assoc.{Assoc, lookup}
use digitalocean_exporter.Config.{CollectorConfig, Config}
use digitalocean_exporter.Doclient.Context.{Context}
use digitalocean_exporter.Scheduler.{Outcome, Collector, Scheduler, register, pending}

-- The names of the table of `registerCollectors`, in its order.
abbrev pub available : List String
available =
    "account" ∷ "balance" ∷ "databases" ∷ "droplets" ∷ "dropletautoscale" ∷ "images" ∷ "kubernetes"
    ∷ "limits" ∷ "registry" ∷ "reservedips" ∷ "spaces" ∷ "volumes" ∷ "loadbalancers" ∷ "cdn"
    ∷ "apps" ∷ "domains" ∷ "firewalls" ∷ "certificates" ∷ "tags" ∷ "projects" ∷ "dropletmetrics"
    ∷ "loadbalancermetrics" ∷ "uptime" ∷ []

-- `cfg.Collectors[name]`, the zero value where the map has no such name.
unfoldable pub collector_config : Assoc String CollectorConfig → String → CollectorConfig
collector_config collectors name = elim (lookup name collectors) [
  | none ↦ record { enabled = false; interval = pos 0; timeout = pos 0 }
  | some c ↦ c
]

module _ (refresh_of : String → Context → Outcome) where
  abbrev pub build : String → Collector
  build name = record { name = name; refresh = refresh_of name }

  -- One turn of the loop of `registerCollectors`.
  unfoldable pub register_enabled : CollectorConfig → String → Scheduler → Scheduler
  unfolding register
  register_enabled c name s = if c.enabled then register (build name) c.interval c.timeout s else s

  unfoldable pub register_from : Assoc String CollectorConfig → List String → Scheduler → Scheduler
  unfolding register_enabled
  register_from collectors [] s = s
  register_from collectors (name ∷ names) s =
      register_from collectors names (register_enabled (collector_config collectors name) name s)

  -- `registerCollectors`
  unfoldable pub register_collectors : {F : Type 0} → Config F → Scheduler → Scheduler
  unfolding register_from
  register_collectors cfg s = register_from cfg.collectors available s

-- What a probe's handler writes.
pub record Reply : Type 0 where
  pub content_type : String
  pub status : ℕ
  pub body : String

-- `writePlain`
abbrev pub write_plain : ℕ → String → Reply
write_plain status body = record {
  content_type = "text/plain; charset=utf-8";
  status = status;
  body = body;
}

-- `strings.Join(names, "\n")`
unfoldable pub join_lines : List String → String
join_lines [] = ""
join_lines (name ∷ []) = name
join_lines (name ∷ next ∷ names) = str_append name (str_append "\n" (join_lines (next ∷ names)))

-- `handleHealthz`
abbrev pub handle_healthz : Reply
handle_healthz = write_plain 200 "ok\n"

unfoldable pub readyz : List String → Reply
unfolding join_lines
readyz [] = write_plain 200 "ok\n"
readyz (name ∷ names) = write_plain 503 (
    str_append "waiting for the first successful refresh of:\n"
      (str_append (join_lines (name ∷ names)) "\n"))

-- `handleReadyz`
unfoldable pub handle_readyz : Scheduler → Reply
unfolding pending readyz
handle_readyz s = readyz (pending s)

-- ===== src/Tests/Configs.antt =====
-- A configuration with one simple collector, a token in a file and one named bucket.
use digitalocean_exporter.Base.{
  String, string_eq, Bool, true, false, none, [], ◌∷◌, Result, ok, err, ◌≡◌, ◌≢◌, ◌↔◌, refl, All, ℤ,
  pos, negsuc, opaque, sentinel, no_token, token_conflict, ne_of_beq, ◌==◌, if◌then◌else◌,
}
use digitalocean_exporter.Text.{sort_strings, place, split, trim_space, cut}
use digitalocean_exporter.Config.{
  Config, TimedFlags, Flags, validate_durations, validate_simple, validate_timed, require_positive,
  interval_of, split_list, values_of, parse_bucket, parse_specs, parse_buckets, region_or,
  bucket_of, checked, collectors_of, trimmed_of, resolve_secret, spaces_config, require_rate,
  config,
}
use digitalocean_exporter.Base.Assoc.{lookup, insert}
use digitalocean_exporter.Config.Validation.{ValidDurations, validate_durations-ok}
use digitalocean_exporter.Config.Valid.{IsFit, config-IsFit}
use digitalocean_exporter.Config.Lists.{
  IsValue, split_list-IsValue, parse_bucket_at, parse_bucket_default,
}
use digitalocean_exporter.Doclient.Context.{Context}
use digitalocean_exporter.Scheduler.{Outcome, returned, new}
use digitalocean_exporter.Main.{available, register_collectors}
use digitalocean_exporter.Main.Registered.{HasTimes, entries_of, register_collectors-config}

abbrev read_file : String → Result String
read_file file = if file == "/run/token" then ok "dop_v1\n" else err (opaque "no such file")

abbrev is_negative : ℤ → Bool
is_negative (pos n) = false
is_negative (negsuc n) = true

abbrev off : TimedFlags
off = record { enabled = false; interval = pos 300; timeout = pos 120 }

abbrev on : TimedFlags
on = record off { enabled = true }

abbrev flags : Flags ℤ
flags = record {
  listen = ":9212";
  web_config = "";
  token = "";
  token_file = "/run/token";
  api_base_url = "";
  timeout = pos 30;
  rate_limit = pos 4;
  log_level = "info";
  log_format = "logfmt";
  filter_tags = "prod,web" ∷ [];
  filter_regions = [];
  simple = ("account", record { enabled = true; interval = pos 300 }) ∷ [];
  databases = on;
  db_details = true;
  projects = off;
  droplet_metrics = off;
  dm_concurrency = pos 4;
  dm_agent_only = false;
  lb_metrics = off;
  lbm_concurrency = pos 4;
  lbm_extended = false;
  spaces = on;
  spaces_buckets = "logs@nyc3" ∷ [];
  spaces_concurrent = pos 4;
  spaces_key = "key";
  spaces_key_file = "";
  spaces_secret = "hidden";
  spaces_secret_file = "";
  spaces_region = "fra1";
  k8s_upgrades = true;
  uptime = off;
}

abbrev cfg : Config ℤ
cfg = record {
  listen_address = ":9212";
  web_config_file = "";
  token = "dop_v1";
  api_base_url = "";
  timeout = pos 30;
  rate_limit = pos 4;
  log_level = "info";
  log_format = "logfmt";
  filter_tags = "prod" ∷ "web" ∷ [];
  filter_regions = [];
  collectors = collectors_of flags;
  spaces = record {
    access_key = "key";
    secret_key = "hidden";
    region = "fra1";
    buckets = record { name = "logs"; region = "nyc3" } ∷ [];
    concurrency = pos 4;
  };
  droplet_metrics_concurrency = pos 4;
  droplet_metrics_agent_only = false;
  load_balancer_metrics_concurrency = pos 4;
  load_balancer_metrics_extended = false;
  kubernetes_upgrades = true;
  database_details = true;
}

config-flags : config read_file is_negative flags ≡ ok cfg
unfolding config validate_durations require_positive validate_simple validate_timed sort_strings
    place interval_of require_rate resolve_secret trimmed_of trim_space spaces_config parse_buckets
    parse_specs parse_bucket bucket_of region_or split cut checked split_list values_of lookup
    insert
config-flags = refl

config-IsFit_example : IsFit is_negative cfg
config-IsFit_example = config-IsFit read_file is_negative flags cfg config-flags

abbrev refresh_of : String → Context → Outcome
refresh_of name ctx = returned none

register_collectors-config_example :
    ((register_collectors refresh_of cfg (new (pos 30))).entries
      ≡ entries_of refresh_of (pos 30) cfg.collectors available)
    × All HasTimes (register_collectors refresh_of cfg (new (pos 30))).entries
register_collectors-config_example =
    register_collectors-config read_file is_negative flags cfg refresh_of config-flags

validate_durations-ok_example : (validate_durations flags ≡ ok tt) ↔ ValidDurations flags
validate_durations-ok_example = validate_durations-ok flags

resolved :
    resolve_secret read_file "" "/run/token" (sentinel token_conflict) (sentinel no_token)
    ≡ ok "dop_v1"
unfolding resolve_secret trimmed_of trim_space
resolved = refl

abbrev token_file : String
token_file = "/run/token"

abbrev inline : String
inline = ""

abbrev secret : String
secret = "dop_v1"

split_list-IsValue_example : All IsValue (split_list ("prod, web,," ∷ []))
split_list-IsValue_example = split_list-IsValue ("prod, web,," ∷ [])

abbrev bucket : String
bucket = "logs"

abbrev region : String
region = "nyc3"

bucket_named : bucket ≢ ""
bucket_named = ne_of_beq bucket "" refl

region_named : region ≢ ""
region_named = ne_of_beq region "" refl

parse_bucket_at_example :
    parse_bucket "logs@nyc3" "fra1" ≡ ok (record { name = bucket; region = region })
parse_bucket_at_example = parse_bucket_at bucket "fra1" refl bucket_named region region_named

parse_bucket_default_example :
    (parse_bucket bucket region ≡ ok (record { name = bucket; region = region }))
    × (parse_bucket "logs@" region ≡ ok (record { name = bucket; region = region }))
parse_bucket_default_example = parse_bucket_default bucket region refl bucket_named region_named

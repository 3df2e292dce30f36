-- ===== src/Config.antt =====
-- internal/config/config.go: from the parsed flags to a validated configuration.
--
-- kingpin parses the flags, and the file system holds the secret files: both are parameters, the
-- record `Flags` of parsed values and the function `read_file`. A rate limit is a float64 of which the
-- code asks only whether it is negative. Durations are `int64` nanoseconds.
pub mod Lists
pub mod Secrets
pub mod Validation
pub mod Valid
use Prim.Native.String.{◌++◌ as str_append, compare}
use Prim.Native.Nat.{Ordering}
use digitalocean_exporter.Base.{
  ℕ, ◌*◌, String, string_eq, Bool, true, false, not, ◌&&◌, Option, none, some, List, [], ◌∷◌, ◌++◌,
  map, Sentinel, no_token, token_conflict, no_spaces_credentials, spaces_credential_conflict,
  no_spaces_region, non_positive_interval, non_positive_timeout, negative_rate_limit, GoError,
  sentinel, opaque, wrap, Result, ok, err, ◌>>=◌, ◌>>◌, ℤ, pos, ◌==◌, if◌then◌else◌,
}
use digitalocean_exporter.Base.Int.{positive}
use digitalocean_exporter.Base.Assoc.{Assoc, lookup, insert, keys}
use digitalocean_exporter.Text.{sort_strings, split, trim_space, cut}

pub record CollectorConfig : Type 0 where
  pub enabled : Bool
  pub interval : ℤ
  pub timeout : ℤ

pub record SpacesBucket : Type 0 where
  pub name : String
  pub region : String

pub record SpacesConfig : Type 0 where
  pub access_key : String
  pub secret_key : String
  pub region : String
  pub buckets : List SpacesBucket
  pub concurrency : ℤ

pub record Config (F : Type 0) : Type 0 where
  pub listen_address : String
  pub web_config_file : String
  pub token : String
  pub api_base_url : String
  pub timeout : ℤ
  pub rate_limit : F
  pub log_level : String
  pub log_format : String
  pub filter_tags : List String
  pub filter_regions : List String
  pub collectors : Assoc String CollectorConfig
  pub spaces : SpacesConfig
  pub droplet_metrics_concurrency : ℤ
  pub droplet_metrics_agent_only : Bool
  pub load_balancer_metrics_concurrency : ℤ
  pub load_balancer_metrics_extended : Bool
  pub kubernetes_upgrades : Bool
  pub database_details : Bool

-- The two flags every collector has.
pub record CollectorFlags : Type 0 where
  pub enabled : Bool
  pub interval : ℤ

-- The flags of a collector with a timeout of its own, `f.databases`, `f.dbInterval` and `f.dbTimeout`
-- and their like.
pub record TimedFlags : Type 0 where
  pub enabled : Bool
  pub interval : ℤ
  pub timeout : ℤ

abbrev pub minute : ℕ
minute = 60000000000

abbrev pub default_interval : ℤ
default_interval = pos (5 * minute)

-- A row of `simpleCollectors`, without its help text.
pub record SimpleCollector : Type 0 where
  pub name : String
  pub enabled : Bool
  pub interval : ℤ

abbrev by_default : String → SimpleCollector
by_default name = record { name = name; enabled = true; interval = default_interval }

abbrev slower : String → ℕ → SimpleCollector
slower name minutes = record { name = name; enabled = true; interval = pos (minutes * minute) }

abbrev on_request : String → SimpleCollector
on_request name = record { name = name; enabled = false; interval = default_interval }

abbrev pub simple_table : List SimpleCollector
simple_table =
    by_default "account"
    ∷ by_default "balance"
    ∷ by_default "registry"
    ∷ by_default "reservedips"
    ∷ by_default "limits"
    ∷ by_default "droplets"
    ∷ slower "dropletautoscale" 2
    ∷ by_default "kubernetes"
    ∷ by_default "volumes"
    ∷ slower "images" 10
    ∷ by_default "loadbalancers"
    ∷ by_default "cdn"
    ∷ by_default "apps"
    ∷ by_default "domains"
    ∷ slower "tags" 10
    ∷ on_request "firewalls"
    ∷ on_request "certificates"
    ∷ []

-- The loop of `bindSimple`; `parse` is what kingpin makes of the two flags of a row and its defaults.
unfoldable pub bind_from :
    (SimpleCollector → CollectorFlags)
    → Assoc String CollectorFlags
    → List SimpleCollector
    → Assoc String CollectorFlags
bind_from parse bound [] = bound
bind_from parse bound (c ∷ cs) = bind_from parse (insert c.name (parse c) bound) cs

-- `bindSimple`
unfoldable pub bind_simple : (SimpleCollector → CollectorFlags) → Assoc String CollectorFlags
unfolding bind_from
bind_simple parse = bind_from parse [] simple_table

pub record Flags (F : Type 0) : Type 0 where
  pub listen : String
  pub web_config : String
  pub token : String
  pub token_file : String
  pub api_base_url : String
  pub timeout : ℤ
  pub rate_limit : F
  pub log_level : String
  pub log_format : String
  pub filter_tags : List String
  pub filter_regions : List String
  pub simple : Assoc String CollectorFlags
  pub databases : TimedFlags
  pub db_details : Bool
  pub projects : TimedFlags
  pub droplet_metrics : TimedFlags
  pub dm_concurrency : ℤ
  pub dm_agent_only : Bool
  pub lb_metrics : TimedFlags
  pub lbm_concurrency : ℤ
  pub lbm_extended : Bool
  pub spaces : TimedFlags
  pub spaces_buckets : List String
  pub spaces_concurrent : ℤ
  pub spaces_key : String
  pub spaces_key_file : String
  pub spaces_secret : String
  pub spaces_secret_file : String
  pub spaces_region : String
  pub k8s_upgrades : Bool
  pub uptime : TimedFlags

-- `requirePositive`
unfoldable pub require_positive : String → ℤ → Sentinel → Result (Unit {0})
require_positive flag d s =
    if positive d then ok tt else err (wrap (str_append "--" flag) (sentinel s))

abbrev pub interval_flag : String → String
interval_flag name = str_append "collector." (str_append name ".interval")

abbrev pub timeout_flag : String → String
timeout_flag name = str_append "collector." (str_append name ".timeout")

-- `*f.simple[name].interval`, read for names that are in the map.
unfoldable pub interval_of : Assoc String CollectorFlags → String → ℤ
interval_of simple name = elim (lookup name simple) [ none ↦ pos 0 | some bound ↦ bound.interval ]

unfoldable pub validate_simple : Assoc String CollectorFlags → List String → Result (Unit {0})
unfolding require_positive interval_of
validate_simple simple [] = ok tt
validate_simple simple (name ∷ names) =
    require_positive (interval_flag name) (interval_of simple name) non_positive_interval
    >> validate_simple simple names

unfoldable pub validate_timed : List (String × TimedFlags) → Result (Unit {0})
unfolding require_positive
validate_timed [] = ok tt
validate_timed ((name, c) ∷ rest) = do
  require_positive (interval_flag name) c.interval non_positive_interval
  require_positive (timeout_flag name) c.timeout non_positive_timeout
  validate_timed rest

module _ {F : Type 0} where
  -- The collectors that carry a timeout of their own, in the order of `validateDurations`.
  abbrev pub timed : Flags F → List (String × TimedFlags)
  timed f =
      ("databases", f.databases)
      ∷ ("projects", f.projects)
      ∷ ("dropletmetrics", f.droplet_metrics)
      ∷ ("loadbalancermetrics", f.lb_metrics)
      ∷ ("spaces", f.spaces)
      ∷ ("uptime", f.uptime)
      ∷ []

  -- `validateDurations`
  unfoldable pub validate_durations : Flags F → Result (Unit {0})
  unfolding require_positive validate_simple validate_timed sort_strings
  validate_durations f = do
    require_positive "do.timeout" f.timeout non_positive_timeout
    validate_simple f.simple (sort_strings (keys f.simple))
    validate_timed (timed f)

-- The loop over one entry's values in `splitList`.
unfoldable pub values_of : List String → List String
values_of [] = []
values_of (v ∷ vs) =
    let value = trim_space v in
    let rest = values_of vs in if value == "" then rest else value ∷ rest

-- `splitList`
unfoldable pub split_list : List String → List String
unfolding values_of
split_list [] = []
split_list (entry ∷ raw) = values_of (split b',' entry) ++ split_list raw

-- The region of a specification: the default where none was given, or an empty one.
unfoldable pub region_or : String → Bool → String → String
region_or region found default_region =
    if not found then default_region else if region == "" then default_region else region

-- The checks of `parseBucket`.
unfoldable pub bucket_of : String → String → String → Result SpacesBucket
bucket_of spec name region =
    if name == ""
    then err (opaque (str_append "empty bucket name in " spec))
    else if region == ""
    then err (wrap (str_append "no region: bucket " name) (sentinel no_spaces_region))
    else ok (record { name = name; region = region })

-- `parseBucket`
unfoldable pub parse_bucket : String → String → Result SpacesBucket
unfolding region_or bucket_of
parse_bucket spec default_region =
    let (name, region, found) = cut b'@' spec in
    bucket_of spec name (region_or region found default_region)

-- The loops of `parseBuckets`, over the specifications of one entry and over the entries.
unfoldable pub parse_specs : List String → String → Result (List SpacesBucket)
unfolding parse_bucket
parse_specs [] default_region = ok []
parse_specs (s ∷ specs) default_region =
    let spec = trim_space s in
    let rest = parse_specs specs default_region in
    if spec == ""
    then rest
    else do bucket ← parse_bucket spec default_region; buckets ← rest; ok (bucket ∷ buckets)

unfoldable pub parse_buckets : List String → String → Result (List SpacesBucket)
unfolding parse_specs
parse_buckets [] default_region = ok []
parse_buckets (entry ∷ raw) default_region = do
  buckets ← parse_specs (split b',' entry) default_region
  rest ← parse_buckets raw default_region
  ok (buckets ++ rest)

-- The last check of `spacesConfig`: discovery needs a region.
unfoldable pub checked : Bool → List SpacesBucket → String → SpacesConfig → Result SpacesConfig
checked true [] region cfg =
    if region == ""
    then err (wrap "discovery needs a region" (sentinel no_spaces_region))
    else ok cfg
checked _ _ region cfg = ok cfg

-- `collectors[name] = CollectorConfig{Enabled: …, Interval: …}` for the simple collectors.
unfoldable pub simple_collectors : Assoc String CollectorFlags → Assoc String CollectorConfig
simple_collectors [] = []
simple_collectors ((name, bound) ∷ simple) =
    insert name (record { enabled = bound.enabled; interval = bound.interval; timeout = pos 0 })
      (simple_collectors simple)

-- `collectors[name] = CollectorConfig{…}` for those with a timeout.
unfoldable pub add_timed :
    List (String × TimedFlags) → Assoc String CollectorConfig → Assoc String CollectorConfig
add_timed [] collectors = collectors
add_timed ((name, c) ∷ rest) collectors = add_timed rest (
    insert name (record { enabled = c.enabled; interval = c.interval; timeout = c.timeout })
      collectors)

module _ {F : Type 0} where
  -- The six assignments of `config` to its map.
  abbrev pub timed_collectors : Flags F → List (String × TimedFlags)
  timed_collectors f =
      ("databases", f.databases)
      ∷ ("projects", f.projects)
      ∷ ("dropletmetrics", f.droplet_metrics)
      ∷ ("loadbalancermetrics", f.lb_metrics)
      ∷ ("spaces", f.spaces)
      ∷ ("uptime", f.uptime)
      ∷ []

  unfoldable pub collectors_of : Flags F → Assoc String CollectorConfig
  unfolding simple_collectors add_timed
  collectors_of f = add_timed (timed_collectors f) (simple_collectors f.simple)

-- What `resolveSecret` makes of the file's contents.
unfoldable pub trimmed_of : String → GoError → Result String → Result String
trimmed_of file missing (err e) = err (wrap (str_append "read " file) e)
trimmed_of file missing (ok raw) =
    let trimmed = trim_space raw in
    if trimmed == "" then err (wrap (str_append "empty file: " file) missing) else ok trimmed

module _ (read_file : String → Result String) where
  -- `resolveSecret`
  unfoldable pub resolve_secret : String → String → GoError → GoError → Result String
  unfolding trimmed_of
  resolve_secret inline file conflict missing =
      if not (inline == "") && not (file == "")
      then err conflict
      else if not (inline == "")
      then ok inline
      else if not (file == "")
      then trimmed_of file missing (read_file file)
      else err missing

  abbrev pub or_zero {ℓ} : {A : Type ℓ} → A → Result A → A
  or_zero zero (ok a) = a
  or_zero zero (err e) = zero

  -- `if err != nil && *f.spaces { return err }`; a switched-off collector goes on with the zero value.
  abbrev pub demand {ℓ} : {A : Type ℓ} → Bool → A → Result A → Result A
  demand true zero r = r
  demand false zero r = ok (or_zero zero r)

  module _ {F : Type 0} where
    -- `spacesConfig`
    unfoldable pub spaces_config : Flags F → Result SpacesConfig
    unfolding resolve_secret parse_buckets checked
    spaces_config f = do
      let on = f.spaces.enabled
      key ← demand on "" (
          resolve_secret f.spaces_key f.spaces_key_file (sentinel spaces_credential_conflict)
            (sentinel no_spaces_credentials))
      secret ← demand on "" (
          resolve_secret f.spaces_secret f.spaces_secret_file (sentinel spaces_credential_conflict)
            (sentinel no_spaces_credentials))
      buckets ← demand on [] (parse_buckets f.spaces_buckets f.spaces_region)
      checked on buckets f.spaces_region (record {
        access_key = key;
        secret_key = secret;
        region = f.spaces_region;
        buckets = buckets;
        concurrency = f.spaces_concurrent;
      })

    module _ (is_negative : F → Bool) where
      -- `*f.rateLimit < 0`
      unfoldable pub require_rate : F → Result (Unit {0})
      require_rate rate =
          if is_negative rate
          then err (wrap "--do.rate-limit" (sentinel negative_rate_limit))
          else ok tt

      -- `config`
      unfoldable pub config : Flags F → Result (Config F)
      unfolding validate_durations resolve_secret spaces_config split_list collectors_of
          require_rate
      config f = do
        validate_durations f
        require_rate f.rate_limit
        token ← resolve_secret f.token f.token_file (sentinel token_conflict) (sentinel no_token)
        spaces ← spaces_config f
        ok (record {
          listen_address = f.listen;
          web_config_file = f.web_config;
          token = token;
          api_base_url = f.api_base_url;
          timeout = f.timeout;
          rate_limit = f.rate_limit;
          log_level = f.log_level;
          log_format = f.log_format;
          filter_tags = split_list f.filter_tags;
          filter_regions = split_list f.filter_regions;
          collectors = collectors_of f;
          spaces = spaces;
          droplet_metrics_concurrency = f.dm_concurrency;
          droplet_metrics_agent_only = f.dm_agent_only;
          load_balancer_metrics_concurrency = f.lbm_concurrency;
          load_balancer_metrics_extended = f.lbm_extended;
          kubernetes_upgrades = f.k8s_upgrades;
          database_details = f.db_details;
        })

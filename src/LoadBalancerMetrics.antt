-- ===== src/LoadBalancerMetrics.antt =====
-- internal/collector/loadbalancermetrics/loadbalancermetrics.go and metrics.go: what the monitoring
-- API reports of every load balancer, the base metrics and the extended ones. The fan-out is in Fanout.
--
-- A measured value is of the type `V`, a timestamp of the type `Stamp` with its Unix seconds, and an
-- answer of the monitoring API is the function `answer`.
pub mod Measured
use Prim.Native.String.{◌++◌ as str_append}
use digitalocean_exporter.Base.{
  ℕ, zero, suc, nat_eq, ℤ, pos, String, string_eq, Bool, true, false, not, ◌&&◌, ◌||◌, ◌==◌, Option,
  none, some, List, [], ◌∷◌, ◌++◌, map, GoError, opaque, wrap, Result, ok, err, ◌>>=◌,
  no_load_balancer_measured, refresh_cut_short, keep, if◌then◌else◌,
}
use digitalocean_exporter.Base.Int.{ltb_ℤ}
use digitalocean_exporter.Fanout
use digitalocean_exporter.Fanout.{Reading, Reference, Collector, Failures, starved}
use digitalocean_exporter.Filter.{Filter, matches}
use digitalocean_exporter.Paging.{Api, all}
use digitalocean_exporter.Timeseries.{Model, MetricsResponse, Sample, label, latest}

-- The requests of the monitoring API, by the client's methods.
pub data Endpoint : Type 0 where
  get_frontend_connections_current : Endpoint
  get_frontend_connections_limit : Endpoint
  get_frontend_cpu_utilization : Endpoint
  get_frontend_http_responses : Endpoint
  get_droplets_health_checks : Endpoint
  get_droplets_downtime : Endpoint
  get_droplets_http_response_time_95p : Endpoint
  get_frontend_http_requests_per_second : Endpoint
  get_frontend_network_throughput_http : Endpoint
  get_frontend_network_throughput_udp : Endpoint
  get_frontend_network_throughput_tcp : Endpoint
  get_frontend_nlb_tcp_network_throughput : Endpoint
  get_frontend_nlb_udp_network_throughput : Endpoint
  get_frontend_firewall_dropped_bytes : Endpoint
  get_frontend_firewall_dropped_packets : Endpoint
  get_frontend_tls_connections_current : Endpoint
  get_frontend_tls_connections_limit : Endpoint
  get_frontend_tls_connections_exceeding_rate_limit : Endpoint
  get_droplets_connections : Endpoint
  get_droplets_queue_size : Endpoint
  get_droplets_http_responses : Endpoint
  get_droplets_http_session_duration_avg : Endpoint
  get_droplets_http_session_duration_50p : Endpoint
  get_droplets_http_session_duration_95p : Endpoint
  get_droplets_http_response_time_avg : Endpoint
  get_droplets_http_response_time_50p : Endpoint
  get_droplets_http_response_time_99p : Endpoint

-- `spec`, with the descriptor by its name.
pub record Spec : Type 0 where
  pub name : String
  pub desc : String
  pub series_labels : List String
  pub endpoint : Endpoint

abbrev a_spec : String → String → List String → Endpoint → Spec
a_spec name desc labels endpoint = record {
  name = name;
  desc = desc;
  series_labels = labels;
  endpoint = endpoint;
}

abbrev pub specs : List Spec
specs =
    a_spec "frontend_connections_current" "digitalocean_loadbalancer_frontend_connections_current"
      [] get_frontend_connections_current
    ∷ a_spec "frontend_connections_limit" "digitalocean_loadbalancer_frontend_connections_limit" []
        get_frontend_connections_limit
    ∷ a_spec "frontend_cpu_utilization" "digitalocean_loadbalancer_frontend_cpu_utilization_percent"
        [] get_frontend_cpu_utilization
    ∷ a_spec "frontend_http_responses"
        "digitalocean_loadbalancer_frontend_http_responses_per_second" ("code" ∷ [])
        get_frontend_http_responses
    ∷ a_spec "droplets_health_checks" "digitalocean_loadbalancer_droplets_health_checks"
        ("server" ∷ []) get_droplets_health_checks
    ∷ a_spec "droplets_downtime" "digitalocean_loadbalancer_droplets_downtime" ("server" ∷ [])
        get_droplets_downtime
    ∷ a_spec "droplets_http_response_time_95p"
        "digitalocean_loadbalancer_droplets_http_response_time_p95_seconds" []
        get_droplets_http_response_time_95p
    ∷ []

-- `extendedSpecs`
abbrev pub extended_specs : List Spec
extended_specs =
    a_spec "frontend_http_requests_per_second"
      "digitalocean_loadbalancer_frontend_http_requests_per_second" []
      get_frontend_http_requests_per_second
    ∷ a_spec "frontend_network_throughput_http"
        "digitalocean_loadbalancer_frontend_network_throughput_http_bytes_per_second" []
        get_frontend_network_throughput_http
    ∷ a_spec "frontend_network_throughput_udp"
        "digitalocean_loadbalancer_frontend_network_throughput_udp_bytes_per_second" []
        get_frontend_network_throughput_udp
    ∷ a_spec "frontend_network_throughput_tcp"
        "digitalocean_loadbalancer_frontend_network_throughput_tcp_bytes_per_second" []
        get_frontend_network_throughput_tcp
    ∷ a_spec "frontend_nlb_tcp_network_throughput"
        "digitalocean_loadbalancer_frontend_nlb_tcp_network_throughput_bytes_per_second" []
        get_frontend_nlb_tcp_network_throughput
    ∷ a_spec "frontend_nlb_udp_network_throughput"
        "digitalocean_loadbalancer_frontend_nlb_udp_network_throughput_bytes_per_second" []
        get_frontend_nlb_udp_network_throughput
    ∷ a_spec "frontend_firewall_dropped_bytes"
        "digitalocean_loadbalancer_frontend_firewall_dropped_bytes_per_second" []
        get_frontend_firewall_dropped_bytes
    ∷ a_spec "frontend_firewall_dropped_packets"
        "digitalocean_loadbalancer_frontend_firewall_dropped_packets_per_second" []
        get_frontend_firewall_dropped_packets
    ∷ a_spec "frontend_tls_connections_current"
        "digitalocean_loadbalancer_frontend_tls_connections_current" []
        get_frontend_tls_connections_current
    ∷ a_spec "frontend_tls_connections_limit"
        "digitalocean_loadbalancer_frontend_tls_connections_limit" []
        get_frontend_tls_connections_limit
    ∷ a_spec "frontend_tls_connections_exceeding_rate_limit"
        "digitalocean_loadbalancer_frontend_tls_connections_exceeding_rate_limit" []
        get_frontend_tls_connections_exceeding_rate_limit
    ∷ a_spec "droplets_connections" "digitalocean_loadbalancer_droplets_connections" ("server" ∷ [])
        get_droplets_connections
    ∷ a_spec "droplets_queue_size" "digitalocean_loadbalancer_droplets_queue_size" []
        get_droplets_queue_size
    ∷ a_spec "droplets_http_responses"
        "digitalocean_loadbalancer_droplets_http_responses_per_second" ("code" ∷ [])
        get_droplets_http_responses
    ∷ a_spec "droplets_http_session_duration_avg"
        "digitalocean_loadbalancer_droplets_http_session_duration_avg_seconds" []
        get_droplets_http_session_duration_avg
    ∷ a_spec "droplets_http_session_duration_50p"
        "digitalocean_loadbalancer_droplets_http_session_duration_p50_seconds" []
        get_droplets_http_session_duration_50p
    ∷ a_spec "droplets_http_session_duration_95p"
        "digitalocean_loadbalancer_droplets_http_session_duration_p95_seconds" []
        get_droplets_http_session_duration_95p
    ∷ a_spec "droplets_http_response_time_avg"
        "digitalocean_loadbalancer_droplets_http_response_time_avg_seconds" []
        get_droplets_http_response_time_avg
    ∷ a_spec "droplets_http_response_time_50p"
        "digitalocean_loadbalancer_droplets_http_response_time_p50_seconds" []
        get_droplets_http_response_time_50p
    ∷ a_spec "droplets_http_response_time_99p"
        "digitalocean_loadbalancer_droplets_http_response_time_p99_seconds" []
        get_droplets_http_response_time_99p
    ∷ []

pub record Point (V : Type 0) : Type 0 where
  pub desc : String
  pub labels : List String
  pub value : V

module _ {V Stamp : Type 0} (model : Model V Stamp) (unix : Stamp → ℤ) where
  -- One turn of the loop of `fetch`.
  abbrev pub add_sample : Spec → Sample V Stamp → Reading (Point V) → Reading (Point V)
  add_sample s sample out =
      let at = unix sample.time in
      record out {
        points =
            out.points
            ++ record {
              desc = s.desc;
              labels = out.id ∷ out.name ∷ map (label sample) s.series_labels;
              value = sample.value;
            }
              ∷ [];
        sampled = if ltb_ℤ out.sampled at then at else out.sampled;
      }

  -- The loop of `fetch`: the samples of one answer, added to the load balancer.
  unfoldable pub add_samples : Spec → List (Sample V Stamp) → Reading (Point V) → Reading (Point V)
  add_samples s [] out = out
  add_samples s (sample ∷ samples) out = add_samples s samples (add_sample s sample out)

  module _ (answer : Endpoint → Reference → Result (Option (MetricsResponse V Stamp))) where
    -- What `fetch` reads before it appends.
    unfoldable pub read : Spec → Reference → Result (List (Sample V Stamp))
    unfolding latest
    read s ref = elim (answer s.endpoint ref) [
      | err e ↦ err (wrap (str_append "fetch " s.name) e)
      | ok resp ↦ elim (latest model resp) [
        | err e ↦ err (wrap (str_append "read " s.name) e)
        | ok samples ↦ ok samples
      ]
    ]

    -- The loop of `measure` over `specs`.
    unfoldable pub measure_base :
        List Spec → Reference → Reading (Point V) → Result (Reading (Point V))
    unfolding read add_samples
    measure_base [] ref out = ok out
    measure_base (s ∷ rest) ref out = do
      samples ← read s ref
      measure_base rest ref (add_samples s samples out)

    -- One turn of the loop over `extendedSpecs`, by what its request gave.
    unfoldable pub contain :
        Spec → Result (List (Sample V Stamp)) → Reading (Point V) → Result (Reading (Point V))
    unfolding add_samples starved
    contain s (ok samples) out = ok (add_samples s samples out)
    contain s (err e) out = if starved e then err e else ok out

    -- The loop of `measure` over `extendedSpecs`.
    unfoldable pub measure_extended :
        List Spec → Reference → Reading (Point V) → Result (Reading (Point V))
    unfolding read contain
    measure_extended [] ref out = ok out
    measure_extended (s ∷ rest) ref out = do
      next ← contain s (read s ref) out
      measure_extended rest ref next

    abbrev pub fresh : Reference → Reading (Point V)
    fresh ref = record { id = ref.id; name = ref.name; up = 1; sampled = pos 0; points = [] }

    -- `measure`; `extended` is the flag.
    unfoldable pub measure : Bool → Reference → Result (Reading (Point V))
    unfolding measure_base measure_extended
    measure extended ref = do
      out ← measure_base specs ref (fresh ref)
      if extended then measure_extended extended_specs ref out else ok out

-- godo.LoadBalancer, as much of it as the listing reads.
pub record Listed : Type 0 where
  pub id : String
  pub name : String
  pub tags : List String
  pub region : Option String

-- `regionSlug`
unfoldable pub region_slug : Listed → String
region_slug lb = elim lb.region [ none ↦ "" | some slug ↦ slug ]

module _ {W Links : Type 0} (list : Api Listed W Links) (f : Filter) where
  abbrev pub refs_of : List Listed → List Reference
  refs_of lbs =
      map (λ (lb : Listed). let r : Reference = record { id = lb.id; name = lb.name } in r)
        (keep (λ (lb : Listed). matches f lb.tags (region_slug lb)) lbs)

  abbrev listed : Option (Result (List Listed) × W) → Option (Result (List Reference) × W)
  listed none = none
  listed (some (err e, w)) = some (err e, w)
  listed (some (ok lbs, w)) = some (ok (refs_of lbs), w)

  -- `listLoadBalancers`
  unfoldable pub list_load_balancers : ℕ → W → Option (Result (List Reference) × W)
  unfolding matches region_slug
  list_load_balancers fuel w = listed (all "load balancers" (λ (lb : Listed). lb.id) list fuel w)

abbrev pub failures : Failures
failures = record { cut_short = refresh_cut_short; none_measured = no_load_balancer_measured }

module _ {V Stamp : Type 0} (model : Model V Stamp) (unix : Stamp → ℤ)
    (answer : Endpoint → Reference → Result (Option (MetricsResponse V Stamp)))
    (extended : Bool) where
  -- `Refresh`, by what the listing returned, where the dispatch stopped and `ctx.Err()` at the end.
  unfoldable pub refresh :
      Result (List Reference)
      → Option (ℕ × GoError)
      → Option GoError
      → Collector (Point V)
      → Option GoError × Collector (Point V)
  unfolding measure
  refresh = Fanout.refresh failures (measure model unix answer extended)

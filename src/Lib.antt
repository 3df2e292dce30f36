-- ===== src/Lib.antt =====
-- A model of the DigitalOcean exporter for Prometheus, and theorems about it.
--
-- The exporter reads an account through DigitalOcean's API and serves what it read as metrics.
-- cmd/digitalocean_exporter/main.go builds it: internal/config turns flags into a configuration,
-- the enabled collectors of internal/collector are registered with the scheduler, which refreshes each
-- of them at its interval, and the probes ask the scheduler. A collector reads the API through
-- internal/doclient, which limits, retries and counts requests, lists with internal/paging, keeps what
-- internal/filter admits, and reads monitoring answers with internal/timeseries.
--
-- The files, each with its children:
--   Base: errors, results, comparison, lists, maps and integers for the other files; Text: the
--     functions of the packages strings, sort and strconv that the code calls.
--   Paging: internal/paging/paging.go, `All` as `all` with its loop `walk`, `keepNew` as `keep_new`.
--   Filter: internal/filter/filter.go. Timeseries: internal/timeseries/timeseries.go.
--   Doclient: internal/doclient. Context is context.go; Resource, Backoff, Transport and Client are
--     client.go: the label of a path, the retry policy, and the round trip with its metrics.
--   Scheduler: internal/collector/scheduler.go and the interface in collector.go.
--   Config: internal/config/config.go, from parsed flags to the configuration.
--   Main: the registration and the probes of cmd/digitalocean_exporter/main.go.
--   Fanout: what internal/collector/dropletmetrics and internal/collector/loadbalancermetrics share,
--     with the queue and its workers as a step relation; DropletMetrics and LoadBalancerMetrics: what
--     each of the two measures. Spaces: internal/collector/spaces and internal/spacesclient.
--   Metrics: the gauges and the statuses that the collectors send alike. Listing: the refresh of the
--     collectors that read one list. Volumes: internal/collector/volumes and
--     internal/collector/domains. Tags, Droplets, LoadBalancers, Apps, Firewalls, Images,
--     ReservedIps and Projects: the collectors of these names. Account: internal/collector/account and
--     internal/collector/limits. Balance: internal/collector/balance.
--     DropletAutoscale: internal/collector/dropletautoscale. Certificates:
--     internal/collector/certificates and internal/collector/cdn.
--   Details: the lookups that Databases (internal/collector/databases) and Kubernetes
--     (internal/collector/kubernetes) make for every cluster of a list, and Uptime
--     (internal/collector/uptime) for every check. Registry:
--     internal/collector/registry.
--   Tests: the theorems below at concrete data.
--
-- Code outside the repository is a parameter: godo as `Api`, `Listings` and `Client`, the limiter, the HTTP
-- transport and the timers as `Env`, the S3 clients as `S3`, the file system as `read_file`, float64
-- and time.Time where the code only compares them. Calls of these that change the world pass it on
-- as a value. Metrics are part of the state.
--
-- Bounds: durations are int64 nanoseconds with the wrap-around written out where the code multiplies
-- or shifts. The walks over pages are the loops without a bound: `All`, the database clusters and the
-- repositories of a registry. Each takes one unit of fuel for each page, and the theorems say how much is
-- enough.
--
-- The goroutines of the scheduler are the order in which refreshes end, and those of a measuring
-- refresh the steps of Fanout/Queue, of which the results depend on the index alone at which the
-- dispatch stopped. Texts of errors are kept as far as they name what
-- failed. Not modelled: logging, the registration of metrics and flags, the HTTP server and the
-- version of the build. The texts of
-- times and prices are parsed by parameters, and a float64 of the API is kept as its text.
pub mod Account
pub mod Apps
pub mod Balance
pub mod Base
pub mod Certificates
pub mod Config
pub mod Databases
pub mod Details
pub mod Doclient
pub mod DropletAutoscale
pub mod DropletMetrics
pub mod Droplets
pub mod Fanout
pub mod Filter
pub mod Firewalls
pub mod Images
pub mod Kubernetes
pub mod Listing
pub mod LoadBalancerMetrics
pub mod LoadBalancers
pub mod Main
pub mod Metrics
pub mod Paging
pub mod Projects
pub mod Registry
pub mod ReservedIps
pub mod Scheduler
pub mod Spaces
pub mod Tags
pub mod Tests
pub mod Text
pub mod Timeseries
pub mod Uptime
pub mod Volumes

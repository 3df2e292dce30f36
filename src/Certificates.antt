-- ===== src/Certificates.antt =====
-- internal/collector/certificates/certificates.go and internal/collector/cdn/cdn.go: the TLS certificates
-- and the CDN endpoints of the account.
--
-- `parse_time` is `time.Parse(time.RFC3339, text)`, by the Unix seconds of the time.
use digitalocean_exporter.Base.{
  ℕ, ℤ, String, string_eq, Option, List, [], ◌∷◌, map, GoError, length,
}
use digitalocean_exporter.Listing.{refresh_list}
use digitalocean_exporter.Metrics.{Gauge, gauge, count, for_each, known_gauge}
use digitalocean_exporter.Paging.{Api}

-- godo.Certificate
pub record ApiCertificate : Type 0 where
  pub id : String
  pub name : String
  pub type_ : String
  pub state : String
  pub sha1_fingerprint : String
  pub dns_names : List String
  pub not_after : String

-- `certificate`; `not_after` is `expires` and `notAfter`.
pub record Certificate : Type 0 where
  pub id : String
  pub name : String
  pub kind : String
  pub state : String
  pub fingerprint : String
  pub dns_names : ℕ
  pub not_after : Option ℤ

module _ (parse_time : String → Option ℤ) where
  -- `newCertificate`
  unfoldable pub new_certificate : ApiCertificate → Certificate
  new_certificate cert = record {
    id = cert.id;
    name = cert.name;
    kind = cert.type_;
    state = cert.state;
    fingerprint = cert.sha1_fingerprint;
    dns_names = length cert.dns_names;
    not_after = parse_time cert.not_after;
  }

  -- `Refresh`
  unfoldable pub refresh_certificates :
      {W Links : Type 0}
      → Api ApiCertificate W Links
      → ℕ
      → List Certificate
      → W
      → Option (Option GoError × List Certificate × W)
  unfolding new_certificate refresh_list
  refresh_certificates list fuel snap w =
      refresh_list "certificates" (λ (cert : ApiCertificate). cert.id) (map new_certificate) list
        fuel snap w

-- One turn of the loop of `Collect`.
abbrev certificate_gauges : Certificate → List Gauge
certificate_gauges cert =
    gauge "digitalocean_certificate_info" (count 1)
      (cert.id ∷ cert.name ∷ cert.kind ∷ cert.state ∷ cert.fingerprint ∷ [])
    ∷ gauge "digitalocean_certificate_dns_names" (count cert.dns_names) (cert.id ∷ cert.name ∷ [])
    ∷ known_gauge "digitalocean_certificate_expiry_timestamp_seconds" cert.not_after
        (cert.id ∷ cert.name ∷ cert.kind ∷ [])

-- `Collect`
unfoldable pub collect_certificates : List Certificate → List Gauge
unfolding for_each
collect_certificates snap = for_each certificate_gauges snap

-- godo.CDN
pub record ApiCdn : Type 0 where
  pub id : String
  pub origin : String
  pub endpoint : String
  pub custom_domain : String
  pub certificate_id : String
  pub ttl : ℕ

-- The cdn collector's `endpoint`.
pub record CdnEndpoint : Type 0 where
  pub id : String
  pub origin : String
  pub endpoint : String
  pub custom_domain : String
  pub certificate_id : String
  pub ttl : ℕ

-- `newEndpoint`
unfoldable pub new_endpoint : ApiCdn → CdnEndpoint
new_endpoint e = record {
  id = e.id;
  origin = e.origin;
  endpoint = e.endpoint;
  custom_domain = e.custom_domain;
  certificate_id = e.certificate_id;
  ttl = e.ttl;
}

-- The cdn collector's `Refresh`.
unfoldable pub refresh_endpoints :
    {W Links : Type 0}
    → Api ApiCdn W Links
    → ℕ
    → List CdnEndpoint
    → W
    → Option (Option GoError × List CdnEndpoint × W)
unfolding new_endpoint refresh_list
refresh_endpoints list fuel snap w =
    refresh_list "CDN endpoints" (λ (e : ApiCdn). e.id) (map new_endpoint) list fuel snap w

abbrev endpoint_gauges : CdnEndpoint → List Gauge
endpoint_gauges e =
    gauge "digitalocean_cdn_endpoint_ttl_seconds" (count e.ttl) (e.id ∷ e.origin ∷ e.endpoint ∷ [])
    ∷ gauge "digitalocean_cdn_endpoint_info" (count 1)
        (e.id ∷ e.origin ∷ e.endpoint ∷ e.custom_domain ∷ e.certificate_id ∷ [])
    ∷ []

-- The cdn collector's `Collect`.
unfoldable pub collect_endpoints : List CdnEndpoint → List Gauge
unfolding for_each
collect_endpoints snap = for_each endpoint_gauges snap

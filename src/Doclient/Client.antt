-- ===== src/Doclient/Client.antt =====
-- `New` of internal/doclient/client.go: the client and its transport from the configuration.
--
-- A rate limit is a float64 of which the code asks only whether it is positive; the base URL is
-- parsed by godo, and the model keeps the text.
use digitalocean_exporter.Base.{
  String, string_eq, Bool, not, Option, none, some, opaque, Result, ok, err, ℤ, ◌==◌, if◌then◌else◌,
}
use digitalocean_exporter.Doclient.Transport.{Transport, budget}

-- `Config`
pub record ClientConfig (F : Type 0) : Type 0 where
  pub token : String
  pub base_url : String
  pub user_agent : String
  pub timeout : ℤ
  pub rate_limit : F
  pub max_attempts : ℤ
  -- `cfg.Metrics != nil`
  pub has_metrics : Bool

-- The options of the godo client, and the timeout of its HTTP client.
pub record Client : Type 0 where
  pub transport : Transport
  pub timeout : ℤ
  pub user_agent : String
  pub base_url : Option String

-- `New`
unfoldable pub new_client : {F : Type 0} → (F → Bool) → ClientConfig F → Result Client
unfolding budget
new_client is_positive cfg =
    if not cfg.has_metrics
    then err (opaque "api metrics are required")
    else ok (record {
      transport = record {
        token = cfg.token;
        limited = is_positive cfg.rate_limit;
        max_attempts = budget cfg.max_attempts;
      };
      timeout = cfg.timeout;
      user_agent = cfg.user_agent;
      base_url = if cfg.base_url == "" then none else some cfg.base_url;
    })

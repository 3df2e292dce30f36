-- ===== src/Metrics.antt =====
-- What the collectors of internal/collector send to Prometheus: gauges, with the helpers that several of
-- them declare under the same names (`gauge`, `boolValue`).
--
-- A value is kept as the exact number that the code converts to float64.
pub mod Statuses
use digitalocean_exporter.Base.{
  ℕ, ℤ, pos, String, Bool, true, false, Option, none, some, List, [], ◌∷◌, ◌++◌,
}

pub data Value : Type 0 where
  whole : ℤ → Value
  -- a value divided by a number
  over : Value → ℕ → Value
  -- a value times a number
  times : Value → ℕ → Value
  -- a number that the API gave as a float64, or as a text that is parsed to one, as it stands there
  given : String → Value

-- The sample that `gauge` sends: the descriptor's name, the value and the label values.
pub record Gauge : Type 0 where
  pub desc : String
  pub value : Value
  pub labels : List String

abbrev pub gauge : String → Value → List String → Gauge
gauge desc value labels = record { desc = desc; value = value; labels = labels }

abbrev pub count : ℕ → Value
count n = whole (pos n)

-- `boolValue`
abbrev pub bool_value : Bool → Value
bool_value true = count 1
bool_value false = count 0

-- The loop of a `Collect`.
unfoldable pub for_each : {A : Type 0} → (A → List Gauge) → List A → List Gauge
for_each emit [] = []
for_each emit (x ∷ xs) = emit x ++ for_each emit xs

-- A gauge that is sent where its value is known.
abbrev pub known_gauge : String → Option ℤ → List String → List Gauge
known_gauge desc none labels = []
known_gauge desc (some at) labels = gauge desc (whole at) labels ∷ []

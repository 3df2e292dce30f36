-- ===== src/Timeseries.antt =====
-- internal/timeseries/timeseries.go: the newest sample of each series of a monitoring response.
--
-- A Prometheus sample value is a float64 that the code asks only whether it is NaN, and a timestamp
-- is asked only whether it is after another: both types, and the two tests, are the parameter
-- `Model`. A label set is an association list, as the Go maps are.
pub mod Laws
pub mod Latest
use digitalocean_exporter.Base.{
  String, string_eq, Bool, true, false, Option, none, some, List, [], ◌∷◌, Sentinel, not_success,
  no_response, GoError, sentinel, wrap, Result, ok, err, ◌==◌, if◌then◌else◌,
}
use digitalocean_exporter.Base.Assoc.{Assoc, lookup, insert}

-- What the package takes from `math` and from the client's model types.
pub record Model (Value Stamp : Type 0) : Type 0 where
  pub is_nan : Value → Bool
  -- `after a b` is `a.After(b)`
  pub after : Stamp → Stamp → Bool

-- metrics.SamplePair
pub record SamplePair (Value Stamp : Type 0) : Type 0 where
  pub timestamp : Stamp
  pub value : Value

-- metrics.SampleStream
pub record SampleStream (Value Stamp : Type 0) : Type 0 where
  pub metric : Assoc String String
  pub values : List (SamplePair Value Stamp)

-- godo.MetricsResponse
pub record MetricsResponse (Value Stamp : Type 0) : Type 0 where
  pub status : String
  pub result : List (SampleStream Value Stamp)

pub record Sample (Value Stamp : Type 0) : Type 0 where
  pub labels : Assoc String String
  pub value : Value
  pub time : Stamp

abbrev pub success_status : String
success_status = "success"

-- `labelsOf`
unfoldable pub copy : Assoc String String → Assoc String String → Assoc String String
copy out [] = out
copy out ((name, value) ∷ rest) = copy (insert name value out) rest

module _ {Value Stamp : Type 0} where
  unfoldable pub labels_of : SampleStream Value Stamp → Assoc String String
  unfolding copy
  labels_of series = copy [] series.metric

  -- `Sample.Label`: the empty string for a label that is not there.
  unfoldable pub label : Sample Value Stamp → String → String
  label s name = elim (lookup name s.labels) [ none ↦ "" | some v ↦ v ]

module _ {Value Stamp : Type 0} (model : Model Value Stamp) where
  -- One turn of the loop of `newest`; `none` is `found == false`.
  unfoldable pub better :
      Option (SamplePair Value Stamp) → SamplePair Value Stamp → Option (SamplePair Value Stamp)
  better best point = if model.is_nan point.value then best else elim best [
    | none ↦ some point
    | some b ↦ if model.after point.timestamp b.timestamp then some point else some b
  ]

  unfoldable pub newest_from :
      Option (SamplePair Value Stamp)
      → List (SamplePair Value Stamp)
      → Option (SamplePair Value Stamp)
  unfolding better
  newest_from best [] = best
  newest_from best (point ∷ values) = newest_from (better best point) values

  unfoldable pub newest : List (SamplePair Value Stamp) → Option (SamplePair Value Stamp)
  unfolding newest_from
  newest values = newest_from none values

  abbrev pub sample_of :
      SampleStream Value Stamp
      → Option (SamplePair Value Stamp)
      → List (Sample Value Stamp)
      → List (Sample Value Stamp)
  sample_of series none rest = rest
  sample_of series (some point) rest =
      record { labels = labels_of series; value = point.value; time = point.timestamp } ∷ rest

  -- The loop of `Latest`.
  unfoldable pub samples : List (SampleStream Value Stamp) → List (Sample Value Stamp)
  unfolding newest labels_of
  samples [] = []
  samples (series ∷ result) = sample_of series (newest series.values) (samples result)

  unfoldable pub latest : Option (MetricsResponse Value Stamp) → Result (List (Sample Value Stamp))
  unfolding samples
  latest none = err (sentinel no_response)
  latest (some resp) =
      if resp.status == success_status
      then ok (samples resp.result)
      else err (wrap resp.status (sentinel not_success))

-- ===== src/Timeseries/Latest.antt =====
-- `Latest`: one sample for each series that has a usable point, with its labels, and the errors.
use digitalocean_exporter.Base.{
  String, string_eq, true, false, Option, none, some, List, [], ◌∷◌, ok, err, not_success,
  no_response, is, GoError, sentinel, ◌==◌, ◌≡◌, ◌≢◌, refl, ◌⊎◌, Distinct, arith, All, Option-cases,
  Bool-cases, wrap, inl, inr,
}
use mathlib.Core.List.{Memᴰ}
use digitalocean_exporter.Base.Assoc.{Assoc, lookup, insert, lookup-insert, lookup-absent, keys}
use digitalocean_exporter.Timeseries.{
  Model, SamplePair, SampleStream, MetricsResponse, Sample, newest, labels_of, samples, latest,
  copy, success_status,
}
use digitalocean_exporter.Timeseries.Laws.{IsStrict, Newest, Unusable, newest-none_iff, newest-some}

-- What the copy of a label set says of a name.
abbrev or_else : Option String → Option String → Option String
or_else none b = b
or_else (some a) b = some a

lookup-copy :
    (name : String) (out m : Assoc String String)
    → Distinct (keys m)
    → lookup name (copy out m) ≡ or_else (lookup name m) (lookup name out)
unfolding copy lookup
lookup-copy name out [] d = refl
lookup-copy name out ((j, v) ∷ m) d = ground (
  arith,
  lookup-copy name (insert j v out) m d.1,
  lookup-insert j name v out,
  lookup-absent name m,
  lookup-absent j m,
  string_eq.beq_iff j name,
)

lookup-labels_of :
    {Value Stamp : Type 0} (series : SampleStream Value Stamp) (name : String)
    → Distinct (keys series.metric)
    → lookup name (labels_of series) ≡ lookup name series.metric
unfolding labels_of lookup
lookup-labels_of series name d = ground (arith, lookup-copy name [] series.metric d)

module _ {Value Stamp : Type 0} (model : Model Value Stamp) where
  -- `Reads result out`: in the order of the series, a sample with the labels and a newest point of
  -- each series that has a usable point, and nothing for the others.
  pub data Reads : List (SampleStream Value Stamp) → List (Sample Value Stamp) → Type 0 where
    done : Reads [] []
    skip :
        {result : List (SampleStream Value Stamp)} {out : List (Sample Value Stamp)}
        (series : SampleStream Value Stamp)
        → Unusable model series.values
        → Reads result out
        → Reads (series ∷ result) out
    read :
        {result : List (SampleStream Value Stamp)} {out : List (Sample Value Stamp)}
        (series : SampleStream Value Stamp) (p : SamplePair Value Stamp) (s : Sample Value Stamp)
        → Memᴰ p series.values
        → model.is_nan p.value ≡ false
        → Newest model series.values p
        → s.value ≡ p.value
        → s.time ≡ p.timestamp
        → ((name : String) → lookup name s.labels ≡ lookup name series.metric)
        → Reads result out
        → Reads (series ∷ result) (s ∷ out)

  Reads-samples :
      (strict : IsStrict model) (result : List (SampleStream Value Stamp))
      → All (λ series. Distinct (keys series.metric)) result
      → Reads result (samples model result)
  unfolding samples
  Reads-samples strict [] d = done
  Reads-samples strict (series ∷ result) d = elim (Option-cases (newest model series.values)) [
    | inl e ↦
        rw (e, samples)
          (skip series ((newest-none_iff model series.values).0 e)
            (Reads-samples strict result d.1))
    | inr (p, e) ↦
        let (mem, usable, best) = newest-some model strict series.values p e in
        rw (e, samples)
          (read series p _ mem usable best refl refl (λ name. lookup-labels_of series name d.0)
            (Reads-samples strict result d.1))
  ]

  -- A successful response gives, in the order of the series, one sample for each series with a usable
  -- point: the value and the time of a newest such point, under the labels of the series. The label
  -- sets are maps: no name stands in one twice.
  pub latest-Reads :
      (strict : IsStrict model) (resp : MetricsResponse Value Stamp)
      → All (λ series. Distinct (keys series.metric)) resp.result
      → resp.status ≡ success_status
      → (out : List (Sample Value Stamp)) × (latest model (some resp) ≡ ok out)
        × Reads resp.result out
  unfolding latest
  latest-Reads strict resp d s =
      (samples model resp.result, rw s, Reads-samples strict resp.result d)

  -- With no response, or any other status, the answer is the error that says so.
  pub latest_errors :
      (resp : Option (MetricsResponse Value Stamp)) (x : GoError)
      → latest model resp ≡ err x
      → ((resp ≡ none) × (is x no_response ≡ true))
        ⊎ ((r : MetricsResponse Value Stamp) × (resp ≡ some r)
            × (r.status ≢ success_status)
            × (is x not_success ≡ true))
  unfolding latest is
  latest_errors none x h = let e : sentinel no_response ≡ x = cc in inl (refl, rw (← e))
  latest_errors (some r) x h = elim (Bool-cases (r.status == success_status)) [
    | inl s ↦ ground arith
    | inr s ↦
        let e : wrap r.status (sentinel not_success) ≡ x = ground arith in
        inr (r, refl, λ t. ground (arith, string_eq.beq_iff r.status success_status), rw (← e))
  ]

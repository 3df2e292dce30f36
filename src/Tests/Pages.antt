-- ===== src/Tests/Pages.antt =====
-- Two pages of a list that changed between the calls, a filter, and one monitoring response.
use digitalocean_exporter.Base.{
  ℕ, zero, suc, nat_eq, String, string_eq, Bool, true, false, Option, none, some, List, [], ◌∷◌,
  map, Result, ok, err, ◌≡◌, refl, arith, opaque, wrap, Distinct, concat, ltb,
}
use digitalocean_exporter.Paging.{Api, is_done, page_number, all}
use digitalocean_exporter.Paging.Dedup.{firsts}
use digitalocean_exporter.Paging.Trace.{Walks, last, next, Reaches, here, more, Fails, refused}
use digitalocean_exporter.Paging.Walk.{all-of-Walks, all-Explained, all-Distinct, all-Fails}
use digitalocean_exporter.Filter.{new, single_tag}
use digitalocean_exporter.Timeseries.{Model, MetricsResponse, Sample, latest}
use digitalocean_exporter.Timeseries.Laws.{IsStrict}
use digitalocean_exporter.Timeseries.Latest.{Reads, latest-Reads}

-- The world counts the calls; the second page repeats the item 2. The links hold the page's number.
abbrev page_of : ℕ → List ℕ
page_of zero = 1 ∷ 2 ∷ []
page_of (suc n) = 2 ∷ 3 ∷ []

abbrev is_last : ℕ → Bool
is_last zero = false
is_last (suc n) = true

abbrev two_pages : Api ℕ ℕ ℕ
two_pages = record {
  ctx_err = λ w. none;
  list = λ opts w. (ok (page_of w, some (some w)), suc w);
  is_last_page = is_last;
  current_page = λ n. ok (suc n);
}

abbrev answer_of : ℕ → Result (List ℕ × Option (Option ℕ))
answer_of zero = ok (1 ∷ 2 ∷ [], some (some 0))
answer_of (suc n) = err (opaque "500")

abbrev broken : Api ℕ ℕ ℕ
broken = record two_pages { list = λ opts w. (answer_of w, suc w) }

abbrev key : ℕ → ℕ
key n = n

two_pages-Walks : Walks two_pages 0 0 ((1 ∷ 2 ∷ []) ∷ (2 ∷ 3 ∷ []) ∷ []) 2
unfolding is_done page_number
two_pages-Walks =
    next (1 ∷ 2 ∷ []) (some (some 0)) 1 refl refl refl refl
      (last (2 ∷ 3 ∷ []) (some (some 1)) refl refl refl)

all-of-Walks_example :
    all "numbers" key two_pages 5 0 ≡ some (ok (firsts key (1 ∷ 2 ∷ 2 ∷ 3 ∷ [])), 2)
all-of-Walks_example = all-of-Walks "numbers" key two_pages 5 two_pages-Walks (omega arith)

all-two_pages : all "numbers" key two_pages 5 0 ≡ some (ok (1 ∷ 2 ∷ 3 ∷ []), 2)
all-two_pages = all-of-Walks "numbers" key two_pages 5 two_pages-Walks (omega arith)

all-Explained_example :
    (pages : List (List ℕ)) × Walks two_pages 0 0 pages 2
    × ((1 ∷ 2 ∷ 3 ∷ []) ≡ firsts key (concat pages))
all-Explained_example = all-Explained "numbers" key two_pages 5 0 2 (1 ∷ 2 ∷ 3 ∷ []) all-two_pages

all-Distinct_example : Distinct (map key (1 ∷ 2 ∷ 3 ∷ []))
all-Distinct_example = all-Distinct "numbers" key two_pages 5 0 2 (1 ∷ 2 ∷ 3 ∷ []) all-two_pages

broken-Reaches : Reaches broken 0 0 1 2 1
unfolding is_done page_number
broken-Reaches = more (1 ∷ 2 ∷ []) (some (some 0)) 1 refl refl refl refl here

broken-Fails : Fails broken "numbers" 2 1 (wrap "list numbers" (opaque "500")) 2
broken-Fails = refused (opaque "500") refl refl

all-Fails_example :
    all "numbers" key broken 4 0 ≡ some (err (wrap "list numbers" (opaque "500")), 2)
all-Fails_example = all-Fails "numbers" key broken 2 broken-Reaches broken-Fails

abbrev asked : List String
asked = "prod" ∷ "web" ∷ []

abbrev carried : List String
carried = "db" ∷ "web" ∷ []

abbrev regions : List String
regions = "fra1" ∷ []

single : single_tag (new ("prod" ∷ []) []) ≡ some "prod"
unfolding single_tag new
single = refl

-- A value is NaN where it is `none`, and time is a number.
abbrev is_none : Option ℕ → Bool
is_none none = true
is_none (some n) = false

abbrev model : Model (Option ℕ) ℕ
model = record { is_nan = is_none; after = λ a b. ltb b a }

model-IsStrict : IsStrict model
model-IsStrict = record {
  asymmetric = λ a b h. ground arith;
  negatively_transitive = λ a b c h k. ground arith;
}

abbrev response : MetricsResponse (Option ℕ) ℕ
response = record {
  status = "success";
  result =
      record {
        metric = ("mode", "idle") ∷ [];
        values =
            record { timestamp = 1; value = some 7 } ∷ record { timestamp = 2; value = none } ∷ [];
      }
      ∷ [];
}

latest-Reads_example :
    (out : List (Sample (Option ℕ) ℕ)) × (latest model (some response) ≡ ok out)
    × Reads model response.result out
latest-Reads_example = latest-Reads model model-IsStrict response ((refl, tt), tt) refl

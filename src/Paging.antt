-- ===== src/Paging.antt =====
-- internal/paging/paging.go: the walk of a page-numbered list, and the deduplication by a key.
--
-- The API changes between two calls, so a call takes the state of the world and returns the next
-- one. godo's response, its links and the API itself are the parameter `Api`. The Go loop has no
-- bound of its own: `walk` takes fuel, one unit for each page, and `none` is a loop that is not
-- finished yet. The arguments `ctx`, `logger` and `list` are in `Api`.
pub mod Dedup
pub mod Trace
pub mod Walk
use Prim.Native.String.{◌++◌ as str_append}
use digitalocean_exporter.Base.{
  ℕ, zero, suc, ◌+◌, String, Bool, true, false, Option, none, some, List, [], ◌∷◌, ◌++◌, GoError,
  wrap, Result, ok, err, Eq, contains, if◌then◌else◌,
}

abbrev pub per_page_max : ℕ
per_page_max = 200

-- godo.ListOptions; page 0 is the one that the zero value asks for.
pub record ListOptions : Type 0 where
  pub page : ℕ
  pub per_page : ℕ

-- What `All` takes from godo and from the context.
pub record Api (T W Links : Type 0) : Type 0 where
  -- ctx.Err()
  pub ctx_err : W → Option GoError
  -- the items, and `resp`: no response, or a response with or without links
  pub list : ListOptions → W → Result (List T × Option (Option Links)) × W
  pub is_last_page : Links → Bool
  pub current_page : Links → Result ℕ

-- What `keepNew` leaves behind: the list, the set of keys, and the keys given to `dropped`.
pub record Kept (T K : Type 0) : Type 0 where
  pub out : List T
  pub seen : List K
  pub dropped : List K

-- How one pass through the loop ends.
pub data Round (T K W : Type 0) : Type 0 where
  answer : Result (List T) → W → Round T K W
  again : ℕ → Kept T K → W → Round T K W

module _ {T K : Type 0} ⦃e : Eq K⦄ (key : T → K) where
  unfoldable pub keep_new : List T → Kept T K → Kept T K
  keep_new [] s = s
  keep_new (item ∷ page) s = keep_new page (
      if contains s.seen (key item)
      then record s { dropped = s.dropped ++ key item ∷ [] }
      else record s { out = s.out ++ item ∷ []; seen = key item ∷ s.seen })

module _ {T W Links : Type 0} (api : Api T W Links) where
  -- The test that ends the walk: `resp == nil || resp.Links == nil || resp.Links.IsLastPage()`.
  unfoldable pub is_done : Option (Option Links) → Bool
  is_done none = true
  is_done (some none) = true
  is_done (some (some links)) = api.is_last_page links

  -- `resp.Links.CurrentPage()`, which is reached only with links.
  unfoldable pub page_number : Option (Option Links) → Result ℕ
  page_number (some (some links)) = api.current_page links
  page_number _ = ok 0

module _ {T K W Links : Type 0} ⦃e : Eq K⦄ (what : String) (key : T → K) (api : Api T W Links) where
  unfoldable pub next_page : Result ℕ → Kept T K → W → Round T K W
  next_page (ok current) kept w = again (current + 1) kept w
  next_page (err x) kept w = answer (err (wrap (str_append "next page of " what) x)) w

  -- The end of the loop's body, with the page added: the answer, or the next page to ask for.
  unfoldable pub turn : Option (Option Links) → Kept T K → W → Round T K W
  unfolding is_done page_number next_page
  turn resp kept w =
      if is_done api resp then answer (ok kept.out) w else next_page (page_number api resp) kept w

  unfoldable pub receive : Result (List T × Option (Option Links)) → Kept T K → W → Round T K W
  unfolding turn
  receive (err x) s w = answer (err (wrap (str_append "list " what) x)) w
  receive (ok (page, resp)) s w = turn resp (keep_new key page s) w

  -- The body of the loop: `ctx.Err()` first, then one request.
  unfoldable pub round : ListOptions → Kept T K → W → Round T K W
  unfolding receive
  round opts s w = elim (api.ctx_err w) [
    | some x ↦ answer (err (wrap (str_append "list " what) x)) w
    | none ↦ let (got, w') = api.list opts w in receive got s w'
  ]

  -- The loop of `All`.
  unfoldable pub walk : ℕ → ListOptions → Kept T K → W → Option (Result (List T) × W)
  unfolding round
  walk zero opts s w = none
  walk (suc fuel) opts s w = elim (round opts s w) [
    | answer r w' ↦ some (r, w')
    | again number kept w' ↦ walk fuel (record opts { page = number }) kept w'
  ]

  abbrev pub start : ListOptions
  start = record { page = 0; per_page = per_page_max }

  abbrev pub nothing_seen : Kept T K
  nothing_seen = record { out = []; seen = []; dropped = [] }

  unfoldable pub all : ℕ → W → Option (Result (List T) × W)
  unfolding walk
  all fuel w = walk fuel start nothing_seen w

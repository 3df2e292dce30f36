-- ===== src/Paging/Walk.antt =====
-- The walk of `All` against the relation that describes it: what the answer is, when it ends, and
-- what an error gives.
use mathlib.Core.List.{append-nil}
use native.Mathlib.Nat.{zero-add, suc-add}
use digitalocean_exporter.Base.{
  ℕ, zero, suc, ◌+◌, ◌≤◌, String, true, false, Option, none, some, List, [], ◌∷◌, map, Eq, concat,
  length, Distinct, GoError, Result, ok, err, ◌≡◌, refl, sym, ◌∙◌, ap, arith, Bool-cases,
  Option-cases, inl, inr,
}
use digitalocean_exporter.Paging.{
  Api, Kept, keep_new, is_done, page_number, next_page, turn, receive, round, Round, answer, again,
  walk, all,
}
use digitalocean_exporter.Paging.Trace.{
  asking, Walks, last, next, Reaches, here, more, Fails, cancelled, refused, lost,
}
use digitalocean_exporter.Paging.Dedup.{
  firsts, firsts-Distinct, keep_new-append, out-keep_new_start,
}

module _ {T K W Links : Type 0} ⦃e : Eq K⦄ (what : String) (key : T → K) (api : Api T W Links) where
  walk-of-Walks :
      {p : ℕ} {w w' : W} {pages : List (List T)} (fuel : ℕ) (s : Kept T K)
      → Walks api p w pages w'
      → length pages ≤ fuel
      → walk what key api fuel (asking p) s w ≡ some (ok (keep_new key (concat pages) s).out, w')
  unfolding walk round
  walk-of-Walks zero s (last page resp c a d) h = absurd (omega arith)
  walk-of-Walks (suc fuel) s (last page resp c a d) h = ground (arith, append-nil page)
  walk-of-Walks zero s (next page resp current c a d n r) h = absurd (omega arith)
  walk-of-Walks {p = p} (suc fuel) s
        (next {v = v} {w' = w'} {pages = pages} page resp current c a d n r) h =
      ground (
        arith,
        walk-of-Walks {p = current + 1} {w = v} {w' = w'} {pages = pages} fuel (keep_new key page s)
            r (omega arith),
        keep_new-append key page (concat pages) s,
      )

  -- When the API's pages come to an end, `All` returns the first item of each key, in the order of
  -- the API, from any fuel that covers the pages.
  pub all-of-Walks :
      {w w' : W} {pages : List (List T)} (fuel : ℕ)
      → Walks api 0 w pages w'
      → length pages ≤ fuel
      → all what key api fuel w ≡ some (ok (firsts key (concat pages)), w')
  unfolding all
  all-of-Walks {pages = pages} fuel r h =
      rw (← out-keep_new_start key (concat pages)) (walk-of-Walks fuel _ r h)

  -- What each way to end a pass says of the API.
  data Saw (p : ℕ) (s : Kept T K) (w : W) : Round T K W → Type 0 where
    saw_last :
        {w' : W} (page : List T) (resp : Option (Option Links))
        → api.ctx_err w ≡ none
        → api.list (asking p) w ≡ (ok (page, resp), w')
        → is_done api resp ≡ true
        → Saw p s w (answer (ok (keep_new key page s).out) w')
    saw_next :
        {w' : W} (page : List T) (resp : Option (Option Links)) (current : ℕ)
        → api.ctx_err w ≡ none
        → api.list (asking p) w ≡ (ok (page, resp), w')
        → is_done api resp ≡ false
        → page_number api resp ≡ ok current
        → Saw p s w (again (current + 1) (keep_new key page s) w')
    saw_error : {w' : W} (x : GoError) → Saw p s w (answer (err x) w')

  module _ {p : ℕ} {s : Kept T K} {w w' : W} (page : List T) (resp : Option (Option Links))
      (c : api.ctx_err w ≡ none) (a : api.list (asking p) w ≡ (ok (page, resp), w')) where
    Saw-next_page :
        (number : Result ℕ)
        → page_number api resp ≡ number
        → is_done api resp ≡ false
        → Saw p s w (next_page what key api number (keep_new key page s) w')
    unfolding next_page
    Saw-next_page (ok current) n d = saw_next page resp current c a d n
    Saw-next_page (err x) n d = saw_error _

    Saw-turn : Saw p s w (turn what key api resp (keep_new key page s) w')
    unfolding turn
    Saw-turn = elim (Bool-cases (is_done api resp)) [
      | inl d ↦ rw d (saw_last page resp c a d)
      | inr d ↦ rw d (Saw-next_page (page_number api resp) refl d)
    ]

  Saw-receive :
      (p : ℕ) (s : Kept T K) (w w' : W) (got : Result (List T × Option (Option Links)))
      → api.ctx_err w ≡ none
      → api.list (asking p) w ≡ (got, w')
      → Saw p s w (receive what key api got s w')
  unfolding receive
  Saw-receive p s w w' (err x) c a = saw_error _
  Saw-receive p s w w' (ok (page, resp)) c a = Saw-turn page resp c a

  Saw-round : (p : ℕ) (s : Kept T K) (w : W) → Saw p s w (round what key api (asking p) s w)
  unfolding round
  Saw-round p s w = elim (Option-cases (api.ctx_err w)) [
    | inl c ↦ rw (c, round) (Saw-receive p s w _ _ c refl)
    | inr (x, c) ↦ rw (c, round) (saw_error _)
  ]

  -- A success is explained by pages of the API.
  abbrev Explained : ℕ → Kept T K → W → W → List T → Type 0
  Explained p s w w' out =
      (pages : List (List T)) × Walks api p w pages w' × (out ≡ (keep_new key (concat pages) s).out)

  abbrev continue : ℕ → Round T K W → Option (Result (List T) × W)
  continue fuel (answer r w) = some (r, w)
  continue fuel (again p s w) = walk what key api fuel (asking p) s w

  Explained-continue :
      {p : ℕ} {s : Kept T K} {w : W} {r : Round T K W} (fuel : ℕ) (w' : W) (out : List T)
      → Saw p s w r
      → ((p : ℕ) (s : Kept T K) (v : W)
          → walk what key api fuel (asking p) s v ≡ some (ok out, w')
          → Explained p s v w' out)
      → continue fuel r ≡ some (ok out, w')
      → Explained p s w w' out
  Explained-continue {p} {s} {w} fuel w' out (saw_last {w' = v} page resp c a d) ih h =
      (page ∷ [], let e : v ≡ w' = cc in last page resp c (cc) d, ground (arith, append-nil page))
  Explained-continue {s = s} fuel w' out (saw_next {w' = v} page resp current c a d n) ih h =
      let (pages, r, e) = ih (current + 1) (keep_new key page _) v h in
      (
        page ∷ pages,
        next page resp current c a d n r,
        e ∙ ap (λ (k : Kept T K). k.out) (sym (keep_new-append key page (concat pages) s)),
      )
  Explained-continue fuel w' out (saw_error x) ih h = cc

  Explained-walk :
      (fuel p : ℕ) (s : Kept T K) (w w' : W) (out : List T)
      → walk what key api fuel (asking p) s w ≡ some (ok out, w')
      → Explained p s w w' out
  unfolding walk
  Explained-walk zero p s w w' out h = cc
  Explained-walk (suc fuel) p s w w' out h =
      Explained-continue fuel w' out (Saw-round p s w) (λ p s v. Explained-walk fuel p s v w' out)
        (ground arith)

  -- A successful walk read pages up to one that the API calls the last, and its answer is the first
  -- item of each key over them.
  pub all-Explained :
      (fuel : ℕ) (w w' : W) (out : List T)
      → all what key api fuel w ≡ some (ok out, w')
      → (pages : List (List T)) × Walks api 0 w pages w' × (out ≡ firsts key (concat pages))
  unfolding all
  all-Explained fuel w w' out h =
      let (pages, r, e) = Explained-walk fuel 0 _ w w' out h in
      (pages, r, e ∙ out-keep_new_start key (concat pages))

  -- No two items of a successful answer have one key.
  pub all-Distinct :
      (fuel : ℕ) (w w' : W) (out : List T)
      → all what key api fuel w ≡ some (ok out, w')
      → Distinct (map key out)
  all-Distinct fuel w w' out h =
      let (pages, r, e) = all-Explained fuel w w' out h in rw e (firsts-Distinct key (concat pages))

  walk-Fails :
      {q : ℕ} {v v' : W} {x : GoError} (fuel : ℕ) (s : Kept T K)
      → Fails api what q v x v'
      → walk what key api (suc fuel) (asking q) s v ≡ some (err x, v')
  unfolding walk next_page
  walk-Fails fuel s (cancelled x c) = ground arith
  walk-Fails fuel s (refused x c a) = ground arith
  walk-Fails fuel s (lost page resp x c a d n) = ground arith

  walk-Reaches :
      {p n q : ℕ} {w v v' : W} {x : GoError} (fuel : ℕ) (s : Kept T K)
      → Reaches api p w n q v
      → Fails api what q v x v'
      → walk what key api (n + suc fuel) (asking p) s w ≡ some (err x, v')
  unfolding walk
  walk-Reaches fuel s here f = simp zero-add (walk-Fails fuel s f)
  walk-Reaches {p} {n} {q} {w} {v} {v'} {x} fuel s
        (more {n = m} {u = u} page resp current c a d k r) f =
      let rest = walk-Reaches {p = current + 1} {n = m} {w = u} fuel (keep_new key page s) r f in
      simp suc-add (ground arith)

  -- An error after any number of good pages is the whole answer: no item is returned. The world that
  -- is left is that of the failure, so nothing is asked of the API after it.
  pub all-Fails :
      {n q : ℕ} {w v v' : W} {x : GoError} (fuel : ℕ)
      → Reaches api 0 w n q v
      → Fails api what q v x v'
      → all what key api (n + suc fuel) w ≡ some (err x, v')
  unfolding all
  all-Fails fuel r f = walk-Reaches fuel _ r f

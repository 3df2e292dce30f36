-- ===== src/Registry/Pages.antt =====
-- `repositories`: the walk by page tokens against the relation that describes it.
use mathlib.Core.List.{append_assoc, append-nil}
use digitalocean_exporter.Base.{
  map-append, ℕ, zero, suc, ◌≤◌, String, Bool, Option, none, some, List, [], ◌∷◌, ◌++◌, map,
  GoError, wrap, ok, err, concat, length, ◌≡◌, sym, ap, ◌∙◌, arith,
}
use digitalocean_exporter.Registry.{
  ApiRepository, Repository, TokenListOptions, Client, new_repository, next_token,
  repositories_from, repositories, repositories_per_page,
}

abbrev pub asking : String → TokenListOptions
asking token = record { per_page = repositories_per_page; token = token }

module _ {W Links : Type 0} (client : Client W Links) (multi : Bool) (name : String) where
  -- From this token and this world on, the API gives these pages and then says that they are all.
  pub data Lists : String → W → List (List ApiRepository) → W → Type 0 where
    last :
        {token : String} {w v : W} (page : List ApiRepository) (resp : Option (Option Links))
        → client.list_repositories multi name (asking token) w ≡ (ok (page, resp), v)
        → next_token client resp ≡ ok none
        → Lists token w (page ∷ []) v
    next :
        {token following : String} {w v u : W} {pages : List (List ApiRepository)}
        (page : List ApiRepository) (resp : Option (Option Links))
        → client.list_repositories multi name (asking token) w ≡ (ok (page, resp), v)
        → next_token client resp ≡ ok (some following)
        → Lists following v pages u
        → Lists token w (page ∷ pages) u

  -- After some good pages, one request fails, or one page does not say what follows it.
  pub data Breaks : ℕ → String → W → GoError → W → Type 0 where
    refused :
        {token : String} {w v : W} (e : GoError)
        → client.list_repositories multi name (asking token) w ≡ (err e, v)
        → Breaks 1 token w (wrap "list repositories" e) v
    lost :
        {token : String} {w v : W} (e : GoError) (page : List ApiRepository)
        (resp : Option (Option Links))
        → client.list_repositories multi name (asking token) w ≡ (ok (page, resp), v)
        → next_token client resp ≡ err e
        → Breaks 1 token w e v
    later :
        {n : ℕ} {token following : String} {w v u : W} {e : GoError} (page : List ApiRepository)
        (resp : Option (Option Links))
        → client.list_repositories multi name (asking token) w ≡ (ok (page, resp), v)
        → next_token client resp ≡ ok (some following)
        → Breaks n following v e u
        → Breaks (suc n) token w e u

  repositories_from-Lists :
      (fuel : ℕ) {token : String} {w v : W} {pages : List (List ApiRepository)}
      (out : List Repository)
      → Lists token w pages v
      → length pages ≤ fuel
      → repositories_from client fuel multi name (asking token) out w
        ≡ some (ok (out ++ map new_repository (concat pages)), v)
  unfolding repositories_from
  repositories_from-Lists zero out (last page resp a d) h = absurd (omega arith)
  repositories_from-Lists (suc fuel) out (last page resp a d) h =
      rw (repositories_from, a, d, append-nil page, a)
  repositories_from-Lists zero out (next page resp a d r) h = absurd (omega arith)
  repositories_from-Lists (suc fuel) out (next {u = v} {pages = pages} page resp a d r) h =
      rw (repositories_from, a, d, a)
        (repositories_from-Lists fuel (out ++ map new_repository page) r (omega arith)
          ∙ ap (λ xs. some (ok xs, v))
              (append_assoc out (map new_repository page) (map new_repository (concat pages))
                ∙ ap (λ xs. out ++ xs) (sym (map-append new_repository page (concat pages)))))

  -- When the pages of a registry's repositories come to an end, all of them are listed in the order of the API, from any fuel that covers the pages.
  pub repositories-Lists :
      {w v : W} {pages : List (List ApiRepository)} (fuel : ℕ)
      → Lists "" w pages v
      → length pages ≤ fuel
      → repositories client fuel name multi w ≡ some (ok (map new_repository (concat pages)), v)
  unfolding repositories
  repositories-Lists fuel r h = repositories_from-Lists fuel [] r h

  repositories_from-Breaks :
      (fuel : ℕ) {n : ℕ} {token : String} {w v : W} {e : GoError} (out : List Repository)
      → Breaks n token w e v
      → n ≤ fuel
      → repositories_from client fuel multi name (asking token) out w ≡ some (err e, v)
  unfolding repositories_from
  repositories_from-Breaks zero out (refused e a) h = absurd (omega arith)
  repositories_from-Breaks (suc fuel) out (refused e a) h = rw (repositories_from, a, a)
  repositories_from-Breaks zero out (lost e page resp a d) h = absurd (omega arith)
  repositories_from-Breaks (suc fuel) out (lost e page resp a d) h = rw (repositories_from, a, d, a)
  repositories_from-Breaks zero out (later page resp a d r) h = absurd (omega arith)
  repositories_from-Breaks (suc fuel) out (later page resp a d r) h =
      rw (repositories_from, a, d, a)
        (repositories_from-Breaks fuel (out ++ map new_repository page) r (omega arith))

  -- A failure on the way is the failure of the whole list, however many pages came before it.
  pub repositories-Breaks :
      {n : ℕ} {w v : W} {e : GoError} (fuel : ℕ)
      → Breaks n "" w e v
      → n ≤ fuel
      → repositories client fuel name multi w ≡ some (err e, v)
  unfolding repositories
  repositories-Breaks fuel r h = repositories_from-Breaks fuel [] r h

-- ===== src/Paging/Trace.antt =====
-- What the API may answer to the walk of `All`: its pages up to the last one, and how it may fail.
use Prim.Native.String.{◌++◌ as str_append}
use digitalocean_exporter.Base.{
  ℕ, zero, suc, ◌+◌, String, true, false, Option, none, some, List, [], ◌∷◌, GoError, wrap, ok, err,
  ◌≡◌,
}
use digitalocean_exporter.Paging.{ListOptions, Api, is_done, page_number, per_page_max}

abbrev pub asking : ℕ → ListOptions
asking page = record { page = page; per_page = per_page_max }

module _ {T W Links : Type 0} (api : Api T W Links) where
  -- `Reaches p w n q v`: from page `p` in the world `w`, after `n` pages that were answered and were
  -- not the last, the walk is about to ask for page `q` in the world `v`.
  pub data Reaches : ℕ → W → ℕ → ℕ → W → Type 0 where
    here : {p : ℕ} {w : W} → Reaches p w zero p w
    more :
        {p n q : ℕ} {w u v : W} (page : List T) (resp : Option (Option Links)) (current : ℕ)
        → api.ctx_err w ≡ none
        → api.list (asking p) w ≡ (ok (page, resp), u)
        → is_done api resp ≡ false
        → page_number api resp ≡ ok current
        → Reaches (current + 1) u n q v
        → Reaches p w (suc n) q v

  -- `Fails what q v x v'`: asking for page `q` in the world `v` ends the walk with the error `x`. A
  -- context that is done makes no request, so it leaves the world as it is.
  pub data Fails (what : String) (q : ℕ) (v : W) : GoError → W → Type 0 where
    cancelled :
        (x : GoError) → api.ctx_err v ≡ some x → Fails what q v (wrap (str_append "list " what) x) v
    refused :
        {v' : W} (x : GoError)
        → api.ctx_err v ≡ none
        → api.list (asking q) v ≡ (err x, v')
        → Fails what q v (wrap (str_append "list " what) x) v'
    lost :
        {v' : W} (page : List T) (resp : Option (Option Links)) (x : GoError)
        → api.ctx_err v ≡ none
        → api.list (asking q) v ≡ (ok (page, resp), v')
        → is_done api resp ≡ false
        → page_number api resp ≡ err x
        → Fails what q v (wrap (str_append "next page of " what) x) v'

  -- `Walks p w pages w'`: asked from page `p` in the world `w`, the API answers with `pages`, the
  -- last of which says that it is the last, and leaves the world `w'`.
  pub data Walks : ℕ → W → List (List T) → W → Type 0 where
    last :
        {p : ℕ} {w w' : W} (page : List T) (resp : Option (Option Links))
        → api.ctx_err w ≡ none
        → api.list (asking p) w ≡ (ok (page, resp), w')
        → is_done api resp ≡ true
        → Walks p w (page ∷ []) w'
    next :
        {p : ℕ} {w v w' : W} {pages : List (List T)} (page : List T) (resp : Option (Option Links))
        (current : ℕ)
        → api.ctx_err w ≡ none
        → api.list (asking p) w ≡ (ok (page, resp), v)
        → is_done api resp ≡ false
        → page_number api resp ≡ ok current
        → Walks (current + 1) v pages w'
        → Walks p w (page ∷ pages) w'

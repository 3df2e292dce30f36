-- ===== src/Tests/Registries.antt =====
-- Two registries of which one cannot be read, after a refresh that knew both.
use digitalocean_exporter.Base.{
  ℕ, suc, ◌≡◌, ◌==◌, string_eq, String, Bool, true, false, Option, none, some, List, [], ◌∷◌, map,
  concat, Result, ok, err, opaque, wrap, GoError, refl, arith, if◌then◌else◌,
}
use digitalocean_exporter.Base.Assoc.{lookup}
use digitalocean_exporter.Registry.{
  ApiRegistry, ApiRepository, Stats, Snapshot, Subscription, Reading, Client, TokenListOptions,
  new_repository, list, repositories, next_token,
}
use digitalocean_exporter.Registry.Pages.{Lists, last, next, repositories-Lists}
use digitalocean_exporter.Registry.Refresh.{subscription, refresh}
use digitalocean_exporter.Registry.Outcome.{
  Reads, done, read, IsSwap, refresh-IsSwap, AllSound, refresh-AllSound,
}

abbrev image : ApiRepository
image = record { name = "web"; tag_count = 3; manifest_count = 4; latest_manifest = none }

abbrev other : ApiRepository
other = record image { name = "db" }

-- The first page has a token, the page of that token is the last.
abbrev serve :
    Bool → String → TokenListOptions → ℕ → Result (List ApiRepository × Option (Option ℕ)) × ℕ
serve multi name opts w =
    if opts.token == ""
    then (ok (image ∷ [], some (some 1)), suc w)
    else (ok (other ∷ [], none), suc w)

abbrev client : Client ℕ ℕ
client = record {
  list = λ w. (ok [], w);
  get = λ w. (ok none, w);
  get_subscription = λ multi w. (ok none, w);
  list_repositories = serve;
  is_last_page = λ links. false;
  next_page_token = λ links. ok "t";
}

both_pages : Lists client true "main" "" 0 ((image ∷ []) ∷ (other ∷ []) ∷ []) 2
unfolding next_token
both_pages = next (image ∷ []) (some (some 1)) refl refl (last (other ∷ []) none refl refl)

repositories-Lists_example :
    repositories client 2 "main" true 0
    ≡ some (ok (map new_repository (concat ((image ∷ []) ∷ (other ∷ []) ∷ []))), 2)
repositories-Lists_example = repositories-Lists client true "main" 2 both_pages (omega arith)

abbrev registry : String → ApiRegistry
registry name = record {
  name = name;
  region = "fra1";
  storage_usage_bytes = 10;
  storage_usage_bytes_updated_at = none;
}

abbrev two : List ApiRegistry
two = registry "main" ∷ registry "old" ∷ []

-- Of the two registries the second cannot be read.
abbrev half : Client ℕ ℕ
half = record {
  list = λ w. (ok two, w);
  get = λ w. (ok none, w);
  get_subscription = λ multi w. (ok none, w);
  list_repositories = λ multi name opts w.
      if name == "main" then (ok (image ∷ [], none), suc w) else (err (opaque "500"), w);
  is_last_page = λ links. false;
  next_page_token = λ links. ok "t";
}

abbrev kept : Stats
kept = record {
  name = "old";
  region = "fra1";
  storage_usage = 7;
  measured = none;
  repositories = new_repository other ∷ [];
  known = true;
  up = true;
}

abbrev before : Option Snapshot
before = some (record { registries = ("old", kept) ∷ []; tier = none })

before-AllSound : AllSound before
unfolding lookup
before-AllSound name stats h = ground arith

abbrev no_subscription : Option Subscription
no_subscription = none

abbrev failure : GoError
failure = wrap "list repositories" (opaque "500")

abbrev readings : List Reading
readings =
    record { registry = registry "main"; got = ok (new_repository image ∷ []) }
    ∷ record { registry = registry "old"; got = err failure }
    ∷ []

found : list half 0 ≡ (ok (two, true), 0)
unfolding list
found = refl

subscribed : subscription half true 0 ≡ (ok no_subscription, 0)
unfolding subscription
subscribed = refl

read_main : repositories half 1 "main" true 0 ≡ some (ok (new_repository image ∷ []), 1)
unfolding repositories
read_main = refl

read_old : repositories half 1 "old" true 1 ≡ some (err failure, 1)
unfolding repositories
read_old = refl

half-Reads : Reads half 1 true 0 two readings 1
half-Reads =
    read (registry "main") (ok (new_repository image ∷ [])) read_main
      (read (registry "old") (err failure) read_old done)

refresh-IsSwap_example :
    (failed : Option GoError) × (next : Snapshot) × (refresh half 1 before 0
      ≡ some (failed, some next, 1))
    × IsSwap before readings next
refresh-IsSwap_example =
    refresh-IsSwap half 1 before 0 (registry "main") (registry "old" ∷ []) true no_subscription
      readings found subscribed half-Reads

refresh-AllSound_example :
    (failed : Option GoError) × (next : Snapshot) × (refresh half 1 before 0
      ≡ some (failed, some next, 1))
    × AllSound (some next)
refresh-AllSound_example =
    refresh-AllSound half 1 before 0 (registry "main") (registry "old" ∷ []) true no_subscription
      readings before-AllSound found subscribed half-Reads

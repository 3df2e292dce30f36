-- ===== src/Registry/Outcome.antt =====
-- What `Refresh` leaves: the snapshot after it, when it is a failure, and what holds of every snapshot.
use mathlib.Core.Path.{subst}
use digitalocean_exporter.Base.{
  ok_inj, some_inj, ℕ, zero, suc, ◌≤◌, ◌<◌, nat_eq, ltb, String, string_eq, Bool, true, false, ◌==◌,
  ◌&&◌, Option, none, some, List, [], ◌∷◌, GoError, sentinel, join, no_repositories_listed, Result,
  ok, err, keep, length, length-keep-le, ◌≡◌, ◌≢◌, ◌↔◌, ◌⊎◌, inl, inr, refl, sym, ap, ◌∙◌, arith,
  if◌then◌else◌, Bool-cases, ne_of_beq, Option-cases,
}
use digitalocean_exporter.Base.Assoc.{Assoc, lookup, insert, lookup-insert}
use digitalocean_exporter.Registry.{
  ApiRegistry, Repository, Stats, Snapshot, Subscription, Reading, Client, list, repositories,
  read_all,
}
use digitalocean_exporter.Registry.Refresh.{
  previous, carried, enumerated, stats_of, swap_from, swap, is_failed, last_error, report_failures,
  install, subscription, refresh_found, refresh,
}

-- The last result for a registry of this name.
abbrev pub latest_for : String → List Reading → Option Reading
latest_for name [] = none
latest_for name (r ∷ rs) =
    let rest = latest_for name rs in
    elim rest [ some x ↦ some x | none ↦ if r.registry.name == name then some r else none ]

abbrev or_else : Option Stats → Option Stats → Option Stats
or_else (some d) x = some d
or_else none x = x

abbrev map_stats : Option Snapshot → Option Reading → Option Stats
map_stats snap none = none
map_stats snap (some r) = some (stats_of snap r)

lookup-swap_from :
    (snap : Option Snapshot) (m : Assoc String Stats) (rs : List Reading) (name : String)
    → lookup name (swap_from snap m rs)
      ≡ or_else (map_stats snap (latest_for name rs)) (lookup name m)
unfolding swap_from
lookup-swap_from snap m [] name = refl
lookup-swap_from snap m (r ∷ rs) name =
    lookup-swap_from snap (insert r.registry.name (stats_of snap r) m) rs name
    ∙ elim (Option-cases (latest_for name rs)) [
      | inl e ↦
          rw (e, lookup-insert r.registry.name name (stats_of snap r) m)
            (elim (Bool-cases (r.registry.name == name)) [ inl t ↦ rw t | inr f ↦ rw f ])
      | inr (x, e) ↦ rw e
    ]

-- The figures that the snapshot before had for the registry.
abbrev pub figures_before : Option Snapshot → String → Option Stats
figures_before none name = none
figures_before (some snap) name = lookup name snap.registries

previous-before :
    (snap : Option Snapshot) (name : String) → previous snap name ≡ figures_before snap name
unfolding previous
previous-before none name = refl
previous-before (some snap) name = refl

-- What was known of a registry's repositories before the refresh.
abbrev pub repositories_before : Option Stats → List Repository
repositories_before none = []
repositories_before (some old) = old.repositories

abbrev pub known_before : Option Stats → Bool
known_before none = false
known_before (some old) = old.known

-- The figures of the listing are new; the repositories are those that were listed, or the old ones of a
-- registry that is marked down.
abbrev pub IsUpdate : Option Snapshot → Reading → Stats → Type 0
IsUpdate snap r stats =
    (stats.name ≡ r.registry.name)
    × (stats.region ≡ r.registry.region)
    × (stats.storage_usage ≡ r.registry.storage_usage_bytes)
    × (stats.measured ≡ r.registry.storage_usage_bytes_updated_at)
    × ((listed : List Repository)
        → r.got ≡ ok listed
        → (stats.repositories ≡ listed) × (stats.known ≡ true) × (stats.up ≡ true))
    × ((e : GoError)
        → r.got ≡ err e
        → (stats.repositories ≡ repositories_before (figures_before snap r.registry.name))
          × (stats.known ≡ known_before (figures_before snap r.registry.name))
          × (stats.up ≡ false))

carried-old :
    (stats : Stats) (old : Option Stats)
    → stats.repositories ≡ []
    → stats.known ≡ false
    → stats.up ≡ false
    → ((carried stats old).repositories ≡ repositories_before old)
      × ((carried stats old).known ≡ known_before old)
      × ((carried stats old).up ≡ false)
carried-old stats none p k u = (p, k, u)
carried-old stats (some old) p k u = (refl, refl, u)

carried-figures :
    (stats : Stats) (old : Option Stats)
    → ((carried stats old).name ≡ stats.name)
      × ((carried stats old).region ≡ stats.region)
      × ((carried stats old).storage_usage ≡ stats.storage_usage)
      × ((carried stats old).measured ≡ stats.measured)
carried-figures stats none = (refl, refl, refl, refl)
carried-figures stats (some old) = (refl, refl, refl, refl)

stats_of-IsUpdate :
    (snap : Option Snapshot) (registry : ApiRegistry) (got : Result (List Repository))
    → IsUpdate snap
        (record { registry = registry; got = got })
        (stats_of snap (record { registry = registry; got = got }))
unfolding stats_of
stats_of-IsUpdate snap registry (ok listed) =
    (refl, refl, refl, refl, (λ l h. (ok_inj h, refl, refl)), λ e h. cc)
stats_of-IsUpdate snap registry (err e) =
    let old = figures_before snap registry.name in
    let (n, r, u, m) = carried-figures (enumerated registry) old in
    rw (previous-before snap registry.name)
      (n, r, u, m, (λ l h. cc), λ x h. carried-old (enumerated registry) old refl refl refl)

lookup-swap :
    (snap : Option Snapshot) (sub : Option Subscription) (rs : List Reading) (name : String)
    → ((r : Reading)
        → latest_for name rs ≡ some r
        → (stats : Stats) × (lookup name (swap snap sub rs).registries ≡ some stats)
          × IsUpdate snap r stats)
      × (latest_for name rs ≡ none → lookup name (swap snap sub rs).registries ≡ none)
unfolding swap lookup
lookup-swap snap sub rs name = (
  λ r e. (
    stats_of snap r,
    lookup-swap_from snap [] rs name ∙ rw e,
    stats_of-IsUpdate snap r.registry r.got,
  ),
  λ e. lookup-swap_from snap [] rs name ∙ rw e,
)

-- The snapshot has exactly the registries that were read, and an update of each.
abbrev pub IsSwap : Option Snapshot → List Reading → Snapshot → Type 0
IsSwap snap rs next =
    (name : String)
    → ((r : Reading)
        → latest_for name rs ≡ some r
        → (stats : Stats) × (lookup name next.registries ≡ some stats) × IsUpdate snap r stats)
      × (latest_for name rs ≡ none → lookup name next.registries ≡ none)

module _ {W Links : Type 0} (client : Client W Links) (fuel : ℕ) where
  -- The repositories of these registries are read one registry after another, with these results.
  pub data Reads (multi : Bool) : W → List ApiRegistry → List Reading → W → Type 0 where
    done : {w : W} → Reads multi w [] [] w
    read :
        {w v u : W} {regs : List ApiRegistry} {rs : List Reading} (reg : ApiRegistry)
        (got : Result (List Repository))
        → repositories client fuel reg.name multi w ≡ some (got, v)
        → Reads multi v regs rs u
        → Reads multi w (reg ∷ regs) (record { registry = reg; got = got } ∷ rs) u

  read_all-Reads :
      (multi : Bool) {w u : W} {regs : List ApiRegistry} {rs : List Reading}
      → Reads multi w regs rs u
      → read_all client fuel regs multi w ≡ some (rs, u)
  unfolding read_all
  read_all-Reads multi done = refl
  read_all-Reads multi (read reg got e rest) =
      rw (read_all, e) (rw (read_all-Reads multi rest) refl)

  refresh-swap :
      (snap : Option Snapshot) (w : W) {v x u : W} (reg : ApiRegistry) (regs : List ApiRegistry)
      (multi : Bool) (sub : Option Subscription) (rs : List Reading)
      → list client w ≡ (ok (reg ∷ regs, multi), v)
      → subscription client multi v ≡ (ok sub, x)
      → Reads multi x (reg ∷ regs) rs u
      → refresh client fuel snap w ≡ some (report_failures rs, some (swap snap sub rs), u)
  unfolding install refresh
  refresh-swap snap w reg regs multi sub rs found subscribed reads =
      rw (refresh, found, found)
        (rw (refresh_found, subscribed, subscribed)
          (ap (install snap sub) (read_all-Reads multi reads)))

  -- A refresh that finds registries and can read the subscription leaves a snapshot with exactly those
  -- registries, even where none of them could be read. Each has its new figures, and its repositories as they
  -- were just listed; one whose repositories could not be listed is marked down and keeps those of the
  -- snapshot before, whatever became of the other registries.
  pub refresh-IsSwap :
      (snap : Option Snapshot) (w : W) {v x u : W} (reg : ApiRegistry) (regs : List ApiRegistry)
      (multi : Bool) (sub : Option Subscription) (rs : List Reading)
      → list client w ≡ (ok (reg ∷ regs, multi), v)
      → subscription client multi v ≡ (ok sub, x)
      → Reads multi x (reg ∷ regs) rs u
      → (failure : Option GoError) × (next : Snapshot) × (refresh client fuel snap w
          ≡ some (failure, some next, u))
        × IsSwap snap rs next
  refresh-IsSwap snap w reg regs multi sub rs found subscribed reads = (
    report_failures rs,
    swap snap sub rs,
    refresh-swap snap w reg regs multi sub rs found subscribed reads,
    lookup-swap snap sub rs,
  )

-- What holds of the figures of a registry in every snapshot.
abbrev pub IsSound : Stats → Type 0
IsSound stats =
    (stats.up ≡ true → stats.known ≡ true) × (stats.known ≡ false → stats.repositories ≡ [])

abbrev pub AllSound : Option Snapshot → Type 0
AllSound none = Unit
AllSound (some snap) =
    (name : String) (stats : Stats) → lookup name snap.registries ≡ some stats → IsSound stats

carried-IsSound :
    (registry : ApiRegistry) (old : Option Stats)
    → ((stats : Stats) → old ≡ some stats → IsSound stats)
    → IsSound (carried (enumerated registry) old)
carried-IsSound registry none v = ((λ h. cc), λ h. refl)
carried-IsSound registry (some old) v = ((λ h. cc), (v old refl).1)

previous-IsSound :
    (snap : Option Snapshot) (name : String)
    → AllSound snap
    → (stats : Stats) → previous snap name ≡ some stats
    → IsSound stats
unfolding previous
previous-IsSound none name v stats h = cc
previous-IsSound (some snap) name v stats h = v name stats h

stats_of-IsSound :
    (snap : Option Snapshot) (registry : ApiRegistry) (got : Result (List Repository))
    → AllSound snap
    → IsSound (stats_of snap (record { registry = registry; got = got }))
unfolding stats_of
stats_of-IsSound snap registry (ok listed) v = ((λ h. refl), λ h. cc)
stats_of-IsSound snap registry (err e) v =
    carried-IsSound registry (previous snap registry.name) (previous-IsSound snap registry.name v)

swap-AllSound :
    (snap : Option Snapshot) (sub : Option Subscription) (rs : List Reading)
    → AllSound snap
    → AllSound (some (swap snap sub rs))
unfolding swap lookup
swap-AllSound snap sub rs v name stats h =
    by_result (latest_for name rs) (sym (lookup-swap_from snap [] rs name) ∙ h)
  where
    by_result : (o : Option Reading) → or_else (map_stats snap o) none ≡ some stats → IsSound stats
    by_result none q = cc
    by_result (some r) q = subst IsSound (some_inj q) (stats_of-IsSound snap r.registry r.got v)

module _ {W Links : Type 0} (client : Client W Links) (fuel : ℕ) where
  -- A refresh that finds registries and can read the subscription keeps the snapshot sound, whichever of
  -- its listings failed: a registry that is up has known repositories, and a registry whose repositories
  -- were never listed has none.
  pub refresh-AllSound :
      (snap : Option Snapshot) (w : W) {v x u : W} (reg : ApiRegistry) (regs : List ApiRegistry)
      (multi : Bool) (sub : Option Subscription) (rs : List Reading)
      → AllSound snap
      → list client w ≡ (ok (reg ∷ regs, multi), v)
      → subscription client multi v ≡ (ok sub, x)
      → Reads client fuel multi x (reg ∷ regs) rs u
      → (failure : Option GoError) × (next : Snapshot) × (refresh client fuel snap w
          ≡ some (failure, some next, u))
        × AllSound (some next)
  refresh-AllSound snap w reg regs multi sub rs sound found subscribed reads = (
    report_failures rs,
    swap snap sub rs,
    refresh-swap client fuel snap w reg regs multi sub rs found subscribed reads,
    swap-AllSound snap sub rs sound,
  )

gate :
    (a n : ℕ) (e : GoError)
    → a ≤ n
    → ((if ltb 0 a && a == n then some e else none) ≡ none) ↔ ((n ≡ 0) ⊎ (a < n))
gate zero zero e h = (λ q. inl refl, λ q. refl)
gate zero (suc n) e h = (λ q. inr (omega arith), λ q. refl)
gate (suc a) n e h =
    let above : ltb 0 (suc a) ≡ true = ground arith in
    elim (Bool-cases (suc a == n)) [
      | inl t ↦
          let same : suc a ≡ n = (nat_eq.beq_iff (suc a) n).0 t in
          (
            λ q. let z : some e ≡ none = rw (above, t) at q in cc,
            λ q. let z : 1 ≤ 0 = elim q [ inl o ↦ omega arith | inr l ↦ omega arith ] in elim z [ ],
          )
      | inr f ↦
          let other : suc a ≢ n = ne_of_beq (suc a) n f in
          (λ q. inr (omega arith), λ q. rw (above, f))
    ]

empty_of : {A : Type 0} (xs : List A) → length xs ≡ 0 → xs ≡ []
empty_of [] h = refl
empty_of (x ∷ xs) h = let z : 1 ≤ 0 = omega arith in elim z [ ]

-- The refresh of the enumerated registries is a failure exactly if there are some and not one of them
-- was listed.
pub report_failures-none :
    (rs : List Reading)
    → (report_failures rs ≡ none) ↔ ((rs ≡ []) ⊎ (length (keep is_failed rs) < length rs))
unfolding report_failures
report_failures-none rs =
    let test =
      gate (length (keep is_failed rs)) (length rs)
        (join (sentinel no_repositories_listed) (last_error rs)) (length-keep-le is_failed rs) in
    (
      λ h. elim (test.0 h) [ inl z ↦ inl (empty_of rs z) | inr l ↦ inr l ],
      λ h. test.1 (elim h [ inl z ↦ inl (ap length z) | inr l ↦ inr l ]),
    )

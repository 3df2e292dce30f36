-- ===== src/Main/Probes.antt =====
-- The readiness probe, over the life of the scheduler.
use digitalocean_exporter.Base.{
  ◌≤◌, String, string_eq, Bool, true, not, List, [], ◌∷◌, keep, ◌≡◌, ◌↔◌, refl, arith, Bool-cases,
  inl, inr, All,
}
use digitalocean_exporter.Scheduler.{Scheduler, Event, pending, run}
use digitalocean_exporter.Scheduler.Ready.{any_success, pending-run}
use digitalocean_exporter.Main.{readyz, handle_readyz}

-- None of these names is left out by the test.
abbrev pub AllPass : (String → Bool) → List String → Type 0
AllPass p = All (λ name. p name ≡ true)

readyz-keep :
    (p : String → Bool) (xs : List String)
    → ((readyz (keep (λ name. not (p name)) xs)).status ≡ 200) ↔ AllPass p xs
unfolding readyz
readyz-keep p [] = (λ h. tt, λ h. refl)
readyz-keep p (x ∷ xs) = elim (Bool-cases (p x)) [
  | inl t ↦ rw t (λ h. (refl, (readyz-keep p xs).0 h), λ h. (readyz-keep p xs).1 h.1)
  | inr f ↦ rw f (λ h. let z : 1 ≤ 0 = omega arith in elim z [ ], λ h. cc)
]

-- The readiness probe answers 200 exactly from the point where each collector that was pending at the
-- start has had a successful refresh, whatever else has happened to any of them.
pub handle_readyz-run :
    (events : List Event) (s : Scheduler)
    → ((handle_readyz (run events s)).status ≡ 200) ↔ AllPass (any_success events) (pending s)
unfolding handle_readyz
handle_readyz-run events s =
    rw (pending-run events s) (readyz-keep (any_success events) (pending s))

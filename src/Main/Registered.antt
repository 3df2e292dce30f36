-- ===== src/Main/Registered.antt =====
-- From the configuration to the scheduler: what is registered, and with which times.
use mathlib.Core.Path.{subst}
use mathlib.Core.List.{append_assoc, append-nil}
use digitalocean_exporter.Base.{
  ℤ, String, string_eq, Bool, true, false, List, [], ◌∷◌, ◌++◌, map, keep, ◌≡◌, refl, sym, ap, ◌∙◌,
  if◌then◌else◌, Bool-cases, Option-cases, inl, inr, Result, ok, All,
}
use digitalocean_exporter.Base.Int.{positive}
use digitalocean_exporter.Base.Assoc.{Assoc, lookup}
use digitalocean_exporter.Config.{CollectorConfig, Config, Flags, config}
use digitalocean_exporter.Config.Valid.{IsFit, config-IsFit}
use digitalocean_exporter.Doclient.Context.{Context}
use digitalocean_exporter.Scheduler.{Outcome, Entry, Scheduler, new, register}
use digitalocean_exporter.Main.{
  available, collector_config, build, register_enabled, register_from, register_collectors,
}

abbrev pub is_enabled : Assoc String CollectorConfig → String → Bool
is_enabled collectors name = (collector_config collectors name).enabled

-- An enabled collector has a positive interval.
abbrev pub Timed : CollectorConfig → Type 0
Timed c = c.enabled ≡ true → positive c.interval ≡ true

module _ (refresh_of : String → Context → Outcome) where
  abbrev pub entry_of : ℤ → String → CollectorConfig → Entry
  entry_of timeout name c = record {
    collector = build refresh_of name;
    interval = c.interval;
    timeout = if positive c.timeout then c.timeout else timeout;
  }

  -- The entries of these names, where they are enabled.
  abbrev pub entries_of : ℤ → Assoc String CollectorConfig → List String → List Entry
  entries_of timeout collectors names =
      map (λ name. entry_of timeout name (collector_config collectors name))
        (keep (is_enabled collectors) names)

  register_enabled-entries :
      (c : CollectorConfig) (name : String) (s : Scheduler)
      → Timed c
      → (c.enabled ≡ true
          → ((register_enabled refresh_of c name s).entries
              ≡ s.entries ++ entry_of s.timeout name c ∷ [])
            × ((register_enabled refresh_of c name s).timeout ≡ s.timeout))
        × (c.enabled ≡ false → register_enabled refresh_of c name s ≡ s)
  unfolding register_enabled register
  register_enabled-entries c name s h = (λ t. let p = h t in rw (t, p) (refl, refl), λ f. rw f)

  register_from-entries :
      (collectors : Assoc String CollectorConfig) (names : List String) (s : Scheduler)
      → ((name : String) → Timed (collector_config collectors name))
      → (register_from refresh_of collectors names s).entries
        ≡ s.entries ++ entries_of s.timeout collectors names
  unfolding register_from
  register_from-entries collectors [] s h = sym (append-nil s.entries)
  register_from-entries collectors (name ∷ names) s h =
      let c = collector_config collectors name in
      let (on, off) = register_enabled-entries c name s (h name) in
      let later = register_from-entries collectors names (register_enabled refresh_of c name s) h in
      elim (Bool-cases c.enabled) [
        | inl t ↦
            let (e, d) = on t in
            later
            ∙ ap
                (λ xs.
                  xs ++ entries_of (register_enabled refresh_of c name s).timeout collectors names)
                e
            ∙ ap
                (λ d.
                  (s.entries ++ entry_of s.timeout name c ∷ []) ++ entries_of d collectors names)
                d
            ∙ append_assoc s.entries (entry_of s.timeout name c ∷ [])
                (entries_of s.timeout collectors names)
            ∙ (rw t)
        | inr f ↦
            later
            ∙ ap (λ (s : Scheduler). s.entries ++ entries_of s.timeout collectors names) (off f)
            ∙ (rw f)
      ]

IsFit-Timed :
    {F : Type 0} (is_negative : F → Bool) (cfg : Config F) (name : String)
    → IsFit is_negative cfg
    → Timed (collector_config cfg.collectors name)
unfolding collector_config
IsFit-Timed is_negative cfg name fit h = elim (Option-cases (lookup name cfg.collectors)) [
  | inl n ↦ let q : false ≡ true = rw (n, collector_config) at h in cc
  | inr (c, n) ↦ rw (n, collector_config) (fit.collectors name c n).0
]

-- What the loop and the context of a refresh ask of an entry.
abbrev pub HasTimes : Entry → Type 0
HasTimes e = (positive e.interval ≡ true) × (positive e.timeout ≡ true)

HasTimes-entries :
    (refresh_of : String → Context → Outcome) (timeout : ℤ)
    (collectors : Assoc String CollectorConfig) (names : List String)
    → ((name : String) → Timed (collector_config collectors name))
    → positive timeout ≡ true
    → All HasTimes (entries_of refresh_of timeout collectors names)
HasTimes-entries refresh_of timeout collectors [] h p = tt
HasTimes-entries refresh_of timeout collectors (name ∷ names) h p =
    let c = collector_config collectors name in
    let rest = HasTimes-entries refresh_of timeout collectors names h p in
    let chosen : positive (if positive c.timeout then c.timeout else timeout) ≡ true =
      elim (Bool-cases (positive c.timeout)) [ inl t ↦ rw (t, t) refl | inr f ↦ rw (f, p) refl ] in
    elim (Bool-cases c.enabled) [ inl t ↦ rw t ((h name t, chosen), rest) | inr f ↦ rw f rest ]

-- From a configuration that validates, exactly the enabled collectors are registered, in the order of
-- the table, each with the interval that it was given and with its own timeout, or the exporter's if it
-- has none; every interval and every timeout is positive, so the scheduler replaces none of them.
pub register_collectors-config :
    {F : Type 0} (read_file : String → Result String) (is_negative : F → Bool) (f : Flags F)
    (cfg : Config F) (refresh_of : String → Context → Outcome)
    → config read_file is_negative f ≡ ok cfg
    → ((register_collectors refresh_of cfg (new cfg.timeout)).entries
        ≡ entries_of refresh_of cfg.timeout cfg.collectors available)
      × All HasTimes (register_collectors refresh_of cfg (new cfg.timeout)).entries
unfolding register_collectors new
register_collectors-config read_file is_negative f cfg refresh_of h =
    let fit = config-IsFit read_file is_negative f cfg h in
    let timed = λ (name : String). IsFit-Timed is_negative cfg name fit in
    let e : (register_collectors refresh_of cfg (new cfg.timeout)).entries
        ≡ entries_of refresh_of cfg.timeout cfg.collectors available =
      register_from-entries refresh_of cfg.collectors available (new cfg.timeout) timed in
    (
      e,
      subst (All HasTimes) (sym e)
          (HasTimes-entries refresh_of cfg.timeout cfg.collectors available timed fit.timeout),
    )

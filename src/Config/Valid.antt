-- ===== src/Config/Valid.antt =====
-- What a configuration that `config` returns is sure to have.
use digitalocean_exporter.Base.{
  pos, String, string_eq, Bool, true, false, Option, none, some, List, [], ◌∷◌, ◌==◌, ◌≡◌, ◌≢◌,
  refl, sym, ap, ◌∙◌, arith, contains, Bool-cases, Option-cases, inl, inr, Result, ok, err, ◌>>=◌,
  ◌⊎◌, sentinel, no_token, token_conflict,
}
use digitalocean_exporter.Base.Int.{positive}
use digitalocean_exporter.Base.Assoc.{Assoc, lookup, insert, lookup-insert, lookup-present, keys}
use digitalocean_exporter.Config.{
  CollectorConfig, CollectorFlags, TimedFlags, Flags, Config, interval_of, timed_collectors,
  validate_durations, simple_collectors, add_timed, collectors_of, resolve_secret, spaces_config,
  config, require_rate,
}
use digitalocean_exporter.Config.Validation.{TimedPositive, validate_durations-ok}
use digitalocean_exporter.Config.Secrets.{resolve_secret-ok}

-- A collector can be scheduled: its interval is positive, and so is its timeout, unless it is zero,
-- which stands for the exporter's own.
abbrev pub IsSchedulable : CollectorConfig → Type 0
IsSchedulable c = (positive c.interval ≡ true) × ((c.timeout ≡ pos 0) ⊎ (positive c.timeout ≡ true))

abbrev AllSchedulable : Assoc String CollectorConfig → Type 0
AllSchedulable m = (k : String) (c : CollectorConfig) → lookup k m ≡ some c → IsSchedulable c

AllSchedulable-insert :
    (name : String) (c : CollectorConfig) (m : Assoc String CollectorConfig)
    → IsSchedulable c
    → AllSchedulable m
    → AllSchedulable (insert name c m)
AllSchedulable-insert name c m v a k d h = elim (Bool-cases (name == k)) [
  | inl t ↦ let e : c ≡ d = ground (arith, lookup-insert name k c m) in rw (← e) v
  | inr f ↦ a k d (ground (arith, lookup-insert name k c m))
]

AllSchedulable-add_timed :
    (cs : List (String × TimedFlags)) (m : Assoc String CollectorConfig)
    → TimedPositive cs
    → AllSchedulable m
    → AllSchedulable (add_timed cs m)
unfolding add_timed
AllSchedulable-add_timed [] m p a = a
AllSchedulable-add_timed ((name, c) ∷ cs) m p a =
    AllSchedulable-add_timed cs _ p.1 (AllSchedulable-insert name _ m (p.0.0, inr p.0.1) a)

abbrev conf : Option CollectorFlags → Option CollectorConfig
conf none = none
conf (some b) = some (record { enabled = b.enabled; interval = b.interval; timeout = pos 0 })

lookup-simple_collectors :
    (k : String) (simple : Assoc String CollectorFlags)
    → lookup k (simple_collectors simple) ≡ conf (lookup k simple)
unfolding simple_collectors lookup
lookup-simple_collectors k [] = refl
lookup-simple_collectors k ((name, b) ∷ simple) =
    rw (lookup-insert name k _ (simple_collectors simple), lookup-simple_collectors k simple)
      (elim (Bool-cases (name == k)) [ inl t ↦ rw t | inr f ↦ rw f ])

interval_of-some :
    (simple : Assoc String CollectorFlags) (k : String) (b : CollectorFlags)
    → lookup k simple ≡ some b
    → interval_of simple k ≡ b.interval
unfolding interval_of
interval_of-some simple k b e = rw (e, interval_of) refl

AllSchedulable-simple :
    (simple : Assoc String CollectorFlags)
    → ((k : String) → contains (keys simple) k ≡ true → positive (interval_of simple k) ≡ true)
    → AllSchedulable (simple_collectors simple)
AllSchedulable-simple simple h k c l = elim (Option-cases (lookup k simple)) [
  | inl e ↦
      let q : conf (lookup k simple) ≡ some c = sym (lookup-simple_collectors k simple) ∙ l in
      ground arith
  | inr (b, e) ↦
      let q : conf (lookup k simple) ≡ some c = sym (lookup-simple_collectors k simple) ∙ l in
      let r : conf (some b) ≡ some c = rw e at q in
      let p = h k (lookup-present k simple b e) in ground (arith, interval_of-some simple k b e)
]

-- The configuration is fit to run.
pub record IsFit {F : Type 0} (is_negative : F → Bool) (cfg : Config F) : Type 0 where
  pub timeout : positive cfg.timeout ≡ true
  pub rate : is_negative cfg.rate_limit ≡ false
  pub token : cfg.token ≢ ""
  pub collectors :
      (k : String) (c : CollectorConfig) → lookup k cfg.collectors ≡ some c → IsSchedulable c

ok_inj : {A : Type 0} {a b : A} → ok a ≡ ok b → a ≡ b
ok_inj e = cc

bind-ok :
    {A B : Type 0} (m : Result A) (f : A → Result B) (b : B)
    → (m >>= f) ≡ ok b
    → (a : A) × (m ≡ ok a) × (f a ≡ ok b)
bind-ok (ok a) f b h = (a, refl, h)
bind-ok (err e) f b h = cc

require_rate-ok :
    {F : Type 0} (read_file : String → Result String) (is_negative : F → Bool) (rate : F)
    (u : Unit {0})
    → require_rate read_file is_negative rate ≡ ok u
    → is_negative rate ≡ false
unfolding require_rate
require_rate-ok read_file is_negative rate u h = ground arith

-- The token, the collectors and the checked flags of one call of `config`.
abbrev Checked : {F : Type 0} → (String → Result String) → (F → Bool) → Flags F → Config F → Type 0
Checked read_file is_negative f cfg =
    (validate_durations f ≡ ok tt)
    × (require_rate read_file is_negative f.rate_limit ≡ ok tt)
    × (resolve_secret read_file f.token f.token_file (sentinel token_conflict) (sentinel no_token)
        ≡ ok cfg.token)
    × (cfg.timeout ≡ f.timeout)
    × (cfg.rate_limit ≡ f.rate_limit)
    × (cfg.collectors ≡ collectors_of f)

config-Checked :
    {F : Type 0} (read_file : String → Result String) (is_negative : F → Bool) (f : Flags F)
    (cfg : Config F)
    → config read_file is_negative f ≡ ok cfg
    → Checked read_file is_negative f cfg
unfolding config
config-Checked read_file is_negative f cfg h =
    let (u, durations, h1) = bind-ok (validate_durations f) _ cfg h in
    let (v, rate, h2) = bind-ok (require_rate read_file is_negative f.rate_limit) _ cfg h1 in
    let (token, secret, h3) =
      bind-ok
        (resolve_secret read_file f.token f.token_file (sentinel token_conflict)
          (sentinel no_token))
        _ cfg h2 in
    let (spaces, s, h4) = bind-ok (spaces_config read_file f) _ cfg h3 in
    (
      durations,
      rate,
      secret ∙ ap (λ c. ok c.token) (ok_inj h4),
      ap (λ c. c.timeout) (sym (ok_inj h4)),
      ap (λ c. c.rate_limit) (sym (ok_inj h4)),
      ap (λ c. c.collectors) (sym (ok_inj h4)),
    )

-- A configuration that is returned has a positive timeout, a rate limit that is not negative, a token
-- that is not empty, and only collectors that can be scheduled.
pub config-IsFit :
    {F : Type 0} (read_file : String → Result String) (is_negative : F → Bool) (f : Flags F)
    (cfg : Config F)
    → config read_file is_negative f ≡ ok cfg
    → IsFit is_negative cfg
unfolding collectors_of
config-IsFit read_file is_negative f cfg h =
    let (durations, rate, secret, t, r, c) = config-Checked read_file is_negative f cfg h in
    let valid = (validate_durations-ok f).0 durations in
    record {
      timeout = rw t valid.timeout;
      rate = rw r (require_rate-ok read_file is_negative f.rate_limit tt rate);
      token =
          (resolve_secret-ok read_file f.token f.token_file (sentinel token_conflict)
            (sentinel no_token) cfg.token secret).0;
      collectors = rw c (
          AllSchedulable-add_timed (timed_collectors f) (simple_collectors f.simple) valid.timed
            (AllSchedulable-simple f.simple valid.simple));
    }

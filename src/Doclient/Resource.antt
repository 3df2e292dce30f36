-- ===== src/Doclient/Resource.antt =====
-- `resource` of internal/doclient/client.go: the label that an API path is reduced to. The standard
-- library's `strings.TrimPrefix` and `strings.IndexByte` with a cut are written out.
use Prim.Native.Char.{code}
use Prim.Native.String.{◌∷◌ as cons, ◌++◌ as str_append}
use text.Mathlib.TextLemmas.{cons-append, nil-append}
use digitalocean_exporter.Base.{
  String, string_eq, Bool, true, false, ◌||◌, Option, none, some, ◌==◌, nat_eq, ◌≡◌, ◌≢◌, refl,
  arith, if◌then◌else◌, ap, Bool-cases, inl, inr,
}

-- What is left of `s` behind the prefix, if it has it.
unfoldable pub strip : String → String → Option String
strip s String.[] = some s
strip String.[] (String.◌∷◌ p ps) = none
strip (String.◌∷◌ c s) (String.◌∷◌ p ps) = if code c == code p then strip s ps else none

-- `strings.TrimPrefix`
unfoldable pub trim_prefix : String → String → String
unfolding strip
trim_prefix s p = elim (strip s p) [ none ↦ s | some rest ↦ rest ]

-- `trimmed[:strings.IndexByte(trimmed, '/')]`, or all of it where there is no slash.
unfoldable pub until_slash : String → String
until_slash String.[] = ""
until_slash (String.◌∷◌ c s) = if code c == b'/' then "" else cons c (until_slash s)

unfoldable pub resource : String → String
unfolding trim_prefix until_slash
resource path =
    let trimmed = until_slash (trim_prefix (trim_prefix path "/") "v2/") in
    if trimmed == "" then "unknown" else trimmed

abbrev pub has_slash : String → Bool
has_slash String.[] = false
has_slash (String.◌∷◌ c s) = code c == b'/' || has_slash s

has_slash-until_slash : (s : String) → has_slash (until_slash s) ≡ false
unfolding until_slash
has_slash-until_slash String.[] = refl
has_slash-until_slash (String.◌∷◌ c s) = elim (Bool-cases (code c == b'/')) [
  | inl slash ↦ rw (slash, until_slash)
  | inr other ↦ rw (other, until_slash, has_slash) (rw (other, has_slash-until_slash s))
]

until_slash-append :
    (s rest : String) → has_slash s ≡ false → until_slash (str_append s (str_append "/" rest)) ≡ s
unfolding until_slash
until_slash-append String.[] rest h = rw (nil-append, cons-append, until_slash)
until_slash-append (String.◌∷◌ c s) rest h = elim (Bool-cases (code c == b'/')) [
  | inl slash ↦ ground arith
  | inr other ↦
      rw (cons-append, until_slash, other) (ap (cons c) (until_slash-append s rest (ground arith)))
]

IsLabel_or_unknown :
    (s : String)
    → let label = (let trimmed = until_slash s in if trimmed == "" then "unknown" else trimmed) in
      (has_slash label ≡ false) × (label ≢ "")
IsLabel_or_unknown s = elim (Bool-cases (until_slash s == "")) [
  | inl empty ↦ rw (empty) (
    refl,
    λ e. let t : ◌==◌ {T = String} "unknown" "" ≡ true = (string_eq.beq_iff "unknown" "").1 e in cc,
  )
  | inr full ↦
      rw full (has_slash-until_slash s, λ e. ground (arith, string_eq.beq_iff (until_slash s) ""))
]

-- The label is never empty, and no slash gets into it.
pub resource-IsLabel : (path : String) → (has_slash (resource path) ≡ false) × (resource path ≢ "")
unfolding resource
resource-IsLabel path = IsLabel_or_unknown (trim_prefix (trim_prefix path "/") "v2/")

behind_version :
    (path : String) → trim_prefix (trim_prefix (str_append "/v2/" path) "/") "v2/" ≡ path
unfolding trim_prefix
behind_version path = rw (cons-append, cons-append, cons-append, cons-append, nil-append)

-- For a segment with no slash in it, whatever follows its own slash is gone from the label: no
-- identifier further down a path gets into a metric.
pub resource_first_segment :
    (segment rest : String)
    → has_slash segment ≡ false
    → segment ≢ ""
    → resource (str_append "/v2/" (str_append segment (str_append "/" rest))) ≡ segment
unfolding resource
resource_first_segment segment rest h ne =
    let path = str_append segment (str_append "/" rest) in
    let e : trim_prefix (trim_prefix (str_append "/v2/" path) "/") "v2/" ≡ path =
      behind_version path in
    rw (e, until_slash-append segment rest h)
      (elim (Bool-cases (segment == "")) [
        | inl t ↦ absurd (ne ((string_eq.beq_iff segment "").0 t))
        | inr f ↦ rw f
      ])

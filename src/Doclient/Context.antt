-- ===== src/Doclient/Context.antt =====
-- internal/doclient/context.go: the collector's name on the context.
use digitalocean_exporter.Base.{
  String, string_eq, Option, none, some, ◌==◌, ◌≡◌, arith, if◌then◌else◌, ℤ,
}

-- What the code reads of a `context.Context`: its deadline, and the value under `collectorKey`.
pub record Context : Type 0 where
  pub deadline : Option ℤ
  pub collector : Option String

abbrev pub no_collector : String
no_collector = "none"

unfoldable pub with_collector : Context → String → Context
with_collector ctx name = if name == "" then ctx else record ctx { collector = some name }

unfoldable pub collector_name : Context → String
collector_name ctx = elim ctx.collector [
  | none ↦ no_collector
  | some name ↦ if name == "" then no_collector else name
]

-- A request made under a named collector is labelled with that name, and an empty name leaves the
-- label as it was. The deadline of the context is kept.
pub collector_name-with_collector :
    (ctx : Context) (name : String)
    → (collector_name (with_collector ctx name) ≡ (if name == "" then collector_name ctx else name))
      × ((with_collector ctx name).deadline ≡ ctx.deadline)
unfolding with_collector collector_name
collector_name-with_collector ctx name = (ground arith, ground arith)

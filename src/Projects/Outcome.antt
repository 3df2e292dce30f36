-- ===== src/Projects/Outcome.antt =====
-- What `Refresh` leaves: an entry for every project of the list, or the snapshot as it was.
use native.Mathlib.Nat.{zero-add}
use digitalocean_exporter.Base.{
  ℕ, suc, ◌+◌, nat_eq, String, string_eq, Bool, true, false, ◌&&◌, ◌==◌, ltb, Option, none, some,
  List, [], ◌∷◌, keep, GoError, sentinel, join, no_project_measured, Result, ok, err, ok_inj,
  length, length-keep-le, ◌<◌, ◌⊎◌, ◌≡◌, refl, ap, ◌∙◌, arith, if◌then◌else◌, Bool-cases,
  Option-cases, inl, inr,
}
use digitalocean_exporter.Base.Assoc.{Assoc, lookup, insert, lookup-insert}
use digitalocean_exporter.Text.{format_bool}
use digitalocean_exporter.Paging.{Api, all}
use digitalocean_exporter.Projects.{
  ApiProject, ApiResource, TypeCount, Project, Pass, carry, measure, enter, start, finish,
  count_resources, gather, refresh,
}

-- A project of the list, with the answer of its lookup.
abbrev pub Looked : Type 0
Looked = ApiProject × Result (List TypeCount)

abbrev pub is_failed : Looked → Bool
is_failed r = elim r.1 [ ok _ ↦ false | err _ ↦ true ]

-- The last of these for a project.
abbrev pub latest_for : String → List Looked → Option Looked
latest_for id [] = none
latest_for id (r ∷ rs) =
    let rest = latest_for id rs in
    elim rest [ some x ↦ some x | none ↦ if r.0.id == id then some r else none ]

abbrev entry_of : Assoc String Project → Option Looked → Option Project
entry_of previous none = none
entry_of previous (some r) = some (measure previous r.0 r.1)

-- What an older entry says of the counts: nothing, unless a lookup once gave them.
abbrev pub counts_before : Option Project → List TypeCount
counts_before none = []
counts_before (some old) = if old.known then old.counts else []

abbrev pub known_before : Option Project → Bool
known_before none = false
known_before (some old) = old.known

-- The entry of a project is labelled as it is listed, and has the counts that were just read or, where
-- they could not be read, those of the snapshot before.
abbrev pub IsEntry : Assoc String Project → Looked → Project → Type 0
IsEntry previous r entry =
    (entry.id ≡ r.0.id)
    × (entry.name ≡ r.0.name)
    × (entry.purpose ≡ r.0.purpose)
    × (entry.environment ≡ r.0.environment)
    × (entry.is_default ≡ format_bool r.0.is_default)
    × ((counts : List TypeCount) → r.1 ≡ ok counts → (entry.counts ≡ counts) × (entry.known ≡ true))
    × ((e : GoError)
        → r.1 ≡ err e
        → (entry.counts ≡ counts_before (lookup r.0.id previous))
          × (entry.known ≡ known_before (lookup r.0.id previous)))

carry-old :
    (old : Option Project) (entry : Project)
    → entry.counts ≡ []
    → entry.known ≡ false
    → ((carry old entry).id ≡ entry.id)
      × ((carry old entry).name ≡ entry.name)
      × ((carry old entry).purpose ≡ entry.purpose)
      × ((carry old entry).environment ≡ entry.environment)
      × ((carry old entry).is_default ≡ entry.is_default)
      × ((carry old entry).counts ≡ counts_before old)
      × ((carry old entry).known ≡ known_before old)
carry-old none entry c k = (refl, refl, refl, refl, refl, c, k)
carry-old (some old) entry c k = elim (Bool-cases old.known) [
  | inl t ↦ rw t (refl, refl, refl, refl, refl, refl, refl)
  | inr f ↦ rw f (refl, refl, refl, refl, refl, c, k)
]

measure-IsEntry :
    (previous : Assoc String Project) (p : ApiProject) (got : Result (List TypeCount))
    → IsEntry previous (p, got) (measure previous p got)
unfolding measure
measure-IsEntry previous p (ok counts) =
    (refl, refl, refl, refl, refl, (λ c h. (ok_inj h, refl)), λ e h. cc)
measure-IsEntry previous p (err e) =
    let (i, n, u, v, d, c, k) = carry-old (lookup p.id previous) _ refl refl in
    (i, n, u, v, d, (λ c h. cc), λ x h. (c, k))

abbrev or_else : Option Project → Option Project → Option Project
or_else (some d) x = some d
or_else none x = x

abbrev enter_all : Assoc String Project → List Looked → Pass → Pass
enter_all previous [] pass = pass
enter_all previous (r ∷ rs) pass = enter_all previous rs (enter previous r.0 r.1 pass)

next-enter :
    (previous : Assoc String Project) (p : ApiProject) (got : Result (List TypeCount)) (pass : Pass)
    → (enter previous p got pass).next ≡ insert p.id (measure previous p got) pass.next
unfolding enter
next-enter previous p (ok _) pass = refl
next-enter previous p (err _) pass = refl

lookup-enter_all :
    (previous : Assoc String Project) (rs : List Looked) (pass : Pass) (id : String)
    → lookup id (enter_all previous rs pass).next
      ≡ or_else (entry_of previous (latest_for id rs)) (lookup id pass.next)
lookup-enter_all previous [] pass id = refl
lookup-enter_all previous (r ∷ rs) pass id =
    lookup-enter_all previous rs (enter previous r.0 r.1 pass) id
    ∙ elim (Option-cases (latest_for id rs)) [
      | inl e ↦
          rw
            (
              e,
              next-enter previous r.0 r.1 pass,
              lookup-insert r.0.id id (measure previous r.0 r.1) pass.next,
            )
            (elim (Bool-cases (r.0.id == id)) [ inl t ↦ rw t | inr f ↦ rw f ])
      | inr (x, e) ↦ rw e
    ]

failed-enter_all :
    (previous : Assoc String Project) (rs : List Looked) (pass : Pass)
    → (enter_all previous rs pass).failed ≡ pass.failed + length (keep is_failed rs)
unfolding enter
failed-enter_all previous [] pass = omega arith
failed-enter_all previous ((p, ok c) ∷ rs) pass =
    failed-enter_all previous rs (enter previous p (ok c) pass)
failed-enter_all previous ((p, err e) ∷ rs) pass =
    failed-enter_all previous rs (enter previous p (err e) pass) ∙ omega arith

module _ {W Links : Type 0} (list : Api ApiProject W Links)
    (list_resources : String → Api ApiResource W Links) (fuel : ℕ) where
  -- The lookups of the projects one after another, with their answers.
  pub data Looks : W → List ApiProject → List Looked → W → Type 0 where
    done : {w : W} → Looks w [] [] w
    look :
        {w v w' : W} {ps : List ApiProject} {rs : List Looked} (p : ApiProject)
        (got : Result (List TypeCount))
        → count_resources list list_resources fuel p.id w ≡ some (got, v)
        → Looks v ps rs w'
        → Looks w (p ∷ ps) ((p, got) ∷ rs) w'

  gather-Looks :
      {w w' : W} {ps : List ApiProject} {rs : List Looked} (previous : Assoc String Project)
      (pass : Pass)
      → Looks w ps rs w'
      → (gather list list_resources fuel previous ps pass w ≡ some (enter_all previous rs pass, w'))
        × (length ps ≡ length rs)
  unfolding gather
  gather-Looks previous pass done = (refl, refl)
  gather-Looks previous pass (look p got e rest) =
      let (a, b) = gather-Looks previous (enter previous p got pass) rest in
      (rw (gather, e) a, ap suc b)

-- The error of a refresh and the snapshot that it leaves, by the answers.
pub data Left (previous : Assoc String Project) (rs : List Looked)
    : Option GoError → Assoc String Project → Type 0 where
  replaced :
      (next : Assoc String Project)
      → (length (keep is_failed rs) ≡ 0) ⊎ (length (keep is_failed rs) < length rs)
      → ((id : String)
          → ((r : Looked)
              → latest_for id rs ≡ some r
              → (entry : Project) × (lookup id next ≡ some entry) × IsEntry previous r entry)
            × (latest_for id rs ≡ none → lookup id next ≡ none))
      → Left previous rs none next
  untouched :
      (e : GoError)
      → 0 < length rs
      → length (keep is_failed rs) ≡ length rs
      → Left previous rs (some (join (sentinel no_project_measured) e)) previous

or_else-none : (o : Option Project) → or_else o none ≡ o
or_else-none none = refl
or_else-none (some x) = refl

finish-Left :
    (previous : Assoc String Project) (rs : List Looked) (n : ℕ)
    → n ≡ length rs
    → Left previous rs
        (finish n (enter_all previous rs start) previous).0
        (finish n (enter_all previous rs start) previous).1
unfolding finish lookup
finish-Left previous rs n same =
    let last = enter_all previous rs start in
    let failed : last.failed ≡ length (keep is_failed rs) =
      failed-enter_all previous rs start ∙ zero-add _ in
    let few = length-keep-le is_failed rs in
    elim (Bool-cases (ltb 0 last.failed && last.failed == n)) [
      | inl t ↦ rw t (untouched last.last_err (ground arith) (ground arith))
      | inr f ↦ rw f (
          replaced last.next (ground arith) (λ id.
            let found =
              lookup-enter_all previous rs start id
              ∙ or_else-none (entry_of previous (latest_for id rs)) in
            (
              λ r e. (
                measure previous r.0 r.1,
                found ∙ ap (entry_of previous) e,
                measure-IsEntry previous r.0 r.1,
              ),
              λ e. found ∙ ap (entry_of previous) e,
            )))
    ]

module _ {W Links : Type 0} (list : Api ApiProject W Links)
    (list_resources : String → Api ApiResource W Links) (fuel : ℕ) where
  -- After the listing has given its projects and the lookup of each has ended, one way or the other, the
  -- refresh has ended too. If every lookup of at least one project failed, it is an error and the
  -- snapshot is the old one; else the new snapshot has an entry for exactly the listed projects, labelled as
  -- it is listed, with the counts of the last answer for it, or, where that answer is a failure, with those
  -- of the old snapshot, which are unknown if no lookup ever gave them.
  pub refresh-Left :
      (snap : Assoc String Project) (w : W) {v w' : W} {ps : List ApiProject} {rs : List Looked}
      → all "projects" (λ (p : ApiProject). p.id) list fuel w ≡ some (ok ps, v)
      → Looks list list_resources fuel v ps rs w'
      → (failure : Option GoError) × (after : Assoc String Project) × (refresh list list_resources
            fuel snap w
          ≡ some (failure, after, w'))
        × Left snap rs failure after
  unfolding refresh
  refresh-Left snap w {ps = ps} {rs = rs} e looks =
      let (a, b) = gather-Looks list list_resources fuel snap start looks in
      let last = finish (length ps) (enter_all snap rs start) snap in
      (last.0, last.1, rw (refresh, e) (rw a refl), finish-Left snap rs (length ps) b)

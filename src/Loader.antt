-- ===== src/Loader.antt =====
-- loaders.py: `ResolverLoader` over a resolver, and the snapshots of a render.
pub mod Stable
pub mod Scope
use dj_hyperview.Prelude.{
  ℕ, Bool, true, false, not, Option, none, some, List, [], ◌∷◌, ◌++◌, ◌==◌, if◌then◌else◌, Text,
  text_eq,
}
use dj_hyperview.Errors.{Error, Result, ok, err, Exec, template_not_found}
use dj_hyperview.Sources.{ResolvedTemplate}

-- `_ResolverSnapshot.templates`: the latest entry of a name comes first.
abbrev pub Templates : Type 0
Templates = List (Text × Option ResolvedTemplate)

-- `_active_snapshots`: a resolver is its identity, as the code compares by `is`.
abbrev pub Snapshots : Type 0
Snapshots = List (ℕ × Templates)

-- `name in snapshot`, and `snapshot[name]`.
unfoldable pub find : Text → Templates → Option (Option ResolvedTemplate)
find name [] = none
find name ((n, resolved) ∷ templates) =
    if text_eq n name then some resolved else find name templates

-- `_snapshot_for`
unfoldable pub snapshot_for : ℕ → Snapshots → Option Templates
snapshot_for resolver [] = none
snapshot_for resolver ((r, templates) ∷ snapshots) =
    if r == resolver then some templates else snapshot_for resolver snapshots

-- `_remember`
unfoldable pub remember : ℕ → Text → Option ResolvedTemplate → Snapshots → Snapshots
remember resolver name resolved [] = []
remember resolver name resolved ((r, templates) ∷ snapshots) =
    (r, if r == resolver then (name, resolved) ∷ templates else templates)
    ∷ remember resolver name resolved snapshots

-- The `finally` clause of `template_snapshot`.
unfoldable pub forget : ℕ → Snapshots → Snapshots
forget resolver [] = []
forget resolver ((r, templates) ∷ snapshots) =
    let rest = forget resolver snapshots in if r == resolver then rest else (r, templates) ∷ rest

-- `W` is the rest of the world, and `resolve` the method `resolve` of a resolver.
module _ {W : Type 0} (resolve : ℕ → Text → Exec W ResolvedTemplate) where
  abbrev pub Loading : Type 0
  Loading = Snapshots × W

  -- The lines of `_resolve` from its `try` block on, with a snapshot.
  unfoldable pub remembered :
      ℕ → Text → Snapshots → Result ResolvedTemplate × W → Result ResolvedTemplate × Loading
  remembered resolver name snapshots (ok t, w) =
      (ok t, (remember resolver name (some t) snapshots, w))
  remembered resolver name snapshots (err (template_not_found n), w) =
      (err (template_not_found n), (remember resolver name none snapshots, w))
  remembered resolver name snapshots (err e, w) = (err e, (snapshots, w))

  abbrev pub beside : Snapshots → Result ResolvedTemplate × W → Result ResolvedTemplate × Loading
  beside snapshots (r, w) = (r, (snapshots, w))

  unfoldable pub from_snapshot :
      ℕ → Text → Option (Option ResolvedTemplate) → Exec Loading ResolvedTemplate
  from_snapshot resolver name none (snapshots, w) =
      remembered resolver name snapshots (resolve resolver name w)
  from_snapshot resolver name (some none) s = (err (template_not_found name), s)
  from_snapshot resolver name (some (some t)) s = (ok t, s)

  -- `ResolverLoader._resolve`, by what `_snapshot_for` gives.
  unfoldable pub load_in : ℕ → Text → Option Templates → Exec Loading ResolvedTemplate
  load_in resolver name none (snapshots, w) = beside snapshots (resolve resolver name w)
  load_in resolver name (some templates) s = from_snapshot resolver name (find name templates) s

  unfoldable pub load : ℕ → Text → Exec Loading ResolvedTemplate
  load resolver name s = load_in resolver name (snapshot_for resolver s.0) s

  abbrev pub origins : Result ResolvedTemplate × Loading → Result (List ResolvedTemplate) × Loading
  origins (ok t, s) = (ok (t ∷ []), s)
  origins (err (template_not_found n), s) = (ok [], s)
  origins (err e, s) = (err e, s)

  -- `ResolverLoader.get_template_sources`: an origin stands for the template that it carries.
  unfoldable pub get_template_sources : ℕ → Text → Exec Loading (List ResolvedTemplate)
  get_template_sources resolver name s = origins (load resolver name s)

  abbrev pub then_forget : {A : Type 0} → ℕ → Result A × Loading → Result A × Loading
  then_forget resolver (r, (snapshots, w)) = (r, (forget resolver snapshots, w))

  abbrev pub enter : {A : Type 0} → ℕ → Exec Loading A → Option Templates → Exec Loading A
  enter resolver body (some templates) s = body s
  enter resolver body none (snapshots, w) =
      then_forget resolver (body (snapshots ++ (resolver, []) ∷ [], w))

  -- `with template_snapshot(resolver)` round a body.
  unfoldable pub template_snapshot : {A : Type 0} → ℕ → Exec Loading A → Exec Loading A
  template_snapshot resolver body s = enter resolver body (snapshot_for resolver s.0) s

  -- Requests to loaders, one after the other: the state that they leave.
  unfoldable pub load_all : List (ℕ × Text) → Loading → Loading
  load_all [] s = s
  load_all ((resolver, name) ∷ requests) s = load_all requests (load resolver name s).1

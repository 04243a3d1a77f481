-- ===== src/Database/Services/Specification.antt =====
-- What a publication, a renaming and a deletion make of a table, seen as a map from identities to rows.
use dj_hyperview.Prelude.{
  ℕ, ◌+◌, ◌≡◌, ◌≢◌, refl, Bool, true, false, Option, none, some, if◌then◌else◌, Text, text_eq,
}
use dj_hyperview.Errors.{Error, Result, ok, err, Exec, lift, ◌>>=◌}
use dj_hyperview.Database.Table.{Row, Database, IsDatabase, Databases, IsDatabases}
use dj_hyperview.Database.Services.{
  Django, PublicationResult, Expected, is_stale, template_name_identity,
}
use dj_hyperview.Database.Services.Operations.{or_else, is_given}

-- The row that an identity shows, if it has the name.
abbrev pub of_name : Text → Option Row → Option Row
of_name name none = none
of_name name (some row) = if text_eq row.name name then some row else none

-- What holds of a method behind the check of its target: on the database of its alias it does as is
-- specified, and no other database is changed. Without an alias it raises and changes nothing.
module _ {A : Type 0} (dbs : Databases) (is : IsDatabases dbs)
    (Specified : Text → Result A × dbs.State → Type 0) (s : dbs.State) where
  abbrev pub OthersKept : Text → dbs.State → Type 0
  OthersKept alias s' =
      (other id : Text) → other ≢ alias → (is.of other).view s' id ≡ (is.of other).view s id

  unfoldable pub OnTarget : Result Text → Result A × dbs.State → Type 0
  OnTarget (ok alias) p = Specified alias p × OthersKept alias p.1
  OnTarget (err x) p = (e : Error) × (p ≡ (err e, s))

  -- What raises in the state `s` is as specified on every target.
  pub OnTarget-raise :
      (target : Result Text) (e : Error)
      → ((alias : Text) → Specified alias (err e, s))
      → OnTarget target (err e, s)
  unfolding OnTarget
  OnTarget-raise (ok alias) e raised = (raised alias, λ other id apart. refl)
  OnTarget-raise (err x) e raised = (e, refl)

  pub OnTarget-lift :
      (target : Result Text) (m : Text → Exec dbs.State A)
      → ((alias : Text) → Specified alias (m alias s))
      → ((alias : Text) → (is.of alias).elsewhere (m alias s).1 ≡ (is.of alias).elsewhere s)
      → OnTarget target ((lift target >>= m) s)
  unfolding OnTarget
  OnTarget-lift (ok alias) m done_ kept =
      (done_ alias, λ other id apart. is.apart alias other id s (m alias s).1 apart (kept alias))
  OnTarget-lift (err x) m done_ kept = (x, refl)

module _ (django : Django) where
  abbrev pub written : Text → Text → Bool → ℕ → Row
  written name content active revision = record {
    name = name;
    name_identity = template_name_identity django name;
    content = content;
    active = active;
    revision = revision;
  }

  abbrev pub outcome : Text → ℕ → Bool → PublicationResult
  outcome name revision created = record { name = name; revision = revision; created = created }

  -- The row and the result of a publication over what its name shows; `none` is a conflict.
  unfoldable pub published :
      Text → Text → Option Bool → Option Expected → Option Row → Option (Row × PublicationResult)
  published name content active expected none =
      if is_given expected
      then none
      else some (written name content (or_else active true) 1, outcome name 1 true)
  published name content active expected (some row) =
      if text_eq row.name name
      then (if is_stale expected row.revision
          then none
          else some (
            written name content (or_else active row.active) (row.revision + 1),
            outcome name (row.revision + 1) false,
          ))
      else none

  unfoldable pub renamed :
      Text
      → Text
      → Option Text
      → Option Bool
      → Option Expected
      → Option Row
      → Option (Row × PublicationResult)
  renamed current target content active expected none = none
  renamed current target content active expected (some row) =
      if text_eq row.name current
      then (if is_stale expected row.revision
          then none
          else some (
            written target (or_else content row.content) (or_else active row.active)
                (row.revision + 1),
            outcome target (row.revision + 1) false,
          ))
      else none

  module _ (db : Database) (is : IsDatabase db) where
    -- A map with one entry more, or another one; all else as before.
    unfoldable pub Sets : Text → Row → db.State → db.State → Type 0
    Sets id row s s' =
        (other : Text) → is.view s' other ≡ (if text_eq other id then some row else is.view s other)

    -- What a publication of a name does: the specified row and result, or nothing and an error.
    unfoldable pub Publishes :
        Text
        → Text
        → Option Bool
        → Option Expected
        → db.State
        → Result PublicationResult × db.State
        → Type 0
    Publishes name content active expected s (ok result, s') =
        (row : Row) × (published name content active expected
            (is.view s (template_name_identity django name))
          ≡ some (row, result))
        × Sets (template_name_identity django name) row s s'
        × (is.elsewhere s' ≡ is.elsewhere s)
    Publishes name content active expected s (err e, s') = s' ≡ s

    -- What a renaming does: the row leaves the identity of its old name, unless that is the new one
    -- too, and overwrites no other row.
    unfoldable pub Renames :
        Text
        → Text
        → Option Text
        → Option Bool
        → Option Expected
        → db.State
        → Result PublicationResult × db.State
        → Type 0
    Renames current target content active expected s (ok result, s') =
        (row : Row) × (renamed current target content active expected
            (is.view s (template_name_identity django current))
          ≡ some (row, result))
        × ((template_name_identity django target ≢ template_name_identity django current)
            → is.view s (template_name_identity django target) ≡ none)
        × ((other : Text)
            → is.view s' other ≡ (
                if text_eq other (template_name_identity django target)
                then some row
                else if text_eq other (template_name_identity django current)
                then none
                else is.view s other))
        × (is.elsewhere s' ≡ is.elsewhere s)
    Renames current target content active expected s (err e, s') = s' ≡ s

    -- What a deletion does: it finds the row, at the expected revision, and removes it; or the name has
    -- no row, no revision was expected, and it returns False; or it raises.
    unfoldable pub Deletes : Text → Option Expected → db.State → Result Bool × db.State → Type 0
    Deletes name expected s (ok true, s') =
        (row : Row) × (is.view s (template_name_identity django name) ≡ some row)
        × (text_eq row.name name ≡ true)
        × (is_stale expected row.revision ≡ false)
        × ((other : Text)
            → is.view s' other ≡ (
                if text_eq other (template_name_identity django name)
                then none
                else is.view s other))
        × (is.elsewhere s' ≡ is.elsewhere s)
    Deletes name expected s (ok false, s') =
        (s' ≡ s)
        × (is_given expected ≡ false)
        × (of_name name (is.view s (template_name_identity django name)) ≡ none)
    Deletes name expected s (err e, s') = s' ≡ s

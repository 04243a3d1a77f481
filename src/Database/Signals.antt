-- ===== src/Database/Signals.antt =====
-- contrib/database/signals.py and _invalidation.py: the names that a save or a deletion of a row
-- invalidates, once its transaction commits.
pub mod Covers
use dj_hyperview.Prelude.{
  ℕ, Bool, true, false, ◌&&◌, ◌||◌, not, Option, none, some, List, [], ◌∷◌, if◌then◌else◌, Text,
  codes, text_eq, map,
}
use dj_hyperview.Errors.{Error, Result, ok, err}
use dj_hyperview.Sources.{canonicalize_template_name, text}
use dj_hyperview.Cache.Json.{member}
use dj_hyperview.Cache.Entries.{canonical_names, distinct}

-- `_OBSERVABLE_FIELDS`
abbrev pub observable_fields : List Text
observable_fields = codes "name" ∷ codes "content" ∷ codes "active" ∷ codes "revision" ∷ []

unfoldable pub meets : List Text → List Text → Bool
unfolding member
meets [] fields = false
meets (f ∷ fs) fields = member f fields || meets fs fields

-- `update_fields is not None and _OBSERVABLE_FIELDS.isdisjoint(update_fields)`
unfoldable pub is_irrelevant : Option (List Text) → Bool
unfolding meets
is_irrelevant none = false
is_irrelevant (some fields) = not (meets observable_fields fields)

-- `update_fields is not None and "name" not in update_fields`
unfoldable pub keeps_name : Option (List Text) → Bool
unfolding member
keeps_name none = false
keeps_name (some fields) = not (member (codes "name") fields)

module _ (unsafe : ℕ → Bool) where
  abbrev pub some_ok : Result Text → Option Text
  some_ok (ok name) = some name
  some_ok (err e) = none

  -- `_canonical_name_or_none`, for which the name of a row that is not there is no name.
  unfoldable pub canonical_name_or_none : Option Text → Option Text
  unfolding canonicalize_template_name
  canonical_name_or_none none = none
  canonical_name_or_none (some name) = some_ok (canonicalize_template_name unsafe (text name))

  -- The names of a mutation, `(new_name,)` or `(old_name, new_name)`.
  abbrev pub names_from : Option Text → Text → List Text
  names_from none new = new ∷ []
  names_from (some old) new = if text_eq old new then new ∷ [] else old ∷ new ∷ []

  abbrev pub captured_names : Option Text → Option Text → Option (List Text)
  captured_names old none = none
  captured_names old (some new) = some (names_from old new)

  abbrev pub captured_result : Option Text → Result Text → Result (Option (List Text))
  captured_result old (ok new) = ok (some (names_from old new))
  captured_result old (err e) = err e

  -- `_capture_save`: the name that the row has before, by its primary key, the name of the instance,
  -- and whether the save is raw.
  unfoldable pub capture_save :
      Option (List Text) → Bool → Option Text → Text → Result (Option (List Text))
  unfolding is_irrelevant keeps_name canonical_name_or_none canonicalize_template_name
  capture_save update_fields raw persisted name =
      let old = canonical_name_or_none persisted in
      if is_irrelevant update_fields
      then ok none
      else if keeps_name update_fields
      then ok (captured_names old old)
      else if raw
      then ok (captured_names old (canonical_name_or_none (some name)))
      else captured_result old (canonicalize_template_name unsafe (text name))

  -- `_capture_delete`; a row of a batch is left to the batch.
  abbrev pub single : Option Text → Option (List Text)
  single none = none
  single (some name) = some (name ∷ [])

  abbrev pub persisted_or : Option Text → Text → Text
  persisted_or none name = name
  persisted_or (some old) name = old

  unfoldable pub capture_delete : Bool → Option Text → Text → Option (List Text)
  unfolding canonical_name_or_none
  capture_delete in_batch persisted name =
      if in_batch
      then none
      else single
          (canonical_name_or_none (some (persisted_or (canonical_name_or_none persisted) name)))

  -- `_schedule_invalidation`, and the names of the callback that it registers for the commit, which
  -- calls `invalidate_templates` on them.
  abbrev pub unless_empty : List Text → Option (List Text)
  unless_empty [] = none
  unless_empty (name ∷ names) = some (name ∷ names)

  abbrev pub scheduled : Result (List Text) → Result (Option (List Text))
  scheduled (err e) = err e
  scheduled (ok canonical) = ok (unless_empty (distinct [] canonical))

  unfoldable pub schedule_invalidation : List Text → Result (Option (List Text))
  unfolding canonical_names distinct
  schedule_invalidation names = scheduled (canonical_names unsafe (map text names))

  -- `_schedule_save` and `_schedule_delete`, on the state that was captured.
  unfoldable pub schedule_save : Option (List Text) → Result (Option (List Text))
  unfolding schedule_invalidation
  schedule_save none = ok none
  schedule_save (some names) = schedule_invalidation names

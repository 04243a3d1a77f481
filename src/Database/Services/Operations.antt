-- ===== src/Database/Services/Operations.antt =====
-- contrib/database/services.py: publish_template, rename_template and delete_template, in one
-- transaction each, and the checks before it.
use dj_hyperview.Prelude.{
  ℕ, ◌+◌, Bool, true, false, Option, none, some, ◌==◌, if◌then◌else◌, Text, text_eq,
}
use dj_hyperview.Errors.{
  Error, publication_conflict, validation_error, integrity_error, database_error, Result, ok, err,
  Exec, pure, raise, lift, ◌>>=◌, ◌>>◌,
}
use dj_hyperview.Sources.{canonicalize_template_name, text}
use dj_hyperview.Database.Table.{Row, Stored, Database, Databases, at}
use dj_hyperview.Database.Services.{
  Django, PublicationResult, Expected, validate_expected_revision, is_stale, template_name_identity,
  mutation_target,
}

-- `template is not None and template.name != name`: the row of another name does not count.
abbrev pub same_name : Text → Option Stored → Option Stored
same_name name none = none
same_name name (some st) = if text_eq st.row.name name then some st else none

abbrev pub or_else {ℓ} : {A : Type ℓ} → Option A → A → A
or_else none d = d
or_else (some a) d = a

abbrev pub is_given {ℓ} : {A : Type ℓ} → Option A → Bool
is_given none = false
is_given (some a) = true

abbrev pub is_integrity : Error → Bool
is_integrity integrity_error = true
is_integrity _ = false

-- An IntegrityError is a DatabaseError too.
abbrev pub is_database : Error → Bool
is_database integrity_error = true
is_database database_error = true
is_database _ = false

-- `conflict`, after the block: `none` is a conflict that was proved.
abbrev pub unless_conflict {ℓ} : {S A : Type ℓ} → Result (Option A) × S → Result A × S
unless_conflict (ok (some result), s) = (ok result, s)
unless_conflict (ok none, s) = (err publication_conflict, s)
unless_conflict (err e, s) = (err e, s)

-- A competing row, whose existence may not be known: `_proof_exists`.
abbrev pub if_proved : Error → Bool → Result Bool → Result (Option PublicationResult)
if_proved e wanted (err x) = if is_database x then err e else err x
if_proved e wanted (ok true) = if wanted then ok none else err e
if_proved e wanted (ok false) = if wanted then err e else ok none

module _ (django : Django) (db : Database) where
  -- `HyperviewTemplate.save`, before the statement.
  abbrev pub with_identity : Row → Row
  with_identity row = record {
    name = row.name;
    name_identity = template_name_identity django row.name;
    content = row.content;
    active = row.active;
    revision = row.revision;
  }

  unfoldable pub insert : Row → Exec db.State (Unit {0})
  unfolding canonicalize_template_name template_name_identity
  insert row =
      lift (canonicalize_template_name django.unsafe (text row.name))
      >> db.insert (with_identity row)

  unfoldable pub update : Stored → Row → Exec db.State (Unit {0})
  unfolding canonicalize_template_name template_name_identity
  update old row =
      lift (canonicalize_template_name django.unsafe (text row.name))
      >> db.update old (with_identity row)

  abbrev pub full_clean : Row → Result (Unit {0})
  full_clean row = if django.full_clean row then ok tt else err validation_error

  -- The save of a new row, and what an IntegrityError means.
  abbrev pub competing : Result Bool → Result (Option PublicationResult)
  competing (err e) = err e
  competing (ok true) = ok none
  competing (ok false) = err integrity_error

  abbrev pub after_insert :
      Row → Text → Result (Unit {0}) × db.State → Result (Option PublicationResult) × db.State
  after_insert row id (ok u, s) =
      (ok (some (record { name = row.name; revision = row.revision; created = true })), s)
  after_insert row id (err e, s) = elim (is_integrity e) [
    | true ↦ (competing (db.exists_identity id s), s)
    | false ↦ (err e, s)
  ]

  unfoldable pub save_new : Row → Text → Exec db.State (Option PublicationResult)
  unfolding insert
  save_new row id s = after_insert row id (db.atomic (insert row) s)

  abbrev pub new_row : Text → Text → Option Bool → Row
  new_row name content active = record {
    name = name;
    name_identity = template_name_identity django name;
    content = content;
    active = or_else active true;
    revision = 1;
  }

  abbrev pub next_row : Row → Text → Text → Option Bool → Row
  next_row row name content active = record {
    name = name;
    name_identity = row.name_identity;
    content = content;
    active = or_else active row.active;
    revision = row.revision + 1;
  }

  -- The block of `publish_template`, where `template` is found.
  unfoldable pub publish_found :
      Text
      → Text
      → Option Bool
      → Option Expected
      → Option Stored
      → Exec db.State (Option PublicationResult)
  unfolding save_new update
  publish_found name content active expected none =
      if is_given expected
      then raise publication_conflict
      else (lift (full_clean (new_row name content active))
          >> save_new (new_row name content active) (template_name_identity django name))
  publish_found name content active expected (some st) =
      let row = next_row st.row st.row.name content active in
      if is_stale expected st.row.revision
      then raise publication_conflict
      else (lift (full_clean row)
          >> (update st row
              >> pure (some (record { name = name; revision = row.revision; created = false }))))

  abbrev pub found_at : Text → Text → Exec db.State (Option Stored)
  found_at name id s = (named (db.get id s), s)
    where
      named : Result (Option Stored) → Result (Option Stored)
      named (ok o) = ok (same_name name o)
      named (err e) = err e

  unfoldable pub publish_block :
      Text → Text → Option Bool → Option Expected → Exec db.State (Option PublicationResult)
  unfolding publish_found template_name_identity
  publish_block name content active expected =
      found_at name (template_name_identity django name)
      >>= publish_found name content active expected

  -- The save of a renamed row, and what an error of the database means.
  abbrev pub after_rename :
      Stored
      → Text
      → Text
      → PublicationResult
      → Result (Unit {0}) × db.State
      → Result (Option PublicationResult) × db.State
  after_rename old current_id target_id result (ok u, s) = (ok (some result), s)
  after_rename old current_id target_id result (err e, s) = elim (is_integrity e) [
    | true ↦ (if_proved e true (db.exists_other target_id old.pk s), s)
    | false ↦ elim (is_database e) [
      | true ↦ (if_proved e false (db.exists_source old.pk current_id s), s)
      | false ↦ (err e, s)
    ]
  ]

  unfoldable pub save_renamed :
      Stored → Row → Text → Text → PublicationResult → Exec db.State (Option PublicationResult)
  unfolding update
  save_renamed old row current_id target_id result s =
      after_rename old current_id target_id result (db.atomic (update old row) s)

  unfoldable pub rename_found :
      Text
      → Text
      → Option Text
      → Option Bool
      → Option Expected
      → Option Stored
      → Exec db.State (Option PublicationResult)
  unfolding save_renamed template_name_identity
  rename_found current target content active expected none = raise publication_conflict
  rename_found current target content active expected (some st) =
      let row = next_row st.row target (or_else content st.row.content) active in
      if is_stale expected st.row.revision
      then raise publication_conflict
      else (lift (full_clean row)
          >> save_renamed st row (template_name_identity django current)
              (template_name_identity django target)
              (record { name = target; revision = row.revision; created = false }))

  unfoldable pub rename_block :
      Text
      → Text
      → Option Text
      → Option Bool
      → Option Expected
      → Exec db.State (Option PublicationResult)
  unfolding rename_found template_name_identity
  rename_block current target content active expected =
      found_at current (template_name_identity django current)
      >>= rename_found current target content active expected

  -- `if deleted == 0: raise PublicationConflict`
  abbrev pub after_delete : Result ℕ × db.State → Result Bool × db.State
  after_delete (ok n, s) = (if n == 0 then err publication_conflict else ok true, s)
  after_delete (err e, s) = (err e, s)

  unfoldable pub delete_row : Stored → Exec db.State Bool
  delete_row st s = after_delete (db.delete st s)

  unfoldable pub delete_found : Option Expected → Option Stored → Exec db.State Bool
  unfolding delete_row
  delete_found expected none = if is_given expected then raise publication_conflict else pure false
  delete_found expected (some st) =
      if is_stale expected st.row.revision then raise publication_conflict else delete_row st

  unfoldable pub delete_block : Text → Option Expected → Exec db.State Bool
  unfolding delete_found template_name_identity
  delete_block name expected =
      found_at name (template_name_identity django name) >>= delete_found expected

  -- The transactions, on the database of one alias.
  abbrev pub publish_in :
      Text → Text → Option Bool → Option Expected → Exec db.State PublicationResult
  publish_in name content active expected s =
      unless_conflict (db.atomic (publish_block name content active expected) s)

  abbrev pub rename_in :
      Text → Text → Option Text → Option Bool → Option Expected → Exec db.State PublicationResult
  rename_in current target content active expected s =
      unless_conflict (db.atomic (rename_block current target content active expected) s)

  abbrev pub delete_in : Text → Option Expected → Exec db.State Bool
  delete_in name expected = db.atomic (delete_block name expected)

-- The services, on the databases of all aliases.
module _ (django : Django) (dbs : Databases) where
  unfoldable pub publish_template :
      Text → Text → Option Bool → Option Expected → Option Text → Exec dbs.State PublicationResult
  unfolding publish_block canonicalize_template_name validate_expected_revision mutation_target
  publish_template name content active expected using =
      lift (canonicalize_template_name django.unsafe (text name)) >>= λ canonical.
      lift (validate_expected_revision expected)
      >> (lift (mutation_target django using) >>= λ alias.
          publish_in django (at dbs alias) canonical content active expected)

  unfoldable pub rename_template :
      Text
      → Text
      → Option Text
      → Option Bool
      → Option Expected
      → Option Text
      → Exec dbs.State PublicationResult
  unfolding rename_block canonicalize_template_name validate_expected_revision mutation_target
  rename_template current new_name content active expected using =
      lift (canonicalize_template_name django.unsafe (text new_name)) >>= λ target.
      lift (validate_expected_revision expected)
      >> (lift (mutation_target django using) >>= λ alias.
          rename_in django (at dbs alias) current target content active expected)

  unfoldable pub delete_template : Text → Option Expected → Option Text → Exec dbs.State Bool
  unfolding delete_block canonicalize_template_name validate_expected_revision mutation_target
  delete_template name expected using =
      lift (canonicalize_template_name django.unsafe (text name)) >>= λ canonical.
      lift (validate_expected_revision expected)
      >> (lift (mutation_target django using) >>= λ alias.
          delete_in django (at dbs alias) canonical expected)

-- ===== src/Database/Source.antt =====
-- contrib/database/sources.py: DatabaseSource, which resolves the active row of a name.
pub mod Published
use Prim.Native.Nat.{◌/◌, ◌%◌}
use dj_hyperview.Prelude.{
  ℕ, zero, suc, ◌+◌, Bool, true, false, ◌&&◌, not, Option, none, some, List, [], ◌∷◌, ◌++◌, ltb,
  if◌then◌else◌, Text, codes, text_eq,
}
use dj_hyperview.Errors.{
  Error, source_unavailable, alias_unavailable, app_unavailable, query_failed, database_error,
  Result, ok, err,
}
use dj_hyperview.Sources.{ResolvedTemplate, canonicalize_template_name, text}
use dj_hyperview.Database.Table.{Row, Database, Databases, at}
use dj_hyperview.Database.Services.{Django, unavailable, is_configured, template_name_identity}

-- `str` of a number, on fuel.
unfoldable pub digits : ℕ → ℕ → Text
digits zero n = []
digits (suc fuel) n =
    let front = digits fuel (n / 10) in
    if ltb n 10 then (b'0' + n) ∷ [] else front ++ (b'0' + n % 10) ∷ []

abbrev pub str : ℕ → Text
str n = digits (n + 1) n

-- `self.using`, checked by `_database_alias_is_configured`, for which `None` is configured.
abbrev pub alias_allowed : Django → Option Text → Bool
alias_allowed django none = true
alias_allowed django (some using) = is_configured django using

-- `cacheable`, and `_dj_hyperview_cache_safe` with the two properties of the connection.
abbrev pub cacheable : Option Text → Bool
cacheable none = false
cacheable (some using) = true

abbrev pub cache_safe : Option Text → Bool → Bool → Bool
cache_safe none autocommit in_atomic_block = false
cache_safe (some using) autocommit in_atomic_block = autocommit && not in_atomic_block

module _ (django : Django) (db : Database) where
  abbrev pub resolved : Text → Row → ResolvedTemplate
  resolved canonical row = record {
    name = canonical;
    content = row.content;
    origin = codes "database:" ++ canonical;
    source = codes "database";
    revision = str row.revision;
  }

  -- `_get_active`, and what `resolve` makes of it. A failed query has no other reason.
  unfoldable pub answer : Text → Result (Option Row) → Result (Option ResolvedTemplate)
  answer canonical (err e) = err (unavailable query_failed)
  answer canonical (ok none) = ok none
  answer canonical (ok (some row)) =
      ok (if text_eq row.name canonical then some (resolved canonical row) else none)

-- The alias of the query: `using`, or the one that `router.db_for_read` chooses.
abbrev pub read_alias : Django → Option Text → Text
read_alias django none = django.db_for_read
read_alias django (some using) = using

module _ (django : Django) (dbs : Databases) where
  unfoldable pub resolve_canonical :
      Option Text → Result Text → dbs.State → Result (Option ResolvedTemplate)
  unfolding answer is_configured template_name_identity
  resolve_canonical using (err e) s = err e
  resolve_canonical using (ok canonical) s =
      let alias = read_alias django using in
      if alias_allowed django using
      then (if django.installed
          then answer django (at dbs alias) canonical
              (dbs.get_active alias (template_name_identity django canonical) s)
          else err (unavailable app_unavailable))
      else err (unavailable alias_unavailable)

  unfoldable pub resolve : Option Text → Text → dbs.State → Result (Option ResolvedTemplate)
  unfolding resolve_canonical canonicalize_template_name
  resolve using name =
      resolve_canonical using (canonicalize_template_name django.unsafe (text name))

-- ===== src/Database/Services.antt =====
-- contrib/database/services.py, and what it uses of _identity.py, _config.py and models.py. The
-- settings of Django, the routing and the validators of the model's fields are parameters.
pub mod Operations
pub mod Writes
pub mod Specification
pub mod Publish
pub mod Delete
pub mod Rename
use Prim.Native.Nat.{◌/◌}
use dj_hyperview.Prelude.{
  ℕ, ◌+◌, Bool, true, false, ◌&&◌, ◌||◌, not, Option, none, some, [], ◌∷◌, ◌++◌, leb, ◌==◌,
  if◌then◌else◌, Text, text_eq, codes,
}
use dj_hyperview.Errors.{
  Error, source_unavailable, value_error, publication_conflict, validation_error, integrity_error,
  database_error, alias_unavailable, app_unavailable, Result, ok, err, Exec, pure, raise, lift,
  ◌>>=◌, ◌>>◌,
}
use dj_hyperview.Sources.{canonicalize_template_name, text}
use dj_hyperview.Validation.Encoding.{encode_char, continuation}
use dj_hyperview.Database.Table.{Row, Stored, Database}

-- `str(name).encode("utf-8", errors="surrogatepass")`
abbrev pub or_surrogate : ℕ → Option Text → Text
or_surrogate c (some bytes) = bytes
or_surrogate c none = (0xe0 + 0x0d) ∷ continuation (c / 0x40) ∷ continuation c ∷ []

unfoldable pub encode_pass : Text → Text
unfolding encode_char
encode_pass [] = []
encode_pass (c ∷ t) = or_surrogate c (encode_char c) ++ encode_pass t

-- What the services call of Django, and the digest.
pub record Django : Type 0 where
  pub unsafe : ℕ → Bool
  pub sha256 : Text → Text
  pub databases : Text → Bool
  pub db_for_write : Option Text
  pub db_for_read : Text
  pub installed : Bool
  pub full_clean : Row → Bool

pub record PublicationResult : Type 0 where
  pub name : Text
  pub revision : ℕ
  pub created : Bool

-- `expected_revision`, which may be an object that is no positive integer.
pub data Expected : Type 0 where
  whole : ℕ → Expected
  no_int : Expected

unfoldable pub validate_expected_revision : Option Expected → Result (Unit {0})
validate_expected_revision none = ok tt
validate_expected_revision (some (whole n)) = if leb 1 n then ok tt else err value_error
validate_expected_revision (some no_int) = err value_error

abbrev pub is_stale : Option Expected → ℕ → Bool
is_stale none revision = false
is_stale (some (whole n)) revision = not (revision == n)
is_stale (some no_int) revision = true

abbrev pub unavailable : dj_hyperview.Errors.Reason → Error
unavailable reason = source_unavailable (codes "database") reason

module _ (django : Django) where
  unfoldable pub template_name_identity : Text → Text
  unfolding encode_pass
  template_name_identity name = django.sha256 (encode_pass name)

  -- `_database_alias_is_configured` of a name; the empty one is none.
  unfoldable pub is_configured : Text → Bool
  is_configured [] = false
  is_configured (c ∷ alias) = django.databases (c ∷ alias)

  -- `_database_alias`, where `None` is configured but no alias.
  unfoldable pub database_alias : Option Text → Result Text
  unfolding is_configured
  database_alias none = err (unavailable alias_unavailable)
  database_alias (some alias) =
      if is_configured alias then ok alias else err (unavailable alias_unavailable)

  abbrev pub first_given : Option Text → Option Text → Option Text
  first_given (some using) routed = some using
  first_given none routed = routed

  abbrev pub given_and_unknown : Option Text → Bool
  given_and_unknown none = false
  given_and_unknown (some using) = not (is_configured using)

  unfoldable pub mutation_target : Option Text → Result Text
  unfolding is_configured database_alias
  mutation_target using =
      if given_and_unknown using
      then err (unavailable alias_unavailable)
      else if django.installed
      then database_alias (first_given using django.db_for_write)
      else err (unavailable app_unavailable)

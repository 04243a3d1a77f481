-- ===== src/Resolver/Configuration.antt =====
-- resolver.py: the sources, as the resolver reads them, and `TemplateResolver.__init__`.
use dj_hyperview.Prelude.{
  ℕ, ◌+◌, Bool, true, false, Option, none, some, List, [], ◌∷◌, ◌==◌, length, if◌then◌else◌, Text,
  text_eq,
}
use dj_hyperview.Errors.{
  Error, Result, ok, err, value_error, source_unavailable, invalid_resolved_template,
}
use dj_hyperview.Sources.{ResolvedTemplate}
use dj_hyperview.Cache.Backend.{TemplateCache}

-- An attribute of a source, as it is read: absent, raising, a `bool`, or anything else.
pub data Attribute : Type 0 where
  absent unreadable : Attribute
  boolean : Bool → Attribute
  other_value : Attribute

-- What `resolve` of a source does: `malformed` is a result that is no `ResolvedTemplate`, or has a
-- field that is no `str`.
pub data Answer : Type 0 where
  nothing : Answer
  template : ResolvedTemplate → Answer
  malformed : Answer
  raises : Error → Answer

-- A source during one call of the resolver: the qualified name of its class, its answers, and its
-- `cacheable` and `_dj_hyperview_cache_safe`, the latter called if it is callable.
pub record Source : Type 0 where
  pub kind : Text
  pub answer : Text → Answer
  pub cacheable : Attribute
  pub cache_safe : Attribute

-- `_resolve_checked`
unfoldable pub checked : Text → Text → Answer → Result (Option ResolvedTemplate)
checked kind name nothing = ok none
checked kind name (template t) =
    if text_eq t.name name
    then ok (some t)
    else err (source_unavailable kind invalid_resolved_template)
checked kind name malformed = err (source_unavailable kind invalid_resolved_template)
checked kind name (raises e) = err e

unfoldable pub resolve_checked : Source → Text → Result (Option ResolvedTemplate)
unfolding checked
resolve_checked source name = checked source.kind name (source.answer name)

-- `_source_cacheable`
unfoldable pub source_cacheable : Source → Bool
source_cacheable source = elim source.cacheable [ boolean b ↦ b | _ ↦ false ]

-- `_source_cache_safe`
unfoldable pub source_cache_safe : Source → Bool
source_cache_safe source = elim source.cache_safe [ absent ↦ true | boolean b ↦ b | _ ↦ false ]

pub data FailureMode : Type 0 where
  bypass raise_mode : FailureMode

-- `sources` with the cache identity of each, which `zip(..., strict=True)` pairs.
pub record TemplateResolver : Type 0 where
  pub sources : List (Source × Option Text)
  pub cache : Option TemplateCache
  pub failure_mode : FailureMode

-- The identity of the source at an index: `fingerprint` is `_source_fingerprint` of its configuration.
unfoldable pub default_source_id : (ℕ → Source → Option Text) → ℕ → Source → Option Text
unfolding source_cacheable
default_source_id fingerprint index source =
    if source_cacheable source then fingerprint index source else none

-- `_default_source_ids`
unfoldable pub default_source_ids :
    (ℕ → Source → Option Text) → ℕ → List Source → List (Option Text)
unfolding default_source_id
default_source_ids fingerprint index [] = []
default_source_ids fingerprint index (source ∷ sources) =
    default_source_id fingerprint index source ∷ default_source_ids fingerprint (index + 1) sources

unfoldable pub zip_ids : List Source → List (Option Text) → List (Source × Option Text)
zip_ids [] ids = []
zip_ids (s ∷ sources) [] = []
zip_ids (s ∷ sources) (i ∷ ids) = (s, i) ∷ zip_ids sources ids

-- `TemplateResolver.__init__`: a mode that is neither of the two is `none`.
unfoldable pub init :
    (ℕ → Source → Option Text)
    → List Source
    → Option TemplateCache
    → Option FailureMode
    → Option (List (Option Text))
    → Result TemplateResolver
unfolding default_source_ids zip_ids
init fingerprint sources cache none ids = err value_error
init fingerprint sources cache (some mode) ids =
    let identities : List (Option Text) = elim ids [
      | none ↦ default_source_ids fingerprint 0 sources
      | some given ↦ given
    ] in
    if length identities == length sources
    then ok (record { sources = zip_ids sources identities; cache = cache; failure_mode = mode })
    else err value_error

unfoldable pub any_identity : List (Source × Option Text) → Bool
any_identity [] = false
any_identity ((s, none) ∷ rest) = any_identity rest
any_identity ((s, some i) ∷ rest) = true

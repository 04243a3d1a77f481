-- ===== src/Cache/Backend.antt =====
-- Django's cache framework and the source of randomness as an interface, what the code relies on,
-- and the constructor of `TemplateCache`.
use dj_hyperview.Prelude.{
  ℕ, Bool, [], ◌≡◌, ◌⊎◌, Option, none, some, if◌then◌else◌, ltb, Text, codes, ◌++◌, text_eq,
}
use dj_hyperview.Errors.{
  Reason, Result, ok, err, value_error, source_unavailable, backend_failure, invalid_alias,
  unsupported_backend,
}
use dj_hyperview.Sources.{Object, text, other}
use dj_hyperview.Cache.Json.{Value}

-- A call behind `_without_untrusted_exception`: its value, or `_FAILURE`.
pub data Reply {ℓ} (A : Type ℓ) : Type ℓ where
  replied : A → Reply A
  failed : Reply A

-- A result of which the code asks whether it is `True` or `False`.
pub data Answer : Type 0 where
  is_true is_false neither : Answer

-- `self.backend` with its methods, and `secrets.token_hex`, on the state of the world. `get` gives
-- `none` where the backend returns the default.
pub record Backend : Type 1 where
  pub State : Type 0
  pub get : Text → State → Reply (Option Value) × State
  pub set : Text → Value → Option ℕ → State → Reply Answer × State
  pub add : Text → Value → State → Reply Answer × State
  pub delete : Text → State → Reply Answer × State
  pub token_hex : State → Reply Object × State

-- A backend that answers with what was written under the key, and may lose it at any time.
-- `Holds s k v`: in state `s` it may answer `v` for the key `k`.
pub record IsStore (b : Backend) : Type 1 where
  pub Holds : b.State → Text → Value → Type 0
  pub get_held :
      (k : Text) (s : b.State) (v : Value) → (b.get k s).0 ≡ replied (some v) → Holds s k v
  pub get_keeps : (k j : Text) (s : b.State) (v : Value) → Holds (b.get k s).1 j v → Holds s j v
  pub set_keeps :
      (k j : Text) (w v : Value) (t : Option ℕ) (s : b.State)
      → Holds (b.set k w t s).1 j v
      → Holds s j v ⊎ ((j ≡ k) × (v ≡ w))
  pub add_keeps :
      (k j : Text) (w v : Value) (s : b.State)
      → Holds (b.add k w s).1 j v
      → Holds s j v ⊎ ((j ≡ k) × (v ≡ w))
  pub delete_keeps :
      (k j : Text) (s : b.State) (v : Value) → Holds (b.delete k s).1 j v → Holds s j v
  pub token_keeps : (j : Text) (s : b.State) (v : Value) → Holds (b.token_hex s).1 j v → Holds s j v

pub record TemplateCache : Type 0 where
  pub namespace : Text
  pub alias : Text
  pub ttl : ℕ
  pub negative_ttl : ℕ

-- A number of seconds as it is configured.
pub data Timeout : Type 0 where
  seconds : ℕ → Timeout
  negative : Timeout
  boolean : Timeout
  not_int : Timeout

-- `_validate_timeout`
unfoldable pub validate_timeout : Timeout → ℕ → Result ℕ
validate_timeout (seconds n) minimum = if ltb n minimum then err value_error else ok n
validate_timeout _ minimum = err value_error

-- What `caches[alias]` is.
pub data Opened : Type 0 where
  base_cache file_based_cache no_cache : Opened

-- `_resolve_cache_alias`: what is wrong with the alias, if anything. `configured` is membership in
-- `settings.CACHES`, and `open_alias` the lookup in `caches`.
unfoldable pub resolve_cache_alias : (Text → Bool) → (Text → Reply Opened) → Object → Option Reason
resolve_cache_alias configured open_alias other = some invalid_alias
resolve_cache_alias configured open_alias (text alias) =
    if text_eq alias []
    then some invalid_alias
    else if configured alias
    then elim (open_alias alias) [
      | failed ↦ some backend_failure
      | replied no_cache ↦ some invalid_alias
      | replied file_based_cache ↦ some unsupported_backend
      | replied base_cache ↦ none
    ]
    else some invalid_alias

-- `TemplateCache.backend`: the error it raises, if any.
unfoldable pub backend_error : (Text → Bool) → (Text → Reply Opened) → Text → Result (Unit {0})
unfolding resolve_cache_alias
backend_error configured open_alias alias =
    elim (resolve_cache_alias configured open_alias (text alias)) [
      | none ↦ ok tt
      | some backend_failure ↦ err (source_unavailable (codes "cache:" ++ alias) backend_failure)
      | some reason ↦ err (source_unavailable (codes "cache") reason)
    ]

-- `TemplateCache.__init__`
unfoldable pub init :
    (Text → Bool) → (Text → Reply Opened) → Object → Text → Timeout → Timeout → Result TemplateCache
unfolding validate_timeout backend_error
init configured open_alias other alias ttl negative_ttl = err value_error
init configured open_alias (text namespace) alias ttl negative_ttl =
    if text_eq namespace [] then err value_error else elim (validate_timeout ttl 1) [
      | err e ↦ err e
      | ok ttl' ↦ elim (validate_timeout negative_ttl 0) [
        | err e ↦ err e
        | ok negative_ttl' ↦ elim (backend_error configured open_alias alias) [
          | err e ↦ err e
          | ok done ↦ ok (record {
            namespace = namespace;
            alias = alias;
            ttl = ttl';
            negative_ttl = negative_ttl';
          })
        ]
      ]
    ]

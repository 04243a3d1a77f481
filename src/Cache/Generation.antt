-- ===== src/Cache/Generation.antt =====
-- The generation token of a template name in `TemplateCache`: reading, creating and rotating it.
pub mod Rotation
use dj_hyperview.Prelude.{
  ℕ, Bool, true, false, ◌&&◌, ◌||◌, Option, none, some, List, [], ◌∷◌, ◌++◌, ◌==◌, ltb, leb,
  if◌then◌else◌, Text, codes, length, take, text_eq,
}
use dj_hyperview.Errors.{
  Error, Reason, Result, ok, err, Exec, pure, raise, lift, continue, ◌>>=◌, ◌>>◌,
  source_unavailable, backend_failure, invalid_payload,
}
use dj_hyperview.Sources.{Object, text, other, any_in}
use dj_hyperview.Cache.Json.{Value, plain}
use dj_hyperview.Cache.Key.{template_cache_key, dumps_components}
use dj_hyperview.Cache.Backend.{
  Reply, replied, failed, Answer, is_true, is_false, neither, Backend, TemplateCache,
}

-- `character in "0123456789abcdef"`
unfoldable pub is_hex : ℕ → Bool
is_hex c = leb b'0' c && leb c b'9' || leb b'a' c && leb c b'f'

unfoldable pub all_hex : Text → Bool
unfolding is_hex
all_hex [] = true
all_hex (c ∷ t) = is_hex c && all_hex t

-- `_valid_generation`: 33 characters, of which the first is `r` or `s`.
unfoldable pub valid_text : Text → Bool
unfolding all_hex
valid_text [] = false
valid_text (p ∷ t) = length t == 32 && ((p == b'r' || p == b's') && all_hex t)

-- A text that is JSON begins with neither of the two letters.
unfoldable pub valid_generation : Value → Option Text
unfolding valid_text
valid_generation (plain t) = if valid_text t then some t else none
valid_generation _ = none

abbrev pub is_none {ℓ} : {A : Type ℓ} → Option A → Bool
is_none none = true
is_none (some a) = false

abbrev pub generation_domain : Text
generation_domain = codes "dj-hyperview:generation:v2"

module _ (b : Backend) (sha256 : Text → Text) (c : TemplateCache) where
  abbrev pub unavailable : Reason → Error
  unavailable reason = source_unavailable (codes "cache:" ++ c.alias) reason

  -- `_store`
  abbrev pub store_result : Reply Answer → Result (Unit {0})
  store_result failed = err (unavailable backend_failure)
  store_result (replied is_false) = err (unavailable backend_failure)
  store_result (replied _) = ok tt

  unfoldable pub store : Text → Value → Option ℕ → Exec b.State (Unit {0})
  store key value timeout s = let (r, s') = b.set key value timeout s in (store_result r, s')

  -- `_delete`
  abbrev pub delete_result : Reply Answer → Result (Unit {0})
  delete_result (replied is_true) = ok tt
  delete_result (replied is_false) = ok tt
  delete_result _ = err (unavailable backend_failure)

  unfoldable pub delete : Text → Exec b.State (Unit {0})
  delete key s = let (r, s') = b.delete key s in (delete_result r, s')

  unfoldable pub generation_key : Text → Text
  generation_key name =
      template_cache_key sha256 c.namespace (codes "@generation") name (codes "@token")

  -- `_candidate`: the token that the entropy gives.
  unfoldable pub candidate_token : Text → Option Text → Text → Text
  candidate_token name current entropy =
      (if is_none current then b'r' else b's')
      ∷ take 32 (
          sha256 (
            dumps_components (
              some generation_domain ∷ some c.namespace ∷ some name ∷ current ∷ some entropy ∷ [])))

  unfoldable pub candidate : Text → Option Text → Exec b.State Text
  candidate name current s =
      let (r, s') = b.token_hex s in
      (
        elim r [
          | replied (text entropy) ↦ ok (candidate_token name current entropy)
          | _ ↦ err (unavailable backend_failure)
        ],
        s',
      )

  -- `_peek_generation`
  unfoldable pub peeked : Reply (Option Value) → Result (Option Text)
  peeked failed = err (unavailable backend_failure)
  peeked (replied none) = ok none
  peeked (replied (some v)) = elim (valid_generation v) [
    | some token ↦ ok (some token)
    | none ↦ err (unavailable invalid_payload)
  ]

  unfoldable pub peek_generation : Text → Exec b.State (Option Text)
  peek_generation name s = let (r, s') = b.get (generation_key name) s in (peeked r, s')

  -- `_read_generation`
  unfoldable pub present : Option Text → Result Text
  present none = err (unavailable backend_failure)
  present (some token) = ok token

  unfoldable pub read_generation : Text → Exec b.State Text
  read_generation name = do token ← peek_generation name; lift (present token)

  -- `_initialize_generation`: the token, and whether this call created it.
  unfoldable pub added : Text → Text → Reply Answer → Exec b.State (Text × Bool)
  added name token (replied is_true) = pure (token, true)
  added name token (replied is_false) = do current ← read_generation name; pure (current, false)
  added name token _ = raise (unavailable backend_failure)

  unfoldable pub add_generation : Text → Text → Exec b.State (Text × Bool)
  add_generation name token s =
      let (r, s') = b.add (generation_key name) (plain token) s in added name token r s'

  unfoldable pub initialize_generation : Text → Exec b.State (Text × Bool)
  initialize_generation name = do token ← candidate name none; add_generation name token

  unfoldable pub or_initialize : Text → Option Text → Exec b.State Text
  or_initialize name none = initialize_generation name >>= λ created. pure created.0
  or_initialize name (some token) = pure token

  unfoldable pub generation : Text → Exec b.State Text
  generation name = do token ← peek_generation name; or_initialize name token

  -- The last test of `invalidate`.
  unfoldable pub confirm_rotation : Text → Text → Result (Unit {0})
  confirm_rotation current confirmed =
      if text_eq confirmed current then err (unavailable backend_failure) else ok tt

  unfoldable pub invalidate : Text → Exec b.State (Unit {0})
  invalidate name = do
    current ← generation name
    token ← candidate name (some current)
    store (generation_key name) (plain token) none
    confirmed ← read_generation name
    lift (confirm_rotation current confirmed)

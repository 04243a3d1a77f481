-- ===== src/Cache/Entries.antt =====
-- The entries of `TemplateCache`: reading, writing, and the confirmation of a publication.
pub mod Isolation
use dj_hyperview.Prelude.{
  ℕ, Bool, true, false, Option, none, some, List, [], ◌∷◌, ◌++◌, if◌then◌else◌, Text, codes,
  text_eq,
}
use dj_hyperview.Errors.{
  Error, Result, ok, err, Exec, pure, raise, lift, continue, ◌>>=◌, ◌>>◌, backend_failure,
  invalid_payload,
}
use dj_hyperview.Sources.{ResolvedTemplate, Object, text, canonicalize_template_name}
use dj_hyperview.Cache.Json.{Value, member}
use dj_hyperview.Cache.Key.{template_cache_key}
use dj_hyperview.Cache.Backend.{Reply, replied, failed, Backend, TemplateCache}
use dj_hyperview.Cache.Payload.{
  CacheEntry, template_payload, miss_payload, resolved_payload, resolved_miss_payload,
  decode_resolved, decode,
}
use dj_hyperview.Cache.Generation.{unavailable, store, delete, read_generation, invalidate}

-- `_resolved_revision`
unfoldable pub resolved_revision : Option Text → Text
resolved_revision none = codes "@resolved"
resolved_revision (some g) = codes "@resolved:" ++ g

-- `dict.fromkeys`: the first of equal names stays.
unfoldable pub distinct : List Text → List Text → List Text
distinct seen [] = []
distinct seen (n ∷ names) =
    if member n seen then distinct seen names else n ∷ distinct (n ∷ seen) names

module _ (b : Backend) (sha256 : Text → Text) (c : TemplateCache) where
  -- `TemplateCache.key`
  abbrev pub key : Text → Text → Text → Text
  key source name revision = template_cache_key sha256 c.namespace source name revision

  -- What `get` and `get_resolved` make of the backend's reply, with the reader of the payload.
  unfoldable pub entry_of :
      (Value → Option CacheEntry) → Reply (Option Value) → Result (Option CacheEntry)
  entry_of read failed = err (unavailable b sha256 c backend_failure)
  entry_of read (replied none) = ok none
  entry_of read (replied (some v)) = elim (read v) [
    | some e ↦ ok (some e)
    | none ↦ err (unavailable b sha256 c invalid_payload)
  ]

  unfoldable pub get : Text → Text → Text → Exec b.State (Option CacheEntry)
  unfolding entry_of
  get source name revision s =
      let (r, s') = b.get (key source name revision) s in
      (entry_of (decode source name revision) r, s')

  unfoldable pub set : ResolvedTemplate → Exec b.State (Unit {0})
  set t = store b sha256 c (key t.source t.name t.revision) (template_payload t) (some c.ttl)

  unfoldable pub set_miss : Text → Text → Text → Exec b.State (Unit {0})
  set_miss source name revision =
      store b sha256 c (key source name revision) (miss_payload source name revision)
        (some c.negative_ttl)

  unfoldable pub get_resolved : Text → Text → Option Text → Exec b.State (Option CacheEntry)
  get_resolved source name generation s =
      let (r, s') = b.get (key source name (resolved_revision generation)) s in
      (entry_of (decode_resolved source name) r, s')

  -- `_discard_replaced_publication`: whether the entry could be deleted.
  unfoldable pub discard : Text → Exec b.State Bool
  discard k s =
      let (r, s') = delete b sha256 c k s in (elim r [ ok done ↦ ok true | err e ↦ ok false ], s')

  -- The two branches of `_confirm_publication` that do not publish.
  unfoldable pub after_failed_read : Text → Exec b.State Bool
  after_failed_read k = do clean ← discard k; raise (unavailable b sha256 c backend_failure)

  unfoldable pub after_rotation : Text → Exec b.State Bool
  after_rotation k = do
    clean ← discard k
    if clean then pure false else raise (unavailable b sha256 c backend_failure)

  -- `_confirm_publication`
  unfoldable pub confirmed : Text → Text → Result Text → Exec b.State Bool
  confirmed generation k (err e) = after_failed_read k
  confirmed generation k (ok current) =
      if text_eq current generation then pure true else after_rotation k

  unfoldable pub confirm_publication : Text → Text → Text → Exec b.State Bool
  confirm_publication name generation k s =
      let (r, s') = read_generation b sha256 c name s in confirmed generation k r s'

  -- `_set_resolved`
  unfoldable pub confirm_if_given : Text → Text → Option Text → Exec b.State Bool
  confirm_if_given name k none = pure true
  confirm_if_given name k (some generation) = confirm_publication name generation k

  unfoldable pub set_resolved_value : Text → Text → Value → ℕ → Option Text → Exec b.State Bool
  set_resolved_value source name payload timeout generation = do
    let k = key source name (resolved_revision generation)
    store b sha256 c k payload (some timeout)
    confirm_if_given name k generation

  unfoldable pub set_resolved : Text → Text → ResolvedTemplate → Option Text → Exec b.State Bool
  set_resolved source name t generation =
      set_resolved_value source name (resolved_payload source name t) c.ttl generation

  unfoldable pub set_resolved_miss : Text → Text → Option Text → Exec b.State Bool
  set_resolved_miss source name generation =
      set_resolved_value source name (resolved_miss_payload source name) c.negative_ttl generation

  -- The loop of `invalidate_templates`.
  unfoldable pub invalidate_all : List Text → Exec b.State (Unit {0})
  invalidate_all [] = pure tt
  invalidate_all (n ∷ names) = do invalidate b sha256 c n; invalidate_all names

-- The names of `invalidate_templates`, canonical and without repetitions.
unfoldable pub canonical_names : (ℕ → Bool) → List Object → Result (List Text)
canonical_names unsafe [] = ok []
canonical_names unsafe (n ∷ names) = elim (canonicalize_template_name unsafe n) [
  | err e ↦ err e
  | ok m ↦ elim (canonical_names unsafe names) [ err e ↦ err e | ok ms ↦ ok (m ∷ ms) ]
]

-- `invalidate_templates`. `cache` is what the settings give: nothing where they have no `CACHE`
-- section, an error where the cache cannot be built.
unfoldable pub invalidate_templates :
    (b : Backend) (sha256 : Text → Text) (unsafe : ℕ → Bool)
    → Option (Result TemplateCache)
    → List Object
    → Exec b.State (Unit {0})
invalidate_templates b sha256 unsafe cache names s = elim (canonical_names unsafe names) [
  | err e ↦ (err e, s)
  | ok canonical ↦ elim (distinct [] canonical) [
    | [] ↦ (ok tt, s)
    | n ∷ rest ↦ elim cache [
      | none ↦ (ok tt, s)
      | some (err e) ↦ (err e, s)
      | some (ok c) ↦ invalidate_all b sha256 c (n ∷ rest) s
    ]
  ]
]

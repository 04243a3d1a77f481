-- ===== src/Resolver.antt =====
-- resolver.py: `TemplateResolver` over sources that the application gives and an optional cache.
pub mod Configuration
pub mod Cacheable
pub mod Specification
pub mod Uncached
pub mod Consistency
pub mod Meets
pub mod Transparent
use dj_hyperview.Prelude.{
  ℕ, ◌+◌, Bool, true, false, ◌&&◌, ◌||◌, Option, none, some, List, [], ◌∷◌, ◌++◌, ◌==◌, length,
  if◌then◌else◌, Text, text_eq,
}
use dj_hyperview.Errors.{
  Error, Result, ok, err, Exec, pure, raise, lift, continue, ◌>>=◌, ◌>>◌, value_error,
  source_unavailable, template_not_found, invalid_resolved_template,
}
use dj_hyperview.Sources.{ResolvedTemplate, Object, canonicalize_template_name}
use dj_hyperview.Cache.Backend.{Backend, TemplateCache}
use dj_hyperview.Cache.Payload.{CacheEntry, miss, hit}
use dj_hyperview.Cache.Generation.{peek_generation, initialize_generation, is_none}
use dj_hyperview.Cache.Entries.{get_resolved, set_resolved, set_resolved_miss}
pub use dj_hyperview.Resolver.Configuration.{
  Attribute, Answer, Source, FailureMode, TemplateResolver, absent, unreadable, boolean,
  other_value, nothing, template, malformed, raises, bypass, raise_mode,
}
unfoldable pub use dj_hyperview.Resolver.Configuration.{
  checked, resolve_checked, source_cacheable, source_cache_safe, default_source_id,
  default_source_ids, zip_ids, init, any_identity,
}

-- An `except SourceUnavailable` clause under a failure mode: `none` if the error was swallowed.
abbrev pub handled {ℓ} : {A : Type ℓ} → FailureMode → Result A → Result (Option A)
handled mode (ok a) = ok (some a)
handled bypass (err (source_unavailable source reason)) = ok none
handled mode (err e) = err e

-- What such a clause leaves of a call of which only the effect is wanted.
abbrev pub effect_of {ℓ} : {A : Type ℓ} → Result (Option A) → Result (Unit {0})
effect_of (ok outcome) = ok tt
effect_of (err e) = err e

-- What `_generation` returns: the token, and whether it is to be initialised.
abbrev pub generation_of : Result (Option (Option Text)) → Result (Option Text × Bool)
generation_of (ok (some generation)) = ok (generation, is_none generation)
generation_of (ok none) = ok (none, false)
generation_of (err e) = err e

module _ (b : Backend) (sha256 : Text → Text) where
  -- `_generation`, without and with a cache.
  unfoldable pub cached_generation :
      TemplateCache → FailureMode → Text → Exec b.State (Option Text × Bool)
  cached_generation c mode name s =
      let (r, s') = peek_generation b sha256 c name s in (generation_of (handled mode r), s')

  unfoldable pub generation_for :
      Option TemplateCache
      → List (Source × Option Text)
      → FailureMode
      → Text
      → Exec b.State (Option Text × Bool)
  generation_for none sources mode name = pure (none, false)
  generation_for (some c) sources mode name =
      if any_identity sources then cached_generation c mode name else pure (none, false)

  abbrev pub Initial : Type 0
  Initial = List (Text × Option ResolvedTemplate)

  unfoldable pub publish_one :
      TemplateCache → Text → Text → Option ResolvedTemplate → Text → Exec b.State Bool
  publish_one c source_id name none generation =
      set_resolved_miss b sha256 c source_id name (some generation)
  publish_one c source_id name (some t) generation =
      set_resolved b sha256 c source_id name t (some generation)

  -- The loop of `_publish_initial`.
  unfoldable pub publish_each : TemplateCache → Text → Text → Initial → Exec b.State (Unit {0})
  publish_each c name generation [] = pure tt
  publish_each c name generation ((source_id, resolved) ∷ results) = do
    published ← publish_one c source_id name resolved generation
    publish_each c name generation results

  unfoldable pub publish_if_created :
      TemplateCache → Text → Initial → Text × Bool → Exec b.State (Unit {0})
  publish_if_created c name results (generation, true) = publish_each c name generation results
  publish_if_created c name results (generation, false) = pure tt

  -- A call under `except SourceUnavailable`, of which only the effect is wanted.
  unfoldable pub guarded : {A : Type 0} → FailureMode → Exec b.State A → Exec b.State (Unit {0})
  guarded mode m s = let (r, s') = m s in (effect_of (handled mode r), s')

  -- `_publish_initial`
  unfoldable pub publish_initial :
      TemplateCache → FailureMode → Text → Initial → Exec b.State (Unit {0})
  publish_initial c mode name results = guarded mode (
      initialize_generation b sha256 c name >>= λ created.
      publish_if_created c name results created)

  -- `_resolve_source` after the cache had nothing.
  unfoldable pub publish_resolved :
      TemplateCache
      → FailureMode
      → Source
      → Text
      → Text
      → Text
      → Option ResolvedTemplate
      → Exec b.State (Option ResolvedTemplate)
  publish_resolved c mode source source_id name generation resolved =
      if source_cache_safe source
      then guarded mode (publish_one c source_id name resolved generation) >> pure resolved
      else pure resolved

  unfoldable pub resolve_uncached :
      TemplateCache
      → FailureMode
      → Source
      → Text
      → Text
      → Text
      → Exec b.State (Option ResolvedTemplate)
  resolve_uncached c mode source source_id name generation = do
    resolved ← lift (resolve_checked source name)
    publish_resolved c mode source source_id name generation resolved

  -- What `_resolve_source` does with the entry that it read.
  unfoldable pub with_entry :
      TemplateCache
      → FailureMode
      → Source
      → Text
      → Text
      → Text
      → Result (Option (Option CacheEntry))
      → Exec b.State (Option ResolvedTemplate)
  with_entry c mode source source_id name generation (err e) = raise e
  with_entry c mode source source_id name generation (ok none) = lift (resolve_checked source name)
  with_entry c mode source source_id name generation (ok (some none)) =
      resolve_uncached c mode source source_id name generation
  with_entry c mode source source_id name generation (ok (some (some miss))) = pure none
  with_entry c mode source source_id name generation (ok (some (some (hit t)))) = pure (some t)

  unfoldable pub resolve_cached :
      TemplateCache
      → FailureMode
      → Source
      → Text
      → Text
      → Text
      → Exec b.State (Option ResolvedTemplate)
  resolve_cached c mode source source_id name generation s =
      let (r, s') = get_resolved b sha256 c source_id name (some generation) s in
      with_entry c mode source source_id name generation (handled mode r) s'

  -- `_resolve_source`
  unfoldable pub resolve_source :
      Option TemplateCache
      → FailureMode
      → Source
      → Option Text
      → Text
      → Option Text
      → Exec b.State (Option ResolvedTemplate)
  resolve_source (some c) mode source (some source_id) name (some generation) =
      resolve_cached c mode source source_id name generation
  resolve_source cache mode source source_id name generation = lift (resolve_checked source name)

  -- The result of a source, kept for publication if it may be cached.
  unfoldable pub note : Source → Option Text → Option ResolvedTemplate → Initial → Initial
  note source none resolved initial = initial
  note source (some source_id) resolved initial =
      if source_cache_safe source then initial ++ (source_id, resolved) ∷ [] else initial

  unfoldable pub publish_noted :
      Option TemplateCache → FailureMode → Text → Initial → Exec b.State (Unit {0})
  publish_noted (some c) mode name (r ∷ rs) = publish_initial c mode name (r ∷ rs)
  publish_noted cache mode name initial = pure tt

  abbrev pub publish_or :
      Option ResolvedTemplate
      → Exec b.State (Unit {0})
      → Exec b.State ResolvedTemplate
      → Exec b.State ResolvedTemplate
  publish_or none publish rest = rest
  publish_or (some t) publish rest = publish >> pure t

  -- The loop of `resolve` while the generation is to be initialised.
  unfoldable pub resolve_initial :
      Option TemplateCache
      → FailureMode
      → Text
      → Initial
      → List (Source × Option Text)
      → Exec b.State ResolvedTemplate
  resolve_initial cache mode name initial [] = raise (template_not_found name)
  resolve_initial cache mode name initial ((source, source_id) ∷ rest) = do
    resolved ← lift (resolve_checked source name)
    let initial' = note source source_id resolved initial
    publish_or resolved (publish_noted cache mode name initial')
        (resolve_initial cache mode name initial' rest)

  abbrev pub return_or :
      Option ResolvedTemplate → Exec b.State ResolvedTemplate → Exec b.State ResolvedTemplate
  return_or none rest = rest
  return_or (some t) rest = pure t

  -- The loop of `resolve` under a generation, or without one.
  unfoldable pub resolve_each :
      Option TemplateCache
      → FailureMode
      → Text
      → Option Text
      → List (Source × Option Text)
      → Exec b.State ResolvedTemplate
  resolve_each cache mode name generation [] = raise (template_not_found name)
  resolve_each cache mode name generation ((source, source_id) ∷ rest) = do
    resolved ← resolve_source cache mode source source_id name generation
    return_or resolved (resolve_each cache mode name generation rest)

  unfoldable pub resolve_canonical :
      TemplateResolver → Text → Option Text × Bool → Exec b.State ResolvedTemplate
  resolve_canonical r name (generation, true) =
      resolve_initial r.cache r.failure_mode name [] r.sources
  resolve_canonical r name (generation, false) =
      resolve_each r.cache r.failure_mode name generation r.sources

  -- `TemplateResolver.resolve`
  unfoldable pub resolve : (ℕ → Bool) → TemplateResolver → Object → Exec b.State ResolvedTemplate
  resolve unsafe r name = do
    canonical ← lift (canonicalize_template_name unsafe name)
    found ← generation_for r.cache r.sources r.failure_mode canonical
    resolve_canonical r canonical found

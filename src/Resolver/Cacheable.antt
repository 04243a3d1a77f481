-- ===== src/Resolver/Cacheable.antt =====
-- sources/base.py: `_BuiltinCacheable`, and what the resolver makes of it.
use dj_hyperview.Prelude.{ℕ, Bool, false, ◌&&◌, ◌≡◌, refl, Option, none, some, Text}
use dj_hyperview.Cache.Backend.{Backend, TemplateCache}
use dj_hyperview.Resolver.{
  Attribute, boolean, Source, default_source_id, resolve_checked, FailureMode, resolve_source,
}

-- `cacheable` of a built-in source, as it is read: an attribute that is assigned comes first; `runs` is
-- whether the class runs the `resolve` of the built-in class, and `by_default` what the default gives.
unfoldable pub builtin_cacheable : Option Attribute → Bool → Bool → Attribute
builtin_cacheable (some assigned) runs by_default = assigned
builtin_cacheable none runs by_default = boolean (runs && by_default)

module _ (b : Backend) (sha256 : Text → Text) where
  uncached :
      (cache : Option TemplateCache) (mode : FailureMode) (source : Source) (name : Text)
      (generation : Option Text) (s : b.State)
      → resolve_source b sha256 cache mode source none name generation s
        ≡ (resolve_checked source name, s)
  unfolding resolve_source
  uncached none mode source name generation s = refl
  uncached (some c) mode source name generation s = refl

  -- A source that overrides the `resolve` of the built-in class, and has no `cacheable` of its own, is
  -- never cached under the default identities: whatever cache and generation there are, it is asked
  -- itself, and the cache is neither read nor written.
  pub resolve_source-overriding :
      (fingerprint : ℕ → Source → Option Text) (index : ℕ) (source : Source) (by_default : Bool)
      → source.cacheable ≡ builtin_cacheable none false by_default
      → (cache : Option TemplateCache) (mode : FailureMode) (name : Text) (generation : Option Text)
        (s : b.State)
      → resolve_source b sha256 cache mode source
          (default_source_id fingerprint index source)
          name
          generation
          s
        ≡ (resolve_checked source name, s)
  unfolding builtin_cacheable
  resolve_source-overriding fingerprint index source by_default e cache mode name generation s =
      rw no_id (uncached cache mode source name generation s)
    where
      no_id : default_source_id fingerprint index source ≡ none
      no_id = unfold default_source_id in rw (e) refl

-- ===== src/Resolver/Uncached.antt =====
-- `TemplateResolver.resolve` with no cache, or with no source that may be cached.
use dj_hyperview.Prelude.{ℕ, Bool, ◌≡◌, refl, Option, none, some, List, [], ◌∷◌, Text}
use dj_hyperview.Errors.{Result, ok, err, Exec, continue, ◌>>=◌}
use dj_hyperview.Sources.{ResolvedTemplate, Object, canonicalize_template_name}
use dj_hyperview.Cache.Backend.{Backend, TemplateCache}
use dj_hyperview.Resolver.{
  return_or, Source, resolve_checked, FailureMode, generation_for, resolve_source, resolve_each,
  resolve_canonical, resolve,
}
use dj_hyperview.Resolver.Specification.{then_rest, first_found}

-- The result of a canonical name, or the refusal of the name.
abbrev pub for_name : Result Text → (Text → Result ResolvedTemplate) → Result ResolvedTemplate
for_name (ok name) f = f name
for_name (err e) f = err e

module _ (b : Backend) (sha256 : Text → Text) where
  continue-return_or :
      (r : Result (Option ResolvedTemplate)) (m : Exec b.State ResolvedTemplate)
      (q : Result ResolvedTemplate) (s : b.State)
      → m s ≡ (q, s)
      → continue r (λ o. return_or b sha256 o m) s ≡ (then_rest r q, s)
  continue-return_or (err e) m q s h = refl
  continue-return_or (ok none) m q s h = h
  continue-return_or (ok (some t)) m q s h = refl

  resolve_source-no_generation :
      (cache : Option TemplateCache) (mode : FailureMode) (source : Source) (id : Option Text)
      (name : Text) (s : b.State)
      → resolve_source b sha256 cache mode source id name none s ≡ (resolve_checked source name, s)
  unfolding resolve_source
  resolve_source-no_generation none mode source id name s = refl
  resolve_source-no_generation (some c) mode source none name s = refl
  resolve_source-no_generation (some c) mode source (some i) name s = refl

  pub resolve_each-no_generation :
      (cache : Option TemplateCache) (mode : FailureMode) (name : Text)
      (sources : List (Source × Option Text)) (s : b.State)
      → resolve_each b sha256 cache mode name none sources s ≡ (first_found name sources, s)
  unfolding resolve_each first_found
  resolve_each-no_generation cache mode name [] s = refl
  resolve_each-no_generation cache mode name ((source, id) ∷ rest) s =
      rw (resolve_source-no_generation cache mode source id name s) (
        continue-return_or (resolve_checked source name) _ _ s
          (resolve_each-no_generation cache mode name rest s))

  resolve_canonical-no_cache :
      (sources : List (Source × Option Text)) (mode : FailureMode) (name : Text) (s : b.State)
      → (generation_for b sha256 none sources mode name
            >>= resolve_canonical b sha256
                (record { sources = sources; cache = none; failure_mode = mode })
                name)
          s
        ≡ (first_found name sources, s)
  unfolding generation_for resolve_canonical
  resolve_canonical-no_cache sources mode name s =
      resolve_each-no_generation none mode name sources s

  continue-for_name :
      (n : Result Text) (f : Text → Exec b.State ResolvedTemplate)
      (g : Text → Result ResolvedTemplate) (s : b.State)
      → ((name : Text) → f name s ≡ (g name, s))
      → continue n f s ≡ (for_name n g, s)
  continue-for_name (ok name) f g s h = h name
  continue-for_name (err e) f g s h = refl

  -- Without a cache the result is that of the first source, in order, that has the template: a miss
  -- of every source is `TemplateNotFound`, and an error of a source in front ends the search. Nothing
  -- is written.
  pub resolve-no_cache :
      (unsafe : ℕ → Bool) (sources : List (Source × Option Text)) (mode : FailureMode)
      (name : Object) (s : b.State)
      → resolve b sha256 unsafe
          (record { sources = sources; cache = none; failure_mode = mode })
          name
          s
        ≡ (for_name (canonicalize_template_name unsafe name) (λ n. first_found n sources), s)
  unfolding resolve
  resolve-no_cache unsafe sources mode name s =
      continue-for_name (canonicalize_template_name unsafe name) _ _ s
        (λ n. resolve_canonical-no_cache sources mode n s)

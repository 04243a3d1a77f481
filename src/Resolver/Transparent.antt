-- ===== src/Resolver/Transparent.antt =====
-- A consistent cache is transparent: the resolver answers as it would without it.
pub mod Cached
pub mod Initial
use mathlib.Core.Path.{subst}
use dj_hyperview.Prelude.{
  All, All-append, ℕ, Bool, true, false, ◌&&◌, ◌≡◌, refl, sym, ap, ◌∙◌, ◌⊎◌, inl, inr, Option, none,
  some, List, [], ◌∷◌, ◌++◌, arith, Text, if◌then◌else◌, Bool-cases,
}
use dj_hyperview.Errors.{
  Error, Result, ok, err, source_unavailable, Exec, continue, ◌>>=◌, ◌>>◌, lift, pure, raise,
}
use dj_hyperview.Sources.{ResolvedTemplate, Object, canonicalize_template_name}
use dj_hyperview.Cache.Json.{Value}
use dj_hyperview.Cache.Key.{IsInjective}
use dj_hyperview.Cache.Backend.{Backend, IsStore, TemplateCache}
use dj_hyperview.Cache.Generation.{initialize_generation, peek_generation, is_none}
use dj_hyperview.Cache.Payload.{CacheEntry, miss, hit}
use dj_hyperview.Cache.Entries.{get_resolved, set_resolved, set_resolved_miss}
use dj_hyperview.Cache.Writes.{Writes, Writes-bind, Writes-pure, Writes-peek}
use dj_hyperview.Cache.Raises.{
  Raises, Raises-bind, Raises-initialize, Raises-value, Raises-peek, IsUnavailable, ErrorsIn,
}
use dj_hyperview.Resolver.{
  Source, resolve_checked, source_cache_safe, FailureMode, bypass, raise_mode, any_identity,
  handled, effect_of, generation_of, publish_one, publish_each, publish_if_created, guarded,
  publish_initial, publish_resolved, resolve_uncached, with_entry, resolve_cached, resolve_source,
  note, publish_noted, resolve_initial, return_or, publish_or, resolve_each, cached_generation,
  generation_for, resolve_canonical, resolve,
}
use dj_hyperview.Resolver.Specification.{then_rest, first_found}
use dj_hyperview.Resolver.Uncached.{for_name, resolve_each-no_generation}
use dj_hyperview.Resolver.Consistency.{
  entry_for, Truth, IsConsistent, Agreeing, Writes-IsConsistent, initialize-Agreeing,
  publish_one-Agreeing, Read, unavailable_entry, absent_entry, true_entry, get_resolved-Read,
  Allowed,
}
use dj_hyperview.Resolver.Meets.{
  bind_result, Allowed-refl, Allowed-Failure, handled-cases, Failure, Allowed-cases, Meets,
  Meets-lift, Meets-bind, Meets-guarded, Raises-publish, IsSteady,
}
use dj_hyperview.Resolver.Transparent.Cached.{Meets-each}
use dj_hyperview.Resolver.Transparent.Initial.{Meets-initial}
use dj_hyperview.Resolver.{TemplateResolver}

module _ (b : Backend) (st : IsStore b) (sha256 : Text → Text) (c : TemplateCache) (truth : Truth)
    (mode : FailureMode) where
  module _ (inj : IsInjective sha256) (sources : List (Source × Option Text)) where
    abbrev resolver : TemplateResolver
    resolver = record { sources = sources; cache = some c; failure_mode = mode }

    Meets-canonical :
        (name : Text) (found : Option Text × Bool)
        → IsSteady truth name sources
        → Meets b st sha256 c truth mode
            (resolve_canonical b sha256 resolver name found)
            (first_found name sources)
    unfolding resolve_canonical
    Meets-canonical name (g, true) steady =
        Meets-initial b st sha256 c truth mode inj name [] sources tt steady
    Meets-canonical name (g, false) steady =
        Meets-each b st sha256 c truth mode inj name g sources steady

    Meets-peeked :
        (name : Text) (r : Result (Option Text))
        → ErrorsIn r
        → IsSteady truth name sources
        → Meets b st sha256 c truth mode
            (continue (generation_of (handled mode r)) (resolve_canonical b sha256 resolver name))
            (first_found name sources)
    Meets-peeked name (ok g) u steady = Meets-canonical name (g, is_none g) steady
    Meets-peeked name (err e) u steady =
        elim (handled-cases {A = Option Text} mode e (by_error e u)) [
          | inl q ↦ rw q (Meets-canonical name (none, false) steady)
          | inr (q, m) ↦ rw q (record {
            at = λ s h. (
              Allowed-Failure mode (first_found name sources) (err e) (e, by_error e u, refl, m),
              h,
            );
          })
        ]
      where
        by_error : (e : Error) → ErrorsIn {A = Option Text} (err e) → IsUnavailable e
        by_error e u = u

    Meets-generation :
        (name : Text)
        → IsSteady truth name sources
        → Meets b st sha256 c truth mode
            (generation_for b sha256 (some c) sources mode name
              >>= resolve_canonical b sha256 resolver name)
            (first_found name sources)
    unfolding generation_for cached_generation
    Meets-generation name steady = by_identity (any_identity sources)
      where
        peeked :
            Meets b st sha256 c truth mode
              (cached_generation b sha256 c mode name >>= resolve_canonical b sha256 resolver name)
              (first_found name sources)
        peeked = record {
          at = λ s h.
              (Meets-peeked name (peek_generation b sha256 c name s).0
                  ((Raises-peek b sha256 c name).at s) steady).at
                (peek_generation b sha256 c name s).1
                (Writes-IsConsistent b st sha256 c truth (peek_generation b sha256 c name) s
                  (Writes-peek b st sha256 c (Agreeing b st sha256 c truth) name) h);
        }

        by_identity :
            (any : Bool)
            → Meets b st sha256 c truth mode
                ((if any then cached_generation b sha256 c mode name else pure (none, false))
                  >>= resolve_canonical b sha256 resolver name)
                (first_found name sources)
        by_identity true = peeked
        by_identity false = Meets-canonical name (none, false) steady

    Meets-for_name :
        (n : Result Text) (f : Text → Exec b.State ResolvedTemplate)
        → ((name : Text)
            → n ≡ ok name
            → Meets b st sha256 c truth mode (f name) (first_found name sources))
        → Meets b st sha256 c truth mode (continue n f) (for_name n (λ n. first_found n sources))
    Meets-for_name (ok name) f h = h name refl
    Meets-for_name (err e) f h = record { at = λ s k. (Allowed-refl mode (err e), k) }

    -- Let the backend answer only with what was written under the key, the digest have no collisions,
    -- and the sources that have an identity answer as a fixed table says. On a cache that agrees with
    -- the table, `resolve` gives what the sources alone give: in bypass mode exactly that, whatever
    -- fails in the backend, and in raise mode that or a `SourceUnavailable`. The cache agrees with the
    -- table afterwards.
    pub resolve-transparent :
        (unsafe : ℕ → Bool) (name : Object)
        → ((n : Text) → canonicalize_template_name unsafe name ≡ ok n → IsSteady truth n sources)
        → (s : b.State) → IsConsistent b st sha256 c truth s
        → Allowed mode
            (for_name (canonicalize_template_name unsafe name) (λ n. first_found n sources))
            (resolve b sha256 unsafe
              (record { sources = sources; cache = some c; failure_mode = mode })
              name
              s).0
          × IsConsistent b st sha256 c truth
              (resolve b sha256 unsafe
                (record { sources = sources; cache = some c; failure_mode = mode })
                name
                s).1
    unfolding resolve
    resolve-transparent unsafe name steady s h =
        (Meets-for_name (canonicalize_template_name unsafe name) _
            (λ n e. Meets-generation n (steady n e))).at
          s h

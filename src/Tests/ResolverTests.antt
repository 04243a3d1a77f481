-- ===== src/Tests/ResolverTests.antt =====
-- The theorems on the resolver, on two sources and a backend in memory.
use dj_hyperview.Prelude.{
  Bool, true, false, ℕ, Bool, ◌≡◌, refl, Option, none, some, List, [], ◌∷◌, ◌==◌, Text, codes,
  text_eq, starts_with, contains, split, if◌then◌else◌,
}
use dj_hyperview.Errors.{ok}
use dj_hyperview.Sources.{
  text, canonicalize_template_name, refused, has_drive, any_in, is_relative_part,
}
use dj_hyperview.Resolver.{Source, bypass, resolve, resolve_checked, checked}
use dj_hyperview.Resolver.{nothing, boolean, absent}
use dj_hyperview.Resolver.Cacheable.{builtin_cacheable}
use dj_hyperview.Resolver.Specification.{first_found}
use dj_hyperview.Resolver.Uncached.{for_name, resolve-no_cache}
use dj_hyperview.Resolver.Consistency.{Truth, IsConsistent}
use dj_hyperview.Resolver.Meets.{IsSteady}
use dj_hyperview.Resolver.Transparent.{resolve-transparent}
use dj_hyperview.Tests.World.{
  last, memory, memory-IsStore, digest, digest-IsInjective, sample_cache, page, answering_page,
  answering_nothing,
}

abbrev unsafe : ℕ → Bool
unsafe c = c == 10

abbrev sources : List (Source × Option Text)
sources = (answering_nothing, some (codes "1")) ∷ (answering_page, some (codes "2")) ∷ []

abbrev truth : Truth
truth i name =
    if text_eq i (codes "2")
    then (if text_eq name (codes "home.xml") then some page else none)
    else none

resolve-no_cache_example :
    resolve memory digest unsafe
      (record { sources = sources; cache = none; failure_mode = bypass })
      (text (codes "home.xml"))
      []
    ≡ (
      for_name
          (canonicalize_template_name unsafe (text (codes "home.xml")))
          (λ n. first_found n sources),
      [],
    )
resolve-no_cache_example =
    resolve-no_cache memory digest unsafe sources bypass (text (codes "home.xml")) []

empty-IsConsistent : IsConsistent memory memory-IsStore digest sample_cache truth []
unfolding last
empty-IsConsistent = record { agrees = λ i n g v held. absurd (cc held) }

answers :
    (n : Text)
    → canonicalize_template_name unsafe (text (codes "home.xml")) ≡ ok n
    → IsSteady truth n sources
unfolding canonicalize_template_name resolve_checked checked refused text_eq starts_with contains
    split has_drive any_in is_relative_part
answers n e = by_name n (cc e)
  where
    by_name : (n : Text) → n ≡ codes "home.xml" → IsSteady truth n sources
    by_name n h = rw h (refl, (refl, tt))

resolve-transparent_example :
    (resolve memory digest unsafe
        (record { sources = sources; cache = some sample_cache; failure_mode = bypass })
        (text (codes "home.xml"))
        []).0
      ≡ for_name
          (canonicalize_template_name unsafe (text (codes "home.xml")))
          (λ n. first_found n sources)
    × IsConsistent memory memory-IsStore digest sample_cache truth
        (resolve memory digest unsafe
          (record { sources = sources; cache = some sample_cache; failure_mode = bypass })
          (text (codes "home.xml"))
          []).1
resolve-transparent_example =
    resolve-transparent memory memory-IsStore digest sample_cache truth bypass digest-IsInjective
      sources unsafe (text (codes "home.xml")) answers [] empty-IsConsistent

abbrev overriding : Source
overriding = record {
  kind = codes "Tenant";
  answer = λ name. nothing;
  cacheable = boolean false;
  cache_safe = absent;
}

overrides : overriding.cacheable ≡ builtin_cacheable none false true
unfolding builtin_cacheable
overrides = refl

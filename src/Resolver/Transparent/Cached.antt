-- ===== src/Resolver/Transparent/Cached.antt =====
-- `_resolve_source` on a consistent cache, and the loop of `resolve` under a generation.
use dj_hyperview.Prelude.{
  Bool, true, false, ◌≡◌, refl, inl, inr, Option, none, some, List, [], ◌∷◌, Text, if◌then◌else◌,
}
use dj_hyperview.Errors.{Result, ok, err, Exec, ◌>>◌, lift, pure}
use dj_hyperview.Sources.{ResolvedTemplate}
use dj_hyperview.Cache.Key.{IsInjective}
use dj_hyperview.Cache.Backend.{Backend, IsStore, TemplateCache}
use dj_hyperview.Cache.Payload.{CacheEntry}
use dj_hyperview.Cache.Entries.{get_resolved}
use dj_hyperview.Resolver.{
  Source, resolve_checked, source_cache_safe, FailureMode, handled, publish_one, guarded,
  publish_resolved, resolve_uncached, with_entry, resolve_cached, resolve_source, return_or,
  resolve_each,
}
use dj_hyperview.Resolver.Specification.{then_rest, first_found}
use dj_hyperview.Resolver.Consistency.{
  entry_for, Truth, publish_one-Agreeing, Read, unavailable_entry, absent_entry, true_entry,
  get_resolved-Read,
}
use dj_hyperview.Resolver.Meets.{
  Allowed-Failure, handled-cases, Meets, Meets-lift, Meets-bind, Meets-guarded, Raises-publish,
  then_rest-bind, IsSteady-rest, IsSteady,
}

module _ (b : Backend) (st : IsStore b) (sha256 : Text → Text) (c : TemplateCache) (truth : Truth)
    (mode : FailureMode) where
  module _ (inj : IsInjective sha256) (source : Source) (i name : Text)
      (steady : resolve_checked source name ≡ ok (truth i name)) where
    Meets-publish :
        (g : Text) (resolved : Option ResolvedTemplate)
        → resolved ≡ truth i name
        → Meets b st sha256 c truth mode
            (publish_resolved b sha256 c mode source i name g resolved)
            (ok resolved)
    unfolding publish_resolved
    Meets-publish g resolved e = by_safe (source_cache_safe source)
      where
        publish : Exec b.State Bool
        publish = publish_one b sha256 c i name resolved g

        by_safe :
            (safe : Bool)
            → Meets b st sha256 c truth mode
                (if safe then guarded b sha256 mode publish >> pure resolved else pure resolved)
                (ok resolved)
        by_safe true =
            Meets-bind b st sha256 c truth mode (λ outcome. pure resolved) (λ outcome. ok resolved)
              (guarded b sha256 mode publish) (ok tt)
              (Meets-guarded b st sha256 c truth mode publish
                (Raises-publish b st sha256 c truth mode i name resolved g)
                (publish_one-Agreeing b st sha256 c truth inj i name resolved g e))
              (λ a p. Meets-lift b st sha256 c truth mode (ok resolved))
        by_safe false = Meets-lift b st sha256 c truth mode (ok resolved)

    Meets-uncached :
        (g : Text)
        → Meets b st sha256 c truth mode
            (resolve_uncached b sha256 c mode source i name g)
            (ok (truth i name))
    unfolding resolve_uncached
    Meets-uncached g =
        Meets-bind b st sha256 c truth mode (publish_resolved b sha256 c mode source i name g) ok
          (lift (resolve_checked source name)) (ok (truth i name))
          (rw steady (Meets-lift b st sha256 c truth mode (ok (truth i name))))
          (λ a p. Meets-publish g a (cc))

    Meets-cached :
        (g : Text)
        → Meets b st sha256 c truth mode
            (resolve_cached b sha256 c mode source i name g)
            (ok (truth i name))
    unfolding resolve_cached
    Meets-cached g = record {
      at = λ s h.
          let (read, h') = get_resolved-Read b st sha256 c truth i name g s h in
          (by_read (get_resolved b sha256 c i name (some g) s).0 read).at
            (get_resolved b sha256 c i name (some g) s).1 h';
    }
      where
        answer : Result (Option (Option CacheEntry)) → Exec b.State (Option ResolvedTemplate)
        answer = with_entry b sha256 c mode source i name g

        from_truth :
            (o : Option ResolvedTemplate)
            → Meets b st sha256 c truth mode (answer (ok (some (some (entry_for o))))) (ok o)
        from_truth none = unfold with_entry in Meets-lift b st sha256 c truth mode (ok none)
        from_truth (some t) = unfold with_entry in Meets-lift b st sha256 c truth mode (ok (some t))

        by_read :
            (r : Result (Option CacheEntry))
            → Read b st sha256 c truth i name r
            → Meets b st sha256 c truth mode (answer (handled mode r)) (ok (truth i name))
        by_read r (unavailable_entry e u) = elim (handled-cases {A = Option CacheEntry} mode e u) [
          | inl q ↦ rw q (
              unfold with_entry in
              rw steady (Meets-lift b st sha256 c truth mode (ok (truth i name))))
          | inr (q, m) ↦ rw q (
              unfold with_entry in
              record {
                at = λ s h. (Allowed-Failure mode (ok (truth i name)) (err e) (e, u, refl, m), h);
              })
        ]
        by_read r absent_entry = unfold with_entry in Meets-uncached g
        by_read r true_entry = from_truth (truth i name)

  module _ (inj : IsInjective sha256) (name : Text) where
    Meets-return_or :
        (o : Option ResolvedTemplate) (m : Exec b.State ResolvedTemplate)
        (q : Result ResolvedTemplate)
        → Meets b st sha256 c truth mode m q
        → Meets b st sha256 c truth mode (return_or b sha256 o m) (then_rest (ok o) q)
    Meets-return_or none m q mm = mm
    Meets-return_or (some t) m q mm = Meets-lift b st sha256 c truth mode (ok t)

    Meets-source :
        (source : Source) (id : Option Text) (g : Option Text) (rest : List (Source × Option Text))
        → IsSteady truth name ((source, id) ∷ rest)
        → Meets b st sha256 c truth mode
            (resolve_source b sha256 (some c) mode source id name g)
            (resolve_checked source name)
    unfolding resolve_source
    Meets-source source none g rest h =
        Meets-lift b st sha256 c truth mode (resolve_checked source name)
    Meets-source source (some i) none rest h =
        Meets-lift b st sha256 c truth mode (resolve_checked source name)
    Meets-source source (some i) (some g) rest h = rw h.0 (Meets-cached inj source i name h.0 g)

    pub Meets-each :
        (g : Option Text) (sources : List (Source × Option Text))
        → IsSteady truth name sources
        → Meets b st sha256 c truth mode
            (resolve_each b sha256 (some c) mode name g sources)
            (first_found name sources)
    unfolding resolve_each first_found
    Meets-each g [] h = Meets-lift b st sha256 c truth mode (first_found name [])
    Meets-each g ((source, id) ∷ rest) h =
        let more = Meets-each g rest (IsSteady-rest truth name source id rest h) in
        let q = first_found name rest in
        rw (← then_rest-bind (resolve_checked source name) q) (
          Meets-bind b st sha256 c truth mode
            (λ o. return_or b sha256 o (resolve_each b sha256 (some c) mode name g rest))
            (λ o. then_rest (ok o) q) (resolve_source b sha256 (some c) mode source id name g)
            (resolve_checked source name) (Meets-source source id g rest h)
            (λ o p. Meets-return_or o _ q more))

-- ===== src/Resolver/Transparent/Initial.antt =====
-- The loop of `resolve` while the generation is to be initialised, and `_publish_initial`.
use dj_hyperview.Prelude.{
  All, All-append, Bool, true, false, ◌≡◌, Option, none, some, List, [], ◌∷◌, ◌++◌, Text,
  if◌then◌else◌,
}
use dj_hyperview.Errors.{Result, ok, Exec, ◌>>=◌, lift, pure}
use dj_hyperview.Sources.{ResolvedTemplate}
use dj_hyperview.Cache.Json.{Value}
use dj_hyperview.Cache.Key.{IsInjective}
use dj_hyperview.Cache.Backend.{Backend, IsStore, TemplateCache}
use dj_hyperview.Cache.Generation.{initialize_generation}
use dj_hyperview.Cache.Writes.{Writes, Writes-bind, Writes-pure}
use dj_hyperview.Cache.Raises.{Raises, Raises-bind, Raises-initialize}
use dj_hyperview.Resolver.{
  Source, resolve_checked, source_cache_safe, FailureMode, publish_one, publish_each,
  publish_if_created, publish_initial, note, publish_noted, resolve_initial, publish_or, Initial,
}
use dj_hyperview.Resolver.Specification.{then_rest, first_found}
use dj_hyperview.Resolver.Consistency.{Truth, Agreeing, initialize-Agreeing, publish_one-Agreeing}
use dj_hyperview.Resolver.Meets.{
  Meets, Meets-lift, Meets-bind, Meets-guarded, Raises-publish, then_rest-bind, IsSteady-rest,
  IsSteady,
}

module _ (b : Backend) (st : IsStore b) (sha256 : Text → Text) (c : TemplateCache) (truth : Truth)
    (mode : FailureMode) where
  module _ (inj : IsInjective sha256) (name : Text) where
    abbrev Agree : Text → Value → Type 0
    Agree = Agreeing b st sha256 c truth

    Writes-each :
        (g : Text) (results : Initial b sha256)
        → All (λ p. p.1 ≡ truth p.0 name) results
        → Writes b st Agree (publish_each b sha256 c name g results)
    unfolding publish_each
    Writes-each g [] h = Writes-pure b st Agree tt
    Writes-each g ((i, r) ∷ results) h =
        Writes-bind b st Agree (publish_one b sha256 c i name r g) _
          (publish_one-Agreeing b st sha256 c truth inj i name r g h.0)
          (λ published. Writes-each g results h.1)

    Raises-each :
        (g : Text) (results : Initial b sha256) → Raises (publish_each b sha256 c name g results)
    unfolding publish_each
    Raises-each g [] = record { at = λ s. tt }
    Raises-each g ((i, r) ∷ results) =
        Raises-bind (publish_one b sha256 c i name r g) _
          (Raises-publish b st sha256 c truth mode i name r g) (λ published. Raises-each g results)

    Writes-created :
        (results : Initial b sha256) (p : Text × Bool)
        → All (λ p. p.1 ≡ truth p.0 name) results
        → Writes b st Agree (publish_if_created b sha256 c name results p)
    unfolding publish_if_created
    Writes-created results (g, true) h = Writes-each g results h
    Writes-created results (g, false) h = Writes-pure b st Agree tt

    Raises-created :
        (results : Initial b sha256) (p : Text × Bool)
        → Raises (publish_if_created b sha256 c name results p)
    unfolding publish_if_created
    Raises-created results (g, true) = Raises-each g results
    Raises-created results (g, false) = record { at = λ s. tt }

    Meets-noted :
        (results : Initial b sha256)
        → All (λ p. p.1 ≡ truth p.0 name) results
        → Meets b st sha256 c truth mode (publish_noted b sha256 (some c) mode name results) (ok tt)
    unfolding publish_noted publish_initial
    Meets-noted [] h = Meets-lift b st sha256 c truth mode (ok tt)
    Meets-noted (r ∷ rs) h =
        Meets-guarded b st sha256 c truth mode
          (initialize_generation b sha256 c name >>= publish_if_created b sha256 c name (r ∷ rs))
          (Raises-bind (initialize_generation b sha256 c name) _ (Raises-initialize b sha256 c name)
            (Raises-created (r ∷ rs)))
          (Writes-bind b st Agree (initialize_generation b sha256 c name) _
            (initialize-Agreeing b st sha256 c truth inj name) (λ p. Writes-created (r ∷ rs) p h))

    note-true :
        (source : Source) (id : Option Text) (resolved : Option ResolvedTemplate)
        (results : Initial b sha256) (rest : List (Source × Option Text))
        → resolve_checked source name ≡ ok resolved
        → IsSteady truth name ((source, id) ∷ rest)
        → All (λ p. p.1 ≡ truth p.0 name) results
        → All (λ p. p.1 ≡ truth p.0 name) (note b sha256 source id resolved results)
    unfolding note
    note-true source none resolved results rest e steady h = h
    note-true source (some i) resolved results rest e steady h = by_safe (source_cache_safe source)
      where
        same : resolved ≡ truth i name
        same = cc (e, steady.0)

        by_safe :
            (safe : Bool)
            → All
                (λ p. p.1 ≡ truth p.0 name)
                (if safe then results ++ (i, resolved) ∷ [] else results)
        by_safe true = All-append (λ p. p.1 ≡ truth p.0 name) results _ h (same, tt)
        by_safe false = h

    Meets-publish_or :
        (o : Option ResolvedTemplate) (m : Exec b.State ResolvedTemplate)
        (q : Result ResolvedTemplate) (publish : Exec b.State (Unit {0}))
        → Meets b st sha256 c truth mode publish (ok tt)
        → Meets b st sha256 c truth mode m q
        → Meets b st sha256 c truth mode (publish_or b sha256 o publish m) (then_rest (ok o) q)
    Meets-publish_or none m q publish mp mm = mm
    Meets-publish_or (some t) m q publish mp mm =
        Meets-bind b st sha256 c truth mode (λ outcome. pure t) (λ outcome. ok t) publish (ok tt) mp
          (λ a p. Meets-lift b st sha256 c truth mode (ok t))

    pub Meets-initial :
        (results : Initial b sha256) (sources : List (Source × Option Text))
        → All (λ p. p.1 ≡ truth p.0 name) results
        → IsSteady truth name sources
        → Meets b st sha256 c truth mode
            (resolve_initial b sha256 (some c) mode name results sources)
            (first_found name sources)
    unfolding resolve_initial first_found
    Meets-initial results [] h steady = Meets-lift b st sha256 c truth mode (first_found name [])
    Meets-initial results ((source, id) ∷ rest) h steady =
        rw (← then_rest-bind (resolve_checked source name) (first_found name rest)) (
          Meets-bind b st sha256 c truth mode _ (λ o. then_rest (ok o) (first_found name rest))
            (lift (resolve_checked source name)) (resolve_checked source name)
            (Meets-lift b st sha256 c truth mode (resolve_checked source name))
            (λ o p.
              let noted = note-true source id o results rest p steady h in
              Meets-publish_or o _ _ _ (Meets-noted (note b sha256 source id o results) noted) (
                Meets-initial (note b sha256 source id o results) rest noted
                  (IsSteady-rest truth name source id rest steady))))

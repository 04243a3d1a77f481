-- ===== src/Resolver/Meets.antt =====
-- What a cache operation gives and keeps when it starts on a consistent cache, and the rules for it.
use dj_hyperview.Prelude.{◌≡◌, refl, ◌⊎◌, inl, inr, Option, none, some, List, [], ◌∷◌, Text}
use dj_hyperview.Errors.{Error, Result, ok, err, source_unavailable, Exec, continue, ◌>>=◌, lift}
use dj_hyperview.Sources.{ResolvedTemplate}
use dj_hyperview.Cache.Backend.{Backend, IsStore, TemplateCache}
use dj_hyperview.Cache.Entries.{set_resolved, set_resolved_miss}
use dj_hyperview.Cache.Writes.{Writes}
use dj_hyperview.Cache.Raises.{Raises, Raises-value, IsUnavailable, ErrorsIn}
use dj_hyperview.Resolver.{
  Source, resolve_checked, FailureMode, bypass, raise_mode, handled, effect_of, publish_one,
  guarded,
}
use dj_hyperview.Resolver.Specification.{then_rest}
use dj_hyperview.Resolver.Consistency.{Truth, IsConsistent, Agreeing, Writes-IsConsistent, Allowed}

abbrev pub bind_result : {A B : Type 0} → Result A → (A → Result B) → Result B
bind_result (ok a) k = k a
bind_result (err e) k = err e

pub Allowed-refl : {A : Type 0} (mode : FailureMode) (q : Result A) → Allowed mode q q
Allowed-refl bypass q = refl
Allowed-refl raise_mode q = inl refl

-- The error of a cache operation, as a mode lets it through.
Allowed-guarded :
    {A : Type 0} (mode : FailureMode) (r : Result A)
    → ErrorsIn r
    → Allowed mode (ok tt) (effect_of (handled mode r))
Allowed-guarded bypass (ok a) h = refl
Allowed-guarded raise_mode (ok a) h = inl refl
Allowed-guarded bypass (err (source_unavailable source reason)) h = refl
Allowed-guarded raise_mode (err (source_unavailable source reason)) h =
    inr (source_unavailable source reason, tt, refl)
Allowed-guarded mode (err e) h = absurd h

pub handled-cases :
    {A : Type 0} (mode : FailureMode) (e : Error)
    → IsUnavailable e
    → (handled {A = A} mode (err e) ≡ ok none)
      ⊎ ((handled {A = A} mode (err e) ≡ err e) × (mode ≡ raise_mode))
handled-cases bypass (source_unavailable source reason) u = inl refl
handled-cases raise_mode (source_unavailable source reason) u = inr (refl, refl)
handled-cases mode e u = absurd u

-- A failure that the mode lets through.
abbrev pub Failure : {A : Type 0} → FailureMode → Result A → Type 0
Failure mode r = (e : Error) × IsUnavailable e × (r ≡ err e) × (mode ≡ raise_mode)

pub Allowed-cases :
    {A : Type 0} (mode : FailureMode) (q r : Result A) → Allowed mode q r → (r ≡ q) ⊎ Failure mode r
Allowed-cases bypass q r h = inl h
Allowed-cases raise_mode q r (inl h) = inl h
Allowed-cases raise_mode q r (inr (e, u, h)) = inr (e, u, h, refl)

pub Allowed-Failure :
    {A : Type 0} (mode : FailureMode) (q r : Result A) → Failure mode r → Allowed mode q r
Allowed-Failure bypass q r (e, u, h, m) = absurd (cc)
Allowed-Failure raise_mode q r (e, u, h, m) = inr (e, u, h)

-- The sources that have a cache identity answer as the table says.
abbrev pub IsSteady : Truth → Text → List (Source × Option Text) → Type 0
IsSteady truth name [] = Unit
IsSteady truth name ((source, none) ∷ rest) = IsSteady truth name rest
IsSteady truth name ((source, some i) ∷ rest) =
    (resolve_checked source name ≡ ok (truth i name)) × IsSteady truth name rest

pub then_rest-bind :
    (r : Result (Option ResolvedTemplate)) (q : Result ResolvedTemplate)
    → bind_result r (λ o. then_rest (ok o) q) ≡ then_rest r q
then_rest-bind (ok o) q = refl
then_rest-bind (err e) q = refl

pub IsSteady-rest :
    (truth : Truth) (name : Text) (source : Source) (id : Option Text)
    (rest : List (Source × Option Text))
    → IsSteady truth name ((source, id) ∷ rest)
    → IsSteady truth name rest
IsSteady-rest truth name source none rest h = h
IsSteady-rest truth name source (some i) rest h = h.1

module _ (b : Backend) (st : IsStore b) (sha256 : Text → Text) (c : TemplateCache) (truth : Truth)
    (mode : FailureMode) where
  -- From a consistent cache, `m` gives what the mode allows for `q`, and leaves the cache consistent.
  pub record Meets {A : Type 0} (m : Exec b.State A) (q : Result A) : Type 0 where
    pub at :
        (s : b.State)
        → IsConsistent b st sha256 c truth s
        → Allowed mode q (m s).0 × IsConsistent b st sha256 c truth (m s).1

  pub Meets-lift : {A : Type 0} (q : Result A) → Meets (lift q) q
  Meets-lift q = record { at = λ s h. (Allowed-refl mode q, h) }

  module _ {A B : Type 0} (f : A → Exec b.State B) (k : A → Result B) where
    Meets-same :
        (r q : Result A) (s : b.State)
        → r ≡ q
        → IsConsistent b st sha256 c truth s
        → ((a : A) → q ≡ ok a → Meets (f a) (k a))
        → Allowed mode (bind_result q k) (continue r f s).0
          × IsConsistent b st sha256 c truth (continue r f s).1
    Meets-same r (ok a) s e h mf = rw e ((mf a refl).at s h)
    Meets-same r (err x) s e h mf = rw e (Allowed-refl mode (err x), h)

    Meets-continue :
        (r q : Result A) (s : b.State)
        → Allowed mode q r
        → IsConsistent b st sha256 c truth s
        → ((a : A) → q ≡ ok a → Meets (f a) (k a))
        → Allowed mode (bind_result q k) (continue r f s).0
          × IsConsistent b st sha256 c truth (continue r f s).1
    Meets-continue r q s al h mf = elim (Allowed-cases mode q r al) [
      | inl e ↦ Meets-same r q s e h mf
      | inr (e, u, er, m) ↦
          rw er (Allowed-Failure mode (bind_result q k) (err e) (e, u, refl, m), h)
    ]

    pub Meets-bind :
        (m : Exec b.State A) (q : Result A)
        → Meets m q
        → ((a : A) → q ≡ ok a → Meets (f a) (k a))
        → Meets (m >>= f) (bind_result q k)
    Meets-bind m q mm mf = record {
      at = λ s h. let (al, h') = mm.at s h in Meets-continue (m s).0 q (m s).1 al h' mf;
    }

  -- A cache operation under `except SourceUnavailable`.
  pub Meets-guarded :
      {A : Type 0} (m : Exec b.State A)
      → Raises m
      → Writes b st (Agreeing b st sha256 c truth) m
      → Meets (guarded b sha256 mode m) (ok tt)
  unfolding guarded
  Meets-guarded m rm wm = record {
    at = λ s h.
        (Allowed-guarded mode (m s).0 (rm.at s), Writes-IsConsistent b st sha256 c truth m s wm h);
  }

  pub Raises-publish :
      (i n : Text) (resolved : Option ResolvedTemplate) (g : Text)
      → Raises (publish_one b sha256 c i n resolved g)
  Raises-publish i n none g =
      unfold publish_one in
      unfold set_resolved_miss in Raises-value b sha256 c i n _ c.negative_ttl (some g)
  Raises-publish i n (some t) g =
      unfold publish_one in unfold set_resolved in Raises-value b sha256 c i n _ c.ttl (some g)

-- ===== src/Cache/Writes.antt =====
-- What a method can leave in the backend: what was there, and what it writes itself.
use dj_hyperview.Prelude.{ℕ, true, false, ◌≡◌, refl, ◌⊎◌, inl, inr, Option, none, some, Text}
use mathlib.Core.Path.{subst₂, sym}
use dj_hyperview.Errors.{Error, Result, ok, err, Exec, pure, raise, lift, continue, ◌>>=◌}
use dj_hyperview.Cache.Json.{Value, plain}
use dj_hyperview.Cache.Backend.{
  Reply, replied, failed, Answer, is_true, is_false, neither, Backend, IsStore, TemplateCache,
}
use dj_hyperview.Cache.Generation.{
  store, delete, candidate, peek_generation, read_generation, added, add_generation,
  initialize_generation, or_initialize, generation, generation_key, invalidate,
}

-- Each value that the backend may answer after `m` it might answer before, or it is of `W`.
pub record Writes (b : Backend) (st : IsStore b) (W : Text → Value → Type 0) {A : Type 0}
    (m : Exec b.State A) : Type 0 where
  pub at : (s : b.State) (j : Text) (v : Value) → st.Holds (m s).1 j v → st.Holds s j v ⊎ W j v

pub Writes-mono :
    (b : Backend) (st : IsStore b) (W W' : Text → Value → Type 0) {A : Type 0} (m : Exec b.State A)
    → ((j : Text) (v : Value) → W j v → W' j v)
    → Writes b st W m
    → Writes b st W' m
Writes-mono b st W W' m f w = record {
  at = λ s j v h. elim (w.at s j v h) [ inl old ↦ inl old | inr new ↦ inr (f j v new) ];
}

module _ (b : Backend) (st : IsStore b) (W : Text → Value → Type 0) where
  pub Writes-pure : {A : Type 0} (a : A) → Writes b st W (pure {S = b.State} a)
  Writes-pure a = record { at = λ s j v h. inl h }

  pub Writes-raise : {A : Type 0} (e : Error) → Writes b st W {A = A} (raise {S = b.State} e)
  Writes-raise e = record { at = λ s j v h. inl h }

  pub Writes-lift : {A : Type 0} (r : Result A) → Writes b st W (lift {S = b.State} r)
  Writes-lift r = record { at = λ s j v h. inl h }

  Writes-continue :
      {A : Type 0} {B : Type 0} (r : Result A) (f : A → Exec b.State B)
      → ((a : A) → Writes b st W (f a))
      → Writes b st W (λ s. continue r f s)
  Writes-continue (ok a) f wf = wf a
  Writes-continue (err e) f wf = record { at = λ s j v h. inl h }

  pub Writes-bind :
      {A : Type 0} {B : Type 0} (m : Exec b.State A) (f : A → Exec b.State B)
      → Writes b st W m
      → ((a : A) → Writes b st W (f a))
      → Writes b st W (m >>= f)
  Writes-bind m f wm wf = record {
    at = λ s j v h. from_first s j v ((Writes-continue (m s).0 f wf).at (m s).1 j v h);
  }
    where
      from_first :
          (s : b.State) (j : Text) (v : Value)
          → st.Holds (m s).1 j v ⊎ W j v
          → st.Holds s j v ⊎ W j v
      from_first s j v (inl h) = wm.at s j v h
      from_first s j v (inr w) = inr w

module _ (b : Backend) (st : IsStore b) (sha256 : Text → Text) (c : TemplateCache) where
  -- What `_store` writes.
  abbrev pub Only : Text → Value → Text → Value → Type 0
  Only k w j v = (j ≡ k) × (v ≡ w)

  -- A token written under the key of a generation.
  abbrev pub IsToken : Text → Text → Value → Type 0
  IsToken name j v = (j ≡ generation_key b sha256 c name) × ((token : Text) × (v ≡ plain token))

  pub Writes-store :
      (W : Text → Value → Type 0) (k : Text) (w : Value) (t : Option ℕ)
      → W k w
      → Writes b st W (store b sha256 c k w t)
  unfolding store
  Writes-store W k w t wk = record {
    at = λ s j v h. elim (st.set_keeps k j w v t s h) [
      | inl old ↦ inl old
      | inr e ↦ inr (subst₂ W (sym e.0) (sym e.1) wk)
    ];
  }

  pub Writes-delete : (W : Text → Value → Type 0) (k : Text) → Writes b st W (delete b sha256 c k)
  unfolding delete
  Writes-delete W k = record { at = λ s j v h. inl (st.delete_keeps k j s v h) }

  Writes-candidate :
      (W : Text → Value → Type 0) (name : Text) (current : Option Text)
      → Writes b st W (candidate b sha256 c name current)
  unfolding candidate
  Writes-candidate W name current = record { at = λ s j v h. inl (st.token_keeps j s v h) }

  pub Writes-peek :
      (W : Text → Value → Type 0) (name : Text) → Writes b st W (peek_generation b sha256 c name)
  unfolding peek_generation
  Writes-peek W name = record {
    at = λ s j v h. inl (st.get_keeps (generation_key b sha256 c name) j s v h);
  }

  pub Writes-read :
      (W : Text → Value → Type 0) (name : Text) → Writes b st W (read_generation b sha256 c name)
  unfolding read_generation
  Writes-read W name =
      Writes-bind b st W (peek_generation b sha256 c name) _ (Writes-peek W name)
        (λ token. Writes-lift b st W _)

  module _ (name : Text) where
    abbrev W : Text → Value → Type 0
    W = IsToken name

    Writes-added : (token : Text) (r : Reply Answer) → Writes b st W (added b sha256 c name token r)
    unfolding added
    Writes-added token (replied is_true) = Writes-pure b st W (token, true)
    Writes-added token (replied is_false) =
        Writes-bind b st W (read_generation b sha256 c name) _ (Writes-read W name)
          λ current. Writes-pure b st W (current, false)
    Writes-added token (replied neither) = Writes-raise b st W _
    Writes-added token failed = Writes-raise b st W _

    Writes-add : (token : Text) → Writes b st W (add_generation b sha256 c name token)
    unfolding add_generation
    Writes-add token = record {
      at = λ s j v h.
          let (r, s') = b.add (generation_key b sha256 c name) (plain token) s in
          earlier s j v ((Writes-added token r).at s' j v h);
    }
      where
        written :
            (s : b.State) (j : Text) (v : Value)
            → st.Holds s j v ⊎ ((j ≡ generation_key b sha256 c name) × (v ≡ plain token))
            → st.Holds s j v ⊎ W j v
        written s j v (inl old) = inl old
        written s j v (inr e) = inr (e.0, (token, e.1))

        earlier :
            (s : b.State) (j : Text) (v : Value)
            → st.Holds (b.add (generation_key b sha256 c name) (plain token) s).1 j v ⊎ W j v
            → st.Holds s j v ⊎ W j v
        earlier s j v (inl h) =
            written s j v (st.add_keeps (generation_key b sha256 c name) j (plain token) v s h)
        earlier s j v (inr w) = inr w

    pub Writes-initialize : Writes b st W (initialize_generation b sha256 c name)
    unfolding initialize_generation
    Writes-initialize =
        Writes-bind b st W (candidate b sha256 c name none) _ (Writes-candidate W name none)
          Writes-add

    Writes-or : (token : Option Text) → Writes b st W (or_initialize b sha256 c name token)
    unfolding or_initialize
    Writes-or none =
        Writes-bind b st W (initialize_generation b sha256 c name) _ Writes-initialize
          (λ p. Writes-pure b st W _)
    Writes-or (some token) = Writes-pure b st W token

    pub Writes-generation : Writes b st W (generation b sha256 c name)
    unfolding generation
    Writes-generation =
        Writes-bind b st W (peek_generation b sha256 c name) _ (Writes-peek W name) Writes-or

    pub Writes-invalidate : Writes b st W (invalidate b sha256 c name)
    unfolding invalidate
    Writes-invalidate =
        Writes-bind b st W (generation b sha256 c name) _ Writes-generation λ current.
          Writes-bind b st W (candidate b sha256 c name (some current)) _
            (Writes-candidate W name (some current))
            λ token.
              Writes-bind b st W
                (store b sha256 c (generation_key b sha256 c name) (plain token) none) _
                (Writes-store W _ _ none (refl, (token, refl)))
                λ done.
                  Writes-bind b st W (read_generation b sha256 c name) _ (Writes-read W name)
                    λ confirmed. Writes-lift b st W _

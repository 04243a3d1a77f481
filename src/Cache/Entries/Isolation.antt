-- ===== src/Cache/Entries/Isolation.antt =====
-- Which entries the methods of `TemplateCache` can touch.
use mathlib.Core.List.{append_cancel_left}
use dj_hyperview.Prelude.{
  ℕ, Bool, true, false, ◌≡◌, ◌≢◌, refl, sym, ap, ◌⊎◌, inl, inr, Option, none, some, ◌∷◌, arith,
  Text, codes, text_eq, length, length-append, if◌then◌else◌,
}
use dj_hyperview.Errors.{Error, Result, ok, err}
use dj_hyperview.Sources.{ResolvedTemplate}
use dj_hyperview.Cache.Json.{Value}
use dj_hyperview.Cache.Key.{IsInjective, template_cache_key-injective, Identity, key_of}
use dj_hyperview.Cache.Backend.{Backend, IsStore, TemplateCache}
use dj_hyperview.Cache.Generation.{generation_key, read_generation, store, invalidate}
use dj_hyperview.Cache.Payload.{resolved_payload}
use dj_hyperview.Cache.Entries.{
  resolved_revision, key, discard, after_failed_read, after_rotation, confirmed,
  confirm_publication, confirm_if_given, set_resolved_value, set_resolved,
}
use dj_hyperview.Cache.Writes.{
  Writes, Writes-pure, Writes-raise, Writes-bind, Writes-store, Writes-delete, Writes-read,
  Writes-invalidate, Only,
}

char_at_one : Text → ℕ
char_at_one (a ∷ c ∷ t) = c
char_at_one _ = 0

-- The revision of a resolved entry tells the generations apart, and is no generation's own.
pub resolved_revision-injective :
    (g g' : Option Text) → resolved_revision g ≡ resolved_revision g' → g ≡ g'
unfolding resolved_revision
resolved_revision-injective none none h = refl
resolved_revision-injective none (some g) h =
    absurd (omega (arith, ap length h, length-append (codes "@resolved:") g))
resolved_revision-injective (some g) none h =
    absurd (omega (arith, ap length h, length-append (codes "@resolved:") g))
resolved_revision-injective (some g) (some g') h =
    ap some (append_cancel_left (codes "@resolved:") g g' h)

resolved_revision-ne-token : (g : Option Text) → resolved_revision g ≢ codes "@token"
unfolding resolved_revision char_at_one
resolved_revision-ne-token none = λ h. omega (arith, ap char_at_one h)
resolved_revision-ne-token (some g) = λ h. omega (arith, ap char_at_one h)

module _ (b : Backend) (st : IsStore b) (sha256 : Text → Text) (c : TemplateCache) where
  module _ (W : Text → Value → Type 0) where
    Writes-discard : (k : Text) → Writes b st W (discard b sha256 c k)
    unfolding discard
    Writes-discard k = record { at = (Writes-delete b st sha256 c W k).at }

    Writes-failed : (k : Text) → Writes b st W (after_failed_read b sha256 c k)
    unfolding after_failed_read
    Writes-failed k =
        Writes-bind b st W (discard b sha256 c k) _ (Writes-discard k)
          (λ clean. Writes-raise b st W _)

    Writes-clean :
        (clean : Bool) (e : Error)
        → Writes b st W (if clean then (λ s. (ok false, s)) else (λ s. (err e, s)))
    Writes-clean true e = Writes-pure b st W false
    Writes-clean false e = Writes-raise b st W e

    Writes-rotated : (k : Text) → Writes b st W (after_rotation b sha256 c k)
    unfolding after_rotation
    Writes-rotated k =
        Writes-bind b st W (discard b sha256 c k) _ (Writes-discard k)
          (λ clean. Writes-clean clean _)

    Writes-same :
        (same : Bool) (k : Text)
        → Writes b st W (if same then (λ s. (ok true, s)) else after_rotation b sha256 c k)
    Writes-same true k = Writes-pure b st W true
    Writes-same false k = Writes-rotated k

    Writes-confirmed : (g k : Text) (r : Result Text) → Writes b st W (confirmed b sha256 c g k r)
    unfolding confirmed
    Writes-confirmed g k (err e) = Writes-failed k
    Writes-confirmed g k (ok current) = Writes-same (text_eq current g) k

    Writes-confirm : (name g k : Text) → Writes b st W (confirm_publication b sha256 c name g k)
    unfolding confirm_publication
    Writes-confirm name g k = record {
      at = λ s j v h.
          let (r, s') = read_generation b sha256 c name s in
          earlier s j v ((Writes-confirmed g k r).at s' j v h);
    }
      where
        earlier :
            (s : b.State) (j : Text) (v : Value)
            → st.Holds (read_generation b sha256 c name s).1 j v ⊎ W j v
            → st.Holds s j v ⊎ W j v
        earlier s j v (inl h) = (Writes-read b st sha256 c W name).at s j v h
        earlier s j v (inr w) = inr w

    Writes-given :
        (name k : Text) (g : Option Text) → Writes b st W (confirm_if_given b sha256 c name k g)
    unfolding confirm_if_given
    Writes-given name k none = Writes-pure b st W true
    Writes-given name k (some g) = Writes-confirm name g k

  -- A publication writes one entry, that of its source, name and generation.
  pub Writes-value :
      (source name : Text) (v : Value) (timeout : ℕ) (g : Option Text)
      → Writes b st
          (Only b st sha256 c (key b sha256 c source name (resolved_revision g)) v)
          (set_resolved_value b sha256 c source name v timeout g)
  unfolding set_resolved_value
  Writes-value source name v timeout g =
      let k = key b sha256 c source name (resolved_revision g) in
      let W' = Only b st sha256 c k v in
      Writes-bind b st W' (store b sha256 c k v (some timeout)) _
        (Writes-store b st sha256 c W' k v (some timeout) (refl, refl))
        λ done. Writes-given W' name k g

-- A source, a name and the generation under which a result is kept.
abbrev pub Slot : Type 0
Slot = Text × Text × Option Text

module _ (b : Backend) (sha256 : Text → Text) (c : TemplateCache) where
  abbrev pub slot_key : Slot → Text
  slot_key (source, name, g) = key b sha256 c source name (resolved_revision g)

  pub slot_key-injective : IsInjective sha256 → (a d : Slot) → slot_key a ≡ slot_key d → a ≡ d
  slot_key-injective inj (s, n, g) (s', n', g') h =
      let e =
        template_cache_key-injective sha256 inj (c.namespace, s, n, resolved_revision g)
          (c.namespace, s', n', resolved_revision g') h in
      cc (e, resolved_revision-injective g g' (ap (λ (i : Identity). i.3) e))

  -- The token of a name and the entries of a slot have different keys.
  pub slot_key-ne-generation_key :
      IsInjective sha256 → (a : Slot) (name : Text) → slot_key a ≢ generation_key b sha256 c name
  unfolding generation_key
  slot_key-ne-generation_key inj (s, n, g) name = λ h. resolved_revision-ne-token g (
      ap (λ (i : Identity). i.3)
        (template_cache_key-injective sha256 inj (c.namespace, s, n, resolved_revision g)
          (c.namespace, codes "@generation", name, codes "@token") h))

-- The key of an entry, or of the token of a name.
abbrev pub place_key : (b : Backend) → (Text → Text) → TemplateCache → Slot ⊎ Text → Text
place_key b sha256 c (inl a) = slot_key b sha256 c a
place_key b sha256 c (inr name) = generation_key b sha256 c name

module _ (b : Backend) (st : IsStore b) (sha256 : Text → Text) (c : TemplateCache)
    (inj : IsInjective sha256) where
  -- What a publication, and an invalidation, may leave to be answered for an entry and for a token.
  set_resolved-entry :
      (source name : Text) (t : ResolvedTemplate) (g : Option Text) (s : b.State) (v : Value)
      (a : Slot)
      → a ≢ (source, name, g)
      → st.Holds (set_resolved b sha256 c source name t g s).1 (slot_key b sha256 c a) v
      → st.Holds s (slot_key b sha256 c a) v
  unfolding set_resolved
  set_resolved-entry source name t g s v a ne h =
      let w = Writes-value b st sha256 c source name (resolved_payload source name t) c.ttl g in
      elim (w.at s (slot_key b sha256 c a) v h) [
        | inl old ↦ old
        | inr e ↦ absurd (ne (slot_key-injective b sha256 c inj a (source, name, g) e.0))
      ]

  set_resolved-token :
      (source name : Text) (t : ResolvedTemplate) (g : Option Text) (s : b.State) (v : Value)
      (other : Text)
      → st.Holds (set_resolved b sha256 c source name t g s).1 (generation_key b sha256 c other) v
      → st.Holds s (generation_key b sha256 c other) v
  unfolding set_resolved
  set_resolved-token source name t g s v other h =
      let w = Writes-value b st sha256 c source name (resolved_payload source name t) c.ttl g in
      elim (w.at s (generation_key b sha256 c other) v h) [
        | inl old ↦ old
        | inr e ↦
            absurd (slot_key-ne-generation_key b sha256 c inj (source, name, g) other (sym e.0))
      ]

  -- With a digest without collisions, and a backend that answers only with what was written under the
  -- key, a publication changes no entry of another source, name or generation, and no token: what the
  -- backend may answer there afterwards it might answer before.
  pub set_resolved-isolated :
      (source name : Text) (t : ResolvedTemplate) (g : Option Text) (s : b.State) (v : Value)
      (place : Slot ⊎ Text)
      → place ≢ inl (source, name, g)
      → st.Holds (set_resolved b sha256 c source name t g s).1 (place_key b sha256 c place) v
      → st.Holds s (place_key b sha256 c place) v
  set_resolved-isolated source name t g s v (inl a) ne h =
      set_resolved-entry source name t g s v a (λ e. ne (ap inl e)) h
  set_resolved-isolated source name t g s v (inr other) ne h =
      set_resolved-token source name t g s v other h

  -- With a digest without collisions, and a backend that answers only with what was written under the
  -- key, an invalidation changes nothing under the key of any namespace, source, name and revision but
  -- that of the token of its name, whatever kind of entry is kept there: what the backend may answer
  -- there afterwards it might answer before.
  pub invalidate-isolated :
      (name : Text) (s : b.State) (v : Value) (i : Identity)
      → i ≢ (c.namespace, codes "@generation", name, codes "@token")
      → st.Holds (invalidate b sha256 c name s).1 (key_of sha256 i) v
      → st.Holds s (key_of sha256 i) v
  unfolding generation_key
  invalidate-isolated name s v i ne h =
      elim ((Writes-invalidate b st sha256 c name).at s (key_of sha256 i) v h) [
        | inl old ↦ old
        | inr e ↦ absurd (
            ne (
              template_cache_key-injective sha256 inj i
                (c.namespace, codes "@generation", name, codes "@token") e.0))
      ]

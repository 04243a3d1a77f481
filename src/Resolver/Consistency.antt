-- ===== src/Resolver/Consistency.antt =====
-- A cache that holds nothing but what the sources answer, and what keeps it so.
use dj_hyperview.Prelude.{
  ℕ, Bool, true, false, ◌≡◌, refl, sym, ap, ◌∙◌, ◌⊎◌, inl, inr, Option, none, some, Text,
  if◌then◌else◌,
}
use dj_hyperview.Errors.{Error, Result, ok, err, Exec}
use dj_hyperview.Sources.{ResolvedTemplate}
use dj_hyperview.Cache.Json.{Value}
use dj_hyperview.Cache.Key.{IsInjective}
use dj_hyperview.Cache.Backend.{Reply, replied, failed, Backend, IsStore, TemplateCache}
use dj_hyperview.Cache.Generation.{initialize_generation}
use dj_hyperview.Cache.Payload.{
  CacheEntry, miss, hit, decode_resolved, resolved_payload, resolved_miss_payload,
}
use dj_hyperview.Cache.Payload.Roundtrip.{
  decode_resolved-resolved_payload, decode_resolved-miss_payload,
}
use dj_hyperview.Cache.Entries.{
  set_resolved_value, get_resolved, set_resolved, set_resolved_miss, entry_of,
}
use dj_hyperview.Cache.Entries.Isolation.{
  Slot, slot_key, slot_key-injective, slot_key-ne-generation_key, Writes-value,
}
use dj_hyperview.Cache.Writes.{Writes-mono, Writes, Writes-initialize, Only}
use dj_hyperview.Resolver.{publish_one, FailureMode, bypass, raise_mode}
use dj_hyperview.Cache.Raises.{IsUnavailable}
use mathlib.Core.Path.{subst₃}

-- The entry that a result is cached as.
abbrev pub entry_for : Option ResolvedTemplate → CacheEntry
entry_for none = miss
entry_for (some t) = hit t

-- A table of what each cacheable source answers for each name.
abbrev pub Truth : Type 0
Truth = Text → Text → Option ResolvedTemplate

-- A value that is refused, or says what the source says.
abbrev pub Agrees : Truth → Text → Text → Value → Type 0
Agrees truth i n v =
    (decode_resolved i n v ≡ none) ⊎ (decode_resolved i n v ≡ some (entry_for (truth i n)))

module _ (b : Backend) (st : IsStore b) (sha256 : Text → Text) (c : TemplateCache)
    (truth : Truth) where
  -- Under every generation, the cache may answer nothing else than what the source answers.
  pub record IsConsistent (s : b.State) : Type 0 where
    pub agrees :
        (i n : Text) (g : Option Text) (v : Value)
        → st.Holds s (slot_key b sha256 c (i, n, g)) v
        → Agrees truth i n v

  -- A write that agrees with the sources wherever it can be read.
  abbrev pub Agreeing : Text → Value → Type 0
  Agreeing j v =
      (i n : Text) (g : Option Text) → j ≡ slot_key b sha256 c (i, n, g) → Agrees truth i n v

  pub Writes-IsConsistent :
      {A : Type 0} (m : Exec b.State A) (s : b.State)
      → Writes b st Agreeing m
      → IsConsistent s
      → IsConsistent (m s).1
  Writes-IsConsistent m s w h = record {
    agrees = λ i n g v held. elim (w.at s (slot_key b sha256 c (i, n, g)) v held) [
      | inl old ↦ h.agrees i n g v old
      | inr new ↦ new i n g refl
    ];
  }

  module _ (inj : IsInjective sha256) where
    pub initialize-Agreeing :
        (name : Text) → Writes b st Agreeing (initialize_generation b sha256 c name)
    initialize-Agreeing name = record {
      at = λ s j v h. elim ((Writes-initialize b st sha256 c name).at s j v h) [
        | inl old ↦ inl old
        | inr token ↦ inr (λ i n g e.
            absurd (slot_key-ne-generation_key b sha256 c inj (i, n, g) name (sym e ∙ token.0)))
      ];
    }

    Agrees-if :
        (i n : Text) (v : Value) (o : Option ResolvedTemplate) (p : Bool)
        → o ≡ truth i n
        → decode_resolved i n v ≡ (if p then some (entry_for o) else none)
        → Agrees truth i n v
    Agrees-if i n v o true e h = inr (h ∙ ap (λ x. some (entry_for x)) e)
    Agrees-if i n v o false e h = inl h

    -- The value that is written for a source and a name agrees there.
    value-Agreeing :
        (i n : Text) (g : Option Text) (v : Value)
        → Agrees truth i n v
        → (j : Text) (w : Value) → Only b st sha256 c (slot_key b sha256 c (i, n, g)) v j w
        → Agreeing j w
    value-Agreeing i n g v a j w written i' n' g' e =
        let same = slot_key-injective b sha256 c inj (i, n, g) (i', n', g') (sym written.0 ∙ e) in
        subst₃ (λ i n w. Agrees truth i n w) (ap (λ (x : Slot). x.0) same)
          (ap (λ (x : Slot). x.1) same) (sym written.1) a

    written-Agreeing :
        (i n : Text) (g : Option Text) (v : Value) (timeout : ℕ)
        → Agrees truth i n v
        → Writes b st Agreeing (set_resolved_value b sha256 c i n v timeout g)
    written-Agreeing i n g v timeout a =
        Writes-mono b st (Only b st sha256 c (slot_key b sha256 c (i, n, g)) v) Agreeing
          (set_resolved_value b sha256 c i n v timeout g) (value-Agreeing i n g v a)
          (Writes-value b st sha256 c i n v timeout g)

    pub publish_one-Agreeing :
        (i n : Text) (resolved : Option ResolvedTemplate) (g : Text)
        → resolved ≡ truth i n
        → Writes b st Agreeing (publish_one b sha256 c i n resolved g)
    unfolding publish_one set_resolved set_resolved_miss
    publish_one-Agreeing i n none g e =
        written-Agreeing i n (some g) (resolved_miss_payload i n) c.negative_ttl (
          Agrees-if i n (resolved_miss_payload i n) none _ e (decode_resolved-miss_payload i n i n))
    publish_one-Agreeing i n (some t) g e =
        written-Agreeing i n (some g) (resolved_payload i n t) c.ttl (
          Agrees-if i n (resolved_payload i n t) (some t) _ e
            (decode_resolved-resolved_payload i n i n t))

  -- What `get_resolved` can return on such a cache.
  pub data Read (i n : Text) : Result (Option CacheEntry) → Type 0 where
    unavailable_entry : (e : Error) → IsUnavailable e → Read i n (err e)
    absent_entry : Read i n (ok none)
    true_entry : Read i n (ok (some (entry_for (truth i n))))

  entry_of-Read :
      (i n : Text) (r : Reply (Option Value))
      → ((v : Value) → r ≡ replied (some v) → Agrees truth i n v)
      → Read i n (entry_of b sha256 c (decode_resolved i n) r)
  unfolding entry_of
  entry_of-Read i n failed h = unavailable_entry _ tt
  entry_of-Read i n (replied none) h = absent_entry
  entry_of-Read i n (replied (some v)) h = elim (h v refl) [
    | inl bad ↦ rw (bad, entry_of) (unavailable_entry _ tt)
    | inr good ↦ rw (good, entry_of) true_entry
  ]

  pub get_resolved-Read :
      (i n : Text) (g : Text) (s : b.State)
      → IsConsistent s
      → Read i n (get_resolved b sha256 c i n (some g) s).0
        × IsConsistent (get_resolved b sha256 c i n (some g) s).1
  unfolding get_resolved
  get_resolved-Read i n g s h =
      let k = slot_key b sha256 c (i, n, some g) in
      (
        entry_of-Read i n (b.get k s).0 (λ v e. h.agrees i n (some g) v (st.get_held k s v e)),
        record {
          agrees = λ i' n' g' v held.
              h.agrees i' n' g' v (st.get_keeps k (slot_key b sha256 c (i', n', g')) s v held);
        },
      )

-- The results that a failure mode allows where the sources alone would give `q`: no other one in
-- bypass mode, and also the error of an unavailable cache in raise mode.
abbrev pub Allowed {ℓ} : {A : Type ℓ} → FailureMode → Result A → Result A → Type ℓ
Allowed bypass q r = r ≡ q
Allowed raise_mode q r = (r ≡ q) ⊎ ((e : Error) × IsUnavailable e × (r ≡ err e))

-- ===== src/Cache/Raises.antt =====
-- The methods of `TemplateCache` raise nothing but `SourceUnavailable`, whatever the backend does.
use dj_hyperview.Prelude.{
  arith, ℕ, Bool, true, false, Option, none, some, if◌then◌else◌, Text, text_eq,
}
use dj_hyperview.Errors.{Error, Result, ok, err, source_unavailable, Exec, lift, continue, ◌>>=◌}
use dj_hyperview.Cache.Json.{Value, plain}
use dj_hyperview.Cache.Backend.{
  Reply, replied, failed, Answer, is_true, is_false, neither, Backend, TemplateCache,
}
use dj_hyperview.Cache.Generation.{
  store_result, store, candidate, peeked, peek_generation, read_generation, added, add_generation,
  initialize_generation, present, generation_key,
}
use dj_hyperview.Cache.Payload.{CacheEntry, decode_resolved}
use dj_hyperview.Cache.Entries.{
  entry_of, get_resolved, discard, after_failed_read, after_rotation, confirmed,
  confirm_publication, confirm_if_given, set_resolved_value,
}

abbrev pub IsUnavailable : Error → Type 0
IsUnavailable (source_unavailable source reason) = Unit
IsUnavailable _ = ⊥

abbrev pub ErrorsIn {ℓ} : {A : Type ℓ} → Result A → Type 0
ErrorsIn (ok a) = Unit
ErrorsIn (err e) = IsUnavailable e

pub record Raises {S A : Type 0} (m : Exec S A) : Type 0 where
  pub at : (s : S) → ErrorsIn (m s).0

module _ {S A B : Type 0} where
  Raises-continue :
      (r : Result A) (f : A → Exec S B)
      → ErrorsIn r
      → ((a : A) → Raises (f a))
      → (s : S) → ErrorsIn (continue r f s).0
  Raises-continue (ok a) f er rf s = (rf a).at s
  Raises-continue (err e) f er rf s = er

  pub Raises-bind :
      (m : Exec S A) (f : A → Exec S B) → Raises m → ((a : A) → Raises (f a)) → Raises (m >>= f)
  Raises-bind m f rm rf = record { at = λ s. Raises-continue (m s).0 f (rm.at s) rf (m s).1 }

module _ (b : Backend) (sha256 : Text → Text) (c : TemplateCache) where
  Raises-store : (k : Text) (v : Value) (t : Option ℕ) → Raises (store b sha256 c k v t)
  unfolding store
  Raises-store k v t = record { at = λ s. by_reply (b.set k v t s).0 }
    where
      by_reply : (r : Reply Answer) → ErrorsIn (store_result b sha256 c r)
      by_reply failed = tt
      by_reply (replied is_true) = tt
      by_reply (replied is_false) = tt
      by_reply (replied neither) = tt

  Raises-candidate :
      (name : Text) (current : Option Text) → Raises (candidate b sha256 c name current)
  unfolding candidate
  Raises-candidate name current = record { at = λ s. ground arith }

  Raises-peeked : (r : Reply (Option Value)) → ErrorsIn (peeked b sha256 c r)
  unfolding peeked
  Raises-peeked failed = tt
  Raises-peeked (replied none) = tt
  Raises-peeked (replied (some v)) = ground arith

  pub Raises-peek : (name : Text) → Raises (peek_generation b sha256 c name)
  unfolding peek_generation
  Raises-peek name = record { at = λ s. Raises-peeked (b.get (generation_key b sha256 c name) s).0 }

  Raises-present : (t : Option Text) → Raises (lift {S = b.State} (present b sha256 c t))
  unfolding present
  Raises-present none = record { at = λ s. tt }
  Raises-present (some t) = record { at = λ s. tt }

  Raises-read : (name : Text) → Raises (read_generation b sha256 c name)
  unfolding read_generation
  Raises-read name =
      Raises-bind (peek_generation b sha256 c name) _ (Raises-peek name) Raises-present

  Raises-added : (name token : Text) (r : Reply Answer) → Raises (added b sha256 c name token r)
  unfolding added
  Raises-added name token (replied is_true) = record { at = λ s. tt }
  Raises-added name token (replied is_false) =
      Raises-bind (read_generation b sha256 c name) _ (Raises-read name)
        (λ current. record { at = λ s. tt })
  Raises-added name token (replied neither) = record { at = λ s. tt }
  Raises-added name token failed = record { at = λ s. tt }

  Raises-add : (name token : Text) → Raises (add_generation b sha256 c name token)
  unfolding add_generation
  Raises-add name token = record {
    at = λ s.
        let (r, s') = b.add (generation_key b sha256 c name) (plain token) s in
        (Raises-added name token r).at s';
  }

  pub Raises-initialize : (name : Text) → Raises (initialize_generation b sha256 c name)
  unfolding initialize_generation
  Raises-initialize name =
      Raises-bind (candidate b sha256 c name none) _ (Raises-candidate name none) (Raises-add name)

  pub Raises-entry :
      (read : Value → Option CacheEntry) (r : Reply (Option Value))
      → ErrorsIn (entry_of b sha256 c read r)
  unfolding entry_of
  Raises-entry read failed = tt
  Raises-entry read (replied none) = tt
  Raises-entry read (replied (some v)) = ground arith

  pub Raises-get :
      (source name : Text) (g : Option Text) → Raises (get_resolved b sha256 c source name g)
  unfolding get_resolved
  Raises-get source name g = record { at = λ s. Raises-entry (decode_resolved source name) _ }

  Raises-discard : (k : Text) → Raises (discard b sha256 c k)
  unfolding discard
  Raises-discard k = record { at = λ s. ground arith }

  Raises-rotated : (k : Text) → Raises (after_rotation b sha256 c k)
  unfolding after_rotation
  Raises-rotated k =
      Raises-bind (discard b sha256 c k) _ (Raises-discard k)
        (λ clean. record { at = λ s. ground arith })

  Raises-confirmed : (g k : Text) (r : Result Text) → Raises (confirmed b sha256 c g k r)
  unfolding confirmed
  Raises-confirmed g k (err e) =
      unfold after_failed_read in
      Raises-bind (discard b sha256 c k) _ (Raises-discard k) (λ clean. record { at = λ s. tt })
  Raises-confirmed g k (ok current) = record { at = λ s. by_test (text_eq current g) s }
    where
      by_test :
          (same : Bool) (s : b.State)
          → ErrorsIn ((if same then (λ s. (ok true, s)) else after_rotation b sha256 c k) s).0
      by_test true s = tt
      by_test false s = (Raises-rotated k).at s

  Raises-given : (name k : Text) (g : Option Text) → Raises (confirm_if_given b sha256 c name k g)
  unfolding confirm_if_given
  Raises-given name k none = record { at = λ s. tt }
  Raises-given name k (some g) = record {
    at = λ s. unfold confirm_publication in (Raises-confirmed g k _).at _;
  }

  pub Raises-value :
      (source name : Text) (v : Value) (timeout : ℕ) (g : Option Text)
      → Raises (set_resolved_value b sha256 c source name v timeout g)
  unfolding set_resolved_value
  Raises-value source name v timeout g =
      Raises-bind (store b sha256 c _ v (some timeout)) _ (Raises-store _ v (some timeout))
        (λ done. Raises-given name _ g)

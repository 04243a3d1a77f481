-- ===== src/Cache/Generation/Rotation.antt =====
-- What a successful `invalidate` and a generated token guarantee.
use dj_hyperview.Prelude.{
  ℕ, zero, suc, ◌≤◌, Bool, true, false, ◌≡◌, ◌≢◌, refl, sym, ap, ◌∙◌, Option, none, some, [], ◌∷◌,
  if◌then◌else◌, arith, Text, text_eq_refl, length, take,
}
use dj_hyperview.Errors.{Result, ok, err, Exec, continue, ◌>>=◌}
use dj_hyperview.Cache.Json.{plain}
use dj_hyperview.Cache.Backend.{Backend, TemplateCache}
use dj_hyperview.Cache.Generation.{
  is_none, all_hex, valid_text, valid_generation, candidate_token, candidate, generation,
  generation_key, read_generation, store, confirm_rotation, invalidate,
}

-- The documented form of `hexdigest`: 64 lower-case hexadecimal digits.
pub record IsHexDigest (sha256 : Text → Text) : Type 0 where
  pub digits : (t : Text) → all_hex (sha256 t) ≡ true
  pub size : (t : Text) → length (sha256 t) ≡ 64

all_hex-take : (n : ℕ) (t : Text) → all_hex t ≡ true → all_hex (take n t) ≡ true
unfolding all_hex
all_hex-take zero t h = refl
all_hex-take (suc n) [] h = refl
all_hex-take (suc n) (c ∷ t) h = ground (arith, all_hex-take n t)

length-take : (n : ℕ) (t : Text) → n ≤ length t → length (take n t) ≡ n
length-take zero t h = refl
length-take (suc n) [] h = absurd (omega arith)
length-take (suc n) (c ∷ t) h = ap suc (length-take n t (omega arith))

valid_of_parts :
    (p : Bool) (t : Text)
    → length t ≡ 32
    → all_hex t ≡ true
    → valid_generation (plain ((if p then b'r' else b's') ∷ t))
      ≡ some ((if p then b'r' else b's') ∷ t)
unfolding valid_generation valid_text
valid_of_parts true t size digits = ground arith
valid_of_parts false t size digits = ground arith

-- If the digest is 64 hexadecimal digits, a token that the code makes is one that it accepts when it reads it back.
pub candidate_token-valid :
    (b : Backend) (sha256 : Text → Text) (c : TemplateCache)
    → IsHexDigest sha256
    → (name : Text) (current : Option Text) (entropy : Text)
    → valid_generation (plain (candidate_token b sha256 c name current entropy))
      ≡ some (candidate_token b sha256 c name current entropy)
unfolding candidate_token
candidate_token-valid b sha256 c hex name current entropy =
    valid_of_parts (is_none current) (take 32 (sha256 _))
      (length-take 32 (sha256 _) (omega (arith, hex.size)))
      (all_hex-take 32 (sha256 _) (hex.digits _))

module _ {S A B : Type 0} where
  continue-eq-ok :
      (q : Result A) (f : A → Exec S B) (s : S) {r : B}
      → (continue q f s).0 ≡ ok r
      → (a : A) × (q ≡ ok a) × (continue q f s ≡ f a s) × ((f a s).0 ≡ ok r)
  continue-eq-ok (ok a) f s h = (a, refl, refl, h)
  continue-eq-ok (err x) f s h = absurd (cc)

  >>=-eq-ok :
      (m : Exec S A) (f : A → Exec S B) (s : S) {r : B}
      → ((m >>= f) s).0 ≡ ok r
      → (a : A) × ((m s).0 ≡ ok a) × ((m >>= f) s ≡ f a (m s).1) × ((f a (m s).1).0 ≡ ok r)
  >>=-eq-ok m f s h = continue-eq-ok (m s).0 f (m s).1 h

confirm_rotation-ok :
    (b : Backend) (sha256 : Text → Text) (c : TemplateCache) (current confirmed : Text)
    → confirm_rotation b sha256 c current confirmed ≡ ok tt
    → confirmed ≢ current
unfolding confirm_rotation
confirm_rotation-ok b sha256 c current confirmed h = λ e. ground (arith, e, text_eq_refl current)

-- An invalidation that succeeds has read a token after its write, and that token is not the one that
-- was current when it began.
pub invalidate-ok :
    (b : Backend) (sha256 : Text → Text) (c : TemplateCache) (name : Text) (s : b.State)
    → (invalidate b sha256 c name s).0 ≡ ok tt
    → (current : Text) × (confirmed : Text) × (token : Text) × (s' : b.State) × ((generation b
          sha256 c name s).0
        ≡ ok current)
      × (read_generation b sha256 c name
            (store b sha256 c (generation_key b sha256 c name) (plain token) none s').1
          ≡ (ok confirmed, (invalidate b sha256 c name s).1))
      × (confirmed ≢ current)
unfolding invalidate
invalidate-ok b sha256 c name s h =
    let (current, e₁, step₁, h₁) = >>=-eq-ok (generation b sha256 c name) _ s h in
    let s₁ = (generation b sha256 c name s).1 in
    let (token, e₂, step₂, h₂) = >>=-eq-ok (candidate b sha256 c name (some current)) _ s₁ h₁ in
    let s₂ = (candidate b sha256 c name (some current) s₁).1 in
    let (done, e₃, step₃, h₃) =
      >>=-eq-ok (store b sha256 c (generation_key b sha256 c name) (plain token) none) _ s₂ h₂ in
    let s₃ = (store b sha256 c (generation_key b sha256 c name) (plain token) none s₂).1 in
    let (confirmed, e₄, step₄, h₄) = >>=-eq-ok (read_generation b sha256 c name) _ s₃ h₃ in
    let last = step₁ ∙ step₂ ∙ step₃ ∙ step₄ in
    (
      current,
      confirmed,
      token,
      s₂,
      e₁,
      λ i. (e₄ i, (ap (λ (r : Result (Unit {0}) × b.State). r.1) (sym last)) i),
      confirm_rotation-ok b sha256 c current confirmed h₄,
    )

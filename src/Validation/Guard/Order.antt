-- ===== src/Validation/Guard/Order.antt =====
-- What a guarded document has passed, and what each failure of the guard tells of a document.
use dj_hyperview.Prelude.{
  ℕ, ◌≤◌, ◌<◌, ◌≡◌, refl, Bool, true, false, ◌&&◌, ◌||◌, Option, none, some, ltb, ltb→lt, ltb→le,
  if◌then◌else◌, length, Text, codes, Bool-cases, inl, inr, ap,
}
use dj_hyperview.Errors.{Error, Result, ok, err}
use dj_hyperview.Lexer.{unclosed_cost_exceeds}
use dj_hyperview.Lexer.Cost.{exact_cost, unclosed_cost_exceeds-exact}
use dj_hyperview.Validation.Encoding.{
  encode_utf8, encode, failed, declared_encoding, encoding_allowed, encoded_or_error,
}
use dj_hyperview.Validation.Declarations.{
  Django, contains_forbidden_declaration, template_literal_text, occurs, doctype, entity,
}
use dj_hyperview.Validation.Declarations.Reference.{declares}
use dj_hyperview.Validation.Declarations.Scan.{contains_forbidden_declaration-declares}
use dj_hyperview.Validation.Guard.{
  ValidationSettings, Runtime, max_unclosed_cost, fail_if, guard_encoded, guard_document,
  guard_result,
}

-- The reference of the scan, for a document and for template source.
abbrev pub has_declaration : Django → Text → Bool → Bool
has_declaration django document true =
    (occurs doctype document || occurs entity document)
    && declares 0 none (template_literal_text django document)
has_declaration django document false = declares 0 none document

contains-has_declaration :
    (django : Django) (document : Text) (template_source : Bool)
    → contains_forbidden_declaration django document template_source
      ≡ has_declaration django document template_source
contains-has_declaration django document true =
    (contains_forbidden_declaration-declares django document).1
contains-has_declaration django document false =
    (contains_forbidden_declaration-declares django document).0

module _ (runtime : Runtime) (config : ValidationSettings) (document : Text)
    (template_source : Bool) where
  -- A document whose declaration names no other encoding, and its bytes.
  pub record IsEncoded (encoded : Text) : Type 0 where
    pub utf8 :
        encoding_allowed runtime.codecs (declared_encoding runtime.codecs.classes document) ≡ true
    pub bytes : encode document ≡ some encoded

  pub record Accepted (encoded : Text) : Type 0 where
    pub is_encoded : IsEncoded encoded
    pub small : length encoded ≤ config.max_bytes
    pub plain : has_declaration runtime.django document template_source ≡ false
    pub cheap : template_source ≡ true → exact_cost document ≤ max_unclosed_cost

  -- The failures, in the order of the checks: each says which checks were passed before.
  pub data Rejected : Error → Type 0 where
    foreign :
        encoding_allowed runtime.codecs (declared_encoding runtime.codecs.classes document) ≡ false
        → Rejected (failed (codes "invalid_encoding"))
    surrogate :
        encoding_allowed runtime.codecs (declared_encoding runtime.codecs.classes document) ≡ true
        → encode document ≡ none
        → Rejected (failed (codes "malformed_xml"))
    large :
        (encoded : Text)
        → IsEncoded encoded
        → config.max_bytes < length encoded
        → Rejected (failed (codes "max_bytes"))
    declared :
        (encoded : Text)
        → IsEncoded encoded
        → length encoded ≤ config.max_bytes
        → has_declaration runtime.django document template_source ≡ true
        → Rejected (failed (codes "forbidden_declaration"))
    costly :
        (encoded : Text)
        → IsEncoded encoded
        → length encoded ≤ config.max_bytes
        → has_declaration runtime.django document template_source ≡ false
        → template_source ≡ true
        → max_unclosed_cost < exact_cost document
        → Rejected (failed (codes "max_unclosed"))

  -- The verdict of the guard, as a relation between the document and its result.
  abbrev pub Verdict : Result Text → Type 0
  Verdict (ok encoded) = Accepted encoded
  Verdict (err e) = Rejected e

-- The last of the checks, on template source only.
costs :
    (document : Text) (template_source : Bool)
    → (template_source && unclosed_cost_exceeds document max_unclosed_cost)
      ≡ (template_source && ltb max_unclosed_cost (exact_cost document))
costs document template_source =
    ap (λ b. template_source && b) (unclosed_cost_exceeds-exact document max_unclosed_cost)

and-costly :
    (template_source : Bool) (cost limit : ℕ)
    → (template_source && ltb limit cost) ≡ true
    → (template_source ≡ true) × (limit < cost)
and-costly true cost limit h = (refl, ltb→lt limit cost h)
and-costly false cost limit h = cc

and-cheap :
    (template_source : Bool) (cost limit : ℕ)
    → (template_source && ltb limit cost) ≡ false
    → template_source ≡ true
    → cost ≤ limit
and-cheap true cost limit h e = ltb→le limit cost h
and-cheap false cost limit h e = cc

module _ (runtime : Runtime) (config : ValidationSettings) (document : Text)
    (template_source : Bool) where
  abbrev Judged : Result Text → Type 0
  Judged = Verdict runtime config document template_source

  module _ (encoded : Text)
      (is_encoded : IsEncoded runtime config document template_source encoded) where
    by_cost :
        (costly' : Bool)
        → (template_source && ltb max_unclosed_cost (exact_cost document)) ≡ costly'
        → length encoded ≤ config.max_bytes
        → has_declaration runtime.django document template_source ≡ false
        → Judged (fail_if costly' (codes "max_unclosed") (ok encoded))
    by_cost true e small plain =
        let (source, much) = and-costly template_source _ max_unclosed_cost e in
        Rejected.costly encoded is_encoded small plain source much
    by_cost false e small plain = record {
      is_encoded = is_encoded;
      small = small;
      plain = plain;
      cheap = and-cheap template_source _ max_unclosed_cost e;
    }

    by_declaration :
        (declared' : Bool)
        → has_declaration runtime.django document template_source ≡ declared'
        → length encoded ≤ config.max_bytes
        → Judged (
            fail_if declared' (codes "forbidden_declaration") (
              fail_if
                (template_source && ltb max_unclosed_cost (exact_cost document))
                (codes "max_unclosed")
                (ok encoded)))
    by_declaration true e small = Rejected.declared encoded is_encoded small e
    by_declaration false e small = by_cost _ refl small e

    by_size : Judged (guard_encoded runtime config document template_source encoded)
    unfolding guard_encoded
    by_size =
        rw
          (
            contains-has_declaration runtime.django document template_source,
            costs document template_source,
          )
          (elim (Bool-cases (ltb config.max_bytes (length encoded))) [
            | inl e ↦ rw e (Rejected.large encoded is_encoded (ltb→lt _ _ e))
            | inr e ↦ rw e (by_declaration _ refl (ltb→le _ _ e))
          ])

  by_bytes :
      (bytes : Option Text)
      → encode document ≡ bytes
      → encoding_allowed runtime.codecs (declared_encoding runtime.codecs.classes document) ≡ true
      → Judged (guard_result runtime config document template_source (encoded_or_error bytes))
  by_bytes none e allowed = Rejected.surrogate allowed e
  by_bytes (some encoded) e allowed = by_size encoded (record { utf8 = allowed; bytes = e })

  by_encoding :
      (allowed : Bool)
      → encoding_allowed runtime.codecs (declared_encoding runtime.codecs.classes document)
        ≡ allowed
      → Judged (
          guard_result runtime config document template_source (
            if allowed
            then encoded_or_error (encode document)
            else err (failed (codes "invalid_encoding"))))
  by_encoding true e = by_bytes (encode document) refl e
  by_encoding false e = Rejected.foreign e

-- The guard accepts a document with its bytes only if `encoding_allowed` admits the encoding it names,
-- it is not above MAX_BYTES, `has_declaration` finds none and, for template source, the reference sum
-- of its unclosed openers is within the limit. Every failure has the code of the first of these
-- checks that the document does not pass.
pub guard_document-Verdict :
    (runtime : Runtime) (config : ValidationSettings) (document : Text) (template_source : Bool)
    → Verdict runtime config document template_source
        (guard_document runtime config document template_source)
unfolding guard_document encode_utf8
guard_document-Verdict runtime config document template_source =
    by_encoding runtime config document template_source _ refl

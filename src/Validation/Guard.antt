-- ===== src/Validation/Guard.antt =====
-- validation.py, `_guard_document`, `validate_template_source` and `_rendered_hxml_text`: the checks
-- on the text of a document, in their order.
pub mod Order
use dj_hyperview.Prelude.{
  ℕ, ◌+◌, ◌≤◌, ◌<◌, ◌≡◌, refl, ◌↔◌, Bool, true, false, ◌&&◌, ◌||◌, Option, none, some, [], ◌∷◌,
  arith, ltb, leb, ltb→lt, ltb→le, ◌==◌, if◌then◌else◌, length, Text, codes, Bool-cases, inl, inr,
}
use dj_hyperview.Errors.{Error, template_validation, Result, ok, err}
use dj_hyperview.Lexer.{unclosed_cost_exceeds}
use dj_hyperview.Lexer.Cost.{exact_cost, unclosed_cost_exceeds-exact}
use dj_hyperview.Validation.Encoding.{Codecs, encode_utf8, encode, failed}
use dj_hyperview.Validation.Declarations.{Django, contains_forbidden_declaration}

pub record ValidationSettings : Type 0 where
  pub max_bytes : ℕ
  pub max_depth : ℕ
  pub max_nodes : ℕ

pub record Runtime : Type 0 where
  pub codecs : Codecs
  pub django : Django

abbrev pub max_unclosed_cost : ℕ
max_unclosed_cost = 10000000

-- An `if` that fails, and what comes after it.
abbrev pub fail_if {ℓ} : {A : Type ℓ} → Bool → Text → Result A → Result A
fail_if true code rest = err (failed code)
fail_if false code rest = rest

module _ (runtime : Runtime) (config : ValidationSettings) (document : Text) where
  unfoldable pub guard_encoded : Bool → Text → Result Text
  guard_encoded template_source encoded =
      fail_if (ltb config.max_bytes (length encoded)) (codes "max_bytes") (
        fail_if (contains_forbidden_declaration runtime.django document template_source)
          (codes "forbidden_declaration")
          (fail_if (template_source && unclosed_cost_exceeds document max_unclosed_cost)
            (codes "max_unclosed") (ok encoded)))

  abbrev pub guard_result : Bool → Result Text → Result Text
  guard_result template_source (ok encoded) = guard_encoded template_source encoded
  guard_result template_source (err e) = err e

  unfoldable pub guard_document : Bool → Result Text
  unfolding guard_encoded encode_utf8
  guard_document template_source =
      guard_result template_source (encode_utf8 runtime.codecs document)

  abbrev pub unchanged : Result Text → Result Text
  unchanged (ok encoded) = ok document
  unchanged (err e) = err e

  unfoldable pub validate_template_source : Result Text
  unfolding guard_document
  validate_template_source = unchanged (guard_document true)

-- The four XML whitespace characters.
unfoldable pub is_xml_space : ℕ → Bool
is_xml_space c = c == b' ' || (c == 0x09 || (c == 0x0d || c == 0x0a))

unfoldable pub lstrip : Text → Text
unfolding is_xml_space
lstrip [] = []
lstrip (c ∷ t) = if is_xml_space c then lstrip t else c ∷ t

-- `_rendered_hxml_text`; whether the result is marked safe is not in the model.
unfoldable pub rendered_hxml_text : Text → Text
unfolding lstrip
rendered_hxml_text [] = []
rendered_hxml_text (c ∷ t) = if c == 0xfeff then c ∷ lstrip t else lstrip (c ∷ t)

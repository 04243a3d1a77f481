-- ===== src/Tests/ValidationTests.antt =====
-- Runs of the validation, and its theorems on small documents.
use dj_hyperview.Prelude.{
  ℕ, ◌≡◌, ◌≢◌, ◌↔◌, ◌≤◌, refl, true, false, ◌&&◌, ◌||◌, none, some, [], ◌∷◌, Text, codes,
  starts_with, text_eq, eq_of_eqb,
}
use dj_hyperview.Errors.{ok}
use dj_hyperview.Lexer.{
  tokenize, tag_spans, scan, search_from, opener_at, forward_find, find_from, remember,
}
use dj_hyperview.Validation.Declarations.{
  contains_forbidden_declaration, template_literal_text, occurs, doctype, entity, block_at,
  is_forbidden,
}
use dj_hyperview.Validation.Declarations.Reference.{declares}
use dj_hyperview.Validation.Declarations.Scan.{contains_forbidden_declaration-declares}
use dj_hyperview.Validation.Encoding.{declared_encoding, is_utf8_encoding_name}
use dj_hyperview.Validation.Limits.{Nodes, node, leaf, branch, check_limits}
use dj_hyperview.Validation.Limits.Bounds.{size_all, FitsAll, check_limits-ok}
use dj_hyperview.Validation.Namespaces.{start_ns, end_ns, check_namespace_scope}
use dj_hyperview.Validation.Namespaces.Scope.{scoped, check_namespace_scope-scoped}
use dj_hyperview.Validation.Hxml.{ValidatedHxml, validate_hxml_result, is_current_hxml_result}
use dj_hyperview.Validation.Hxml.Accepts.{IsValidated, validate_hxml_result-ok}
use dj_hyperview.Validation.Hxml.Handoff.{is_current_hxml_result-IsValidated}
use dj_hyperview.Tests.Documents.{create_token, django, runtime, config, page, schemas}

abbrev in_comment : Text
in_comment = codes "<!-- <!DOCTYPE -->"

contains_forbidden_declaration-declares_example :
    (contains_forbidden_declaration django in_comment false ≡ declares 0 none in_comment)
    × (contains_forbidden_declaration django in_comment true ≡ (
        (occurs doctype in_comment || occurs entity in_comment)
        && declares 0 none (template_literal_text django in_comment)))
contains_forbidden_declaration-declares_example =
    contains_forbidden_declaration-declares django in_comment

abbrev tree : Nodes
tree = branch (node true 2 (branch (node false 0 leaf) leaf)) leaf

check_limits-ok_example :
    (check_limits config tree ≢ none)
    × ((check_limits config tree ≡ some (ok tt)) ↔ ((size_all tree ≤ 4) × FitsAll 3 1 tree))
check_limits-ok_example = check_limits-ok config tree

check_namespace_scope-scoped_example :
    check_namespace_scope (start_ns (codes "hv") ∷ end_ns ∷ [])
    ≡ scoped [] (start_ns (codes "hv") ∷ end_ns ∷ [])
check_namespace_scope-scoped_example =
    check_namespace_scope-scoped (start_ns (codes "hv") ∷ end_ns ∷ [])

abbrev result : ValidatedHxml ℕ
result = record {
  text = page;
  content = page;
  contract = record { identity = 7; limits = config; fragment = true };
}

accepted : (validate_hxml_result schemas runtime config true page 7).0 ≡ ok result
unfolding validate_hxml_result contains_forbidden_declaration starts_with check_limits
    check_namespace_scope text_eq
accepted = refl

validate_hxml_result-ok_example : IsValidated schemas runtime config true page 7 result
validate_hxml_result-ok_example =
    validate_hxml_result-ok schemas runtime config true page 7 result accepted

current : (is_current_hxml_result schemas result config true 7).0 ≡ true
unfolding is_current_hxml_result
current = refl

is_current_hxml_result-IsValidated_example :
    IsValidated schemas runtime config true page 7 result × (◌≡◌ {A = ℕ} 7 7)
is_current_hxml_result-IsValidated_example =
    is_current_hxml_result-IsValidated schemas eq_of_eqb runtime config config true true page 7 7
      result accepted current

-- A validated fragment is not current where a document is asked for.
not_current : (is_current_hxml_result schemas result config false 7).0 ≡ false
unfolding is_current_hxml_result
not_current = refl

-- The encoding of a declaration, and a spelling of UTF-8.
encoding_read :
    declared_encoding runtime.codecs.classes (codes "<?XML version='1' encoding = \"UTF-8\"?>")
    ≡ some (codes "UTF-8")
unfolding declared_encoding
encoding_read = refl

utf8_spelled : is_utf8_encoding_name runtime.codecs.aliases (codes "Utf--8") ≡ true
unfolding is_utf8_encoding_name text_eq
utf8_spelled = refl

-- Template source that spells a declaration only in the text that Django renders.
abbrev split_source : Text
split_source = codes "<!DOC{# #}TYPE x>"

split_source_passes :
    (contains_forbidden_declaration django split_source true ≡ false)
    × (declares 0 none (template_literal_text django split_source) ≡ true)
unfolding contains_forbidden_declaration declares template_literal_text text_eq starts_with tokenize
    occurs create_token tag_spans scan search_from opener_at forward_find find_from remember
    block_at is_forbidden
split_source_passes = (refl, refl)

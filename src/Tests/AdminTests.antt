-- ===== src/Tests/AdminTests.antt =====
-- The scan of a template in the admin: the XML around a tag, a masked document, and the theorems.
use dj_hyperview.Prelude.{
  ℕ, ◌≤◌, ◌≡◌, refl, Bool, true, false, Option, none, some, [], ◌-◌, ◌==◌, arith, if◌then◌else◌,
  take, drop, length, Text, codes, count, starts_with, text_eq,
}
use dj_hyperview.Lexer.{
  newline, find_from, tokenize, tag_spans, scan, search_from, opener_at, forward_find, remember,
}
use dj_hyperview.Admin.Scanner.{
  outside, in_tag, inside, double_quoted, advance_xml_state, blank, blank_preserving_lines,
}
use dj_hyperview.Admin.Scanner.Reads.{read, advance_xml_state-read}
use dj_hyperview.Validation.Encoding.{Classes}
use dj_hyperview.Validation.Declarations.{first_word}
use dj_hyperview.Admin.Mask.{text_kind, variable_kind, block_kind, skipped}
use dj_hyperview.Admin.Mask.Loop.{Markers, marker_of, scan_tokens}
use dj_hyperview.Admin.Mask.Loop.Rounds.{Fits}
use dj_hyperview.Admin.Declarations.{blank_xml_declarations}
use dj_hyperview.Admin.Template.{Create, Scanned, template_scan, scan_template}
use dj_hyperview.Admin.Template.Lines.{Sound, scan_template-Sound}

in_attribute : advance_xml_state outside (codes "<!-- a -->b<text style=\"") ≡ inside double_quoted
unfolding advance_xml_state find_from starts_with
in_attribute = refl

quoted_bracket : advance_xml_state in_tag (codes " a='>' b>c") ≡ outside
unfolding advance_xml_state find_from starts_with
quoted_bracket = refl

lines_kept : blank_preserving_lines (codes "a\nbc") (codes "M") ≡ codes "M \n  "
unfolding blank
lines_kept = refl

advance_xml_state-read_example :
    advance_xml_state outside (codes "<!-- a -->b<text style=\"")
    ≡ read 0 outside (codes "<!-- a -->b<text style=\"")
advance_xml_state-read_example = advance_xml_state-read outside (codes "<!-- a -->b<text style=\"")

-- An attribute with a variable, and a tag on the next line.
abbrev source : Text
source = codes "<a b='{{ c }}'/>\n{% if d %}"

-- A tag holds what stands between its delimiters and a space.
unfoldable create : Create
unfolding starts_with
create verbatim t =
    let contents = take (length t.text - 6) (drop 3 t.text) in
    if t.in_tag
    then (if starts_with (codes "{{") t.text
        then ((variable_kind, contents), none)
        else ((block_kind, contents), none))
    else ((text_kind, t.text), none)

abbrev markers : Markers
markers = record { value_marker = codes "V0"; structure_marker = codes "S0" }

abbrev classes : Classes
classes = record { is_space = λ c. c == b' '; is_word = λ c. false }

abbrev document_of : Scanned → Text
document_of (template_scan masked s) = masked
document_of _ = []

abbrev structure_of : Scanned → Option ℕ
structure_of (template_scan masked s) = s.first_structure_line
structure_of _ = none

masked_source :
    document_of (scan_template classes markers create 20 source)
    ≡ codes "<a b='V0       '/>\nS0          "
unfolding scan_template scan_tokens skipped text_eq advance_xml_state find_from starts_with
    first_word blank_xml_declarations blank tokenize tag_spans scan search_from opener_at
    forward_find remember create
masked_source = refl

structure_on_second_line : structure_of (scan_template classes markers create 20 source) ≡ some 2
unfolding scan_template scan_tokens skipped text_eq advance_xml_state find_from starts_with
    first_word tokenize tag_spans scan search_from opener_at forward_find remember create count
structure_on_second_line = refl

short_markers : Fits markers 2
unfolding count
short_markers = record { short = short; one_line = one_line }
  where
    short : (b : Bool) → length (marker_of markers b) ≤ 2
    short true = omega arith
    short false = omega arith

    one_line : (b : Bool) → count newline (marker_of markers b) ≡ 0
    one_line true = refl
    one_line false = refl

scan_template-Sound_example : Sound 2 20 source (scan_template classes markers create 20 source)
scan_template-Sound_example = scan_template-Sound classes markers create 2 20 source short_markers

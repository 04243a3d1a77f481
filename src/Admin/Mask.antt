-- ===== src/Admin/Mask.antt =====
-- contrib/database/admin_validation.py, the loop of `_scan_template`: the text that masks the Django
-- syntax of a source. The tokens are those of Django, whose `create_token` is a parameter; the two
-- markers, which `_unused_marker` makes, are arguments, and None stands for `_MaskTooLarge`.
pub mod Loop
use dj_hyperview.Prelude.{
  ℕ, zero, suc, ◌-◌, Bool, true, false, not, ◌&&◌, ◌||◌, Option, none, some, List, [], ◌∷◌, ◌++◌,
  ◌==◌, if◌then◌else◌, leb, length, take, drop, Text, codes, starts_with, text_eq,
}
use dj_hyperview.Lexer.{slice}
use dj_hyperview.Validation.Declarations.{first_word, comment_name, endcomment_name}
use dj_hyperview.Validation.Encoding.{Classes}
use dj_hyperview.Admin.Scanner.{
  XmlState, outside, in_tag, inside, double_quoted, single_quoted, comment, cdata, instruction,
  advance_xml_state, blank_preserving_lines,
}

pub data Kind : Type 0 where
  text_kind variable_kind block_kind comment_kind : Kind

abbrev pub is_text : Kind → Bool
is_text text_kind = true
is_text _ = false

abbrev pub is_block : Kind → Bool
is_block block_kind = true
is_block _ = false

-- A token of Django: its type, its contents, its `position` and its line.
pub record Syntax : Type 0 where
  pub kind : Kind
  pub contents : Text
  pub start : ℕ
  pub finish : ℕ
  pub lineno : ℕ

-- The values of `_CONTEXT`.
pub data Context : Type 0 where
  text_context tag_context attribute_context : Context

abbrev pub context_of : XmlState → Context
context_of outside = text_context
context_of in_tag = tag_context
context_of (inside double_quoted) = attribute_context
context_of (inside single_quoted) = attribute_context
context_of (inside comment) = text_context
context_of (inside cdata) = text_context
context_of (inside instruction) = text_context

-- `command in _SCALAR_TAGS`
abbrev pub member : Text → List Text → Bool
member t [] = false
member t (x ∷ xs) = text_eq t x || member t xs

abbrev pub scalar_tags : List Text
scalar_tags =
    codes "blocktranslate"
    ∷ codes "endblocktranslate"
    ∷ codes "firstof"
    ∷ codes "now"
    ∷ codes "static"
    ∷ codes "trans"
    ∷ codes "translate"
    ∷ codes "url"
    ∷ codes "widthratio"
    ∷ []

-- The variables of the loop that a round changes, but for `index`.
pub record Scan : Type 0 where
  pub parts : Text
  pub contexts : List (ℕ × Context)
  pub first_structure_line : Option ℕ
  pub verbatim_line : Option ℕ
  pub state : XmlState
  pub room : ℕ

-- What one block tag hides: the source up to `stop`, and the tokens behind that.
pub record Skip : Type 0 where
  pub stop : ℕ
  pub verbatim : Bool
  pub rest : List Syntax

abbrev pub ends_comment : Syntax → Bool
ends_comment t = is_block t.kind && text_eq t.contents endcomment_name

-- The first `{% endcomment %}` of the tokens that are left.
unfoldable pub comment_skip : List Syntax → Option Skip
comment_skip [] = none
comment_skip (t ∷ tokens) =
    if ends_comment t
    then some (record { stop = t.finish; verbatim = false; rest = tokens })
    else comment_skip tokens

-- The first token that is no text, or the end of a source of `size` characters.
unfoldable pub verbatim_skip : ℕ → List Syntax → Skip
verbatim_skip size [] = record { stop = size; verbatim = true; rest = [] }
verbatim_skip size (t ∷ tokens) =
    if is_text t.kind
    then verbatim_skip size tokens
    else record { stop = t.finish; verbatim = true; rest = tokens }

-- `token.contents[:9] in {"verbatim", "verbatim "}`
abbrev pub is_verbatim : Text → Bool
is_verbatim contents =
    let head = take 9 contents in
    text_eq head (codes "verbatim") || text_eq head (codes "verbatim ")

-- `value or other`, of lines.
abbrev pub or_line : Option ℕ → ℕ → Option ℕ
or_line none other = some other
or_line (some zero) other = some other
or_line (some (suc n)) other = some (suc n)

-- The tests of the loop, over the classes of characters of `re` and `str.split`.
module _ (classes : Classes) where
  abbrev pub command_of : Syntax → Text
  command_of t = if is_block t.kind then first_word classes.is_space t.contents else []

  -- `_SAFE_FILTER`, behind its bar.
  unfoldable pub safe_at : Text → Bool
  safe_at [] = false
  safe_at (c ∷ t) =
      if classes.is_space c
      then safe_at t
      else ends_word (starts_with (codes "safe") (c ∷ t)) (drop 4 (c ∷ t))
    where
      ends_word : Bool → Text → Bool
      ends_word false t = false
      ends_word true [] = true
      ends_word true (c ∷ t) = not (classes.is_word c)

  unfoldable pub has_safe_filter : Text → Bool
  unfolding safe_at
  has_safe_filter [] = false
  has_safe_filter (c ∷ t) = (c == b'|' && safe_at t) || has_safe_filter t

  abbrev pub is_structure : Syntax → Context → Bool
  is_structure t context = by_kind t.kind context
    where
      by_kind : Kind → Context → Bool
      by_kind variable_kind tag_context = true
      by_kind variable_kind text_context = has_safe_filter t.contents
      by_kind variable_kind attribute_context = false
      by_kind _ attribute_context = false
      by_kind _ _ = not (member (command_of t) scalar_tags)

  unfoldable pub skipped : ℕ → Syntax → List Syntax → Option Skip
  unfolding comment_skip verbatim_skip
  skipped size t rest =
      if is_block t.kind
      then (if text_eq (command_of t) comment_name
          then comment_skip rest
          else if is_verbatim t.contents
          then some (verbatim_skip size rest)
          else none)
      else none

  -- `token.token_type is TokenType.COMMENT or command == "load"`
  abbrev pub is_silent : Syntax → Bool
  is_silent t = is_comment t.kind || text_eq (command_of t) (codes "load")
    where
      is_comment : Kind → Bool
      is_comment comment_kind = true
      is_comment _ = false

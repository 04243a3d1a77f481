-- ===== src/Validation/Declarations.antt =====
-- validation.py, `_contains_forbidden_declaration` and `_template_literal_text`: the scan of a
-- document for DTD and entity declarations outside comments, CDATA sections and instructions.
pub mod Reference
pub mod Markers
pub mod Scan
use dj_hyperview.Prelude.{
  ℕ, zero, suc, ◌+◌, Bool, true, false, ◌&&◌, ◌||◌, not, Option, none, some, List, [], ◌∷◌, ◌++◌,
  ltb, length, drop, if◌then◌else◌, Text, codes, starts_with, text_eq,
}
use dj_hyperview.Lexer.{find_from, Positions, forward_find, or_else, Token, tokenize}

pub record Block : Type 0 where
  pub opening : Text
  pub closing : Text

-- `IGNORED_BLOCKS`
abbrev pub comment_block : Block
comment_block = record { opening = codes "<!--"; closing = codes "-->" }

abbrev pub cdata_block : Block
cdata_block = record { opening = codes "<![CDATA["; closing = codes "]]>" }

abbrev pub instruction_block : Block
instruction_block = record { opening = codes "<?"; closing = codes "?>" }

-- The first of the ignored blocks whose opening stands at the head of a text.
unfoldable pub block_at : Text → Option Block
block_at t =
    if starts_with comment_block.opening t
    then some comment_block
    else if starts_with cdata_block.opening t
    then some cdata_block
    else if starts_with instruction_block.opening t
    then some instruction_block
    else none

abbrev pub doctype : Text
doctype = codes "<!DOCTYPE"

abbrev pub entity : Text
entity = codes "<!ENTITY"

unfoldable pub is_forbidden : Text → Bool
is_forbidden t = starts_with doctype t || starts_with entity t

-- `_XML_CANDIDATE` at the head of a text.
unfoldable pub is_candidate : Text → Bool
is_candidate t = starts_with (codes "<!") t || starts_with (codes "<?") t

-- `_XML_CANDIDATE.search`, from position `p` at which the text `t` stands.
unfoldable pub candidate_from : ℕ → Text → Option ℕ
candidate_from p [] = none
candidate_from p (c ∷ r) = if is_candidate (c ∷ r) then some p else candidate_from (p + 1) r

abbrev pub candidate : Text → ℕ → Option ℕ
candidate s p = candidate_from p (drop p s)

-- `len(document) if end < 0 else end + len(closing)`
abbrev pub after_block : Text → Text → Option ℕ → ℕ
after_block s closing none = length s
after_block s closing (some end) = end + length closing

-- The loop of the scan, on fuel. Every round moves `index` on.
unfoldable pub declaration_loop : ℕ → Text → Positions → ℕ → Bool
declaration_loop zero s memo index = false
declaration_loop (suc fuel) s memo index = elim (ltb index (length s)) [
  | false ↦ false
  | true ↦ elim (block_at (drop index s)) [
    | some block ↦
        let (end, memo₁) = forward_find s memo block.closing (index + length block.opening) in
        declaration_loop fuel s memo₁ (after_block s block.closing end)
    | none ↦ elim (is_forbidden (drop index s)) [
      | true ↦ true
      | false ↦ declaration_loop fuel s memo (or_else (candidate s (index + 1)) (length s))
    ]
  ]
]

-- `marker in text`
unfoldable pub occurs : Text → Text → Bool
occurs marker [] = starts_with marker []
occurs marker (c ∷ r) = starts_with marker (c ∷ r) || occurs marker r

unfoldable pub scan_declarations : Text → Bool
unfolding declaration_loop
scan_declarations s = declaration_loop (length s + 1) s (λ _. none) 0

-- What `create_token` of Django's lexer makes of a piece of text: the types that count here. The
-- contents of a block tag are stripped, and a tag inside a verbatim body is text.
pub data TokenType : Type 0 where
  text_token : TokenType
  block_token : Text → TokenType
  other_token : TokenType

module _ (is_space : ℕ → Bool) where
  -- `token.contents.split(maxsplit=1)[:1]`, over the whitespace that `str.split` knows; no word is [].
  unfoldable pub word_from : Text → Text
  word_from [] = []
  word_from (c ∷ r) = if is_space c then [] else c ∷ word_from r

  unfoldable pub first_word : Text → Text
  unfolding word_from
  first_word [] = []
  first_word (c ∷ r) = if is_space c then first_word r else c ∷ word_from r

abbrev pub comment_name : Text
comment_name = codes "comment"

abbrev pub endcomment_name : Text
endcomment_name = codes "endcomment"

module _ (is_space : ℕ → Bool) where
  unfoldable pub opens_comment : TokenType → Bool
  unfolding first_word
  opens_comment (block_token contents) = text_eq (first_word is_space contents) comment_name
  opens_comment _ = false

abbrev pub closes_comment : TokenType → Bool
closes_comment (block_token contents) = text_eq contents endcomment_name
closes_comment _ = false

abbrev pub is_text : TokenType → Bool
is_text text_token = true
is_text _ = false

-- The two loops of `_template_literal_text`: `true` while the inner one skips a comment.
unfoldable pub literal_parts : (ℕ → Bool) → Bool → List (TokenType × Text) → Text
unfolding opens_comment
literal_parts is_space skipping [] = []
literal_parts is_space true ((kind, contents) ∷ tokens) =
    literal_parts is_space (not (closes_comment kind)) tokens
literal_parts is_space false ((kind, contents) ∷ tokens) =
    let rest = literal_parts is_space (opens_comment is_space kind) tokens in
    if is_text kind then contents ++ rest else rest

-- What the scan relies on of Django and of `str`: the tokens that `create_token` makes of the
-- pieces of the linear lexer, in order, and the whitespace.
pub record Django : Type 0 where
  pub is_space : ℕ → Bool
  pub create_tokens : List Token → List (TokenType × Text)

unfoldable pub template_literal_text : Django → Text → Text
unfolding literal_parts
template_literal_text django source =
    literal_parts django.is_space false (django.create_tokens (tokenize source))

unfoldable pub contains_forbidden_declaration : Django → Text → Bool → Bool
unfolding occurs scan_declarations template_literal_text
contains_forbidden_declaration django document template_source =
    if occurs doctype document || occurs entity document
    then scan_declarations
        (if template_source then template_literal_text django document else document)
    else false

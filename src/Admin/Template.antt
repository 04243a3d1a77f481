-- ===== src/Admin/Template.antt =====
-- contrib/database/admin_validation.py, `_scan_template`, with the size that a document may take.
pub mod Tokens
pub mod Lines
use dj_hyperview.Prelude.{
  ℕ, ◌*◌, ◌-◌, Option, none, some, List, [], ◌∷◌, if◌then◌else◌, ltb, length, Text,
}
use dj_hyperview.Lexer.{Token, tokenize}
use dj_hyperview.Validation.Encoding.{Classes, encode}
use dj_hyperview.Admin.Mask.{Kind, Syntax, Scan}
use dj_hyperview.Admin.Mask.Loop.{Markers, scan_tokens}
use dj_hyperview.Admin.Declarations.{blank_xml_declarations}

-- `_MASK_FACTOR`
abbrev pub mask_factor : ℕ
mask_factor = 4

-- A scan with its masked text, `_MaskTooLarge`, or the error of `str.encode`.
pub data Scanned : Type 0 where
  template_scan : Text → Scan → Scanned
  mask_too_large unicode_error : Scanned

-- `create_token` of Django's lexer: the type and the contents of a piece, inside a verbatim block or
-- not, and the block behind it.
abbrev pub Create : Type 0
Create = Option Text → Token → (Kind × Text) × Option Text

-- The tokens of the pieces, in order, with their positions and lines.
unfoldable pub create_tokens : Create → Option Text → List Token → List Syntax
create_tokens create verbatim [] = []
create_tokens create verbatim (t ∷ tokens) =
    let made = create verbatim t in
    record {
      kind = made.0.0;
      contents = made.0.1;
      start = t.begin;
      finish = t.finish;
      lineno = t.lineno;
    }
    ∷ create_tokens create made.1 tokens

module _ (classes : Classes) (markers : Markers) where
  abbrev pub finished : Option Scan → Scanned
  finished none = mask_too_large
  finished (some s) = template_scan (blank_xml_declarations classes.is_space s.parts) s

  -- The scan of a source with the tokens that Django's lexer makes of it.
  abbrev pub in_room : ℕ → Text → List Syntax → Option Text → Scanned
  in_room max_bytes content tokens none = unicode_error
  in_room max_bytes content tokens (some bytes) =
      let room = mask_factor * max_bytes in
      if ltb room (length bytes)
      then mask_too_large
      else finished (scan_tokens classes markers content (room - length bytes) tokens)

  unfoldable pub scan_template : Create → ℕ → Text → Scanned
  unfolding encode create_tokens
  scan_template create max_bytes content =
      in_room max_bytes content (create_tokens create none (tokenize content)) (encode content)

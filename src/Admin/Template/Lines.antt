-- ===== src/Admin/Template/Lines.antt =====
-- `_scan_template`: the lines of the masked document, and its size.
use dj_hyperview.Prelude.{
  ℕ, suc, ◌+◌, ◌*◌, ◌-◌, ◌≤◌, ◌<◌, ◌≡◌, refl, ◌∙◌, Option, none, some, List, [], ◌∷◌, arith, ltb,
  length, length-append, Text, count, Bool-cases, inl, inr, ltb→lt,
}
use mathlib.Core.Path.{subst}
use dj_hyperview.Lexer.{newline, tokenize}
use dj_hyperview.Validation.Encoding.{Classes, encode_char, append_bytes, encode}
use dj_hyperview.Admin.Mask.{Syntax, Scan}
use dj_hyperview.Admin.Mask.Loop.{Markers, scan_tokens}
use dj_hyperview.Admin.Mask.Loop.Rounds.{Fits}
use dj_hyperview.Admin.Mask.Loop.Lines.{Preserves, scan_tokens-Preserves}
use dj_hyperview.Admin.Declarations.Lines.{blank_xml_declarations-Alike}
use dj_hyperview.Admin.Template.Tokens.{tokenize-Tiles, length-create_tokens}
use dj_hyperview.Admin.Template.{
  Create, create_tokens, mask_factor, Scanned, template_scan, mask_too_large, unicode_error,
  finished, in_room, scan_template,
}

-- The bytes of a text are at least its characters.
abbrev Bytes : ℕ → Option Text → Type 0
Bytes n none = Unit
Bytes n (some bytes) = n ≤ length bytes

encode_char-Bytes : (c : ℕ) → Bytes 1 (encode_char c)
unfolding encode_char
encode_char-Bytes c = ground arith

encode-Bytes : (t : Text) → Bytes (length t) (encode t)
unfolding encode
encode-Bytes [] = omega arith
encode-Bytes (c ∷ t) = together (encode_char c) (encode t) (encode_char-Bytes c) (encode-Bytes t)
  where
    together :
        (a b : Option Text)
        → Bytes 1 a
        → Bytes (length t) b
        → Bytes (suc (length t)) (append_bytes a b)
    together none b h k = tt
    together (some x) none h k = tt
    together (some x) (some y) h k = rw (length-append x y) (omega arith)

module _ (width max_bytes : ℕ) (content : Text) where
  -- What a scan says of its source.
  abbrev pub Sound : Scanned → Type 0
  Sound (template_scan masked s) =
      (count newline masked ≡ count newline content) × (length masked ≤ mask_factor * max_bytes)
  Sound mask_too_large =
      (bytes : Text) × (encode content ≡ some bytes)
      × (mask_factor * max_bytes < length bytes + length (tokenize content) * width)
  Sound unicode_error = encode content ≡ none

-- Markers of one line, of `width` characters at most: the masked document has as many lines as the
-- source, and no more characters than four times the limit on the bytes of a source. The scan gives
-- up only if the bytes of the source and one marker for each token would not fit into that, or if the
-- source has no bytes.
pub scan_template-Sound :
    (classes : Classes) (markers : Markers) (create : Create) (width max_bytes : ℕ) (content : Text)
    → Fits markers width
    → Sound width max_bytes content (scan_template classes markers create max_bytes content)
unfolding scan_template
scan_template-Sound classes markers create width max_bytes content fits =
    by_bytes (encode content) refl (encode-Bytes content)
  where
    tokens : List Syntax
    tokens = create_tokens create none (tokenize content)

    by_scan :
        (bytes : Text)
        → encode content ≡ some bytes
        → length content ≤ length bytes
        → length bytes ≤ mask_factor * max_bytes
        → (a : Option Scan)
        → Preserves classes markers content width
            (mask_factor * max_bytes - length bytes)
            (length (tokenize content))
            a
        → Sound width max_bytes content (finished classes markers a)
    by_scan bytes e more le none full = (bytes, e, omega arith)
    by_scan bytes e more le (some s) (lines, size) =
        let (same_lines, same_size) = blank_xml_declarations-Alike classes.is_space s.parts in
        (same_lines ∙ lines, omega arith)

    scanned :
        (room : ℕ)
        → Preserves classes markers content width room
            (length (tokenize content))
            (scan_tokens classes markers content room tokens)
    scanned room =
        subst
          (λ n.
            Preserves classes markers content width room n
              (scan_tokens classes markers content room tokens))
          (length-create_tokens create content none (tokenize content))
          (scan_tokens-Preserves classes markers content width room tokens fits
            (tokenize-Tiles create content none))

    by_bytes :
        (a : Option Text)
        → encode content ≡ a
        → Bytes (length content) a
        → Sound width max_bytes content (in_room classes markers max_bytes content tokens a)
    by_bytes none e more = e
    by_bytes (some bytes) e more =
        elim (Bool-cases (ltb (mask_factor * max_bytes) (length bytes))) [
          | inl h ↦ rw (h) (
            bytes,
            e,
            let over = ltb→lt (mask_factor * max_bytes) (length bytes) h in omega arith,
          )
          | inr h ↦ rw (h) (
              by_scan bytes e more (ground arith)
                (scan_tokens classes markers content (mask_factor * max_bytes - length bytes)
                  tokens)
                (scanned (mask_factor * max_bytes - length bytes)))
        ]

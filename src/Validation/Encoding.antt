-- ===== src/Validation/Encoding.antt =====
-- validation.py, `XML_ENCODING`, `_is_utf8_encoding_name` and `_encode_utf8`: the encoding that an
-- XML declaration names, and the bytes of a document. The two character classes of Python's `re`
-- and the table of `encodings.aliases` are parameters.
use Prim.Native.Nat.{◌/◌, ◌%◌}
use dj_hyperview.Prelude.{
  ℕ, ◌+◌, Bool, true, false, not, ◌&&◌, ◌||◌, Option, none, some, [], ◌∷◌, ◌++◌, ltb, leb, ◌==◌,
  if◌then◌else◌, length, Text, codes, text_eq,
}
use dj_hyperview.Errors.{Error, template_validation, Result, ok, err}

-- `\s` and `\w` of a Unicode pattern.
pub record Classes : Type 0 where
  pub is_space : ℕ → Bool
  pub is_word : ℕ → Bool

-- A letter of the pattern under IGNORECASE: `i` also matches the two Turkish letters.
unfoldable pub letter_eq : ℕ → ℕ → Bool
letter_eq c d = c == d || (c + 0x20 == d && leb b'a' d || d == b'i' && (c == 0x130 || c == 0x131))

-- What follows a word of the pattern, if the text starts with that word.
unfoldable pub after_word : Text → Text → Option Text
unfolding letter_eq
after_word [] t = some t
after_word (d ∷ w) [] = none
after_word (d ∷ w) (c ∷ t) = if letter_eq c d then after_word w t else none

unfoldable pub is_quote : ℕ → Bool
is_quote c = c == b'\'' || c == b'"'

module _ (classes : Classes) where
  unfoldable pub skip_space : Text → Text
  skip_space [] = []
  skip_space (c ∷ t) = if classes.is_space c then skip_space t else c ∷ t

  abbrev pub add_char : ℕ → Option Text → Option Text
  add_char c none = none
  add_char c (some t) = some (c ∷ t)

  -- `([^'"]+)\1`, after the quote.
  unfoldable pub quoted : ℕ → Text → Option Text
  unfolding is_quote
  quoted quote [] = none
  quoted quote (c ∷ t) =
      let rest = quoted quote t in
      if is_quote c then (if c == quote then some [] else none) else add_char c rest

  abbrev pub not_empty : Option Text → Option Text
  not_empty (some (c ∷ t)) = some (c ∷ t)
  not_empty _ = none

  unfoldable pub quoted_name : Text → Option Text
  unfolding quoted
  quoted_name [] = none
  quoted_name (q ∷ t) = if is_quote q then not_empty (quoted q t) else none

  -- `\s*=\s*(['"])([^'"]+)\1`
  unfoldable pub value_after : Text → Option Text
  unfolding skip_space quoted_name
  value_after t = equals (skip_space t)
    where
      equals : Text → Option Text
      equals [] = none
      equals (c ∷ r) = if c == b'=' then quoted_name (skip_space r) else none

  -- `encoding` and its value, at the head of a text.
  unfoldable pub encoding_at : Text → Option Text
  unfolding value_after after_word
  encoding_at t = elim (after_word (codes "encoding") t) [
    | none ↦ none
    | some rest ↦ value_after rest
  ]

  abbrev pub first_some : Option Text → Option Text → Option Text
  first_some (some t) other = some t
  first_some none other = other

  -- `[^>]*\bencoding...`, where `last` is the character before: the greedy run ends as late as it can.
  unfoldable pub last_encoding : ℕ → Text → Option Text
  unfolding encoding_at
  last_encoding last [] = none
  last_encoding last (c ∷ t) =
      let later = last_encoding c t in
      first_some (if c == b'>' then none else later)
        (if classes.is_word last then none else encoding_at (c ∷ t))

  abbrev pub bom : ℕ
  bom = 0xfeff

  unfoldable pub without_bom : Text → Text
  without_bom [] = []
  without_bom (c ∷ t) = if c == bom then t else c ∷ t

  -- `\b`, behind a word character.
  abbrev pub ends_word : Text → Bool
  ends_word [] = true
  ends_word (c ∷ t) = not (classes.is_word c)

  -- `XML_ENCODING.match(document)`, and its second group.
  unfoldable pub declared_encoding : Text → Option Text
  unfolding without_bom last_encoding
  declared_encoding document =
      elim (after_word (codes "<?xml") (skip_space (without_bom document))) [
        | none ↦ none
        | some rest ↦ if ends_word rest then last_encoding b'l' rest else none
      ]

unfoldable pub is_letter : ℕ → Bool
is_letter c = leb b'A' c && leb c b'Z' || leb b'a' c && leb c b'z'

unfoldable pub is_alnum : ℕ → Bool
unfolding is_letter
is_alnum c = is_letter c || leb b'0' c && leb c b'9'

unfoldable pub all_name_chars : Text → Bool
unfolding is_alnum
all_name_chars [] = true
all_name_chars (c ∷ t) = (is_alnum c || (c == b'.' || (c == b'_' || c == b'-'))) && all_name_chars t

-- `_ENCODING_NAME.fullmatch`
unfoldable pub is_encoding_name : Text → Bool
unfolding is_letter all_name_chars
is_encoding_name [] = false
is_encoding_name (c ∷ t) = is_letter c && (leb (length t) 63 && all_name_chars t)

-- `normalize_encoding(name).lower()` of a name in ASCII: `punct` and `started` are the loop's two tests.
unfoldable pub normalized : Bool → Bool → Text → Text
unfolding is_alnum
normalized punct started [] = []
normalized punct started (c ∷ t) =
    let kept = normalized false true t in
    let dropped = normalized true started t in
    let lower : ℕ = if leb b'A' c && leb c b'Z' then c + 0x20 else c in
    if is_alnum c || c == b'.'
    then (if punct && started then b'_' ∷ lower ∷ kept else lower ∷ kept)
    else dropped

-- `key.replace(".", "_")`
unfoldable pub underscored : Text → Text
underscored [] = []
underscored (c ∷ t) = (if c == b'.' then b'_' else c) ∷ underscored t

-- `_CODEC_ALIASES.get`, and `or` on its results: an empty text counts as false.
abbrev pub Aliases : Type 0
Aliases = Text → Option Text

abbrev pub or_text : Option Text → Text → Text
or_text (some (c ∷ t)) other = c ∷ t
or_text _ other = other

unfoldable pub is_utf8_encoding_name : Aliases → Text → Bool
unfolding is_encoding_name normalized underscored
is_utf8_encoding_name aliases name =
    let key = normalized false false name in
    if is_encoding_name name
    then text_eq (or_text (aliases key) (or_text (aliases (underscored key)) key)) (codes "utf_8")
    else false

-- `str.encode()`: a lone surrogate has no bytes.
abbrev pub continuation : ℕ → ℕ
continuation bits = 0x80 + bits % 0x40

unfoldable pub encode_char : ℕ → Option Text
encode_char c =
    if ltb c 0x80
    then some (c ∷ [])
    else if ltb c 0x800
    then some ((0xc0 + c / 0x40) ∷ continuation c ∷ [])
    else if leb 0xd800 c && leb c 0xdfff
    then none
    else if ltb c 0x10000
    then some ((0xe0 + c / 0x1000) ∷ continuation (c / 0x40) ∷ continuation c ∷ [])
    else some (
        (0xf0 + c / 0x40000)
        ∷ continuation (c / 0x1000)
        ∷ continuation (c / 0x40)
        ∷ continuation c
        ∷ [])

abbrev pub append_bytes : Option Text → Option Text → Option Text
append_bytes (some s) (some t) = some (s ++ t)
append_bytes _ _ = none

unfoldable pub encode : Text → Option Text
unfolding encode_char
encode [] = some []
encode (c ∷ t) = append_bytes (encode_char c) (encode t)

abbrev pub failed : Text → Error
failed code = template_validation code

-- The parameters of the checks on the encoding.
pub record Codecs : Type 0 where
  pub classes : Classes
  pub aliases : Aliases

abbrev pub encoding_allowed : Codecs → Option Text → Bool
encoding_allowed codecs none = true
encoding_allowed codecs (some name) = is_utf8_encoding_name codecs.aliases name

abbrev pub encoded_or_error : Option Text → Result Text
encoded_or_error none = err (failed (codes "malformed_xml"))
encoded_or_error (some bytes) = ok bytes

unfoldable pub encode_utf8 : Codecs → Text → Result Text
unfolding declared_encoding is_utf8_encoding_name encode
encode_utf8 codecs document =
    if encoding_allowed codecs (declared_encoding codecs.classes document)
    then encoded_or_error (encode document)
    else err (failed (codes "invalid_encoding"))

-- ===== src/Admin/Scanner.antt =====
-- contrib/database/admin_validation.py, `_advance_xml_state` and `_blank_preserving_lines`: the XML
-- around the tokens of a template. The text from `position` to `end` is given as the text it is.
pub mod Reads
use dj_hyperview.Prelude.{
  ℕ, zero, suc, ◌+◌, Bool, true, false, ◌||◌, Option, none, some, [], ◌∷◌, ◌++◌, ◌==◌,
  if◌then◌else◌, length, drop, Text, codes, starts_with,
}
use dj_hyperview.Lexer.{find_from}

-- The states that `_CLOSER` closes.
pub data Closed : Type 0 where
  double_quoted single_quoted comment cdata instruction : Closed

pub data XmlState : Type 0 where
  outside : XmlState
  in_tag : XmlState
  inside : Closed → XmlState

-- `_CLOSER`
abbrev pub closer : Closed → Text
closer double_quoted = b'"' ∷ []
closer single_quoted = b'\'' ∷ []
closer comment = codes "-->"
closer cdata = codes "]]>"
closer instruction = codes "?>"

-- The state behind a closer: a tag after a quoted value, and text after the others.
abbrev pub after_closer : Closed → XmlState
after_closer double_quoted = in_tag
after_closer single_quoted = in_tag
after_closer comment = outside
after_closer cdata = outside
after_closer instruction = outside

-- `_TAG_DELIMITER` and `_AFTER_DELIMITER`
unfoldable pub is_delimiter : ℕ → Bool
is_delimiter c = c == b'"' || (c == b'\'' || c == b'>')

unfoldable pub after_delimiter : ℕ → XmlState
after_delimiter c =
    if c == b'>' then outside else if c == b'"' then inside double_quoted else inside single_quoted

-- A new state, and how many characters lead to it.
pub record Move : Type 0 where
  pub state : XmlState
  pub width : ℕ

-- What starts at a `<`.
unfoldable pub opened : Text → Move
opened t =
    if starts_with (codes "<!--") t
    then record { state = inside comment; width = 4 }
    else if starts_with (codes "<![CDATA[") t
    then record { state = inside cdata; width = 9 }
    else if starts_with (codes "<?") t
    then record { state = inside instruction; width = 2 }
    else record { state = in_tag; width = 1 }

-- `_TAG_DELIMITER.search`, from position `p` at which the text `t` stands, and the move behind it.
unfoldable pub delimiter_from : ℕ → Text → Option Move
unfolding is_delimiter after_delimiter
delimiter_from p [] = none
delimiter_from p (c ∷ r) =
    if is_delimiter c
    then some (record { state = after_delimiter c; width = p + 1 })
    else delimiter_from (p + 1) r

abbrev pub from_opening : Text → Option ℕ → Option Move
from_opening t none = none
from_opening t (some q) =
    let m = opened (drop q t) in some (record { state = m.state; width = q + m.width })

abbrev pub from_closer : Closed → Option ℕ → Option Move
from_closer c none = none
from_closer c (some q) = some (record { state = after_closer c; width = q + length (closer c) })

-- One round of the loop: where the scanner goes, if it finds something in the text.
unfoldable pub next_move : XmlState → Text → Option Move
unfolding opened delimiter_from
next_move outside t = from_opening t (find_from (b'<' ∷ []) 0 t)
next_move in_tag t = delimiter_from 0 t
next_move (inside c) t = from_closer c (find_from (closer c) 0 t)

-- The loop, on fuel. Every round but the last consumes a character.
unfoldable pub advance : ℕ → XmlState → Text → XmlState
unfolding next_move
advance zero state t = state
advance (suc fuel) state [] = state
advance (suc fuel) state (c ∷ r) = elim (next_move state (c ∷ r)) [
  | none ↦ state
  | some m ↦ advance fuel m.state (drop m.width (c ∷ r))
]

unfoldable pub advance_xml_state : XmlState → Text → XmlState
unfolding advance
advance_xml_state state t = advance (length t) state t

-- `_blank_preserving_lines`
unfoldable pub blank : Text → Text
blank [] = []
blank (c ∷ t) = (if c == 0x0a then c else b' ') ∷ blank t

abbrev pub blank_preserving_lines : Text → Text → Text
blank_preserving_lines value marker = marker ++ blank value

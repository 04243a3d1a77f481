-- ===== src/Admin/Declarations.antt =====
-- contrib/database/admin_validation.py, `_blank_xml_declarations`.
pub mod Lines
use dj_hyperview.Prelude.{
  ℕ, zero, suc, ◌+◌, Bool, true, false, ◌||◌, Option, none, some, [], ◌∷◌, ◌++◌, ◌==◌,
  if◌then◌else◌, length, take, drop, Text, codes,
}
use dj_hyperview.Lexer.{find_from, slice}
use dj_hyperview.Validation.Encoding.{after_word}
use dj_hyperview.Admin.Scanner.{blank}

-- `_XML_DECLARATION`, over `\s`.
module _ (is_space : ℕ → Bool) where
  abbrev pub ends_opener : Option Text → Bool
  ends_opener none = false
  ends_opener (some []) = false
  ends_opener (some (c ∷ t)) = is_space c || c == b'?'

  -- The start of the first opener, from position `p` at which the text stands.
  unfoldable pub opener_from : ℕ → Text → Option ℕ
  unfolding after_word
  opener_from p [] = none
  opener_from p (c ∷ t) =
      if ends_opener (after_word (codes "<?xml") (c ∷ t)) then some p else opener_from (p + 1) t

  -- What the loop makes of the text from `cursor` on, on fuel: every round leaves a shorter text.
  abbrev pub closer_after : Text → ℕ → Option ℕ
  closer_after t start = find_from (codes "?>") (start + 6) (drop (start + 6) t)

  unfoldable pub blank_from : ℕ → Text → Text
  unfolding opener_from find_from
  blank_from zero t = t
  blank_from (suc fuel) t = elim (opener_from 0 t) [
    | none ↦ t
    | some start ↦ elim (closer_after t start) [
      | none ↦ t
      | some closer ↦
          take start t
          ++ (blank (slice t start (closer + 2)) ++ blank_from fuel (drop (closer + 2) t))
    ]
  ]

  unfoldable pub blank_xml_declarations : Text → Text
  unfolding blank_from
  blank_xml_declarations t = blank_from (length t) t

-- ===== src/Admin/Mask/Loop.antt =====
-- contrib/database/admin_validation.py, the loop of `_scan_template`: its rounds.
pub mod Tiles
pub mod Rounds
pub mod Lines
use dj_hyperview.Prelude.{
  ℕ, zero, suc, ◌-◌, Bool, true, false, Option, none, some, List, [], ◌∷◌, ◌++◌, if◌then◌else◌, leb,
  length, Text,
}
use dj_hyperview.Lexer.{slice}
use dj_hyperview.Validation.Encoding.{Classes}
use dj_hyperview.Admin.Scanner.{outside, advance_xml_state, blank, blank_preserving_lines}
use dj_hyperview.Admin.Mask.{
  Syntax, Context, context_of, Scan, Skip, is_text, or_line, is_structure, skipped, is_silent,
}

-- The two markers of a scan.
pub record Markers : Type 0 where
  pub value_marker : Text
  pub structure_marker : Text

abbrev pub marker_of : Markers → Bool → Text
marker_of m true = m.structure_marker
marker_of m false = m.value_marker

-- The line of the first structure, with one more token.
abbrev pub structure_line : Bool → Option ℕ → ℕ → Option ℕ
structure_line true none lineno = some lineno
structure_line true (some n) lineno = some n
structure_line false line lineno = line

abbrev pub verbatim_line : Bool → Option ℕ → ℕ → Option ℕ
verbatim_line true line lineno = or_line line lineno
verbatim_line false line lineno = line

-- What the loop reads and never changes.
module _ (classes : Classes) (markers : Markers) (content : Text) where
  -- A token of literal text.
  abbrev pub literal : Syntax → Scan → Scan
  literal t s =
      let text = slice content t.start t.finish in
      record s { state = advance_xml_state s.state text; parts = s.parts ++ text }

  -- Source that no part of the document comes from, up to `stop`.
  abbrev pub hide : Syntax → ℕ → Scan → Scan
  hide t stop s = record s { parts = s.parts ++ blank (slice content t.start stop) }

  abbrev pub skip : Syntax → Skip → Scan → Scan
  skip t k s = record (hide t k.stop s) {
    verbatim_line = verbatim_line k.verbatim s.verbatim_line t.lineno;
  }

  -- A token that renders output, and its marker.
  abbrev pub marked : Syntax → Bool → Scan → Scan
  marked t structure s =
      let marker = marker_of markers structure in
      record s {
        contexts = s.contexts ++ (t.start, context_of s.state) ∷ [];
        first_structure_line = structure_line structure s.first_structure_line t.lineno;
        room = s.room - length marker;
        parts = s.parts ++ blank_preserving_lines (slice content t.start t.finish) marker;
      }

  abbrev pub masked : Syntax → Bool → Scan → Option Scan
  masked t structure s =
      if leb (length (marker_of markers structure)) s.room
      then some (marked t structure s)
      else none

  -- A round for a token that is no text and skips none.
  unfoldable pub rendered : Syntax → Scan → Option Scan
  rendered t s =
      if is_silent classes t
      then some (hide t t.finish s)
      else masked t (is_structure classes t (context_of s.state)) s

  -- One round: the scan after it, and the tokens that are left.
  abbrev pub with_rest : Option Scan → List Syntax → Option (Scan × List Syntax)
  with_rest none rest = none
  with_rest (some s) rest = some (s, rest)

  abbrev pub after_skip : Syntax → List Syntax → Scan → Option Skip → Option (Scan × List Syntax)
  after_skip t rest s none = with_rest (rendered t s) rest
  after_skip t rest s (some k) = some (skip t k s, k.rest)

  unfoldable pub round : Syntax → List Syntax → Scan → Option (Scan × List Syntax)
  unfolding rendered
  round t rest s =
      if is_text t.kind
      then some (literal t s, rest)
      else after_skip t rest s (skipped classes (length content) t rest)

  -- The loop, on fuel. Every round takes a token.
  unfoldable pub rounds : ℕ → List Syntax → Scan → Option Scan
  unfolding round
  rounds fuel [] s = some s
  rounds zero (t ∷ tokens) s = none
  rounds (suc fuel) (t ∷ tokens) s = elim (round t tokens s) [
    | none ↦ none
    | some (s₁, rest) ↦ rounds fuel rest s₁
  ]

  -- The loop of `_scan_template`, with `room` characters for the markers.
  unfoldable pub scan_tokens : ℕ → List Syntax → Option Scan
  unfolding rounds
  scan_tokens room tokens = rounds (length tokens) tokens (record {
    parts = [];
    contexts = [];
    first_structure_line = none;
    verbatim_line = none;
    state = outside;
    room = room;
  })

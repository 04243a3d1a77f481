-- ===== src/Lexer.antt =====
-- _template_lexer.py: the linear-time scan of Django template source. A text is its list of code
-- points, a position an index into it, and -1 of `str.find` is `none`.
pub mod Find
pub mod Reference
pub mod Scan
pub mod Cost
pub mod Tokens
use dj_hyperview.Prelude.{
  ℕ, zero, suc, ◌+◌, ◌-◌, ◌*◌, max, Bool, true, false, ◌&&◌, ◌||◌, Option, none, some, List, [],
  ◌∷◌, ◌++◌, ltb, leb, count, split, take, ◌==◌, if◌then◌else◌, length, drop, Text, text_eq,
  starts_with,
}

abbrev pub newline : ℕ
newline = 0x0a

-- `_OPENER` at the head of a text, and the first character of the closer `_CLOSER` gives it.
unfoldable pub opener_at : Text → Option ℕ
opener_at (c ∷ d ∷ r) =
    if c == b'{' && (d == b'%' || (d == b'{' || d == b'#'))
    then some (if d == b'{' then b'}' else d)
    else none
opener_at _ = none

abbrev pub closer_of : ℕ → Text
closer_of close = close ∷ b'}' ∷ []

-- `_OPENER.search`, from position `p` at which the text `t` stands.
unfoldable pub search_from : ℕ → Text → Option (ℕ × ℕ)
search_from p [] = none
search_from p (c ∷ r) = elim (opener_at (c ∷ r)) [
  | none ↦ search_from (p + 1) r
  | some close ↦ some (p, close)
]

abbrev pub search : Text → ℕ → Option (ℕ × ℕ)
search s p = search_from p (drop p s)

-- `str.find` of a marker, from position `p` at which the text `t` stands.
unfoldable pub find_from : Text → ℕ → Text → Option ℕ
find_from marker p [] = none
find_from marker p (c ∷ r) =
    if starts_with marker (c ∷ r) then some p else find_from marker (p + 1) r

abbrev pub find : Text → Text → ℕ → Option ℕ
find s marker p = find_from marker p (drop p s)

-- The dictionary `positions` of `_forward_find`.
abbrev pub Positions : Type 0
Positions = Text → Option (Option ℕ)

unfoldable pub remember : Text → Option ℕ → Positions → Positions
remember marker found memo j = if text_eq j marker then some found else memo j

-- A search that the dictionary does not answer.
unfoldable pub search_again : Text → Positions → Text → ℕ → Option ℕ × Positions
search_again s memo marker start =
    let found = find s marker start in (found, remember marker found memo)

-- `find` of `_forward_find`: a previous hit at or after `start`, or a previous miss, is reused.
unfoldable pub forward_find : Text → Positions → Text → ℕ → Option ℕ × Positions
unfolding search_again
forward_find s memo marker start = elim (memo marker) [
  | none ↦ search_again s memo marker start
  | some none ↦ (none, memo)
  | some (some p) ↦ if ltb p start then search_again s memo marker start else (some p, memo)
]

-- What `_scan` yields: the start of the opener, the end of its tag, and the end of its line.
pub record Opener : Type 0 where
  pub start : ℕ
  pub tag_end : Option ℕ
  pub line_end : ℕ

-- `closer >= 0 and (newline < 0 or newline > closer)`, and the end that is then yielded.
abbrev pub end_of_tag : Option ℕ → Option ℕ → Option ℕ
end_of_tag none n = none
end_of_tag (some c) none = some (c + 2)
end_of_tag (some c) (some n) = if ltb c n then some (c + 2) else none

abbrev pub or_else {ℓ} : {A : Type ℓ} → Option A → A → A
or_else none d = d
or_else (some a) d = a

-- The loop of `_scan`, on fuel. `none` never stands for an opener.
unfoldable pub scan_loop : ℕ → Text → Positions → ℕ → List Opener
scan_loop zero s memo position = []
scan_loop (suc fuel) s memo position = elim (search s position) [
  | none ↦ []
  | some (start, close) ↦
      let (closer, memo₁) = forward_find s memo (closer_of close) (start + 2) in
      let (eol, memo₂) = forward_find s memo₁ (newline ∷ []) (start + 2) in
      let tag = end_of_tag closer eol in
      record { start = start; tag_end = tag; line_end = or_else eol (length s) }
      ∷ scan_loop fuel s memo₂ (or_else tag (start + 1))
]

-- Every round moves `position` on, and an opener lies inside the text.
unfoldable pub scan : Text → List Opener
unfolding scan_loop
scan s = scan_loop (length s + 1) s (λ _. none) 0

-- `_tag_spans`
pub closed_spans : List Opener → List (ℕ × ℕ)
closed_spans [] = []
closed_spans (o ∷ os) = elim o.tag_end [
  | none ↦ closed_spans os
  | some end ↦ (o.start, end) ∷ closed_spans os
]

unfoldable pub tag_spans : Text → List (ℕ × ℕ)
unfolding closed_spans
tag_spans s = closed_spans (scan s)

-- The default limit of `_unclosed_cost`, `math.inf`, is `none`.
abbrev pub over_limit : Option ℕ → ℕ → Bool
over_limit none cost = false
over_limit (some limit) cost = ltb limit cost

-- The loop of `_unclosed_cost`, with its `break`.
unfoldable pub cost_loop : Option ℕ → ℕ → List Opener → ℕ
cost_loop limit cost [] = cost
cost_loop limit cost (o ∷ os) = elim o.tag_end [
  | some end ↦ cost_loop limit cost os
  | none ↦
      let cost' = cost + (o.line_end - o.start) in
      elim (over_limit limit cost') [ true ↦ cost' | false ↦ cost_loop limit cost' os ]
]

unfoldable pub unclosed_cost : Text → Option ℕ → ℕ
unfolding cost_loop
unclosed_cost s limit = cost_loop limit 0 (scan s)

-- `max(map(len, ...))`
unfoldable pub longest : List Text → ℕ
longest [] = 0
longest (line ∷ lines) = max (length line) (longest lines)

unfoldable pub unclosed_cost_exceeds : Text → ℕ → Bool
unfolding longest unclosed_cost
unclosed_cost_exceeds s limit =
    let braces = count b'{' s in
    if braces == 0 || leb (braces * longest (split newline s)) limit
    then false
    else ltb limit (unclosed_cost s (some limit))

-- The arguments of `create_token`.
pub record Token : Type 0 where
  pub text : Text
  pub begin : ℕ
  pub finish : ℕ
  pub lineno : ℕ
  pub in_tag : Bool

abbrev pub slice : Text → ℕ → ℕ → Text
slice s begin finish = take (finish - begin) (drop begin s)

-- One round of the inner loop of `tokenize`: the token, if there is one, and the next line number.
unfoldable pub piece : Text → ℕ → ℕ → Bool → ℕ → List Token × ℕ
piece s begin finish in_tag lineno =
    let text = slice s begin finish in
    if ltb begin finish
    then (
      record { text = text; begin = begin; finish = finish; lineno = lineno; in_tag = in_tag } ∷ [],
      lineno + count newline text,
    )
    else ([], lineno)

unfoldable pub tokens_from : Text → ℕ → ℕ → List (ℕ × ℕ) → List Token
tokens_from s lineno last [] = []
tokens_from s lineno last ((start, end) ∷ spans) =
    let (text, lineno₁) = piece s last start false lineno in
    let (tag, lineno₂) = piece s start end true lineno₁ in
    text ++ (tag ++ tokens_from s lineno₂ end spans)

-- `_LinearLexer.tokenize`
unfoldable pub tokenize : Text → List Token
unfolding tokens_from piece
tokenize s = tokens_from s 1 0 (tag_spans s ++ (length s, length s) ∷ [])

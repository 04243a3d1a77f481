-- ===== src/Lexer/Reference.antt =====
-- Django's tag_re, `({%.*?%}|{{.*?}}|{#.*?#})`, read from left to right: the specification of the
-- scan of _template_lexer.py. It walks the text once for each opener.
use dj_hyperview.Prelude.{
  ℕ, zero, suc, ◌+◌, ◌-◌, Option, none, some, List, [], ◌∷◌, ◌==◌, if◌then◌else◌, Text, starts_with,
}
use dj_hyperview.Lexer.{newline, opener_at, closer_of, Opener, or_else}

-- The end of the lazy match `.*?` with its closer, where `.` is no line break.
unfoldable pub lazy_end : ℕ → ℕ → Text → Option ℕ
lazy_end close p [] = none
lazy_end close p (c ∷ r) =
    if starts_with (closer_of close) (c ∷ r)
    then some (p + 2)
    else if c == newline
    then none
    else lazy_end close (p + 1) r

unfoldable pub line_end_from : ℕ → Text → ℕ
line_end_from p [] = p
line_end_from p (c ∷ r) = if c == newline then p else line_end_from (p + 1) r

-- What the pattern makes of the opener at `p`, over the text `t` that stands there.
unfoldable pub opener_record : ℕ → ℕ → Text → Opener
opener_record close p t = record {
  start = p;
  tag_end = elim t [ c ∷ d ∷ r ↦ lazy_end close (p + 2) r | _ ↦ none ];
  line_end = line_end_from p t;
}

-- `skip` characters of the text belong to a tag that has matched.
unfoldable pub openers_from : ℕ → ℕ → Text → List Opener
unfolding opener_record
openers_from skip p [] = []
openers_from (suc k) p (c ∷ r) = openers_from k (p + 1) r
openers_from zero p (c ∷ r) = elim (opener_at (c ∷ r)) [
  | none ↦ openers_from 0 (p + 1) r
  | some close ↦
      let o = opener_record close p (c ∷ r) in
      o ∷ openers_from (or_else o.tag_end (p + 1) - (p + 1)) (p + 1) r
]

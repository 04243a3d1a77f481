-- ===== src/Lexer/Tokens.antt =====
-- `_LinearLexer.tokenize`: the tokens cut the source without a gap, and carry their positions.
use mathlib.Core.List.{append-nil, append_assoc}
use native.Mathlib.Nat.{add-zero, le_refl}
use dj_hyperview.Prelude.{
  ℕ, zero, suc, ◌+◌, ◌-◌, ◌≤◌, ◌<◌, ◌≡◌, refl, sym, ap, ◌∙◌, if◌then◌else◌, Bool, true, false,
  Option, none, some, List, [], ◌∷◌, ◌++◌, ltb, arith, Text, count, count-append, Bool-cases, inl,
  inr, Option-cases, ltb→lt, ltb→le, lt→ltb, le→ltb, length, take, drop, take-drop, take-add,
  drop-drop, starts_with, All, All-append, drop-length,
}
use dj_hyperview.Lexer.{
  newline, opener_at, or_else, closed_spans, tag_spans, Token, slice, piece, tokens_from, tokenize,
}
use dj_hyperview.Lexer.Reference.{lazy_end, opener_record, openers_from}
use dj_hyperview.Lexer.Scan.{scan-openers_from}

-- Spans in order, inside a text of `size` characters, from `last` on.
abbrev pub IsChain : ℕ → ℕ → List (ℕ × ℕ) → Type 0
IsChain size last [] = last ≤ size
IsChain size last ((start, end) ∷ spans) = (last ≤ start) × (start < end) × IsChain size end spans

abbrev EndsIn : ℕ → ℕ → Option ℕ → Type 0
EndsIn p size none = Unit
EndsIn p size (some e) = (p < e) × (e ≤ size)

lazy_end-EndsIn : (close p : ℕ) (t : Text) → EndsIn p (p + length t) (lazy_end close p t)
unfolding lazy_end starts_with
lazy_end-EndsIn close p [] = tt
lazy_end-EndsIn close p (c ∷ []) = ground (arith, lazy_end-EndsIn close (p + 1) [])
lazy_end-EndsIn close p (c ∷ d ∷ t) = ground (arith, lazy_end-EndsIn close (p + 1) (d ∷ t))

tag_end-EndsIn :
    (close p : ℕ) (t : Text) → EndsIn p (p + length t) (opener_record close p t).tag_end
unfolding opener_record
tag_end-EndsIn close p [] = tt
tag_end-EndsIn close p (c ∷ []) = tt
tag_end-EndsIn close p (c ∷ d ∷ t) = ground (arith, lazy_end-EndsIn close (p + 2) t)

module _ (size p : ℕ) (t : Text) where
  -- The spans after position `p`, wherever the last tag ended.
  abbrev ChainsAfter : Type 0
  ChainsAfter =
      (last k : ℕ)
      → last ≤ p + 1 + k
      → k ≤ length t
      → IsChain size last (closed_spans (openers_from k (p + 1) t))

  opened-IsChain :
      (last l : ℕ) (e : Option ℕ)
      → EndsIn p size e
      → p + suc (length t) ≡ size
      → last ≤ p
      → ChainsAfter
      → IsChain size last (
          closed_spans (
            record { start = p; tag_end = e; line_end = l }
            ∷ openers_from (or_else e (p + 1) - (p + 1)) (p + 1) t))
  unfolding closed_spans
  opened-IsChain last l none ends total le after =
      let k = p + 1 - (p + 1) in after last k (omega arith) (omega arith)
  opened-IsChain last l (some e) ends total le after =
      let k = e - (p + 1) in (le, ends.0, after e k (omega arith) (omega arith))

closed_spans-IsChain :
    (size last k p : ℕ) (t : Text)
    → last ≤ p + k
    → k ≤ length t
    → p + length t ≡ size
    → IsChain size last (closed_spans (openers_from k p t))
unfolding closed_spans openers_from
closed_spans-IsChain size last k p [] le fits total = omega arith
closed_spans-IsChain size last (suc k) p (c ∷ t) le fits total =
    closed_spans-IsChain size last k (p + 1) t (omega arith) (omega arith) (omega arith)
closed_spans-IsChain size last zero p (c ∷ t) le fits total =
    elim (Option-cases (opener_at (c ∷ t))) [
      | inl plain ↦
          rw (plain, openers_from)
            (closed_spans-IsChain size last 0 (p + 1) t (omega arith) (omega arith) (omega arith))
      | inr (close, op) ↦
          let o = opener_record close p (c ∷ t) in
          rw (op, openers_from)
            (unfold opener_record in
              opened-IsChain size p t last o.line_end o.tag_end
                (rw (← total) (tag_end-EndsIn close p (c ∷ t))) total (omega arith)
                (λ l k le' fits'. closed_spans-IsChain size l k (p + 1) t le' fits' (omega arith)))
    ]

pub tag_spans-IsChain : (s : Text) → IsChain (length s) 0 (tag_spans s)
unfolding tag_spans
tag_spans-IsChain s =
    rw (scan-openers_from s)
      (closed_spans-IsChain (length s) 0 0 0 s (omega arith) (omega arith) (omega arith))

-- The texts of the tokens, one after the other.
unfoldable pub texts : List Token → Text
texts [] = []
texts (t ∷ ts) = t.text ++ texts ts

-- The spans of the tokens that are tags.
unfoldable pub tag_parts : List Token → List (ℕ × ℕ)
tag_parts [] = []
tag_parts (t ∷ ts) = if t.in_tag then (t.begin, t.finish) ∷ tag_parts ts else tag_parts ts

-- A token holds the characters of its span, which is not empty, and the number of its line.
pub record IsAt (s : Text) (t : Token) : Type 0 where
  pub nonempty : t.begin < t.finish
  pub inside : t.finish ≤ length s
  pub holds : t.text ≡ slice s t.begin t.finish
  pub line : t.lineno ≡ 1 + count newline (take t.begin s)

texts-append : (ts us : List Token) → texts (ts ++ us) ≡ texts ts ++ texts us
unfolding texts
texts-append [] us = refl
texts-append (t ∷ ts) us = rw (texts-append ts us) (sym (append_assoc t.text (texts ts) (texts us)))

tag_parts-append : (ts us : List Token) → tag_parts (ts ++ us) ≡ tag_parts ts ++ tag_parts us
unfolding tag_parts
tag_parts-append [] us = refl
tag_parts-append (t ∷ ts) us = ground (arith, tag_parts-append ts us)

slice-empty : (s : Text) (a b : ℕ) → b ≤ a → slice s a b ≡ []
slice-empty s a b le = let e : b - a ≡ 0 = omega arith in rw e

slice-drop : (s : Text) (a b : ℕ) → a ≤ b → slice s a b ++ drop b s ≡ drop a s
slice-drop s a b le =
    let e : a + (b - a) ≡ b = omega arith in
    ap (λ k. slice s a b ++ drop k s) (sym e)
    ∙ ap (λ r. slice s a b ++ r) (sym (drop-drop (b - a) a s))
    ∙ take-drop (b - a) (drop a s)

count-take :
    (c : ℕ) (s : Text) (a b : ℕ)
    → a ≤ b
    → count c (take b s) ≡ count c (take a s) + count c (slice s a b)
count-take c s a b le =
    let e : b ≡ a + (b - a) = omega arith in
    ap (λ k. count c (take k s)) e
    ∙ ap (count c) (take-add a (b - a) s)
    ∙ count-append c (take a s) (slice s a b)

module _ (s : Text) (a b : ℕ) (in_tag : Bool) (l : ℕ) where
  texts-piece : texts (piece s a b in_tag l).0 ≡ slice s a b
  unfolding texts piece
  texts-piece = elim (Bool-cases (ltb a b)) [
    | inl lt ↦ rw lt (append-nil _)
    | inr ge ↦ rw ge (sym (slice-empty s a b (ltb→le a b ge)))
  ]

  line-piece : (piece s a b in_tag l).1 ≡ l + count newline (slice s a b)
  unfolding piece count
  line-piece = elim (Bool-cases (ltb a b)) [
    | inl lt ↦ rw lt
    | inr ge ↦ rw (ge, slice-empty s a b (ltb→le a b ge)) (sym (add-zero l))
  ]

abbrev whole : Text → List (ℕ × ℕ) → List (ℕ × ℕ)
whole s spans = spans ++ (length s, length s) ∷ []

texts-nil : [] ≡ texts []
unfolding texts
texts-nil = refl

tokens_from-texts :
    (s : Text) (spans : List (ℕ × ℕ)) (last l : ℕ)
    → IsChain (length s) last spans
    → texts (tokens_from s l last (whole s spans)) ≡ drop last s
unfolding tokens_from
tokens_from-texts s [] last l chain =
    let n = length s in
    let l' = (piece s last n false l).1 in
    simp (texts-append, texts-piece)
      (rw (slice-empty s n n (le_refl n)) (
        ap (λ r. slice s last n ++ r) {y = drop n s} (sym (drop-length n s (le_refl n) ∙ texts-nil))
        ∙ slice-drop s last n chain))
tokens_from-texts s ((start, end) ∷ spans) last l chain =
    let l₁ = (piece s last start false l).1 in
    let l₂ = (piece s start end true l₁).1 in
    simp (texts-append, texts-piece)
      (rw (tokens_from-texts s spans end l₂ chain.2) (
        ap (λ r. slice s last start ++ r) (slice-drop s start end (omega arith))
        ∙ slice-drop s last start chain.0))

module _ (s : Text) where
  piece-IsAt :
      (a b : ℕ) (in_tag : Bool) (l : ℕ)
      → b ≤ length s
      → l ≡ 1 + count newline (take a s)
      → All (IsAt s) (piece s a b in_tag l).0
  unfolding piece
  piece-IsAt a b in_tag l inside line = elim (Bool-cases (ltb a b)) [
    | inl lt ↦
        rw lt (record { nonempty = ltb→lt a b lt; inside = inside; holds = refl; line = line }, tt)
    | inr ge ↦ rw ge tt
  ]

  -- The line number stays that of the position.
  next_line :
      (a b : ℕ) (in_tag : Bool) (l : ℕ)
      → a ≤ b
      → l ≡ 1 + count newline (take a s)
      → (piece s a b in_tag l).1 ≡ 1 + count newline (take b s)
  next_line a b in_tag l le line =
      omega (arith, line-piece s a b in_tag l, count-take newline s a b le)

  IsChain-last : (n last : ℕ) (spans : List (ℕ × ℕ)) → IsChain n last spans → last ≤ n
  IsChain-last n last [] chain = chain
  IsChain-last n last ((a, b) ∷ spans) chain = omega (arith, IsChain-last n b spans chain.2)

  tokens_from-IsAt :
      (spans : List (ℕ × ℕ)) (last l : ℕ)
      → IsChain (length s) last spans
      → l ≡ 1 + count newline (take last s)
      → All (IsAt s) (tokens_from s l last (whole s spans))
  unfolding tokens_from
  tokens_from-IsAt [] last l chain line =
      let n = length s in
      All-append (IsAt s) _ _ (piece-IsAt last n false l (le_refl n) line) (
        All-append (IsAt s) _ []
          (piece-IsAt n n true _ (le_refl n) (next_line last n false l chain line)) tt)
  tokens_from-IsAt ((a, b) ∷ spans) last l chain line =
      let inside = IsChain-last (length s) b spans chain.2 in
      let line₁ = next_line last a false l chain.0 line in
      let line₂ = next_line a b true (piece s last a false l).1 (omega arith) line₁ in
      All-append (IsAt s) _ _ (piece-IsAt last a false l (omega arith) line) (
        All-append (IsAt s) _ _ (piece-IsAt a b true _ inside line₁)
          (tokens_from-IsAt spans b (piece s a b true (piece s last a false l).1).1 chain.2 line₂))

  tag_parts-text : (a b l : ℕ) → tag_parts (piece s a b false l).0 ≡ []
  unfolding tag_parts piece
  tag_parts-text a b l = ground arith

  tag_parts-tag :
      (a b l : ℕ) → tag_parts (piece s a b true l).0 ≡ (if ltb a b then (a, b) ∷ [] else [])
  unfolding tag_parts piece
  tag_parts-tag a b l = ground arith

  tokens_from-tags :
      (spans : List (ℕ × ℕ)) (last l : ℕ)
      → IsChain (length s) last spans
      → tag_parts (tokens_from s l last (whole s spans)) ≡ spans
  unfolding tokens_from
  tokens_from-tags [] last l chain =
      simp (tag_parts-append, tag_parts-text, tag_parts-tag)
        (rw (le→ltb (length s) (length s) (le_refl _)) (unfold tag_parts in refl))
  tokens_from-tags ((a, b) ∷ spans) last l chain =
      simp (tag_parts-append, tag_parts-text, tag_parts-tag)
        (rw (lt→ltb a b chain.1) (
          ap (◌∷◌ (a, b))
            (tokens_from-tags spans b (piece s a b true (piece s last a false l).1).1 chain.2)))

-- The tokens, put together, are the source.
tokenize-texts : (s : Text) → texts (tokenize s) ≡ s
unfolding tokenize
tokenize-texts s = tokens_from-texts s (tag_spans s) 0 1 (tag_spans-IsChain s)

-- Every token holds the characters between its two positions, at least one, and its line number is
-- one more than the line breaks in front of it.
tokenize-IsAt : (s : Text) → All (IsAt s) (tokenize s)
unfolding tokenize
tokenize-IsAt s = tokens_from-IsAt s (tag_spans s) 0 1 (tag_spans-IsChain s) (unfold count in refl)

-- The tokens that are tags are the matches of tag_re, in order.
tokenize-tags : (s : Text) → tag_parts (tokenize s) ≡ closed_spans (openers_from 0 0 s)
unfolding tokenize
tokenize-tags s =
    tokens_from-tags s (tag_spans s) 0 1 (tag_spans-IsChain s)
    ∙ (unfold tag_spans in ap closed_spans (scan-openers_from s))

-- The tokens, put together, are the source. Every token holds the characters between its two
-- positions, at least one, and its line number is one more than the line breaks in front of it. The
-- tokens that are tags are the matches of tag_re, in order.
pub tokenize_lem :
    (s : Text)
    → (texts (tokenize s) ≡ s)
      × All (IsAt s) (tokenize s)
      × (tag_parts (tokenize s) ≡ closed_spans (openers_from 0 0 s))
tokenize_lem s = (tokenize-texts s, tokenize-IsAt s, tokenize-tags s)

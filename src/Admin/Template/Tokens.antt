-- ===== src/Admin/Template/Tokens.antt =====
-- `_LinearLexer.tokenize`: its tokens follow each other without a gap, which Django's `create_token` keeps.
use dj_hyperview.Prelude.{
  ℕ, suc, ◌≤◌, ◌≡◌, refl, ap, Bool, true, false, Option, List, [], ◌∷◌, ◌++◌, arith, ltb, length,
  Text, Bool-cases, inl, inr, ltb→le,
}
use dj_hyperview.Lexer.{tag_spans, Token, piece, tokens_from, tokenize}
use dj_hyperview.Lexer.Tokens.{IsChain, tag_spans-IsChain}
use dj_hyperview.Admin.Mask.Loop.Tiles.{Tiles}
use dj_hyperview.Admin.Template.{Create, create_tokens}

-- Pieces that follow each other without a gap, from `p` to the end of a source of `n` characters.
abbrev Follows : ℕ → ℕ → List Token → Type 0
Follows n p [] = p ≡ n
Follows n p (t ∷ tokens) = (p ≡ t.begin) × (p ≤ t.finish) × Follows n t.finish tokens

piece-Follows :
    (s : Text) (n a b l : ℕ) (in_tag : Bool) (rest : List Token)
    → a ≤ b
    → Follows n b rest
    → Follows n a ((piece s a b in_tag l).0 ++ rest)
unfolding piece
piece-Follows s n a b l in_tag rest le h = elim (Bool-cases (ltb a b)) [
  | inl lt ↦ rw lt (refl, le, h)
  | inr ge ↦ let same : a ≡ b = omega (arith, ltb→le a b ge) in rw (ge, same) h
]

tokens_from-Follows :
    (s : Text) (spans : List (ℕ × ℕ)) (last l : ℕ)
    → IsChain (length s) last spans
    → Follows (length s) last (tokens_from s l last (spans ++ (length s, length s) ∷ []))
unfolding tokens_from
tokens_from-Follows s [] last l chain =
    let n = length s in
    let l₁ = (piece s last n false l).1 in
    piece-Follows s n last n l false _ chain (piece-Follows s n n n l₁ true [] (omega arith) refl)
tokens_from-Follows s ((start, end) ∷ spans) last l chain =
    let n = length s in
    let l₁ = (piece s last start false l).1 in
    let l₂ = (piece s start end true l₁).1 in
    piece-Follows s n last start l false _ chain.0 (
      piece-Follows s n start end l₁ true _ (omega arith)
        (tokens_from-Follows s spans end l₂ chain.2))

tokenize-Follows : (s : Text) → Follows (length s) 0 (tokenize s)
unfolding tokenize
tokenize-Follows s = tokens_from-Follows s (tag_spans s) 0 1 (tag_spans-IsChain s)

module _ (create : Create) (content : Text) where
  create_tokens-Tiles :
      (verbatim : Option Text) (p : ℕ) (tokens : List Token)
      → Follows (length content) p tokens
      → Tiles content p (create_tokens create verbatim tokens)
  unfolding create_tokens
  create_tokens-Tiles verbatim p [] h = h
  create_tokens-Tiles verbatim p (t ∷ tokens) (e, le, h) =
      (e, le, create_tokens-Tiles (create verbatim t).1 t.finish tokens h)

  pub tokenize-Tiles :
      (verbatim : Option Text) → Tiles content 0 (create_tokens create verbatim (tokenize content))
  tokenize-Tiles verbatim =
      create_tokens-Tiles verbatim 0 (tokenize content) (tokenize-Follows content)

  pub length-create_tokens :
      (verbatim : Option Text) (tokens : List Token)
      → length (create_tokens create verbatim tokens) ≡ length tokens
  unfolding create_tokens
  length-create_tokens verbatim [] = refl
  length-create_tokens verbatim (t ∷ tokens) =
      ap suc (length-create_tokens (create verbatim t).1 tokens)

-- ===== src/Lexer/Cost.antt =====
-- `_unclosed_cost` and the shortcut of `_unclosed_cost_exceeds`, against the exact sum.
use dj_hyperview.Prelude.{
  ℕ, zero, suc, ◌+◌, ◌-◌, ◌*◌, ◌≤◌, ◌≡◌, refl, sym, ap, ◌∙◌, ◌||◌, true, none, some, List, [], ◌∷◌,
  ltb, leb, ◌==◌, Option-cases, arith, Text, count, split, cons_first, Bool-cases, inl, inr, leb→le,
  le→ltb, length,
}
use native.Mathlib.Nat.{le_refl}
use Prim.Native.Nat.{zero-le}
use dj_hyperview.Lexer.{
  newline, opener_at, Opener, or_else, cost_loop, longest, unclosed_cost, unclosed_cost_exceeds,
}
use dj_hyperview.Lexer.Reference.{line_end_from, opener_record, openers_from}
use dj_hyperview.Lexer.Scan.{scan-openers_from}

-- The characters that Django's lexer reads for the openers that close no tag.
unfoldable pub total_cost : List Opener → ℕ
total_cost [] = 0
total_cost (o ∷ os) = elim o.tag_end [
  | some end ↦ total_cost os
  | none ↦ o.line_end - o.start + total_cost os
]

cost_loop-total : (cost : ℕ) (os : List Opener) → cost_loop none cost os ≡ cost + total_cost os
unfolding cost_loop total_cost
cost_loop-total cost [] = omega arith
cost_loop-total cost (o ∷ os) =
    ground (arith, cost_loop-total cost os, cost_loop-total (cost + (o.line_end - o.start)) os)

-- Stopping at the limit does not change on which side of it the sum lies.
cost_loop-limit :
    (limit cost : ℕ) (os : List Opener)
    → ltb limit (cost_loop (some limit) cost os) ≡ ltb limit (cost + total_cost os)
unfolding cost_loop total_cost
cost_loop-limit limit cost [] = ground arith
cost_loop-limit limit cost (o ∷ os) =
    ground (
      arith,
      cost_loop-limit limit cost os,
      cost_loop-limit limit (cost + (o.line_end - o.start)) os,
    )

-- The lines of a text, seen from its first character.
longest-cons : (c : ℕ) (ls : List Text) → longest ls ≤ longest (cons_first c ls)
unfolding longest
longest-cons c [] = omega arith
longest-cons c (l ∷ ls) = omega arith

longest-split-cons :
    (c : ℕ) (t : Text) → longest (split newline t) ≤ longest (split newline (c ∷ t))
unfolding longest split
longest-split-cons c t = ground (arith, longest-cons c (split newline t))

first_length : List Text → ℕ
first_length [] = 0
first_length (l ∷ ls) = length l

first_length-le : (ls : List Text) → first_length ls ≤ longest ls
unfolding longest first_length
first_length-le [] = omega arith
first_length-le (l ∷ ls) = omega arith

first_length-cons :
    (c : ℕ) (ls : List Text) → first_length (cons_first c ls) ≡ suc (first_length ls)
unfolding first_length
first_length-cons c [] = refl
first_length-cons c (l ∷ ls) = refl

line_end_from-split : (p : ℕ) (t : Text) → line_end_from p t ≡ p + first_length (split newline t)
unfolding line_end_from split first_length
line_end_from-split p [] = omega arith
line_end_from-split p (c ∷ t) =
    ground (arith, line_end_from-split (p + 1) t, first_length-cons c (split newline t))

line_end_from-le : (p : ℕ) (t : Text) → line_end_from p t - p ≤ longest (split newline t)
line_end_from-le p t = omega (arith, line_end_from-split p t, first_length-le (split newline t))

count-cons-le : (x c m : ℕ) (t : Text) → count x t * m ≤ count x (c ∷ t) * m
unfolding count
count-cons-le x c m t = elim (Bool-cases (c == x)) [
  | inl e ↦ rw e (grind arith)
  | inr e ↦ rw e (le_refl _)
]

count-opener :
    (c close m : ℕ) (t : Text)
    → opener_at (c ∷ t) ≡ some close
    → count b'{' (c ∷ t) * m ≡ m + count b'{' t * m
unfolding count opener_at
count-opener c close m [] h = cc
count-opener c close m (d ∷ t) h = let e : (c == b'{') ≡ true = ground arith in rw e (grind arith)

total_cost-cons-le :
    (o : Opener) (os : List Opener) → total_cost (o ∷ os) ≤ o.line_end - o.start + total_cost os
unfolding total_cost
total_cost-cons-le o os = ground arith

-- Every unclosed opener holds a brace and costs at most the longest line.
total_cost-le :
    (m k p : ℕ) (t : Text)
    → longest (split newline t) ≤ m
    → total_cost (openers_from k p t) ≤ count b'{' t * m
unfolding openers_from
total_cost-le m k p [] h = total_cost-nil (count b'{' [] * m)
  where
    total_cost-nil : (n : ℕ) → total_cost [] ≤ n
    total_cost-nil n = unfold total_cost in zero-le
total_cost-le m (suc k) p (c ∷ t) h =
    let ih = total_cost-le m k (p + 1) t (omega (arith, longest-split-cons c t)) in
    omega (arith, count-cons-le b'{' c m t)
total_cost-le m zero p (c ∷ t) h = elim (Option-cases (opener_at (c ∷ t))) [
  | inl plain ↦
      let ih = total_cost-le m 0 (p + 1) t (omega (arith, longest-split-cons c t)) in
      rw (plain, openers_from) (omega (arith, count-cons-le b'{' c m t))
  | inr (close, op) ↦
      let o = opener_record close p (c ∷ t) in
      let k = or_else o.tag_end (p + 1) - (p + 1) in
      let ih = total_cost-le m k (p + 1) t (omega (arith, longest-split-cons c t)) in
      rw (op, openers_from)
        (unfold opener_record in
          omega (
            arith,
            total_cost-cons-le o (openers_from k (p + 1) t),
            line_end_from-le p (c ∷ t),
            count-opener c close m t op,
          ))
]

-- The exact sum over the whole text.
abbrev pub exact_cost : Text → ℕ
exact_cost s = total_cost (openers_from 0 0 s)

-- Without a limit `_unclosed_cost` is the sum over the openers of the pattern that close no tag.
pub unclosed_cost-exact : (s : Text) → unclosed_cost s none ≡ exact_cost s
unfolding unclosed_cost
unclosed_cost-exact s =
    rw (scan-openers_from s) (omega (arith, cost_loop-total 0 (openers_from 0 0 s)))

unclosed_cost-limit :
    (s : Text) (limit : ℕ) → ltb limit (unclosed_cost s (some limit)) ≡ ltb limit (exact_cost s)
unfolding unclosed_cost
unclosed_cost-limit s limit =
    let e : 0 + exact_cost s ≡ exact_cost s = omega arith in
    rw (scan-openers_from s)
      (cost_loop-limit limit 0 (openers_from 0 0 s) ∙ ap (λ n. ltb limit n) e)

-- What the shortcut clears is within the limit.
cleared-le :
    (braces m limit : ℕ) → (braces == 0 || leb (braces * m) limit) ≡ true → braces * m ≤ limit
cleared-le zero m limit h = grind arith
cleared-le (suc b) m limit h = leb→le (suc b * m) limit (ground arith)

-- The shortcut over the braces and the longest line, and the stop at the limit, answer as a
-- comparison of the exact sum with the limit.
pub unclosed_cost_exceeds-exact :
    (s : Text) (limit : ℕ) → unclosed_cost_exceeds s limit ≡ ltb limit (exact_cost s)
unfolding unclosed_cost_exceeds
unclosed_cost_exceeds-exact s limit =
    let braces = count b'{' s in
    let m = longest (split newline s) in
    elim (Bool-cases (braces == 0 || leb (braces * m) limit)) [
      | inl cleared ↦
          let bound = total_cost-le m 0 0 s (le_refl m) in
          let small = cleared-le braces m limit cleared in
          rw (cleared, unclosed_cost_exceeds) (sym (le→ltb limit (exact_cost s) (omega arith)))
      | inr scanned ↦ rw (scanned, unclosed_cost_exceeds) (unclosed_cost-limit s limit)
    ]

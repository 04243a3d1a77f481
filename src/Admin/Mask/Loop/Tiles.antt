-- ===== src/Admin/Mask/Loop/Tiles.antt =====
-- The loop of `_scan_template`: tokens without a gap between them, and what its skips leave of them.
use dj_hyperview.Prelude.{
  ℕ, zero, suc, ◌+◌, ◌-◌, ◌≤◌, ◌≡◌, refl, sym, ◌∙◌, ap, Bool, true, false, Option, none, some, List,
  [], ◌∷◌, if◌then◌else◌, arith, length, take, drop, take-drop, drop-drop, Text, count,
  count-append, text_eq,
}
use dj_hyperview.Lexer.{newline, slice}
use dj_hyperview.Validation.Declarations.{comment_name}
use dj_hyperview.Validation.Encoding.{Classes}
use dj_hyperview.Admin.Scanner.{blank}
use dj_hyperview.Admin.Mask.{
  Syntax, Skip, is_text, is_block, is_verbatim, ends_comment, comment_skip, verbatim_skip,
  command_of, skipped,
}

pub count-blank : (t : Text) → count newline (blank t) ≡ count newline t
unfolding blank count
count-blank [] = refl
count-blank (c ∷ t) = ground (arith, count-blank t)

pub length-blank : (t : Text) → length (blank t) ≡ length t
unfolding blank
length-blank [] = refl
length-blank (c ∷ t) = let rest = length-blank t in omega arith

pub length-take : (n : ℕ) (t : Text) → length (take n t) ≤ n
length-take zero t = omega arith
length-take (suc n) [] = omega arith
length-take (suc n) (c ∷ t) = let rest = length-take n t in omega arith

module _ (content : Text) where
  -- Tokens that follow each other without a gap, from `p` to the end.
  abbrev pub Tiles : ℕ → List Syntax → Type 0
  Tiles p [] = p ≡ length content
  Tiles p (t ∷ tokens) = (p ≡ t.start) × (p ≤ t.finish) × Tiles t.finish tokens

  pub Tiles-le : (p : ℕ) (tokens : List Syntax) → Tiles p tokens → p ≤ length content
  Tiles-le p [] h = omega arith
  Tiles-le p (t ∷ tokens) (e, le, h) = let rest = Tiles-le t.finish tokens h in omega arith

  -- The lines of the source from `p` on are those of a slice and those behind it.
  pub count-slice :
      (p q : ℕ)
      → p ≤ q
      → count newline (drop p content)
        ≡ count newline (slice content p q) + count newline (drop q content)
  count-slice p q le =
      let e : p + (q - p) ≡ q = omega arith in
      ap (count newline) (sym (take-drop (q - p) (drop p content)))
      ∙ count-append newline (take (q - p) (drop p content)) (drop (q - p) (drop p content))
      ∙ rw (drop-drop (q - p) p content, e) refl

  -- What a skip leaves: tokens that go on where it stops, and no more than `n` of them.
  abbrev pub Leads : ℕ → ℕ → Option Skip → Type 0
  Leads q n none = Unit
  Leads q n (some k) = Tiles k.stop k.rest × (q ≤ k.stop) × (length k.rest ≤ n)

  comment_skip-Leads :
      (q : ℕ) (tokens : List Syntax)
      → Tiles q tokens
      → Leads q (length tokens) (comment_skip tokens)
  unfolding comment_skip
  comment_skip-Leads q [] h = tt
  comment_skip-Leads q (t ∷ tokens) (e, le, h) =
      by_end (ends_comment t) (comment_skip tokens) (comment_skip-Leads t.finish tokens h)
    where
      by_end :
          (b : Bool) (k : Option Skip)
          → Leads t.finish (length tokens) k
          → Leads q
              (suc (length tokens))
              (if b then some (record { stop = t.finish; verbatim = false; rest = tokens }) else k)
      by_end true k later = (h, le, omega arith)
      by_end false none later = tt
      by_end false (some k) (tiles, ge, fits) = (tiles, omega arith, omega arith)

  verbatim_skip-Leads :
      (q : ℕ) (tokens : List Syntax)
      → Tiles q tokens
      → Leads q (length tokens) (some (verbatim_skip (length content) tokens))
  unfolding verbatim_skip
  verbatim_skip-Leads q [] h = (refl, omega arith, omega arith)
  verbatim_skip-Leads q (t ∷ tokens) (e, le, h) =
      by_text (is_text t.kind) (verbatim_skip (length content) tokens)
        (verbatim_skip-Leads t.finish tokens h)
    where
      by_text :
          (b : Bool) (k : Skip)
          → Leads t.finish (length tokens) (some k)
          → Leads q
              (suc (length tokens))
              (some (if b then k else record { stop = t.finish; verbatim = true; rest = tokens }))
      by_text true k (tiles, ge, fits) = (tiles, omega arith, omega arith)
      by_text false k later = (h, le, omega arith)

  pub skipped-Leads :
      (classes : Classes) (t : Syntax) (tokens : List Syntax)
      → Tiles t.finish tokens
      → Leads t.finish (length tokens) (skipped classes (length content) t tokens)
  unfolding skipped
  skipped-Leads classes t tokens h =
      by_command (is_block t.kind) (text_eq (command_of classes t) comment_name)
        (is_verbatim t.contents)
    where
      by_command :
          (a b c : Bool)
          → Leads t.finish (length tokens) (
              if a
              then (if b
                  then comment_skip tokens
                  else if c
                  then some (verbatim_skip (length content) tokens)
                  else none)
              else none)
      by_command true true c = comment_skip-Leads t.finish tokens h
      by_command true false true = verbatim_skip-Leads t.finish tokens h
      by_command true false false = tt
      by_command false b c = tt

-- ===== src/Admin/Mask/Loop/Rounds.antt =====
-- The loop of `_scan_template`: what one round makes of the tokens that it takes.
use native.Mathlib.Nat.{le_refl}
use dj_hyperview.Prelude.{
  ℕ, ◌+◌, ◌-◌, ◌≤◌, ◌<◌, ◌≡◌, refl, ◌∙◌, Bool, Option, none, some, List, ◌++◌, arith, leb, length,
  drop, length-append, Text, count, count-append, Bool-cases, inl, inr, leb→le,
}
use dj_hyperview.Lexer.{newline, slice}
use dj_hyperview.Validation.Encoding.{Classes}
use dj_hyperview.Admin.Scanner.{blank}
use dj_hyperview.Admin.Mask.{
  Syntax, context_of, Scan, Skip, is_text, skipped, is_structure, is_silent,
}
use dj_hyperview.Admin.Mask.Loop.{
  Markers, marker_of, literal, hide, marked, masked, rendered, after_skip, with_rest, round,
}
use dj_hyperview.Admin.Mask.Loop.Tiles.{
  count-blank, length-blank, length-take, Tiles, count-slice, Leads, skipped-Leads,
}

-- The markers of the scan: no longer than `width`, and on one line.
pub record Fits (markers : Markers) (width : ℕ) : Type 0 where
  pub short : (b : Bool) → length (marker_of markers b) ≤ width
  pub one_line : (b : Bool) → count newline (marker_of markers b) ≡ 0

module _ (classes : Classes) (markers : Markers) (content : Text) (width : ℕ) where
  -- From `p` on, the text that a scan makes of the source up to `q`: the lines of the source, within the
  -- room that was left.
  abbrev pub Covers : ℕ → ℕ → Scan → Scan → Type 0
  Covers p q s s₁ =
      (count newline s₁.parts + count newline (drop q content)
        ≡ count newline s.parts + count newline (drop p content))
      × (length s₁.parts + s₁.room + p ≤ length s.parts + s.room + q)
      × (s.room ≤ s₁.room + width)

  -- A round that appends a text with the lines of the source, and a marker.
  append-Covers :
      (p q : ℕ) (s s₁ : Scan) (piece : Text)
      → p ≤ q
      → s₁.parts ≡ s.parts ++ piece
      → count newline piece ≡ count newline (slice content p q)
      → length piece + s₁.room ≤ (q - p) + s.room
      → s.room ≤ s₁.room + width
      → Covers p q s s₁
  append-Covers p q s s₁ piece le parts lines size room =
      rw (parts, count-append newline s.parts piece, length-append s.parts piece)
        (let behind = count-slice content p q le in (omega arith, omega arith, room))

  hide-Covers :
      (t : Syntax) (stop : ℕ) (s : Scan)
      → t.start ≤ stop
      → Covers t.start stop s (hide classes markers content t stop s)
  hide-Covers t stop s le =
      append-Covers t.start stop s (hide classes markers content t stop s)
        (blank (slice content t.start stop)) le refl (count-blank (slice content t.start stop))
        (rw (length-blank (slice content t.start stop))
          (let short = length-take (stop - t.start) (drop t.start content) in omega arith))
        (omega arith)

  literal-Covers :
      (t : Syntax) (s : Scan)
      → t.start ≤ t.finish
      → Covers t.start t.finish s (literal classes markers content t s)
  literal-Covers t s le =
      let piece = slice content t.start t.finish in
      append-Covers t.start t.finish s (literal classes markers content t s) piece le refl refl
        (let short = length-take (t.finish - t.start) (drop t.start content) in omega arith)
        (omega arith)

  -- A round of a token that renders output: it finds no room, or covers its token.
  abbrev Renders : Syntax → Scan → Option Scan → Type 0
  Renders t s none = s.room < width
  Renders t s (some s₁) = Covers t.start t.finish s s₁

  marked-Covers :
      (t : Syntax) (b : Bool) (s : Scan)
      → Fits markers width
      → t.start ≤ t.finish
      → length (marker_of markers b) ≤ s.room
      → Covers t.start t.finish s (marked classes markers content t b s)
  marked-Covers t b s fits le enough =
      let marker = marker_of markers b in
      let source = slice content t.start t.finish in
      let short = length-take (t.finish - t.start) (drop t.start content) in
      let narrow = fits.short b in
      append-Covers t.start t.finish s (marked classes markers content t b s)
        (marker ++ blank source) le refl
        (count-append newline marker (blank source)
          ∙ rw (fits.one_line b, count-blank source) (omega arith))
        (rw (length-append marker (blank source), length-blank source) (omega arith)) (omega arith)

  masked-Renders :
      (t : Syntax) (b : Bool) (s : Scan)
      → Fits markers width
      → t.start ≤ t.finish
      → Renders t s (masked classes markers content t b s)
  masked-Renders t b s fits le = elim (Bool-cases (leb (length (marker_of markers b)) s.room)) [
    | inl h ↦ rw (h) (marked-Covers t b s fits le (leb→le (length (marker_of markers b)) s.room h))
    | inr h ↦ rw (h) (let short = fits.short b in ground arith)
  ]

  rendered-Renders :
      (t : Syntax) (s : Scan)
      → Fits markers width
      → t.start ≤ t.finish
      → Renders t s (rendered classes markers content t s)
  unfolding rendered
  rendered-Renders t s fits le = elim (Bool-cases (is_silent classes t)) [
    | inl h ↦ rw (h) (hide-Covers t t.finish s le)
    | inr h ↦ rw (h) (masked-Renders t (is_structure classes t (context_of s.state)) s fits le)
  ]

  -- A round: it finds no room, or goes on with the tokens behind what it covers.
  abbrev pub Advances : Syntax → List Syntax → Scan → Option (Scan × List Syntax) → Type 0
  Advances t tokens s none = s.room < width
  Advances t tokens s (some (s₁, rest)) =
      (q : ℕ) × Tiles content q rest × (length rest ≤ length tokens) × Covers t.start q s s₁

  after_skip-Advances :
      (t : Syntax) (tokens : List Syntax) (s : Scan) (k : Option Skip)
      → Fits markers width
      → t.start ≤ t.finish
      → Tiles content t.finish tokens
      → Leads content t.finish (length tokens) k
      → Advances t tokens s (after_skip classes markers content t tokens s k)
  after_skip-Advances t tokens s none fits le tiles leads =
      by_room (rendered classes markers content t s) (rendered-Renders t s fits le)
    where
      by_room :
          (a : Option Scan)
          → Renders t s a
          → Advances t tokens s (with_rest classes markers content a tokens)
      by_room none full = full
      by_room (some s₁) covers = (t.finish, tiles, le_refl (length tokens), covers)
  after_skip-Advances t tokens s (some k) fits le tiles (behind, ge, fewer) =
      (k.stop, behind, fewer, hide-Covers t k.stop s (omega arith))

  pub round-Advances :
      (t : Syntax) (tokens : List Syntax) (s : Scan)
      → Fits markers width
      → t.start ≤ t.finish
      → Tiles content t.finish tokens
      → Advances t tokens s (round classes markers content t tokens s)
  unfolding round
  round-Advances t tokens s fits le tiles = elim (Bool-cases (is_text t.kind)) [
    | inl h ↦ rw (h) (t.finish, tiles, le_refl (length tokens), literal-Covers t s le)
    | inr h ↦ rw (h) (
        after_skip-Advances t tokens s (skipped classes (length content) t tokens) fits le tiles
          (skipped-Leads content classes t tokens tiles))
  ]

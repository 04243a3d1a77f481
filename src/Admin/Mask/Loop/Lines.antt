-- ===== src/Admin/Mask/Loop/Lines.antt =====
-- The loop of `_scan_template`: the lines of the masked text are those of the source, and it grows by
-- the markers only.
use native.Mathlib.Nat.{le_refl, mul-le-mul_right, suc-mul}
use dj_hyperview.Prelude.{
  ℕ, zero, suc, ◌+◌, ◌*◌, ◌≤◌, ◌<◌, ◌≡◌, Option, none, some, List, [], ◌∷◌, arith, length, drop,
  drop-length, length-drop, Text, count,
}
use dj_hyperview.Lexer.{newline}
use dj_hyperview.Validation.Encoding.{Classes}
use dj_hyperview.Admin.Scanner.{outside}
use dj_hyperview.Admin.Mask.{Syntax, Scan}
use dj_hyperview.Admin.Mask.Loop.{Markers, round, rounds, scan_tokens}
use dj_hyperview.Admin.Mask.Loop.Tiles.{Tiles}
use dj_hyperview.Admin.Mask.Loop.Rounds.{Fits, Advances, round-Advances}

more_rooms : (m n width a b : ℕ) → m ≤ n → a < m * width → b ≤ a + width → b < suc n * width
more_rooms m n width a b le h room =
    let wider = mul-le-mul_right width le in rw (suc-mul n width) (omega arith)

one_room : (n width room : ℕ) → room < width → room < suc n * width
one_room n width room h = rw (suc-mul n width) (omega arith)

module _ (classes : Classes) (markers : Markers) (content : Text) (width : ℕ) where
  -- What the loop makes of the tokens from `p` on.
  abbrev Keeps : ℕ → ℕ → Scan → Option Scan → Type 0
  Keeps p n s none = s.room < n * width
  Keeps p n s (some s₁) =
      (count newline s₁.parts ≡ count newline s.parts + count newline (drop p content))
      × (length s₁.parts + s₁.room + p ≤ length s.parts + s.room + length content)

  rounds-Keeps :
      (fuel p : ℕ) (tokens : List Syntax) (s : Scan)
      → Fits markers width
      → Tiles content p tokens
      → length tokens ≤ fuel
      → Keeps p (length tokens) s (rounds classes markers content fuel tokens s)
  unfolding rounds count
  rounds-Keeps fuel p [] s fits tiles le =
      let over = length-drop p content in
      (rw (drop-length p content (omega arith)) (omega arith), omega arith)
  rounds-Keeps zero p (t ∷ tokens) s fits tiles le = absurd (omega arith)
  rounds-Keeps (suc fuel) p (t ∷ tokens) s fits (e, ge, tiles) le =
      by_round (round classes markers content t tokens s)
        (round-Advances classes markers content width t tokens s fits (omega arith) tiles)
        (λ q rest s₁. rounds-Keeps fuel q rest s₁ fits)
    where
      by_round :
          (a : Option (Scan × List Syntax))
          → Advances classes markers content width t tokens s a
          → ((q : ℕ) (rest : List Syntax) (s₁ : Scan)
              → Tiles content q rest
              → length rest ≤ fuel
              → Keeps q (length rest) s₁ (rounds classes markers content fuel rest s₁))
          → Keeps p (suc (length tokens)) s (elim a [
            | none ↦ none
            | some (s₁, rest) ↦ rounds classes markers content fuel rest s₁
          ])
      by_round none full goes_on = one_room (length tokens) width s.room full
      by_round (some (s₁, rest)) (q, behind, fewer, covers) goes_on =
          by_rest (rounds classes markers content fuel rest s₁)
            (goes_on q rest s₁ behind (omega arith))
        where
          by_rest :
              (b : Option Scan) → Keeps q (length rest) s₁ b → Keeps p (suc (length tokens)) s b
          by_rest none full =
              more_rooms (length rest) (length tokens) width s₁.room s.room fewer full covers.2
          by_rest (some s₂) (lines, size) =
              let (here_lines, here_size, room) = covers in (rw (e) (omega arith), omega arith)

  -- The document that a scan of a whole source makes.
  abbrev pub Preserves : ℕ → ℕ → Option Scan → Type 0
  Preserves room n none = room < n * width
  Preserves room n (some s) =
      (count newline s.parts ≡ count newline content) × (length s.parts ≤ length content + room)

-- Markers of one line, of `width` characters at most, and tokens that cut the source without a gap: the
-- scan either makes a text with as many lines as the source, longer by the room for the markers at
-- most, or it raises, and then one more marker for each token did not fit into the room.
pub scan_tokens-Preserves :
    (classes : Classes) (markers : Markers) (content : Text) (width room : ℕ) (tokens : List Syntax)
    → Fits markers width
    → Tiles content 0 tokens
    → Preserves classes markers content width room
        (length tokens)
        (scan_tokens classes markers content room tokens)
unfolding scan_tokens count
scan_tokens-Preserves classes markers content width room tokens fits tiles =
    by_scan (rounds classes markers content (length tokens) tokens start) (
      rounds-Keeps classes markers content width (length tokens) 0 tokens start fits tiles
        (le_refl (length tokens)))
  where
    start : Scan
    start = record {
      parts = [];
      contexts = [];
      first_structure_line = none;
      verbatim_line = none;
      state = outside;
      room = room;
    }

    by_scan :
        (a : Option Scan)
        → Keeps classes markers content width 0 (length tokens) start a
        → Preserves classes markers content width room (length tokens) a
    by_scan none full = full
    by_scan (some s) (lines, size) = (omega arith, omega arith)

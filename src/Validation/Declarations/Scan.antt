-- ===== src/Validation/Declarations/Scan.antt =====
-- The scan that jumps and remembers its searches finds the declarations that the reference reads.
use native.Mathlib.Nat.{le_refl}
use dj_hyperview.Prelude.{
  ℕ, zero, suc, ◌+◌, ◌-◌, ◌≤◌, ◌<◌, ◌≡◌, refl, sym, ◌∙◌, ap, Bool, true, false, ◌||◌, Option, none,
  some, [], ◌∷◌, arith, length, drop, drop-length, Text, Bool-cases, inl, inr, lt→ltb, le→ltb, ap,
  ◌||◌, ◌&&◌, length-drop, if◌then◌else◌,
}
use dj_hyperview.Lexer.{find, Positions, or_else}
use dj_hyperview.Lexer.Find.{
  find_from-AtLeast, AtLeast, IsForward, IsForward-empty, IsForward-later, forward_find_lem,
}
use dj_hyperview.Validation.Declarations.{
  Block, block_at, is_forbidden, candidate, after_block, declaration_loop, scan_declarations,
  doctype, entity, occurs, Django, template_literal_text, contains_forbidden_declaration,
}
use dj_hyperview.Validation.Declarations.Reference.{declares}
use dj_hyperview.Validation.Declarations.Markers.{
  Marked, block_at-Marked, declares-block, declares-plain, candidate_from-AtLeast,
  next_candidate-gt,
}

-- At the end of the text, or behind it, the loop answers `false`, as the reference does.
loop_end :
    (s : Text) (f : ℕ) (memo : Positions) (p : ℕ)
    → length s ≤ p
    → declaration_loop f s memo p ≡ declares 0 none (drop p s)
unfolding declaration_loop declares
loop_end s zero memo p h = rw (drop-length p s h) refl
loop_end s (suc f) memo p h = rw (drop-length p s h, le→ltb p (length s) h, declaration_loop) refl

-- One round, where the rounds after it are known to agree with the reference.
module _ (s : Text) (f : ℕ) (memo : Positions) (p c : ℕ) (r : Text) (before : p < length s)
    (here : drop p s ≡ c ∷ r) (forward : IsForward s memo p)
    (again : (memo' : Positions) (q : ℕ)
      → p + 1 ≤ q
      → IsForward s memo' q
      → declaration_loop f s memo' q ≡ declares 0 none (drop q s)) where
  abbrev Resumed : Option Block → Type 0
  Resumed a = block_at (c ∷ r) ≡ a → declaration_loop (suc f) s memo p ≡ declares 0 none (c ∷ r)

  block_round : (b : Block) → (1 ≤ length b.opening) × (1 ≤ length b.closing) → Resumed (some b)
  unfolding declaration_loop
  block_round b marked e =
      let start : ℕ = p + length b.opening in
      let (found, forward') =
        forward_find_lem s memo b.closing start (IsForward-later (omega arith) forward) in
      rw (lt→ltb p (length s) before, here, e, declaration_loop)
        (rw found (
            resume (find s b.closing start) _ forward'
              (find_from-AtLeast b.closing start (drop start s)))
          ∙ sym (declares-block s b p c r marked here e))
    where
      resume :
          (a : Option ℕ) (memo' : Positions)
          → IsForward s memo' (p + length b.opening)
          → AtLeast (p + length b.opening) a
          → declaration_loop f s memo' (after_block s b.closing a)
            ≡ declares 0 none (drop (after_block s b.closing a) s)
      resume none memo' fwd le = loop_end s f memo' (length s) (le_refl (length s))
      resume (some end) memo' fwd le =
          again memo' (end + length b.closing) (omega arith) (IsForward-later (omega arith) fwd)

  plain_round : Resumed none
  unfolding declaration_loop declares
  plain_round e = by_start (is_forbidden (c ∷ r)) refl
    where
      by_start :
          (a : Bool)
          → is_forbidden (c ∷ r) ≡ a
          → declaration_loop (suc f) s memo p ≡ declares 0 none (c ∷ r)
      by_start true e' =
          rw (lt→ltb p (length s) before, here, e, here, e', declaration_loop, declares) refl
      by_start false e' =
          let gt =
            next_candidate-gt s p (candidate s (p + 1)) before
              (candidate_from-AtLeast (p + 1) (drop (p + 1) s)) in
          rw (lt→ltb p (length s) before, here, e, here, e', declaration_loop)
            (again memo (or_else (candidate s (p + 1)) (length s)) gt
                (IsForward-later (omega arith) forward)
              ∙ sym (declares-plain s p c r here e e'))

  any_round : (a : Option Block) → Marked a → Resumed a
  any_round none marked = plain_round
  any_round (some b) marked = block_round b marked

loop_lem :
    (s : Text) (f : ℕ) (memo : Positions) (p : ℕ)
    → length s < p + f
    → IsForward s memo p
    → declaration_loop f s memo p ≡ declares 0 none (drop p s)
loop_lem s zero memo p fuel forward = loop_end s 0 memo p (omega arith)
loop_lem s (suc f) memo p fuel forward =
    by_text (drop p s) refl (λ memo' q gt forward'. loop_lem s f memo' q (omega arith) forward')
  where
    by_text :
        (t : Text)
        → drop p s ≡ t
        → ((memo' : Positions) (q : ℕ)
            → p + 1 ≤ q
            → IsForward s memo' q
            → declaration_loop f s memo' q ≡ declares 0 none (drop q s))
        → declaration_loop (suc f) s memo p ≡ declares 0 none (drop p s)
    by_text [] here again =
        loop_end s (suc f) memo p (omega (arith, length-drop p s, ap length here))
    by_text (c ∷ r) here again =
        let before : p < length s = omega (arith, length-drop p s, ap length here) in
        rw here (
          any_round s f memo p c r before here forward again (block_at (c ∷ r))
            (block_at-Marked (c ∷ r)) refl)

-- The scan of a text, whose fuel is enough, finds a declaration when and only when the reference
-- does.
pub scan_declarations-declares : (s : Text) → scan_declarations s ≡ declares 0 none s
unfolding scan_declarations
scan_declarations-declares s =
    loop_lem s (length s + 1) (λ _. none) 0 (omega arith) (IsForward-empty s 0)

-- A declaration is not found where neither of its two openings stands.
declares-occurs :
    (k : ℕ) (inside : Option Text) (t : Text)
    → declares k inside t ≡ true
    → (occurs doctype t || occurs entity t) ≡ true
unfolding declares occurs is_forbidden
declares-occurs k inside [] h = cc
declares-occurs (suc k) inside (c ∷ r) h = ground (arith, declares-occurs k inside r)
declares-occurs zero (some closing) (c ∷ r) h =
    ground (arith, declares-occurs (length closing - 1) none r, declares-occurs 0 (some closing) r)
declares-occurs zero none (c ∷ r) h =
    by_start (block_at (c ∷ r)) refl
      (λ b. declares-occurs (length b.opening - 1) (some b.closing) r) (declares-occurs 0 none r)
  where
    by_start :
        (a : Option Block)
        → block_at (c ∷ r) ≡ a
        → ((b : Block)
            → declares (length b.opening - 1) (some b.closing) r ≡ true
            → (occurs doctype r || occurs entity r) ≡ true)
        → (declares 0 none r ≡ true → (occurs doctype r || occurs entity r) ≡ true)
        → (occurs doctype (c ∷ r) || occurs entity (c ∷ r)) ≡ true
    by_start none e in_block outside = let h' = rw (e, declares) at h in ground (arith, outside)
    by_start (some b) e in_block outside =
        let found = in_block b (rw (e, declares) at h) in ground arith

-- The test before the scan passes over no declaration of the text that is scanned.
early_test :
    (s : Text) (found : Bool)
    → (declares 0 none s ≡ true → found ≡ true)
    → (if found then declares 0 none s else false) ≡ declares 0 none s
early_test s true h = refl
early_test s false h = elim (Bool-cases (declares 0 none s)) [
  | inl e ↦ cc (h e)
  | inr e ↦ rw e refl
]

-- A rendered document contains a forbidden declaration when and only when one is read outside
-- comments, CDATA sections and instructions, character by character. Template source contains one
-- when and only when an opening stands in the source and a declaration is so read in its literal
-- text.
pub contains_forbidden_declaration-declares :
    (django : Django) (document : Text)
    → (contains_forbidden_declaration django document false ≡ declares 0 none document)
      × (contains_forbidden_declaration django document true ≡ (
          (occurs doctype document || occurs entity document)
          && declares 0 none (template_literal_text django document)))
unfolding contains_forbidden_declaration
contains_forbidden_declaration-declares django document = (
  rw (scan_declarations-declares document) (
      early_test document (occurs doctype document || occurs entity document)
        (declares-occurs 0 none document)),
  rw (scan_declarations-declares (template_literal_text django document)) (ground arith),
)

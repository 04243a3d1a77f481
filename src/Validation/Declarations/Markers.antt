-- ===== src/Validation/Declarations/Markers.antt =====
-- Where the reference goes on after a marker of an ignored block, and between two candidates.
use native.Mathlib.Nat.{le_refl}
use dj_hyperview.Prelude.{
  ℕ, zero, suc, ◌+◌, ◌-◌, ◌≤◌, ◌<◌, ◌≡◌, refl, ◌∙◌, Bool, true, false, Option, none, some, [], ◌∷◌,
  arith, length, drop, drop-drop, drop-add_one, drop-length, Text, starts_with, Bool-cases, inl,
  inr, if◌then◌else◌,
}
use dj_hyperview.Lexer.{find_from, find, or_else}
use dj_hyperview.Lexer.Find.{AtLeast}
use dj_hyperview.Validation.Declarations.{
  Block, comment_block, cdata_block, instruction_block, block_at, is_forbidden, is_candidate,
  candidate_from, candidate, after_block,
}
use dj_hyperview.Validation.Declarations.Reference.{declares}

declares-skip :
    (k : ℕ) (inside : Option Text) (t : Text) → declares k inside t ≡ declares 0 inside (drop k t)
unfolding declares
declares-skip zero inside t = refl
declares-skip (suc k) inside [] = refl
declares-skip (suc k) inside (c ∷ r) = declares-skip k inside r

-- Both markers of an ignored block have characters.
abbrev pub Marked : Option Block → Type 0
Marked none = Unit
Marked (some b) = (1 ≤ length b.opening) × (1 ≤ length b.closing)

pub block_at-Marked : (t : Text) → Marked (block_at t)
unfolding block_at
block_at-Marked t = by_start _ _ _
  where
    by_start :
        (a b c : Bool)
        → Marked (
            if a
            then some comment_block
            else if b
            then some cdata_block
            else if c
            then some instruction_block
            else none)
    by_start true b c = (omega arith, omega arith)
    by_start false true c = (omega arith, omega arith)
    by_start false false true = (omega arith, omega arith)
    by_start false false false = tt

-- Where no candidate stands, nothing starts.
candidate-none :
    (t : Text) → is_candidate t ≡ false → (block_at t ≡ none) × (is_forbidden t ≡ false)
unfolding is_candidate block_at is_forbidden starts_with
candidate-none [] h = (refl, refl)
candidate-none (a ∷ []) h = ground arith
candidate-none (a ∷ b ∷ t) h = ground arith

pub drop-end : (s : Text) → drop (length s) s ≡ []
drop-end s = drop-length (length s) s (le_refl (length s))

module _ (s : Text) where
  declares-marker :
      (closing : Text) (p c : ℕ) (r : Text)
      → 1 ≤ length closing
      → drop p s ≡ c ∷ r
      → (m : Option Text)
      → declares (length closing - 1) m r ≡ declares 0 m (drop (p + length closing) s)
  declares-marker closing p c r le here m =
      let e : p + 1 + (length closing - 1) ≡ p + length closing = omega arith in
      rw (declares-skip (length closing - 1) m r, ← e, ← drop-drop (length closing - 1) (p + 1) s)
        (rw (drop-add_one p s here) refl)

  -- Inside a block the reference goes on behind the nearest closing marker.
  declares-inside :
      (closing : Text) (p : ℕ) (t : Text)
      → 1 ≤ length closing
      → drop p s ≡ t
      → declares 0 (some closing) t
        ≡ declares 0 none (drop (after_block s closing (find_from closing p t)) s)
  unfolding declares find_from
  declares-inside closing p [] le here = rw (drop-end s) refl
  declares-inside closing p (c ∷ r) le here = elim (Bool-cases (starts_with closing (c ∷ r))) [
    | inl e ↦ rw (e, declares) (declares-marker closing p c r le here none)
    | inr e ↦ rw (e, declares) (declares-inside closing (p + 1) r le (drop-add_one p s here))
  ]

  -- Outside it goes on at the nearest candidate.
  declares-outside :
      (p : ℕ) (t : Text)
      → drop p s ≡ t
      → declares 0 none t ≡ declares 0 none (drop (or_else (candidate_from p t) (length s)) s)
  unfolding declares candidate_from
  declares-outside p [] here = rw (drop-end s) refl
  declares-outside p (c ∷ r) here = elim (Bool-cases (is_candidate (c ∷ r))) [
    | inl e ↦ rw (e, here) refl
    | inr e ↦
        let (plain, allowed) = candidate-none (c ∷ r) e in
        rw (e, plain, allowed, declares) (declares-outside (p + 1) r (drop-add_one p s here))
  ]

  -- A round that an ignored block starts.
  pub declares-block :
      (b : Block) (p c : ℕ) (r : Text)
      → (1 ≤ length b.opening) × (1 ≤ length b.closing)
      → drop p s ≡ c ∷ r
      → block_at (c ∷ r) ≡ some b
      → declares 0 none (c ∷ r)
        ≡ declares 0 none
            (drop (after_block s b.closing (find s b.closing (p + length b.opening))) s)
  unfolding declares
  declares-block b p c r (le, le') here e =
      rw (e, declares)
        (declares-marker b.opening p c r le here (some b.closing)
          ∙ declares-inside b.closing (p + length b.opening) (drop (p + length b.opening) s) le'
              refl)

  -- A round that nothing forbidden starts.
  pub declares-plain :
      (p c : ℕ) (r : Text)
      → drop p s ≡ c ∷ r
      → block_at (c ∷ r) ≡ none
      → is_forbidden (c ∷ r) ≡ false
      → declares 0 none (c ∷ r)
        ≡ declares 0 none (drop (or_else (candidate s (p + 1)) (length s)) s)
  unfolding declares
  declares-plain p c r here e e' =
      rw (e, e', declares)
        (rw (← drop-add_one p s here) (declares-outside (p + 1) (drop (p + 1) s) refl))

pub candidate_from-AtLeast : (p : ℕ) (t : Text) → AtLeast p (candidate_from p t)
unfolding candidate_from
candidate_from-AtLeast p [] = tt
candidate_from-AtLeast p (c ∷ r) = elim (Bool-cases (is_candidate (c ∷ r))) [
  | inl e ↦ rw e (le_refl p)
  | inr e ↦ rw e (later (candidate_from (p + 1) r) (candidate_from-AtLeast (p + 1) r))
]
  where
    later : (a : Option ℕ) → AtLeast (p + 1) a → AtLeast p a
    later none h = tt
    later (some q) h = omega arith

pub next_candidate-gt :
    (s : Text) (p : ℕ) (a : Option ℕ)
    → p < length s
    → AtLeast (p + 1) a
    → p + 1 ≤ or_else a (length s)
next_candidate-gt s p none h le = omega arith
next_candidate-gt s p (some q) h le = le

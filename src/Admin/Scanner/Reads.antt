-- ===== src/Admin/Scanner/Reads.antt =====
-- The XML scanner against one that reads character by character.
use native.Mathlib.Nat.{le_refl}
use dj_hyperview.Prelude.{
  ℕ, zero, suc, ◌+◌, ◌-◌, ◌≤◌, ◌≡◌, refl, sym, ◌∙◌, Bool, true, false, Option, none, some, [], ◌∷◌,
  if◌then◌else◌, arith, length, drop, drop-drop, drop-add_one, length-drop, Text, starts_with,
  Bool-cases, inl, inr,
}
use dj_hyperview.Lexer.{find_from}
use dj_hyperview.Admin.Scanner.{
  Closed, double_quoted, single_quoted, comment, cdata, instruction, XmlState, outside, in_tag,
  inside, closer, after_closer, is_delimiter, after_delimiter, Move, opened, delimiter_from,
  from_opening, from_closer, next_move, advance, advance_xml_state,
}

-- The state behind a text, `k` characters on.
unfoldable pub read : ℕ → XmlState → Text → XmlState
read k state [] = state
read (suc k) state (c ∷ r) = read k state r
read zero outside (c ∷ r) = elim (starts_with (b'<' ∷ []) (c ∷ r)) [
  | true ↦ read ((opened (c ∷ r)).width - 1) (opened (c ∷ r)).state r
  | false ↦ read 0 outside r
]
read zero in_tag (c ∷ r) = elim (is_delimiter c) [
  | true ↦ read 0 (after_delimiter c) r
  | false ↦ read 0 in_tag r
]
read zero (inside e) (c ∷ r) = elim (starts_with (closer e) (c ∷ r)) [
  | true ↦ read (length (closer e) - 1) (after_closer e) r
  | false ↦ read 0 (inside e) r
]

read-skip : (k : ℕ) (state : XmlState) (t : Text) → read k state t ≡ read 0 state (drop k t)
unfolding read
read-skip zero state t = refl
read-skip (suc k) state [] = refl
read-skip (suc k) state (c ∷ r) = read-skip k state r

opened-width : (t : Text) → 1 ≤ (opened t).width
unfolding opened
opened-width t = ground arith

closer-length : (e : Closed) → 1 ≤ length (closer e)
closer-length double_quoted = omega arith
closer-length single_quoted = omega arith
closer-length comment = omega arith
closer-length cdata = omega arith
closer-length instruction = omega arith

module _ (s : Text) where
  -- The end of a marker of `w` characters that stands at `p`.
  read-marker :
      (w p c : ℕ) (r : Text)
      → 1 ≤ w
      → drop p s ≡ c ∷ r
      → (state : XmlState) → read (w - 1) state r ≡ read 0 state (drop (p + w) s)
  read-marker w p c r le here state =
      let e : p + 1 + (w - 1) ≡ p + w = omega arith in
      rw (read-skip (w - 1) state r, ← e, ← drop-drop (w - 1) (p + 1) s)
        (rw (drop-add_one p s here) refl)

  -- Where the reference goes on after a move from the start of the text.
  abbrev moved : XmlState → Option Move → XmlState
  moved state none = state
  moved state (some m) = read 0 m.state (drop m.width s)

  read-inside :
      (e : Closed) (p : ℕ) (t : Text)
      → drop p s ≡ t
      → read 0 (inside e) t ≡ moved (inside e) (from_closer e (find_from (closer e) p t))
  unfolding read find_from
  read-inside e p [] here = refl
  read-inside e p (c ∷ r) here = elim (Bool-cases (starts_with (closer e) (c ∷ r))) [
    | inl h ↦
        rw (h, read) (read-marker (length (closer e)) p c r (closer-length e) here (after_closer e))
    | inr h ↦ rw (h, read) (read-inside e (p + 1) r (drop-add_one p s here))
  ]

  read-in_tag :
      (p : ℕ) (t : Text) → drop p s ≡ t → read 0 in_tag t ≡ moved in_tag (delimiter_from p t)
  unfolding read delimiter_from
  read-in_tag p [] here = refl
  read-in_tag p (c ∷ r) here = elim (Bool-cases (is_delimiter c)) [
    | inl h ↦ rw (h, read) (rw (drop-add_one p s here) refl)
    | inr h ↦ rw (h, read) (read-in_tag (p + 1) r (drop-add_one p s here))
  ]

  read-outside :
      (p : ℕ) (t : Text)
      → drop p s ≡ t
      → read 0 outside t ≡ moved outside (from_opening s (find_from (b'<' ∷ []) p t))
  unfolding read find_from
  read-outside p [] here = refl
  read-outside p (c ∷ r) here = elim (Bool-cases (starts_with (b'<' ∷ []) (c ∷ r))) [
    | inl h ↦
        rw (h, read, here)
          (read-marker (opened (c ∷ r)).width p c r (opened-width (c ∷ r)) here
            (opened (c ∷ r)).state)
    | inr h ↦ rw (h, read) (read-outside (p + 1) r (drop-add_one p s here))
  ]

  read-next_move : (state : XmlState) → read 0 state s ≡ moved state (next_move state s)
  unfolding next_move
  read-next_move outside = read-outside 0 s refl
  read-next_move in_tag = read-in_tag 0 s refl
  read-next_move (inside e) = read-inside e 0 s refl

-- A move consumes a character.
abbrev Moves : Option Move → Type 0
Moves none = Unit
Moves (some m) = 1 ≤ m.width

delimiter_from-Moves : (p : ℕ) (t : Text) → Moves (delimiter_from p t)
unfolding delimiter_from
delimiter_from-Moves p [] = tt
delimiter_from-Moves p (c ∷ r) = by_delimiter (is_delimiter c) (delimiter_from-Moves (p + 1) r)
  where
    by_delimiter :
        (b : Bool)
        → Moves (delimiter_from (p + 1) r)
        → Moves (
            if b
            then some (record { state = after_delimiter c; width = p + 1 })
            else delimiter_from (p + 1) r)
    by_delimiter true later = omega arith
    by_delimiter false later = later

next_move-Moves : (state : XmlState) (t : Text) → Moves (next_move state t)
unfolding next_move
next_move-Moves outside t = by_start (find_from (b'<' ∷ []) 0 t)
  where
    by_start : (q : Option ℕ) → Moves (from_opening t q)
    by_start none = tt
    by_start (some q) = let wide = opened-width (drop q t) in omega arith
next_move-Moves in_tag t = delimiter_from-Moves 0 t
next_move-Moves (inside e) t = by_end (find_from (closer e) 0 t)
  where
    by_end : (q : Option ℕ) → Moves (from_closer e q)
    by_end none = tt
    by_end (some q) = let wide = closer-length e in omega arith

advance-read :
    (fuel : ℕ) (state : XmlState) (t : Text)
    → length t ≤ fuel
    → advance fuel state t ≡ read 0 state t
unfolding advance read
advance-read zero state [] le = refl
advance-read zero state (c ∷ r) le = absurd (omega arith)
advance-read (suc fuel) state [] le = refl
advance-read (suc fuel) state (c ∷ r) le =
    by_move (next_move state (c ∷ r)) (next_move-Moves state (c ∷ r))
      (λ n. advance-read fuel n.state (drop n.width (c ∷ r)))
    ∙ sym (read-next_move (c ∷ r) state)
  where
    by_move :
        (m : Option Move)
        → Moves m
        → ((n : Move)
            → length (drop n.width (c ∷ r)) ≤ fuel
            → advance fuel n.state (drop n.width (c ∷ r)) ≡ read 0 n.state (drop n.width (c ∷ r)))
        → elim m [ none ↦ state | some n ↦ advance fuel n.state (drop n.width (c ∷ r)) ]
          ≡ moved (c ∷ r) state m
    by_move none wide goes_on = refl
    by_move (some n) wide goes_on = goes_on n (rw (length-drop n.width (c ∷ r)) (omega arith))

-- The scanner of the text between two tokens agrees with the reading of every character.
pub advance_xml_state-read :
    (state : XmlState) (t : Text) → advance_xml_state state t ≡ read 0 state t
unfolding advance_xml_state
advance_xml_state-read state t = advance-read (length t) state t (le_refl (length t))

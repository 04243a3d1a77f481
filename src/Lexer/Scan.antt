-- ===== src/Lexer/Scan.antt =====
-- The linear scan of _template_lexer.py against the pattern that it stands for.
use native.Mathlib.Nat.{add-zero}
use dj_hyperview.Prelude.{
  ℕ, zero, suc, ◌+◌, ◌-◌, ◌≤◌, ◌<◌, ◌≡◌, ◌≢◌, refl, sym, ◌∙◌, ap, none, some, [], ◌∷◌, arith,
  length, drop, drop-drop, drop-add_one, length-drop, length-eq-add, Text, starts_with,
  Option-cases, inl, inr,
}
use dj_hyperview.Lexer.{
  newline, opener_at, closer_of, search_from, search, find_from, find, Positions, forward_find,
  Opener, end_of_tag, or_else, scan_loop, scan,
}
use dj_hyperview.Lexer.Find.{
  find_from-AtLeast, AtLeast, IsForward, IsForward-empty, IsForward-later, forward_find_lem,
}
use dj_hyperview.Lexer.Reference.{lazy_end, line_end_from, opener_record, openers_from}

-- The lazy match ends at the nearest closer, if that comes before the nearest line break.
lazy_end-find :
    (close p : ℕ) (t : Text)
    → close ≢ newline
    → end_of_tag (find_from (closer_of close) p t) (find_from (newline ∷ []) p t)
      ≡ lazy_end close p t
unfolding find_from lazy_end starts_with
lazy_end-find close p [] ne = refl
lazy_end-find close p (c ∷ r) ne = ground (
  arith,
  lazy_end-find close (p + 1) r,
  find_from-AtLeast (closer_of close) (p + 1) r,
  find_from-AtLeast (newline ∷ []) (p + 1) r,
)

line_end-find :
    (p : ℕ) (t : Text) → or_else (find_from (newline ∷ []) p t) (p + length t) ≡ line_end_from p t
unfolding find_from line_end_from starts_with
line_end-find p [] = add-zero p
line_end-find p (c ∷ r) = ground (arith, line_end-find (p + 1) r)

-- The characters of an opener, and that of its closer, are no line breaks.
opener_chars :
    (c d : ℕ) (r : Text) (close : ℕ)
    → opener_at (c ∷ d ∷ r) ≡ some close
    → (c ≢ newline) × (d ≢ newline) × (close ≢ newline)
unfolding opener_at
opener_chars c d r close h = ground arith

-- A skip of `k` characters is a start `k` places further.
openers_from-skip : (k p : ℕ) (t : Text) → openers_from k p t ≡ openers_from 0 (p + k) (drop k t)
unfolding openers_from
openers_from-skip zero p t = rw add-zero
openers_from-skip (suc k) p [] = refl
openers_from-skip (suc k) p (c ∷ r) =
    let e : p + suc k ≡ p + 1 + k = omega arith in rw e (openers_from-skip k (p + 1) r)

-- Without an opener at `p` the loop goes on as from the next position.
scan_loop-search :
    (f : ℕ) (s : Text) (memo : Positions) (p q : ℕ)
    → search s p ≡ search s q
    → scan_loop f s memo p ≡ scan_loop f s memo q
unfolding scan_loop
scan_loop-search zero s memo p q e = refl
scan_loop-search (suc f) s memo p q e = rw (e, scan_loop)

rest_of_opener : (s : Text) (p : ℕ) {c d : ℕ} {r : Text} → drop p s ≡ c ∷ d ∷ r → drop (p + 2) s ≡ r
rest_of_opener s p here =
    let e : p + 2 ≡ p + 1 + 1 = omega arith in rw e (drop-add_one (p + 1) s (drop-add_one p s here))

line_end_from-opener :
    (p c d : ℕ) (r : Text)
    → c ≢ newline
    → d ≢ newline
    → line_end_from p (c ∷ d ∷ r) ≡ line_end_from (p + 2) r
unfolding line_end_from
line_end_from-opener p c d r ne_c ne_d =
    let e : p + 1 + 1 ≡ p + 2 = omega arith in rw (← e) (ground arith)

-- What a round of the loop yields for the opener at `p` is what the pattern makes of it.
abbrev found_record : Text → ℕ → ℕ → Opener
found_record s p close =
    let eol = find s (newline ∷ []) (p + 2) in
    record {
      start = p;
      tag_end = end_of_tag (find s (closer_of close) (p + 2)) eol;
      line_end = or_else eol (length s);
    }

opener_record-find :
    (s : Text) (p c : ℕ) (r : Text) (close : ℕ)
    → drop p s ≡ c ∷ r
    → opener_at (c ∷ r) ≡ some close
    → found_record s p close ≡ opener_record close p (c ∷ r)
unfolding opener_record opener_at
opener_record-find s p c [] close here open_ = cc
opener_record-find s p c (d ∷ r) close here open_ =
    let (ne_c, ne_d, ne) = opener_chars c d r close open_ in
    let rest : drop (p + 2) s ≡ r = rest_of_opener s p here in
    let size : length s ≡ p + 2 + length r = omega (arith, length-eq-add p s here) in
    cc (
      rest,
      size,
      lazy_end-find close (p + 2) r ne,
      line_end-find (p + 2) r,
      line_end_from-opener p c d r ne_c ne_d,
    )

abbrev next_start : Opener → ℕ → ℕ
next_start o p = or_else o.tag_end (p + 1)

lazy_end-AtLeast : (close p : ℕ) (t : Text) → AtLeast (p + 1) (lazy_end close p t)
unfolding lazy_end
lazy_end-AtLeast close p [] = tt
lazy_end-AtLeast close p (c ∷ r) = ground (arith, lazy_end-AtLeast close (p + 1) r)

-- The scan moves on.
next_start-gt : (close p : ℕ) (t : Text) → p + 1 ≤ next_start (opener_record close p t) p
unfolding opener_record
next_start-gt close p [] = omega arith
next_start-gt close p (c ∷ []) = omega arith
next_start-gt close p (c ∷ d ∷ r) = ground (arith, lazy_end-AtLeast close (p + 2) r)

module _ (s : Text) (p c : ℕ) (r : Text) (here : drop p s ≡ c ∷ r) where
  search-plain : opener_at (c ∷ r) ≡ none → search s p ≡ search s (p + 1)
  unfolding search_from
  search-plain plain = rw (here, drop-add_one p s here, plain, search_from)

  search-open : (close : ℕ) → opener_at (c ∷ r) ≡ some close → search s p ≡ some (p, close)
  unfolding search_from
  search-open close op = rw (here, op, search_from)

scan_loop-end :
    (f : ℕ) (s : Text) (memo : Positions) (p : ℕ) → drop p s ≡ [] → scan_loop (suc f) s memo p ≡ []
unfolding scan_loop search_from
scan_loop-end f s memo p here = rw (here, scan_loop)

-- One round of the loop, with its two searches answered.
scan_loop-round :
    (f : ℕ) (s : Text) (memo : Positions) (p close : ℕ)
    → search s p ≡ some (p, close)
    → IsForward s memo (p + 1)
    → (memo' : Positions) × IsForward s memo' (p + 2)
      × (scan_loop (suc f) s memo p
          ≡ found_record s p close ∷ scan_loop f s memo' (next_start (found_record s p close) p))
unfolding scan_loop
scan_loop-round f s memo p close e fw =
    let m₁ = (forward_find s memo (closer_of close) (p + 2)).1 in
    let m₂ = (forward_find s m₁ (newline ∷ []) (p + 2)).1 in
    let f₁ = forward_find_lem s memo (closer_of close) (p + 2) (IsForward-later (omega arith) fw) in
    let f₂ = forward_find_lem s m₁ (newline ∷ []) (p + 2) f₁.1 in
    (m₂, f₂.1, rw (e, scan_loop) (rw (f₁.0, f₂.0) refl))

-- From a position at which the text `t` stands, with fuel above its length, the loop yields the
-- openers of the pattern.
scan_loop-openers :
    (n f p : ℕ) (s : Text) (memo : Positions) (t : Text)
    → drop p s ≡ t
    → length t ≤ n
    → length t < f
    → IsForward s memo (p + 1)
    → scan_loop f s memo p ≡ openers_from 0 p t
unfolding openers_from
scan_loop-openers n zero p s memo t e le lt fw = elim lt [ ]
scan_loop-openers n (suc f) p s memo [] e le lt fw = scan_loop-end f s memo p e
scan_loop-openers zero (suc f) p s memo (c ∷ r) e le lt fw = absurd (omega arith)
scan_loop-openers (suc n) (suc f) p s memo (c ∷ r) e le lt fw =
    elim (Option-cases (opener_at (c ∷ r))) [
      | inl plain ↦
          rw (plain, openers_from)
            (scan_loop-search (suc f) s memo p (p + 1) (search-plain s p c r e plain)
              ∙ scan_loop-openers n (suc f) (p + 1) s memo r (drop-add_one p s e) (omega arith)
                  (omega arith) (IsForward-later (omega arith) fw))
      | inr (close, op) ↦
          let o = opener_record close p (c ∷ r) in
          let (memo', fw', yields) =
            scan_loop-round f s memo p close (search-open s p c r e close op) fw in
          let k = next_start o p - (p + 1) in
          let next : p + 1 + k ≡ next_start o p = omega (arith, next_start-gt close p (c ∷ r)) in
          let there : drop (next_start o p) s ≡ drop k r =
            ap (λ j. drop j s) (sym next)
            ∙ sym (drop-drop k (p + 1) s)
            ∙ ap (drop k) (drop-add_one p s e) in
          let rest =
            scan_loop-openers n f (next_start o p) s memo' (drop k r) there
              (omega (arith, length-drop k r)) (omega (arith, length-drop k r))
              (IsForward-later (omega (arith, next_start-gt close p (c ∷ r))) fw') in
          rw (op, openers_from)
            (cc (
              yields,
              opener_record-find s p c r close e op,
              openers_from-skip k (p + 1) r,
              next,
              rest,
            ))
    ]

-- For every text the scan yields the openers of the pattern, each with the end of its tag, if the
-- pattern matches there, and the end of its line.
pub scan-openers_from : (s : Text) → scan s ≡ openers_from 0 0 s
unfolding scan
scan-openers_from s =
    scan_loop-openers (length s) (length s + 1) 0 s (λ _. none) s refl (omega arith) (omega arith)
      (IsForward-empty s 1)

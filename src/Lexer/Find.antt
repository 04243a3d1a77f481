-- ===== src/Lexer/Find.antt =====
-- `_forward_find`: the answers that its dictionary keeps are those of `str.find`.
use dj_hyperview.Prelude.{
  ℕ, zero, suc, ◌+◌, ◌-◌, ◌≤◌, ◌≡◌, refl, sym, Option, none, some, [], ◌∷◌, ltb, arith, drop,
  drop-drop, Text, text_eq, eq_of_text_eq, Bool-cases, inl, inr, ltb→le,
}
use native.Mathlib.Nat.{add-zero, le_refl}
use dj_hyperview.Lexer.{find_from, find, Positions, remember, search_again, forward_find}

pub find_from-ge : (m : Text) (p : ℕ) (t : Text) (q : ℕ) → find_from m p t ≡ some q → p ≤ q
unfolding find_from
find_from-ge m p [] q h = cc
find_from-ge m p (c ∷ r) q h = ground (arith, find_from-ge m (p + 1) r q)

-- A position that is none, or at least `p`.
abbrev pub AtLeast : ℕ → Option ℕ → Type 0
AtLeast p none = Unit
AtLeast p (some q) = p ≤ q

pub find_from-AtLeast : (m : Text) (p : ℕ) (t : Text) → AtLeast p (find_from m p t)
find_from-AtLeast m p t = bound (find_from m p t) refl
  where
    bound : (a : Option ℕ) → find_from m p t ≡ a → AtLeast p a
    bound none e = tt
    bound (some q) e = find_from-ge m p t q e

step_right : (p k : ℕ) → p + suc k ≡ p + 1 + k
step_right p k = omega arith

-- What the rest of a text answers, once `k` characters are behind.
find_from-none :
    (m : Text) (k p : ℕ) (t : Text) → find_from m p t ≡ none → find_from m (p + k) (drop k t) ≡ none
unfolding find_from
find_from-none m zero p t h = rw add-zero h
find_from-none m (suc k) p [] h = refl
find_from-none m (suc k) p (c ∷ r) h =
    rw (step_right p k) (find_from-none m k (p + 1) r (ground arith))

find_from-some :
    (m : Text) (k p : ℕ) (t : Text) (q : ℕ)
    → find_from m p t ≡ some q
    → p + k ≤ q
    → find_from m (p + k) (drop k t) ≡ some q
unfolding find_from
find_from-some m zero p t q h le = rw add-zero h
find_from-some m (suc k) p [] q h le = cc
find_from-some m (suc k) p (c ∷ r) q h le =
    rw (step_right p k) (find_from-some m k (p + 1) r q (ground arith) (omega arith))

module _ (s m : Text) where
  find-none : (p n : ℕ) → p ≤ n → find s m p ≡ none → find s m n ≡ none
  find-none p n le h =
      let e : p + (n - p) ≡ n = omega arith in
      rw (← e, ← drop-drop (n - p) p s) (find_from-none m (n - p) p (drop p s) h)

  find-some : (p n q : ℕ) → p ≤ n → n ≤ q → find s m p ≡ some q → find s m n ≡ some q
  find-some p n q le le' h =
      let e : p + (n - p) ≡ n = omega arith in
      rw (← e, ← drop-drop (n - p) p s) (find_from-some m (n - p) p (drop p s) q h (omega arith))

-- Each answer in the dictionary is the one of a search that started at or before `start`.
pub record IsForward (s : Text) (memo : Positions) (start : ℕ) : Type 0 where
  pub answer :
      (m : Text) (r : Option ℕ) → memo m ≡ some r → (p : ℕ) × (p ≤ start) × (find s m p ≡ r)

pub IsForward-empty : (s : Text) (start : ℕ) → IsForward s (λ _. none) start
IsForward-empty s start = record { answer = λ m r h. cc }

pub IsForward-later :
    {s : Text} {memo : Positions} {p n : ℕ} → p ≤ n → IsForward s memo p → IsForward s memo n
IsForward-later le f = record {
  answer = λ m r h. let (q, before, found) = f.answer m r h in (q, omega arith, found);
}

module _ (s : Text) (memo : Positions) (m : Text) (start : ℕ) (f : IsForward s memo start) where
  hit : (j : Text) (r : Option ℕ) → j ≡ m → some (find s m start) ≡ some r → find s j start ≡ r
  hit j r e h = cc

  search_again-IsForward : IsForward s (search_again s memo m start).1 start
  unfolding search_again remember
  search_again-IsForward = record {
    answer = λ j r h. elim (Bool-cases (text_eq j m)) [
      | inl e ↦ (start, le_refl start, hit j r (eq_of_text_eq j m e) (rw e at h))
      | inr e ↦ f.answer j r (rw e at h)
    ];
  }

  -- The memoised search answers as `str.find`, and leaves a dictionary that is forward from `start`.
  pub forward_find_lem :
      ((forward_find s memo m start).0 ≡ find s m start)
      × IsForward s (forward_find s memo m start).1 start
  unfolding forward_find
  forward_find_lem = by_answer (memo m) refl
    where
      by_answer :
          (a : Option (Option ℕ))
          → memo m ≡ a
          → ((forward_find s memo m start).0 ≡ find s m start)
            × IsForward s (forward_find s memo m start).1 start
      by_answer none e = rw (e, forward_find) (refl, search_again-IsForward)
      by_answer (some none) e =
          let (q, le, miss) = f.answer m none e in
          rw (e, forward_find) (sym (find-none s m q start le miss), f)
      by_answer (some (some p)) e = elim (Bool-cases (ltb p start)) [
        | inl old ↦ rw (e, forward_find) (rw old (refl, search_again-IsForward))
        | inr new ↦
            let (q, le, hit') = f.answer m (some p) e in
            rw (e, forward_find)
              (rw new (sym (find-some s m q start p le (ltb→le p start new) hit'), f))
      ]

-- ===== src/Prelude/Chars.antt =====
-- Texts as lists of code points (or of bytes), with their Boolean equality and prefix test.
use Prim.Native.Char.{code}
use Prim.Native.String.{String}
use Prim.Native.Nat.{ℕ, suc, ◌+◌}
use mathlib.Core.Path.{◌≡◌, refl, ap}
use mathlib.Core.Logic.{◌↔◌, ◌≢◌, inl, inr}
use mathlib.Core.Bool.{Bool, true, false, ◌&&◌, ◌||◌}
use mathlib.Core.List.{List, [], ◌∷◌, ◌++◌}
use native.Mathlib.Omega.{arith}
use dj_hyperview.Prelude.Tests.{◌==◌, if◌then◌else◌, Bool-cases, eq_of_eqb}

abbrev pub Text : Type 0
Text = List ℕ

-- The code points of a literal.
abbrev pub codes : String → Text
codes String.[] = []
codes (String.◌∷◌ c s) = code c ∷ codes s

unfoldable pub text_eq : Text → Text → Bool
text_eq [] [] = true
text_eq (a ∷ s) (b ∷ t) = a == b && text_eq s t
text_eq _ _ = false

pub text_eq_refl : (s : Text) → text_eq s s ≡ true
unfolding text_eq
text_eq_refl [] = refl
text_eq_refl (a ∷ s) = ground (arith, text_eq_refl s)

pub eq_of_text_eq : (s t : Text) → text_eq s t ≡ true → s ≡ t
unfolding text_eq
eq_of_text_eq [] [] h = refl
eq_of_text_eq [] (b ∷ t) h = cc
eq_of_text_eq (a ∷ s) [] h = cc
eq_of_text_eq (a ∷ s) (b ∷ t) h = ground (arith, eq_of_text_eq s t)

pub text_eq_iff : (s t : Text) → (text_eq s t ≡ true) ↔ (s ≡ t)
text_eq_iff s t = (eq_of_text_eq s t, λ e. ground (arith, text_eq_refl s))

-- `text.startswith(prefix)`
unfoldable pub starts_with : Text → Text → Bool
starts_with [] t = true
starts_with (a ∷ s) [] = false
starts_with (a ∷ s) (b ∷ t) = a == b && starts_with s t

-- `item in items`
unfoldable pub contains : ℕ → Text → Bool
contains c [] = false
contains c (a ∷ t) = a == c || contains c t

-- `text.count(c)` of one character.
unfoldable pub count : ℕ → Text → ℕ
count c [] = 0
count c (a ∷ t) = if a == c then suc (count c t) else count c t

-- `text.split(separator)` at one character: never an empty list.
abbrev pub cons_first : ℕ → List Text → List Text
cons_first c [] = (c ∷ []) ∷ []
cons_first c (s ∷ ss) = (c ∷ s) ∷ ss

unfoldable pub split : ℕ → Text → List Text
split separator [] = [] ∷ []
split separator (c ∷ t) =
    if c == separator then [] ∷ split separator t else cons_first c (split separator t)

pub count-append : (c : ℕ) (s t : Text) → count c (s ++ t) ≡ count c s + count c t
unfolding count
count-append c [] t = omega arith
count-append c (a ∷ s) t = ground (arith, count-append c s t)

-- `separator.join(parts)` at one character.
unfoldable pub join : ℕ → List Text → Text
join separator [] = []
join separator (s ∷ []) = s
join separator (s ∷ t ∷ ss) = s ++ (separator ∷ join separator (t ∷ ss))

join-cons_first : (d c : ℕ) (ss : List Text) → join d (cons_first c ss) ≡ c ∷ join d ss
unfolding join
join-cons_first d c [] = refl
join-cons_first d c (s ∷ []) = refl
join-cons_first d c (s ∷ t ∷ ss) = refl

join-nil : (d : ℕ) (ss : List Text) → ss ≢ [] → join d ([] ∷ ss) ≡ d ∷ join d ss
unfolding join
join-nil d [] h = absurd (h refl)
join-nil d (s ∷ ss) h = refl

split-ne-nil : (d : ℕ) (t : Text) → split d t ≢ []
unfolding split
split-ne-nil d [] = λ h. cc
split-ne-nil d (c ∷ t) = λ h. elim (Bool-cases (c == d)) [
  | inl e ↦ cc (rw e at h)
  | inr e ↦ cons_first-ne-nil c (split d t) (rw e at h)
]
  where
    cons_first-ne-nil : (c : ℕ) (ss : List Text) → cons_first c ss ≢ []
    cons_first-ne-nil c [] = λ h. cc
    cons_first-ne-nil c (s ∷ ss) = λ h. cc

-- A text is put together again from its parts.
pub join-split : (d : ℕ) (t : Text) → join d (split d t) ≡ t
unfolding split
join-split d [] = unfold join in refl
join-split d (c ∷ t) = elim (Bool-cases (c == d)) [
  | inl e ↦ rw (e, join-nil d (split d t) (split-ne-nil d t)) (cc (eq_of_eqb c d e, join-split d t))
  | inr e ↦ rw (e, join-cons_first d c (split d t)) (ap (◌∷◌ c) (join-split d t))
]

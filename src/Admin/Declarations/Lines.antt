-- ===== src/Admin/Declarations/Lines.antt =====
-- `_blank_xml_declarations` keeps the lines of a text, and its size.
use dj_hyperview.Prelude.{
  ℕ, zero, suc, ◌+◌, ◌-◌, ◌≤◌, ◌≡◌, refl, sym, ◌∙◌, ap, Bool, Option, none, some, ◌++◌, arith,
  length, take, drop, take-drop, drop-drop, length-drop, [], ◌∷◌, length-append, Text, count,
  count-append, codes,
}
use dj_hyperview.Lexer.{newline, slice}
use dj_hyperview.Lexer.Find.{find_from-ge}
use dj_hyperview.Admin.Scanner.{blank}
use dj_hyperview.Admin.Declarations.{opener_from, closer_after, blank_from, blank_xml_declarations}
use dj_hyperview.Admin.Mask.Loop.Tiles.{count-blank, length-blank}

-- Two texts of one size, with as many lines.
abbrev pub Alike : Text → Text → Type 0
Alike s t = (count newline s ≡ count newline t) × (length s ≡ length t)

in_parts : (p q : ℕ) (t : Text) → p ≤ q → t ≡ take p t ++ (slice t p q ++ drop q t)
in_parts p q t le =
    let e : p + (q - p) ≡ q = omega arith in
    sym (take-drop p t)
    ∙ ap (λ d. take p t ++ d)
        (sym (take-drop (q - p) (drop p t))
          ∙ ap (λ d. slice t p q ++ d) (drop-drop (q - p) p t ∙ ap (λ n. drop n t) e))

count-parts :
    (a b c : Text)
    → count newline (a ++ (b ++ c)) ≡ count newline a + (count newline b + count newline c)
count-parts a b c =
    count-append newline a (b ++ c) ∙ ap (λ n. count newline a + n) (count-append newline b c)

length-parts : (a b c : Text) → length (a ++ (b ++ c)) ≡ length a + (length b + length c)
length-parts a b c = length-append a (b ++ c) ∙ ap (λ n. length a + n) (length-append b c)

-- A text in three parts, the middle one blanked and the last one replaced.
replace-Alike :
    (p q : ℕ) (t rest : Text)
    → p ≤ q
    → Alike rest (drop q t)
    → Alike (take p t ++ (blank (slice t p q) ++ rest)) t
replace-Alike p q t rest le (lines, size) =
    let a = take p t in
    let b = slice t p q in
    let c = drop q t in
    let whole = in_parts p q t le in
    (
      count-parts a (blank b) rest
          ∙ rw (count-blank b, lines) (sym (count-parts a b c))
          ∙ ap (count newline) (sym whole),
      length-parts a (blank b) rest
          ∙ rw (length-blank b, size) (sym (length-parts a b c))
          ∙ ap length (sym whole),
    )

module _ (is_space : ℕ → Bool) where
  blank_from-Alike : (fuel : ℕ) (t : Text) → Alike (blank_from is_space fuel t) t
  unfolding blank_from
  blank_from-Alike zero t = (refl, refl)
  blank_from-Alike (suc fuel) t =
      by_opener (opener_from is_space 0 t) (λ q. blank_from-Alike fuel (drop q t))
    where
      by_opener :
          (a : Option ℕ)
          → ((q : ℕ) → Alike (blank_from is_space fuel (drop q t)) (drop q t))
          → Alike
              (elim a [
                | none ↦ t
                | some start ↦ elim (closer_after is_space t start) [
                  | none ↦ t
                  | some closer ↦
                      take start t
                      ++ (blank (slice t start (closer + 2))
                          ++ blank_from is_space fuel (drop (closer + 2) t))
                ]
              ])
              t
      by_opener none later = (refl, refl)
      by_opener (some start) later = by_closer (closer_after is_space t start) refl
        where
          by_closer :
              (b : Option ℕ)
              → closer_after is_space t start ≡ b
              → Alike
                  (elim b [
                    | none ↦ t
                    | some closer ↦
                        take start t
                        ++ (blank (slice t start (closer + 2))
                            ++ blank_from is_space fuel (drop (closer + 2) t))
                  ])
                  t
          by_closer none e = (refl, refl)
          by_closer (some closer) e =
              let behind = find_from-ge (codes "?>") (start + 6) (drop (start + 6) t) closer e in
              replace-Alike start (closer + 2) t (blank_from is_space fuel (drop (closer + 2) t))
                (omega arith) (later (closer + 2))

  pub blank_xml_declarations-Alike : (t : Text) → Alike (blank_xml_declarations is_space t) t
  unfolding blank_xml_declarations
  blank_xml_declarations-Alike t = blank_from-Alike (length t) t

  -- Fuel for every character is enough: more of it changes nothing.
  blank_from-fuel :
      (f g : ℕ) (t : Text)
      → length t ≤ f
      → length t ≤ g
      → blank_from is_space f t ≡ blank_from is_space g t
  unfolding blank_from
  blank_from-fuel zero zero t le le' = refl
  blank_from-fuel zero (suc g) [] le le' = refl
  blank_from-fuel zero (suc g) (c ∷ t) le le' = absurd (omega arith)
  blank_from-fuel (suc f) zero [] le le' = refl
  blank_from-fuel (suc f) zero (c ∷ t) le le' = absurd (omega arith)
  blank_from-fuel (suc f) (suc g) t le le' = by_opener (opener_from is_space 0 t) (λ q.
      blank_from-fuel f g (drop (q + 2) t) (rw (length-drop (q + 2) t) (omega arith))
        (rw (length-drop (q + 2) t) (omega arith)))
    where
      go_on : ℕ → ℕ → ℕ → Text
      go_on fuel start closer =
          take start t
          ++ (blank (slice t start (closer + 2)) ++ blank_from is_space fuel (drop (closer + 2) t))

      by_closer :
          (start : ℕ) (b : Option ℕ)
          → ((q : ℕ)
              → blank_from is_space f (drop (q + 2) t) ≡ blank_from is_space g (drop (q + 2) t))
          → elim b [ none ↦ t | some q ↦ go_on f start q ]
            ≡ elim b [ none ↦ t | some q ↦ go_on g start q ]
      by_closer start none later = refl
      by_closer start (some q) later =
          ap (λ rest. take start t ++ (blank (slice t start (q + 2)) ++ rest)) (later q)

      by_opener :
          (a : Option ℕ)
          → ((q : ℕ)
              → blank_from is_space f (drop (q + 2) t) ≡ blank_from is_space g (drop (q + 2) t))
          → elim a [
            | none ↦ t
            | some start ↦ elim (closer_after is_space t start) [
              | none ↦ t
              | some q ↦ go_on f start q
            ]
          ]
            ≡ elim a [
              | none ↦ t
              | some start ↦ elim (closer_after is_space t start) [
                | none ↦ t
                | some q ↦ go_on g start q
              ]
            ]
      by_opener none later = refl
      by_opener (some start) later = by_closer start (closer_after is_space t start) later

-- ===== src/Sources/Canonical.antt =====
-- What the rule for canonical names accepts, and where an accepted name can lead.
use mathlib.Core.List.{append-nil, append_assoc, append_cancel_left}
use dj_hyperview.Prelude.{
  join, join-split, sym, ap, ◌∙◌, All-imp, ℕ, Bool, false, ◌||◌, List, [], ◌∷◌, ◌++◌, ◌==◌, ◌≡◌,
  ◌≢◌, ◌↔◌, refl, if◌then◌else◌, arith, Text, text_eq, text_eq_iff, starts_with, contains, split,
  All, Bool-cases, inl, inr,
}
use dj_hyperview.Errors.{ok}
use dj_hyperview.Sources.{
  text, slash, backslash, dot, dot_dot, has_drive, any_in, is_relative_part, refused,
  canonicalize_template_name,
}

-- A segment that names an entry of the directory it is looked up in.
pub record IsEntry (part : Text) : Type 0 where
  pub nonempty : part ≢ []
  pub not_dot : part ≢ dot
  pub not_dot_dot : part ≢ dot_dot

pub record IsCanonical (unsafe : ℕ → Bool) (name : Text) : Type 0 where
  pub entries : All IsEntry (split slash name)
  pub no_drive : has_drive name ≡ false
  pub no_backslash : contains backslash name ≡ false
  pub no_nul : contains 0 name ≡ false
  pub safe : All (λ c. unsafe c ≡ false) name

any_in-false {ℓ} :
    {A : Type ℓ} (p : A → Bool) (xs : List A) → (any_in p xs ≡ false) ↔ All (λ x. p x ≡ false) xs
unfolding any_in
any_in-false p [] = (λ h. tt, λ h. refl)
any_in-false p (x ∷ xs) = (
  λ h. (ground arith, (any_in-false p xs).0 (ground arith)),
  λ h. ground (arith, (any_in-false p xs).1 h.1),
)

module _ (part : Text) where
  is_relative_part-IsEntry : is_relative_part part ≡ false → IsEntry part
  unfolding is_relative_part
  is_relative_part-IsEntry h = record {
    nonempty = λ e. ground (arith, text_eq_iff part []);
    not_dot = λ e. ground (arith, text_eq_iff part dot);
    not_dot_dot = λ e. ground (arith, text_eq_iff part dot_dot);
  }

  IsEntry-is_relative_part : IsEntry part → is_relative_part part ≡ false
  unfolding is_relative_part
  IsEntry-is_relative_part h =
      ground (arith, text_eq_iff part [], text_eq_iff part dot, text_eq_iff part dot_dot)

-- The empty name and a leading slash show as an empty first segment.
first_segment :
    (name : Text)
    → All IsEntry (split slash name)
    → (text_eq name [] ≡ false) × (starts_with (slash ∷ []) name ≡ false)
unfolding split text_eq starts_with
first_segment [] h = absurd (h.0.nonempty refl)
first_segment (c ∷ r) h = elim (Bool-cases (c == slash)) [
  | inl e ↦ absurd ((rw e at h).0.nonempty refl)
  | inr e ↦ (refl, ground arith)
]

module _ (unsafe : ℕ → Bool) (name : Text) where
  refused-IsCanonical : refused unsafe name ≡ false → IsCanonical unsafe name
  unfolding refused
  refused-IsCanonical h = record {
    entries =
        All-imp is_relative_part-IsEntry (split slash name)
          ((any_in-false is_relative_part (split slash name)).0 (ground arith));
    no_drive = ground arith;
    no_backslash = ground arith;
    no_nul = ground arith;
    safe = (any_in-false unsafe name).0 (ground arith);
  }

  IsCanonical-refused : IsCanonical unsafe name → refused unsafe name ≡ false
  unfolding refused
  IsCanonical-refused h =
      let (filled, relative) = first_segment name h.entries in
      let parts =
        (any_in-false is_relative_part (split slash name)).1
          (All-imp IsEntry-is_relative_part (split slash name) h.entries) in
      ground (arith, (any_in-false unsafe name).1 h.safe)

-- A name is accepted, unchanged, exactly if each of its segments names an entry, and it has no
-- drive, backslash, NUL or unsafe character.
pub canonicalize_template_name-IsCanonical :
    (unsafe : ℕ → Bool) (name result : Text)
    → (canonicalize_template_name unsafe (text name) ≡ ok result)
      ↔ ((result ≡ name) × IsCanonical unsafe name)
unfolding canonicalize_template_name
canonicalize_template_name-IsCanonical unsafe name result = (
  λ h. (ground arith, refused-IsCanonical unsafe name (ground arith)),
  λ h. ground (arith, IsCanonical-refused unsafe name h.1),
)

drop_last : List Text → List Text
drop_last [] = []
drop_last (d ∷ []) = []
drop_last (d ∷ e ∷ ds) = d ∷ drop_last (e ∷ ds)

-- A step of a lexical walk through a directory tree, a directory being the list of its segments.
step_to : List Text → Text → List Text
step_to dir part =
    if text_eq part [] || text_eq part dot
    then dir
    else if text_eq part dot_dot
    then drop_last dir
    else dir ++ part ∷ []

pub walk : List Text → List Text → List Text
walk dir [] = dir
walk dir (part ∷ parts) = walk (step_to dir part) parts

step_to-IsEntry :
    (dir : List Text) (part : Text) → IsEntry part → step_to dir part ≡ dir ++ part ∷ []
unfolding step_to
step_to-IsEntry dir part h =
    ground (arith, text_eq_iff part [], text_eq_iff part dot, text_eq_iff part dot_dot)

walk-entries : (dir parts : List Text) → All IsEntry parts → walk dir parts ≡ dir ++ parts
unfolding walk
walk-entries dir [] h = sym (append-nil dir)
walk-entries dir (p ∷ ps) h =
    walk-entries (step_to dir p) ps h.1
    ∙ ap (λ d. d ++ ps) (step_to-IsEntry dir p h.0)
    ∙ append_assoc dir (p ∷ []) ps

canonical-entries :
    (unsafe : ℕ → Bool) (name : Text)
    → canonicalize_template_name unsafe (text name) ≡ ok name
    → All IsEntry (split slash name)
canonical-entries unsafe name a =
    ((canonicalize_template_name-IsCanonical unsafe name name).0 a).1.entries

-- A walk from any directory along an accepted name only goes down: it ends at the directory's own
-- path followed by the segments of the name.
canonicalize_template_name-walk :
    (unsafe : ℕ → Bool) (dir : List Text) (name : Text)
    → canonicalize_template_name unsafe (text name) ≡ ok name
    → walk dir (split slash name) ≡ dir ++ split slash name
canonicalize_template_name-walk unsafe dir name h =
    walk-entries dir (split slash name) (canonical-entries unsafe name h)

-- A walk from any directory along an accepted name only goes down: it ends at the directory's own
-- path followed by the segments of the name. Two accepted names that lead from one directory to the
-- same place are the same name.
pub walk-injective :
    (unsafe : ℕ → Bool) (dir : List Text) (name name' : Text)
    → canonicalize_template_name unsafe (text name) ≡ ok name
    → canonicalize_template_name unsafe (text name') ≡ ok name'
    → walk dir (split slash name) ≡ walk dir (split slash name')
    → (walk dir (split slash name) ≡ dir ++ split slash name) × (name ≡ name')
walk-injective unsafe dir name name' h h' e =
    let down = canonicalize_template_name-walk unsafe dir name h in
    let down' = canonicalize_template_name-walk unsafe dir name' h' in
    let same =
      append_cancel_left dir (split slash name) (split slash name') (sym down ∙ e ∙ down') in
    (down, sym (join-split slash name) ∙ ap (join slash) same ∙ join-split slash name')

-- ===== src/Database/Signals/Covers.antt =====
-- A save that may change what a name resolves to schedules the invalidation of that name.
use mathlib.Core.Path.{subst}
use dj_hyperview.Prelude.{
  ℕ, ◌≡◌, refl, sym, ap, ◌⊎◌, inl, inr, Bool, true, false, Option, none, some, List, [], ◌∷◌,
  if◌then◌else◌, Text, text_eq, text_eq_refl, eq_of_text_eq, Bool-cases, arith,
}
use dj_hyperview.Errors.{ok}
use dj_hyperview.Sources.{canonicalize_template_name, text}
use dj_hyperview.Cache.Json.{member}
use dj_hyperview.Cache.Entries.{canonical_names, distinct}
use dj_hyperview.Database.Services.Writes.{canonical-cases}
use dj_hyperview.Database.Signals.{
  is_irrelevant, keeps_name, canonical_name_or_none, names_from, captured_names, captured_result,
  capture_save, schedule_invalidation, schedule_save,
}

module _ (unsafe : ℕ → Bool) where
  abbrev pub IsName : Text → Type 0
  IsName n = canonicalize_template_name unsafe (text n) ≡ ok n

  -- The name that a row has after a save.
  abbrev pub stored_name : Option (List Text) → Option Text → Text → Option Text
  stored_name update_fields persisted name =
      if keeps_name update_fields then persisted else some name

  canonical_name_or_none-IsName :
      (n : Text) → IsName n → canonical_name_or_none unsafe (some n) ≡ some n
  unfolding canonical_name_or_none
  canonical_name_or_none-IsName n h = rw h refl

  canonical_name_or_none-some :
      (o : Option Text) (n : Text)
      → canonical_name_or_none unsafe o ≡ some n
      → IsName n × (o ≡ some n)
  unfolding canonical_name_or_none
  canonical_name_or_none-some none n h = cc
  canonical_name_or_none-some (some m) n h = elim (canonical-cases unsafe m) [
    | inl e ↦ let same : m ≡ n = cc (rw e at h) in (rw (← same) e, ap some same)
    | inr e ↦ cc (rw e at h)
  ]

  -- Canonical names are scheduled as they are.
  schedule-one : (n : Text) → IsName n → schedule_invalidation unsafe (n ∷ []) ≡ ok (some (n ∷ []))
  unfolding schedule_invalidation canonical_names distinct member
  schedule-one n h = rw (h, canonical_names) refl

  schedule-two :
      (m n : Text)
      → IsName m
      → IsName n
      → text_eq m n ≡ false
      → schedule_invalidation unsafe (m ∷ n ∷ []) ≡ ok (some (m ∷ n ∷ []))
  unfolding schedule_invalidation canonical_names distinct member
  schedule-two m n h h' e = rw (h, h', canonical_names) (rw e refl)

  schedule-names_from :
      (old : Option Text) (new : Text)
      → ((n : Text) → old ≡ some n → IsName n)
      → IsName new
      → schedule_invalidation unsafe (names_from unsafe old new)
        ≡ ok (some (names_from unsafe old new))
  schedule-names_from none new h h' = schedule-one new h'
  schedule-names_from (some old) new h h' = elim (Bool-cases (text_eq old new)) [
    | inl e ↦ rw e (schedule-one new h')
    | inr e ↦ rw e (schedule-two old new (h old refl) h' e)
  ]

  -- Both names are among those of a mutation.
  member-new : (old : Option Text) (new : Text) → member new (names_from unsafe old new) ≡ true
  unfolding member
  member-new none new = rw (text_eq_refl new) refl
  member-new (some old) new = elim (Bool-cases (text_eq old new)) [
    | inl e ↦ rw (e, text_eq_refl new) refl
    | inr e ↦ rw (e, text_eq_refl new) (ground arith)
  ]

  member-old : (n : Text) (new : Text) → member n (names_from unsafe (some n) new) ≡ true
  unfolding member
  member-old n new = elim (Bool-cases (text_eq n new)) [
    | inl e ↦ rw (e, eq_of_text_eq n new e, text_eq_refl new) refl
    | inr e ↦ rw (e, text_eq_refl n) refl
  ]

  -- What a save that is not raw captures: both names.
  module _ (persisted : Option Text) where
    abbrev old : Option Text
    old = canonical_name_or_none unsafe persisted

    old-IsName : (n : Text) → old ≡ some n → IsName n
    old-IsName n h = (canonical_name_or_none-some persisted n h).0

    -- The scheduled names of a captured mutation hold both of its names.
    covers-names_from :
        (new : Text) (scheduled : Option (List Text)) (n : Text)
        → IsName new
        → schedule_save unsafe (some (names_from unsafe old new)) ≡ ok scheduled
        → (old ≡ some n) ⊎ (new ≡ n)
        → (names : List Text) × (scheduled ≡ some names) × (member n names ≡ true)
    unfolding schedule_save
    covers-names_from new scheduled n named h affected =
        let same : some (names_from unsafe old new) ≡ scheduled =
          cc (schedule-names_from old new old-IsName named, h) in
        elim affected [
          | inl e ↦ (
            names_from unsafe old new,
            sym same,
            subst (λ o. member n (names_from unsafe o new) ≡ true) (sym e) (member-old n new),
          )
          | inr e ↦ (
            names_from unsafe old new,
            sym same,
            subst (λ x. member x (names_from unsafe old new) ≡ true) e (member-new old new),
          )
        ]

    old-name : (n : Text) → IsName n → persisted ≡ some n → old ≡ some n
    old-name n named h =
        subst (λ o. canonical_name_or_none unsafe o ≡ some n) (sym h)
          (canonical_name_or_none-IsName n named)

    -- A save that keeps the name, and one that writes it.
    covers-kept :
        (captured scheduled : Option (List Text)) (n : Text)
        → IsName n
        → captured_names unsafe old old ≡ captured
        → schedule_save unsafe captured ≡ ok scheduled
        → old ≡ some n
        → (names : List Text) × (scheduled ≡ some names) × (member n names ≡ true)
    covers-kept captured scheduled n named h h' e =
        let one : captured_names unsafe old (some n) ≡ captured =
          subst (λ o. captured_names unsafe old o ≡ captured) e h in
        covers-names_from n scheduled n named
          (subst (λ c. schedule_save unsafe c ≡ ok scheduled) (sym one) h') (inl e)

    covers-written :
        (name : Text) (captured scheduled : Option (List Text)) (n : Text)
        → captured_result unsafe old (canonicalize_template_name unsafe (text name)) ≡ ok captured
        → schedule_save unsafe captured ≡ ok scheduled
        → (old ≡ some n) ⊎ (name ≡ n)
        → (names : List Text) × (scheduled ≡ some names) × (member n names ≡ true)
    covers-written name captured scheduled n h h' affected = elim (canonical-cases unsafe name) [
      | inr e ↦ cc (rw e at h)
      | inl e ↦
          let one : some (names_from unsafe old name) ≡ captured = cc (rw e at h) in
          covers-names_from name scheduled n e
            (subst (λ c. schedule_save unsafe c ≡ ok scheduled) (sym one) h') affected
    ]

-- A save that is not raw, that writes a field the sources can see, and whose handlers return,
-- schedules for the commit the invalidation of the name that its row had, and of the one that it
-- has then, wherever that is a canonical name.
pub capture_save-covers :
    (unsafe : ℕ → Bool) (update_fields : Option (List Text)) (persisted : Option Text) (name : Text)
    (captured scheduled : Option (List Text)) (n : Text)
    → is_irrelevant update_fields ≡ false
    → capture_save unsafe update_fields false persisted name ≡ ok captured
    → schedule_save unsafe captured ≡ ok scheduled
    → canonicalize_template_name unsafe (text n) ≡ ok n
    → (persisted ≡ some n) ⊎ (stored_name unsafe update_fields persisted name ≡ some n)
    → (names : List Text) × (scheduled ≡ some names) × (member n names ≡ true)
unfolding capture_save
capture_save-covers unsafe update_fields persisted name captured scheduled n relevant h h' named
      affected =
    elim (Bool-cases (keeps_name update_fields)) [
      | inl e ↦
          let had : persisted ≡ some n = same_name (rw e at affected) in
          covers-kept unsafe persisted captured scheduled n named
            (cc (rw (relevant, e, capture_save) at h)) h' (old-name unsafe persisted n named had)
      | inr e ↦
          covers-written unsafe persisted name captured scheduled n
            (rw (relevant, e, capture_save) at h) h' (named_before (rw e at affected))
    ]
  where
    same_name : (persisted ≡ some n) ⊎ (persisted ≡ some n) → persisted ≡ some n
    same_name (inl e) = e
    same_name (inr e) = e

    named_before :
        (persisted ≡ some n) ⊎ (some name ≡ some n)
        → (canonical_name_or_none unsafe persisted ≡ some n) ⊎ (name ≡ n)
    named_before (inl e) = inl (old-name unsafe persisted n named e)
    named_before (inr e) = inr cc

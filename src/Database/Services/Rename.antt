-- ===== src/Database/Services/Rename.antt =====
-- rename_template refines its specification.
use mathlib.Core.Path.{subst}
use dj_hyperview.Prelude.{
  ◌+◌, ◌≡◌, refl, sym, ◌∙◌, ap, Bool, true, false, Option, none, some, if◌then◌else◌, Text, text_eq,
  Bool-cases, inl, inr,
}
use dj_hyperview.Errors.{Error, Result, ok, err}
use dj_hyperview.Database.Table.{Row, Stored, Database, IsDatabase, Databases, IsDatabases, at}
use dj_hyperview.Database.Services.{
  Django, PublicationResult, Expected, template_name_identity, is_stale, validate_expected_revision,
  mutation_target,
}
use dj_hyperview.Database.Services.Operations.{
  with_identity, full_clean, save_renamed, rename_found, rename_block, rename_template, rename_in,
  or_else, next_row, unless_conflict,
}
use dj_hyperview.Database.Services.Writes.{
  canonical-cases, lift-keeps, lift-ok, update-ok, Renamed, save_renamed-Renamed,
}
use dj_hyperview.Database.Services.Specification.{
  renamed, outcome, Renames, OnTarget, OnTarget-raise, OnTarget-lift,
}

module _ (django : Django) (db : Database) (is : IsDatabase db) (current target : Text)
    (content : Option Text) (active : Option Bool) (expected : Option Expected) where
  abbrev old_id : Text
  old_id = template_name_identity django current

  abbrev new_id : Text
  new_id = template_name_identity django target

  -- What the block does: the specified write, or nothing and a conflict.
  abbrev Written : db.State → Option PublicationResult × db.State → Type 0
  Written s (some result, s') =
      Renames django db is current target content active expected s (ok result, s')
  Written s (none, s') = s' ≡ s

  module _ (st : Stored) (s s' : db.State) (shown : is.view s old_id ≡ some st.row) where
    abbrev next : Row
    next = next_row django db st.row target (or_else content st.row.content) active

    abbrev result : PublicationResult
    result = outcome django target (st.row.revision + 1) false

    renames :
        (r : Option PublicationResult)
        → rename_found django db current target content active expected (some st) s ≡ (ok r, s')
        → (is_stale expected st.row.revision ≡ false)
          × Renamed django db is st next result s (ok r, s')
    unfolding rename_found
    renames r h = elim (Bool-cases (is_stale expected st.row.revision)) [
      | inl e ↦ cc (rw (e, rename_found) at h)
      | inr e ↦
          let h' =
            lift-ok (full_clean django db next)
              (save_renamed django db st next old_id new_id result) s s' r
              (rw (e, rename_found) at h) in
          (
            e,
            subst (Renamed django db is st next result s) h'
                (save_renamed-Renamed django db is st next old_id new_id result s),
          )
    ]

    rename-Written :
        (r : Option PublicationResult)
        → text_eq st.row.name current ≡ true
        → (is_stale expected st.row.revision ≡ false)
        → Renamed django db is st next result s (ok r, s')
        → Written s (r, s')
    unfolding Renames renamed
    rename-Written none named fresh same = same
    rename-Written (some r) named fresh (done_, same) =
        let identified : st.row.name_identity ≡ old_id = is.identified old_id s st.row shown in
        let (free, shows, rest) =
          update-ok django db is st next s s' tt
            (subst (λ i. is.view s i ≡ some st.row) (sym identified) shown) done_ in
        (
          with_identity django db next,
          rw (shown, named, fresh) (ap (λ x. some (with_identity django db next, x)) (sym same)),
          λ apart. free (λ e. apart (e ∙ identified)),
          λ other.
              subst
                (λ i. is.view s' other ≡ (
                  if text_eq other new_id
                  then some (with_identity django db next)
                  else if text_eq other i
                  then none
                  else is.view s other))
                identified (shows other),
          rest,
        )

  found_at-Written :
      (found : Result (Option Stored)) (s s' : db.State) (r : Option PublicationResult)
      → db.get old_id s ≡ found
      → rename_block django db current target content active expected s ≡ (ok r, s')
      → Written s (r, s')
  unfolding rename_block rename_found
  found_at-Written (err e) s s' r got h = cc (rw (got, rename_block) at h)
  found_at-Written (ok none) s s' r got h = cc (rw (got, rename_block) at h)
  found_at-Written (ok (some st)) s s' r got h = elim (Bool-cases (text_eq st.row.name current)) [
    | inl e ↦
        let shown = is.get_some old_id s st got in
        let (fresh, done_) = renames st s s' shown r (rw (got, e, rename_block) at h) in
        rename-Written st s s' shown r e fresh done_
    | inr e ↦ cc (rw (got, e, rename_block) at h)
  ]

  transaction-Renames :
      (p : Result (Option PublicationResult) × db.State) (s : db.State)
      → db.atomic (rename_block django db current target content active expected) s ≡ p
      → Renames django db is current target content active expected s (unless_conflict p)
  unfolding Renames
  transaction-Renames (ok (some result), s') s e =
      found_at-Written (db.get old_id s) s s' (some result) refl
        (is.committed _ s s' (some result) e)
  transaction-Renames (ok none, s') s e =
      found_at-Written (db.get old_id s) s s' none refl (is.committed _ s s' none e)
  transaction-Renames (err x, s') s e = is.rolled_back _ s s' x e

  -- A transaction changes nothing elsewhere.
  Renames-elsewhere :
      (p : Result PublicationResult × db.State) (s : db.State)
      → Renames django db is current target content active expected s p
      → is.elsewhere p.1 ≡ is.elsewhere s
  unfolding Renames
  Renames-elsewhere (ok _, s') s (row, made, free, shows, rest) = rest
  Renames-elsewhere (err e, s') s same = ap is.elsewhere same

  rename_in-Renames :
      (s : db.State)
      → Renames django db is current target content active expected s
          (rename_in django db current target content active expected s)
  rename_in-Renames s = transaction-Renames _ s refl

-- A renaming that returns has found, in the database of its alias, the row of the old name, at the
-- expected revision if one was given, and has moved it to the new name with the next revision and,
-- where they are given, the new content and activity. No row had the new name before, unless it is
-- the old one, and no other row and no other database is changed. One that raises, also for want of
-- an alias, has changed nothing.
pub rename_template-Renames :
    (django : Django) (dbs : Databases) (is : IsDatabases dbs) (current target : Text)
    (content : Option Text) (active : Option Bool) (expected : Option Expected)
    (using : Option Text) (s : dbs.State)
    → OnTarget dbs is
        (λ alias.
          Renames django (at dbs alias) (is.of alias) current target content active expected s)
        s
        (mutation_target django using)
        (rename_template django dbs current target content active expected using s)
unfolding rename_template Renames
rename_template-Renames django dbs is current target content active expected using s =
    elim (canonical-cases django.unsafe target) [
      | inl e ↦
          rw (e, rename_template)
            (lift-keeps kept (validate_expected_revision expected) _ s raised (
              OnTarget-lift dbs is specified s (mutation_target django using)
                (λ alias. rename_in django (at dbs alias) current target content active expected)
                (λ alias.
                  rename_in-Renames django (at dbs alias) (is.of alias) current target content
                    active expected s)
                (λ alias.
                  Renames-elsewhere django (at dbs alias) (is.of alias) current target content
                    active expected _ s
                    (rename_in-Renames django (at dbs alias) (is.of alias) current target content
                      active expected s))))
      | inr e ↦ rw (e, rename_template) (raised _)
    ]
  where
    specified : Text → Result PublicationResult × dbs.State → Type 0
    specified alias =
        Renames django (at dbs alias) (is.of alias) current target content active expected s

    kept : Result PublicationResult × dbs.State → Type 0
    kept = OnTarget dbs is specified s (mutation_target django using)

    raised : (e : Error) → kept (err e, s)
    raised e = OnTarget-raise dbs is specified s (mutation_target django using) e (λ alias. refl)

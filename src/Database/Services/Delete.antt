-- ===== src/Database/Services/Delete.antt =====
-- delete_template refines its specification.
use mathlib.Core.Path.{subst}
use dj_hyperview.Prelude.{
  ℕ, zero, suc, ◌≤◌, ◌≡◌, refl, sym, ap, ◌∙◌, Bool, true, false, Option, none, some, ◌==◌,
  if◌then◌else◌, Text, text_eq, Bool-cases, inl, inr, arith,
}
use dj_hyperview.Errors.{Error, Result, ok, err}
use dj_hyperview.Database.Table.{Stored, Database, IsDatabase, Databases, IsDatabases, at}
use dj_hyperview.Database.Services.{
  Django, Expected, template_name_identity, is_stale, validate_expected_revision, mutation_target,
}
use dj_hyperview.Database.Services.Operations.{
  delete_found, delete_block, delete_template, delete_in, is_given, after_delete, delete_row,
}
use dj_hyperview.Database.Services.Writes.{canonical-cases, lift-keeps}
use dj_hyperview.Database.Services.Specification.{
  Deletes, of_name, OnTarget, OnTarget-raise, OnTarget-lift,
}

module _ (django : Django) (db : Database) (is : IsDatabase db) (name : Text)
    (expected : Option Expected) where
  abbrev id : Text
  id = template_name_identity django name

  abbrev Deleted : db.State → Bool × db.State → Type 0
  Deleted s (b, s') = Deletes django db is name expected s (ok b, s')

  -- A deletion that returned has deleted at least the row.
  after_delete-ok :
      (st : Stored) (s s' : db.State) (b : Bool) (p : Result ℕ × db.State)
      → db.delete st s ≡ p
      → after_delete django db p ≡ (ok b, s')
      → (n : ℕ) × (1 ≤ n) × (db.delete st s ≡ (ok n, s')) × (b ≡ true)
  after_delete-ok st s s' b (ok zero, s'') e h = cc
  after_delete-ok st s s' b (ok (suc n), s'') e h =
      let some_ : (suc n == 0) ≡ false = ground arith in
      let (same, end) = kept (rw some_ at h) in
      (suc n, omega arith, e ∙ ap (λ x. (ok (suc n), x)) end, sym same)
    where
      kept : ◌≡◌ {A = Result Bool × db.State} (ok true, s'') (ok b, s') → (true ≡ b) × (s'' ≡ s')
      kept h' = (cc, cc)
  after_delete-ok st s s' b (err x, s'') e h = cc

  delete_some :
      (st : Stored) (s s' : db.State) (b : Bool)
      → is.view s id ≡ some st.row
      → text_eq st.row.name name ≡ true
      → delete_found django db expected (some st) s ≡ (ok b, s')
      → Deleted s (b, s')
  unfolding delete_found delete_row Deletes
  delete_some st s s' b shown named h = elim (Bool-cases (is_stale expected st.row.revision)) [
    | inl e ↦ cc (rw (e, delete_found) at h)
    | inr e ↦
        let (n, some_, done_, same) =
          after_delete-ok st s s' b _ refl (rw (e, delete_found) at h) in
        let identified = is.identified id s st.row shown in
        let (gone, rest) = is.deleted st n s s' done_ some_ in
        subst (λ c. Deleted s (c, s')) (sym same)
          (
            st.row,
            shown,
            named,
            e,
            λ other.
                subst (λ i. is.view s' other ≡ (if text_eq other i then none else is.view s other))
                  identified (gone other),
            rest,
          )
  ]

  delete_none :
      (s s' : db.State) (b : Bool)
      → of_name name (is.view s id) ≡ none
      → delete_found django db expected none s ≡ (ok b, s')
      → Deleted s (b, s')
  unfolding delete_found Deletes
  delete_none s s' b missing h = elim (Bool-cases (is_given expected)) [
    | inl e ↦ cc (rw (e, delete_found) at h)
    | inr e ↦ unguarded b e (rw (e, delete_found) at h)
  ]
    where
      unguarded :
          (b : Bool)
          → is_given expected ≡ false
          → ◌≡◌ {A = Result Bool × db.State} (ok false, s) (ok b, s')
          → Deleted s (b, s')
      unguarded true e h' = cc
      unguarded false e h' = (cc, e, missing)

  found_at-Deleted :
      (found : Result (Option Stored)) (s s' : db.State) (b : Bool)
      → db.get id s ≡ found
      → delete_block django db name expected s ≡ (ok b, s')
      → Deleted s (b, s')
  unfolding delete_block
  found_at-Deleted (err e) s s' b got h = cc (rw (got, delete_block) at h)
  found_at-Deleted (ok none) s s' b got h =
      delete_none s s' b (rw (is.get_none id s got) refl) (rw (got, delete_block) at h)
  found_at-Deleted (ok (some st)) s s' b got h = elim (Bool-cases (text_eq st.row.name name)) [
    | inl e ↦ delete_some st s s' b (is.get_some id s st got) e (rw (got, e, delete_block) at h)
    | inr e ↦
        delete_none s s' b (rw (is.get_some id s st got, e) refl) (rw (got, e, delete_block) at h)
  ]

  transaction-Deletes :
      (p : Result Bool × db.State) (s : db.State)
      → db.atomic (delete_block django db name expected) s ≡ p
      → Deletes django db is name expected s p
  unfolding Deletes
  transaction-Deletes (ok true, s') s e =
      found_at-Deleted (db.get id s) s s' true refl (is.committed _ s s' true e)
  transaction-Deletes (ok false, s') s e =
      found_at-Deleted (db.get id s) s s' false refl (is.committed _ s s' false e)
  transaction-Deletes (err x, s') s e = is.rolled_back _ s s' x e

  -- A transaction changes nothing elsewhere.
  Deletes-elsewhere :
      (p : Result Bool × db.State) (s : db.State)
      → Deletes django db is name expected s p
      → is.elsewhere p.1 ≡ is.elsewhere s
  unfolding Deletes
  Deletes-elsewhere (ok true, s') s (row, shown, named, fresh, shows, rest) = rest
  Deletes-elsewhere (ok false, s') s (same, unguarded, missing) = ap is.elsewhere same
  Deletes-elsewhere (err e, s') s same = ap is.elsewhere same

  delete_in-Deletes :
      (s : db.State) → Deletes django db is name expected s (delete_in django db name expected s)
  delete_in-Deletes s = transaction-Deletes _ s refl

-- A deletion that returns True has removed, in the database of its alias, the row of the name, which
-- was at the expected revision if one was given, and nothing else. It returns False only where the
-- name has no row and no revision was expected. One that returns False and one that raises, also for
-- want of an alias, have changed nothing.
pub delete_template-Deletes :
    (django : Django) (dbs : Databases) (is : IsDatabases dbs) (name : Text)
    (expected : Option Expected) (using : Option Text) (s : dbs.State)
    → OnTarget dbs is
        (λ alias. Deletes django (at dbs alias) (is.of alias) name expected s)
        s
        (mutation_target django using)
        (delete_template django dbs name expected using s)
unfolding delete_template Deletes
delete_template-Deletes django dbs is name expected using s =
    elim (canonical-cases django.unsafe name) [
      | inl e ↦
          rw (e, delete_template)
            (lift-keeps kept (validate_expected_revision expected) _ s raised (
              OnTarget-lift dbs is specified s (mutation_target django using)
                (λ alias. delete_in django (at dbs alias) name expected)
                (λ alias. delete_in-Deletes django (at dbs alias) (is.of alias) name expected s)
                (λ alias.
                  Deletes-elsewhere django (at dbs alias) (is.of alias) name expected _ s
                    (delete_in-Deletes django (at dbs alias) (is.of alias) name expected s))))
      | inr e ↦ rw (e, delete_template) (raised _)
    ]
  where
    specified : Text → Result Bool × dbs.State → Type 0
    specified alias = Deletes django (at dbs alias) (is.of alias) name expected s

    kept : Result Bool × dbs.State → Type 0
    kept = OnTarget dbs is specified s (mutation_target django using)

    raised : (e : Error) → kept (err e, s)
    raised e = OnTarget-raise dbs is specified s (mutation_target django using) e (λ alias. refl)

-- ===== src/Database/Services/Publish.antt =====
-- publish_template refines its specification.
use mathlib.Core.Path.{subst}
use dj_hyperview.Prelude.{
  ◌+◌, ◌≡◌, refl, sym, ◌∙◌, ap, Bool, true, false, Option, none, some, if◌then◌else◌, Text, text_eq,
  eq_of_text_eq, Bool-cases, inl, inr,
}
use dj_hyperview.Errors.{Error, Result, ok, err, continue, ◌>>◌, pure}
use dj_hyperview.Database.Table.{Row, Stored, Database, IsDatabase, Databases, IsDatabases, at}
use dj_hyperview.Database.Services.{
  Django, PublicationResult, Expected, template_name_identity, is_stale, validate_expected_revision,
  mutation_target,
}
use dj_hyperview.Database.Services.Operations.{
  update, full_clean, save_new, publish_found, publish_block, publish_template, publish_in,
  same_name, is_given, or_else, new_row, next_row, unless_conflict,
}
use dj_hyperview.Database.Services.Writes.{
  canonical-cases, lift-keeps, lift-ok, insert-ok, update-ok, Inserted, save_new-Inserted,
}
use dj_hyperview.Database.Services.Specification.{
  published, written, outcome, Sets, Publishes, OnTarget, OnTarget-raise, OnTarget-lift,
}

-- An update that keeps the identity is one entry more.
one_entry :
    (other id new old : Text) (row row' : Row) (rest : Option Row)
    → new ≡ id
    → old ≡ id
    → row ≡ row'
    → (if text_eq other new then some row else if text_eq other old then none else rest)
      ≡ (if text_eq other id then some row' else rest)
one_entry other id new old row row' rest e e' e'' = elim (Bool-cases (text_eq other id)) [
  | inl h ↦ rw (e, h) (ap some e'')
  | inr h ↦ rw (e, e', h) refl
]

module _ (django : Django) (db : Database) (is : IsDatabase db) (name content : Text)
    (active : Option Bool) (expected : Option Expected) where
  abbrev id : Text
  id = template_name_identity django name

  -- What is known of the row that `get` returns.
  abbrev Shows : Option Stored → db.State → Type 0
  Shows none s = is.view s id ≡ none
  Shows (some st) s = is.view s id ≡ some st.row

  -- What the block does: the specified write, or nothing and a conflict.
  abbrev Written : db.State → Option PublicationResult × db.State → Type 0
  Written s (some result, s') =
      Publishes django db is name content active expected s (ok result, s')
  Written s (none, s') = s' ≡ s

  create-Written :
      (s s' : db.State) (o : Option PublicationResult)
      → Inserted django db is (new_row django db name content active) s (ok o, s')
      → is_given expected ≡ false
      → Written s (o, s')
  unfolding Publishes Sets published
  create-Written s s' none h fresh = h
  create-Written s s' (some result) (h, same) fresh =
      let (free, shows, rest) =
        insert-ok django db is (new_row django db name content active) s s' tt h in
      (
        written django name content (or_else active true) 1,
        rw (free, fresh)
            (ap (λ r. some (written django name content (or_else active true) 1, r)) (sym same)),
        shows,
        rest,
      )

  -- A block that goes on without a row expects none, and saves a new one.
  creates :
      (s s' : db.State) (r : Option PublicationResult)
      → publish_found django db name content active expected none s ≡ (ok r, s')
      → (is_given expected ≡ false)
        × Inserted django db is (new_row django db name content active) s (ok r, s')
  unfolding publish_found
  creates s s' r h = elim (Bool-cases (is_given expected)) [
    | inl e ↦ cc (rw (e, publish_found) at h)
    | inr e ↦
        let h' =
          lift-ok (full_clean django db (new_row django db name content active))
            (save_new django db (new_row django db name content active) id) s s' r
            (rw (e, publish_found) at h) in
        (
          e,
          subst (Inserted django db is (new_row django db name content active) s) h'
              (save_new-Inserted django db is (new_row django db name content active) id s),
        )
  ]

  module _ (st : Stored) (s s' : db.State) (shown : is.view s id ≡ some st.row) where
    abbrev next : Row
    next = next_row django db st.row st.row.name content active

    abbrev result : PublicationResult
    result = outcome django name (st.row.revision + 1) false

    -- A block with the row of the name updates it.
    updates :
        (r : Option PublicationResult)
        → publish_found django db name content active expected (some st) s ≡ (ok r, s')
        → (is_stale expected st.row.revision ≡ false)
          × (update django db st next s ≡ (ok tt, s'))
          × (r ≡ some result)
    unfolding publish_found
    updates r h = elim (Bool-cases (is_stale expected st.row.revision)) [
      | inl e ↦ cc (rw (e, publish_found) at h)
      | inr e ↦
          let h' =
            lift-ok (full_clean django db next) (update django db st next >> pure (some result)) s
              s' r (rw (e, publish_found) at h) in
          let (done_, same) = returned (update django db st next s) refl h' in (e, done_, same)
    ]
      where
        returned :
            (p : Result (Unit {0}) × db.State)
            → update django db st next s ≡ p
            → continue p.0 (λ u. pure (some result)) p.1 ≡ (ok r, s')
            → (update django db st next s ≡ (ok tt, s')) × (r ≡ some result)
        returned (ok u, s'') e h' = (cc, cc)
        returned (err x, s'') e h' = cc

    update-Written :
        (r : Option PublicationResult)
        → text_eq st.row.name name ≡ true
        → publish_found django db name content active expected (some st) s ≡ (ok r, s')
        → Written s (r, s')
    unfolding Publishes Sets published
    update-Written r named h =
        let (current, done_, same) = updates r h in
        let same_name_ : st.row.name ≡ name = eq_of_text_eq st.row.name name named in
        let identified : st.row.name_identity ≡ id = is.identified id s st.row shown in
        let (free, shows, rest) =
          update-ok django db is st next s s' tt
            (subst (λ i. is.view s i ≡ some st.row) (sym identified) shown) done_ in
        subst (λ o. Written s (o, s')) (sym same)
          (
            written django name content (or_else active st.row.active) (st.row.revision + 1),
            rw (shown, named, current) refl,
            λ other.
                shows other
                ∙ one_entry other id (template_name_identity django st.row.name)
                    st.row.name_identity _ _ (is.view s other)
                    (ap (template_name_identity django) same_name_) identified
                    (ap
                      (λ n.
                        written django n content (or_else active st.row.active)
                          (st.row.revision + 1))
                      same_name_),
            rest,
          )

  publish_found-Written :
      (o : Option Stored) (s s' : db.State) (r : Option PublicationResult)
      → Shows o s
      → publish_found django db name content active expected (same_name name o) s ≡ (ok r, s')
      → Written s (r, s')
  publish_found-Written none s s' r shown h =
      let (fresh, inserted) = creates s s' r h in create-Written s s' r inserted fresh
  publish_found-Written (some st) s s' r shown h = elim (Bool-cases (text_eq st.row.name name)) [
    | inl e ↦ update-Written st s s' shown r e (rw e at h)
    | inr e ↦ other_name r (creates s s' r (rw e at h))
  ]
    where
      other_name :
          (r : Option PublicationResult)
          → (is_given expected ≡ false)
            × Inserted django db is (new_row django db name content active) s (ok r, s')
          → Written s (r, s')
      other_name none (fresh, same) = same
      other_name (some result) (fresh, h') =
          let (free, shows, rest) =
            insert-ok django db is (new_row django db name content active) s s' tt h'.0 in
          cc (free, shown)

  found_at-Written :
      (found : Result (Option Stored)) (s s' : db.State) (r : Option PublicationResult)
      → db.get id s ≡ found
      → publish_block django db name content active expected s ≡ (ok r, s')
      → Written s (r, s')
  unfolding publish_block
  found_at-Written (err e) s s' r got h = cc (rw (got, publish_block) at h)
  found_at-Written (ok none) s s' r got h =
      publish_found-Written none s s' r (is.get_none id s got) (rw (got, publish_block) at h)
  found_at-Written (ok (some st)) s s' r got h =
      publish_found-Written (some st) s s' r (is.get_some id s st got)
        (rw (got, publish_block) at h)

  transaction-Publishes :
      (p : Result (Option PublicationResult) × db.State) (s : db.State)
      → db.atomic (publish_block django db name content active expected) s ≡ p
      → Publishes django db is name content active expected s (unless_conflict p)
  unfolding Publishes
  transaction-Publishes (ok (some result), s') s e =
      found_at-Written (db.get id s) s s' (some result) refl (is.committed _ s s' (some result) e)
  transaction-Publishes (ok none, s') s e =
      found_at-Written (db.get id s) s s' none refl (is.committed _ s s' none e)
  transaction-Publishes (err x, s') s e = is.rolled_back _ s s' x e

  -- A transaction changes nothing elsewhere.
  Publishes-elsewhere :
      (p : Result PublicationResult × db.State) (s : db.State)
      → Publishes django db is name content active expected s p
      → is.elsewhere p.1 ≡ is.elsewhere s
  unfolding Publishes
  Publishes-elsewhere (ok _, s') s (row, made, sets, rest) = rest
  Publishes-elsewhere (err e, s') s same = ap is.elsewhere same

  publish_in-Publishes :
      (s : db.State)
      → Publishes django db is name content active expected s
          (publish_in django db name content active expected s)
  publish_in-Publishes s = transaction-Publishes _ s refl

-- A publication that returns has made, in the database of its alias, the specified row of what the
-- name showed there before: a new one of revision 1, active unless told otherwise, or the old one
-- with the new content and the next revision, the expected one if one was given. It changes no other
-- row and no other database. One that raises, also for want of an alias, has changed nothing.
pub publish_template-Publishes :
    (django : Django) (dbs : Databases) (is : IsDatabases dbs) (name content : Text)
    (active : Option Bool) (expected : Option Expected) (using : Option Text) (s : dbs.State)
    → OnTarget dbs is
        (λ alias. Publishes django (at dbs alias) (is.of alias) name content active expected s)
        s
        (mutation_target django using)
        (publish_template django dbs name content active expected using s)
unfolding publish_template Publishes
publish_template-Publishes django dbs is name content active expected using s =
    elim (canonical-cases django.unsafe name) [
      | inl e ↦
          rw (e, publish_template)
            (lift-keeps kept (validate_expected_revision expected) _ s raised (
              OnTarget-lift dbs is specified s (mutation_target django using)
                (λ alias. publish_in django (at dbs alias) name content active expected)
                (λ alias.
                  publish_in-Publishes django (at dbs alias) (is.of alias) name content active
                    expected s)
                (λ alias.
                  Publishes-elsewhere django (at dbs alias) (is.of alias) name content active
                    expected _ s
                    (publish_in-Publishes django (at dbs alias) (is.of alias) name content active
                      expected s))))
      | inr e ↦ rw (e, publish_template) (raised _)
    ]
  where
    specified : Text → Result PublicationResult × dbs.State → Type 0
    specified alias = Publishes django (at dbs alias) (is.of alias) name content active expected s

    kept : Result PublicationResult × dbs.State → Type 0
    kept = OnTarget dbs is specified s (mutation_target django using)

    raised : (e : Error) → kept (err e, s)
    raised e = OnTarget-raise dbs is specified s (mutation_target django using) e (λ alias. refl)

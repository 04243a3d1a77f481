-- ===== src/Database/Source/Published.antt =====
-- A publication and what the sources, and other publications, see of it.
use mathlib.Core.Path.{subst}
use dj_hyperview.Prelude.{
  ℕ, ◌+◌, ◌≤◌, ◌≡◌, ◌≢◌, refl, sym, ◌∙◌, ap, Bool, true, false, Option, none, some, if◌then◌else◌,
  Text, codes, ◌++◌, text_eq, text_eq_refl, Bool-cases, inl, inr, arith,
}
use dj_hyperview.Errors.{Result, ok, err}
use dj_hyperview.Sources.{ResolvedTemplate}
use dj_hyperview.Database.Table.{Row, Database, IsDatabase, Databases, IsDatabases, at, only_active}
use dj_hyperview.Database.Services.{
  Django, PublicationResult, Expected, whole, is_stale, template_name_identity, mutation_target,
}
use dj_hyperview.Database.Services.Operations.{publish_template, or_else, is_given}
use dj_hyperview.Database.Services.Specification.{
  published, written, outcome, Publishes, Sets, OnTarget,
}
use dj_hyperview.Database.Services.Writes.{canonical-cases}
use dj_hyperview.Database.Services.Publish.{publish_template-Publishes}
use dj_hyperview.Database.Source.{
  resolve, resolve_canonical, resolved, answer, alias_allowed, read_alias, str,
}

abbrev pub database_template : Text → Text → ℕ → ResolvedTemplate
database_template name content revision = record {
  name = name;
  content = content;
  origin = codes "database:" ++ name;
  source = codes "database";
  revision = str revision;
}

module _ (django : Django) (db : Database) (is : IsDatabase db) (name : Text) where
  abbrev id : Text
  id = template_name_identity django name

  -- The row has the name, the content and the revision of the result.
  abbrev Fits : Text → Bool → Row → PublicationResult → Type 0
  Fits content active row result =
      (row.name ≡ name)
      × (row.content ≡ content)
      × (row.active ≡ active)
      × (row.revision ≡ result.revision)

  written-Fits :
      (content : Text) (active : Bool) (revision : ℕ) (created : Bool) (row : Row)
      (result : PublicationResult)
      → ◌≡◌ {A = Option (Row × PublicationResult)}
          (some (written django name content active revision, outcome django name revision created))
          (some (row, result))
      → Fits content active row result
  written-Fits content active revision created row result h =
      let same_row : written django name content active revision ≡ row = cc in
      let same : outcome django name revision created ≡ result = cc in
      (
        sym (ap (λ r. r.name) same_row),
        sym (ap (λ r. r.content) same_row),
        sym (ap (λ r. r.active) same_row),
        sym (ap (λ r. r.revision) same_row) ∙ ap (λ r. r.revision) same,
      )

  written-revision :
      (content : Text) (active : Bool) (revision : ℕ) (created : Bool) (row : Row)
      (result : PublicationResult)
      → ◌≡◌ {A = Option (Row × PublicationResult)}
          (some (written django name content active revision, outcome django name revision created))
          (some (row, result))
      → row.revision ≡ revision
  written-revision content active revision created row result h =
      let same_row : written django name content active revision ≡ row = cc in
      sym (ap (λ r. r.revision) same_row)

  written-result :
      (content : Text) (active : Bool) (revision : ℕ) (created : Bool) (row : Row)
      (result : PublicationResult)
      → ◌≡◌ {A = Option (Row × PublicationResult)}
          (some (written django name content active revision, outcome django name revision created))
          (some (row, result))
      → result.revision ≡ row.revision
  written-result content active revision created row result h =
      let (named, same_content, same_active, same) =
        written-Fits content active revision created row result h in
      sym same

  published-Fits :
      (content : Text) (active : Bool) (expected : Option Expected) (o : Option Row) (row : Row)
      (result : PublicationResult)
      → published django name content (some active) expected o ≡ some (row, result)
      → Fits content active row result
  unfolding published
  published-Fits content active expected none row result h = elim (Bool-cases (is_given expected)) [
    | inl e ↦ cc (rw (e, published) at h)
    | inr e ↦ written-Fits content active 1 true row result (rw (e, published) at h)
  ]
  published-Fits content active expected (some old) row result h =
      elim (Bool-cases (text_eq old.name name)) [
        | inr e ↦ cc (rw (e, published) at h)
        | inl e ↦ elim (Bool-cases (is_stale expected old.revision)) [
          | inl e' ↦ cc (rw (e, e', published) at h)
          | inr e' ↦
              written-Fits content active (old.revision + 1) false row result
                (rw (e, e', published) at h)
        ]
      ]

  -- What a publication that returned left under its name.
  left :
      (content : Text) (active : Option Bool) (expected : Option Expected) (s : db.State)
      (result : PublicationResult) (p : Result PublicationResult × db.State)
      → p.0 ≡ ok result
      → Publishes django db is name content active expected s p
      → (row : Row) × (is.view p.1 id ≡ some row)
        × (published django name content active expected (is.view s id) ≡ some (row, result))
  unfolding Publishes Sets
  left content active expected s result (ok r, s') h (row, made, sets, rest) =
      let same : r ≡ result = cc in (row, sets id ∙ rw (text_eq_refl id) refl, rw (← same) made)
  left content active expected s result (err e, s') h p = cc

  -- A specified row, where a revision was expected.
  published-expected :
      (content : Text) (active : Option Bool) (n : ℕ) (o : Option Row) (row : Row)
      (result : PublicationResult)
      → published django name content active (some (whole n)) o ≡ some (row, result)
      → (old : Row) × (o ≡ some old)
        × (old.revision ≡ n)
        × (row.revision ≡ n + 1)
        × (result.revision ≡ row.revision)
  unfolding published
  published-expected content active n none row result h = cc
  published-expected content active n (some old) row result h =
      elim (Bool-cases (text_eq old.name name)) [
        | inr e ↦ cc (rw (e, published) at h)
        | inl e ↦ elim (Bool-cases (is_stale (some (whole n)) old.revision)) [
          | inl e' ↦ cc (rw (e, e', published) at h)
          | inr e' ↦
              let same : old.revision ≡ n = ground (arith, e') in
              let revision =
                written-revision content (or_else active old.active) (old.revision + 1) false row
                  result (rw (e, e', published) at h) in
              let as_result =
                written-result content (or_else active old.active) (old.revision + 1) false row
                  result (rw (e, e', published) at h) in
              (old, refl, same, omega arith, as_result)
        ]
      ]

  -- The template that a shown row gives, if it is active.
  abbrev template_of : Row → Option ResolvedTemplate
  template_of row =
      if row.active
      then (if text_eq row.name name then some (resolved django db name row) else none)
      else none

  answer-template_of :
      (row : Row) (o : Option ResolvedTemplate) (a : Result (Option Row))
      → ((found : Option Row) → a ≡ ok found → found ≡ only_active (some row))
      → answer django db name a ≡ ok o
      → o ≡ template_of row
  unfolding answer
  answer-template_of row o (err e) law h = cc
  answer-template_of row o (ok found) law h = by_active row.active found (law found refl) h
    where
      by_active :
          (active : Bool) (found : Option Row)
          → found ≡ (if active then some row else none)
          → answer django db name (ok found) ≡ ok o
          → o ≡ (
              if active
              then (if text_eq row.name name then some (resolved django db name row) else none)
              else none)
      by_active true found same h' = cc (rw (same, answer) at h')
      by_active false found same h' = cc (rw (same, answer) at h')

module _ (django : Django) (dbs : Databases) (is : IsDatabases dbs) (name : Text) where
  -- What `resolve` answers, where it answers, for a name that a row shows.
  resolve-view :
      (using : Option Text) (s : dbs.State) (row : Row) (o : Option ResolvedTemplate)
      → (is.of (read_alias django using)).view s (template_name_identity django name) ≡ some row
      → resolve django dbs using name s ≡ ok o
      → o
        ≡ template_of django
            (at dbs (read_alias django using))
            (is.of (read_alias django using))
            name
            row
  unfolding resolve resolve_canonical
  resolve-view using s row o shown h = elim (canonical-cases django.unsafe name) [
    | inr e ↦ cc (rw (e, resolve) at h)
    | inl e ↦ elim (Bool-cases (alias_allowed django using)) [
      | inr e' ↦ cc (rw (e, e', resolve, resolve_canonical) at h)
      | inl e' ↦ elim (Bool-cases django.installed) [
        | inr e'' ↦ cc (rw (e, e', e'', resolve, resolve_canonical) at h)
        | inl e'' ↦
            let alias = read_alias django using in
            let id = template_name_identity django name in
            answer-template_of django (at dbs alias) (is.of alias) name row o
              (dbs.get_active alias id s)
              (λ found got. (is.of alias).got_active id s found got ∙ ap only_active shown)
              (rw (e, e', e'', resolve, resolve_canonical) at h)
      ]
    ]
  ]

  -- What a publication to an alias does, in the database of the alias.
  publish_template-target :
      (content : Text) (active : Option Bool) (expected : Option Expected) (using : Option Text)
      (alias : Text) (s : dbs.State)
      → mutation_target django using ≡ ok alias
      → Publishes django
          (at dbs alias)
          (is.of alias)
          name
          content
          active
          expected
          s
          (publish_template django dbs name content active expected using s)
  unfolding OnTarget
  publish_template-target content active expected using alias s h =
      (subst
        (λ target.
          OnTarget dbs is
            (λ a. Publishes django (at dbs a) (is.of a) name content active expected s) s target
            (publish_template django dbs name content active expected using s))
        h (publish_template-Publishes django dbs is name content active expected using s)).0

-- The template, from the fields of its row.
template-fields :
    (name content name' content' : Text) (active active' : Bool) (revision revision' : ℕ)
    → name' ≡ name
    → content' ≡ content
    → active' ≡ active
    → revision' ≡ revision
    → (if active'
        then (if text_eq name' name then some (database_template name content' revision') else none)
        else none)
      ≡ (if active then some (database_template name content revision) else none)
template-fields name content name' content' active active' revision revision' n c a r =
    rw (n, c, a, r, text_eq_refl name) refl

-- A template that was published to a database is what a source of the same database resolves right
-- after, where its query succeeds: the content, with the revision of the result, if it was published
-- as active, and nothing otherwise. The source may name the alias or leave it to the routing of reads.
pub resolve-publish_template :
    (django : Django) (dbs : Databases) (is : IsDatabases dbs) (name content : Text) (active : Bool)
    (expected : Option Expected) (using using' : Option Text) (alias : Text) (s : dbs.State)
    (result : PublicationResult) (o : Option ResolvedTemplate)
    → mutation_target django using ≡ ok alias
    → read_alias django using' ≡ alias
    → (publish_template django dbs name content (some active) expected using s).0 ≡ ok result
    → resolve django dbs using' name
        (publish_template django dbs name content (some active) expected using s).1
      ≡ ok o
    → o ≡ (if active then some (database_template name content result.revision) else none)
resolve-publish_template django dbs is name content active expected using using' alias s result o
      target read h h' =
    let p = publish_template django dbs name content (some active) expected using s in
    let (row, shown, made) =
      left django (at dbs alias) (is.of alias) name content (some active) expected s result p h (
        publish_template-target django dbs is name content (some active) expected using alias s
          target) in
    let (named, same_content, same_active, same_revision) =
      published-Fits django (at dbs alias) (is.of alias) name content active expected _ row result
        made in
    resolve-view django dbs is name using' p.1 row o
      (subst (λ a. (is.of a).view p.1 (template_name_identity django name) ≡ some row) (sym read)
        shown)
      h'
    ∙ template-fields name content row.name row.content active row.active result.revision
        row.revision named same_content same_active same_revision

-- Of two publications to one database that expect the same revision, the second, whatever it writes,
-- does not return in any later state in which the name still shows a row of at least the revision
-- that the first one made. The two transactions follow each other; a row that was deleted and made
-- anew in between is not covered.
pub publish_template-refuses_stale :
    (django : Django) (dbs : Databases) (is : IsDatabases dbs) (name : Text)
    (content content' : Text) (active active' : Option Bool) (n : ℕ) (using using' : Option Text)
    (alias : Text) (s s₂ : dbs.State) (result result' : PublicationResult) (row₂ : Row)
    → mutation_target django using ≡ ok alias
    → mutation_target django using' ≡ ok alias
    → (publish_template django dbs name content active (some (whole n)) using s).0 ≡ ok result
    → (is.of alias).view s₂ (template_name_identity django name) ≡ some row₂
    → result.revision ≤ row₂.revision
    → (publish_template django dbs name content' active' (some (whole n)) using' s₂).0 ≢ ok result'
publish_template-refuses_stale django dbs is name content content' active active' n using using'
      alias s s₂ result result' row₂ target target' h shown₂ later =
    λ h'.
      let (row, shown, made) =
        left django (at dbs alias) (is.of alias) name content active (some (whole n)) s result _ h (
          publish_template-target django dbs is name content active (some (whole n)) using alias s
            target) in
      let (old, had, at_n, next, as_result) =
        published-expected django (at dbs alias) (is.of alias) name content active n _ row result
          made in
      let (row', shown', made') =
        left django (at dbs alias) (is.of alias) name content' active' (some (whole n)) s₂ result' _
          h'
          (publish_template-target django dbs is name content' active' (some (whole n)) using' alias
            s₂ target') in
      let (old', had', at_n', next', as_result') =
        published-expected django (at dbs alias) (is.of alias) name content' active' n _ row'
          result' made' in
      let same : row₂ ≡ old' = cc (shown₂, had') in
      absurd (omega (arith, at_n', next, as_result, later, ap (λ r. r.revision) same))

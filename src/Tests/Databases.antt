-- ===== src/Tests/Databases.antt =====
-- Databases in memory, one table for each alias.
use dj_hyperview.Prelude.{
  ◌≡◌, ◌≢◌, refl, ◌∙◌, ap, Bool, true, false, Option, none, some, if◌then◌else◌, Text, text_eq,
  text_eq_refl, eq_of_text_eq, Bool-cases, inl, inr,
}
use dj_hyperview.Errors.{Result, ok}
use dj_hyperview.Database.Table.{Databases, IsDatabase, IsDatabases, at}
use dj_hyperview.Tests.Rows.{
  Rows, view, rows_database, rows_IsDatabase, transaction, kept, restored,
}

abbrev pub Tables : Type 0
Tables = Text → Rows

abbrev with_table : Text → Rows → Tables → Tables
with_table alias rows s other = if text_eq other alias then rows else s other

abbrev on : {A : Type 0} → Text → Tables → Result A × Rows → Result A × Tables
on alias s p = (p.0, with_table alias p.1 s)

abbrev pub tables : Databases
tables = record {
  State = Tables;
  get = λ alias id s. rows_database.get id (s alias);
  insert = λ alias r s. on alias s (rows_database.insert r (s alias));
  update = λ alias old r s. on alias s (rows_database.update old r (s alias));
  delete = λ alias old s. on alias s (rows_database.delete old (s alias));
  exists_identity = λ alias id s. rows_database.exists_identity id (s alias);
  exists_other = λ alias id pk s. rows_database.exists_other id pk (s alias);
  exists_source = λ alias pk id s. rows_database.exists_source pk id (s alias);
  get_active = λ alias id s. rows_database.get_active id (s alias);
  atomic = λ alias m s. transaction s (m s);
}

abbrev others : Text → Tables → Text → Option Rows
others alias s other = if text_eq other alias then none else some (s other)

-- What a statement of a table is on all of them.
pub on-table :
    {A : Type 0} (alias : Text) (s s' : Tables) (a : A) (p : Result A × Rows)
    → on alias s p ≡ (ok a, s')
    → (p ≡ (ok a, s' alias)) × (others alias s' ≡ others alias s)
on-table alias s s' a (r, rows) h =
    let done_ : r ≡ ok a = cc in
    let now : with_table alias rows s ≡ s' = cc in
    let mine : rows ≡ s' alias =
      (rw (text_eq_refl alias) refl) ∙ ap (λ (f : Tables). f alias) now in
    (ap (λ x. (x, rows)) done_ ∙ ap (λ x. (ok a, x)) mine, rw (← now) (same_others))
  where
    same_other :
        (other : Text) → others alias (with_table alias rows s) other ≡ others alias s other
    same_other other = by_alias (text_eq other alias)
      where
        by_alias :
            (b : Bool)
            → (if b then none else some (if b then rows else s other))
              ≡ (if b then none else some (s other))
        by_alias true = refl
        by_alias false = refl

    same_others : others alias (with_table alias rows s) ≡ others alias s
    same_others = λ i other. same_other other i

unfoldable pub table_IsDatabase : (alias : Text) → IsDatabase (at tables alias)
unfolding rows_IsDatabase
table_IsDatabase alias = record {
  view = λ s id. view (s alias) id;
  Elsewhere = Text → Option Rows;
  elsewhere = others alias;
  get_some = λ id s r h. rows_IsDatabase.get_some id (s alias) r h;
  get_none = λ id s h. rows_IsDatabase.get_none id (s alias) h;
  got_active = λ id s o h. rows_IsDatabase.got_active id (s alias) o h;
  identified = λ id s r h. rows_IsDatabase.identified id (s alias) r h;
  inserted = λ r s s' h.
      let (done_, rest) = on-table alias s s' tt (rows_database.insert r (s alias)) h in
      let (free, shows, none_) = rows_IsDatabase.inserted r (s alias) (s' alias) done_ in
      (free, shows, rest);
  updated = λ old r s s' h shown.
      let (done_, rest) = on-table alias s s' tt (rows_database.update old r (s alias)) h in
      let (free, shows, none_) = rows_IsDatabase.updated old r (s alias) (s' alias) done_ shown in
      (free, shows, rest);
  deleted = λ old n s s' h some_.
      let (done_, rest) = on-table alias s s' n (rows_database.delete old (s alias)) h in
      let (shows, none_) = rows_IsDatabase.deleted old n (s alias) (s' alias) done_ some_ in
      (shows, rest);
  committed = λ m s s' a h. kept (m s) s s' a h;
  rolled_back = λ m s s' e h. restored (m s) s s' e h;
}

-- A table that is elsewhere is kept.
table_of : Text → Option Rows → Rows
table_of id none = λ x. none
table_of id (some rows) = rows

pub elsewhere-view :
    (alias other id : Text) (s s' : Tables)
    → other ≢ alias
    → others alias s' ≡ others alias s
    → view (s' other) id ≡ view (s other) id
elsewhere-view alias other id s s' ne e = elim (Bool-cases (text_eq other alias)) [
  | inl h ↦ absurd (ne (eq_of_text_eq other alias h))
  | inr h ↦
      let same : some (s' other) ≡ some (s other) =
        rw h at (ap (λ (f : Text → Option Rows). f other) e) in
      let tables_ : s' other ≡ s other = cc in ap (λ (rows : Rows). view rows id) tables_
]

unfoldable pub tables_IsDatabases : IsDatabases tables
unfolding table_IsDatabase
tables_IsDatabases = record { of = table_IsDatabase; apart = elsewhere-view }

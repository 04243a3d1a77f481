-- ===== src/Tests/Rows.antt =====
-- A table in memory: a map from identities to rows, each shown under its own identity only.
use dj_hyperview.Prelude.{
  ◌≡◌, ◌≢◌, refl, sym, ◌∙◌, Bool, true, false, Option, none, some, if◌then◌else◌, Text, text_eq,
  text_eq_refl, eq_of_text_eq, Bool-cases, inl, inr, ap,
}
use dj_hyperview.Errors.{Error, integrity_error, Result, ok, err}
use dj_hyperview.Database.Table.{Row, Stored, Database, IsDatabase, only_active}

abbrev pub Rows : Type 0
Rows = Text → Option Row

abbrev own : Text → Option Row → Option Row
own id none = none
own id (some row) = if text_eq row.name_identity id then some row else none

abbrev pub view : Rows → Text → Option Row
view rows id = own id (rows id)

abbrev stored : Option Row → Option Stored
stored none = none
stored (some row) = some (record { pk = 0; row = row })

abbrev exists : Option Row → Bool
exists none = false
exists (some row) = true

abbrev with_row : Row → Rows → Rows
with_row r rows id = if text_eq id r.name_identity then some r else rows id

abbrev moved : Text → Row → Rows → Rows
moved old r rows id =
    if text_eq id r.name_identity then some r else if text_eq id old then none else rows id

abbrev without : Text → Rows → Rows
without old rows id = if text_eq id old then none else rows id

abbrev pub transaction : {S A : Type 0} → S → Result A × S → Result A × S
transaction s (ok a, s') = (ok a, s')
transaction s (err e, s') = (err e, s)

abbrev unless_taken : Option Row → Rows → Rows → Result (Unit {0}) × Rows
unless_taken none s s' = (ok tt, s')
unless_taken (some row) s s' = (err integrity_error, s)

abbrev pub rows_database : Database
rows_database = record {
  State = Rows;
  get = λ id s. ok (stored (view s id));
  insert = λ r s. unless_taken (view s r.name_identity) s (with_row r s);
  update = λ old r s.
      if text_eq r.name_identity old.row.name_identity
      then (ok tt, with_row r s)
      else unless_taken (view s r.name_identity) s (moved old.row.name_identity r s);
  delete = λ old s. (ok 1, without old.row.name_identity s);
  exists_identity = λ id s. ok (exists (view s id));
  exists_other = λ id pk s. ok (exists (view s id));
  exists_source = λ pk id s. ok (exists (view s id));
  get_active = λ id s. ok (only_active (view s id));
  atomic = λ m s. transaction s (m s);
}

swapped : (s t : Text) → text_eq s t ≡ true → text_eq t s ≡ true
swapped s t h = rw (eq_of_text_eq s t h) (text_eq_refl t)

-- Rows that were written show as they were written.
pub own-if :
    (id : Text) (r : Row) (rest : Option Row)
    → own id (if text_eq id r.name_identity then some r else rest)
      ≡ (if text_eq id r.name_identity then some r else own id rest)
own-if id r rest = elim (Bool-cases (text_eq id r.name_identity)) [
  | inl e ↦ rw (e, swapped id r.name_identity e) refl
  | inr e ↦ rw e refl
]

pub own-without :
    (id : Text) (gone : Bool) (rest : Option Row)
    → own id (if gone then none else rest) ≡ (if gone then none else own id rest)
own-without id true rest = refl
own-without id false rest = refl

pub taken :
    (o : Option Row) (s s₁ s' : Rows) (u : Unit {0})
    → unless_taken o s s₁ ≡ (ok u, s')
    → (o ≡ none) × (s₁ ≡ s')
taken none s s₁ s' u h = (refl, cc)
taken (some row) s s₁ s' u h = cc

pub stored-some : (o : Option Row) (r : Stored) → ok (stored o) ≡ ok (some r) → o ≡ some r.row
stored-some none r h = cc
stored-some (some row) r h =
    let e : record { pk = 0; row = row } ≡ r = cc in ap (λ (x : Stored). some x.row) e

pub stored-none : (o : Option Row) → ok (stored o) ≡ ok none → o ≡ none
stored-none none h = refl
stored-none (some row) h = cc

pub own-identity : (id : Text) (o : Option Row) (r : Row) → own id o ≡ some r → r.name_identity ≡ id
own-identity id none r h = cc
own-identity id (some row) r h = elim (Bool-cases (text_eq row.name_identity id)) [
  | inr e ↦ cc (rw e at h)
  | inl e ↦
      let same : row ≡ r = cc (rw e at h) in
      sym (ap (λ (x : Row). x.name_identity) same) ∙ eq_of_text_eq row.name_identity id e
]

-- A branch that is not reached.
skipped :
    (a b : Bool) (x y : Option Row)
    → a ≡ b
    → (if a then x else y) ≡ (if a then x else if b then none else y)
skipped true b x y e = refl
skipped false b x y e = rw (← e) refl

pub updated_view :
    (old : Text) (r : Row) (s s' : Rows) (same : Bool)
    → text_eq r.name_identity old ≡ same
    → (if same
        then (ok tt, with_row r s)
        else unless_taken (view s r.name_identity) s (moved old r s))
      ≡ (ok tt, s')
    → ((r.name_identity ≢ old) → view s r.name_identity ≡ none)
      × ((id : Text)
          → view s' id ≡ (
              if text_eq id r.name_identity
              then some r
              else if text_eq id old
              then none
              else view s id))
updated_view old r s s' true e h =
    let now : with_row r s ≡ s' = cc in
    let same : r.name_identity ≡ old = eq_of_text_eq r.name_identity old e in
    (
      λ apart. absurd (apart same),
      λ id.
          ap (λ (f : Rows). own id (f id)) (sym now)
          ∙ own-if id r (s id)
          ∙ skipped (text_eq id r.name_identity) (text_eq id old) (some r) (view s id)
              (ap (text_eq id) same),
    )
updated_view old r s s' false e h =
    let (free, now) = taken (view s r.name_identity) s (moved old r s) s' tt h in
    (
      λ apart. free,
      λ id.
          ap (λ (f : Rows). own id (f id)) (sym now)
          ∙ own-if id r (if text_eq id old then none else s id)
          ∙ ap (λ o. if text_eq id r.name_identity then some r else o)
              (own-without id (text_eq id old) (s id)),
    )

pub kept :
    {S A : Type 0} (p : Result A × S) (s s' : S) (a : A)
    → transaction s p ≡ (ok a, s')
    → p ≡ (ok a, s')
kept (ok b, s'') s s' a h = h
kept (err e, s'') s s' a h = cc

pub restored :
    {S A : Type 0} (p : Result A × S) (s s' : S) (e : Error)
    → transaction s p ≡ (err e, s')
    → s' ≡ s
restored (ok b, s'') s s' e h = cc
restored (err x, s'') s s' e h = cc

unfoldable pub rows_IsDatabase : IsDatabase rows_database
rows_IsDatabase = record {
  view = view;
  Elsewhere = Unit;
  elsewhere = λ s. tt;
  get_some = λ id s r h. stored-some (view s id) r h;
  get_none = λ id s h. stored-none (view s id) h;
  got_active = λ id s o h. cc;
  identified = λ id s r h. own-identity id (s id) r h;
  inserted = λ r s s' h.
      let (free, now) = taken (view s r.name_identity) s (with_row r s) s' tt h in
      (free, λ id. ap (λ (f : Rows). own id (f id)) (sym now) ∙ own-if id r (s id), refl);
  updated = λ old r s s' h shown.
      let (free, shows) =
        updated_view old.row.name_identity r s s' (text_eq r.name_identity old.row.name_identity)
          refl h in
      (free, shows, refl);
  deleted = λ old n s s' h some_.
      let now : without old.row.name_identity s ≡ s' = cc in
      (
        λ id.
            ap (λ (f : Rows). own id (f id)) (sym now)
            ∙ own-without id (text_eq id old.row.name_identity) (s id),
        refl,
      );
  committed = λ m s s' a h. kept (m s) s s' a h;
  rolled_back = λ m s s' e h. restored (m s) s s' e h;
}

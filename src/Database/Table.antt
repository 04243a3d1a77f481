-- ===== src/Database/Table.antt =====
-- The table of contrib/database/models.py, as Django's ORM offers it to the services.
use dj_hyperview.Prelude.{ℕ, ◌≤◌, ◌≡◌, ◌≢◌, Bool, Option, none, some, Text, text_eq, if◌then◌else◌}
use dj_hyperview.Errors.{Error, Result, ok, err, Exec}

-- `HyperviewTemplate`, without its timestamps and its primary key.
pub record Row : Type 0 where
  pub name : Text
  pub name_identity : Text
  pub content : Text
  pub active : Bool
  pub revision : ℕ

pub record Stored : Type 0 where
  pub pk : ℕ
  pub row : Row

-- One database, that of an alias. `get` is `select_for_update().get(name_identity=...)`, with `none` for
-- DoesNotExist; `insert`, `update` and `delete` are the statements of `save` and `delete`; the
-- others are the `exists` of the querysets that the services build; any of them may raise.
pub record Database : Type 1 where
  pub State : Type 0
  pub get : Text → State → Result (Option Stored)
  pub insert : Row → Exec State (Unit {0})
  pub update : Stored → Row → Exec State (Unit {0})
  pub delete : Stored → Exec State ℕ
  pub exists_identity : Text → State → Result Bool
  pub exists_other : Text → ℕ → State → Result Bool
  pub exists_source : ℕ → Text → State → Result Bool
  -- `get(name_identity=..., active=True)`
  pub get_active : Text → State → Result (Option Row)
  pub atomic : {A : Type 0} → Exec State A → Exec State A

-- The databases of all aliases, in one state: the methods of the one of an alias, which comes first.
pub record Databases : Type 1 where
  pub State : Type 0
  pub get : Text → Text → State → Result (Option Stored)
  pub insert : Text → Row → Exec State (Unit {0})
  pub update : Text → Stored → Row → Exec State (Unit {0})
  pub delete : Text → Stored → Exec State ℕ
  pub exists_identity : Text → Text → State → Result Bool
  pub exists_other : Text → Text → ℕ → State → Result Bool
  pub exists_source : Text → ℕ → Text → State → Result Bool
  pub get_active : Text → Text → State → Result (Option Row)
  pub atomic : Text → {A : Type 0} → Exec State A → Exec State A

-- `using(alias)`
abbrev pub at : Databases → Text → Database
at dbs alias = record {
  State = dbs.State;
  get = dbs.get alias;
  insert = dbs.insert alias;
  update = dbs.update alias;
  delete = dbs.delete alias;
  exists_identity = dbs.exists_identity alias;
  exists_other = dbs.exists_other alias;
  exists_source = dbs.exists_source alias;
  get_active = dbs.get_active alias;
  atomic = dbs.atomic alias;
}

-- The row that a query for active rows finds.
abbrev pub only_active : Option Row → Option Row
only_active none = none
only_active (some row) = if row.active then some row else none

-- What is relied on of the database: it shows its rows under their identities, the identity is unique,
-- and `transaction.atomic` keeps the state of a block that returns, and restores the state at its
-- entry when it raises. No statement need succeed. A statement keeps what is elsewhere, in the other
-- databases.
pub record IsDatabase (db : Database) : Type 1 where
  pub view : db.State → Text → Option Row
  pub Elsewhere : Type 0
  pub elsewhere : db.State → Elsewhere
  pub get_some :
      (id : Text) (s : db.State) (r : Stored) → db.get id s ≡ ok (some r) → view s id ≡ some r.row
  pub get_none : (id : Text) (s : db.State) → db.get id s ≡ ok none → view s id ≡ none
  pub got_active :
      (id : Text) (s : db.State) (o : Option Row)
      → db.get_active id s ≡ ok o
      → o ≡ only_active (view s id)
  pub identified : (id : Text) (s : db.State) (r : Row) → view s id ≡ some r → r.name_identity ≡ id
  pub inserted :
      (r : Row) (s s' : db.State)
      → db.insert r s ≡ (ok tt, s')
      → (view s r.name_identity ≡ none)
        × ((id : Text) → view s' id ≡ (if text_eq id r.name_identity then some r else view s id))
        × (elsewhere s' ≡ elsewhere s)
  pub updated :
      (old : Stored) (r : Row) (s s' : db.State)
      → db.update old r s ≡ (ok tt, s')
      → view s old.row.name_identity ≡ some old.row
      → ((r.name_identity ≢ old.row.name_identity) → view s r.name_identity ≡ none)
        × ((id : Text)
            → view s' id ≡ (
                if text_eq id r.name_identity
                then some r
                else if text_eq id old.row.name_identity
                then none
                else view s id))
        × (elsewhere s' ≡ elsewhere s)
  pub deleted :
      (old : Stored) (n : ℕ) (s s' : db.State)
      → db.delete old s ≡ (ok n, s')
      → 1 ≤ n
      → ((id : Text) → view s' id ≡ (if text_eq id old.row.name_identity then none else view s id))
        × (elsewhere s' ≡ elsewhere s)
  pub committed :
      {A : Type 0} (m : Exec db.State A) (s s' : db.State) (a : A)
      → db.atomic m s ≡ (ok a, s')
      → m s ≡ (ok a, s')
  pub rolled_back :
      {A : Type 0} (m : Exec db.State A) (s s' : db.State) (e : Error)
      → db.atomic m s ≡ (err e, s')
      → s' ≡ s

-- The same of all databases. What is elsewhere of one alias is what the other aliases show.
pub record IsDatabases (dbs : Databases) : Type 1 where
  pub of : (alias : Text) → IsDatabase (at dbs alias)
  pub apart :
      (alias other id : Text) (s s' : dbs.State)
      → other ≢ alias
      → (of alias).elsewhere s' ≡ (of alias).elsewhere s
      → (of other).view s' id ≡ (of other).view s id

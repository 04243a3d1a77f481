-- ===== src/Database/Services/Writes.antt =====
-- What a statement of the services leaves in the table, and what a failed one does.
use dj_hyperview.Prelude.{
  ℕ, ◌≡◌, ◌≢◌, ◌⊎◌, refl, Bool, true, false, Option, none, some, if◌then◌else◌, Text, text_eq,
  Bool-cases, inl, inr,
}
use dj_hyperview.Errors.{Error, Result, ok, err, Exec, lift, ◌>>◌, invalid_template_name}
use dj_hyperview.Sources.{canonicalize_template_name, refused, text}
use dj_hyperview.Database.Table.{Row, Stored, Database, IsDatabase}
use dj_hyperview.Database.Services.{Django, PublicationResult, template_name_identity}
use dj_hyperview.Database.Services.Operations.{
  with_identity, insert, update, competing, after_insert, save_new, is_integrity, is_database,
  if_proved, after_rename, save_renamed,
}

-- A check in front of a method that returned was passed.
pub lift-ok {ℓ} :
    {S A B : Type ℓ} (r : Result A) (n : Exec S B) (s s' : S) (b : B)
    → (lift r >> n) s ≡ (ok b, s')
    → n s ≡ (ok b, s')
lift-ok (ok a) n s s' b h = h
lift-ok (err e) n s s' b h = cc

-- What holds of an error in a state, and of a method there, holds of the method behind a check.
pub lift-keeps {ℓ} :
    {S A B : Type ℓ} (P : Result B × S → Type 0) (r : Result A) (n : Exec S B) (s : S)
    → ((e : Error) → P (err e, s))
    → P (n s)
    → P ((lift r >> n) s)
lift-keeps P (ok a) n s failed h = h
lift-keeps P (err e) n s failed h = failed e

-- A text is its own canonical name, or has none.
pub canonical-cases :
    (unsafe : ℕ → Bool) (name : Text)
    → (canonicalize_template_name unsafe (text name) ≡ ok name)
      ⊎ (canonicalize_template_name unsafe (text name) ≡ err invalid_template_name)
unfolding canonicalize_template_name
canonical-cases unsafe name = elim (Bool-cases (refused unsafe name)) [
  | inl e ↦ inr (rw e refl)
  | inr e ↦ inl (rw e refl)
]

module _ (django : Django) (db : Database) (is : IsDatabase db) where
  abbrev pub identity : Text → Text
  identity = template_name_identity django

  -- An insertion that returned: the identity was free, and now shows the row, with its identity.
  pub insert-ok :
      (row : Row) (s s' : db.State) (u : Unit {0})
      → insert django db row s ≡ (ok u, s')
      → (is.view s (identity row.name) ≡ none)
        × ((id : Text)
            → is.view s' id ≡ (
                if text_eq id (identity row.name)
                then some (with_identity django db row)
                else is.view s id))
        × (is.elsewhere s' ≡ is.elsewhere s)
  unfolding insert
  insert-ok row s s' u h = is.inserted (with_identity django db row) s s' (
      lift-ok (canonicalize_template_name django.unsafe (text row.name))
        (db.insert (with_identity django db row)) s s' u h)

  -- An update of a row that is shown: the new identity was free, or the same, and now shows the row.
  pub update-ok :
      (old : Stored) (row : Row) (s s' : db.State) (u : Unit {0})
      → is.view s old.row.name_identity ≡ some old.row
      → update django db old row s ≡ (ok u, s')
      → ((identity row.name ≢ old.row.name_identity) → is.view s (identity row.name) ≡ none)
        × ((id : Text)
            → is.view s' id ≡ (
                if text_eq id (identity row.name)
                then some (with_identity django db row)
                else if text_eq id old.row.name_identity
                then none
                else is.view s id))
        × (is.elsewhere s' ≡ is.elsewhere s)
  unfolding update
  update-ok old row s s' u shown h =
      is.updated old (with_identity django db row) s s'
        (lift-ok (canonicalize_template_name django.unsafe (text row.name))
          (db.update old (with_identity django db row)) s s' u h)
        shown

  -- The result of a new row, whose statement returned with the state `s'`, or of a proved conflict,
  -- which leaves the table as it was.
  abbrev pub Inserted : Row → db.State → Result (Option PublicationResult) × db.State → Type 0
  Inserted row s (ok (some result), s') =
      (insert django db row s ≡ (ok tt, s'))
      × (result ≡ record { name = row.name; revision = row.revision; created = true })
  Inserted row s (ok none, s') = s' ≡ s
  Inserted row s (err e, s') = Unit

  module _ (row : Row) (id : Text) (s s' : db.State) where
    Inserted-competing : (r : Result Bool) → s' ≡ s → Inserted row s (competing django db r, s')
    Inserted-competing (err e) same = tt
    Inserted-competing (ok true) same = same
    Inserted-competing (ok false) same = tt

    Inserted-after :
        (r : Result (Unit {0}))
        → db.atomic (insert django db row) s ≡ (r, s')
        → Inserted row s (after_insert django db row id (r, s'))
    Inserted-after (ok u) h = (is.committed (insert django db row) s s' u h, refl)
    Inserted-after (err e) h =
        elim (is_integrity e)
          as (λ c. Inserted row s (elim c [
            | true ↦ (competing django db (db.exists_identity id s'), s')
            | false ↦ (err e, s')
          ])) [
            | true ↦
                Inserted-competing (db.exists_identity id s')
                  (is.rolled_back (insert django db row) s s' e h)
            | false ↦ tt
          ]

  pub save_new-Inserted :
      (row : Row) (id : Text) (s : db.State) → Inserted row s (save_new django db row id s)
  unfolding save_new
  save_new-Inserted row id s = Inserted-after row id s _ _ refl

  -- The same of the save of a renamed row.
  abbrev pub Renamed :
      Stored
      → Row
      → PublicationResult
      → db.State
      → Result (Option PublicationResult) × db.State
      → Type 0
  Renamed old row result s (ok (some r), s') =
      (update django db old row s ≡ (ok tt, s')) × (r ≡ result)
  Renamed old row result s (ok none, s') = s' ≡ s
  Renamed old row result s (err e, s') = Unit

  module _ (old : Stored) (row : Row) (current_id target_id : Text) (result : PublicationResult)
      (s s' : db.State) where
    Renamed-proved :
        (e : Error) (wanted : Bool) (r : Result Bool)
        → s' ≡ s
        → Renamed old row result s (if_proved e wanted r, s')
    Renamed-proved e true (ok true) same = same
    Renamed-proved e false (ok true) same = tt
    Renamed-proved e true (ok false) same = tt
    Renamed-proved e false (ok false) same = same
    Renamed-proved e wanted (err x) same =
        elim (is_database x) as (λ c. Renamed old row result s ((if c then err e else err x), s')) [
          | true ↦ tt
          | false ↦ tt
        ]

    Renamed-after :
        (r : Result (Unit {0}))
        → db.atomic (update django db old row) s ≡ (r, s')
        → Renamed old row result s (after_rename django db old current_id target_id result (r, s'))
    Renamed-after (ok u) h = (is.committed (update django db old row) s s' u h, refl)
    Renamed-after (err e) h =
        let same = is.rolled_back (update django db old row) s s' e h in
        elim (is_integrity e)
          as (λ c. Renamed old row result s (elim c [
            | true ↦ (if_proved e true (db.exists_other target_id old.pk s'), s')
            | false ↦ elim (is_database e) [
              | true ↦ (if_proved e false (db.exists_source old.pk current_id s'), s')
              | false ↦ (err e, s')
            ]
          ])) [
            | true ↦ Renamed-proved e true (db.exists_other target_id old.pk s') same
            | false ↦
                elim (is_database e)
                  as (λ c. Renamed old row result s (elim c [
                    | true ↦ (if_proved e false (db.exists_source old.pk current_id s'), s')
                    | false ↦ (err e, s')
                  ])) [
                    | true ↦ Renamed-proved e false (db.exists_source old.pk current_id s') same
                    | false ↦ tt
                  ]
          ]

  pub save_renamed-Renamed :
      (old : Stored) (row : Row) (current_id target_id : Text) (result : PublicationResult)
      (s : db.State)
      → Renamed old row result s (save_renamed django db old row current_id target_id result s)
  unfolding save_renamed
  save_renamed-Renamed old row current_id target_id result s =
      Renamed-after old row current_id target_id result s _ _ refl

-- ===== src/Tests/DatabaseTests.antt =====
-- Runs of the services of the database, and their theorems, on tables in memory.
use dj_hyperview.Database.Signals.{is_irrelevant, capture_save, schedule_save}
use dj_hyperview.Database.Signals.Covers.{capture_save-covers}
use dj_hyperview.Cache.Json.{member}
use dj_hyperview.Cache.Entries.{canonical_names, distinct}
use dj_hyperview.Prelude.{
  List, [], inl, arith, ◌∷◌, ◌≡◌, ◌≢◌, refl, true, false, none, some, Text, codes, text_eq,
  if◌then◌else◌, starts_with, contains, split,
}
use dj_hyperview.Errors.{ok, err, publication_conflict}
use dj_hyperview.Sources.{canonicalize_template_name, refused, text}
use dj_hyperview.Database.Services.{
  Django, PublicationResult, whole, template_name_identity, mutation_target,
}
use dj_hyperview.Database.Table.{Row, at}
use dj_hyperview.Database.Services.Operations.{publish_template, rename_template, delete_template}
use dj_hyperview.Database.Services.Specification.{Publishes, Renames, Deletes, OnTarget}
use dj_hyperview.Database.Services.Publish.{publish_template-Publishes}
use dj_hyperview.Database.Services.Rename.{rename_template-Renames}
use dj_hyperview.Database.Services.Delete.{delete_template-Deletes}
use dj_hyperview.Database.Source.{resolve}
use dj_hyperview.Database.Source.Published.{
  database_template, resolve-publish_template, publish_template-refuses_stale,
}
use dj_hyperview.Tests.Rows.{Rows}
use dj_hyperview.Tests.Databases.{Tables, tables, tables_IsDatabases}

abbrev django : Django
django = record {
  unsafe = λ c. false;
  sha256 = λ bytes. bytes;
  databases = λ alias. text_eq alias (codes "default");
  db_for_write = some (codes "default");
  db_for_read = codes "default";
  installed = true;
  full_clean = λ row. true;
}

abbrev name : Text
name = codes "a.xml"

abbrev one_table : Rows
one_table id =
    if text_eq id name
    then some (record {
      name = name;
      name_identity = name;
      content = codes "<a/>";
      active = true;
      revision = 4;
    })
    else none

-- The database "default" shows that row, and the others show none.
abbrev one : Tables
one alias = if text_eq alias (codes "default") then one_table else (λ id. none)

publish_template-Publishes_example :
    OnTarget tables tables_IsDatabases
      (λ alias.
        Publishes django
          (at tables alias)
          (tables_IsDatabases.of alias)
          name
          (codes "<b/>")
          none
          (some (whole 4))
          one)
      one
      (mutation_target django none)
      (publish_template django tables name (codes "<b/>") none (some (whole 4)) none one)
publish_template-Publishes_example =
    publish_template-Publishes django tables tables_IsDatabases name (codes "<b/>") none
      (some (whole 4)) none one

rename_template-Renames_example :
    OnTarget tables tables_IsDatabases
      (λ alias.
        Renames django
          (at tables alias)
          (tables_IsDatabases.of alias)
          name
          (codes "b.xml")
          none
          none
          none
          one)
      one
      (mutation_target django none)
      (rename_template django tables name (codes "b.xml") none none none none one)
rename_template-Renames_example =
    rename_template-Renames django tables tables_IsDatabases name (codes "b.xml") none none none
      none one

delete_template-Deletes_example :
    OnTarget tables tables_IsDatabases
      (λ alias.
        Deletes django (at tables alias) (tables_IsDatabases.of alias) name (some (whole 4)) one)
      one
      (mutation_target django none)
      (delete_template django tables name (some (whole 4)) none one)
delete_template-Deletes_example =
    delete_template-Deletes django tables tables_IsDatabases name (some (whole 4)) none one

abbrev updated : PublicationResult
updated = record { name = name; revision = 5; created = false }

published :
    (publish_template django tables name (codes "<b/>") (some true) (some (whole 4)) none one).0
    ≡ ok updated
unfolding publish_template refused text_eq starts_with contains split
published = refl

stale :
    (publish_template django tables name (codes "<b/>") (some true) (some (whole 3)) none one).0
    ≡ err publication_conflict
unfolding publish_template refused text_eq starts_with contains split
stale = refl

resolved :
    resolve django tables none name
      (publish_template django tables name (codes "<b/>") (some true) (some (whole 4)) none one).1
    ≡ ok (some (database_template name (codes "<b/>") 5))
unfolding publish_template refused text_eq starts_with contains split resolve
resolved = refl

aimed : mutation_target django none ≡ ok (codes "default")
unfolding mutation_target text_eq
aimed = refl

resolve-publish_template_example :
    some (database_template name (codes "<b/>") 5) ≡ some (database_template name (codes "<b/>") 5)
resolve-publish_template_example =
    resolve-publish_template django tables tables_IsDatabases name (codes "<b/>") true
      (some (whole 4)) none none (codes "default") one updated
      (some (database_template name (codes "<b/>") 5)) aimed refl published resolved

abbrev after_publication : Tables
after_publication =
    (publish_template django tables name (codes "<b/>") (some true) (some (whole 4)) none one).1

abbrev written_row : Row
written_row = record {
  name = name;
  name_identity = name;
  content = codes "<b/>";
  active = true;
  revision = 5;
}

shown :
    (tables_IsDatabases.of (codes "default")).view after_publication
      (template_name_identity django name)
    ≡ some written_row
unfolding publish_template refused text_eq starts_with contains split tables_IsDatabases
    template_name_identity
shown = refl

publish_template-refuses_stale_example :
    (publish_template django tables name
      (codes "<c/>")
      none
      (some (whole 4))
      none
      after_publication).0
    ≢ ok updated
publish_template-refuses_stale_example =
    publish_template-refuses_stale django tables tables_IsDatabases name (codes "<b/>")
      (codes "<c/>") (some true) none 4 none none (codes "default") one after_publication updated
      updated written_row aimed aimed published shown (omega arith)

abbrev target : Text
target = codes "b.xml"

captured : capture_save django.unsafe none false (some name) target ≡ ok (some (name ∷ target ∷ []))
unfolding capture_save refused text_eq starts_with contains split
captured = refl

scheduled : schedule_save django.unsafe (some (name ∷ target ∷ [])) ≡ ok (some (name ∷ target ∷ []))
unfolding schedule_save refused text_eq starts_with contains split canonical_names distinct member
    canonicalize_template_name
scheduled = refl

is_name : canonicalize_template_name django.unsafe (text name) ≡ ok name
unfolding canonicalize_template_name refused text_eq starts_with contains split
is_name = refl

capture_save-covers_example :
    (names : List Text) × (some (name ∷ target ∷ []) ≡ some names) × (member name names ≡ true)
unfolding is_irrelevant
capture_save-covers_example =
    capture_save-covers django.unsafe none (some name) target (some (name ∷ target ∷ []))
      (some (name ∷ target ∷ [])) name refl captured scheduled is_name (inl refl)

-- A raw save that gives a row a name that is not canonical captures nothing, not even its old name.
raw_renaming : capture_save django.unsafe none true (some name) (codes "../b.xml") ≡ ok none
unfolding capture_save refused text_eq starts_with contains split
raw_renaming = refl

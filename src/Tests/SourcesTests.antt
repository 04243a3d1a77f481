-- ===== src/Tests/SourcesTests.antt =====
-- The theorems on names and files, on a directory with one file.
use dj_hyperview.Prelude.{
  ℕ, Bool, true, ◌≡◌, refl, ◌↔◌, some, [], ◌∷◌, ◌++◌, ◌==◌, Text, codes, text_eq, starts_with,
  contains, split, if◌then◌else◌,
}
use dj_hyperview.Errors.{ok}
use dj_hyperview.Sources.{ResolvedTemplate, text, slash, canonicalize_template_name, refused}
use dj_hyperview.Sources.Canonical.{
  IsCanonical, canonicalize_template_name-IsCanonical, walk, walk-injective,
}
use dj_hyperview.Sources.Filesystem.{FileSystem, done, os_error, enoent, filesystem, resolve_file}
use dj_hyperview.Sources.Filesystem.Lookup.{FirstBelow, resolve_file-FirstBelow}

abbrev unsafe : ℕ → Bool
unsafe c = c == 10

abbrev name : Text
name = codes "a/b.xml"

abbrev accepted : canonicalize_template_name unsafe (text name) ≡ ok name
unfolding canonicalize_template_name refused text_eq starts_with contains split
accepted = refl

canonicalize_template_name-IsCanonical_example :
    (canonicalize_template_name unsafe (text name) ≡ ok name)
    ↔ ((name ≡ name) × IsCanonical unsafe name)
canonicalize_template_name-IsCanonical_example =
    canonicalize_template_name-IsCanonical unsafe name name

walk-injective_example :
    (walk (codes "www" ∷ []) (split slash name) ≡ (codes "www" ∷ []) ++ split slash name)
    × (name ≡ name)
walk-injective_example = walk-injective unsafe (codes "www" ∷ []) name name accepted accepted refl

abbrev sample_files : FileSystem
sample_files = record {
  real_path = λ p. done p;
  is_regular = λ p. done true;
  read_bytes = λ p. elim p [
    | [] ↦ os_error enoent
    | d ∷ ds ↦ if text_eq d (codes "www") then done (codes "hello") else os_error enoent
  ];
  decode = λ bytes. some bytes;
  as_uri = λ p. codes "file:";
  digest = λ bytes. bytes;
}

abbrev file : ResolvedTemplate
file = record {
  name = name;
  content = codes "hello";
  origin = codes "file:";
  source = filesystem;
  revision = codes "hello";
}

resolve_file-FirstBelow_example :
    (resolve_file unsafe sample_files ((codes "none" ∷ []) ∷ (codes "www" ∷ []) ∷ []) (text name)
      ≡ ok (some file))
    ↔ ((canonicalize_template_name unsafe (text name) ≡ ok name)
        × FirstBelow sample_files name ((codes "none" ∷ []) ∷ (codes "www" ∷ []) ∷ []) file)
resolve_file-FirstBelow_example =
    resolve_file-FirstBelow unsafe sample_files ((codes "none" ∷ []) ∷ (codes "www" ∷ []) ∷ []) name
      file

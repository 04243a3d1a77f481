-- ===== src/Sources/Filesystem.antt =====
-- sources/filesystem.py: `FileSystemSource.resolve` over a file system that the environment gives.
-- A path is the list of its segments.
pub mod Lookup
use dj_hyperview.Prelude.{
  ℕ, Bool, true, false, ◌&&◌, Option, none, some, List, [], ◌∷◌, ◌++◌, if◌then◌else◌, Text, codes,
  text_eq, split,
}
use dj_hyperview.Errors.{
  Error, Result, ok, err, invalid_template_name, source_unavailable, template_validation,
  read_failed, configuration_error,
}
use dj_hyperview.Sources.{ResolvedTemplate, Object, text, slash, canonicalize_template_name}

abbrev pub FilePath : Type 0
FilePath = List Text

pub data Errno : Type 0 where
  eloop enametoolong enoent enotdir : Errno
  other_errno : ℕ → Errno

-- What a call of the operating system does: it returns, or raises `RuntimeError` or `OSError`.
pub data Outcome {ℓ} (A : Type ℓ) : Type ℓ where
  done : A → Outcome A
  runtime_error : Outcome A
  os_error : Errno → Outcome A

-- The file system during one call, with the decoder, the digest and the URI of the language.
pub record FileSystem : Type 0 where
  pub real_path : FilePath → Outcome FilePath
  pub is_regular : FilePath → Outcome Bool
  pub read_bytes : FilePath → Outcome (List ℕ)
  pub decode : List ℕ → Option Text
  pub as_uri : FilePath → Text
  pub digest : List ℕ → Text

unfoldable pub is_within_root : FilePath → FilePath → Bool
is_within_root candidate [] = true
is_within_root [] (d ∷ root) = false
is_within_root (c ∷ candidate) (d ∷ root) = text_eq c d && is_within_root candidate root

-- How one root of the loop ends: with `continue`, a template, or an exception.
pub data Attempt : Type 0 where
  next_root : Attempt
  found : ResolvedTemplate → Attempt
  raised : Error → Attempt

abbrev pub filesystem : Text
filesystem = codes "filesystem"

-- The handler of `OSError`.
abbrev pub on_os_error : Errno → Attempt
on_os_error (other_errno n) = raised (source_unavailable filesystem read_failed)
on_os_error _ = next_root

-- Both handlers, round a step of the `try` block.
abbrev pub then_try {ℓ} : {A : Type ℓ} → Outcome A → (A → Attempt) → Attempt
then_try (done a) f = f a
then_try runtime_error f = next_root
then_try (os_error n) f = on_os_error n

module _ (fs : FileSystem) (canonical : Text) where
  abbrev pub template_at : FilePath → List ℕ → Text → ResolvedTemplate
  template_at candidate bytes content = record {
    name = canonical;
    content = content;
    origin = fs.as_uri candidate;
    source = filesystem;
    revision = fs.digest bytes;
  }

  unfoldable pub decoded : FilePath → List ℕ → Attempt
  decoded candidate bytes = elim (fs.decode bytes) [
    | none ↦ raised (template_validation (codes "invalid_encoding"))
    | some content ↦ found (template_at candidate bytes content)
  ]

  -- The body of the loop over the roots.
  unfoldable pub attempt : FilePath → Attempt
  attempt configured_root = then_try (fs.real_path configured_root) λ root.
      then_try (fs.real_path (root ++ split slash canonical)) λ candidate.
        if is_within_root candidate root
        then then_try (fs.is_regular candidate) (λ regular.
          if regular then then_try (fs.read_bytes candidate) (decoded candidate) else next_root)
        else raised invalid_template_name

  unfoldable pub first_root : List FilePath → Result (Option ResolvedTemplate)
  first_root [] = ok none
  first_root (root ∷ roots) = elim (attempt root) [
    | next_root ↦ first_root roots
    | found t ↦ ok (some t)
    | raised e ↦ err e
  ]

-- `FileSystemSource.resolve`
unfoldable pub resolve_file :
    (ℕ → Bool) → FileSystem → List FilePath → Object → Result (Option ResolvedTemplate)
resolve_file unsafe fs template_dirs name = elim (canonicalize_template_name unsafe name) [
  | ok canonical ↦ first_root fs canonical template_dirs
  | err e ↦ err e
]

-- The argument of `FileSystemSource`: none, a text or path, which is refused, or an iterable of paths.
pub data Directories : Type 0 where
  no_directories : Directories
  scalar : Directories
  directories : List Text → Directories

unfoldable pub absolute_all : (Text → FilePath) → List Text → List FilePath
absolute_all absolute [] = []
absolute_all absolute (p ∷ ps) = absolute p ∷ absolute_all absolute ps

unfoldable pub checked_directories : (Text → FilePath) → Directories → Result (List FilePath)
checked_directories absolute (directories ps) = ok (absolute_all absolute ps)
checked_directories absolute _ = err configuration_error

-- `FileSystemSource.__init__`: `settings` is what the settings hold, `absolute` is `Path.absolute`.
unfoldable pub init : Directories → (Text → FilePath) → Directories → Result (List FilePath)
init settings absolute no_directories = checked_directories absolute settings
init settings absolute given = checked_directories absolute given

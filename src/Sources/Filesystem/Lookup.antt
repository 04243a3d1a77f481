-- ===== src/Sources/Filesystem/Lookup.antt =====
-- What `FileSystemSource.resolve` returns, and from where.
use dj_hyperview.Prelude.{
  sym, ap, ◌↔◌, if◌then◌else◌, ℕ, Bool, true, ◌≡◌, refl, some, List, [], ◌∷◌, ◌++◌, arith, Text,
  split, Option-cases, Bool-cases, inl, inr,
}
use dj_hyperview.Errors.{Error, ok}
use dj_hyperview.Sources.{refused, ResolvedTemplate, slash, canonicalize_template_name, text}
use dj_hyperview.Sources.Filesystem.{
  FilePath, Outcome, done, runtime_error, os_error, FileSystem, is_within_root, Attempt, next_root,
  found, raised, then_try, template_at, decoded, attempt, first_root, resolve_file,
}

-- How an attempt can end, with its equation.
data Ends (a : Attempt) : Type 0 where
  miss : a ≡ next_root → Ends a
  hit : (t : ResolvedTemplate) → a ≡ found t → Ends a
  stop : (e : Error) → a ≡ raised e → Ends a

Attempt-cases : (a : Attempt) → Ends a
Attempt-cases next_root = miss refl
Attempt-cases (found t) = hit t refl
Attempt-cases (raised e) = stop e refl

module _ (fs : FileSystem) (canonical : Text) where
  -- A file below a root: the path, its bytes and its text.
  pub record IsBelow (configured_root : FilePath) (t : ResolvedTemplate) : Type 0 where
    pub root : FilePath
    pub candidate : FilePath
    pub bytes : List ℕ
    pub content : Text
    pub real_root : fs.real_path configured_root ≡ done root
    pub real_candidate : fs.real_path (root ++ split slash canonical) ≡ done candidate
    pub within : is_within_root candidate root ≡ true
    pub regular : fs.is_regular candidate ≡ done true
    pub read : fs.read_bytes candidate ≡ done bytes
    pub utf8 : fs.decode bytes ≡ some content
    pub template : t ≡ template_at fs canonical candidate bytes content

  -- A root is passed over: of the roots in front of the first file nothing was raised.
  pub data FirstBelow : List FilePath → ResolvedTemplate → Type 0 where
    here :
        (root : FilePath) (roots : List FilePath) (t : ResolvedTemplate)
        → IsBelow root t
        → FirstBelow (root ∷ roots) t
    later :
        (root : FilePath) (roots : List FilePath) (t : ResolvedTemplate)
        → attempt fs canonical root ≡ next_root
        → FirstBelow roots t
        → FirstBelow (root ∷ roots) t

  then_try-found {ℓ} :
      {A : Type ℓ} (o : Outcome A) (f : A → Attempt) (t : ResolvedTemplate)
      → then_try o f ≡ found t
      → (a : A) × (o ≡ done a) × (f a ≡ found t)
  then_try-found (done a) f t h = (a, refl, h)
  then_try-found runtime_error f t h = cc
  then_try-found (os_error n) f t h = ground arith

  guard-found :
      (b : Bool) (a : Attempt) (e : Error) (t : ResolvedTemplate)
      → (if b then a else raised e) ≡ found t
      → (b ≡ true) × (a ≡ found t)
  guard-found b a e t h = ground arith

  regular-found :
      (b : Bool) (a : Attempt) (t : ResolvedTemplate)
      → (if b then a else next_root) ≡ found t
      → (b ≡ true) × (a ≡ found t)
  regular-found b a t h = ground arith

  decoded-found :
      (candidate : FilePath) (bytes : List ℕ) (t : ResolvedTemplate)
      → decoded fs canonical candidate bytes ≡ found t
      → (content : Text) × (fs.decode bytes ≡ some content)
        × (t ≡ template_at fs canonical candidate bytes content)
  unfolding decoded
  decoded-found candidate bytes t h = elim (Option-cases (fs.decode bytes)) [
    | inl undecoded ↦ absurd (ground arith)
    | inr (content, utf8) ↦ (content, utf8, ground arith)
  ]

  attempt-IsBelow :
      (configured_root : FilePath) (t : ResolvedTemplate)
      → attempt fs canonical configured_root ≡ found t
      → IsBelow configured_root t
  unfolding attempt
  attempt-IsBelow configured_root t h =
      let (root, real_root, h₁) = then_try-found (fs.real_path configured_root) _ t h in
      let (candidate, real_candidate, h₂) =
        then_try-found (fs.real_path (root ++ split slash canonical)) _ t h₁ in
      let (within, h₃) = guard-found (is_within_root candidate root) _ _ t h₂ in
      let (regular, is_regular, h₄) = then_try-found (fs.is_regular candidate) _ t h₃ in
      let (is_true, h₅) = regular-found regular _ t h₄ in
      let (bytes, read, h₆) = then_try-found (fs.read_bytes candidate) _ t h₅ in
      let (content, utf8, template) = decoded-found candidate bytes t h₆ in
      record {
        root = root;
        candidate = candidate;
        bytes = bytes;
        content = content;
        real_root = real_root;
        real_candidate = real_candidate;
        within = within;
        regular = rw is_true at is_regular;
        read = read;
        utf8 = utf8;
        template = template;
      }

  first_root-FirstBelow :
      (roots : List FilePath) (t : ResolvedTemplate)
      → first_root fs canonical roots ≡ ok (some t)
      → FirstBelow roots t
  unfolding first_root
  first_root-FirstBelow [] t h = absurd (cc)
  first_root-FirstBelow (root ∷ roots) t h = elim (Attempt-cases (attempt fs canonical root)) [
    | miss e ↦ later root roots t e (first_root-FirstBelow roots t (rw (e, first_root) at h))
    | hit u e ↦ here root roots t (attempt-IsBelow root t (cc (e, rw (e, first_root) at h)))
    | stop x e ↦ absurd (cc (rw (e, first_root) at h))
  ]

  IsBelow-attempt :
      (root : FilePath) (t : ResolvedTemplate)
      → IsBelow root t
      → attempt fs canonical root ≡ found t
  unfolding attempt decoded
  IsBelow-attempt root t b =
      rw (b.real_root, attempt)
        (rw b.real_candidate (
          rw b.within
            (rw b.regular (rw b.read (rw (b.utf8, decoded) (ap found (sym b.template)))))))

  FirstBelow-first_root :
      {roots : List FilePath} {t : ResolvedTemplate}
      → FirstBelow roots t
      → first_root fs canonical roots ≡ ok (some t)
  unfolding first_root
  FirstBelow-first_root (here root roots t b) = rw (IsBelow-attempt root t b, first_root)
  FirstBelow-first_root (later root roots t e f) = rw (e, first_root) (FirstBelow-first_root f)

-- A template is returned exactly if the name is canonical and the template is that of the first
-- root which holds the file: the real path of the file lies within the real path of the root, it is
-- a regular file, its bytes are UTF-8, and they give the content; and every root in front of that
-- one was passed over without an exception.
pub resolve_file-FirstBelow :
    (unsafe : ℕ → Bool) (fs : FileSystem) (roots : List FilePath) (name : Text)
    (t : ResolvedTemplate)
    → (resolve_file unsafe fs roots (text name) ≡ ok (some t))
      ↔ ((canonicalize_template_name unsafe (text name) ≡ ok name) × FirstBelow fs name roots t)
unfolding resolve_file canonicalize_template_name
resolve_file-FirstBelow unsafe fs roots name t = elim (Bool-cases (refused unsafe name)) [
  | inl bad ↦ (
    λ h. absurd (cc (rw (bad, resolve_file, canonicalize_template_name) at h)),
    λ h. absurd (cc (rw (bad) at h.0)),
  )
  | inr good ↦ (
    λ h. (rw good refl, first_root-FirstBelow fs name roots t (rw (good, resolve_file) at h)),
    λ h. rw (good, resolve_file) (FirstBelow-first_root fs name h.1),
  )
]

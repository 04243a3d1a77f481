-- ===== src/Http/Assign/Steps.antt =====
-- A guarded response: its body is empty or a validated document. The steps that replace the body
-- leave it guarded, and as it was where they raise.
use mathlib.Core.Path.{subst}
use dj_hyperview.Prelude.{
  ◌+◌, ◌≡◌, refl, sym, ◌∙◌, ap, Bool, true, false, ◌&&◌, Option, none, some, length, Text,
  Bool-cases, inl, inr,
}
use dj_hyperview.Errors.{Result, ok, err}
use dj_hyperview.Validation.Encoding.{encode}
use dj_hyperview.Validation.Guard.{ValidationSettings, Runtime}
use dj_hyperview.Validation.Hxml.{
  Schemas, ValidatedHxml, validate_hxml_result, is_current_hxml_result,
}
use dj_hyperview.Validation.Hxml.Accepts.{IsValidated, validate_hxml_result-ok}
use dj_hyperview.Http.Body.{Response, Decoded, Library, is_empty, is_some}
use dj_hyperview.Http.Commit.{
  World, check_body_status, committed, after_check, commit, unless_current, revalidated,
  with_result, commit_valid, commit_result, commit_validated, set_decoded, set_checked,
  after_status, set_candidate, joined, preserves,
}

module _ {S Identity Registry : Type 0} (schemas : Schemas S Identity Registry) (runtime : Runtime)
    (config : ValidationSettings) (library : Library) where
  -- A result that was validated for this use, of some document at some time.
  unfoldable pub Checked : Bool → ValidatedHxml Identity → Type 0
  Checked fragment v =
      (document : Text) × (s : S) × IsValidated schemas runtime config fragment document s v

  -- A gzip transport unpacks to the validated bytes.
  abbrev pub Transports : Option Text → ValidatedHxml Identity → Type 0
  Transports none v = Unit
  Transports (some gzip) v =
      (d : Decoded) × (library.decompress gzip (length v.content + 1) ≡ some d)
      × (preserves schemas runtime config library v.content d ≡ true)

  abbrev pub Guards : Option (ValidatedHxml Identity) → Option Text → Option Text → Bool → Type 0
  Guards none container gzip fragment =
      (is_empty (joined schemas runtime config library container) ≡ true) × (gzip ≡ none)
  Guards (some v) container gzip fragment =
      (container ≡ some v.content) × Checked fragment v × Transports gzip v

  -- A response whose body is empty, or the bytes of a result that was validated for its use.
  unfoldable pub IsGuarded : Response Identity → Type 0
  IsGuarded r = Guards r.validated_result r.container r.gzip_transport r.fragment

  -- After a method that started with the response `before`: guarded, or, if it raised, unchanged.
  unfoldable pub Leaves :
      {A : Type 0} → Response Identity → Result A × World schemas runtime config library → Type 0
  Leaves before (ok a, w) = IsGuarded w.0
  Leaves before (err e, w) = w.0 ≡ before

  pub revalidated-Checked :
      (v v' : ValidatedHxml Identity) (fragment : Bool) (s : S)
      → Checked fragment v
      → (revalidated schemas runtime config library v fragment s).0 ≡ ok v'
      → Checked fragment v' × (v.content ≡ v'.content)
  unfolding revalidated Checked
  revalidated-Checked v v' fragment s (document, s₀, valid) h =
      by_current (is_current_hxml_result schemas v config fragment s) refl h
    where
      again :
          (s' : S)
          → (validate_hxml_result schemas runtime config fragment v.text s').0 ≡ ok v'
          → ((document : Text) × (s : S) × IsValidated schemas runtime config fragment document s
                v')
            × (v.content ≡ v'.content)
      again s' h' =
          let valid' = validate_hxml_result-ok schemas runtime config fragment v.text s' v' h' in
          let bytes : some v.content ≡ some v'.content =
            sym valid.content ∙ ap encode (sym valid.text) ∙ valid'.content in
          ((v.text, s', valid'), cc)

      by_current :
          (p : Bool × S)
          → is_current_hxml_result schemas v config fragment s ≡ p
          → (unless_current schemas runtime config library v fragment p).0 ≡ ok v'
          → ((document : Text) × (s : S) × IsValidated schemas runtime config fragment document s
                v')
            × (v.content ≡ v'.content)
      by_current (true, s') e h' =
          let same : v ≡ v' = cc in
          (
            subst
                (λ x.
                  (document : Text) × (s : S) × IsValidated schemas runtime config fragment document
                    s x)
                same (document, s₀, valid),
            ap (λ x. x.content) same,
          )
      by_current (false, s') e h' = again s' h'

  -- The steps of an assignment, each after a response that is guarded.
  module _ (before : Response Identity) where
    Leaves-commit_valid :
        (p : Result (ValidatedHxml Identity) × S)
        → ((v : ValidatedHxml Identity) → p.0 ≡ ok v → Checked before.fragment v)
        → Leaves before (commit_valid schemas runtime config library before p)
    unfolding commit Leaves IsGuarded
    Leaves-commit_valid (err e, s) checked = refl
    Leaves-commit_valid (ok v, s) checked =
        by_status (check_body_status schemas runtime config library before v.content)
      where
        by_status :
            (status : Result (Unit {0}))
            → Leaves before (
                with_result schemas runtime config library v (
                  after_check schemas runtime config library status
                    (committed schemas runtime config library v.content before)
                    (before, s)))
        by_status (err e) = refl
        by_status (ok u) = (refl, checked v refl, tt)

    Leaves-commit_result :
        (v : ValidatedHxml Identity) (s : S)
        → Checked before.fragment v
        → Leaves before (commit_result schemas runtime config library v (before, s))
    unfolding commit_result
    Leaves-commit_result v s checked =
        Leaves-commit_valid (revalidated schemas runtime config library v before.fragment s)
          (λ v' h. (revalidated-Checked v v' before.fragment s checked h).0)

    Leaves-set_decoded :
        (document : Option Text) (s : S)
        → Leaves before (set_decoded schemas runtime config library document (before, s))
    unfolding Leaves Checked
    Leaves-set_decoded none s = refl
    Leaves-set_decoded (some document) s =
        by_result (validate_hxml_result schemas runtime config before.fragment document s) refl
      where
        by_result :
            (p : Result (ValidatedHxml Identity) × S)
            → validate_hxml_result schemas runtime config before.fragment document s ≡ p
            → Leaves before (commit_validated schemas runtime config library before p)
        by_result (err e, s') h = refl
        by_result (ok v, s') h = Leaves-commit_result v s' (
          document,
          s,
          validate_hxml_result-ok schemas runtime config before.fragment document s v
              (ap (λ x. x.0) h),
        )

    Leaves-commit_empty :
        (content : Text) (s : S)
        → is_empty content ≡ true
        → Leaves before (commit schemas runtime config library content (before, s))
    unfolding commit Leaves IsGuarded
    Leaves-commit_empty content s empty =
        by_status (check_body_status schemas runtime config library before content)
      where
        by_status :
            (status : Result (Unit {0}))
            → Leaves before (
                after_check schemas runtime config library status
                  (committed schemas runtime config library content before)
                  (before, s))
        by_status (err e) = refl
        by_status (ok u) = (empty, refl)

    Leaves-set_checked :
        (content : Text) (s : S) (status : Result (Unit {0}))
        → Leaves before (after_status schemas runtime config library status content (before, s))
    unfolding set_checked Leaves
    Leaves-set_checked content s (err e) = refl
    Leaves-set_checked content s (ok u) = elim (Bool-cases (is_empty content)) [
      | inl e ↦ rw (e, set_checked) (Leaves-commit_empty content s e)
      | inr e ↦ rw (e, set_checked) (Leaves-set_decoded (library.decode content) s)
    ]

    pub Leaves-set_candidate :
        (content : Text) (s : S)
        → Leaves before (set_candidate schemas runtime config library content (before, s))
    unfolding set_candidate Leaves
    Leaves-set_candidate content s =
        elim (Bool-cases (is_some before.gzip_transport && is_some before.content_encoding)) [
          | inl e ↦ rw (e, set_candidate) refl
          | inr e ↦
              rw (e, set_candidate)
                (Leaves-set_checked content s
                  (check_body_status schemas runtime config library before content))
        ]

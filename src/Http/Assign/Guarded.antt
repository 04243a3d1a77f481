-- ===== src/Http/Assign/Guarded.antt =====
-- The body of a response is at all times a validated document, or empty, and a rejected assignment
-- leaves the response as it was.
use mathlib.Core.Path.{subst}
use dj_hyperview.Prelude.{
  ◌+◌, ◌≡◌, refl, sym, ◌∙◌, ap, Bool, true, false, ◌&&◌, Option, none, some, List, [], ◌∷◌, length,
  Text, Bool-cases, inl, inr, starts_with,
}
use dj_hyperview.Errors.{Result, ok, err}
use dj_hyperview.Validation.Guard.{ValidationSettings, Runtime}
use dj_hyperview.Validation.Hxml.{Schemas, ValidatedHxml}
use dj_hyperview.Http.Body.{Response, Decoded, Library, Chunk, Content, chunks, candidate}
use dj_hyperview.Http.Commit.{
  World, revalidated, set_candidate, body_content, preserves, with_gzip, set_decompressed,
  after_body, set_gzip_of, set_gzip_transport,
}
use dj_hyperview.Http.Assign.{
  is_empty_text, suppress, unless_gzip, suppresses, assign, set_content, append_candidate,
  append_to, write, writelines,
}
use dj_hyperview.Http.Assign.Steps.{
  Guards, IsGuarded, Leaves, revalidated-Checked, Leaves-set_candidate,
}

module _ {S Identity Registry : Type 0} (schemas : Schemas S Identity Registry) (runtime : Runtime)
    (config : ValidationSettings) (library : Library) where
  module _ (before : Response Identity) where
    -- What trying gzip leaves: another transport, or the whole world as it was.
    Tries : S → Result Bool × World schemas runtime config library → Type 0
    Tries s (ok true, w) = IsGuarded schemas runtime config library w.0
    Tries s (ok false, w) = w ≡ (before, s)
    Tries s (err e, w) = w.0 ≡ before

    module _ (guarded : IsGuarded schemas runtime config library before) (content : Text) where
      module _ (v : ValidatedHxml Identity) (has : before.validated_result ≡ some v) (s : S) where
        kept :
            Guards schemas runtime config library
              (some v)
              before.container
              before.gzip_transport
              before.fragment
        unfolding IsGuarded
        kept =
            subst
              (λ o.
                Guards schemas runtime config library o before.container before.gzip_transport
                  before.fragment)
              has guarded

        Tries-with_gzip :
            (d : Decoded)
            → library.decompress content (length v.content + 1) ≡ some d
            → preserves schemas runtime config library v.content d ≡ true
            → Tries s (
                with_gzip schemas runtime config library content before
                  (revalidated schemas runtime config library v before.fragment s))
        unfolding Tries IsGuarded
        Tries-with_gzip d unpacked same =
            by_result (revalidated schemas runtime config library v before.fragment s) refl
          where
            by_result :
                (p : Result (ValidatedHxml Identity) × S)
                → revalidated schemas runtime config library v before.fragment s ≡ p
                → Tries s (with_gzip schemas runtime config library content before p)
            by_result (err e, s') h = refl
            by_result (ok v', s') h =
                let (checked, bytes) =
                  revalidated-Checked schemas runtime config library v v' before.fragment s kept.1
                    (ap (λ x. x.0) h) in
                (
                  kept.0 ∙ ap some bytes,
                  checked,
                  (
                    d,
                    subst (λ b. library.decompress content (length b + 1) ≡ some d) bytes unpacked,
                    subst (λ b. preserves schemas runtime config library b d ≡ true) bytes same,
                  ),
                )

        Tries-set_decompressed :
            (d : Option Decoded)
            → library.decompress content (length v.content + 1) ≡ d
            → Tries s (set_decompressed schemas runtime config library content v d (before, s))
        unfolding Tries
        Tries-set_decompressed none h = refl
        Tries-set_decompressed (some d) h =
            elim (Bool-cases (preserves schemas runtime config library v.content d)) [
              | inl e ↦ rw (e, set_decompressed) (Tries-with_gzip d h e)
              | inr e ↦ rw (e, set_decompressed) refl
            ]

        Tries-after_body :
            (body : Result Text)
            → Tries s (after_body schemas runtime config library content v body (before, s))
        unfolding Tries
        Tries-after_body (err e) = refl
        Tries-after_body (ok body) = Tries-set_decompressed _ refl

      Tries-set_gzip_of :
          (o : Option (ValidatedHxml Identity)) (s : S)
          → before.validated_result ≡ o
          → Tries s (set_gzip_of schemas runtime config library content o (before, s))
      unfolding Tries
      Tries-set_gzip_of none s has = refl
      Tries-set_gzip_of (some v) s has =
          elim (Bool-cases (starts_with (0x1f ∷ 0x8b ∷ []) content)) [
            | inl e ↦
                rw (e, set_gzip_of)
                  (Tries-after_body v has s (body_content schemas runtime config library before))
            | inr e ↦ rw (e, set_gzip_of) refl
          ]

      Leaves-unless_gzip :
          (s : S) (p : Result Bool × World schemas runtime config library)
          → Tries s p
          → Leaves schemas runtime config library before
              (unless_gzip schemas runtime config library content p)
      unfolding Tries Leaves
      Leaves-unless_gzip s (ok true, w) h = h
      Leaves-unless_gzip s (ok false, w) h =
          subst
            (λ x.
              Leaves schemas runtime config library before
                (set_candidate schemas runtime config library content x))
            (sym h) (Leaves-set_candidate schemas runtime config library before content s)
      Leaves-unless_gzip s (err e, w) h = h

    Leaves-suppress :
        IsGuarded schemas runtime config library before
        → (body : Result Text) (s : S)
        → Leaves schemas runtime config library before
            (suppress schemas runtime config library body (before, s))
    unfolding Leaves IsGuarded
    Leaves-suppress guarded (err e) s = refl
    Leaves-suppress guarded (ok body) s = guarded

    Leaves-assign :
        IsGuarded schemas runtime config library before
        → (value : Result Text) (s : S)
        → Leaves schemas runtime config library before
            (assign schemas runtime config library value (before, s))
    unfolding Leaves set_gzip_transport
    Leaves-assign guarded (err e) s = refl
    Leaves-assign guarded (ok content) s =
        elim (Bool-cases (suppresses schemas runtime config library before content)) [
          | inl e ↦
              rw (e, assign)
                (Leaves-suppress guarded (body_content schemas runtime config library before) s)
          | inr e ↦
              rw (e, assign)
                (Leaves-unless_gzip guarded content s _
                  (Tries-set_gzip_of guarded content before.validated_result s refl))
        ]

    Leaves-append_to :
        (value : Content) (prefix : Result Text) (s : S)
        → Leaves schemas runtime config library before
            (append_to schemas runtime config library value prefix (before, s))
    unfolding Leaves
    Leaves-append_to value (err e) s = refl
    Leaves-append_to value (ok prefix) s = by_candidate (candidate config value prefix)
      where
        by_candidate :
            (r : Result Text)
            → Leaves schemas runtime config library before
                (append_candidate schemas runtime config library r (before, s))
        by_candidate (err e) = refl
        by_candidate (ok content) =
            Leaves-set_candidate schemas runtime config library before content s

    Leaves-set_content :
        IsGuarded schemas runtime config library before
        → (before.initializing ≡ true → before.validated_result ≡ none)
        → (value : Content) (s : S)
        → Leaves schemas runtime config library before
            (set_content schemas runtime config library value (before, s))
    unfolding set_content Leaves IsGuarded
    Leaves-set_content guarded fresh value s =
        elim (Bool-cases (before.initializing && is_empty_text value)) [
          | inl e ↦ rw (e, set_content) (emptied (fresh (both_left _ _ e)))
          | inr e ↦ rw (e, set_content) (Leaves-assign guarded (candidate config value []) s)
        ]
      where
        both_left : (a b : Bool) → (a && b) ≡ true → a ≡ true
        both_left true b h = refl
        both_left false b h = cc

        emptied :
            before.validated_result ≡ none
            → Guards schemas runtime config library before.validated_result
                (some [])
                before.gzip_transport
                before.fragment
        emptied no_result =
            let (empty, plain) =
              subst
                (λ o.
                  Guards schemas runtime config library o before.container before.gzip_transport
                    before.fragment)
                no_result guarded in
            subst
              (λ o.
                Guards schemas runtime config library o (some []) before.gzip_transport
                  before.fragment)
              (sym no_result) (refl, plain)

  -- A response whose body is empty, or the bytes of a result that was validated for its use, stays one
  -- under an assignment to content, a write and a writelines; while its constructor runs it holds no
  -- result. If one of them raises, the response is as it was.
  pub set_content-Leaves :
      (before : Response Identity) (value : Content) (lines : List Chunk) (s : S)
      → IsGuarded schemas runtime config library before
      → (before.initializing ≡ true → before.validated_result ≡ none)
      → Leaves schemas runtime config library before
          (set_content schemas runtime config library value (before, s))
        × Leaves schemas runtime config library before
            (write schemas runtime config library value (before, s))
        × Leaves schemas runtime config library before
            (writelines schemas runtime config library lines (before, s))
  unfolding write writelines
  set_content-Leaves before value lines s guarded fresh = (
    Leaves-set_content before guarded fresh value s,
    Leaves-append_to before value (body_content schemas runtime config library before) s,
    Leaves-append_to before (chunks lines) (body_content schemas runtime config library before) s,
  )

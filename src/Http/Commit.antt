-- ===== src/Http/Commit.antt =====
-- http.py, `_HyperviewBody`: the checks on a candidate, and the assignments that replace the body.
use dj_hyperview.Prelude.{
  ◌+◌, Bool, true, false, ◌&&◌, ◌||◌, not, Option, none, some, [], ◌∷◌, if◌then◌else◌, length, Text,
  codes, text_eq, starts_with,
}
use dj_hyperview.Errors.{value_error, Result, ok, err, Exec}
use dj_hyperview.Validation.Encoding.{failed}
use dj_hyperview.Validation.Guard.{ValidationSettings, Runtime}
use dj_hyperview.Validation.Hxml.{
  Schemas, ValidatedHxml, validate_hxml_result, is_current_hxml_result,
}
use dj_hyperview.Http.Body.{
  Response, Decoded, Library, is_bodyless, is_empty, is_some, same_flag, http_error,
}

module _ {S Identity Registry : Type 0} (schemas : Schemas S Identity Registry) (runtime : Runtime)
    (config : ValidationSettings) (library : Library) where
  abbrev pub World : Type 0
  World = Response Identity × S

  unfoldable pub check_body_status : Response Identity → Text → Result (Unit {0})
  unfolding is_bodyless
  check_body_status r content = elim (library.metadata r.content_type r.charset) [
    | err e ↦ err e
    | ok u ↦
        if same_flag (is_bodyless r.status_code) (is_empty content)
        then ok tt
        else err (http_error (codes "http_body"))
  ]

  -- The attributes that `_commit` assigns.
  abbrev pub committed : Text → Response Identity → Response Identity
  committed content r = record r {
    container = some content;
    gzip_transport = none;
    validated_result = none;
    content_length = if is_some r.gzip_transport then none else r.content_length;
    is_rendered = r.is_template || r.is_rendered;
  }

  abbrev pub after_check : Result (Unit {0}) → Response Identity → World → Result (Unit {0}) × World
  after_check (err e) r w = (err e, w)
  after_check (ok u) r w = (ok tt, (r, w.1))

  unfoldable pub commit : Text → Exec World (Unit {0})
  unfolding check_body_status
  commit content w = after_check (check_body_status w.0 content) (committed content w.0) w

  -- A result that is current, or the result of validating its text again.
  abbrev pub unless_current :
      ValidatedHxml Identity → Bool → Bool × S → Result (ValidatedHxml Identity) × S
  unless_current result fragment (true, s) = (ok result, s)
  unless_current result fragment (false, s) =
      validate_hxml_result schemas runtime config fragment result.text s

  unfoldable pub revalidated :
      ValidatedHxml Identity → Bool → S → Result (ValidatedHxml Identity) × S
  unfolding is_current_hxml_result validate_hxml_result
  revalidated result fragment s =
      unless_current result fragment (is_current_hxml_result schemas result config fragment s)

  abbrev pub with_result :
      ValidatedHxml Identity → Result (Unit {0}) × World → Result (Unit {0}) × World
  with_result result (err e, w) = (err e, w)
  with_result result (ok u, (r, s)) = (ok tt, (record r { validated_result = some result }, s))

  abbrev pub commit_valid :
      Response Identity → Result (ValidatedHxml Identity) × S → Result (Unit {0}) × World
  commit_valid r (err e, s) = (err e, (r, s))
  commit_valid r (ok result, s) = with_result result (commit result.content (r, s))

  unfoldable pub commit_result : ValidatedHxml Identity → Exec World (Unit {0})
  unfolding revalidated commit
  commit_result result (r, s) = commit_valid r (revalidated result r.fragment s)

  -- `_set_candidate`, after its two checks.
  abbrev pub commit_validated :
      Response Identity → Result (ValidatedHxml Identity) × S → Result (Unit {0}) × World
  commit_validated r (err e, s) = (err e, (r, s))
  commit_validated r (ok result, s) = commit_result result (r, s)

  abbrev pub set_decoded : Option Text → Exec World (Unit {0})
  set_decoded none w = (err (failed (codes "malformed_xml")), w)
  set_decoded (some document) (r, s) =
      commit_validated r (validate_hxml_result schemas runtime config r.fragment document s)

  unfoldable pub set_checked : Text → Exec World (Unit {0})
  unfolding commit commit_result validate_hxml_result
  set_checked content w = elim (is_empty content) [
    | true ↦ commit content w
    | false ↦ set_decoded (library.decode content) w
  ]

  abbrev pub after_status : Result (Unit {0}) → Text → Exec World (Unit {0})
  after_status (err e) content w = (err e, w)
  after_status (ok u) content w = set_checked content w

  unfoldable pub set_candidate : Text → Exec World (Unit {0})
  unfolding set_checked check_body_status
  set_candidate content w = elim (is_some w.0.gzip_transport && is_some w.0.content_encoding) [
    | true ↦ (err (http_error (codes "http_encoding")), w)
    | false ↦ after_status (check_body_status w.0 content) content w
  ]

  abbrev pub joined : Option Text → Text
  joined none = []
  joined (some content) = content

  abbrev pub returned : Text → Result (Unit {0}) → Result Text
  returned content (err e) = err e
  returned content (ok u) = ok content

  -- `_body_content`; a ContentNotRenderedError is a value error here.
  unfoldable pub body_content : Response Identity → Result Text
  unfolding check_body_status
  body_content r =
      if r.is_template && not r.is_rendered
      then err value_error
      else returned (joined r.container) (check_body_status r (joined r.container))

  -- The check that gzip preserves the validated representation.
  unfoldable pub preserves : Text → Decoded → Bool
  preserves content d =
      text_eq d.decoded content && (d.eof && (is_empty d.unused_data && is_empty d.unconsumed_tail))

  abbrev pub with_gzip :
      Text → Response Identity → Result (ValidatedHxml Identity) × S → Result Bool × World
  with_gzip content r (err e, s) = (err e, (r, s))
  with_gzip content r (ok result, s) =
      (ok true, (record r { validated_result = some result; gzip_transport = some content }, s))

  abbrev pub set_decompressed : Text → ValidatedHxml Identity → Option Decoded → Exec World Bool
  set_decompressed content result none w = (err (http_error (codes "http_encoding")), w)
  set_decompressed content result (some d) (r, s) = elim (preserves result.content d) [
    | false ↦ (err (http_error (codes "http_encoding")), (r, s))
    | true ↦ with_gzip content r (revalidated result r.fragment s)
  ]

  abbrev pub after_body : Text → ValidatedHxml Identity → Result Text → Exec World Bool
  after_body content result (err e) w = (err e, w)
  after_body content result (ok body) w =
      set_decompressed content result (library.decompress content (length result.content + 1)) w

  abbrev pub set_gzip_of : Text → Option (ValidatedHxml Identity) → Exec World Bool
  set_gzip_of content none w = (ok false, w)
  set_gzip_of content (some result) w = elim (starts_with (0x1f ∷ 0x8b ∷ []) content) [
    | false ↦ (ok false, w)
    | true ↦ after_body content result (body_content w.0) w
  ]

  unfoldable pub set_gzip_transport : Text → Exec World Bool
  unfolding preserves revalidated body_content
  set_gzip_transport content w = set_gzip_of content w.0.validated_result w

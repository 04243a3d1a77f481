-- ===== src/Http/Assign.antt =====
-- http.py, `_HyperviewBody`: what a response offers, the assignment of its content and its emission.
pub mod Steps
pub mod Guarded
use dj_hyperview.Prelude.{
  ℕ, Bool, true, false, ◌&&◌, ◌||◌, not, Option, none, some, List, [], ◌∷◌, if◌then◌else◌, Text,
  codes, text_eq,
}
use dj_hyperview.Errors.{Error, Result, ok, err, Exec}
use dj_hyperview.Validation.Guard.{ValidationSettings, Runtime}
use dj_hyperview.Validation.Hxml.{Schemas}
use dj_hyperview.Http.Body.{
  Response, Library, Chunk, Content, str, chunk, chunks, candidate, is_bodyless, is_empty, is_some,
  same_flag, http_error,
}
use dj_hyperview.Http.Commit.{World, body_content, set_candidate, set_gzip_transport}

abbrev pub is_empty_text : Content → Bool
is_empty_text (chunk (str [])) = true
is_empty_text _ = false

module _ {S Identity Registry : Type 0} (schemas : Schemas S Identity Registry) (runtime : Runtime)
    (config : ValidationSettings) (library : Library) where
  abbrev pub W : Type 0
  W = World schemas runtime config library

  -- The getter of `content`.
  abbrev pub or_transport : Option Text → Text → Text
  or_transport none content = content
  or_transport (some gzip) content = gzip

  abbrev pub transport : Response Identity → Result Text → Result Text
  transport r (err e) = err e
  transport r (ok content) =
      ok (if r.head_suppressed then [] else or_transport r.gzip_transport content)

  unfoldable pub content : Response Identity → Result Text
  unfolding body_content
  content r = transport r (body_content schemas runtime config library r)

  -- The setter of `content`: a HEAD request suppresses the transport of an empty candidate.
  abbrev pub suppress : Result Text → Exec W (Unit {0})
  suppress (err e) w = (err e, w)
  suppress (ok body) (r, s) = (ok tt, (record r { head_suppressed = true }, s))

  abbrev pub unless_gzip : Text → Result Bool × W → Result (Unit {0}) × W
  unless_gzip content' (err e, w) = (err e, w)
  unless_gzip content' (ok true, w) = (ok tt, w)
  unless_gzip content' (ok false, w) = set_candidate schemas runtime config library content' w

  abbrev pub suppresses : Response Identity → Text → Bool
  suppresses r content' =
      is_empty content'
      && (r.head_request && (not (is_bodyless r.status_code) && is_some r.container))

  abbrev pub assign : Result Text → Exec W (Unit {0})
  assign (err e) w = (err e, w)
  assign (ok content') w = elim (suppresses w.0 content') [
    | true ↦ suppress (body_content schemas runtime config library w.0) w
    | false ↦ unless_gzip content' (set_gzip_transport schemas runtime config library content' w)
  ]

  unfoldable pub set_content : Content → Exec W (Unit {0})
  unfolding candidate body_content set_candidate set_gzip_transport is_bodyless
  set_content value w = elim (w.0.initializing && is_empty_text value) [
    | true ↦ (ok tt, (record w.0 { container = some [] }, w.1))
    | false ↦ assign (candidate config value []) w
  ]

  -- `write` and `writelines`
  abbrev pub append_candidate : Result Text → Exec W (Unit {0})
  append_candidate (err e) w = (err e, w)
  append_candidate (ok content') w = set_candidate schemas runtime config library content' w

  abbrev pub append_to : Content → Result Text → Exec W (Unit {0})
  append_to value (err e) w = (err e, w)
  append_to value (ok prefix) w = append_candidate (candidate config value prefix) w

  unfoldable pub write : Content → Exec W (Unit {0})
  unfolding candidate body_content set_candidate
  write value w = append_to value (body_content schemas runtime config library w.0) w

  unfoldable pub writelines : List Chunk → Exec W (Unit {0})
  unfolding write
  writelines lines = write (chunks lines)

  -- `_emission_content`
  abbrev pub header_text : Option Text → Text
  header_text none = []
  header_text (some t) = t

  abbrev pub supported : Text → Bool
  supported encoding =
      is_empty encoding || (text_eq encoding (codes "identity") || text_eq encoding (codes "gzip"))

  abbrev pub emitted : Response Identity → Result Text → Result Text
  emitted r (err e) = err e
  emitted r (ok content') =
      let encoding = header_text r.content_encoding in
      if is_bodyless r.status_code
      then ok content'
      else if not (supported encoding)
      then err (http_error (codes "http_encoding"))
      else if same_flag (is_some r.gzip_transport) (text_eq encoding (codes "gzip"))
      then ok content'
      else err (http_error (codes "http_encoding"))

  unfoldable pub emission_content : Response Identity → Result Text
  unfolding content is_bodyless
  emission_content r = emitted r (content r)

-- ===== src/Tests/HttpTests.antt =====
-- The responses: an assignment of a document, one of an invalid body, and the theorem on both.
use dj_hyperview.Prelude.{
  ℕ, ◌≡◌, refl, true, false, none, some, [], ◌∷◌, codes, text_eq, starts_with,
}
use dj_hyperview.Errors.{ok, err}
use dj_hyperview.Validation.Declarations.{contains_forbidden_declaration}
use dj_hyperview.Validation.Encoding.{failed}
use dj_hyperview.Validation.Limits.{check_limits}
use dj_hyperview.Validation.Namespaces.{check_namespace_scope}
use dj_hyperview.Http.Body.{Response, Library, chunk, str, bytes}
use dj_hyperview.Http.Assign.{set_content, write, writelines}
use dj_hyperview.Http.Assign.Steps.{IsGuarded, Leaves}
use dj_hyperview.Http.Assign.Guarded.{set_content-Leaves}
use dj_hyperview.Tests.Documents.{runtime, config, page, schemas}

abbrev library : Library
library = record {
  metadata = λ header charset. ok tt;
  decompress = λ gzip limit. none;
  decode = λ bytes. some bytes;
}

abbrev fresh : Response ℕ
fresh = record {
  container = some [];
  gzip_transport = none;
  validated_result = none;
  head_suppressed = false;
  head_request = false;
  fragment = true;
  status_code = 200;
  content_type = none;
  charset = codes "utf-8";
  content_encoding = none;
  content_length = none;
  is_template = false;
  is_rendered = false;
  initializing = false;
}

fresh-IsGuarded : IsGuarded schemas runtime config library fresh
unfolding IsGuarded
fresh-IsGuarded = (refl, refl)

set_content-Leaves_example :
    Leaves schemas runtime config library fresh
      (set_content schemas runtime config library (chunk (str page)) (fresh, 7))
    × Leaves schemas runtime config library fresh
        (write schemas runtime config library (chunk (str page)) (fresh, 7))
    × Leaves schemas runtime config library fresh
        (writelines schemas runtime config library (bytes page ∷ []) (fresh, 7))
set_content-Leaves_example =
    set_content-Leaves schemas runtime config library fresh (chunk (str page)) (bytes page ∷ []) 7
      fresh-IsGuarded (λ h. refl)

-- The document is the body of the response.
assigned :
    (set_content schemas runtime config library (chunk (str page)) (fresh, 7)).1.0.container
    ≡ some page
unfolding set_content contains_forbidden_declaration starts_with check_limits check_namespace_scope
    text_eq
assigned = refl

-- An empty body does not match the status.
refused :
    (set_content schemas runtime config library (chunk (str [])) (fresh, 7)).0
    ≡ err (failed (codes "http_body"))
unfolding set_content
refused = refl

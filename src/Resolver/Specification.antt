-- ===== src/Resolver/Specification.antt =====
-- The resolver without a cache: the first source that has the template, in order.
use dj_hyperview.Prelude.{Option, none, some, List, [], ◌∷◌, Text}
use dj_hyperview.Errors.{Result, ok, err, template_not_found}
use dj_hyperview.Sources.{ResolvedTemplate}
use dj_hyperview.Resolver.{Source, resolve_checked}

abbrev pub then_rest :
    Result (Option ResolvedTemplate) → Result ResolvedTemplate → Result ResolvedTemplate
then_rest (err e) rest = err e
then_rest (ok (some t)) rest = ok t
then_rest (ok none) rest = rest

unfoldable pub first_found : Text → List (Source × Option Text) → Result ResolvedTemplate
first_found name [] = err (template_not_found name)
first_found name ((source, source_id) ∷ rest) =
    then_rest (resolve_checked source name) (first_found name rest)

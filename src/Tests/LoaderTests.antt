-- ===== src/Tests/LoaderTests.antt =====
-- The theorems on the snapshots of a render, with a resolver that counts its calls.
use dj_hyperview.Prelude.{
  ℕ, ◌+◌, ◌≡◌, refl, none, some, [], ◌∷◌, Text, codes, text_eq, if◌then◌else◌,
}
use dj_hyperview.Errors.{ok, err, Exec, template_not_found}
use dj_hyperview.Sources.{ResolvedTemplate}
use dj_hyperview.Loader.{
  Snapshots, find, snapshot_for, remembered, from_snapshot, load_in, load, load_all,
  template_snapshot,
}
use dj_hyperview.Loader.Stable.{load-stable}
use dj_hyperview.Loader.Scope.{template_snapshot-scope}
use dj_hyperview.Tests.World.{page}

abbrev counting : ℕ → Text → Exec ℕ ResolvedTemplate
counting r name calls =
    (if text_eq name page.name then ok page else err (template_not_found name), calls + 1)

abbrev rendering : Snapshots
rendering = (7, []) ∷ []

loaded : (load counting 7 page.name (rendering, 0)).0 ≡ ok page
unfolding load load_in snapshot_for find from_snapshot remembered text_eq
loaded = refl

started : snapshot_for 7 rendering ≡ some []
unfolding snapshot_for
started = refl

load-stable_example :
    load counting 7 page.name (
      load_all counting
        ((7, codes "other.xml") ∷ (8, page.name) ∷ [])
        (load counting 7 page.name (rendering, 0)).1)
    ≡ (
      ok page,
      load_all counting
          ((7, codes "other.xml") ∷ (8, page.name) ∷ [])
          (load counting 7 page.name (rendering, 0)).1,
    )
load-stable_example =
    load-stable counting 7 page.name (some page) (rendering, 0) [] started loaded
      ((7, codes "other.xml") ∷ (8, page.name) ∷ [])

absent_snapshot : snapshot_for 7 [] ≡ none
unfolding snapshot_for
absent_snapshot = refl

template_snapshot-scope_example :
    (snapshot_for 7 (template_snapshot counting 7 (load counting 7 page.name) ([], 0)).1.0 ≡ none)
    × (snapshot_for 8 (template_snapshot counting 7 (load counting 7 page.name) ([], 0)).1.0
        ≡ snapshot_for 8 (load counting 7 page.name ((7, []) ∷ [], 0)).1.0)
template_snapshot-scope_example =
    template_snapshot-scope counting 7 (load counting 7 page.name) [] 0 absent_snapshot 8 refl

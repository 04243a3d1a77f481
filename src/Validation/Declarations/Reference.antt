-- ===== src/Validation/Declarations/Reference.antt =====
-- The declarations of a document, read character by character without any memory of past searches.
use dj_hyperview.Prelude.{
  ℕ, zero, suc, ◌-◌, Bool, true, false, ◌||◌, Option, none, some, [], ◌∷◌, length, Text,
  starts_with,
}
use dj_hyperview.Validation.Declarations.{block_at, is_forbidden}

-- Whether a declaration stands in the text outside the ignored blocks, `k` characters on; inside a
-- block, its closing marker is given.
unfoldable pub declares : ℕ → Option Text → Text → Bool
declares k inside [] = false
declares (suc k) inside (c ∷ r) = declares k inside r
declares zero (some closing) (c ∷ r) = elim (starts_with closing (c ∷ r)) [
  | true ↦ declares (length closing - 1) none r
  | false ↦ declares 0 (some closing) r
]
declares zero none (c ∷ r) = elim (block_at (c ∷ r)) [
  | some block ↦ declares (length block.opening - 1) (some block.closing) r
  | none ↦ is_forbidden (c ∷ r) || declares 0 none r
]

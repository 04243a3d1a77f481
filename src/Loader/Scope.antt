-- ===== src/Loader/Scope.antt =====
-- A snapshot ends with the block that began it.
use dj_hyperview.Prelude.{
  ℕ, Bool, true, false, ◌≡◌, refl, none, some, [], ◌∷◌, ◌++◌, ◌==◌, ap, if◌then◌else◌, Text, arith,
  eq_of_eqb,
}
use dj_hyperview.Errors.{Exec}
use dj_hyperview.Sources.{ResolvedTemplate}
use dj_hyperview.Loader.{Snapshots, snapshot_for, forget, Loading, template_snapshot}

forget-gone : (r : ℕ) (snapshots : Snapshots) → snapshot_for r (forget r snapshots) ≡ none
unfolding snapshot_for forget
forget-gone r [] = refl
forget-gone r ((q, templates) ∷ snapshots) = by_resolver (q == r) refl (forget-gone r snapshots)
  where
    by_resolver :
        (b : Bool)
        → (q == r) ≡ b
        → snapshot_for r (forget r snapshots) ≡ none
        → snapshot_for r (if b then forget r snapshots else (q, templates) ∷ forget r snapshots)
          ≡ none
    by_resolver true e more = more
    by_resolver false e more = rw e more

forget-other :
    (r j : ℕ) (snapshots : Snapshots)
    → (r == j) ≡ false
    → snapshot_for j (forget r snapshots) ≡ snapshot_for j snapshots
unfolding snapshot_for forget
forget-other r j [] ne = refl
forget-other r j ((q, templates) ∷ snapshots) ne =
    by_resolver (q == r) (q == j) refl refl (forget-other r j snapshots ne)
  where
    by_resolver :
        (b d : Bool)
        → (q == r) ≡ b
        → (q == j) ≡ d
        → snapshot_for j (forget r snapshots) ≡ snapshot_for j snapshots
        → snapshot_for j (if b then forget r snapshots else (q, templates) ∷ forget r snapshots)
          ≡ (if d then some templates else snapshot_for j snapshots)
    by_resolver false d eb ed more = rw ed (ap (λ m. if d then some templates else m) more)
    by_resolver true false eb ed more = more
    by_resolver true true eb ed more =
        absurd (grind (arith, eq_of_eqb q j ed, eq_of_eqb q r eb, ne))

module _ {W A : Type 0} (resolve : ℕ → Text → Exec W ResolvedTemplate) where
  -- A `with template_snapshot` block that begins without a snapshot of the resolver ends without one,
  -- whether its body returns or raises; the snapshot of any other resolver is what the body left.
  pub template_snapshot-scope :
      (r : ℕ) (body : Exec (Loading resolve) A) (snapshots : Snapshots) (w : W)
      → snapshot_for r snapshots ≡ none
      → (j : ℕ) → (r == j) ≡ false
      → (snapshot_for r (template_snapshot resolve r body (snapshots, w)).1.0 ≡ none)
        × (snapshot_for j (template_snapshot resolve r body (snapshots, w)).1.0
            ≡ snapshot_for j (body (snapshots ++ (r, []) ∷ [], w)).1.0)
  unfolding template_snapshot
  template_snapshot-scope r body snapshots w new j ne =
      rw new (forget-gone r _, forget-other r j _ ne)

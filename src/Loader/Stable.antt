-- ===== src/Loader/Stable.antt =====
-- Within a snapshot a name keeps the result that it had first.
use mathlib.Core.Path.{subst}
use dj_hyperview.Prelude.{
  ℕ, Bool, true, false, ◌≡◌, refl, sym, ◌∙◌, Option, none, some, List, [], ◌∷◌, ◌==◌, ap,
  if◌then◌else◌, Text, text_eq, arith, eq_of_text_eq, text_eq_refl, eq_of_eqb,
}
use dj_hyperview.Errors.{Error, Result, ok, err, Exec, template_not_found}
use dj_hyperview.Sources.{ResolvedTemplate}
use dj_hyperview.Loader.{
  Templates, Snapshots, find, snapshot_for, remember, Loading, remembered, from_snapshot, load_in,
  load, load_all,
}

-- What the snapshot of a resolver holds for a name.
abbrev entry_of : Text → Option Templates → Option (Option ResolvedTemplate)
entry_of name none = none
entry_of name (some templates) = find name templates

abbrev pub held : ℕ → Text → Snapshots → Option (Option ResolvedTemplate)
held resolver name snapshots = entry_of name (snapshot_for resolver snapshots)

abbrev added : Text → Option ResolvedTemplate → Option Templates → Option Templates
added name resolved none = none
added name resolved (some templates) = some ((name, resolved) ∷ templates)

remember-same :
    (r : ℕ) (name : Text) (resolved : Option ResolvedTemplate) (snapshots : Snapshots)
    → snapshot_for r (remember r name resolved snapshots)
      ≡ added name resolved (snapshot_for r snapshots)
unfolding snapshot_for remember
remember-same r name resolved [] = refl
remember-same r name resolved ((q, templates) ∷ snapshots) =
    by_resolver (q == r) (remember-same r name resolved snapshots)
  where
    by_resolver :
        (b : Bool)
        → snapshot_for r (remember r name resolved snapshots)
          ≡ added name resolved (snapshot_for r snapshots)
        → (if b
            then some (if b then (name, resolved) ∷ templates else templates)
            else snapshot_for r (remember r name resolved snapshots))
          ≡ added name resolved (if b then some templates else snapshot_for r snapshots)
    by_resolver true more = refl
    by_resolver false more = more

remember-other :
    (r j : ℕ) (name : Text) (resolved : Option ResolvedTemplate) (snapshots : Snapshots)
    → (r == j) ≡ false
    → snapshot_for j (remember r name resolved snapshots) ≡ snapshot_for j snapshots
unfolding snapshot_for remember
remember-other r j name resolved [] ne = refl
remember-other r j name resolved ((q, templates) ∷ snapshots) ne =
    by_resolver (q == j) (q == r) refl refl (remember-other r j name resolved snapshots ne)
  where
    by_resolver :
        (b d : Bool)
        → (q == j) ≡ b
        → (q == r) ≡ d
        → snapshot_for j (remember r name resolved snapshots) ≡ snapshot_for j snapshots
        → (if b
            then some (if d then (name, resolved) ∷ templates else templates)
            else snapshot_for j (remember r name resolved snapshots))
          ≡ (if b then some templates else snapshot_for j snapshots)
    by_resolver false d eb ed more = more
    by_resolver true false eb ed more = refl
    by_resolver true true eb ed more =
        absurd (grind (arith, eq_of_eqb q j eb, eq_of_eqb q r ed, ne))

-- A name that is remembered leaves every entry that there is.
remember-held :
    (r j : ℕ) (n name : Text) (resolved : Option ResolvedTemplate) (o : Option ResolvedTemplate)
    (snapshots : Snapshots)
    → held r n snapshots ≡ none
    → held j name snapshots ≡ some o
    → held j name (remember r n resolved snapshots) ≡ some o
remember-held r j n name resolved o snapshots new old = by_resolver (r == j) refl
  where
    by_name :
        (b : Bool)
        → text_eq n name ≡ b
        → (m : Option Templates) → entry_of n m ≡ none
        → entry_of name m ≡ some o
        → entry_of name (added n resolved m) ≡ some o
    by_name b e none new old = absurd (cc)
    by_name true e (some ts) new old = absurd (cc (rw (eq_of_text_eq n name e) at new, old))
    by_name false e (some ts) new old = unfold find in rw e old

    by_resolver : (b : Bool) → (r == j) ≡ b → held j name (remember r n resolved snapshots) ≡ some o
    by_resolver false e = ap (entry_of name) (remember-other r j n resolved snapshots e) ∙ old
    by_resolver true e =
        let same : r ≡ j = eq_of_eqb r j e in
        subst (λ i. held i name (remember r n resolved snapshots) ≡ some o) same
          (ap (entry_of name) (remember-same r n resolved snapshots)
            ∙ by_name (text_eq n name) refl (snapshot_for r snapshots) new (rw same old))

-- The result that a remembered entry stands for.
abbrev pub result_of : Text → Option ResolvedTemplate → Result ResolvedTemplate
result_of name none = err (template_not_found name)
result_of name (some t) = ok t

held-remembered :
    (r : ℕ) (name : Text) (o : Option ResolvedTemplate) (snapshots : Snapshots)
    (templates : Templates)
    → snapshot_for r snapshots ≡ some templates
    → held r name (remember r name o snapshots) ≡ some o
held-remembered r name o snapshots templates e =
    ap (entry_of name) (remember-same r name o snapshots ∙ ap (added name o) e)
    ∙ (unfold find in rw (text_eq_refl name) refl)

result_of-injective :
    (name : Text) (o o' : Option ResolvedTemplate) → result_of name o ≡ result_of name o' → o ≡ o'
result_of-injective name none none h = refl
result_of-injective name none (some t) h = absurd (cc)
result_of-injective name (some t) none h = absurd (cc)
result_of-injective name (some t) (some u) h = cc

missing :
    (x name : Text) (o : Option ResolvedTemplate)
    → err (template_not_found x) ≡ result_of name o
    → none ≡ o
missing x name none h = refl
missing x name (some t) h = absurd (cc)

-- An error that no entry stands for.
abbrev IsOther : Error → Type 0
IsOther (template_not_found x) = ⊥
IsOther e = Unit {0}

no_other :
    (name : Text) (e : Error) (o : Option ResolvedTemplate)
    → IsOther e
    → err e ≡ result_of name o
    → ⊥
no_other name (template_not_found x) o u h = u
no_other name e none u h = absurd (cc)
no_other name e (some t) u h = absurd (cc)

module _ {W : Type 0} (resolve : ℕ → Text → Exec W ResolvedTemplate) where
  load-from :
      (r : ℕ) (name : Text) (o : Option ResolvedTemplate) (s : Loading resolve)
      → held r name s.0 ≡ some o
      → load resolve r name s ≡ (result_of name o, s)
  unfolding load load_in from_snapshot
  load-from r name o s h = by_snapshot (snapshot_for r s.0) h
    where
      by_entry :
          (e : Option (Option ResolvedTemplate))
          → e ≡ some o
          → from_snapshot resolve r name e s ≡ (result_of name o, s)
      by_entry none h = absurd (cc)
      by_entry (some none) h = let same : none ≡ o = cc in rw (← same) refl
      by_entry (some (some t)) h = let same : some t ≡ o = cc in rw (← same) refl

      by_snapshot :
          (m : Option Templates)
          → entry_of name m ≡ some o
          → load_in resolve r name m s ≡ (result_of name o, s)
      by_snapshot none h = absurd (cc)
      by_snapshot (some ts) h = by_entry (find name ts) h

  -- A request leaves every entry that there is.
  load-held :
      (r j : ℕ) (n name : Text) (o : Option ResolvedTemplate) (s : Loading resolve)
      → held j name s.0 ≡ some o
      → held j name (load resolve r n s).1.0 ≡ some o
  unfolding load load_in from_snapshot remembered
  load-held r j n name o (snapshots, w) h = by_snapshot (snapshot_for r snapshots) refl
    where
      by_result :
          (q : Result ResolvedTemplate × W)
          → held r n snapshots ≡ none
          → held j name (remembered resolve r n snapshots q).1.0 ≡ some o
      by_result (ok t, w') new = remember-held r j n name (some t) o snapshots new h
      by_result (err (template_not_found x), w') new =
          remember-held r j n name none o snapshots new h
      by_result (err e, w') new = h

      by_entry :
          (e : Option (Option ResolvedTemplate))
          → held r n snapshots ≡ e
          → held j name (from_snapshot resolve r n e (snapshots, w)).1.0 ≡ some o
      by_entry none new = by_result (resolve r n w) new
      by_entry (some none) new = h
      by_entry (some (some t)) new = h

      by_snapshot :
          (m : Option Templates)
          → snapshot_for r snapshots ≡ m
          → held j name (load_in resolve r n m (snapshots, w)).1.0 ≡ some o
      by_snapshot none e = h
      by_snapshot (some ts) e = by_entry (find n ts) (ap (entry_of n) e)

  load_all-held :
      (requests : List (ℕ × Text)) (j : ℕ) (name : Text) (o : Option ResolvedTemplate)
      (s : Loading resolve)
      → held j name s.0 ≡ some o
      → held j name (load_all resolve requests s).0 ≡ some o
  unfolding load_all
  load_all-held [] j name o s h = h
  load_all-held ((r, n) ∷ requests) j name o s h =
      load_all-held requests j name o (load resolve r n s).1 (load-held r j n name o s h)

  -- The first request of a name fixes its entry.
  load-first :
      (r : ℕ) (name : Text) (o : Option ResolvedTemplate) (s : Loading resolve)
      (templates : Templates)
      → snapshot_for r s.0 ≡ some templates
      → (load resolve r name s).0 ≡ result_of name o
      → held r name (load resolve r name s).1.0 ≡ some o
  unfolding load load_in from_snapshot remembered
  load-first r name o (snapshots, w) templates e h = by_snapshot (snapshot_for r snapshots) e h
    where
      same_entry : (o' : Option ResolvedTemplate) → result_of name o' ≡ result_of name o → o' ≡ o
      same_entry o' q = result_of-injective name o' o q

      by_result :
          (q : Result ResolvedTemplate × W)
          → (remembered resolve r name snapshots q).0 ≡ result_of name o
          → held r name (remembered resolve r name snapshots q).1.0 ≡ some o
      by_result (ok t, w') q =
          rw (← same_entry (some t) q) (held-remembered r name (some t) snapshots templates e)
      by_result (err (template_not_found x), w') q =
          rw (← missing x name o q) (held-remembered r name none snapshots templates e)
      by_result (err x, w') q = absurd (no_other name x o tt q)

      by_entry :
          (f : Option (Option ResolvedTemplate))
          → held r name snapshots ≡ f
          → (from_snapshot resolve r name f (snapshots, w)).0 ≡ result_of name o
          → held r name (from_snapshot resolve r name f (snapshots, w)).1.0 ≡ some o
      by_entry none new q = by_result (resolve r name w) q
      by_entry (some none) new q = new ∙ ap some (same_entry none q)
      by_entry (some (some t)) new q = new ∙ ap some (same_entry (some t) q)

      by_snapshot :
          (m : Option Templates)
          → m ≡ some templates
          → (load_in resolve r name m (snapshots, w)).0 ≡ result_of name o
          → held r name (load_in resolve r name m (snapshots, w)).1.0 ≡ some o
      by_snapshot none e' q = absurd (cc)
      by_snapshot (some ts) e' q = by_entry (find name ts) (ap (entry_of name) (e ∙ sym e')) q

  -- Under a snapshot of its resolver, a name that was found, or not found, is answered in the same way
  -- after any other requests, and the answer asks no source and changes nothing.
  pub load-stable :
      (r : ℕ) (name : Text) (o : Option ResolvedTemplate) (s : Loading resolve)
      (templates : Templates)
      → snapshot_for r s.0 ≡ some templates
      → (load resolve r name s).0 ≡ result_of name o
      → (requests : List (ℕ × Text))
      → load resolve r name (load_all resolve requests (load resolve r name s).1)
        ≡ (result_of name o, load_all resolve requests (load resolve r name s).1)
  load-stable r name o s templates e h requests =
      load-from r name o (load_all resolve requests (load resolve r name s).1) (
        load_all-held requests r name o (load resolve r name s).1
          (load-first r name o s templates e h))

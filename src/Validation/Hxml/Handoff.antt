-- ===== src/Validation/Hxml/Handoff.antt =====
-- A validated result that is handed over: `_is_current_hxml_result`.
use dj_hyperview.Prelude.{◌≡◌, refl, sym, ◌∙◌, ap, Bool, true, false, ◌&&◌, arith, Text}
use mathlib.Core.Path.{subst}
use dj_hyperview.Errors.{ok}
use dj_hyperview.Validation.Guard.{ValidationSettings, Runtime}
use dj_hyperview.Validation.Hxml.{
  Schemas, ValidatedHxml, validate_hxml_result, validation_contract_identity, same_limits,
  same_flag, same_contract, is_current_hxml_result,
}
use dj_hyperview.Validation.Hxml.Accepts.{IsValidated, validate_hxml_result-ok}

-- The limits and the flag of two contracts, where the tests say that they are the same.
same_limits-eq : (a b : ValidationSettings) → same_limits a b ≡ true → a ≡ b
unfolding same_limits
same_limits-eq a b h =
    let bytes : a.max_bytes ≡ b.max_bytes = ground arith in
    let depth : a.max_depth ≡ b.max_depth = ground arith in
    let nodes : a.max_nodes ≡ b.max_nodes = ground arith in cc

same_flag-eq : (a b : Bool) → same_flag a b ≡ true → a ≡ b
unfolding same_flag
same_flag-eq true true h = refl
same_flag-eq true false h = cc
same_flag-eq false true h = cc
same_flag-eq false false h = refl

and-true : (a b c : Bool) → (a && (b && c)) ≡ true → (a ≡ true) × (b ≡ true) × (c ≡ true)
and-true a b c h = ground arith

module _ {S Identity Registry : Type 0} (schemas : Schemas S Identity Registry)
    (exact : (a b : Identity) → schemas.same_identity a b ≡ true → a ≡ b) (runtime : Runtime) where
  -- A validated result that is still current where it is handed over, under the limits and for the
  -- use of the receiver, has passed every check under those limits and for that use, and the
  -- registry has the identity under which it was validated.
  pub is_current_hxml_result-IsValidated :
      (config config' : ValidationSettings) (fragment fragment' : Bool) (document : Text) (s s' : S)
      (result : ValidatedHxml Identity)
      → (validate_hxml_result schemas runtime config fragment document s).0 ≡ ok result
      → (is_current_hxml_result schemas result config' fragment' s').0 ≡ true
      → IsValidated schemas runtime config' fragment' document s result
        × ((schemas.get_registry_snapshot s').0.0 ≡ (schemas.get_registry_snapshot s).0.0)
  unfolding is_current_hxml_result same_contract validation_contract_identity
  is_current_hxml_result-IsValidated config config' fragment fragment' document s s' result h
        current =
      let v = validate_hxml_result-ok schemas runtime config fragment document s result h in
      let (identity, limits, use_) = and-true _ _ _ current in
      let same_config : config ≡ config' =
        sym (ap (λ c. c.limits) v.contract)
        ∙ same_limits-eq result.contract.limits config' limits in
      let same_use : fragment ≡ fragment' =
        sym (ap (λ c. c.fragment) v.contract)
        ∙ same_flag-eq result.contract.fragment fragment' use_ in
      (
        subst (λ c. IsValidated schemas runtime c fragment' document s result) same_config
            (subst (λ f. IsValidated schemas runtime config f document s result) same_use v),
        sym (exact _ _ identity) ∙ ap (λ c. c.identity) v.contract,
      )

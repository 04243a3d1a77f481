-- ===== src/Validation/Hxml.antt =====
-- validation.py: `_parse`, `_validate_hxml_result`, the public validators, and the handoff of a
-- validated result. lxml is a parameter, and so is the registry of schemas.

pub mod Accepts
pub mod Handoff
use dj_hyperview.Prelude.{
  not, ℕ, Bool, true, false, ◌&&◌, ◌||◌, Option, none, some, List, [], ◌∷◌, leb, ◌==◌,
  if◌then◌else◌, Text, codes, starts_with, text_eq,
}
use dj_hyperview.Errors.{Error, value_error, Result, ok, err, Exec, pure, raise, lift, ◌>>=◌, ◌>>◌}
use dj_hyperview.Validation.Encoding.{encode, failed}
use dj_hyperview.Validation.Guard.{
  ValidationSettings, Runtime, guard_document, rendered_hxml_text, fail_if,
}
use dj_hyperview.Validation.Limits.{Node, Nodes, leaf, branch, check_limits}
use dj_hyperview.Validation.Namespaces.{Event, check_namespace_scope}

-- `_XML_ILLEGAL_CHARACTERS` of validators.py
unfoldable pub is_illegal : ℕ → Bool
is_illegal c =
    leb c 0x08
    || (c == 0x0b
        || (c == 0x0c
            || (leb 0x0e c && leb c 0x1f
                || (leb 0xd800 c && leb c 0xdfff || (c == 0xfffe || c == 0xffff)))))

unfoldable pub any_illegal : Text → Bool
unfolding is_illegal
any_illegal [] = false
any_illegal (c ∷ t) = is_illegal c || any_illegal t

-- A root element: its tree, its events for namespaces, and `localname.casefold()`.
pub record Root : Type 0 where
  pub tree : Node
  pub events : List Event
  pub localname : Text

-- An `XMLSyntaxError`: its text, the same casefolded, and whether its code is ERR_RESOURCE_LIMIT.
pub record SyntaxError : Type 0 where
  pub message : Text
  pub folded : Text
  pub resource_limit : Bool

pub data Parsed : Type 0 where
  element : Root → Parsed
  syntax_error : SyntaxError → Parsed

-- `word in text`
unfoldable pub within_text : Text → Text → Bool
within_text word [] = starts_with word []
within_text word (c ∷ t) = starts_with word (c ∷ t) || within_text word t

unfoldable pub is_depth_limit_error : SyntaxError → Bool
unfolding within_text
is_depth_limit_error error =
    starts_with (codes "Excessive depth in document") error.message
    || error.resource_limit && within_text (codes "depth") error.folded

-- `RESTRICTED_FRAGMENT_ROOTS`
unfoldable pub is_restricted : Text → Bool
is_restricted name =
    text_eq (codes "body") name
    || (text_eq (codes "doc") name
        || (text_eq (codes "navigator") name || text_eq (codes "screen") name))

-- What the code calls: the parser of lxml, and, of schema.py, the snapshot of the registry with its
-- identity, which may change between two calls, and the validation against a registry.
pub record Schemas (S Identity Registry : Type 0) : Type 0 where
  pub fromstring : Text → Parsed
  pub get_registry_snapshot : S → (Identity × Registry) × S
  pub validate_schema_root : Root → Registry → Result (Unit {0})
  pub same_identity : Identity → Identity → Bool

-- The tuple of a contract.
pub record Contract (Identity : Type 0) : Type 0 where
  pub identity : Identity
  pub limits : ValidationSettings
  pub fragment : Bool

pub record ValidatedHxml (Identity : Type 0) : Type 0 where
  pub text : Text
  pub content : Text
  pub contract : Contract Identity

-- The walk always ends; the value for one that would not is never met.
abbrev pub ended : Option (Result (Unit {0})) → Result (Unit {0})
ended none = err value_error
ended (some r) = r

abbrev pub then_return : Result (Unit {0}) → Root → Result Root
then_return (ok done_) root = ok root
then_return (err e) root = err e

abbrev pub and_then : Result (Unit {0}) → Result (Unit {0}) → Result (Unit {0})
and_then (ok done_) next = next
and_then (err e) next = err e

-- The checks on a parsed document.
unfoldable pub checked : ValidationSettings → Parsed → Result Root
unfolding is_depth_limit_error
checked config (syntax_error error) =
    err (failed (if is_depth_limit_error error then codes "max_depth" else codes "malformed_xml"))
checked config (element root) =
    then_return
      (and_then (ended (check_limits config (branch root.tree leaf)))
        (check_namespace_scope root.events))
      root

unfoldable pub parsed : ValidationSettings → Text → (Text → Parsed) → Result Text → Result Root
unfolding any_illegal checked
parsed config document fromstring (err e) = err e
parsed config document fromstring (ok encoded) =
    fail_if (any_illegal document) (codes "malformed_xml") (checked config (fromstring encoded))

unfoldable pub parse : Runtime → ValidationSettings → (Text → Parsed) → Text → Result Root
unfolding parsed guard_document
parse runtime config fromstring document =
    parsed config document fromstring (guard_document runtime config document false)

-- `==` of two settings and of two flags.
unfoldable pub same_limits : ValidationSettings → ValidationSettings → Bool
same_limits a b =
    a.max_bytes == b.max_bytes && (a.max_depth == b.max_depth && a.max_nodes == b.max_nodes)

unfoldable pub same_flag : Bool → Bool → Bool
same_flag true b = b
same_flag false b = not b

module _ {S Identity Registry : Type 0} (schemas : Schemas S Identity Registry) where
  -- `_ValidatedHxml(document, document.encode("utf-8"), ...)`
  abbrev pub validated : Text → Contract Identity → Option Text → Result (ValidatedHxml Identity)
  validated document contract none = err value_error
  validated document contract (some content) =
      ok (record { text = document; content = content; contract = contract })

  abbrev pub with_registry :
      ValidationSettings
      → Bool
      → Text
      → Root
      → Identity × Registry
      → Result (ValidatedHxml Identity)
  with_registry config fragment document root (identity, registry) =
      accepted (schemas.validate_schema_root root registry)
    where
      accepted : Result (Unit {0}) → Result (ValidatedHxml Identity)
      accepted (err e) = err e
      accepted (ok done_) =
          validated document (record { identity = identity; limits = config; fragment = fragment })
            (encode document)

  -- After the parse: the root of a fragment, then the registry as it is now.
  abbrev pub with_root :
      ValidationSettings → Bool → Text → Result Root → Exec S (ValidatedHxml Identity)
  with_root config fragment document (err e) s = (err e, s)
  with_root config fragment document (ok root) s = elim (fragment && is_restricted root.localname) [
    | true ↦ (err (failed (codes "restricted_fragment_root")), s)
    | false ↦
        let (snapshot, s') = schemas.get_registry_snapshot s in
        (with_registry config fragment document root snapshot, s')
  ]

  unfoldable pub validate_hxml_result :
      Runtime → ValidationSettings → Bool → Text → Exec S (ValidatedHxml Identity)
  unfolding parse is_restricted encode
  validate_hxml_result runtime config fragment document =
      with_root config fragment document (parse runtime config schemas.fromstring document)

  abbrev pub text_of : Result (ValidatedHxml Identity) → Result Text
  text_of (ok result) = ok result.text
  text_of (err e) = err e

  unfoldable pub validate_hxml : Runtime → ValidationSettings → Text → Exec S Text
  unfolding validate_hxml_result
  validate_hxml runtime config document s =
      let (result, s') = validate_hxml_result runtime config false document s in
      (text_of result, s')

  unfoldable pub validate_fragment_hxml : Runtime → ValidationSettings → Text → Exec S Text
  unfolding validate_hxml_result
  validate_fragment_hxml runtime config document s =
      let (result, s') = validate_hxml_result runtime config true document s in (text_of result, s')

  unfoldable pub validate_rendered_hxml : Runtime → ValidationSettings → Text → Exec S Text
  unfolding validate_hxml rendered_hxml_text
  validate_rendered_hxml runtime config document =
      validate_hxml runtime config (rendered_hxml_text document)

  -- `_validation_contract_identity`
  unfoldable pub validation_contract_identity :
      ValidationSettings → Bool → S → Contract Identity × S
  validation_contract_identity config fragment s =
      let (snapshot, s') = schemas.get_registry_snapshot s in
      (record { identity = snapshot.0; limits = config; fragment = fragment }, s')

  unfoldable pub same_contract : Contract Identity → Contract Identity → Bool
  unfolding same_limits same_flag
  same_contract a b =
      schemas.same_identity a.identity b.identity
      && (same_limits a.limits b.limits && same_flag a.fragment b.fragment)

  unfoldable pub is_current_hxml_result :
      ValidatedHxml Identity → ValidationSettings → Bool → S → Bool × S
  unfolding same_contract validation_contract_identity
  is_current_hxml_result result config fragment s =
      let (contract, s') = validation_contract_identity config fragment s in
      (same_contract result.contract contract, s')

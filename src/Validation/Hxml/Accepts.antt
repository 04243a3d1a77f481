-- ===== src/Validation/Hxml/Accepts.antt =====
-- What a validated result has passed, and what it means that it is still current.
use dj_hyperview.Prelude.{
  ℕ, ◌≤◌, ◌≡◌, refl, sym, ◌∙◌, ap, Bool, true, false, ◌&&◌, Option, none, some, [], arith, Text,
  codes,
}
use mathlib.Core.Path.{subst}
use dj_hyperview.Errors.{Result, ok, err}
use dj_hyperview.Validation.Encoding.{encode}
use dj_hyperview.Validation.Guard.{ValidationSettings, Runtime, fail_if}
use dj_hyperview.Validation.Guard.Order.{Accepted, Verdict, guard_document-Verdict}
use dj_hyperview.Validation.Limits.{Node, leaf, branch, check_limits}
use dj_hyperview.Validation.Limits.Bounds.{size, size_all, Fits, FitsAll, check_limits-ok}
use dj_hyperview.Validation.Namespaces.{check_namespace_scope}
use dj_hyperview.Validation.Namespaces.Scope.{scoped, check_namespace_scope-scoped}
use dj_hyperview.Validation.Hxml.{
  any_illegal, Root, Parsed, element, syntax_error, is_restricted, Schemas, Contract, ValidatedHxml,
  ended, then_return, and_then, checked, parsed, parse, validated, with_registry, with_root,
  validate_hxml_result,
}

-- A parsed document whose tree is within every limit.
pub record IsBounded (config : ValidationSettings) (root : Root) : Type 0 where
  pub few : size root.tree ≤ config.max_nodes
  pub fits : Fits config.max_depth 1 root.tree
  pub scope : scoped [] root.events ≡ ok tt

-- One root is a list of one tree.
trimmed : (n : Node) (limit : ℕ) → size_all (branch n leaf) ≤ limit → size n ≤ limit
unfolding size
trimmed n limit h = omega arith

first_tree : (limit depth : ℕ) (n : Node) → FitsAll limit depth (branch n leaf) → Fits limit depth n
unfolding Fits
first_tree limit depth n h = h.0

checked-element :
    (config : ValidationSettings) (p : Parsed) (root : Root)
    → checked config p ≡ ok root
    → (p ≡ element root) × IsBounded config root
unfolding checked
checked-element config (syntax_error error) root h = cc
checked-element config (element read) root h =
    by_limits (check_limits config (branch read.tree leaf)) refl (check_namespace_scope read.events)
      refl h
  where
    by_limits :
        (limits : Option (Result (Unit {0})))
        → check_limits config (branch read.tree leaf) ≡ limits
        → (scope : Result (Unit {0})) → check_namespace_scope read.events ≡ scope
        → then_return (and_then (ended limits) scope) read ≡ ok root
        → (element read ≡ element root) × IsBounded config root
    by_limits none e scope e' h' = cc
    by_limits (some (err x)) e scope e' h' = cc
    by_limits (some (ok u)) e (err x) e' h' = cc
    by_limits (some (ok u)) e (ok v) e' h' =
        let same : read ≡ root = cc in
        let (total, fits) = (check_limits-ok config (branch read.tree leaf)).1.0 e in
        (
          ap element same,
          subst (IsBounded config) same (record {
            few = trimmed read.tree config.max_nodes total;
            fits = first_tree config.max_depth 1 read.tree fits;
            scope = sym (check_namespace_scope-scoped read.events) ∙ e';
          }),
        )

-- A document that parses, with its bytes.
record IsParsed (runtime : Runtime) (config : ValidationSettings) (fromstring : Text → Parsed)
    (document : Text) (root : Root) : Type 0 where
  encoded : Text
  guarded : Accepted runtime config document false encoded
  legal : any_illegal document ≡ false
  reads : fromstring encoded ≡ element root
  bounded : IsBounded config root

module _ (runtime : Runtime) (config : ValidationSettings) (fromstring : Text → Parsed)
    (document : Text) (root : Root) where
  parsed-ok :
      (guard : Result Text)
      → Verdict runtime config document false guard
      → parsed config document fromstring guard ≡ ok root
      → IsParsed runtime config fromstring document root
  unfolding parsed
  parsed-ok (err e) verdict h = cc
  parsed-ok (ok encoded) verdict h = by_legal (any_illegal document) refl h
    where
      by_legal :
          (illegal : Bool)
          → any_illegal document ≡ illegal
          → fail_if illegal (codes "malformed_xml") (checked config (fromstring encoded)) ≡ ok root
          → IsParsed runtime config fromstring document root
      by_legal true e h' = cc
      by_legal false e h' =
          let (reads, bounded) = checked-element config (fromstring encoded) root h' in
          record {
            encoded = encoded;
            guarded = verdict;
            legal = e;
            reads = reads;
            bounded = bounded;
          }

  parse-ok :
      parse runtime config fromstring document ≡ ok root
      → IsParsed runtime config fromstring document root
  unfolding parse
  parse-ok h = parsed-ok _ (guard_document-Verdict runtime config document false) h

module _ {S Identity Registry : Type 0} (schemas : Schemas S Identity Registry) where
  -- A result that was checked in the state `s`, under these limits and for this use.
  pub record IsValidated (runtime : Runtime) (config : ValidationSettings) (fragment : Bool)
      (document : Text) (s : S) (result : ValidatedHxml Identity) : Type 0 where
    pub text : result.text ≡ document
    pub content : encode document ≡ some result.content
    pub guarded : Accepted runtime config document false result.content
    pub legal : any_illegal document ≡ false
    pub root : Root
    pub reads : schemas.fromstring result.content ≡ element root
    pub bounded : IsBounded config root
    pub allowed : (fragment && is_restricted root.localname) ≡ false
    pub valid : schemas.validate_schema_root root (schemas.get_registry_snapshot s).0.1 ≡ ok tt
    pub contract : result.contract ≡ record {
      identity = (schemas.get_registry_snapshot s).0.0;
      limits = config;
      fragment = fragment;
    }

  module _ (runtime : Runtime) (config : ValidationSettings) (fragment : Bool) (document : Text)
      (s : S) (result : ValidatedHxml Identity) where
    abbrev stamp : Contract Identity
    stamp = record {
      identity = (schemas.get_registry_snapshot s).0.0;
      limits = config;
      fragment = fragment;
    }

    module _ (root : Root) (found : IsParsed runtime config schemas.fromstring document root)
        (allowed : (fragment && is_restricted root.localname) ≡ false) where
      by_content :
          (content : Option Text)
          → encode document ≡ content
          → schemas.validate_schema_root root (schemas.get_registry_snapshot s).0.1 ≡ ok tt
          → validated schemas document stamp content ≡ ok result
          → IsValidated runtime config fragment document s result
      by_content none e valid h = cc
      by_content (some content) e valid h =
          let same : found.encoded ≡ content = cc (found.guarded.is_encoded.bytes, e) in
          let whole : record { text = document; content = content; contract = stamp } ≡ result =
            cc in
          subst (IsValidated runtime config fragment document s) whole (record {
            text = refl;
            content = e;
            guarded = subst (Accepted runtime config document false) same found.guarded;
            legal = found.legal;
            root = root;
            reads = subst (λ bytes. schemas.fromstring bytes ≡ element root) same found.reads;
            bounded = found.bounded;
            allowed = allowed;
            valid = valid;
            contract = refl;
          })

      by_schema :
          (verdict : Result (Unit {0}))
          → schemas.validate_schema_root root (schemas.get_registry_snapshot s).0.1 ≡ verdict
          → with_registry schemas config fragment document root (schemas.get_registry_snapshot s).0
            ≡ ok result
          → IsValidated runtime config fragment document s result
      by_schema (err x) e h = cc (rw (e, with_registry) at h)
      by_schema (ok u) e h = by_content (encode document) refl e (rw (e, with_registry) at h)

    by_name :
        (root : Root)
        → parse runtime config schemas.fromstring document ≡ ok root
        → (restricted : Bool) → (fragment && is_restricted root.localname) ≡ restricted
        → (with_root schemas config fragment document (ok root) s).0 ≡ ok result
        → IsValidated runtime config fragment document s result
    by_name root here true e h = cc (rw (e, with_root) at h)
    by_name root here false e h =
        by_schema root (parse-ok runtime config schemas.fromstring document root here) e _ refl
          (rw (e, with_root) at h)

    with_root-ok :
        (read : Result Root)
        → parse runtime config schemas.fromstring document ≡ read
        → (with_root schemas config fragment document read s).0 ≡ ok result
        → IsValidated runtime config fragment document s result
    with_root-ok (err e) here h = cc
    with_root-ok (ok root) here h = by_name root here _ refl h

    -- A document is only accepted, and returned unchanged with its bytes, if it passes the guard, has
    -- no character that XML forbids, is parsed from those bytes to a tree within the limits on nodes,
    -- depth, attributes and namespaces, has no root that is reserved for documents where a fragment
    -- is asked for, and is valid under the registry of this moment, whose identity it carries.
    pub validate_hxml_result-ok :
        (validate_hxml_result schemas runtime config fragment document s).0 ≡ ok result
        → IsValidated runtime config fragment document s result
    unfolding validate_hxml_result
    validate_hxml_result-ok = with_root-ok _ refl

-- ===== src/Validation/Namespaces.antt =====
-- validation.py, `_check_namespace_scope`: the bindings in scope, counted over the events of
-- `etree.iterwalk`, which are given.
pub mod Scope
use dj_hyperview.Prelude.{
  ℕ, zero, suc, ◌+◌, Bool, true, false, Option, none, some, List, [], ◌∷◌, ltb, ◌==◌, if◌then◌else◌,
  length, Text, text_eq, codes,
}
use dj_hyperview.Errors.{Error, index_error, Result, ok, err}
use dj_hyperview.Validation.Encoding.{failed}

-- A binding that comes into scope, with its prefix, or the end of the innermost one.
pub data Event : Type 0 where
  start_ns : Text → Event
  end_ns : Event

abbrev pub max_namespaces : ℕ
max_namespaces = 8

abbrev pub max_declarations : ℕ
max_declarations = 32

-- A `Counter` as the list of its items; a missing key counts 0.
abbrev pub Counter : Type 0
Counter = List (Text × ℕ)

unfoldable pub tally : Text → Counter → ℕ
tally prefix [] = 0
tally prefix ((key, n) ∷ items) = if text_eq key prefix then n else tally prefix items

-- `in_scope[prefix] += 1`
unfoldable pub increment : Text → Counter → Counter
increment prefix [] = (prefix, 1) ∷ []
increment prefix ((key, n) ∷ items) =
    if text_eq key prefix then (key, n + 1) ∷ items else (key, n) ∷ increment prefix items

-- `in_scope[prefix] -= 1`, and `del in_scope[prefix]` if nothing is left; the key is there.
abbrev pub less_one : Text → ℕ → Counter → Counter
less_one key zero items = items
less_one key (suc zero) items = items
less_one key (suc (suc n)) items = (key, suc n) ∷ items

unfoldable pub decrement : Text → Counter → Counter
decrement prefix [] = []
decrement prefix ((key, n) ∷ items) =
    if text_eq key prefix then less_one key n items else (key, n) ∷ decrement prefix items

abbrev pub too_many : Result (Unit {0})
too_many = err (failed (codes "max_attributes"))

-- The loop; `declared` has its end at the head. `declared.pop()` may have nothing to take.
unfoldable pub count_events : List Text → Counter → List Event → Result (Unit {0})
unfolding increment decrement
count_events declared in_scope [] = ok tt
count_events declared in_scope (start_ns prefix ∷ events) =
    let scope = increment prefix in_scope in
    let rest = count_events (prefix ∷ declared) scope events in
    if ltb max_declarations (length (prefix ∷ declared))
    then too_many
    else if ltb max_namespaces (length scope)
    then too_many
    else rest
count_events [] in_scope (end_ns ∷ events) = err index_error
count_events (prefix ∷ declared) in_scope (end_ns ∷ events) =
    count_events declared (decrement prefix in_scope) events

unfoldable pub check_namespace_scope : List Event → Result (Unit {0})
unfolding count_events
check_namespace_scope events = count_events [] [] events

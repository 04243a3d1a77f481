-- ===== src/Validation/Limits.antt =====
-- validation.py, `_check_limits`: the walk over the nodes of a document. A tree of lxml is what the
-- code reads of it.
pub mod Bounds
use dj_hyperview.Prelude.{
  ℕ, zero, suc, ◌+◌, Bool, true, false, ◌&&◌, Option, none, some, List, [], ◌∷◌, ltb, if◌then◌else◌,
  Text, codes,
}
use dj_hyperview.Errors.{Result, ok, err}
use dj_hyperview.Validation.Encoding.{failed}
use dj_hyperview.Validation.Guard.{ValidationSettings}

-- `isinstance(node.tag, str)`, which tells an element from a comment or an instruction,
-- `len(node.attrib)`, and the children.
mutual
  pub data Node : Type 0 where
    node : Bool → ℕ → Nodes → Node

  pub data Nodes : Type 0 where
    leaf : Nodes
    branch : Node → Nodes → Nodes

abbrev pub children : Node → Nodes
children (node is_element attributes below) = below

abbrev pub max_attributes : ℕ
max_attributes = 128

-- The test on the attributes, which are read of elements only.
abbrev pub too_wide : Node → Bool
too_wide (node is_element attributes below) = is_element && ltb max_attributes attributes

-- `pending.extend`, over a stack whose head is the end of the source's list.
unfoldable pub extend : Nodes → ℕ → List (Node × ℕ) → List (Node × ℕ)
extend leaf depth pending = pending
extend (branch n ns) depth pending = extend ns depth ((n, depth) ∷ pending)

-- The first limit that a popped node is over, where it is the `nodes`-th.
unfoldable pub over_limit : ValidationSettings → ℕ → Node → ℕ → Option Text
over_limit config nodes n depth =
    if ltb config.max_depth depth
    then some (codes "max_depth")
    else if ltb config.max_nodes nodes
    then some (codes "max_nodes")
    else if too_wide n
    then some (codes "max_attributes")
    else none

-- The loop, on fuel; `none` is a loop that did not end.
unfoldable pub walk : ValidationSettings → ℕ → ℕ → List (Node × ℕ) → Option (Result (Unit {0}))
unfolding over_limit extend
walk config zero nodes pending = none
walk config (suc fuel) nodes [] = some (ok tt)
walk config (suc fuel) nodes ((n, depth) ∷ pending) = elim (over_limit config (nodes + 1) n depth) [
  | some code ↦ some (err (failed code))
  | none ↦ walk config fuel (nodes + 1) (extend (children n) (depth + 1) pending)
]

-- No more than one node over MAX_NODES is popped, and then the loop sees an empty list or fails.
unfoldable pub check_limits : ValidationSettings → Nodes → Option (Result (Unit {0}))
unfolding walk
check_limits config roots = walk config (config.max_nodes + 2) 0 (extend roots 1 [])

-- ===== src/Validation/Limits/Bounds.antt =====
-- The walk passes the trees whose nodes are all within the limits, and always ends.
use dj_hyperview.Prelude.{
  ℕ, zero, suc, ◌+◌, ◌≤◌, ◌≡◌, ◌≢◌, refl, ◌↔◌, Bool, true, false, ◌&&◌, Option, none, some, List,
  [], ◌∷◌, ltb, ltb→le, le→ltb, arith, Text,
}
use dj_hyperview.Errors.{ok}
use dj_hyperview.Validation.Guard.{ValidationSettings}
use dj_hyperview.Validation.Limits.{
  Node, Nodes, node, leaf, branch, max_attributes, extend, over_limit, walk, check_limits,
}

-- The number of nodes, by recursion on the trees.
unfoldable mutual
  pub size : Node → ℕ
  size (node is_element attributes below) = suc (size_all below)

  pub size_all : Nodes → ℕ
  size_all leaf = 0
  size_all (branch n ns) = size n + size_all ns

-- An element at most `max_attributes` wide. Other nodes have no attributes that count.
abbrev IsNarrow : Bool → ℕ → Type 0
IsNarrow true attributes = attributes ≤ max_attributes
IsNarrow false attributes = Unit

-- Every node is at most at the depth `limit` and narrow, the first ones being at depth `depth`.
unfoldable mutual
  pub Fits : ℕ → ℕ → Node → Type 0
  Fits limit depth (node is_element attributes below) =
      (depth ≤ limit) × IsNarrow is_element attributes × FitsAll limit (depth + 1) below

  pub FitsAll : ℕ → ℕ → Nodes → Type 0
  FitsAll limit depth leaf = Unit
  FitsAll limit depth (branch n ns) = Fits limit depth n × FitsAll limit depth ns

weight : List (Node × ℕ) → ℕ
weight [] = 0
weight ((n, depth) ∷ pending) = size n + weight pending

AllFit : ℕ → List (Node × ℕ) → Type 0
AllFit limit [] = Unit
AllFit limit ((n, depth) ∷ pending) = Fits limit depth n × AllFit limit pending

weight-extend :
    (ns : Nodes) (depth : ℕ) (pending : List (Node × ℕ))
    → weight (extend ns depth pending) ≡ size_all ns + weight pending
unfolding weight extend size
weight-extend leaf depth pending = omega arith
weight-extend (branch n ns) depth pending =
    omega (arith, weight-extend ns depth ((n, depth) ∷ pending))

AllFit-extend :
    (limit : ℕ) (ns : Nodes) (depth : ℕ) (pending : List (Node × ℕ))
    → AllFit limit (extend ns depth pending) ↔ (FitsAll limit depth ns × AllFit limit pending)
unfolding AllFit extend Fits
AllFit-extend limit leaf depth pending = (λ h. (tt, h), λ h. h.1)
AllFit-extend limit (branch n ns) depth pending =
    let (fw, bw) = AllFit-extend limit ns depth ((n, depth) ∷ pending) in
    (
      λ h. let (rest, both) = fw h in ((both.0, rest), both.1),
      λ h. let (both, below) = h in bw (both.1, (both.0, below)),
    )

-- What a popped node that is over no limit is, and the other way round.
narrow :
    (is_element : Bool) (attributes : ℕ)
    → ((is_element && ltb max_attributes attributes) ≡ false) ↔ IsNarrow is_element attributes
narrow true attributes = (ltb→le max_attributes attributes, le→ltb max_attributes attributes)
narrow false attributes = (λ h. tt, λ h. refl)

module _ (config : ValidationSettings) (nodes depth : ℕ) where
  over_limit-none :
      (is_element : Bool) (attributes : ℕ) (below : Nodes)
      → (over_limit config nodes (node is_element attributes below) depth ≡ none)
        ↔ ((depth ≤ config.max_depth) × (nodes ≤ config.max_nodes) × IsNarrow is_element attributes)
  unfolding over_limit
  over_limit-none true attributes below = (λ h. ground arith, λ h. ground arith)
  over_limit-none false attributes below = (λ h. ground arith, λ h. ground arith)

module _ (config : ValidationSettings) where
  abbrev Passes : ℕ → ℕ → List (Node × ℕ) → Type 0
  Passes fuel nodes pending = walk config fuel nodes pending ≡ some (ok tt)

  abbrev InLimits : ℕ → List (Node × ℕ) → Type 0
  InLimits nodes pending =
      (nodes + weight pending ≤ config.max_nodes) × AllFit config.max_depth pending

  module _ (fuel nodes depth attributes : ℕ) (is_element : Bool) (below : Nodes)
      (pending : List (Node × ℕ)) where
    abbrev rest : List (Node × ℕ)
    rest = extend below (depth + 1) pending

    abbrev popped : List (Node × ℕ)
    popped = (node is_element attributes below, depth) ∷ pending

    walk-ok_step :
        (a : Option Text)
        → over_limit config (nodes + 1) (node is_element attributes below) depth ≡ a
        → (nodes + 1 ≤ config.max_nodes → Passes fuel (nodes + 1) rest → InLimits (nodes + 1) rest)
        → Passes (suc fuel) nodes popped
        → InLimits nodes popped
    unfolding walk weight AllFit size Fits
    walk-ok_step (some code) e again h = cc (rw (e, walk) at h)
    walk-ok_step none e again h =
        let (deep, few, narrow') =
          (over_limit-none config (nodes + 1) depth is_element attributes below).0 e in
        let (total, fits) = again few (rw (e, walk) at h) in
        let (below_fits, pending_fits) =
          (AllFit-extend config.max_depth below (depth + 1) pending).0 fits in
        (
          omega (arith, weight-extend below (depth + 1) pending),
          ((deep, narrow', below_fits), pending_fits),
        )

    ok-walk_step :
        (InLimits (nodes + 1) rest → Passes fuel (nodes + 1) rest)
        → InLimits nodes popped
        → Passes (suc fuel) nodes popped
    unfolding walk weight AllFit size Fits
    ok-walk_step again (total, ((deep, narrow', below_fits), pending_fits)) =
        let e =
          (over_limit-none config (nodes + 1) depth is_element attributes below).1
            (deep, omega arith, narrow') in
        let fits =
          (AllFit-extend config.max_depth below (depth + 1) pending).1 (below_fits, pending_fits) in
        rw (e, walk) (again (omega (arith, weight-extend below (depth + 1) pending), fits))

    walk-ends_step :
        (a : Option Text)
        → over_limit config (nodes + 1) (node is_element attributes below) depth ≡ a
        → (nodes + 1 ≤ config.max_nodes → walk config fuel (nodes + 1) rest ≢ none)
        → walk config (suc fuel) nodes popped ≢ none
    unfolding walk
    walk-ends_step (some code) e again = λ h. cc (rw (e, walk) at h)
    walk-ends_step none e again = λ h.
        let (deep, few, narrow') =
          (over_limit-none config (nodes + 1) depth is_element attributes below).0 e in
        again few (rw (e, walk) at h)

  walk-ok :
      (fuel nodes : ℕ) (pending : List (Node × ℕ))
      → nodes ≤ config.max_nodes
      → Passes fuel nodes pending
      → InLimits nodes pending
  unfolding walk weight AllFit
  walk-ok zero nodes pending le h = cc
  walk-ok (suc fuel) nodes [] le h = (omega arith, tt)
  walk-ok (suc fuel) nodes ((node is_element attributes below, depth) ∷ pending) le h =
      walk-ok_step fuel nodes depth attributes is_element below pending _ refl
        (walk-ok fuel (nodes + 1) (extend below (depth + 1) pending)) h

  ok-walk :
      (fuel nodes : ℕ) (pending : List (Node × ℕ))
      → config.max_nodes + 2 ≤ fuel + nodes
      → InLimits nodes pending
      → Passes fuel nodes pending
  unfolding walk weight
  ok-walk zero nodes pending enough (total, fits) = absurd (omega arith)
  ok-walk (suc fuel) nodes [] enough h = refl
  ok-walk (suc fuel) nodes ((node is_element attributes below, depth) ∷ pending) enough h =
      ok-walk_step fuel nodes depth attributes is_element below pending
        (ok-walk fuel (nodes + 1) (extend below (depth + 1) pending) (omega arith)) h

  walk-ends :
      (fuel nodes : ℕ) (pending : List (Node × ℕ))
      → nodes ≤ config.max_nodes
      → config.max_nodes + 2 ≤ fuel + nodes
      → walk config fuel nodes pending ≢ none
  unfolding walk
  walk-ends zero nodes pending le enough = absurd (omega arith)
  walk-ends (suc fuel) nodes [] le enough = λ h. cc
  walk-ends (suc fuel) nodes ((node is_element attributes below, depth) ∷ pending) le enough =
      walk-ends_step fuel nodes depth attributes is_element below pending _ refl
        (λ few. walk-ends fuel (nodes + 1) (extend below (depth + 1) pending) few (omega arith))

-- The walk always ends, whatever the size of the tree. It passes when and only when the trees have at
-- most MAX_NODES nodes, each at most at depth MAX_DEPTH and, if it is an element, with at most 128
-- attributes.
pub check_limits-ok :
    (config : ValidationSettings) (roots : Nodes)
    → (check_limits config roots ≢ none)
      × ((check_limits config roots ≡ some (ok tt))
          ↔ ((size_all roots ≤ config.max_nodes) × FitsAll config.max_depth 1 roots))
unfolding check_limits weight AllFit
check_limits-ok config roots =
    let (fw, bw) = AllFit-extend config.max_depth roots 1 [] in
    (
      walk-ends config (config.max_nodes + 2) 0 (extend roots 1 []) (omega arith) (omega arith),
      (
        λ h.
            let (total, fits) =
              walk-ok config (config.max_nodes + 2) 0 (extend roots 1 []) (omega arith) h in
            (omega (arith, weight-extend roots 1 []), (fw fits).0),
        λ h.
            ok-walk config (config.max_nodes + 2) 0 (extend roots 1 []) (omega arith)
              (omega (arith, weight-extend roots 1 []), bw (h.1, tt)),
      ),
    )

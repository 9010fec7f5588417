-- ===== src/Closure.antt =====
-- src/context/dependency-closure.js: the two breadth-first traversals of the context graph under
-- safety limits, and the closure of several nodes. A turn of the loop takes one from `left`, which
-- starts at `maxCost`, so the recursion ends where the source's cost limit stops it.
pub mod Complete
pub mod Limits
pub mod Enough
pub mod Union
mod Tests
use wait_a_minute_plugin.Base.{
  ℕ, zero, suc, ◌+◌, String, Bool, true, false, not, Option, none, some, List, [], ◌∷◌, ◌++◌, map,
  leb, if◌then◌else◌, length, filter, includes,
}
use wait_a_minute_plugin.Graph.{Edge, Graph, has_node, get_edges_from_by_type, get_edges_to_by_type}

pub data Limit : Type 0 where
  max_cost_limit max_nodes_limit : Limit

pub record Traversal : Type 0 where
  pub nodes : List String
  pub cost : ℕ
  pub limit : Option Limit  -- limitReached and limitType

-- The variables of a traversal.
pub record Search : Type 0 where
  pub queue : List String
  pub visited : List String
  pub nodes : List String

abbrev pub begin : String → Search
begin id = record { queue = id ∷ []; visited = []; nodes = [] }

module _ (known : String → Bool) (steps : String → List String) where
  -- The body of the loop below its limits, for the node taken from the queue.
  unfoldable pub visit : String → List String → Search → Search
  visit id rest s = elim (includes s.visited id) [
    | true ↦ record s { queue = rest }
    | false ↦ elim (known id) [
      | false ↦ record s { queue = rest; visited = id ∷ s.visited }
      | true ↦ record {
        queue = rest ++ filter (λ b. not (includes (id ∷ s.visited) b)) (steps id);
        visited = id ∷ s.visited;
        nodes = s.nodes ++ id ∷ [];
      }
    ]
  ]

  unfoldable pub traverse : ℕ → ℕ → ℕ → Search → Traversal
  traverse max_nodes zero cost s = elim s.queue [
    | [] ↦ record { nodes = s.nodes; cost = cost; limit = none }
    | id ∷ rest ↦ record { nodes = s.nodes; cost = suc cost; limit = some max_cost_limit }
  ]
  traverse max_nodes (suc left) cost s = elim s.queue [
    | [] ↦ record { nodes = s.nodes; cost = cost; limit = none }
    | id ∷ rest ↦ elim (leb max_nodes (length s.nodes)) [
      | true ↦ record { nodes = s.nodes; cost = suc cost; limit = some max_nodes_limit }
      | false ↦ traverse max_nodes left (suc cost) (visit id rest s)
    ]
  ]

abbrev pub targets : List Edge → List String
targets es = map (λ e. e.to) es

abbrev pub sources : List Edge → List String
sources es = map (λ e. e.from) es

-- What the two traversals push for a node.
unfoldable pub upstream_steps : Graph → String → List String
upstream_steps g id =
    targets (get_edges_from_by_type g id "depends_on")
    ++ sources (get_edges_to_by_type g id "produces")

unfoldable pub downstream_steps : Graph → String → List String
downstream_steps g id =
    targets (get_edges_from_by_type g id "produces")
    ++ sources (get_edges_to_by_type g id "depends_on")

pub record Options : Type 0 where
  pub max_nodes : ℕ
  pub max_cost : ℕ

unfoldable pub traverse_upstream : Graph → String → Options → Traversal
traverse_upstream g id o =
    traverse (has_node g) (upstream_steps g) o.max_nodes o.max_cost 0 (begin id)

unfoldable pub traverse_downstream : Graph → String → Options → Traversal
traverse_downstream g id o =
    traverse (has_node g) (downstream_steps g) o.max_nodes o.max_cost 0 (begin id)

-- The set `visited` and the array `allNodes` of the closure hold the same nodes.
unfoldable pub collect : List String → List String → List String
collect all_nodes [] = all_nodes
collect all_nodes (id ∷ ids) =
    collect (if includes all_nodes id then all_nodes else all_nodes ++ id ∷ []) ids

abbrev pub first_limit : Option Limit → Option Limit → Option Limit
first_limit none second = second
first_limit (some l) _ = some l

unfoldable pub close_over : Graph → Options → List String → List String → ℕ → Traversal
close_over g o [] all_nodes total = record { nodes = all_nodes; cost = total; limit = none }
close_over g o (id ∷ ids) all_nodes total =
    let up = traverse_upstream g id o in
    let down = traverse_downstream g id o in
    let found = collect all_nodes (up.nodes ++ down.nodes) in
    let cost = total + (up.cost + down.cost) in
    let rest = close_over g o ids found cost in
    elim (first_limit up.limit down.limit) [
      | some l ↦ record { nodes = found; cost = cost; limit = some l }
      | none ↦ rest
    ]

unfoldable pub compute_dependency_closure : Graph → List String → Options → Traversal
compute_dependency_closure g ids o = close_over g o ids [] 0

-- `safe` of the answer; the reason is a text.
unfoldable pub check_traversal_safety : Graph → String → Bool
check_traversal_safety g id =
    elim (traverse_upstream g id (record { max_nodes = 10; max_cost = 20 })).limit [
      | none ↦ true
      | some l ↦ false
    ]

-- ===== src/Closure/Tests.antt =====
-- Runs of the dependency closure, and the theorems at a graph of a task and its output.
use wait_a_minute_plugin.Base.{
  String, ◌≡◌, refl, ◌↔◌, false, none, some, [], ◌∷◌, arith, In, Distinct,
}
use wait_a_minute_plugin.Base.Dict.{get}
use wait_a_minute_plugin.Graph.{
  Node, Edge, Graph, get_edges_from_by_type, get_edges_from, get_edges_to_by_type, get_edges_to,
}
use wait_a_minute_plugin.Closure.{
  Options, upstream_steps, downstream_steps, traverse_upstream, traverse_downstream,
  compute_dependency_closure, max_nodes_limit, traverse, visit,
}
use wait_a_minute_plugin.Closure.Limits.{IsBounded}
use wait_a_minute_plugin.Closure.Enough.{sum_of}
use wait_a_minute_plugin.Closure.Union.{
  Related, compute_dependency_closure-Related, traverse_upstream-IsBounded, IsEnough,
  compute_dependency_closure_enough,
}

abbrev node : String → String → Node
node id kind = record {
  id = id;
  kind = kind;
  content = "";
  task_id = none;
  verified = false;
  invalidated = false;
  created_at = 7;
  updated_at = 7;
}

abbrev makes : Edge
makes = record { from = "a"; to = "o"; kind = "produces"; weight = 1 }

abbrev small : Graph
small = record {
  nodes = ("a", node "a" "task") ∷ ("o", node "o" "output") ∷ [];
  edges_from = ("a", makes ∷ []) ∷ [];
  edges_to = ("o", makes ∷ []) ∷ [];
}

abbrev wide : Options
wide = record { max_nodes = 100; max_cost = 1000 }

abbrev narrow : Options
narrow = record { max_nodes = 1; max_cost = 1000 }

up_from_output :
    traverse_upstream small "o" wide ≡ record { nodes = "o" ∷ "a" ∷ []; cost = 2; limit = none }
unfolding traverse_upstream traverse visit get upstream_steps get_edges_from_by_type get_edges_from
    get_edges_to_by_type get_edges_to
up_from_output = refl

stopped : (traverse_upstream small "o" narrow).limit ≡ some max_nodes_limit
unfolding traverse_upstream traverse visit get upstream_steps get_edges_from_by_type get_edges_from
    get_edges_to_by_type get_edges_to
stopped = refl

compute_dependency_closure-Related_here :
    let t = compute_dependency_closure small ("o" ∷ []) wide in
    Distinct t.nodes
    × ((x : String) → In x t.nodes → (id : String) × In id ("o" ∷ []) × Related small id x)
    × (t.limit ≡ none → (id x : String) → In id ("o" ∷ []) → Related small id x → In x t.nodes)
compute_dependency_closure-Related_here = compute_dependency_closure-Related small ("o" ∷ []) wide

traverse_upstream-IsBounded_example :
    IsBounded 1 1000 (traverse_upstream small "o" narrow)
    × IsBounded 1 1000 (traverse_downstream small "o" narrow)
traverse_upstream-IsBounded_example = traverse_upstream-IsBounded small "o" narrow

wide_up : IsEnough small (upstream_steps small) wide
unfolding sum_of upstream_steps get_edges_from_by_type get_edges_from get get_edges_to_by_type
    get_edges_to
wide_up = (omega arith, omega arith)

wide_down : IsEnough small (downstream_steps small) wide
unfolding sum_of downstream_steps get_edges_from_by_type get_edges_from get get_edges_to_by_type
    get_edges_to
wide_down = (omega arith, omega arith)

compute_dependency_closure_enough_example :
    let t = compute_dependency_closure small ("o" ∷ []) wide in
    (t.limit ≡ none)
    × ((x : String) → In x t.nodes ↔ ((id : String) × In id ("o" ∷ []) × Related small id x))
compute_dependency_closure_enough_example =
    compute_dependency_closure_enough small ("o" ∷ []) wide wide_up wide_down

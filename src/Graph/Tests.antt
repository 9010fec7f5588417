-- ===== src/Graph/Tests.antt =====
-- Runs of the context graph, and the theorems at a graph of two tasks and an artifact.
use wait_a_minute_plugin.Base.{
  String, ◌≡◌, refl, ◌≢◌, ◌↔◌, inl, true, false, none, some, [], ◌∷◌, arith, eq_iff, In, any, ok,
  throw,
}
use wait_a_minute_plugin.Base.Dict.{get, set, delete, has}
use wait_a_minute_plugin.Graph.{
  validate_node, validate_edge, creation_time, store_edge, unlink, Node, Edge, EdgeInput, Graph,
  new, add_node, add_edge, remove_node, entry_of, get_edges_from, get_edges_to,
  get_edges_from_by_type, source, target, target_not_found, remove_from_edges_from, detach,
  remove_first, get_edges_to_by_type, get_dependencies, nodes_at,
}
use wait_a_minute_plugin.Graph.Stored.{IsStored, twin}
use wait_a_minute_plugin.Graph.Linked.{
  add_edge_again, add_edge-listed, get_edges_from_by_type-undeclared,
}
use wait_a_minute_plugin.Graph.Removal.{remove_node-edges}
use wait_a_minute_plugin.Graph.Built.{
  Built, empty, written, adds_node, adds_edge, removes_node, Built-IsStored,
}
use wait_a_minute_plugin.Graph.Walk.{
  get_upstream, get_downstream, dependents, traverse_up, visit_sources, visit_dependencies,
  traverse_down,
}
use wait_a_minute_plugin.Graph.Reached.{Up, Down, Within}
use wait_a_minute_plugin.Graph.Upstream.{get_upstream-Within, get_downstream-Within, depth_zero}

abbrev task_node : String → Node
task_node id = record {
  id = id;
  kind = "task";
  content = "";
  task_id = none;
  verified = false;
  invalidated = false;
  created_at = 7;
  updated_at = 7;
}

abbrev one_task : Graph
one_task = record new { nodes = ("a", task_node "a") ∷ [] }

abbrev two_tasks : Graph
two_tasks = record new { nodes = ("a", task_node "a") ∷ ("b", task_node "b") ∷ [] }

abbrev needs : EdgeInput
needs = record { from = "b"; to = "a"; kind = "requires_output"; weight = none }

abbrev linked : Graph
linked = record {
  nodes = two_tasks.nodes;
  edges_from = ("b", entry_of needs ∷ []) ∷ [];
  edges_to = ("a", entry_of needs ∷ []) ∷ [];
}

first_add : add_node new (task_node "a") 7 ≡ ok (task_node "a", one_task)
unfolding add_node validate_node creation_time set get
first_add = refl

second_add : add_node one_task (task_node "b") 7 ≡ ok (task_node "b", two_tasks)
unfolding add_node validate_node creation_time set get
second_add = refl

link : add_edge two_tasks needs ≡ ok (entry_of needs, linked)
unfolding add_edge validate_edge get store_edge get_edges_from set get_edges_to
link = refl

two_tasks-Built : Built two_tasks
two_tasks-Built =
    written (written empty (adds_node (task_node "a") (task_node "a") 7 first_add))
      (adds_node (task_node "b") (task_node "b") 7 second_add)

linked-Built : Built linked
linked-Built = written two_tasks-Built (adds_edge needs (entry_of needs) link)

two_tasks-IsStored : IsStored two_tasks
two_tasks-IsStored = Built-IsStored two_tasks two_tasks-Built

linked-IsStored : IsStored linked
linked-IsStored = Built-IsStored linked linked-Built

removed : remove_node linked "a" ≡ (
  true,
  record { nodes = ("b", task_node "b") ∷ []; edges_from = ("b", []) ∷ []; edges_to = [] },
)
unfolding remove_node get delete unlink get_edges_from remove_from_edges_from detach set
    remove_first
removed = refl

unknown_target :
    add_edge one_task (record needs { from = "a"; to = "z" }) ≡ throw (target_not_found "z")
unfolding add_edge validate_edge get
unknown_target = refl

add_edge_again_here : add_edge linked needs ≡ ok (entry_of needs, linked)
add_edge_again_here = add_edge_again two_tasks linked needs (entry_of needs) link

add_edge-listed_here :
    (any (twin target (entry_of needs)) (get_edges_from linked "b") ≡ true)
    × (any (twin source (entry_of needs)) (get_edges_to linked "a") ≡ true)
add_edge-listed_here =
    add_edge-listed two_tasks linked needs (entry_of needs) link two_tasks-IsStored

get_edges_from_by_type-undeclared_here : get_edges_from_by_type linked "b" "depends_on" ≡ []
get_edges_from_by_type-undeclared_here =
    get_edges_from_by_type-undeclared linked "b" "depends_on" linked-IsStored refl

a_there : has linked.nodes "a" ≡ true
unfolding get
a_there = refl

remove_node-edges_example :
    let (gone, g') = remove_node linked "a" in
    (gone ≡ true)
    × (has g'.nodes "a" ≡ false)
    × ((k : String) → k ≢ "a" → get g'.nodes k ≡ get linked.nodes k)
    × ((k : String) (x : Edge)
        → In x (get_edges_from g' k)
          ↔ (In x (get_edges_from linked k) × (x.from ≢ "a") × (x.to ≢ "a")))
    × ((k : String) (x : Edge)
        → In x (get_edges_to g' k) ↔ (In x (get_edges_to linked k) × (x.from ≢ "a") × (x.to ≢ "a")))
remove_node-edges_example = remove_node-edges linked "a" linked-IsStored a_there

a_upstream : In (task_node "a") (get_upstream linked "b" 2)
unfolding get_upstream traverse_up visit_sources get_edges_to_by_type get_edges_to get
    visit_dependencies get_dependencies nodes_at get_edges_from_by_type get_edges_from
a_upstream = inl refl

get_upstream-Within_example : Within linked (Up linked) "b" 2 (task_node "a")
get_upstream-Within_example =
    get_upstream-Within linked "b" 2 (task_node "a") linked-IsStored a_upstream

b_downstream : In (task_node "b") (get_downstream linked "a" 0)
unfolding get_downstream traverse_down visit_sources dependents get_edges_to get
b_downstream = inl refl

get_downstream-Within_here : Within linked (Down linked) "a" 1 (task_node "b")
get_downstream-Within_here =
    get_downstream-Within linked "a" 0 (task_node "b") linked-IsStored b_downstream

needs_a : In (entry_of needs) (dependents linked "a")
unfolding dependents get_edges_to get
needs_a = inl refl

b_there : get linked.nodes "b" ≡ some (task_node "b")
unfolding get
b_there = refl

b_not_a : (entry_of needs).from ≢ "a"
b_not_a e = ground (arith, eq_iff "b" "a")

depth_zero_here :
    (get_upstream linked "a" 0 ≡ []) × In (task_node "b") (get_downstream linked "a" 0)
depth_zero_here = depth_zero linked "a" (entry_of needs) (task_node "b") needs_a b_not_a b_there

Built-IsStored_example : IsStored (remove_node linked "a").1
Built-IsStored_example =
    Built-IsStored (remove_node linked "a").1 (written linked-Built (removes_node "a"))

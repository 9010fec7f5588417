-- ===== src/Graph/Built.antt =====
-- The graphs that the methods of src/context/context-graph.js can build, starting from the empty
-- one.
use wait_a_minute_plugin.Base.{ℕ, String, ◌≡◌, ok}
use wait_a_minute_plugin.Graph.{
  Node, Edge, EdgeInput, Graph, new, add_node, update_node, add_edge, remove_node,
}
use wait_a_minute_plugin.Graph.Stored.{
  IsStored, new-IsStored, add_node-IsStored, update_node-IsStored,
}
use wait_a_minute_plugin.Graph.Added.{add_edge-IsStored}
use wait_a_minute_plugin.Graph.Removal.{remove_node-IsStored}

-- One call that writes; a call that throws writes nothing.
pub data Write (g : Graph) : Graph → Type 0 where
  adds_node : {g' : Graph} (n x : Node) (now : ℕ) → add_node g n now ≡ ok (x, g') → Write g g'
  updates_node :
      (id : String) (patch : Node → Node) (now : ℕ) → Write g (update_node g id patch now).1
  adds_edge : {g' : Graph} (e : EdgeInput) (x : Edge) → add_edge g e ≡ ok (x, g') → Write g g'
  removes_node : (id : String) → Write g (remove_node g id).1

-- The graphs that sequences of writes build.
pub data Built : Graph → Type 0 where
  empty : Built new
  written : {g g' : Graph} → Built g → Write g g' → Built g'

Write-IsStored : {g g' : Graph} → Write g g' → IsStored g → IsStored g'
Write-IsStored {g} {g'} (adds_node n x now h) s = add_node-IsStored g g' n x now h s
Write-IsStored {g} (updates_node id patch now) s = update_node-IsStored g id patch now s
Write-IsStored {g} {g'} (adds_edge e x h) s = add_edge-IsStored g g' e x h s
Write-IsStored {g} (removes_node id) s = remove_node-IsStored g id s

-- Every graph that a sequence of `addNode`, `updateNode`, `addEdge` and `removeNode` builds from the
-- empty one is well stored: each node stands under its own key, the two edge maps hold the same
-- edges, every edge joins nodes of the graph and has a declared type, and no list has two edges
-- with the same ends and type.
pub Built-IsStored : (g : Graph) → Built g → IsStored g
Built-IsStored g empty = new-IsStored
Built-IsStored g (written {g = before} b w) = Write-IsStored w (Built-IsStored before b)

-- ===== src/Graph.antt =====
-- src/context/context-graph.js: the context graph, its writes and its queries. `nodes`, `edgesFrom`
-- and `edgesTo` are dictionaries in the order of insertion; a method that writes returns the new
-- graph. The clock is an argument. Walks are in `Graph.Walk`.
pub mod Walk
pub mod Stored
pub mod Added
pub mod Linked
pub mod Detached
pub mod Removal
pub mod Built
pub mod Reached
pub mod Upstream
mod Tests
use wait_a_minute_plugin.Base.{
  ℕ, String, Bool, true, false, not, ◌&&◌, Option, none, some, List, [], ◌∷◌, ◌++◌, ◌==◌, ◌=?◌,
  if◌then◌else◌, any, filter, includes, Result, ok, throw,
}
use wait_a_minute_plugin.Base.Dict
use wait_a_minute_plugin.Base.Dict.{Dict, get, set, delete, has, values}

abbrev pub node_types : List String
node_types =
    "task" ∷ "subtask" ∷ "requirement" ∷ "claim" ∷ "action" ∷ "observation" ∷ "evidence"
    ∷ "decision" ∷ "constraint" ∷ "artifact" ∷ "output" ∷ []

abbrev pub edge_types : List String
edge_types =
    "requires_completion" ∷ "requires_output" ∷ "requires_evidence" ∷ "requires_decision"
    ∷ "depends_on_artifact" ∷ "produces" ∷ "supports" ∷ "contradicts" ∷ "invalidates" ∷ "related_to"
    ∷ []

pub record Node : Type 0 where
  pub id : String
  pub kind : String
  pub content : String
  pub task_id : Option String
  pub verified : Bool
  pub invalidated : Bool  -- metadata.invalidated
  pub created_at : ℕ
  pub updated_at : ℕ

pub record Edge : Type 0 where
  pub from : String
  pub to : String
  pub kind : String
  pub weight : ℕ

-- What `addEdge` is given; a missing weight is `none`.
pub record EdgeInput : Type 0 where
  pub from : String
  pub to : String
  pub kind : String
  pub weight : Option ℕ

pub data Error : Type 0 where
  node_id_required : Error
  invalid_node_type : String → Error
  edge_from_required edge_to_required : Error
  invalid_edge_type : String → Error
  source_not_found : String → Error
  target_not_found : String → Error

pub record Graph : Type 0 where
  pub nodes : Dict Node
  pub edges_from : Dict (List Edge)
  pub edges_to : Dict (List Edge)

abbrev pub new : Graph
new = record { nodes = []; edges_from = []; edges_to = [] }

-- `validateNode`; `none` is success.
unfoldable pub validate_node : Node → Option Error
validate_node n =
    if n.id =? ""
    then some node_id_required
    else if not (includes node_types n.kind)
    then some (invalid_node_type n.kind)
    else none

unfoldable pub validate_edge : EdgeInput → Option Error
validate_edge e =
    if e.from =? ""
    then some edge_from_required
    else if e.to =? ""
    then some edge_to_required
    else if not (includes edge_types e.kind)
    then some (invalid_edge_type e.kind)
    else none

-- existing?.createdAt || now
unfoldable pub creation_time : Option Node → ℕ → ℕ
creation_time none now = now
creation_time (some n) now = if n.created_at == 0 then now else n.created_at

unfoldable pub add_node : Graph → Node → ℕ → Result Error (Node × Graph)
add_node g node now = elim (validate_node node) [
  | some e ↦ throw e
  | none ↦
      let entry = record node {
        created_at = creation_time (get g.nodes node.id) now;
        updated_at = now;
      } in
      ok (entry, record g { nodes = set g.nodes node.id entry })
]

unfoldable pub get_node : Graph → String → Option Node
get_node g id = get g.nodes id

abbrev pub has_node : Graph → String → Bool
has_node g id = has g.nodes id

unfoldable pub get_nodes : Graph → Option String → List Node
get_nodes g none = values g.nodes
get_nodes g (some kind) =
    if kind =? "" then values g.nodes else filter (λ n. n.kind =? kind) (values g.nodes)

-- The patch is what the spread of the argument does to the other fields.
unfoldable pub update_node : Graph → String → (Node → Node) → ℕ → Option Node × Graph
update_node g id patch now = elim (get g.nodes id) [
  | none ↦ (none, g)
  | some n ↦
      let updated = record (patch n) { id = n.id; updated_at = now } in
      (some updated, record g { nodes = set g.nodes id updated })
]

-- this.edgesFrom.get(nodeId) || []
abbrev pub list_or_empty : Option (List Edge) → List Edge
list_or_empty none = []
list_or_empty (some es) = es

unfoldable pub get_edges_from : Graph → String → List Edge
get_edges_from g id = list_or_empty (get g.edges_from id)

unfoldable pub get_edges_to : Graph → String → List Edge
get_edges_to g id = list_or_empty (get g.edges_to id)

-- The first element that passes the test is taken out (`findIndex` and `splice`).
unfoldable pub remove_first : (Edge → Bool) → List Edge → List Edge
remove_first p [] = []
remove_first p (e ∷ es) = if p e then es else e ∷ remove_first p es

-- What `_removeFromEdgesTo` and `_removeFromEdgesFrom` share: in the list that `owner` names, the
-- first edge with the same other end and the same type is taken out.
unfoldable pub detach :
    (Edge → String) → (Edge → String) → Dict (List Edge) → Edge → Dict (List Edge)
detach owner other m edge = elim (get m (owner edge)) [
  | none ↦ m
  | some es ↦
      set m (owner edge) (remove_first (λ e. other e =? other edge && e.kind =? edge.kind) es)
]

abbrev pub source : Edge → String
source e = e.from

abbrev pub target : Edge → String
target e = e.to

unfoldable pub remove_from_edges_to : Dict (List Edge) → Edge → Dict (List Edge)
remove_from_edges_to edges_to edge = detach target source edges_to edge

unfoldable pub remove_from_edges_from : Dict (List Edge) → Edge → Dict (List Edge)
remove_from_edges_from edges_from edge = detach source target edges_from edge

-- The two loops of `removeNode`.
unfoldable pub unlink :
    (Dict (List Edge) → Edge → Dict (List Edge)) → Dict (List Edge) → List Edge → Dict (List Edge)
unlink remove m [] = m
unlink remove m (e ∷ es) = unlink remove (remove m e) es

unfoldable pub remove_node : Graph → String → Bool × Graph
remove_node g id =
    if not (has g.nodes id)
    then (false, g)
    else let outgoing = get_edges_from g id in
      let edges_to = unlink remove_from_edges_to g.edges_to outgoing in
      let edges_from = delete g.edges_from id in
      let incoming = list_or_empty (get edges_to id) in
      (
        true,
        record {
          nodes = delete g.nodes id;
          edges_from = unlink remove_from_edges_from edges_from incoming;
          edges_to = delete edges_to id;
        },
      )

abbrev pub entry_of : EdgeInput → Edge
entry_of e = record {
  from = e.from;
  to = e.to;
  kind = e.kind;
  weight = elim e.weight [ none ↦ 1 | some w ↦ w ];
}

-- The write of `addEdge`, behind its checks. A duplicate is not stored again.
unfoldable pub store_edge : Graph → Edge → Graph
store_edge g entry =
    let from_edges = get_edges_from g entry.from in
    if any (λ e. e.to =? entry.to && e.kind =? entry.kind) from_edges then g else record g {
      edges_from = set g.edges_from entry.from (from_edges ++ entry ∷ []);
      edges_to = set g.edges_to entry.to (get_edges_to g entry.to ++ entry ∷ []);
    }

unfoldable pub add_edge : Graph → EdgeInput → Result Error (Edge × Graph)
add_edge g e = elim (validate_edge e) [
  | some x ↦ throw x
  | none ↦
      if not (has g.nodes e.from)
      then throw (source_not_found e.from)
      else if not (has g.nodes e.to)
      then throw (target_not_found e.to)
      else ok (entry_of e, store_edge g (entry_of e))
]

unfoldable pub get_edges_from_by_type : Graph → String → String → List Edge
get_edges_from_by_type g id kind = filter (λ e. e.kind =? kind) (get_edges_from g id)

unfoldable pub get_edges_to_by_type : Graph → String → String → List Edge
get_edges_to_by_type g id kind = filter (λ e. e.kind =? kind) (get_edges_to g id)

-- .map((e) => this.nodes.get(f(e))).filter(Boolean)
unfoldable pub nodes_at : Graph → (Edge → String) → List Edge → List Node
nodes_at g f [] = []
nodes_at g f (e ∷ es) = elim (get g.nodes (f e)) [
  | none ↦ nodes_at g f es
  | some n ↦ n ∷ nodes_at g f es
]

unfoldable pub get_dependencies : Graph → String → List Node
get_dependencies g id =
    nodes_at g (λ e. e.to)
      (get_edges_from_by_type g id "requires_output"
        ++ (get_edges_from_by_type g id "requires_completion"
            ++ (get_edges_from_by_type g id "requires_evidence"
                ++ (get_edges_from_by_type g id "requires_decision"
                    ++ get_edges_from_by_type g id "depends_on_artifact"))))

unfoldable pub get_invalidated_by : Graph → String → List Node
get_invalidated_by g id = nodes_at g (λ e. e.to) (get_edges_from_by_type g id "invalidates")

unfoldable pub get_contradicting : Graph → String → List Node
get_contradicting g id =
    nodes_at g (λ e. e.to) (get_edges_from_by_type g id "contradicts")
    ++ nodes_at g (λ e. e.from) (get_edges_to_by_type g id "contradicts")

-- ===== src/Graph/Walk.antt =====
-- `getUpstream` and `getDownstream` of src/context/context-graph.js. The depth that is left is the
-- argument on which the walk recurs: a call at depth d has `maxDepth - d` levels left upstream, and
-- `maxDepth + 1 - d` downstream, where the test is `depth > maxDepth`.
use wait_a_minute_plugin.Base.{
  ℕ, zero, suc, String, true, false, none, some, List, [], ◌∷◌, ◌++◌, filter, includes,
}
use wait_a_minute_plugin.Base.Dict.{get}
use wait_a_minute_plugin.Graph.{
  Node, Edge, Graph, get_edges_to, get_edges_to_by_type, get_dependencies,
}

-- The two variables that the closure `traverse` shares.
pub record Walk : Type 0 where
  pub visited : List String
  pub result : List Node

abbrev pub start : Walk
start = record { visited = []; result = [] }

abbrev pub mark_visited : String → Walk → Walk
mark_visited id w = record w { visited = id ∷ w.visited }

abbrev pub push : Node → Walk → Walk
push n w = record w { result = w.result ++ n ∷ [] }

-- The loop over the dependencies; `go` is the recursive call.
unfoldable pub visit_dependencies : (String → Walk → Walk) → List Node → Walk → Walk
visit_dependencies go [] w = w
visit_dependencies go (dep ∷ deps) w =
    visit_dependencies go deps
      (elim (includes w.visited dep.id) [ true ↦ w | false ↦ go dep.id (push dep w) ])

-- The loop over edges whose source is visited: the producers, or the dependents.
unfoldable pub visit_sources : Graph → (String → Walk → Walk) → List Edge → Walk → Walk
visit_sources g go [] w = w
visit_sources g go (e ∷ es) w = visit_sources g go es (elim (includes w.visited e.from) [
  | true ↦ w
  | false ↦ elim (get g.nodes e.from) [ none ↦ w | some n ↦ go e.from (push n w) ]
])

unfoldable pub traverse_up : Graph → ℕ → String → Walk → Walk
traverse_up g zero id w = w
traverse_up g (suc left) id w = elim (includes w.visited id) [
  | true ↦ w
  | false ↦
      visit_sources g (traverse_up g left) (get_edges_to_by_type g id "produces")
        (visit_dependencies (traverse_up g left) (get_dependencies g id) (mark_visited id w))
]

unfoldable pub get_upstream : Graph → String → ℕ → List Node
get_upstream g id max_depth = (traverse_up g max_depth id start).result

abbrev pub dependent_types : List String
dependent_types = "requires_output" ∷ "requires_completion" ∷ "depends_on_artifact" ∷ []

unfoldable pub dependents : Graph → String → List Edge
dependents g id = filter (λ e. includes dependent_types e.kind) (get_edges_to g id)

unfoldable pub traverse_down : Graph → ℕ → String → Walk → Walk
traverse_down g zero id w = w
traverse_down g (suc left) id w = elim (includes w.visited id) [
  | true ↦ w
  | false ↦ visit_sources g (traverse_down g left) (dependents g id) (mark_visited id w)
]

unfoldable pub get_downstream : Graph → String → ℕ → List Node
get_downstream g id max_depth = (traverse_down g (suc max_depth) id start).result

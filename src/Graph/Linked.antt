-- ===== src/Graph/Linked.antt =====
-- What the queries of src/context/context-graph.js say after `addEdge`: the edge is listed at both
-- ends, adding it again changes nothing, and an undeclared type is never found.
use wait_a_minute_plugin.Base.{
  String, ◌≡◌, sym, ap, ◌∙◌, subst, inl, inr, true, false, not, none, [], arith, eq_iff, ◌=?◌,
  Bool-cases, In, any, filter-nil_of_all, any-In, In-any, includes, ok, all_of_In, and_true_parts,
}
use wait_a_minute_plugin.Base.Dict.{has}
use wait_a_minute_plugin.Graph.{
  Edge, EdgeInput, Graph, edge_types, validate_edge, get_edges_from, get_edges_to, store_edge,
  add_edge, entry_of, source, target, get_edges_from_by_type,
}
use wait_a_minute_plugin.Graph.Stored.{twin_self, twin, IsStored}
use wait_a_minute_plugin.Graph.Added.{appended, store_edge-cases, add_edge_parts, add_edge-IsStored}

nodes-store_edge : (g : Graph) (e : Edge) → (store_edge g e).nodes ≡ g.nodes
nodes-store_edge g e = elim (store_edge-cases g e) [
  | inl old ↦ ap (λ x. x.nodes) old.1
  | inr new_ ↦ ap (λ x. x.nodes) new_.1
]

held_out :
    (g : Graph) (e : Edge) → any (twin target e) (get_edges_from (store_edge g e) e.from) ≡ true
held_out g e = elim (store_edge-cases g e) [
  | inl old ↦ subst (λ x. any (twin target e) (get_edges_from x e.from) ≡ true) (sym old.1) old.0
  | inr new_ ↦
      subst (λ x. any (twin target e) (get_edges_from x e.from) ≡ true) (sym new_.1)
        (In-any (twin target e) _ e (appended g e) (twin_self target e))
]

store_edge_again : (g : Graph) (e : Edge) → store_edge (store_edge g e) e ≡ store_edge g e
store_edge_again g e = elim (store_edge-cases (store_edge g e) e) [
  | inl old ↦ old.1
  | inr new_ ↦ cc (held_out g e, new_.0)
]

add_edge_accepts :
    (g : Graph) (e : EdgeInput)
    → validate_edge e ≡ none
    → has g.nodes e.from ≡ true
    → has g.nodes e.to ≡ true
    → add_edge g e ≡ ok (entry_of e, store_edge g (entry_of e))
unfolding add_edge
add_edge_accepts g e v a b = ground arith

-- A second edge with the ends and the type of a stored one changes nothing.
pub add_edge_again :
    (g g' : Graph) (e : EdgeInput) (x : Edge)
    → add_edge g e ≡ ok (x, g')
    → add_edge g' e ≡ ok (x, g')
add_edge_again g g' e x h =
    let (valid, from_there, to_there, entry, written) = add_edge_parts g g' e x h in
    rw (entry, written)
      (add_edge_accepts (store_edge g (entry_of e)) e valid
          (ap (λ y. has y e.from) (nodes-store_edge g (entry_of e)) ∙ from_there)
          (ap (λ y. has y e.to) (nodes-store_edge g (entry_of e)) ∙ to_there)
        ∙ ap (λ y. ok (entry_of e, y)) (store_edge_again g (entry_of e)))

mirrored :
    (g : Graph) (e : Edge)
    → IsStored g
    → any (twin target e) (get_edges_from g e.from) ≡ true
    → any (twin source e) (get_edges_to g e.to) ≡ true
mirrored g e s out =
    let (x, m, same) = any-In (twin target e) _ out in
    let (to_, kind_) = and_true_parts _ _ same in
    let at_target =
      subst (λ y. In x (get_edges_to g y)) ((eq_iff x.to e.to).0 to_) (s.out_in e.from x m) in
    In-any (twin source e) _ x at_target
      (rw ((eq_iff x.from e.from).1 (s.out_own e.from x m)) kind_)

-- Both queries see an added edge: whatever the graph held, an edge with these ends and this type is
-- listed from its source and, in a stored graph, at its target.
pub add_edge-listed :
    (g g' : Graph) (e : EdgeInput) (x : Edge)
    → add_edge g e ≡ ok (x, g')
    → IsStored g
    → (any (twin target (entry_of e)) (get_edges_from g' e.from) ≡ true)
      × (any (twin source (entry_of e)) (get_edges_to g' e.to) ≡ true)
add_edge-listed g g' e x h s =
    let after = add_edge-IsStored g g' e x h s in
    let written = (add_edge_parts g g' e x h).4 in
    let out =
      subst (λ y. any (twin target (entry_of e)) (get_edges_from y e.from) ≡ true) (sym written)
        (held_out g (entry_of e)) in
    (out, mirrored g' (entry_of e) after out)

differs :
    (known kind : String)
    → includes edge_types known ≡ true
    → includes edge_types kind ≡ false
    → not (known =? kind) ≡ true
differs known kind h u = elim (Bool-cases (known =? kind)) [
  | inl same ↦ absurd (clash (ap (λ k. includes edge_types k) ((eq_iff known kind).0 same)))
  | inr d ↦ rw d
]
  where
    clash : includes edge_types known ≡ includes edge_types kind → ⊥
    clash e = cc (e, h, u)

-- An edge type outside the declared list is refused, so in a stored graph a query by such a type,
-- for example "depends_on", finds nothing.
pub get_edges_from_by_type-undeclared :
    (g : Graph) (id kind : String)
    → IsStored g
    → includes edge_types kind ≡ false
    → get_edges_from_by_type g id kind ≡ []
unfolding get_edges_from_by_type
get_edges_from_by_type-undeclared g id kind s undeclared =
    filter-nil_of_all (λ e. e.kind =? kind) (get_edges_from g id)
      (all_of_In (λ e. not (e.kind =? kind)) (get_edges_from g id)
        λ e m. differs e.kind kind (s.typed id e m) undeclared)

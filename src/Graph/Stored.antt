-- ===== src/Graph/Stored.antt =====
-- What every graph built by the methods of src/context/context-graph.js satisfies.
use wait_a_minute_plugin.Base.{
  ℕ, String, ◌≡◌, sym, ◌∙◌, subst, inl, inr, Bool, true, false, ◌&&◌, some, List, [], ◌∷◌, arith,
  eq_iff, eq_refl, ◌=?◌, if◌then◌else◌, Option-cases, In, any, includes, ok,
}
use wait_a_minute_plugin.Base.Dict.{get, set, has, get-set}
use wait_a_minute_plugin.Graph.{
  Node, Edge, Graph, new, edge_types, add_node, update_node, get_edges_from, get_edges_to, source,
  target,
}

-- Two edges between the same nodes of the same type.
abbrev pub twin : (Edge → String) → Edge → Edge → Bool
twin other a b = other b =? other a && b.kind =? a.kind

pub twin_self : (other : Edge → String) (e : Edge) → twin other e e ≡ true
twin_self other e = rw (eq_refl (other e), eq_refl e.kind)

-- In a list, no edge has a twin behind it.
abbrev pub Unique : (Edge → String) → List Edge → Type 0
Unique other [] = Unit
Unique other (e ∷ es) = (any (twin other e) es ≡ false) × Unique other es

pub record IsStored (g : Graph) : Type 0 where
  pub keyed : (k : String) (n : Node) → get g.nodes k ≡ some n → n.id ≡ k
  pub out_own : (k : String) (e : Edge) → In e (get_edges_from g k) → e.from ≡ k
  pub in_own : (k : String) (e : Edge) → In e (get_edges_to g k) → e.to ≡ k
  pub out_in : (k : String) (e : Edge) → In e (get_edges_from g k) → In e (get_edges_to g e.to)
  pub in_out : (k : String) (e : Edge) → In e (get_edges_to g k) → In e (get_edges_from g e.from)
  pub closed :
      (k : String) (e : Edge)
      → In e (get_edges_from g k)
      → (has g.nodes e.from ≡ true) × (has g.nodes e.to ≡ true)
  pub typed :
      (k : String) (e : Edge) → In e (get_edges_from g k) → includes edge_types e.kind ≡ true
  pub unique_out : (k : String) → Unique target (get_edges_from g k)
  pub unique_in : (k : String) → Unique source (get_edges_to g k)

pub new-IsStored : IsStored new
unfolding get get_edges_from get_edges_to
new-IsStored = record {
  keyed = λ k n h. cc;
  out_own = λ k e m. absurd m;
  in_own = λ k e m. absurd m;
  out_in = λ k e m. absurd m;
  in_out = λ k e m. absurd m;
  closed = λ k e m. absurd m;
  typed = λ k e m. absurd m;
  unique_out = λ k. tt;
  unique_in = λ k. tt;
}

-- Writes to the nodes that keep the keys keep the rest.
with_nodes-IsStored :
    (g : Graph) (id : String) (n : Node)
    → n.id ≡ id
    → IsStored g
    → IsStored (record g { nodes = set g.nodes id n })
unfolding get_edges_from get_edges_to
with_nodes-IsStored g id n own s = record {
  keyed = λ k x h. keyed_set k x (sym (get-set g.nodes id n k) ∙ h);
  out_own = s.out_own;
  in_own = s.in_own;
  out_in = s.out_in;
  in_out = s.in_out;
  closed = λ k e m. let (a, b) = s.closed k e m in (has_set e.from a, has_set e.to b);
  typed = s.typed;
  unique_out = s.unique_out;
  unique_in = s.unique_in;
}
  where
    keyed_set :
        (k : String) (x : Node) → (if id =? k then some n else get g.nodes k) ≡ some x → x.id ≡ k
    keyed_set k x h = ground (arith, eq_iff id k, s.keyed k x)

    has_set : (k : String) → has g.nodes k ≡ true → has (set g.nodes id n) k ≡ true
    has_set k h = rw (get-set g.nodes id n k) (ground (arith))

add_node_parts :
    (g g' : Graph) (node entry : Node) (now : ℕ)
    → add_node g node now ≡ ok (entry, g')
    → (g' ≡ record g { nodes = set g.nodes node.id entry }) × (entry.id ≡ node.id)
unfolding add_node
add_node_parts g g' node entry now h = ground arith

pub add_node-IsStored :
    (g g' : Graph) (node entry : Node) (now : ℕ)
    → add_node g node now ≡ ok (entry, g')
    → IsStored g
    → IsStored g'
add_node-IsStored g g' node entry now h s =
    let (written, own) = add_node_parts g g' node entry now h in
    subst IsStored (sym written) (with_nodes-IsStored g node.id entry own s)

pub update_node-IsStored :
    (g : Graph) (id : String) (patch : Node → Node) (now : ℕ)
    → IsStored g
    → IsStored (update_node g id patch now).1
unfolding update_node
update_node-IsStored g id patch now s = elim (Option-cases (get g.nodes id)) [
  | inl e ↦ rw (e, update_node) s
  | inr (n, e) ↦ rw (e, update_node) (with_nodes-IsStored g id _ (s.keyed id n e) s)
]

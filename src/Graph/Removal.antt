-- ===== src/Graph/Removal.antt =====
-- `removeNode` of src/context/context-graph.js: no edge of the removed node is left at either end,
-- all other edges are, and the graph stays stored.
use wait_a_minute_plugin.Base.{
  String, ◌≡◌, refl, sym, ◌∙◌, subst, ◌≢◌, ◌↔◌, ◌⊎◌, inl, inr, true, false, none, some, List, [],
  arith, eq_iff, eq_refl, ◌=?◌, if◌then◌else◌, Bool-cases, In, of_not_true, and_true_parts,
}
use wait_a_minute_plugin.Base.Dict.{Dict, get, delete, has, get-delete}
use wait_a_minute_plugin.Graph.{
  Node, Edge, Graph, get_edges_from, get_edges_to, source, target, detach, remove_from_edges_to,
  remove_from_edges_from, unlink, remove_node,
}
use wait_a_minute_plugin.Graph.Stored.{twin_self, twin, Unique, IsStored}
use wait_a_minute_plugin.Graph.Detached.{at, In-unlink, unlink-In, Unique-unlink, unlink_clean}

at-delete :
    (m : Dict (List Edge)) (id k : String) → at (delete m id) k ≡ (if id =? k then [] else at m k)
at-delete m id k = ground (arith, get-delete m id k)

In-delete :
    (m : Dict (List Edge)) (id k : String) (x : Edge)
    → In x (at (delete m id) k) ↔ (In x (at m k) × (k ≢ id))
In-delete m id k x = elim (Bool-cases (id =? k)) [
  | inl same ↦
      rw (at-delete m id k, same) (λ h. absurd h, λ h. absurd (h.1 (sym ((eq_iff id k).0 same))))
  | inr differ ↦
      rw (at-delete m id k, differ) (λ h. (h, λ e. cc (differ, (eq_iff id k).1 (sym e))), λ h. h.0)
]

Unique-delete :
    (other : Edge → String) (m : Dict (List Edge)) (id : String)
    → ((k : String) → Unique other (at m k))
    → (k : String) → Unique other (at (delete m id) k)
Unique-delete other m id u k = elim (Bool-cases (id =? k)) [
  | inl same ↦ rw (at-delete m id k, same) tt
  | inr differ ↦ rw (at-delete m id k, differ) (u k)
]

twin_other : (other : Edge → String) (e x : Edge) → other x ≢ other e → twin other e x ≡ false
twin_other other e x d =
    of_not_true _ λ t. d ((eq_iff (other x) (other e)).0 (and_true_parts _ _ t).0)

-- The graph that is left when a node is removed, for a stored graph.
module _ (g : Graph) (id : String) (s : IsStored g) where
  abbrev ins_left : Dict (List Edge)
  ins_left = unlink (detach target source) g.edges_to (at g.edges_from id)

  abbrev outs_left : Dict (List Edge)
  outs_left = unlink (detach source target) (delete g.edges_from id) (at ins_left id)

  abbrev left : Graph
  left = record { nodes = delete g.nodes id; edges_from = outs_left; edges_to = delete ins_left id }

  unfolded_outs : (k : String) → get_edges_from g k ≡ at g.edges_from k
  unfolding get_edges_from
  unfolded_outs k = refl

  unfolded_ins : (k : String) → get_edges_to g k ≡ at g.edges_to k
  unfolding get_edges_to
  unfolded_ins k = refl

  In-outs :
      (k : String) (x : Edge)
      → In x (at outs_left k) ↔ (In x (get_edges_from g k) × (x.from ≢ id) × (x.to ≢ id))
  unfolding get_edges_from get_edges_to
  In-outs k x = (
    λ h.
        let (old, other) =
          (In-delete g.edges_from id k x).0
            (In-unlink source target (at ins_left id) (delete g.edges_from id) k x h) in
        let own = s.out_own k x old in
        let apart : x.from ≢ id = λ e. other (sym own ∙ e) in
        (
          old,
          apart,
          λ to_id.
              let in_ = subst (λ y. In x (at g.edges_to y)) to_id (s.out_in k x old) in
              let kept =
                unlink-In target source (at g.edges_from id) g.edges_to id x in_
                  (λ e n. twin_other source e x (λ q. apart (q ∙ s.out_own id e n))) in
              let clean =
                unlink_clean source target (at ins_left id) (delete g.edges_from id) x x
                  (Unique-delete target g.edges_from id s.unique_out) kept
                  (subst (λ y. In x (at outs_left y)) (sym own) h) in
              cc (clean, twin_self target x),
        ),
    λ h.
        unlink-In source target (at ins_left id) (delete g.edges_from id) k x
          ((In-delete g.edges_from id k x).1 (h.0, λ e. h.1 (s.out_own k x h.0 ∙ e)))
          (λ e n. twin_other target e x λ q.
            h.2
              (q ∙ s.in_own id e (In-unlink target source (at g.edges_from id) g.edges_to id e n))),
  )

  In-ins :
      (k : String) (x : Edge)
      → In x (at (delete ins_left id) k) ↔ (In x (get_edges_to g k) × (x.from ≢ id) × (x.to ≢ id))
  unfolding get_edges_from get_edges_to
  In-ins k x = (
    λ h.
        let (kept, other) = (In-delete ins_left id k x).0 h in
        let old = In-unlink target source (at g.edges_from id) g.edges_to k x kept in
        let own = s.in_own k x old in
        (
          old,
          λ from_id.
              let out = subst (λ y. In x (at g.edges_from y)) from_id (s.in_out k x old) in
              let clean =
                unlink_clean target source (at g.edges_from id) g.edges_to x x s.unique_in out
                  (subst (λ y. In x (at ins_left y)) (sym own) kept) in
              cc (clean, twin_self source x),
          λ e. other (sym own ∙ e),
        ),
    λ h. (In-delete ins_left id k x).1 (
      unlink-In target source (at g.edges_from id) g.edges_to k x h.0
          (λ e n. twin_other source e x λ q. h.1 (q ∙ s.out_own id e n)),
      λ e. h.2 (s.in_own k x h.0 ∙ e),
    ),
  )

  has_left : (k : String) → has g.nodes k ≡ true → k ≢ id → has (delete g.nodes id) k ≡ true
  has_left k h d = rw (get-delete g.nodes id k) (ground (arith, eq_iff id k))

  left-IsStored : IsStored left
  unfolding get_edges_from get_edges_to
  left-IsStored = record {
    keyed = λ k n h. keyed_left k n (sym (get-delete g.nodes id k) ∙ h);
    out_own = λ k x m. s.out_own k x ((In-outs k x).0 m).0;
    in_own = λ k x m. s.in_own k x ((In-ins k x).0 m).0;
    out_in =
        λ k x m. let (old, a, b) = (In-outs k x).0 m in (In-ins x.to x).1 (s.out_in k x old, a, b);
    in_out = λ k x m.
        let (old, a, b) = (In-ins k x).0 m in (In-outs x.from x).1 (s.in_out k x old, a, b);
    closed = λ k x m.
        let (old, a, b) = (In-outs k x).0 m in
        let (c, d) = s.closed k x old in (has_left x.from c a, has_left x.to d b);
    typed = λ k x m. s.typed k x ((In-outs k x).0 m).0;
    unique_out =
        Unique-unlink source target (at ins_left id) (delete g.edges_from id)
          (Unique-delete target g.edges_from id s.unique_out);
    unique_in =
        Unique-delete source ins_left id
          (Unique-unlink target source (at g.edges_from id) g.edges_to s.unique_in);
  }
    where
      keyed_left :
          (k : String) (n : Node) → (if id =? k then none else get g.nodes k) ≡ some n → n.id ≡ k
      keyed_left k n h = ground (arith, s.keyed k n)

remove_node-cases :
    (g : Graph) (id : String) (s : IsStored g)
    → ((has g.nodes id ≡ false) × (remove_node g id ≡ (false, g)))
      ⊎ ((has g.nodes id ≡ true) × (remove_node g id ≡ (true, left g id s)))
unfolding remove_node get_edges_from remove_from_edges_to remove_from_edges_from
remove_node-cases g id s = elim (Bool-cases (has g.nodes id)) [
  | inl there ↦ inr (there, rw there)
  | inr absent ↦ inl (absent, rw absent)
]

-- `removeNode` keeps a graph stored, whether the node was there or not.
pub remove_node-IsStored : (g : Graph) (id : String) → IsStored g → IsStored (remove_node g id).1
remove_node-IsStored g id s = elim (remove_node-cases g id s) [
  | inl absent ↦ subst (λ r. IsStored r.1) (sym absent.1) s
  | inr there ↦ subst (λ r. IsStored r.1) (sym there.1) (left-IsStored g id s)
]

-- Removing a node of a stored graph reports success, takes the node away, and leaves in both
-- indexes exactly the edges that have it at neither end; other nodes stay.
pub remove_node-edges :
    (g : Graph) (id : String)
    → IsStored g
    → has g.nodes id ≡ true
    → let (removed, g') = remove_node g id in
      (removed ≡ true)
      × (has g'.nodes id ≡ false)
      × ((k : String) → k ≢ id → get g'.nodes k ≡ get g.nodes k)
      × ((k : String) (x : Edge)
          → In x (get_edges_from g' k) ↔ (In x (get_edges_from g k) × (x.from ≢ id) × (x.to ≢ id)))
      × ((k : String) (x : Edge)
          → In x (get_edges_to g' k) ↔ (In x (get_edges_to g k) × (x.from ≢ id) × (x.to ≢ id)))
remove_node-edges g id s there = elim (remove_node-cases g id s) [
  | inl absent ↦ cc (absent.0, there)
  | inr e ↦ rw e.1 (
    refl,
    rw (get-delete g.nodes id id, eq_refl id) refl,
    λ k d. rw (get-delete g.nodes id k) (ground (arith, eq_iff id k)),
    unfold get_edges_from in In-outs g id s,
    unfold get_edges_to in In-ins g id s,
  )
]

-- Removing a node that is not there changes nothing and reports so.
pub remove_node_absent :
    (g : Graph) (id : String) → has g.nodes id ≡ false → remove_node g id ≡ (false, g)
unfolding remove_node
remove_node_absent g id h = rw h

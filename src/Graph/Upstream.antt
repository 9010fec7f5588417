-- ===== src/Graph/Upstream.antt =====
-- `getUpstream` and `getDownstream` of src/context/context-graph.js return only nodes of the graph
-- within the depth asked for.
use wait_a_minute_plugin.Base.{
  ℕ, zero, suc, ◌+◌, ◌≤◌, String, ◌≡◌, refl, sym, subst, ◌≢◌, inl, inr, Bool, true, false, Option,
  none, some, List, [], ◌∷◌, ◌++◌, arith, eq_iff, In, includes,
}
use wait_a_minute_plugin.Base.Dict.{get}
use wait_a_minute_plugin.Graph.{Node, Edge, Graph, get_edges_to_by_type, get_dependencies}
use wait_a_minute_plugin.Graph.Stored.{IsStored}
use wait_a_minute_plugin.Graph.Walk.{
  Walk, start, mark_visited, visit_dependencies, visit_sources, traverse_up, get_upstream,
  dependents, traverse_down, get_downstream, push,
}
use wait_a_minute_plugin.Graph.Reached.{
  Up, dependency, producer, Down, dependent, Chain, here, next, Within, Sound, visit_sources-Sound,
  visit_dependencies-Sound, nodes_at-there,
}

module _ (g : Graph) (s : IsStored g) (a : String) (max : ℕ) where
  dependency-there :
      (b : String) (n : Node) → In n (get_dependencies g b) → get g.nodes n.id ≡ some n
  unfolding get_dependencies
  dependency-there b n m = nodes_at-there g _ _ n s.keyed m

  traverse_up-Sound :
      (left d : ℕ) (id : String) (w : Walk)
      → d + left ≤ max
      → Chain (Up g) a d id
      → Sound g (Up g) a max w
      → Sound g (Up g) a max (traverse_up g left id w)
  unfolding traverse_up
  traverse_up-Sound zero d id w fits chain h = h
  traverse_up-Sound (suc left) d id w fits chain h =
      one (λ b x c k. traverse_up-Sound left (suc d) b x (omega arith) c k) (includes w.visited id)
    where
      one :
          ((b : String) (x : Walk)
            → Chain (Up g) a (suc d) b
            → Sound g (Up g) a max x
            → Sound g (Up g) a max (traverse_up g left b x))
          → (seen : Bool)
          → Sound g (Up g) a max (elim seen [
            | true ↦ w
            | false ↦ visit_sources g (traverse_up g left) (get_edges_to_by_type g id "produces") (
                visit_dependencies (traverse_up g left) (get_dependencies g id) (mark_visited id w))
          ])
      one go true = h
      one go false =
          visit_sources-Sound g (Up g) a max s.keyed (traverse_up g left) d _ _ (omega arith)
            (λ e m. next chain (producer e m)) go
            (visit_dependencies-Sound g (Up g) a max (traverse_up g left) d _ _ (omega arith)
              (λ n m. (dependency-there id n m, next chain (dependency n m))) go h)

  traverse_down-Sound :
      (left d : ℕ) (id : String) (w : Walk)
      → d + left ≤ suc max
      → Chain (Down g) a d id
      → Sound g (Down g) a (suc max) w
      → Sound g (Down g) a (suc max) (traverse_down g left id w)
  unfolding traverse_down
  traverse_down-Sound zero d id w fits chain h = h
  traverse_down-Sound (suc left) d id w fits chain h =
      one (λ b x c k. traverse_down-Sound left (suc d) b x (omega arith) c k)
        (includes w.visited id)
    where
      one :
          ((b : String) (x : Walk)
            → Chain (Down g) a (suc d) b
            → Sound g (Down g) a (suc max) x
            → Sound g (Down g) a (suc max) (traverse_down g left b x))
          → (seen : Bool)
          → Sound g (Down g) a (suc max) (elim seen [
            | true ↦ w
            | false ↦ visit_sources g (traverse_down g left) (dependents g id) (mark_visited id w)
          ])
      one go true = h
      one go false =
          visit_sources-Sound g (Down g) a (suc max) s.keyed (traverse_down g left) d _ _
            (omega arith) (λ e m. next chain (dependent e m)) go h

-- In a stored graph every node that `getUpstream` returns is the graph's node under its own key,
-- and a chain of at least one and at most `max` dependency or producer steps leads to it from the
-- start.
pub get_upstream-Within :
    (g : Graph) (a : String) (max : ℕ) (n : Node)
    → IsStored g
    → In n (get_upstream g a max)
    → Within g (Up g) a max n
unfolding get_upstream
get_upstream-Within g a max n s m =
    traverse_up-Sound g s a max max 0 a start (omega arith) here (λ x none_. absurd none_) n m

-- The same of `getDownstream` along dependents, but with chains of up to `max` + 1 steps: its depth
-- test lets one level more through than that of `getUpstream`.
pub get_downstream-Within :
    (g : Graph) (a : String) (max : ℕ) (n : Node)
    → IsStored g
    → In n (get_downstream g a max)
    → Within g (Down g) a (suc max) n
unfolding get_downstream
get_downstream-Within g a max n s m =
    traverse_down-Sound g s a max (suc max) 0 a start (omega arith) here (λ x none_. absurd none_) n
      m

-- At the last level a walk only collects: the call below it returns at once.
abbrev stop : String → Walk → Walk
stop id w = w

-- What one turn of the loop makes of the walk at the last level.
abbrev turn : Bool → Option Node → Walk → Walk
turn seen found w = elim seen [ true ↦ w | false ↦ elim found [ none ↦ w | some n ↦ push n w ] ]

turn-visited :
    (seen : Bool) (found : Option Node) (w : Walk) → (turn seen found w).visited ≡ w.visited
turn-visited true found w = refl
turn-visited false none w = refl
turn-visited false (some n) w = refl

In-snoc_old : (x y : Node) (ns : List Node) → In x ns → In x (ns ++ y ∷ [])
In-snoc_old x y [] m = absurd m
In-snoc_old x y (z ∷ ns) m = elim m [ inl e ↦ inl e | inr k ↦ inr (In-snoc_old x y ns k) ]

In-snoc_new : (x : Node) (ns : List Node) → In x (ns ++ x ∷ [])
In-snoc_new x [] = inl refl
In-snoc_new x (z ∷ ns) = inr (In-snoc_new x ns)

turn-keeps :
    (x : Node) (seen : Bool) (found : Option Node) (w : Walk)
    → In x w.result
    → In x (turn seen found w).result
turn-keeps x true found w m = m
turn-keeps x false none w m = m
turn-keeps x false (some n) w m = In-snoc_old x n w.result m

visit_sources-keeps :
    (g : Graph) (x : Node) (es : List Edge) (w : Walk)
    → In x w.result
    → In x (visit_sources g stop es w).result
unfolding visit_sources
visit_sources-keeps g x [] w m = m
visit_sources-keeps g x (e ∷ es) w m =
    visit_sources-keeps g x es _ (turn-keeps x (includes w.visited e.from) (get g.nodes e.from) w m)

visit_sources-collects :
    (g : Graph) (e : Edge) (n : Node) (es : List Edge) (w : Walk)
    → In e es
    → includes w.visited e.from ≡ false
    → get g.nodes e.from ≡ some n
    → In n (visit_sources g stop es w).result
unfolding visit_sources
visit_sources-collects g e n [] w m new_ f = absurd m
visit_sources-collects g e n (x ∷ es) w m new_ f = elim m [
  | inl same ↦ visit_sources-keeps g n es _ (
      subst (λ y. In n (turn (includes w.visited y.from) (get g.nodes y.from) w).result) same
        (subst (λ b. In n (turn b (get g.nodes e.from) w).result) (sym new_)
          (subst (λ o. In n (turn false o w).result) (sym f) (In-snoc_new n w.result))))
  | inr later ↦
      visit_sources-collects g e n es _ later
        (subst (λ v. includes v e.from ≡ false)
          (sym (turn-visited (includes w.visited x.from) (get g.nodes x.from) w)) new_)
        f
]

-- With depth 0 nothing is upstream, while every direct dependent that is a node is downstream,
-- unless it is the start itself: the two walks do not read `maxDepth` alike.
pub depth_zero :
    (g : Graph) (a : String) (e : Edge) (n : Node)
    → In e (dependents g a)
    → e.from ≢ a
    → get g.nodes e.from ≡ some n
    → (get_upstream g a 0 ≡ []) × In n (get_downstream g a 0)
unfolding get_upstream get_downstream traverse_up traverse_down
depth_zero g a e n m d f = (
  refl,
  visit_sources-collects g e n (dependents g a) (mark_visited a start) m
      (ground (arith, eq_iff a e.from)) f,
)

-- ===== src/Graph/Reached.antt =====
-- What the walks of src/context/context-graph.js return: only nodes of the graph that are linked to
-- the start by a chain of steps no longer than the depth allows.
use wait_a_minute_plugin.Base.{
  ℕ, suc, ◌≤◌, String, ◌≡◌, refl, sym, subst, ◌⊎◌, inl, inr, Bool, true, false, Option, none, some,
  List, [], ◌∷◌, ◌++◌, arith, In, includes,
}
use wait_a_minute_plugin.Base.Dict.{get}
use wait_a_minute_plugin.Graph.{Node, Edge, Graph, get_edges_to_by_type, get_dependencies, nodes_at}
use wait_a_minute_plugin.Graph.Walk.{Walk, push, visit_dependencies, visit_sources, dependents}

-- One step from a node to another, upstream or downstream.
pub data Up (g : Graph) (a : String) : String → Type 0 where
  dependency : (n : Node) → In n (get_dependencies g a) → Up g a n.id
  producer : (e : Edge) → In e (get_edges_to_by_type g a "produces") → Up g a e.from

pub data Down (g : Graph) (a : String) : String → Type 0 where
  dependent : (e : Edge) → In e (dependents g a) → Down g a e.from

-- A chain of a given number of steps.
pub data Chain (Step : String → String → Type 0) (a : String) : ℕ → String → Type 0 where
  here : Chain Step a 0 a
  next : {n : ℕ} {b c : String} → Chain Step a n b → Step b c → Chain Step a (suc n) c

-- A node of the graph at the end of a chain of at least one and at most `max` steps.
abbrev pub Within : Graph → (String → String → Type 0) → String → ℕ → Node → Type 0
Within g Step a max n =
    (get g.nodes n.id ≡ some n) × (d : ℕ) × (1 ≤ d) × (d ≤ max) × Chain Step a d n.id

-- Every node collected so far lies within the depth.
abbrev pub Sound : Graph → (String → String → Type 0) → String → ℕ → Walk → Type 0
Sound g Step a max w = (n : Node) → In n w.result → Within g Step a max n

In-snoc_node : (x y : Node) (ns : List Node) → In x (ns ++ y ∷ []) → In x ns ⊎ (x ≡ y)
In-snoc_node x y [] m = elim m [ inl e ↦ inr e | inr n ↦ absurd n ]
In-snoc_node x y (z ∷ ns) m = elim m [
  | inl e ↦ inl (inl e)
  | inr n ↦ elim (In-snoc_node x y ns n) [ inl k ↦ inl (inr k) | inr k ↦ inr k ]
]

module _ (g : Graph) (Step : String → String → Type 0) (a : String) (max : ℕ) where
  push-Sound :
      (n : Node) (w : Walk)
      → Within g Step a max n
      → Sound g Step a max w
      → Sound g Step a max (push n w)
  push-Sound n w h s x m = elim (In-snoc_node x n w.result m) [
    | inl old ↦ s x old
    | inr new_ ↦ subst (Within g Step a max) (sym new_) h
  ]

  -- What the recursive call is known to do at nodes that lie `d` steps away.
  abbrev Continues : ℕ → (String → Walk → Walk) → Type 0
  Continues d go =
      (b : String) (w : Walk)
      → Chain Step a d b
      → Sound g Step a max w
      → Sound g Step a max (go b w)

  pub visit_sources-Sound :
      (keyed : (k : String) (n : Node) → get g.nodes k ≡ some n → n.id ≡ k)
      (go : String → Walk → Walk) (d : ℕ) (es : List Edge) (w : Walk)
      → suc d ≤ max
      → ((e : Edge) → In e es → Chain Step a (suc d) e.from)
      → Continues (suc d) go
      → Sound g Step a max w
      → Sound g Step a max (visit_sources g go es w)
  unfolding visit_sources
  visit_sources-Sound keyed go d [] w fits chains cont s = s
  visit_sources-Sound keyed go d (e ∷ es) w fits chains cont s =
      visit_sources-Sound keyed go d es _ fits (λ x m. chains x (inr m)) cont
        (one (includes w.visited e.from) (get g.nodes e.from) refl)
    where
      one :
          (seen : Bool) (found : Option Node)
          → get g.nodes e.from ≡ found
          → Sound g Step a max (elim seen [
            | true ↦ w
            | false ↦ elim found [ none ↦ w | some n ↦ go e.from (push n w) ]
          ])
      one true found f = s
      one false none f = s
      one false (some n) f =
          let own = keyed e.from n f in
          cont e.from (push n w) (chains e (inl refl)) (
            push-Sound n w
              (
                subst (λ k. get g.nodes k ≡ some n) (sym own) f,
                suc d,
                omega arith,
                fits,
                subst (Chain Step a (suc d)) (sym own) (chains e (inl refl)),
              )
              s)

  pub visit_dependencies-Sound :
      (go : String → Walk → Walk) (d : ℕ) (deps : List Node) (w : Walk)
      → suc d ≤ max
      → ((n : Node) → In n deps → (get g.nodes n.id ≡ some n) × Chain Step a (suc d) n.id)
      → Continues (suc d) go
      → Sound g Step a max w
      → Sound g Step a max (visit_dependencies go deps w)
  unfolding visit_dependencies
  visit_dependencies-Sound go d [] w fits chains cont s = s
  visit_dependencies-Sound go d (n ∷ deps) w fits chains cont s =
      visit_dependencies-Sound go d deps _ fits (λ x m. chains x (inr m)) cont
        (one (includes w.visited n.id))
    where
      one : (seen : Bool) → Sound g Step a max (elim seen [ true ↦ w | false ↦ go n.id (push n w) ])
      one true = s
      one false =
          let (there, chain) = chains n (inl refl) in
          cont n.id (push n w) chain (push-Sound n w (there, suc d, omega arith, fits, chain) s)

-- The nodes that `nodes_at` finds are nodes of the graph under their own keys.
pub nodes_at-there :
    (g : Graph) (f : Edge → String) (es : List Edge) (n : Node)
    → ((k : String) (x : Node) → get g.nodes k ≡ some x → x.id ≡ k)
    → In n (nodes_at g f es)
    → get g.nodes n.id ≡ some n
unfolding nodes_at
nodes_at-there g f [] n keyed m = absurd m
nodes_at-there g f (e ∷ es) n keyed m =
    one (nodes_at-there g f es n keyed) (get g.nodes (f e)) refl m
  where
    one :
        (In n (nodes_at g f es) → get g.nodes n.id ≡ some n)
        → (found : Option Node) → get g.nodes (f e) ≡ found
        → In n (elim found [ none ↦ nodes_at g f es | some x ↦ x ∷ nodes_at g f es ])
        → get g.nodes n.id ≡ some n
    one rest none h p = rest p
    one rest (some x) h p = elim p [
      | inl same ↦
          subst (λ y. get g.nodes y.id ≡ some y) (sym same)
            (subst (λ k. get g.nodes k ≡ some x) (sym (keyed (f e) x h)) h)
      | inr later ↦ rest later
    ]

-- ===== src/Closure/Union.antt =====
-- `computeDependencyClosure` of src/context/dependency-closure.js: the nodes it returns are those
-- that one of the given nodes reaches, upstream or downstream.
use wait_a_minute_plugin.Base.{
  ℕ, suc, ◌+◌, ◌≤◌, ◌<◌, String, ◌≡◌, refl, sym, subst, ◌↔◌, ◌⊎◌, inl, inr, true, Option, none,
  some, List, [], ◌∷◌, ◌++◌, arith, Bool-cases, length, In, includes, includes-In, In-append,
  Distinct, Distinct-snoc,
}
use wait_a_minute_plugin.Base.Dict.{keys, has-keys}
use wait_a_minute_plugin.Graph.{Graph, has_node}
use wait_a_minute_plugin.Closure.{
  Limit, Traversal, Options, begin, upstream_steps, downstream_steps, traverse_upstream,
  traverse_downstream, collect, first_limit, close_over, compute_dependency_closure,
}
use wait_a_minute_plugin.Closure.Complete.{Reach, traverse_sound, traverse_complete}
use wait_a_minute_plugin.Closure.Limits.{IsBounded, traverse-IsBounded}
use wait_a_minute_plugin.Closure.Enough.{sum_of, begin-unlimited}

collect-In :
    (all_nodes ids : List String) (x : String)
    → In x (collect all_nodes ids) ↔ (In x all_nodes ⊎ In x ids)
unfolding collect
collect-In all_nodes [] x = (λ m. inl m, λ m. elim m [ inl k ↦ k | inr none_ ↦ absurd none_ ])
collect-In all_nodes (id ∷ ids) x = elim (Bool-cases (includes all_nodes id)) [
  | inl e ↦ rw e (
    λ m. elim ((collect-In all_nodes ids x).0 m) [ inl k ↦ inl k | inr k ↦ inr (inr k) ],
    λ m. (collect-In all_nodes ids x).1 (elim m [
      | inl k ↦ inl k
      | inr k ↦ elim k [
        | inl same ↦ inl (subst (λ y. In y all_nodes) (sym same) ((includes-In all_nodes id).0 e))
        | inr later ↦ inr later
      ]
    ]),
  )
  | inr e ↦ rw e (
    λ m. elim ((collect-In (all_nodes ++ id ∷ []) ids x).0 m) [
      | inl k ↦ elim ((In-append all_nodes (id ∷ []) x).0 k) [
        | inl old ↦ inl old
        | inr one ↦ elim one [ inl same ↦ inr (inl same) | inr none_ ↦ absurd none_ ]
      ]
      | inr k ↦ inr (inr k)
    ],
    λ m. (collect-In (all_nodes ++ id ∷ []) ids x).1 (elim m [
      | inl k ↦ inl ((In-append all_nodes (id ∷ []) x).1 (inl k))
      | inr k ↦ elim k [
        | inl same ↦ inl ((In-append all_nodes (id ∷ []) x).1 (inr (inl same)))
        | inr later ↦ inr later
      ]
    ]),
  )
]

collect-Distinct :
    (all_nodes ids : List String) → Distinct all_nodes → Distinct (collect all_nodes ids)
unfolding collect
collect-Distinct all_nodes [] d = d
collect-Distinct all_nodes (id ∷ ids) d = elim (Bool-cases (includes all_nodes id)) [
  | inl e ↦ rw e (collect-Distinct all_nodes ids d)
  | inr e ↦ rw e (
      collect-Distinct (all_nodes ++ id ∷ []) ids
        (Distinct-snoc all_nodes id d λ m. cc ((includes-In all_nodes id).1 m, e)))
]

-- Reached upstream or downstream, as a node of the graph.
abbrev pub Related : Graph → String → String → Type 0
Related g start x =
    (Reach (has_node g) (upstream_steps g) start x
      ⊎ Reach (has_node g) (downstream_steps g) start x)
    × (has_node g x ≡ true)

module _ (g : Graph) (o : Options) where
  one-Related :
      (id x : String)
      → In x ((traverse_upstream g id o).nodes ++ (traverse_downstream g id o).nodes)
      → Related g id x
  unfolding traverse_upstream traverse_downstream
  one-Related id x m = elim ((In-append _ _ x).0 m) [
    | inl k ↦
        let (r, there) =
          (traverse_sound (has_node g) (upstream_steps g) id o.max_nodes o.max_cost).0 x k in
        (inl r, there)
    | inr k ↦
        let (r, there) =
          (traverse_sound (has_node g) (downstream_steps g) id o.max_nodes o.max_cost).0 x k in
        (inr r, there)
  ]

  Related-one :
      (id x : String)
      → (traverse_upstream g id o).limit ≡ none
      → (traverse_downstream g id o).limit ≡ none
      → Related g id x
      → In x ((traverse_upstream g id o).nodes ++ (traverse_downstream g id o).nodes)
  unfolding traverse_upstream traverse_downstream
  Related-one id x up down r = (In-append _ _ x).1 (elim r.0 [
    | inl k ↦ inl (
        (traverse_complete (has_node g) (upstream_steps g) id o.max_nodes o.max_cost up x).1
          (k, r.1))
    | inr k ↦ inr (
        (traverse_complete (has_node g) (downstream_steps g) id o.max_nodes o.max_cost down x).1
          (k, r.1))
  ])

  abbrev RelatedToOne : List String → String → Type 0
  RelatedToOne ids x = (id : String) × In id ids × Related g id x

  -- What the loop over the nodes has found after one of them, and at what cost.
  abbrev found_at : List String → String → List String
  found_at all_nodes id =
      collect all_nodes ((traverse_upstream g id o).nodes ++ (traverse_downstream g id o).nodes)

  abbrev cost_at : ℕ → String → ℕ
  cost_at total id = total + ((traverse_upstream g id o).cost + (traverse_downstream g id o).cost)

  -- What a run of that loop adds to the nodes it starts with.
  pub record Closes (all_nodes ids : List String) (t : Traversal) : Type 0 where
    pub sound : (x : String) → In x t.nodes → In x all_nodes ⊎ RelatedToOne ids x
    pub complete :
        t.limit ≡ none → (x : String) → In x all_nodes ⊎ RelatedToOne ids x → In x t.nodes
    pub distinct : Distinct all_nodes → Distinct t.nodes

  found_sound :
      (all_nodes ids : List String) (id x : String)
      → In x (found_at all_nodes id)
      → In x all_nodes ⊎ RelatedToOne (id ∷ ids) x
  found_sound all_nodes ids id x m = elim ((collect-In all_nodes _ x).0 m) [
    | inl old ↦ inl old
    | inr new_ ↦ inr (id, inl refl, one-Related id x new_)
  ]

  found_complete :
      (all_nodes : List String) (id x : String)
      → (traverse_upstream g id o).limit ≡ none
      → (traverse_downstream g id o).limit ≡ none
      → In x all_nodes ⊎ Related g id x
      → In x (found_at all_nodes id)
  found_complete all_nodes id x up down m =
      (collect-In all_nodes _ x).1
        (elim m [ inl old ↦ inl old | inr r ↦ inr (Related-one id x up down r) ])

  rest-Closes :
      (all_nodes ids : List String) (id : String) (t : Traversal)
      → (traverse_upstream g id o).limit ≡ none
      → (traverse_downstream g id o).limit ≡ none
      → Closes (found_at all_nodes id) ids t
      → Closes all_nodes (id ∷ ids) t
  rest-Closes all_nodes ids id t up down h = record {
    sound = λ x m. elim (h.sound x m) [
      | inl k ↦ found_sound all_nodes ids id x k
      | inr (y, at, r) ↦ inr (y, inr at, r)
    ];
    complete = λ l x m. h.complete l x (elim m [
      | inl old ↦ inl (found_complete all_nodes id x up down (inl old))
      | inr (y, at, r) ↦ elim at [
        | inl same ↦
            inl (found_complete all_nodes id x up down (inr (subst (λ z. Related g z x) same r)))
        | inr later ↦ inr (y, later, r)
      ]
    ]);
    distinct = λ d. h.distinct (collect-Distinct all_nodes _ d);
  }

  close_over-Closes :
      (ids all_nodes : List String) (total : ℕ)
      → Closes all_nodes ids (close_over g o ids all_nodes total)
  unfolding close_over
  close_over-Closes [] all_nodes total = record {
    sound = λ x m. inl m;
    complete = λ l x m. elim m [ inl k ↦ k | inr (y, at, r) ↦ absurd at ];
    distinct = λ d. d;
  }
  close_over-Closes (id ∷ ids) all_nodes total =
      one (traverse_upstream g id o).limit (traverse_downstream g id o).limit refl refl
        (close_over-Closes ids (found_at all_nodes id) (cost_at total id))
    where
      one :
          (up down : Option Limit)
          → (traverse_upstream g id o).limit ≡ up
          → (traverse_downstream g id o).limit ≡ down
          → Closes
              (found_at all_nodes id)
              ids
              (close_over g o ids (found_at all_nodes id) (cost_at total id))
          → Closes all_nodes (id ∷ ids) (elim (first_limit up down) [
            | some l ↦ record {
              nodes = found_at all_nodes id;
              cost = cost_at total id;
              limit = some l;
            }
            | none ↦ close_over g o ids (found_at all_nodes id) (cost_at total id)
          ])
      one none none u d h = rest-Closes all_nodes ids id _ u d h
      one none (some l) u d h = record {
        sound = λ x m. found_sound all_nodes ids id x m;
        complete = λ e x m. cc e;
        distinct = λ q. collect-Distinct all_nodes _ q;
      }
      one (some l) down u d h = record {
        sound = λ x m. found_sound all_nodes ids id x m;
        complete = λ e x m. cc e;
        distinct = λ q. collect-Distinct all_nodes _ q;
      }

-- The nodes of a dependency closure are distinct nodes of the graph, each reached upstream or
-- downstream from one of the given nodes; when no limit was met they are all of these.
pub compute_dependency_closure-Related :
    (g : Graph) (ids : List String) (o : Options)
    → let t = compute_dependency_closure g ids o in
      Distinct t.nodes
      × ((x : String) → In x t.nodes → (id : String) × In id ids × Related g id x)
      × (t.limit ≡ none → (id x : String) → In id ids → Related g id x → In x t.nodes)
unfolding compute_dependency_closure
compute_dependency_closure-Related g ids o =
    let h = close_over-Closes g o ids [] 0 in
    (
      h.distinct tt,
      λ x m. elim (h.sound x m) [ inl none_ ↦ absurd none_ | inr r ↦ r ],
      λ l id x at r. h.complete l x (inr (id, at, r)),
    )

-- The traversals keep to their limits: at most `maxNodes` nodes, a cost of at most one more than
-- `maxCost`, and a limit is reported only where it was used up.
pub traverse_upstream-IsBounded :
    (g : Graph) (id : String) (o : Options)
    → IsBounded o.max_nodes o.max_cost (traverse_upstream g id o)
      × IsBounded o.max_nodes o.max_cost (traverse_downstream g id o)
unfolding traverse_upstream traverse_downstream
traverse_upstream-IsBounded g id o = (
  traverse-IsBounded (has_node g) (upstream_steps g) o.max_nodes o.max_cost 0 o.max_cost (begin id)
      (omega arith) (omega arith),
  traverse-IsBounded (has_node g) (downstream_steps g) o.max_nodes o.max_cost 0 o.max_cost
      (begin id) (omega arith) (omega arith),
)

-- Limits that leave room for the whole graph.
abbrev pub IsEnough : Graph → (String → List String) → Options → Type 0
IsEnough g steps o =
    (length (keys g.nodes) < o.max_nodes)
    × (suc (sum_of (λ id. length (steps id)) (keys g.nodes)) ≤ o.max_cost)

traverse_enough :
    (g : Graph) (o : Options) (id : String)
    → IsEnough g (upstream_steps g) o
    → IsEnough g (downstream_steps g) o
    → ((traverse_upstream g id o).limit ≡ none) × ((traverse_downstream g id o).limit ≡ none)
unfolding traverse_upstream traverse_downstream
traverse_enough g o id u d = (
  begin-unlimited (has_node g) (upstream_steps g) (keys g.nodes) (has-keys g.nodes) id o.max_nodes
      o.max_cost u.0 u.1,
  begin-unlimited (has_node g) (downstream_steps g) (keys g.nodes) (has-keys g.nodes) id o.max_nodes
      o.max_cost d.0 d.1,
)

close_over_enough :
    (g : Graph) (o : Options) (ids all_nodes : List String) (total : ℕ)
    → IsEnough g (upstream_steps g) o
    → IsEnough g (downstream_steps g) o
    → (close_over g o ids all_nodes total).limit ≡ none
unfolding close_over
close_over_enough g o [] all_nodes total u d = refl
close_over_enough g o (id ∷ ids) all_nodes total u d =
    let (up, down) = traverse_enough g o id u d in
    rw (up, down, close_over) (close_over_enough g o ids _ _ u d)

-- With more than as many nodes allowed as the graph has, and a cost that allows one turn for the
-- start and one for each step of the graph in either direction, no limit is met: the closure of any
-- nodes holds every node that one of them reaches upstream or downstream.
pub compute_dependency_closure_enough :
    (g : Graph) (ids : List String) (o : Options)
    → IsEnough g (upstream_steps g) o
    → IsEnough g (downstream_steps g) o
    → let t = compute_dependency_closure g ids o in
      (t.limit ≡ none)
      × ((x : String) → In x t.nodes ↔ ((id : String) × In id ids × Related g id x))
unfolding compute_dependency_closure
compute_dependency_closure_enough g ids o u d =
    let (_, sound, complete) = compute_dependency_closure-Related g ids o in
    let free = close_over_enough g o ids [] 0 u d in
    (free, λ x. (sound x, λ r. complete free r.0 x r.1 r.2))

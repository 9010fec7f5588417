-- ===== src/Closure/Complete.antt =====
-- A traversal of src/context/dependency-closure.js that meets no limit collects exactly the nodes
-- that its start reaches.
use wait_a_minute_plugin.Base.{
  ℕ, zero, suc, String, ◌≡◌, refl, sym, ap, ◌∙◌, subst, ◌↔◌, ◌⊎◌, inl, inr, Bool, true, false, not,
  none, some, List, [], ◌∷◌, ◌++◌, leb, Bool-cases, length, In, filter, In-filter, filter-In,
  includes, includes-In, In-append, Distinct, Distinct-snoc,
}
use wait_a_minute_plugin.Closure.{
  Traversal, Search, begin, visit, traverse, max_cost_limit, max_nodes_limit,
}

-- Reached from the start, every node but the last being one of the graph.
pub data Reach (known : String → Bool) (steps : String → List String) (start : String)
    : String → Type 0 where
  here : Reach known steps start start
  next :
      {a b : String}
      → Reach known steps start a
      → known a ≡ true
      → In b (steps a)
      → Reach known steps start b

module _ (known : String → Bool) (steps : String → List String) (start : String) where
  -- What holds before every turn.
  pub record IsSearch (s : Search) : Type 0 where
    pub collected : (x : String) → In x s.nodes → In x s.visited × (known x ≡ true)
    pub kept : (x : String) → In x s.visited → known x ≡ true → In x s.nodes
    pub queued : (x : String) → In x s.queue → Reach known steps start x
    pub seen : (x : String) → In x s.visited → Reach known steps start x
    pub begun : In start s.queue ⊎ In start s.visited
    pub closed :
        (x y : String)
        → In x s.visited
        → known x ≡ true
        → In y (steps x)
        → In y s.queue ⊎ In y s.visited
    pub distinct : Distinct s.nodes

  pub begin-IsSearch : IsSearch (begin start)
  begin-IsSearch = record {
    collected = λ x m. absurd m;
    kept = λ x m h. absurd m;
    queued = λ x m. elim m [
      | inl e ↦ subst (Reach known steps start) (sym e) here
      | inr none_ ↦ absurd none_
    ];
    seen = λ x m. absurd m;
    begun = inl (inl refl);
    closed = λ x y m h k. absurd m;
    distinct = tt;
  }

  -- A node that was the head of the queue and is visited now.
  moved :
      (id y : String) (rest visited : List String)
      → In id visited
      → In y (id ∷ rest) ⊎ In y visited
      → In y rest ⊎ In y visited
  moved id y rest visited at m = elim m [
    | inl q ↦ elim q [ inl e ↦ inr (subst (λ z. In z visited) (sym e) at) | inr later ↦ inl later ]
    | inr v ↦ inr v
  ]

  skip-IsSearch :
      (id : String) (rest : List String) (s : Search)
      → s.queue ≡ id ∷ rest
      → In id s.visited
      → IsSearch s
      → IsSearch (record s { queue = rest })
  skip-IsSearch id rest s q at h = record {
    collected = h.collected;
    kept = h.kept;
    queued = λ x m. h.queued x (subst (In x) (sym q) (inr m));
    seen = h.seen;
    begun =
        moved id start rest s.visited at (subst (λ z. In start z ⊎ In start s.visited) q h.begun);
    closed = λ x y m k i.
        moved id y rest s.visited at (subst (λ z. In y z ⊎ In y s.visited) q (h.closed x y m k i));
    distinct = h.distinct;
  }

  -- The head is marked visited, and so is nothing else.
  marked :
      (id : String) (rest : List String) (s : Search)
      → s.queue ≡ id ∷ rest
      → IsSearch s
      → (x : String) → In x (id ∷ s.visited)
      → Reach known steps start x
  marked id rest s q h x m = elim m [
    | inl e ↦ h.queued x (subst (In x) (sym q) (inl e))
    | inr v ↦ h.seen x v
  ]

  head_begun :
      (id : String) (rest : List String) (s : Search)
      → s.queue ≡ id ∷ rest
      → IsSearch s
      → In start rest ⊎ In start (id ∷ s.visited)
  head_begun id rest s q h =
      moved id start rest (id ∷ s.visited) (inl refl)
        (elim (subst (λ z. In start z ⊎ In start s.visited) q h.begun) [
          | inl k ↦ inl k
          | inr k ↦ inr (inr k)
        ])

  -- The steps of the nodes visited before.
  old_closed :
      (id : String) (rest : List String) (s : Search)
      → s.queue ≡ id ∷ rest
      → IsSearch s
      → (x y : String) → In x s.visited
      → known x ≡ true
      → In y (steps x)
      → In y rest ⊎ In y (id ∷ s.visited)
  old_closed id rest s q h x y v k i =
      moved id y rest (id ∷ s.visited) (inl refl)
        (elim (subst (λ z. In y z ⊎ In y s.visited) q (h.closed x y v k i)) [
          | inl a ↦ inl a
          | inr a ↦ inr (inr a)
        ])

  unknown-IsSearch :
      (id : String) (rest : List String) (s : Search)
      → s.queue ≡ id ∷ rest
      → known id ≡ false
      → IsSearch s
      → IsSearch (record s { queue = rest; visited = id ∷ s.visited })
  unknown-IsSearch id rest s q u h = record {
    collected = λ x m. let (v, k) = h.collected x m in (inr v, k);
    kept = λ x m k. elim m [ inl e ↦ absurd (clash x e k) | inr v ↦ h.kept x v k ];
    queued = λ x m. h.queued x (subst (In x) (sym q) (inr m));
    seen = marked id rest s q h;
    begun = head_begun id rest s q h;
    closed = λ x y m k i. elim m [
      | inl e ↦ absurd (clash x e k)
      | inr v ↦ old_closed id rest s q h x y v k i
    ];
    distinct = h.distinct;
  }
    where
      clash : (x : String) → x ≡ id → known x ≡ true → ⊥
      clash x e k = cc (ap (λ z. known z) e, k, u)

  known-IsSearch :
      (id : String) (rest : List String) (s : Search)
      → s.queue ≡ id ∷ rest
      → includes s.visited id ≡ false
      → known id ≡ true
      → IsSearch s
      → IsSearch (record {
        queue = rest ++ filter (λ b. not (includes (id ∷ s.visited) b)) (steps id);
        visited = id ∷ s.visited;
        nodes = s.nodes ++ id ∷ [];
      })
  known-IsSearch id rest s q new_ k h = record {
    collected = λ x m. elim ((In-append s.nodes (id ∷ []) x).0 m) [
      | inl old ↦ let (v, there) = h.collected x old in (inr v, there)
      | inr one ↦ elim one [ inl e ↦ (inl e, ap (λ z. known z) e ∙ k) | inr none_ ↦ absurd none_ ]
    ];
    kept = λ x m there.
        (In-append s.nodes (id ∷ []) x).1
          (elim m [ inl e ↦ inr (inl e) | inr v ↦ inl (h.kept x v there) ]);
    queued = λ x m. elim ((In-append rest _ x).0 m) [
      | inl old ↦ h.queued x (subst (In x) (sym q) (inr old))
      | inr pushed ↦ next at k (In-filter _ (steps id) x pushed).0
    ];
    seen = marked id rest s q h;
    begun = wide start (head_begun id rest s q h);
    closed = λ x y m there i. elim m [
      | inl e ↦ pushed_or_seen y (subst (λ z. In y (steps z)) e i)
      | inr v ↦ wide y (old_closed id rest s q h x y v there i)
    ];
    distinct =
        Distinct-snoc s.nodes id h.distinct
          (λ m. cc ((includes-In s.visited id).1 (h.collected id m).0, new_));
  }
    where
      pushed : List String
      pushed = filter (λ b. not (includes (id ∷ s.visited) b)) (steps id)

      at : Reach known steps start id
      at = h.queued id (subst (In id) (sym q) (inl refl))

      wide :
          (y : String)
          → In y rest ⊎ In y (id ∷ s.visited)
          → In y (rest ++ pushed) ⊎ In y (id ∷ s.visited)
      wide y m = elim m [ inl a ↦ inl ((In-append rest pushed y).1 (inl a)) | inr a ↦ inr a ]

      pushed_or_seen :
          (y : String) → In y (steps id) → In y (rest ++ pushed) ⊎ In y (id ∷ s.visited)
      pushed_or_seen y i = elim (Bool-cases (includes (id ∷ s.visited) y)) [
        | inl e ↦ inr ((includes-In (id ∷ s.visited) y).0 e)
        | inr e ↦ inl ((In-append rest pushed y).1 (inr (filter-In _ (steps id) y i (ap not e))))
      ]

  pub visit-IsSearch :
      (id : String) (rest : List String) (s : Search)
      → s.queue ≡ id ∷ rest
      → IsSearch s
      → IsSearch (visit known steps id rest s)
  unfolding visit
  visit-IsSearch id rest s q h = one (includes s.visited id) refl (known id) refl
    where
      one :
          (seen : Bool)
          → includes s.visited id ≡ seen
          → (there : Bool) → known id ≡ there
          → IsSearch (elim seen [
            | true ↦ record s { queue = rest }
            | false ↦ elim there [
              | false ↦ record s { queue = rest; visited = id ∷ s.visited }
              | true ↦ record {
                queue = rest ++ filter (λ b. not (includes (id ∷ s.visited) b)) (steps id);
                visited = id ∷ s.visited;
                nodes = s.nodes ++ id ∷ [];
              }
            ]
          ])
      one true e there k = skip-IsSearch id rest s q ((includes-In s.visited id).0 e) h
      one false e false k = unknown-IsSearch id rest s q k h
      one false e true k = known-IsSearch id rest s q e k h

  -- A traversal ends in a search that still satisfies all this, and with an empty queue unless it
  -- met a limit.
  pub traverse_ends :
      (max_nodes left cost : ℕ) (s : Search)
      → IsSearch s
      → let t = traverse known steps max_nodes left cost s in
        (end : Search) × IsSearch end × (t.nodes ≡ end.nodes) × (t.limit ≡ none → end.queue ≡ [])
  unfolding traverse
  traverse_ends max_nodes zero cost s h = one s.queue refl
    where
      one :
          (q : List String)
          → s.queue ≡ q
          → let t : Traversal = elim q [
            | [] ↦ record { nodes = s.nodes; cost = cost; limit = none }
            | id ∷ rest ↦ record { nodes = s.nodes; cost = suc cost; limit = some max_cost_limit }
          ] in
            (end : Search) × IsSearch end
            × (t.nodes ≡ end.nodes)
            × (t.limit ≡ none → end.queue ≡ [])
      one [] e = (s, h, refl, λ l. e)
      one (id ∷ rest) e = (s, h, refl, λ l. cc l)
  traverse_ends max_nodes (suc left) cost s h =
      one
        (λ id rest e.
          traverse_ends max_nodes left (suc cost) (visit known steps id rest s)
            (visit-IsSearch id rest s e h))
        s.queue refl (leb max_nodes (length s.nodes))
    where
      one :
          ((id : String) (rest : List String)
            → s.queue ≡ id ∷ rest
            → let t =
                traverse known steps max_nodes left (suc cost) (visit known steps id rest s) in
              (end : Search) × IsSearch end
              × (t.nodes ≡ end.nodes)
              × (t.limit ≡ none → end.queue ≡ []))
          → (q : List String) → s.queue ≡ q
          → (full : Bool)
          → let t : Traversal = elim q [
            | [] ↦ record { nodes = s.nodes; cost = cost; limit = none }
            | id ∷ rest ↦ elim full [
              | true ↦ record { nodes = s.nodes; cost = suc cost; limit = some max_nodes_limit }
              | false ↦ traverse known steps max_nodes left (suc cost) (visit known steps id rest s)
            ]
          ] in
            (end : Search) × IsSearch end
            × (t.nodes ≡ end.nodes)
            × (t.limit ≡ none → end.queue ≡ [])
      one go [] e full = (s, h, refl, λ l. e)
      one go (id ∷ rest) e true = (s, h, refl, λ l. cc l)
      one go (id ∷ rest) e false = go id rest e

  -- Whatever limit stops it, a traversal collects nodes of the graph that are reached, each once.
  pub traverse_sound :
      (max_nodes max_cost : ℕ)
      → let t = traverse known steps max_nodes max_cost 0 (begin start) in
        ((x : String) → In x t.nodes → Reach known steps start x × (known x ≡ true))
        × Distinct t.nodes
  traverse_sound max_nodes max_cost =
      let (end, h, same, _) = traverse_ends max_nodes max_cost 0 (begin start) begin-IsSearch in
      (
        λ x m. let (v, k) = h.collected x (subst (In x) same m) in (h.seen x v, k),
        subst Distinct (sym same) h.distinct,
      )

  all_seen :
      (s : Search)
      → IsSearch s
      → s.queue ≡ []
      → (x : String) → Reach known steps start x
      → In x s.visited
  all_seen s h q x here = elim h.begun [ inl m ↦ absurd (subst (In start) q m) | inr v ↦ v ]
  all_seen s h q x (next {a} r k i) = elim (h.closed a x (all_seen s h q a r) k i) [
    | inl m ↦ absurd (subst (In x) q m)
    | inr v ↦ v
  ]

  -- And without a limit, all of them.
  pub traverse_complete :
      (max_nodes max_cost : ℕ)
      → let t = traverse known steps max_nodes max_cost 0 (begin start) in
        t.limit ≡ none
        → (x : String) → In x t.nodes ↔ (Reach known steps start x × (known x ≡ true))
  traverse_complete max_nodes max_cost l x =
      let (end, h, same, emptied) =
        traverse_ends max_nodes max_cost 0 (begin start) begin-IsSearch in
      (
        (traverse_sound max_nodes max_cost).0 x,
        λ r. subst (In x) (sym same) (h.kept x (all_seen end h (emptied l) x r.0) r.1),
      )

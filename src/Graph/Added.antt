-- ===== src/Graph/Added.antt =====
-- `addEdge` of src/context/context-graph.js: what it refuses, what it stores, and that it keeps
-- the two indexes of a stored graph in step.
use wait_a_minute_plugin.Base.{
  String, ◌≡◌, refl, sym, ap, ◌∙◌, subst, ◌↔◌, ◌⊎◌, inl, inr, Bool, true, false, not, none, some,
  List, [], ◌∷◌, ◌++◌, arith, eq_iff, eq_refl, ◌=?◌, if◌then◌else◌, Bool-cases, In, any, any-append,
  includes, ok, of_not_true, or_false_parts, and_true_parts, eq_of_iff, not_any-In, not_any_of_In,
}
use wait_a_minute_plugin.Base.Dict.{get, set, has, get-set}
use wait_a_minute_plugin.Graph.{
  Edge, EdgeInput, Graph, edge_types, validate_edge, list_or_empty, get_edges_from, get_edges_to,
  store_edge, add_edge, entry_of, source, target, Error, invalid_edge_type, edge_from_required,
  edge_to_required,
}
use wait_a_minute_plugin.Graph.Stored.{twin, Unique, IsStored}

pub In-snoc : (x y : Edge) (es : List Edge) → In x (es ++ y ∷ []) ↔ (In x es ⊎ (x ≡ y))
In-snoc x y [] = (
  λ m. elim m [ inl e ↦ inr e | inr n ↦ absurd n ],
  λ m. elim m [ inl n ↦ absurd n | inr e ↦ inl e ],
)
In-snoc x y (e ∷ es) = (
  λ m. elim m [
    | inl h ↦ inl (inl h)
    | inr n ↦ elim ((In-snoc x y es).0 n) [ inl k ↦ inl (inr k) | inr k ↦ inr k ]
  ],
  λ m. elim m [
    | inl h ↦ elim h [ inl k ↦ inl k | inr k ↦ inr ((In-snoc x y es).1 (inl k)) ]
    | inr h ↦ inr ((In-snoc x y es).1 (inr h))
  ],
)

twin_sym : (other : Edge → String) (a b : Edge) → twin other a b ≡ twin other b a
twin_sym other a b = eq_of_iff _ _ (
  λ h. ground (
    arith,
    eq_iff (other a) (other b),
    eq_iff (other b) (other a),
    eq_iff a.kind b.kind,
    eq_iff b.kind a.kind,
  ),
  λ h. ground (
    arith,
    eq_iff (other a) (other b),
    eq_iff (other b) (other a),
    eq_iff a.kind b.kind,
    eq_iff b.kind a.kind,
  ),
)

Unique-snoc :
    (other : Edge → String) (es : List Edge) (y : Edge)
    → Unique other es
    → any (twin other y) es ≡ false
    → Unique other (es ++ y ∷ [])
Unique-snoc other [] y u h = (refl, tt)
Unique-snoc other (e ∷ es) y u h =
    let (a, b) = or_false_parts (twin other y e) _ h in
    (
      any-append (twin other e) es (y ∷ []) ∙ rw (u.0, twin_sym other e y, a),
      Unique-snoc other es y u.1 b,
    )

-- A family of lists of which one got a new last edge.
module _ (key : String) (e : Edge) (before after : String → List Edge)
    (written : (k : String) → after k ≡ (if key =? k then before key ++ e ∷ [] else before k)) where
  In-written : (k : String) (x : Edge) → In x (after k) ↔ (In x (before k) ⊎ ((x ≡ e) × (key ≡ k)))
  In-written k x = elim (Bool-cases (key =? k)) [
    | inl same ↦
        let own = (eq_iff key k).0 same in
        rw (written k, same)
          (
            λ m. elim ((In-snoc x e (before key)).0 m) [
              | inl old ↦ inl (subst (λ y. In x (before y)) own old)
              | inr new_ ↦ inr (new_, own)
            ],
            λ m. (In-snoc x e (before key)).1 (elim m [
              | inl old ↦ inl (subst (λ y. In x (before y)) (sym own) old)
              | inr new_ ↦ inr new_.0
            ]),
          )
    | inr other ↦
        rw (written k, other)
          (
            λ m. inl m,
            λ m. elim m [ inl old ↦ old | inr new_ ↦ cc (other, (eq_iff key k).1 new_.1) ],
          )
  ]

  Unique-written :
      (other : Edge → String)
      → any (twin other e) (before key) ≡ false
      → ((k : String) → Unique other (before k))
      → (k : String) → Unique other (after k)
  Unique-written other fresh unique k = elim (Bool-cases (key =? k)) [
    | inl same ↦ rw (written k, same) (Unique-snoc other (before key) e (unique key) fresh)
    | inr differ ↦ rw (written k, differ) (unique k)
  ]

-- The graph behind a write of an edge that was not there.
module _ (g : Graph) (e : Edge) (s : IsStored g) where
  abbrev stored : Graph
  stored = record g {
    edges_from = set g.edges_from e.from (get_edges_from g e.from ++ e ∷ []);
    edges_to = set g.edges_to e.to (get_edges_to g e.to ++ e ∷ []);
  }

  from-written :
      (k : String)
      → get_edges_from stored k
        ≡ (if e.from =? k then get_edges_from g e.from ++ e ∷ [] else get_edges_from g k)
  unfolding get_edges_from
  from-written k =
      rw (get-set g.edges_from e.from (list_or_empty (get g.edges_from e.from) ++ e ∷ []) k)
        (ground arith)

  to-written :
      (k : String)
      → get_edges_to stored k
        ≡ (if e.to =? k then get_edges_to g e.to ++ e ∷ [] else get_edges_to g k)
  unfolding get_edges_to
  to-written k =
      rw (get-set g.edges_to e.to (list_or_empty (get g.edges_to e.to) ++ e ∷ []) k) (ground arith)

  In-from :
      (k : String) (x : Edge)
      → In x (get_edges_from stored k) ↔ (In x (get_edges_from g k) ⊎ ((x ≡ e) × (e.from ≡ k)))
  In-from = In-written e.from e (get_edges_from g) (get_edges_from stored) from-written

  In-to :
      (k : String) (x : Edge)
      → In x (get_edges_to stored k) ↔ (In x (get_edges_to g k) ⊎ ((x ≡ e) × (e.to ≡ k)))
  In-to = In-written e.to e (get_edges_to g) (get_edges_to stored) to-written

  fresh_in :
      any (twin target e) (get_edges_from g e.from) ≡ false
      → any (twin source e) (get_edges_to g e.to) ≡ false
  fresh_in fresh = not_any_of_In (twin source e) _ λ x m. of_not_true _ λ same.
      let (from_, kind_) = and_true_parts _ _ same in
      let at_source =
        subst (λ y. In x (get_edges_from g y)) ((eq_iff x.from e.from).0 from_)
          (s.in_out e.to x m) in
      let clear = not_any-In (twin target e) _ x fresh at_source in
      ground (arith, s.in_own e.to x m, eq_iff x.to e.to)

  store-IsStored :
      any (twin target e) (get_edges_from g e.from) ≡ false
      → has g.nodes e.from ≡ true
      → has g.nodes e.to ≡ true
      → includes edge_types e.kind ≡ true
      → IsStored stored
  store-IsStored fresh source_there target_there kind_known = record {
    keyed = s.keyed;
    out_own = λ k x m. elim ((In-from k x).0 m) [
      | inl old ↦ s.out_own k x old
      | inr new_ ↦ ap (λ y. y.from) new_.0 ∙ new_.1
    ];
    in_own = λ k x m. elim ((In-to k x).0 m) [
      | inl old ↦ s.in_own k x old
      | inr new_ ↦ ap (λ y. y.to) new_.0 ∙ new_.1
    ];
    out_in = λ k x m. (In-to x.to x).1 (elim ((In-from k x).0 m) [
      | inl old ↦ inl (s.out_in k x old)
      | inr new_ ↦ inr (new_.0, ap (λ y. y.to) (sym new_.0))
    ]);
    in_out = λ k x m. (In-from x.from x).1 (elim ((In-to k x).0 m) [
      | inl old ↦ inl (s.in_out k x old)
      | inr new_ ↦ inr (new_.0, ap (λ y. y.from) (sym new_.0))
    ]);
    closed = λ k x m. elim ((In-from k x).0 m) [
      | inl old ↦ s.closed k x old
      | inr new_ ↦
          subst (λ y. (has g.nodes y.from ≡ true) × (has g.nodes y.to ≡ true)) (sym new_.0)
            (source_there, target_there)
    ];
    typed = λ k x m. elim ((In-from k x).0 m) [
      | inl old ↦ s.typed k x old
      | inr new_ ↦ subst (λ y. includes edge_types y.kind ≡ true) (sym new_.0) kind_known
    ];
    unique_out =
        Unique-written e.from e (get_edges_from g) (get_edges_from stored) from-written target fresh
          s.unique_out;
    unique_in =
        Unique-written e.to e (get_edges_to g) (get_edges_to stored) to-written source
          (fresh_in fresh) s.unique_in;
  }

-- A written edge is in the list of its source.
pub appended :
    (g : Graph) (e : Edge)
    → In e (
        get_edges_from
          (record g {
            edges_from = set g.edges_from e.from (get_edges_from g e.from ++ e ∷ []);
            edges_to = set g.edges_to e.to (get_edges_to g e.to ++ e ∷ []);
          })
          e.from)
unfolding get_edges_from
appended g e =
    rw
      (
        get-set g.edges_from e.from (list_or_empty (get g.edges_from e.from) ++ e ∷ []) e.from,
        eq_refl e.from,
      )
      ((In-snoc e e _).1 (inr refl))

pub store_edge-cases :
    (g : Graph) (e : Edge)
    → ((any (twin target e) (get_edges_from g e.from) ≡ true) × (store_edge g e ≡ g))
      ⊎ ((any (twin target e) (get_edges_from g e.from) ≡ false)
          × (store_edge g e ≡ record g {
            edges_from = set g.edges_from e.from (get_edges_from g e.from ++ e ∷ []);
            edges_to = set g.edges_to e.to (get_edges_to g e.to ++ e ∷ []);
          }))
unfolding store_edge
store_edge-cases g e = elim (Bool-cases (any (twin target e) (get_edges_from g e.from))) [
  | inl old ↦ inl (old, rw old)
  | inr new_ ↦ inr (new_, rw new_)
]

pub add_edge_parts :
    (g g' : Graph) (e : EdgeInput) (x : Edge)
    → add_edge g e ≡ ok (x, g')
    → (validate_edge e ≡ none)
      × (has g.nodes e.from ≡ true)
      × (has g.nodes e.to ≡ true)
      × (x ≡ entry_of e)
      × (g' ≡ store_edge g (entry_of e))
unfolding add_edge
add_edge_parts g g' e x h = ground arith

guards_passed :
    (a b c : Bool) (x y z : Error)
    → (if a then some x else if b then some y else if not c then some z else none) ≡ none
    → c ≡ true
guards_passed a b c x y z h = ground arith

kind_of_valid : (e : EdgeInput) → validate_edge e ≡ none → includes edge_types e.kind ≡ true
unfolding validate_edge
kind_of_valid e h =
    guards_passed (e.from =? "") (e.to =? "") (includes edge_types e.kind) edge_from_required
      edge_to_required (invalid_edge_type e.kind) h

-- `addEdge` keeps a graph stored.
pub add_edge-IsStored :
    (g g' : Graph) (e : EdgeInput) (x : Edge) → add_edge g e ≡ ok (x, g') → IsStored g → IsStored g'
add_edge-IsStored g g' e x h s =
    let (valid, from_there, to_there, _, written) = add_edge_parts g g' e x h in
    subst IsStored (sym written) (elim (store_edge-cases g (entry_of e)) [
      | inl old ↦ subst IsStored (sym old.1) s
      | inr new_ ↦
          subst IsStored (sym new_.1)
            (store-IsStored g (entry_of e) s new_.0 from_there to_there (kind_of_valid e valid))
    ])

-- ===== src/Closure/Enough.antt =====
-- Limits large enough for a graph: a traversal of src/context/dependency-closure.js under more nodes
-- than the graph has, and a cost of one turn for the start and one for every step of a node, meets
-- none.
use wait_a_minute_plugin.Base.{
  ℕ, zero, suc, ◌+◌, ◌≤◌, ◌<◌, String, ◌≡◌, refl, ap, inl, inr, Bool, true, false, not, none, some,
  List, [], ◌∷◌, ◌++◌, arith, eq_iff, leb, if◌then◌else◌, leb→le, length, In, filter, length-append,
  length-filter-le, includes,
}
use wait_a_minute_plugin.Closure.{
  Traversal, Search, begin, visit, traverse, max_cost_limit, max_nodes_limit,
}

-- The sum of a measure over the keys that are not visited yet.
unfoldable open_sum : (String → ℕ) → List String → List String → ℕ
open_sum f [] visited = 0
open_sum f (k ∷ keys) visited = (if includes visited k then 0 else f k) + open_sum f keys visited

open_sum-mark :
    (f : String → ℕ) (keys visited : List String) (id : String)
    → open_sum f keys (id ∷ visited) ≤ open_sum f keys visited
unfolding open_sum
open_sum-mark f [] visited id = omega arith
open_sum-mark f (k ∷ keys) visited id = ground (arith, open_sum-mark f keys visited id)

-- A key visited for the first time takes its measure off the sum.
open_sum-visit :
    (f : String → ℕ) (keys visited : List String) (id : String)
    → In id keys
    → includes visited id ≡ false
    → open_sum f keys (id ∷ visited) + f id ≤ open_sum f keys visited
unfolding open_sum
open_sum-visit f [] visited id m new_ = absurd m
open_sum-visit f (k ∷ keys) visited id m new_ = elim m [
  | inl e ↦ ground (
    arith,
    open_sum-mark f keys visited id,
    (eq_iff id k).1 e,
    ap (λ x. includes visited x) e,
    ap f e,
  )
  | inr later ↦ ground (arith, open_sum-visit f keys visited id later new_)
]

-- The sum of a measure over all keys.
unfoldable pub sum_of : (String → ℕ) → List String → ℕ
sum_of f [] = 0
sum_of f (k ∷ keys) = f k + sum_of f keys

open_sum-none : (f : String → ℕ) (keys : List String) → open_sum f keys [] ≡ sum_of f keys
unfolding open_sum sum_of
open_sum-none f [] = refl
open_sum-none f (k ∷ keys) = ap (λ n. f k + n) (open_sum-none f keys)

sum_of_one : (keys : List String) → sum_of (λ _. 1) keys ≡ length keys
unfolding sum_of
sum_of_one [] = refl
sum_of_one (k ∷ keys) = omega (arith, sum_of_one keys)

module _ (known : String → Bool) (steps : String → List String) (keys : List String)
    (covers : (x : String) → known x ≡ true → In x keys) where
  abbrev fan_out : String → ℕ
  fan_out x = length (steps x)

  -- The turns that a search can still take, and the nodes that it can still hold.
  abbrev turns : Search → ℕ
  turns s = length s.queue + open_sum fan_out keys s.visited

  abbrev room : Search → ℕ
  room s = length s.nodes + open_sum (λ _. 1) keys s.visited

  visit-spends :
      (id : String) (rest : List String) (s : Search)
      → s.queue ≡ id ∷ rest
      → (suc (turns (visit known steps id rest s)) ≤ turns s)
        × (room (visit known steps id rest s) ≤ room s)
  unfolding visit
  visit-spends id rest s q = one (includes s.visited id) refl (known id) refl
    where
      queued : length s.queue ≡ suc (length rest)
      queued = ap length q

      one :
          (seen : Bool)
          → includes s.visited id ≡ seen
          → (there : Bool) → known id ≡ there
          → let s' : Search = elim seen [
            | true ↦ record s { queue = rest }
            | false ↦ elim there [
              | false ↦ record s { queue = rest; visited = id ∷ s.visited }
              | true ↦ record {
                queue = rest ++ filter (λ b. not (includes (id ∷ s.visited) b)) (steps id);
                visited = id ∷ s.visited;
                nodes = s.nodes ++ id ∷ [];
              }
            ]
          ] in
            (suc (turns s') ≤ turns s) × (room s' ≤ room s)
      one true e there k = (omega (arith, queued), omega arith)
      one false e false k = (
        omega (arith, queued, open_sum-mark fan_out keys s.visited id),
        omega (arith, open_sum-mark (λ _. 1) keys s.visited id),
      )
      one false e true k = (
        omega (
          arith,
          queued,
          open_sum-visit fan_out keys s.visited id (covers id k) e,
          length-append rest (filter (λ b. not (includes (id ∷ s.visited) b)) (steps id)),
          length-filter-le (λ b. not (includes (id ∷ s.visited) b)) (steps id),
        ),
        omega (
          arith,
          length-append s.nodes (id ∷ []),
          open_sum-visit (λ _. 1) keys s.visited id (covers id k) e,
        ),
      )

  traverse-unlimited :
      (max_nodes left cost : ℕ) (s : Search)
      → suc (room s) ≤ max_nodes
      → turns s ≤ left
      → (traverse known steps max_nodes left cost s).limit ≡ none
  unfolding traverse
  traverse-unlimited max_nodes zero cost s few cheap = one s.queue refl
    where
      one :
          (q : List String)
          → s.queue ≡ q
          → let t : Traversal = elim q [
            | [] ↦ record { nodes = s.nodes; cost = cost; limit = none }
            | id ∷ rest ↦ record { nodes = s.nodes; cost = suc cost; limit = some max_cost_limit }
          ] in
            t.limit ≡ none
      one [] e = refl
      one (id ∷ rest) e = absurd (omega (arith, ap length e))
  traverse-unlimited max_nodes (suc left) cost s few cheap =
      one s.queue refl (leb max_nodes (length s.nodes)) refl (λ id rest e.
        let (spent, held) = visit-spends id rest s e in
        traverse-unlimited max_nodes left (suc cost) (visit known steps id rest s)
          (omega (arith, held)) (omega (arith, spent)))
    where
      one :
          (q : List String)
          → s.queue ≡ q
          → (full : Bool) → leb max_nodes (length s.nodes) ≡ full
          → ((id : String) (rest : List String)
              → s.queue ≡ id ∷ rest
              → (traverse known steps max_nodes left (suc cost) (visit known steps id rest s)).limit
                ≡ none)
          → let t : Traversal = elim q [
            | [] ↦ record { nodes = s.nodes; cost = cost; limit = none }
            | id ∷ rest ↦ elim full [
              | true ↦ record { nodes = s.nodes; cost = suc cost; limit = some max_nodes_limit }
              | false ↦ traverse known steps max_nodes left (suc cost) (visit known steps id rest s)
            ]
          ] in
            t.limit ≡ none
      one [] e full f go = refl
      one (id ∷ rest) e true f go = absurd (omega (arith, leb→le max_nodes (length s.nodes) f))
      one (id ∷ rest) e false f go = go id rest e

  -- The limits that are enough for a traversal from any node.
  pub begin-unlimited :
      (start : String) (max_nodes max_cost : ℕ)
      → length keys < max_nodes
      → suc (sum_of fan_out keys) ≤ max_cost
      → (traverse known steps max_nodes max_cost 0 (begin start)).limit ≡ none
  begin-unlimited start max_nodes max_cost few cheap =
      traverse-unlimited max_nodes max_cost 0 (begin start)
        (omega (arith, open_sum-none (λ _. 1) keys, sum_of_one keys))
        (omega (arith, open_sum-none fan_out keys))

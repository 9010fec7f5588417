-- ===== src/Closure/Limits.antt =====
-- The safety limits of src/context/dependency-closure.js: how far a traversal can go before one
-- stops it, and limits under which none does.
use wait_a_minute_plugin.Base.{
  ℕ, zero, suc, ◌+◌, ◌≤◌, String, ◌≡◌, refl, Bool, true, false, not, none, some, List, [], ◌∷◌,
  ◌++◌, arith, leb, leb→le, length, filter, length-append, includes,
}
use wait_a_minute_plugin.Closure.{
  Traversal, Search, visit, traverse, max_cost_limit, max_nodes_limit,
}

-- What the limits promise of a result, for a traversal with this much of its cost left.
pub record IsBounded (max_nodes bound : ℕ) (t : Traversal) : Type 0 where
  pub few : length t.nodes ≤ max_nodes
  pub cheap : t.cost ≤ suc bound
  pub by_cost : t.limit ≡ some max_cost_limit → t.cost ≡ suc bound
  pub by_nodes : t.limit ≡ some max_nodes_limit → length t.nodes ≡ max_nodes

module _ (known : String → Bool) (steps : String → List String) where
  visit-length :
      (id : String) (rest : List String) (s : Search)
      → length (visit known steps id rest s).nodes ≤ suc (length s.nodes)
  unfolding visit
  visit-length id rest s = one (includes s.visited id) (known id)
    where
      one :
          (seen there : Bool)
          → let s' : Search = elim seen [
            | true ↦ record s { queue = rest }
            | false ↦ elim there [
              | false ↦ record s { queue = rest; visited = id ∷ s.visited }
              | true ↦ record {
                queue = rest ++ filter (λ b. not (includes (id ∷ s.visited) b)) (steps id);
                visited = id ∷ s.visited;
                nodes = s.nodes ++ id ∷ [];
              }
            ]
          ] in
            length s'.nodes ≤ suc (length s.nodes)
      one true there = omega arith
      one false false = omega arith
      one false true = omega (arith, length-append s.nodes (id ∷ []))

  pub traverse-IsBounded :
      (max_nodes left cost bound : ℕ) (s : Search)
      → length s.nodes ≤ max_nodes
      → cost + left ≡ bound
      → IsBounded max_nodes bound (traverse known steps max_nodes left cost s)
  unfolding traverse
  traverse-IsBounded max_nodes zero cost bound s few sum = one s.queue
    where
      one :
          (q : List String)
          → IsBounded max_nodes bound (elim q [
            | [] ↦ record { nodes = s.nodes; cost = cost; limit = none }
            | id ∷ rest ↦ record { nodes = s.nodes; cost = suc cost; limit = some max_cost_limit }
          ])
      one [] = record { few = few; cheap = omega arith; by_cost = λ l. cc l; by_nodes = λ l. cc l }
      one (id ∷ rest) = record {
        few = few;
        cheap = omega arith;
        by_cost = λ l. omega arith;
        by_nodes = λ l. cc l;
      }
  traverse-IsBounded max_nodes (suc left) cost bound s few sum =
      one s.queue (leb max_nodes (length s.nodes)) refl (λ id rest room.
        traverse-IsBounded max_nodes left (suc cost) bound (visit known steps id rest s)
          (omega (arith, visit-length id rest s, room)) (omega arith))
    where
      one :
          (q : List String) (full : Bool)
          → leb max_nodes (length s.nodes) ≡ full
          → ((id : String) (rest : List String)
              → suc (length s.nodes) ≤ max_nodes
              → IsBounded max_nodes bound
                  (traverse known steps max_nodes left (suc cost) (visit known steps id rest s)))
          → IsBounded max_nodes bound (elim q [
            | [] ↦ record { nodes = s.nodes; cost = cost; limit = none }
            | id ∷ rest ↦ elim full [
              | true ↦ record { nodes = s.nodes; cost = suc cost; limit = some max_nodes_limit }
              | false ↦ traverse known steps max_nodes left (suc cost) (visit known steps id rest s)
            ]
          ])
      one [] full e go = record {
        few = few;
        cheap = omega arith;
        by_cost = λ l. cc l;
        by_nodes = λ l. cc l;
      }
      one (id ∷ rest) true e go = record {
        few = few;
        cheap = omega arith;
        by_cost = λ l. cc l;
        by_nodes = λ l. omega (arith, leb→le max_nodes (length s.nodes) e);
      }
      one (id ∷ rest) false e go = go id rest (ground arith)

-- ===== src/Lifecycle/Traced.antt =====
-- Histories of src/context/context-lifecycle.js: what an item's own record of its moves says, and that
-- the ends are final.
use wait_a_minute_plugin.Base.{
  ℕ, String, ◌≡◌, refl, sym, subst, true, false, ◌||◌, Option, none, some, List, [], ◌∷◌, ◌++◌,
  arith, ok,
}
use wait_a_minute_plugin.ContextItem.{
  State, created, active, Entry, Change, changed, Item, state_or_created, history_or_none,
}
use wait_a_minute_plugin.Lifecycle.{Meta, transition, is_terminal, same, is_usable}
use wait_a_minute_plugin.Lifecycle.Edges.{Leads, start, given, moved_item, transition-Leads}

-- Items that transitions make of an item, under metadata that brings no states of its own.
pub data Moved (item : Item) : Item → Type 0 where
  unmoved : Moved item item
  moved :
      {x y : Item} (next : State) (meta : Meta) (now : ℕ)
      → Moved item x
      → meta.from ≡ none
      → meta.to ≡ none
      → transition x next meta now ≡ ok y
      → Moved item y

-- Entries that lead from one state to another along edges of the lifecycle.
pub data Trail : State → List Entry → State → Type 0 where
  no_moves : {a : State} → Trail a [] a
  then_ :
      {a : State} {es : List Entry} (e : Change)
      → Trail a es e.from
      → Leads e.from e.to
      → Trail a (es ++ changed e ∷ []) e.to

given-Trail :
    (a f : State) (es : List Entry) (next : State) (mf mt : Option State) (t : ℕ)
    (r ac : Option String) (tm : Option ℕ)
    → mf ≡ none
    → mt ≡ none
    → Trail a es f
    → Leads f next
    → Trail a
        (es
          ++ changed (record {
            from = given mf f;
            to = given mt next;
            ts = t;
            reason = r;
            actor = ac;
            timestamp = tm;
          })
            ∷ [])
        next
given-Trail a f es next none none t r ac tm no_from no_to trail edge =
    then_ (record { from = f; to = next; ts = t; reason = r; actor = ac; timestamp = tm }) trail
      edge
given-Trail a f es next (some x) mt t r ac tm no_from no_to trail edge = cc no_from
given-Trail a f es next none (some x) t r ac tm no_from no_to trail edge = cc no_to

one_more :
    (a : State) (x : Item) (next : State) (meta : Meta) (now : ℕ)
    → meta.from ≡ none
    → meta.to ≡ none
    → Trail a (history_or_none x.lifecycle_history) (state_or_created x.lifecycle)
    → Leads (state_or_created x.lifecycle) next
    → Trail a
        (history_or_none (moved_item x next meta now).lifecycle_history)
        (state_or_created (moved_item x next meta now).lifecycle)
one_more a x next meta now no_from no_to trail edge =
    given-Trail a (state_or_created x.lifecycle) (history_or_none x.lifecycle_history) next
      meta.from meta.to (given meta.ts now) meta.reason meta.actor meta.timestamp no_from no_to
      trail edge

-- An item without a history that was moved by transitions whose metadata brings no states of its own
-- has a history that leads, edge by edge, from its first state to its present one.
pub Moved-Trail :
    (item item' : Item)
    → item.lifecycle_history ≡ none
    → Moved item item'
    → Trail
        (state_or_created item.lifecycle)
        (history_or_none item'.lifecycle_history)
        (state_or_created item'.lifecycle)
Moved-Trail item item' fresh unmoved =
    subst
      (λ h.
        Trail (state_or_created item.lifecycle) (history_or_none h)
          (state_or_created item.lifecycle))
      (sym fresh) no_moves
Moved-Trail item item' fresh (moved {x = x} next meta now m no_from no_to e) =
    let (edge, same_) = (transition-Leads x item' next meta now).0 e in
    subst
      (λ y.
        Trail (state_or_created item.lifecycle) (history_or_none y.lifecycle_history)
          (state_or_created y.lifecycle))
      (sym same_)
      (one_more (state_or_created item.lifecycle) x next meta now no_from no_to
        (Moved-Trail item x fresh m) edge)

no_edge_from_terminal : (a b : State) → is_terminal a ≡ true → Leads a b → ⊥
unfolding is_terminal same
no_edge_from_terminal a b t start = cc t
no_edge_from_terminal a b t _ = cc t

stays :
    (item item' : Item)
    → is_terminal (state_or_created item.lifecycle) ≡ true
    → Moved item item'
    → item' ≡ item
stays item item' t unmoved = refl
stays item item' t (moved {x = x} next meta now m no_from no_to e) =
    let edge = ((transition-Leads x item' next meta now).0 e).0 in
    absurd (
      no_edge_from_terminal (state_or_created item.lifecycle) next t
        (subst (λ y. Leads (state_or_created y.lifecycle) next) (stays item x t m) edge))

ended : (s : State) → is_terminal s ≡ true → (same created s || same active s) ≡ false
unfolding is_terminal same
ended s t = ground arith

-- An item in a terminal state is not moved by any sequence of transitions, and is not usable.
pub Moved-terminal :
    (item item' : Item)
    → is_terminal (state_or_created item.lifecycle) ≡ true
    → Moved item item'
    → (item' ≡ item) × (is_usable item' ≡ false)
unfolding is_usable
Moved-terminal item item' t m =
    let same_ = stays item item' t m in
    (
      same_,
      ended (state_or_created item'.lifecycle)
          (subst (λ y. is_terminal (state_or_created y.lifecycle) ≡ true) (sym same_) t),
    )

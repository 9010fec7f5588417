-- ===== src/Requirement/Rules.antt =====
-- The transition table of src/state/requirement-state.js against a relation, and what it implies
-- for histories of attempted transitions.
use wait_a_minute_plugin.Base.{
  ℕ, ◌≡◌, refl, sym, ◌≢◌, ◌↔◌, ◌⊎◌, inl, inr, none, some, List, [], ◌∷◌, arith, In, ok,
}
use wait_a_minute_plugin.Requirement.{
  Status, pending, in_progress, verified, invalidated, blocked, needs_replan, can_transition,
  Requirement, status_or_pending, transition,
}

-- The lifecycle as the module's documentation draws it.
pub data Edge : Status → Status → Type 0 where
  start : Edge pending in_progress
  obstruct : Edge pending blocked
  verify : Edge in_progress verified
  refute : Edge in_progress invalidated
  stall : Edge in_progress blocked
  give_up : Edge in_progress needs_replan
  put_back : Edge in_progress pending
  contradict : Edge verified invalidated
  redo : Edge invalidated in_progress
  replan_invalid : Edge invalidated needs_replan
  reset_invalid : Edge invalidated pending
  unblock : Edge blocked in_progress
  reset_blocked : Edge blocked pending
  replan_blocked : Edge blocked needs_replan
  reset_plan : Edge needs_replan pending
  resume_plan : Edge needs_replan in_progress

ruleset edges = (
  start, obstruct, verify, refute, stall, give_up, put_back, contradict, redo, replan_invalid,
  reset_invalid, unblock, reset_blocked, replan_blocked, reset_plan, resume_plan,
)

Edge-allowed : {a b : Status} → Edge a b → can_transition a b ≡ none
unfolding can_transition
Edge-allowed start = refl
Edge-allowed _ = refl

allowed-Edge : (a b : Status) → can_transition a b ≡ none → Edge a b
unfolding can_transition
allowed-Edge a b h = grind (arith, edges)

-- A transition is allowed exactly along an edge of the documented lifecycle.
pub can_transition-Edge : (a b : Status) → (can_transition a b ≡ none) ↔ Edge a b
can_transition-Edge a b = (allowed-Edge a b, Edge-allowed)

-- What a successful transition writes: the new status, the time and the state it came from. The
-- identity and the title stay.
abbrev pub moved : Requirement → Status → ℕ → Requirement
moved r to now = record r {
  status = some to;
  last_transition_at = some now;
  last_transition_from = some (status_or_pending r.status);
}

-- A transition gives a new requirement exactly when the documented lifecycle has the edge from the
-- present state (PENDING where none is recorded), and the new requirement is the old one with the
-- new status and the record of the move.
pub transition-Edge :
    (r : Requirement) (to : Status) (now : ℕ) (r' : Requirement)
    → (transition (some r) to now ≡ ok r')
      ↔ (Edge (status_or_pending r.status) to × (r' ≡ moved r to now))
unfolding transition
transition-Edge r to now r' =
    (λ h. (allowed-Edge _ _ (ground arith), ground arith), λ h. ground (arith, Edge-allowed h.0))

-- A requirement becomes VERIFIED only from a recorded IN_PROGRESS.
pub transition-verified :
    (r r' : Requirement) (now : ℕ)
    → transition (some r) verified now ≡ ok r'
    → r.status ≡ some in_progress
unfolding transition
transition-verified r r' now h = ground arith

-- Histories: `trace` lists the states entered, in order.
pub data History : Status → List Status → Status → Type 0 where
  here : {a : Status} → History a [] a
  next :
      {a b c : Status} {trace : List Status}
      → can_transition a b ≡ none
      → History b trace c
      → History a (b ∷ trace) c

source_of_verified : (a b : Status) → can_transition a b ≡ none → b ≡ verified → a ≡ in_progress
unfolding can_transition
source_of_verified a b h e = ground arith

pass_in_progress :
    {a c : Status} {trace : List Status}
    → History a trace c
    → c ≡ verified
    → (a ≡ verified) ⊎ ((a ≡ in_progress) ⊎ In in_progress trace)
pass_in_progress here e = inl e
pass_in_progress (next {a = a} {b = b} h rest) e = elim (pass_in_progress rest e) [
  | inl v ↦ inr (inl (source_of_verified a b h v))
  | inr (inl p) ↦ inr (inr (inl (sym p)))
  | inr (inr later) ↦ inr (inr (inr later))
]

-- No history reaches VERIFIED from BLOCKED, NEEDS_REPLAN, INVALIDATED or PENDING without entering
-- IN_PROGRESS on the way: any start but VERIFIED and IN_PROGRESS has that state in the trace.
pub verified-History :
    {a : Status} {trace : List Status}
    → History a trace verified
    → a ≢ verified
    → a ≢ in_progress
    → In in_progress trace
verified-History h nv np = elim (pass_in_progress h refl) [
  | inl v ↦ absurd (nv v)
  | inr (inl p) ↦ absurd (np p)
  | inr (inr m) ↦ m
]

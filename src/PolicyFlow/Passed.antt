-- ===== src/PolicyFlow/Passed.antt =====
-- What a flow of policies along the table of src/policy/policy-state-machine.js passes through, and how
-- the chain of policies agrees with the table.
use wait_a_minute_plugin.Base.{
  ◌≡◌, refl, sym, ◌≢◌, ◌↔◌, ◌⊎◌, inl, inr, true, none, some, List, [], ◌∷◌, arith, In, ok,
}
use wait_a_minute_plugin.PolicyFlow.{
  Policy, scope, investigate, action, debug, verify, review, completion, validate_policy_flow,
  get_next_policy, is_valid_policy_transition, observe,
}

-- Flows: `trace` lists the policies entered, in order.
pub data Flow : Policy → List Policy → Policy → Type 0 where
  here : {a : Policy} → Flow a [] a
  next :
      {a b c : Policy} {trace : List Policy}
      → validate_policy_flow a b ≡ ok none
      → Flow b trace c
      → Flow a (b ∷ trace) c

to_investigate :
    (a b : Policy)
    → validate_policy_flow a b ≡ ok none
    → b ≡ investigate
    → (a ≡ scope) ⊎ (a ≡ review)
unfolding validate_policy_flow
to_investigate a b h e = ground arith

to_completion :
    (a b : Policy)
    → validate_policy_flow a b ≡ ok none
    → b ≡ completion
    → (a ≡ verify) ⊎ (a ≡ review)
unfolding validate_policy_flow
to_completion a b h e = ground arith

-- The only way out of SCOPE.
from_scope : (a b : Policy) → validate_policy_flow a b ≡ ok none → a ≡ scope → b ≡ investigate
unfolding validate_policy_flow
from_scope a b h e = ground arith

from_investigate :
    (a b : Policy)
    → validate_policy_flow a b ≡ ok none
    → a ≡ investigate
    → (b ≡ action) ⊎ (b ≡ debug)
unfolding validate_policy_flow
from_investigate a b h e = ground arith

-- A flow into COMPLETION enters VERIFY or REVIEW, or started in one of them or in COMPLETION.
end_passes :
    {a c : Policy} {trace : List Policy}
    → Flow a trace c
    → c ≡ completion
    → (a ≡ completion) ⊎ (((a ≡ verify) ⊎ (a ≡ review)) ⊎ (In verify trace ⊎ In review trace))
end_passes here e = inl e
end_passes (next {a = a} {b = b} h rest) e = elim (end_passes rest e) [
  | inl v ↦ inr (inl (to_completion a b h v))
  | inr (inl (inl p)) ↦ inr (inr (inl (inl (sym p))))
  | inr (inl (inr p)) ↦ inr (inr (inr (inl (sym p))))
  | inr (inr (inl later)) ↦ inr (inr (inl (inr later)))
  | inr (inr (inr later)) ↦ inr (inr (inr (inr later)))
]

works :
    {a c : Policy} {trace : List Policy}
    → Flow a trace c
    → a ≡ investigate
    → c ≡ completion
    → In action trace ⊎ In debug trace
works here e f = cc (e, f)
works (next {a = a} {b = b} h rest) e f = elim (from_investigate a b h e) [
  | inl q ↦ inl (inl (sym q))
  | inr q ↦ inr (inl (sym q))
]

-- The first two steps of a flow that leaves SCOPE for COMPLETION.
start_passes :
    {a c : Policy} {trace : List Policy}
    → Flow a trace c
    → a ≡ scope
    → c ≡ completion
    → In investigate trace × (In action trace ⊎ In debug trace)
start_passes here e f = cc (e, f)
start_passes (next {a = a} {b = b} h rest) e f =
    let first = from_scope a b h e in
    (inl (sym first), elim (works rest first f) [ inl m ↦ inl (inr m) | inr m ↦ inr (inr m) ])

-- Every flow from SCOPE to COMPLETION that the table allows passes through INVESTIGATE, through ACTION or
-- DEBUG, and through VERIFY or REVIEW.
pub Flow-passes :
    {trace : List Policy}
    → Flow scope trace completion
    → In investigate trace
      × (In action trace ⊎ In debug trace)
      × (In verify trace ⊎ In review trace)
Flow-passes flow =
    let (begun, worked) = start_passes flow refl refl in
    (
      begun,
      worked,
      elim (end_passes flow refl) [
        | inl e ↦ cc e
        | inr (inl (inl e)) ↦ cc e
        | inr (inl (inr e)) ↦ cc e
        | inr (inr m) ↦ m
      ],
    )

-- The order of the work, one step at a time.
pub data Follows : Policy → Policy → Type 0 where
  first : Follows scope investigate
  second : Follows investigate action
  third : Follows action debug
  fourth : Follows debug observe
  fifth : Follows observe verify
  sixth : Follows verify review
  last : Follows review completion

ruleset follows = (first, second, third, fourth, fifth, sixth, last)

Follows-get_next_policy : {p q : Policy} → Follows p q → get_next_policy p ≡ some q
unfolding get_next_policy
Follows-get_next_policy first = refl
Follows-get_next_policy _ = refl

-- The two tests of a transition agree where the policies differ.
agree :
    (p q : Policy)
    → (validate_policy_flow p q ≡ ok none) ↔ (is_valid_policy_transition p q ≡ ok true)
unfolding validate_policy_flow is_valid_policy_transition
agree p q = (λ k. ground arith, λ k. ground arith)

get_next_policy-Follows : (p q : Policy) → get_next_policy p ≡ some q → Follows p q
unfolding get_next_policy
get_next_policy-Follows p q h = grind (arith, follows)

step_allowed : {p q : Policy} → Follows p q → (validate_policy_flow p q ≡ ok none) ↔ (p ≢ action)
unfolding validate_policy_flow
step_allowed third = (λ h. cc h, λ ne. absurd (ne refl))
step_allowed first = (λ h e. cc e, λ ne. refl)
step_allowed second = (λ h e. cc e, λ ne. refl)
step_allowed fourth = (λ h e. cc e, λ ne. refl)
step_allowed fifth = (λ h e. cc e, λ ne. refl)
step_allowed sixth = (λ h e. cc e, λ ne. refl)
step_allowed last = (λ h e. cc e, λ ne. refl)

-- The next policy is exactly the one that follows in the order of the work, so there is none for the
-- last and for a policy outside that order. A step of that order is a transition that the table allows
-- exactly if it does not leave ACTION. The two tests of a transition agree on what is allowed.
pub get_next_policy-valid :
    (p q : Policy)
    → ((get_next_policy p ≡ some q) ↔ Follows p q)
      × (Follows p q → (validate_policy_flow p q ≡ ok none) ↔ (p ≢ action))
      × ((validate_policy_flow p q ≡ ok none) ↔ (is_valid_policy_transition p q ≡ ok true))
get_next_policy-valid p q =
    ((get_next_policy-Follows p q, Follows-get_next_policy), step_allowed, agree p q)

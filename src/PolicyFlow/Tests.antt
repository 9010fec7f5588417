-- ===== src/PolicyFlow/Tests.antt =====
-- Flows of policies.
use wait_a_minute_plugin.Base.{◌≡◌, refl, ◌≢◌, ◌↔◌, ◌⊎◌, true, none, some, [], ◌∷◌, In, ok, throw}
use wait_a_minute_plugin.PolicyFlow.{
  scope, investigate, action, debug, observe, verify, review, completion, validate_policy_flow,
  get_next_policy, is_valid_policy_transition, TaskState, check_policy_preconditions, inherited,
  no_transition_list,
}
use wait_a_minute_plugin.PolicyFlow.Passed.{
  Flow, here, next, Flow-passes, get_next_policy-valid, Follows,
}

-- VERIFY is not on the way.
unverified : Flow scope (investigate ∷ action ∷ observe ∷ review ∷ completion ∷ []) completion
unfolding validate_policy_flow
unverified = next refl (next refl (next refl (next refl (next refl here))))

-- A review asks for nothing.
review_unconditional : (t : TaskState) → check_policy_preconditions review t ≡ []
unfolding check_policy_preconditions
review_unconditional t = refl

Flow-passes_example :
    In investigate (investigate ∷ action ∷ observe ∷ review ∷ completion ∷ [])
    × (In action (investigate ∷ action ∷ observe ∷ review ∷ completion ∷ [])
        ⊎ In debug (investigate ∷ action ∷ observe ∷ review ∷ completion ∷ []))
    × (In verify (investigate ∷ action ∷ observe ∷ review ∷ completion ∷ [])
        ⊎ In review (investigate ∷ action ∷ observe ∷ review ∷ completion ∷ []))
Flow-passes_example = Flow-passes unverified

inherited_name :
    validate_policy_flow (inherited "toString") action
    ≡ throw (no_transition_list (inherited "toString"))
unfolding validate_policy_flow
inherited_name = refl

get_next_policy-valid_example :
    ((get_next_policy action ≡ some debug) ↔ Follows action debug)
    × (Follows action debug → (validate_policy_flow action debug ≡ ok none) ↔ (action ≢ action))
    × ((validate_policy_flow action debug ≡ ok none)
        ↔ (is_valid_policy_transition action debug ≡ ok true))
get_next_policy-valid_example = get_next_policy-valid action debug

-- ===== src/Verification/Tests.antt =====
-- The verification lifecycle on small tasks, and its theorems at them.
use wait_a_minute_plugin.Base.{
  ◌≡◌, refl, ◌≢◌, ◌↔◌, ◌⊎◌, inl, true, false, none, some, [], ◌∷◌, In, ok, throw,
}
use wait_a_minute_plugin.Verification.{
  verifying, verified, Requirement, Evidence, Backlog, TaskState, no_evidence_provided,
  transition_verification, is_verified, can_complete, has_outstanding_work, verify_requirement,
  fail_requirement, create_evidence, evidence_requires_method_and_result,
}
use wait_a_minute_plugin.Verification.Complete.{
  Step, transition_verification-Step, AllVerified, can_complete-AllVerified,
  has_outstanding_work_iff, verify_requirement-verified, fail_requirement-blocks,
}

abbrev build : Evidence
build = record { method = "build"; result = "pass"; details = ""; at = 3 }

abbrev fresh : Requirement
fresh = record {
  id = "r1";
  verification_status = some verifying;
  evidence = none;
  failure_reason = "";
}

abbrev task : TaskState
task = record { requirements = fail_requirement fresh "red" ∷ []; backlog = [] }

no_method : create_evidence "" "pass" none 1 ≡ throw evidence_requires_method_and_result
unfolding create_evidence
no_method = refl

nothing_to_do : has_outstanding_work none ≡ false
unfolding has_outstanding_work
nothing_to_do = refl

transition_verification-Step_here :
    (transition_verification verifying verified ≡ ok verified)
    ↔ (Step verifying verified × (verified ≡ verified))
transition_verification-Step_here = transition_verification-Step verifying verified verified

can_complete-AllVerified_example :
    ((can_complete (some task)).can_complete ≡ true) ↔ AllVerified task.requirements
can_complete-AllVerified_example = can_complete-AllVerified (some task)

has_outstanding_work_iff_here :
    (has_outstanding_work (some task) ≡ false)
    ↔ (AllVerified task.requirements × ((b : Backlog) → In b task.backlog → b.status ≢ "pending"))
has_outstanding_work_iff_here = has_outstanding_work_iff (some task)

verify_requirement-verified_here :
    (((build ∷ []) ≡ [])
      × (verify_requirement fresh (build ∷ []) ≡ throw (no_evidence_provided "r1")))
    ⊎ ((r' : Requirement) × (verify_requirement fresh (build ∷ []) ≡ ok r')
        × (r'.id ≡ "r1")
        × (is_verified r' ≡ true))
verify_requirement-verified_here = verify_requirement-verified fresh (build ∷ [])

fail_requirement-blocks_here :
    ((can_complete (some task)).can_complete ≡ false) × (has_outstanding_work (some task) ≡ true)
fail_requirement-blocks_here = fail_requirement-blocks fresh "red" task (inl refl)

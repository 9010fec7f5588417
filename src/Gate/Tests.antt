-- ===== src/Gate/Tests.antt =====
-- The completion gate on small projects, and its theorems at them.
use wait_a_minute_plugin.Base.{
  String, ◌≡◌, refl, ◌≢◌, ◌↔◌, inl, inr, true, false, Option, none, some, List, [], ◌∷◌, arith,
  eq_iff, ok, throw,
}
use wait_a_minute_plugin.Requirement.{
  Requirement, verified, summarize_requirements, is_requirement_complete,
}
use wait_a_minute_plugin.Gate.{
  Evidence, mark, is_one_of, find_blocker, Decision, Files, requirements_of_null, can_complete,
  read_all_evidence, decide_loaded, decide_requirements, find_blockers, blocking_reason,
  evidence_for, is_completion_allowed,
}
use wait_a_minute_plugin.Gate.Admission.{AllPass, Gives, can_complete-AllPass}
use wait_a_minute_plugin.Gate.Marks.{
  find_blocker-refuted, find_blocker-unconfirmed, can_complete_sound, can_complete-no_task,
}

abbrev login : Requirement
login = record {
  id = "r1";
  title = "login works";
  status = some verified;
  last_transition_at = none;
  last_transition_from = none;
}

abbrev passing : Evidence
passing = record { requirement_id = "r1"; status = some "valid"; verdict = none }

abbrev stale : Evidence
stale = record { requirement_id = "r1"; status = some "stale"; verdict = none }

abbrev refuted : Evidence
refuted = record { requirement_id = "r1"; status = none; verdict = some "CONTRADICTORY" }

abbrev project : List (Option Evidence) → Files
project es = record {
  root_exists = true;
  loaded = ok (some (record { requirements = some (login ∷ []) }));
  evidence = ok (some es);
}

abbrev no_task : Files
no_task = record { root_exists = true; loaded = ok none; evidence = ok (some []) }

a_ne : ◌≢◌ {A = String} "/p" ""
a_ne = ground (arith, eq_iff "/p" "")

t_ne : ◌≢◌ {A = String} "t1" ""
t_ne = ground (arith, eq_iff "t1" "")

allowed : is_completion_allowed "/p" "t1" (project (some passing ∷ none ∷ [])) ≡ ok true
unfolding is_completion_allowed can_complete decide_loaded decide_requirements find_blockers
    find_blocker blocking_reason evidence_for read_all_evidence is_requirement_complete
allowed = refl

blocked : is_completion_allowed "/p" "t1" (project (some passing ∷ some refuted ∷ [])) ≡ ok false
unfolding is_completion_allowed can_complete decide_loaded decide_requirements find_blockers
    find_blocker blocking_reason evidence_for read_all_evidence is_requirement_complete
blocked = refl

can_complete-AllPass_example :
    (d : Decision) × (can_complete "/p" "t1" (project (some passing ∷ [])) ≡ ok d)
    × ((d.allowed ≡ true)
        ↔ AllPass (login ∷ []) (read_all_evidence (project (some passing ∷ [])).evidence))
    × ((d.blockers ≡ [])
        ↔ AllPass (login ∷ []) (read_all_evidence (project (some passing ∷ [])).evidence))
    × (d.summary ≡ (summarize_requirements (login ∷ [])).summary)
can_complete-AllPass_example =
    can_complete-AllPass "/p" "t1" (project (some passing ∷ [])) login [] a_ne t_ne (refl, refl)

find_blocker-refuted_here : find_blocker login (some passing ∷ some refuted ∷ []) ≢ none
unfolding mark is_one_of
find_blocker-refuted_here =
    find_blocker-refuted login (some passing ∷ some refuted ∷ []) refuted (inr (inl refl)) refl refl

find_blocker-unconfirmed_here : find_blocker login (some stale ∷ []) ≡ none
find_blocker-unconfirmed_here =
    find_blocker-unconfirmed login stale "stale" refl refl refl refl refl

can_complete_sound_example :
    (r : Requirement) × (rs : List Requirement) × Gives (project (some passing ∷ [])) (r ∷ rs)
    × AllPass (r ∷ rs) (read_all_evidence (project (some passing ∷ [])).evidence)
unfolding can_complete decide_loaded decide_requirements find_blockers find_blocker blocking_reason
    evidence_for read_all_evidence is_requirement_complete
can_complete_sound_example = can_complete_sound "/p" "t1" (project (some passing ∷ [])) _ refl refl

gate_without_task : can_complete "/p" "t1" no_task ≡ throw requirements_of_null
gate_without_task = can_complete-no_task "/p" "t1" no_task a_ne t_ne refl refl

-- ===== src/Requirement/Tests.antt =====
-- Runs of the requirement lifecycle, and the theorems at concrete requirements.
use wait_a_minute_plugin.Base.{
  ◌+◌, ◌≤◌, ◌≡◌, refl, ◌↔◌, true, Option, none, some, [], ◌∷◌, length, In, all, filter, ok,
}
use wait_a_minute_plugin.Requirement.{
  Status, pending, in_progress, verified, blocked, other, can_transition, Requirement, transition,
  is_requirement_complete, inherited, no_transition_set, illegal, unknown_target,
  summarize_requirements,
}
use wait_a_minute_plugin.Requirement.Rules.{
  Edge, moved, can_transition-Edge, transition-Edge, transition-verified, History, here, next,
  verified-History,
}
use wait_a_minute_plugin.Requirement.Summary.{
  unfinished, stuck, summarize_requirements-arrays, summarize_requirements-counts,
}

abbrev login : Requirement
login = record {
  id = "r1";
  title = "login works";
  status = some in_progress;
  last_transition_at = none;
  last_transition_from = none;
}

abbrev logout : Requirement
logout = record {
  id = "r2";
  title = "logout works";
  status = some blocked;
  last_transition_at = none;
  last_transition_from = none;
}

blocked_not_verified : can_transition blocked verified ≡ some (illegal blocked verified)
unfolding can_transition
blocked_not_verified = refl

inherited_name :
    can_transition (inherited "toString") pending ≡ some (no_transition_set (inherited "toString"))
unfolding can_transition
inherited_name = refl

unknown_text : can_transition pending (other "DONE") ≡ some (unknown_target (other "DONE"))
unfolding can_transition
unknown_text = refl

documented_edge : (can_transition pending in_progress ≡ none) ↔ Edge pending in_progress
documented_edge = can_transition-Edge pending in_progress

transition-Edge_example :
    (transition (some login) verified 7 ≡ ok (moved login verified 7))
    ↔ (Edge in_progress verified × (moved login verified 7 ≡ moved login verified 7))
transition-Edge_example = transition-Edge login verified 7 (moved login verified 7)

transition-verified_here : ◌≡◌ {A = Option Status} (some in_progress) (some in_progress)
unfolding transition
transition-verified_here = transition-verified login (moved login verified 7) 7 refl

route : History blocked (in_progress ∷ verified ∷ []) verified
unfolding can_transition
route = next refl (next refl here)

verified-History_example : In in_progress (in_progress ∷ verified ∷ [])
verified-History_example = verified-History route (λ e. cc) (λ e. cc)

summarize_requirements-arrays_here :
    ((summarize_requirements (login ∷ logout ∷ [])).incomplete
      ≡ filter unfinished (login ∷ logout ∷ []))
    × ((summarize_requirements (login ∷ logout ∷ [])).blocked ≡ filter stuck (login ∷ logout ∷ []))
summarize_requirements-arrays_here = summarize_requirements-arrays (login ∷ logout ∷ [])

summarize_requirements-counts_here :
    let v = summarize_requirements (login ∷ logout ∷ []) in
    (v.summary.complete + v.summary.incomplete ≡ v.summary.total)
    × (v.summary.total ≡ 2)
    × (v.summary.blocked ≤ v.summary.incomplete)
    × ((v.all_complete ≡ true) ↔ (all is_requirement_complete (login ∷ logout ∷ []) ≡ true))
summarize_requirements-counts_here = summarize_requirements-counts (login ∷ logout ∷ [])

one_stuck : length (summarize_requirements (login ∷ logout ∷ [])).blocked ≡ 1
unfolding summarize_requirements
one_stuck = refl

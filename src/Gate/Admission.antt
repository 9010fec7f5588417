-- ===== src/Gate/Admission.antt =====
-- What the completion gate of src/verification/completion-gate.js decides.
use wait_a_minute_plugin.Base.{
  String, ◌≡◌, refl, sym, ◌∙◌, subst, ◌≢◌, ◌↔◌, inl, inr, Bool, true, false, Option, none, some,
  List, [], ◌∷◌, map, arith, eq_iff, In, any, all, ok, not_any-In, not_any_of_In, not_all-In,
  not_all_of_In, any-map, all-map,
}
use wait_a_minute_plugin.Requirement.{
  Requirement, verified, is_requirement_complete, summarize_requirements,
}
use wait_a_minute_plugin.Gate.{
  Evidence, mark, is_one_of, refuting, inconclusive, evidence_for, Blocker, blocking_reason,
  find_blocker, find_blockers, Decision, Files, decide_requirements, can_complete,
  read_all_evidence, decide_loaded,
}

-- What the gate asks of one requirement: its status is VERIFIED, it has evidence, none of its
-- evidence is contradictory or invalidated, and not all of it is inconclusive.
pub record Passes (r : Requirement) (es : List Evidence) : Type 0 where
  pub is_verified : r.status ≡ some verified
  pub has_evidence : es ≢ []
  pub unrefuted : (e : Evidence) → In e es → is_one_of refuting (mark e) ≡ false
  pub conclusive : (e : Evidence) × In e es × (is_one_of inconclusive (mark e) ≡ false)

complete_status : (r : Requirement) → is_requirement_complete r ≡ true → r.status ≡ some verified
unfolding is_requirement_complete
complete_status r h = ground arith

status_complete : (r : Requirement) → r.status ≡ some verified → is_requirement_complete r ≡ true
unfolding is_requirement_complete
status_complete r h = ground arith

-- The three tests that a requirement with evidence has to get through.
tests_of_none :
    (r : Requirement) (e : Evidence) (es : List Evidence)
    → blocking_reason r (e ∷ es) ≡ none
    → (any (is_one_of refuting) (map mark (e ∷ es)) ≡ false)
      × (all (is_one_of inconclusive) (map mark (e ∷ es)) ≡ false)
      × (is_requirement_complete r ≡ true)
unfolding blocking_reason
tests_of_none r e es h = ground arith

none_of_tests :
    (r : Requirement) (e : Evidence) (es : List Evidence)
    → any (is_one_of refuting) (map mark (e ∷ es)) ≡ false
    → all (is_one_of inconclusive) (map mark (e ∷ es)) ≡ false
    → is_requirement_complete r ≡ true
    → blocking_reason r (e ∷ es) ≡ none
unfolding blocking_reason
none_of_tests r e es a b c = ground arith

abbrev refutes : Evidence → Bool
refutes e = is_one_of refuting (mark e)

abbrev leaves_open : Evidence → Bool
leaves_open e = is_one_of inconclusive (mark e)

blocked_without_evidence : (r : Requirement) → ¬ (blocking_reason r [] ≡ none)
unfolding blocking_reason
blocked_without_evidence r h = cc

cons_ne_nil : {e : Evidence} {es : List Evidence} → (e ∷ es) ≡ [] → ⊥
cons_ne_nil h = cc

Passes-blocking_reason :
    (r : Requirement) (es : List Evidence) → blocking_reason r es ≡ none → Passes r es
Passes-blocking_reason r [] h = absurd (blocked_without_evidence r h)
Passes-blocking_reason r (e ∷ es) h =
    let (a, b, c) = tests_of_none r e es h in
    record {
      is_verified = complete_status r c;
      has_evidence = λ eq. cons_ne_nil eq;
      unrefuted = λ x m.
          not_any-In refutes (e ∷ es) x (sym (any-map (is_one_of refuting) mark (e ∷ es)) ∙ a) m;
      conclusive =
          not_all-In leaves_open (e ∷ es)
            (sym (all-map (is_one_of inconclusive) mark (e ∷ es)) ∙ b);
    }

blocking_reason-Passes :
    (r : Requirement) (es : List Evidence) → Passes r es → blocking_reason r es ≡ none
blocking_reason-Passes r [] p = absurd (p.has_evidence refl)
blocking_reason-Passes r (e ∷ es) p =
    let (x, m, q) = p.conclusive in
    none_of_tests r e es
      (any-map (is_one_of refuting) mark (e ∷ es) ∙ not_any_of_In refutes (e ∷ es) p.unrefuted)
      (all-map (is_one_of inconclusive) mark (e ∷ es) ∙ not_all_of_In leaves_open (e ∷ es) x m q)
      (status_complete r p.is_verified)

pub find_blocker-none :
    (r : Requirement) (all_evidence : List (Option Evidence))
    → (find_blocker r all_evidence ≡ none) ↔ Passes r (evidence_for r.id all_evidence)
unfolding find_blocker
find_blocker-none r all_evidence = (
  λ h. Passes-blocking_reason r _ (ground arith),
  λ p. ground (arith, blocking_reason-Passes r _ p),
)

-- Every requirement of a list passes on its own evidence.
abbrev pub AllPass : List Requirement → List (Option Evidence) → Type 0
AllPass rs all_evidence = (r : Requirement) → In r rs → Passes r (evidence_for r.id all_evidence)

pub find_blockers-none :
    (rs : List Requirement) (all_evidence : List (Option Evidence))
    → (find_blockers rs all_evidence ≡ []) ↔ AllPass rs all_evidence
unfolding find_blockers
find_blockers-none [] all_evidence = (λ h r m. absurd m, λ h. refl)
find_blockers-none (r ∷ rs) all_evidence = (
  λ h x m. elim m [
    | inl e ↦
        subst (λ y. Passes y (evidence_for y.id all_evidence)) (sym e)
          ((find_blocker-none r all_evidence).0 (ground arith))
    | inr later ↦ (find_blockers-none rs all_evidence).0 (ground arith) x later
  ],
  λ h. ground (
    arith,
    (find_blocker-none r all_evidence).1 (h r (inl refl)),
    (find_blockers-none rs all_evidence).1 (λ x m. h x (inr m)),
  ),
)

-- The files give a task with this list of requirements.
abbrev pub Gives : Files → List Requirement → Type 0
Gives files rs =
    (files.root_exists ≡ true) × (files.loaded ≡ ok (some (record { requirements = some rs })))

pub decide_requirements_lem :
    (rs : List Requirement) (all_evidence : List (Option Evidence))
    → let d = decide_requirements rs all_evidence in
      ((d.allowed ≡ true) ↔ (find_blockers rs all_evidence ≡ []))
      × (d.blockers ≡ find_blockers rs all_evidence)
      × (d.summary ≡ (summarize_requirements rs).summary)
unfolding decide_requirements
decide_requirements_lem rs all_evidence = by_blockers (find_blockers rs all_evidence) refl
  where
    by_blockers :
        (bs : List Blocker)
        → find_blockers rs all_evidence ≡ bs
        → let d = decide_requirements rs all_evidence in
          ((d.allowed ≡ true) ↔ (find_blockers rs all_evidence ≡ []))
          × (d.blockers ≡ find_blockers rs all_evidence)
          × (d.summary ≡ (summarize_requirements rs).summary)
    by_blockers [] e = rw e ((λ h. refl, λ h. refl), refl, refl)
    by_blockers (b ∷ bs) e = rw e ((λ h. cc, λ h. cc), refl, refl)

-- On a task that can be read and has requirements, the gate returns a decision; it allows
-- completion exactly when every requirement passes; its blockers are empty exactly then, and its
-- counts are those of the summary of the requirements.
pub can_complete-AllPass :
    (root id : String) (files : Files) (r : Requirement) (rs : List Requirement)
    → root ≢ ""
    → id ≢ ""
    → Gives files (r ∷ rs)
    → (d : Decision) × (can_complete root id files ≡ ok d)
      × ((d.allowed ≡ true) ↔ AllPass (r ∷ rs) (read_all_evidence files.evidence))
      × ((d.blockers ≡ []) ↔ AllPass (r ∷ rs) (read_all_evidence files.evidence))
      × (d.summary ≡ (summarize_requirements (r ∷ rs)).summary)
unfolding can_complete decide_loaded
can_complete-AllPass root id files r rs nr ni g =
    let all_evidence = read_all_evidence files.evidence in
    let d = decide_requirements_lem (r ∷ rs) all_evidence in
    let clear = find_blockers-none (r ∷ rs) all_evidence in
    (
      decide_requirements (r ∷ rs) (read_all_evidence files.evidence),
      ground (arith, eq_iff root "", eq_iff id ""),
      (λ h. clear.0 (d.0.0 h), λ h. d.0.1 (clear.1 h)),
      (λ h. clear.0 (sym d.1 ∙ h), λ h. d.1 ∙ clear.1 h),
      d.2,
    )

-- ===== src/Gate/Marks.antt =====
-- How the marks on evidence decide the gate of src/verification/completion-gate.js: refuting
-- evidence always blocks, confirming evidence is not needed, and a task that is not there escapes.
use wait_a_minute_plugin.Base.{
  String, ◌≡◌, refl, sym, ap, ◌∙◌, subst, ◌≢◌, inl, inr, true, false, Option, none, some, List, [],
  ◌∷◌, arith, eq_iff, ◌=?◌, Bool-cases, In, includes, Result, ok, throw,
}
use wait_a_minute_plugin.Requirement.{Requirement, verified}
use wait_a_minute_plugin.Gate.{
  Evidence, mark, is_one_of, refuting, inconclusive, evidence_for, find_blocker, Decision,
  TaskState, Files, requirements_of_null, can_complete, decide_loaded, read_all_evidence,
}
use wait_a_minute_plugin.Gate.Admission.{
  find_blocker-none, AllPass, Gives, decide_requirements_lem, find_blockers-none,
}

In-evidence_for :
    (id : String) (all_evidence : List (Option Evidence)) (e : Evidence)
    → In (some e) all_evidence
    → e.requirement_id ≡ id
    → In e (evidence_for id all_evidence)
unfolding evidence_for
In-evidence_for id [] e m h = absurd m
In-evidence_for id (none ∷ rest) e m h = elim m [
  | inl same ↦ cc
  | inr later ↦ In-evidence_for id rest e later h
]
In-evidence_for id (some x ∷ rest) e m h = elim (Bool-cases (x.requirement_id =? id)) [
  | inl yes_ ↦
      rw yes_ (elim m [ inl same ↦ inl (cc) | inr later ↦ inr (In-evidence_for id rest e later h) ])
  | inr no_ ↦ rw no_ (elim m [
    | inl same ↦ absurd (apart x e id same h no_)
    | inr later ↦ In-evidence_for id rest e later h
  ])
]
  where
    apart :
        (x e : Evidence) (id : String)
        → some e ≡ some x
        → e.requirement_id ≡ id
        → (x.requirement_id =? id) ≡ false
        → ⊥
    apart x e id same h no_ = cc (no_, (eq_iff x.requirement_id id).1 (cc))

-- One contradictory or invalidated piece of evidence blocks its requirement, whatever else is
-- recorded for it and whatever its status.
pub find_blocker-refuted :
    (r : Requirement) (all_evidence : List (Option Evidence)) (e : Evidence)
    → In (some e) all_evidence
    → e.requirement_id ≡ r.id
    → is_one_of refuting (mark e) ≡ true
    → find_blocker r all_evidence ≢ none
find_blocker-refuted r all_evidence e m own refuted h =
    let p = (find_blocker-none r all_evidence).0 h in
    let clean = p.unrefuted e (In-evidence_for r.id all_evidence e m own) in cc

mark_of :
    (texts : List String) (e : Evidence) {text : String}
    → e.status ≡ some text
    → is_one_of texts (mark e) ≡ includes texts text
unfolding mark is_one_of
mark_of texts e s = rw s

cons_ne_nil : {e : Evidence} {es : List Evidence} → (e ∷ es) ≡ [] → ⊥
cons_ne_nil h = cc

-- A VERIFIED requirement with one piece of evidence is let through on any mark that is neither
-- refuting nor inconclusive, so also on one that confirms nothing, such as "stale".
pub find_blocker-unconfirmed :
    (r : Requirement) (e : Evidence) (text : String)
    → r.status ≡ some verified
    → e.requirement_id ≡ r.id
    → e.status ≡ some text
    → includes refuting text ≡ false
    → includes inconclusive text ≡ false
    → find_blocker r (some e ∷ []) ≡ none
unfolding evidence_for
find_blocker-unconfirmed r e text v own s nr ni = (find_blocker-none r (some e ∷ [])).1 (
    rw ((eq_iff e.requirement_id r.id).1 own) (record {
      is_verified = v;
      has_evidence = λ h. cons_ne_nil h;
      unrefuted = λ x m. elim m [
        | inl same ↦
            subst (λ y. is_one_of refuting (mark y) ≡ false) (sym same) (mark_of refuting e s ∙ nr)
        | inr later ↦ absurd later
      ];
      conclusive = (e, inl refl, mark_of inconclusive e s ∙ ni);
    }))

read_sound :
    (requirements : Option (List Requirement)) (all_evidence : List (Option Evidence))
    (d : Decision)
    → decide_loaded (ok (some (record { requirements = requirements }))) all_evidence ≡ ok d
    → d.allowed ≡ true
    → (r : Requirement) × (rs : List Requirement) × (requirements ≡ some (r ∷ rs))
      × AllPass (r ∷ rs) all_evidence
unfolding decide_loaded
read_sound none all_evidence d h a = cc
read_sound (some []) all_evidence d h a = cc
read_sound (some (r ∷ rs)) all_evidence d h a =
    let decision = decide_requirements_lem (r ∷ rs) all_evidence in
    (r, rs, refl, (find_blockers-none (r ∷ rs) all_evidence).0 (decision.0.0 (cc)))

loaded_sound :
    (loaded : Result String (Option TaskState)) (all_evidence : List (Option Evidence))
    (d : Decision)
    → decide_loaded loaded all_evidence ≡ ok d
    → d.allowed ≡ true
    → (r : Requirement) × (rs : List Requirement) × (loaded
        ≡ ok (some (record { requirements = some (r ∷ rs) })))
      × AllPass (r ∷ rs) all_evidence
loaded_sound (throw message) all_evidence d h a = unfold decide_loaded in cc
loaded_sound (ok none) all_evidence d h a = unfold decide_loaded in cc
loaded_sound (ok (some task)) all_evidence d h a =
    let (r, rs, e, p) = read_sound task.requirements all_evidence d h a in
    (r, rs, ap (λ x. ok (some (record { requirements = x }))) e, p)

passed_checks :
    (root id : String) (files : Files) (d : Decision)
    → can_complete root id files ≡ ok d
    → d.allowed ≡ true
    → (files.root_exists ≡ true)
      × (decide_loaded files.loaded (read_all_evidence files.evidence) ≡ ok d)
unfolding can_complete
passed_checks root id files d h a = ground arith

-- Completion is allowed only for a root that exists and a task that was read, has a requirement,
-- and whose requirements all pass.
pub can_complete_sound :
    (root id : String) (files : Files) (d : Decision)
    → can_complete root id files ≡ ok d
    → d.allowed ≡ true
    → (r : Requirement) × (rs : List Requirement) × Gives files (r ∷ rs)
      × AllPass (r ∷ rs) (read_all_evidence files.evidence)
can_complete_sound root id files d h a =
    let (exists, decided) = passed_checks root id files d h a in
    let (r, rs, l, p) = loaded_sound files.loaded _ d decided a in (r, rs, (exists, l), p)

-- For a task with no readable state the gate returns no decision: reading `requirements` of null
-- throws, outside the handler.
pub can_complete-no_task :
    (root id : String) (files : Files)
    → root ≢ ""
    → id ≢ ""
    → files.root_exists ≡ true
    → files.loaded ≡ ok none
    → can_complete root id files ≡ throw requirements_of_null
unfolding can_complete decide_loaded
can_complete-no_task root id files nr ni x l = ground (arith, eq_iff root "", eq_iff id "")

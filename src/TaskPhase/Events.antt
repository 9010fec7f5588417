-- ===== src/TaskPhase/Events.antt =====
-- What the events of src/state/state-transition.js may do to a task.
use wait_a_minute_plugin.Base.{
  ℕ, String, ◌≡◌, refl, sym, ap, ◌∙◌, subst, ◌≢◌, ◌↔◌, ◌⊎◌, inl, inr, true, false, not, Option,
  none, some, List, [], ◌∷◌, map, arith, ◌=?◌, if◌then◌else◌, Bool-cases, includes, Result, ok,
  throw, is_inherited, =?-sound, =?-complete,
}
use wait_a_minute_plugin.TaskPhase.{
  Requirement, State, Event, requirement_verified, phase_change, contract_approved, next_action_set,
  other_event, Error, invalid_phase, no_phase_list, phase_transitions, verified_if, transition_task,
}
use wait_a_minute_plugin.TaskPhase.Phases.{
  PhaseEdge-list, list-PhaseEdge, listed, unlisted, PhaseEdge,
}

-- The second list of requirements has the status "verified" at the given name and is the first elsewhere.
pub data Marked (id : String) : List Requirement → List Requirement → Type 0 where
  no_more : Marked id [] []
  hit :
      {r : Requirement} {rs ts : List Requirement}
      → r.id ≡ id
      → Marked id rs ts
      → Marked id (r ∷ rs) (record { id = r.id; status = "verified" } ∷ ts)
  miss :
      {r : Requirement} {rs ts : List Requirement}
      → r.id ≢ id
      → Marked id rs ts
      → Marked id (r ∷ rs) (r ∷ ts)

-- What an accepted event makes of a task.
abbrev pub Effect : State → Event → ℕ → State → Type 0
Effect s (requirement_verified id) now s' =
    Marked id s.requirements s'.requirements
    × (s' ≡ record s { requirements = s'.requirements; updated_at = now })
Effect s (phase_change phase) now s' =
    PhaseEdge s.phase phase × (s' ≡ record s { phase = phase; updated_at = now })
Effect s contract_approved now s' =
    s' ≡ record s { contract_status = some "APPROVED"; updated_at = now }
Effect s (next_action_set action) now s' =
    s' ≡ record s { next_action = some action; updated_at = now }
Effect s (other_event _) now s' = s' ≡ s

-- The error of a refused change of the phase: the old phase is one that every object inherits, or there
-- is no edge.
abbrev pub RefusedChange : State → String → Error → Type 0
RefusedChange s phase x =
    ((is_inherited s.phase ≡ true) × (x ≡ no_phase_list s.phase))
    ⊎ ((is_inherited s.phase ≡ false)
        × ¬ PhaseEdge s.phase phase
        × (x ≡ invalid_phase s.phase phase))

-- Only changes of the phase are refused.
abbrev pub Refused : State → Event → Error → Type 0
Refused s e x = (phase : String) × (e ≡ phase_change phase) × RefusedChange s phase x

map-Marked : (id : String) (rs : List Requirement) → Marked id rs (map (verified_if id) rs)
map-Marked id [] = no_more
map-Marked id (r ∷ rs) = elim (Bool-cases (r.id =? id)) [
  | inl e ↦ rw e (hit (=?-sound r.id id e) (map-Marked id rs))
  | inr e ↦ rw e (miss (λ q. cc (e, =?-complete r.id id q)) (map-Marked id rs))
]

Marked-map :
    (id : String) (rs ts : List Requirement) → Marked id rs ts → ts ≡ map (verified_if id) rs
Marked-map id rs ts no_more = refl
Marked-map id rs ts (hit {r = r} e m) = rw (=?-complete r.id id e, Marked-map _ _ _ m) refl
Marked-map id rs ts (miss {r = r} ne m) = elim (Bool-cases (r.id =? id)) [
  | inl e ↦ absurd (ne (=?-sound r.id id e))
  | inr e ↦ rw (e, Marked-map _ _ _ m) refl
]

-- A change of the phase is accepted along the edges.
accepts :
    (s s' : State) (phase : String) (now : ℕ)
    → (transition_task s (phase_change phase) now ≡ ok s') ↔ Effect s (phase_change phase) now s'
unfolding transition_task
accepts s s' phase now = one (phase_transitions s.phase) refl
  where
    one :
        (o : Option (List String))
        → phase_transitions s.phase ≡ o
        → (elim o as (λ z. Result Error State) [
          | none ↦ throw (no_phase_list s.phase)
          | some allowed ↦
              if not (includes allowed phase)
              then throw (invalid_phase s.phase phase)
              else ok (record s { phase = phase; updated_at = now })
        ]
            ≡ ok s')
          ↔ Effect s (phase_change phase) now s'
    one none e =
        (λ h. cc h, λ (edge, q). let (l, p, m) = PhaseEdge-list s.phase phase edge in cc (e, p))
    one (some l) e = (
      λ h. (list-PhaseEdge s.phase phase l e (ground arith), ground arith),
      λ (edge, q). rw ((listed s.phase phase l e).1 edge, q) refl,
    )

-- A change of the phase is refused where there is no edge.
refuses :
    (s : State) (phase : String) (now : ℕ) (x : Error)
    → (transition_task s (phase_change phase) now ≡ throw x) ↔ RefusedChange s phase x
unfolding transition_task
refuses s phase now x = one (phase_transitions s.phase) refl
  where
    own : (l : List String) → phase_transitions s.phase ≡ some l → is_inherited s.phase ≡ false
    own l e = elim (Bool-cases (is_inherited s.phase)) [
      | inl i ↦ cc (e, (unlisted s.phase).1 i)
      | inr i ↦ i
    ]

    one :
        (o : Option (List String))
        → phase_transitions s.phase ≡ o
        → (elim o as (λ z. Result Error State) [
          | none ↦ throw (no_phase_list s.phase)
          | some allowed ↦
              if not (includes allowed phase)
              then throw (invalid_phase s.phase phase)
              else ok (record s { phase = phase; updated_at = now })
        ]
            ≡ throw x)
          ↔ RefusedChange s phase x
    one none e = (
      λ h. inl ((unlisted s.phase).0 e, ground arith),
      λ r. elim r [ inl (i, q) ↦ rw q refl | inr (i, ne, q) ↦ cc (i, (unlisted s.phase).0 e) ],
    )
    one (some l) e = (
      λ h. inr (own l e, λ edge. ground (arith, (listed s.phase phase l e).1 edge), ground arith),
      λ r. elim r [
        | inl (i, q) ↦ cc (e, (unlisted s.phase).1 i)
        | inr (i, ne, q) ↦ elim (Bool-cases (includes l phase)) [
          | inl m ↦ absurd (ne ((listed s.phase phase l e).0 m))
          | inr m ↦ rw (m, q) refl
        ]
      ],
    )

-- An event on a task is accepted with a new state exactly if that state is its effect. A change of the
-- phase has one exactly along the edges between phases and sets the phase. A verified requirement gets
-- the status "verified" wherever its id stands in the list and no other changes. An approved contract
-- is APPROVED, and a next action is noted. All of these set the time of the update and nothing else,
-- and any other event changes nothing. An event is refused exactly if it changes the phase where there
-- is no edge: the error names both phases, unless the old one is a name that every object inherits.
pub transition_task-phase :
    (s : State) (e : Event) (now : ℕ)
    → ((s' : State) → (transition_task s e now ≡ ok s') ↔ Effect s e now s')
      × ((x : Error) → (transition_task s e now ≡ throw x) ↔ Refused s e x)
unfolding transition_task
transition_task-phase s (requirement_verified id) now = (
  λ s'. (
    λ h.
        let made : (record s {
          requirements = map (verified_if id) s.requirements;
          updated_at = now;
        })
            ≡ s' =
          ground arith in
        subst (λ z. Effect s (requirement_verified id) now z) made
          (map-Marked id s.requirements, refl),
    λ (m, q).
        ap (λ rs. ok (record s { requirements = rs; updated_at = now }))
          (sym (Marked-map id s.requirements s'.requirements m))
        ∙ ap ok (sym q),
  ),
  λ x. (λ h. cc h, λ (phase, q, r). cc q),
)
transition_task-phase s (phase_change phase) now = (
  λ s'. accepts s s' phase now,
  λ x.
      let (made, back) = refuses s phase now x in
      (λ h. (phase, refl, made h), λ (p, q, r). back (subst (λ z. RefusedChange s z x) (cc q) r)),
)
transition_task-phase s contract_approved now =
    (λ s'. (λ h. ground arith, λ q. ap ok (sym q)), λ x. (λ h. cc h, λ (phase, q, r). cc q))
transition_task-phase s (next_action_set action) now =
    (λ s'. (λ h. ground arith, λ q. ap ok (sym q)), λ x. (λ h. cc h, λ (phase, q, r). cc q))
transition_task-phase s (other_event text) now =
    (λ s'. (λ h. ground arith, λ q. ap ok (sym q)), λ x. (λ h. cc h, λ (phase, q, r). cc q))

-- ===== src/TaskPhase/Phases.antt =====
-- PHASE_TRANSITIONS of src/integration/orchestration.js against the edges between phases written as a
-- relation.
use wait_a_minute_plugin.Base.{
  String, ◌≡◌, refl, ap, subst, ◌↔◌, ◌⊎◌, inl, inr, true, none, some, List, [], ◌∷◌, arith, In,
  includes, includes-In, is_inherited, =?-sound,
}
use wait_a_minute_plugin.TaskPhase.{phase_transitions}

-- The edges between phases. DONE has none, nor has any phase that is not named here.
pub data PhaseEdge (a b : String) : Type 0 where
  of_proposed : a ≡ "PROPOSED" → In b ("IMPLEMENTING" ∷ "WAITING" ∷ "ASKING" ∷ []) → PhaseEdge a b
  of_implementing : a ≡ "IMPLEMENTING" → In b ("VERIFYING" ∷ "DONE" ∷ "ASKING" ∷ []) → PhaseEdge a b
  of_verifying : a ≡ "VERIFYING" → In b ("IMPLEMENTING" ∷ "DONE" ∷ []) → PhaseEdge a b
  of_asking : a ≡ "ASKING" → In b ("PROPOSED" ∷ "IMPLEMENTING" ∷ []) → PhaseEdge a b
  of_waiting : a ≡ "WAITING" → In b ("PROPOSED" ∷ "IMPLEMENTING" ∷ []) → PhaseEdge a b

pub row :
    (a : String) (l : List String)
    → phase_transitions a ≡ some l
    → ((a ≡ "PROPOSED") × (l ≡ "IMPLEMENTING" ∷ "WAITING" ∷ "ASKING" ∷ []))
      ⊎ ((a ≡ "IMPLEMENTING") × (l ≡ "VERIFYING" ∷ "DONE" ∷ "ASKING" ∷ []))
      ⊎ ((a ≡ "VERIFYING") × (l ≡ "IMPLEMENTING" ∷ "DONE" ∷ []))
      ⊎ ((a ≡ "ASKING") × (l ≡ "PROPOSED" ∷ "IMPLEMENTING" ∷ []))
      ⊎ ((a ≡ "WAITING") × (l ≡ "PROPOSED" ∷ "IMPLEMENTING" ∷ []))
      ⊎ (l ≡ [])
unfolding phase_transitions
row a l h = ground (
  arith,
  =?-sound a "PROPOSED",
  =?-sound a "IMPLEMENTING",
  =?-sound a "VERIFYING",
  =?-sound a "ASKING",
  =?-sound a "WAITING",
)

pub list-PhaseEdge :
    (a b : String) (l : List String)
    → phase_transitions a ≡ some l
    → includes l b ≡ true
    → PhaseEdge a b
list-PhaseEdge a b l h m = elim (row a l h) [
  | inl (e, q) ↦
      of_proposed e ((includes-In ("IMPLEMENTING" ∷ "WAITING" ∷ "ASKING" ∷ []) b).0 (rw q at m))
  | inr (inl (e, q)) ↦
      of_implementing e ((includes-In ("VERIFYING" ∷ "DONE" ∷ "ASKING" ∷ []) b).0 (rw q at m))
  | inr (inr (inl (e, q))) ↦
      of_verifying e ((includes-In ("IMPLEMENTING" ∷ "DONE" ∷ []) b).0 (rw q at m))
  | inr (inr (inr (inl (e, q)))) ↦
      of_asking e ((includes-In ("PROPOSED" ∷ "IMPLEMENTING" ∷ []) b).0 (rw q at m))
  | inr (inr (inr (inr (inl (e, q))))) ↦
      of_waiting e ((includes-In ("PROPOSED" ∷ "IMPLEMENTING" ∷ []) b).0 (rw q at m))
  | inr (inr (inr (inr (inr q)))) ↦ absurd ((includes-In [] b).0 (rw q at m))
]

pub PhaseEdge-list :
    (a b : String)
    → PhaseEdge a b
    → (l : List String) × (phase_transitions a ≡ some l) × (includes l b ≡ true)
unfolding phase_transitions is_inherited
PhaseEdge-list a b (of_proposed e m) = (
  "IMPLEMENTING" ∷ "WAITING" ∷ "ASKING" ∷ [],
  ap phase_transitions e,
  (includes-In ("IMPLEMENTING" ∷ "WAITING" ∷ "ASKING" ∷ []) b).1 m,
)
PhaseEdge-list a b (of_implementing e m) = (
  "VERIFYING" ∷ "DONE" ∷ "ASKING" ∷ [],
  ap phase_transitions e,
  (includes-In ("VERIFYING" ∷ "DONE" ∷ "ASKING" ∷ []) b).1 m,
)
PhaseEdge-list a b (of_verifying e m) = (
  "IMPLEMENTING" ∷ "DONE" ∷ [],
  ap phase_transitions e,
  (includes-In ("IMPLEMENTING" ∷ "DONE" ∷ []) b).1 m,
)
PhaseEdge-list a b (of_asking e m) = (
  "PROPOSED" ∷ "IMPLEMENTING" ∷ [],
  ap phase_transitions e,
  (includes-In ("PROPOSED" ∷ "IMPLEMENTING" ∷ []) b).1 m,
)
PhaseEdge-list a b (of_waiting e m) = (
  "PROPOSED" ∷ "IMPLEMENTING" ∷ [],
  ap phase_transitions e,
  (includes-In ("PROPOSED" ∷ "IMPLEMENTING" ∷ []) b).1 m,
)

pub listed :
    (a b : String) (l : List String)
    → phase_transitions a ≡ some l
    → (includes l b ≡ true) ↔ PhaseEdge a b
listed a b l h = (
  list-PhaseEdge a b l h,
  λ e. let (k, p, m) = PhaseEdge-list a b e in subst (λ z. includes z b ≡ true) (cc (h, p)) m,
)

-- The phases without a list are those of the inherited names.
pub unlisted : (a : String) → (phase_transitions a ≡ none) ↔ (is_inherited a ≡ true)
unfolding phase_transitions
unlisted a = (λ h. ground arith, λ m. rw (m, phase_transitions) refl)

-- ===== src/EventId/Migrated.antt =====
-- What the migration of src/state/run-event-identity.js makes of a run's events.
use wait_a_minute_plugin.Base.{
  ℕ, suc, String, ◌≡◌, refl, sym, ap, ◌∙◌, subst, inl, inr, Bool, true, false, not, ◌&&◌, ◌||◌,
  Option, none, some, List, [], ◌∷◌, arith, eq_iff, ◌=?◌, if◌then◌else◌, Option-cases, all,
  includes, includes-In, and_true_parts,
}
use wait_a_minute_plugin.Base.Dict.{Dict, get, get-set}
use wait_a_minute_plugin.EventId.{
  kinds, generate_event_id, is_scoped_event_id, Event, Run, events_of, migrate_events,
  migrate_field, migrate_run_event_ids,
}
use wait_a_minute_plugin.EventId.Parsed.{Plain, parse-generate_event_id}

abbrev pub migrated : String → String → Option (List Event) → Option (List Event)
migrated run_id kind none = none
migrated run_id kind (some es) = some (migrate_events run_id kind 0 es)

get-migrate_field :
    (run_id : String) (fields : Dict (List Event)) (field kind f : String)
    → get (migrate_field run_id fields (field, kind)) f
      ≡ (if field =? f then migrated run_id kind (get fields f) else get fields f)
unfolding migrate_field
get-migrate_field run_id fields field kind f = elim (Option-cases (get fields field)) [
  | inl e ↦ rw (e, migrate_field) (absent (field =? f) refl e)
  | inr (es, e) ↦
      rw (e, migrate_field, get-set fields field (migrate_events run_id kind 0 es) f)
        (there es (field =? f) refl e)
]
  where
    absent :
        (b : Bool)
        → (field =? f) ≡ b
        → get fields field ≡ none
        → get fields f ≡ (if b then migrated run_id kind (get fields f) else get fields f)
    absent true q e = rw (subst (λ k. get fields k ≡ none) ((eq_iff field f).0 q) e) refl
    absent false q e = refl

    there :
        (es : List Event) (b : Bool)
        → (field =? f) ≡ b
        → get fields field ≡ some es
        → (if b then some (migrate_events run_id kind 0 es) else get fields f)
          ≡ (if b then migrated run_id kind (get fields f) else get fields f)
    there es true q e = rw (subst (λ k. get fields k ≡ some es) ((eq_iff field f).0 q) e) refl
    there es false q e = refl

-- No id is left that is neither empty nor scoped.
abbrev pub settled : Event → Bool
settled e = e.id =? "" || is_scoped_event_id e.id

migrate_events-settled :
    (run_id kind : String) (i : ℕ) (es : List Event)
    → Plain run_id
    → includes kinds kind ≡ true
    → all settled (migrate_events run_id kind i es) ≡ true
unfolding migrate_events
migrate_events-settled run_id kind i [] plain known = refl
migrate_events-settled run_id kind i (e ∷ es) plain known =
    rw
      (
        one (e.id =? "") (is_scoped_event_id e.id) refl refl,
        migrate_events-settled run_id kind (suc i) es plain known,
      )
      refl
  where
    one :
        (a b : Bool)
        → (e.id =? "") ≡ a
        → is_scoped_event_id e.id ≡ b
        → settled
            (if not a && not b then record e { id = generate_event_id run_id kind (suc i) } else e)
          ≡ true
    one true b p q = rw p refl
    one false true p q = rw (p, q) refl
    one false false p q =
        rw (parse-generate_event_id run_id kind (suc i) plain known) (ground arith)

migrate_settled :
    (run_id kind : String) (i : ℕ) (es : List Event)
    → all settled es ≡ true
    → migrate_events run_id kind i es ≡ es
unfolding migrate_events
migrate_settled run_id kind i [] h = refl
migrate_settled run_id kind i (e ∷ es) h =
    let (first, later) = and_true_parts (settled e) (all settled es) h in
    rw
      (
        one (e.id =? "") (is_scoped_event_id e.id) first,
        migrate_settled run_id kind (suc i) es later,
      )
      refl
  where
    one :
        (a b : Bool)
        → (a || b) ≡ true
        → (if not a && not b then record e { id = generate_event_id run_id kind (suc i) } else e)
          ≡ e
    one true b k = refl
    one false true k = refl
    one false false k = cc

Known : (String → Type 0) → Type 0
Known P = P "act" × (P "obs" × (P "dec" × P "ev"))

-- What holds of the four kinds holds of a kind that is one of them.
of_Known : (P : String → Type 0) (kind : String) → includes kinds kind ≡ true → Known P → P kind
unfolding Known
of_Known P kind h (a, (o, (d, v))) = elim ((includes-In kinds kind).0 h) [
  | inl e ↦ subst P (sym e) a
  | inr m1 ↦ elim m1 [
    | inl e ↦ subst P (sym e) o
    | inr m2 ↦ elim m2 [
      | inl e ↦ subst P (sym e) d
      | inr m3 ↦ elim m3 [ inl e ↦ subst P (sym e) v | inr n ↦ absurd n ]
    ]
  ]
]

field_by_field :
    (run : Run)
    → Known (λ kind.
      events_of (migrate_run_event_ids run) kind ≡ migrated run.id kind (events_of run kind))
unfolding Known migrate_run_event_ids
field_by_field run = (
  simp (get-migrate_field),
  (simp (get-migrate_field), (simp (get-migrate_field), simp (get-migrate_field))),
)

migrated-settled :
    (run_id kind : String) (o : Option (List Event)) (es : List Event)
    → Plain run_id
    → includes kinds kind ≡ true
    → migrated run_id kind o ≡ some es
    → all settled es ≡ true
migrated-settled run_id kind none es plain known h = cc h
migrated-settled run_id kind (some xs) es plain known h =
    let done = migrate_events-settled run_id kind 0 xs plain known in cc

migrated-migrated :
    (run_id kind : String) (o : Option (List Event))
    → Plain run_id
    → includes kinds kind ≡ true
    → migrated run_id kind (migrated run_id kind o) ≡ migrated run_id kind o
migrated-migrated run_id kind none plain known = refl
migrated-migrated run_id kind (some es) plain known =
    ap some (migrate_settled run_id kind 0 _ (migrate_events-settled run_id kind 0 es plain known))

same_run : (run : Run) → (migrate_run_event_ids run).id ≡ run.id
unfolding migrate_run_event_ids
same_run run = refl

-- The migration of a run whose own id has no colon rewrites each of the four lists of events by itself:
-- no id is left in it that is neither empty nor scoped, and a second migration changes nothing in it.
pub events_of-migrate_run_event_ids :
    (run : Run) (kind : String)
    → Plain run.id
    → includes kinds kind ≡ true
    → let once = migrate_run_event_ids run in
      (events_of once kind ≡ migrated run.id kind (events_of run kind))
      × ((es : List Event) → events_of once kind ≡ some es → all settled es ≡ true)
      × (events_of (migrate_run_event_ids once) kind ≡ events_of once kind)
events_of-migrate_run_event_ids run kind plain known =
    let once = migrate_run_event_ids run in
    let law = λ (r : Run).
      of_Known (λ k. events_of (migrate_run_event_ids r) k ≡ migrated r.id k (events_of r k)) kind
        known (field_by_field r) in
    (
      law run,
      λ es h. migrated-settled run.id kind (events_of run kind) es plain known (sym (law run) ∙ h),
      law once
          ∙ (ap (λ i. migrated i kind (events_of once kind)) (same_run run)
              ∙ (ap (migrated run.id kind) (law run)
                  ∙ (migrated-migrated run.id kind (events_of run kind) plain known
                      ∙ sym (law run)))),
    )

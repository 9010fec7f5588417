-- ===== src/EventId/Tests.antt =====
-- Runs of the event identifiers.
use wait_a_minute_plugin.Base.{
  String, ◌≡◌, refl, ◌≢◌, inl, true, false, none, some, List, [], ◌∷◌, all,
}
use wait_a_minute_plugin.Base.Dict.{get, set}
use wait_a_minute_plugin.Base.Decimal
use wait_a_minute_plugin.EventId.{
  generate_event_id, parse_event_id, split, parse_int, signed, unsigned, of_parts, Event, Run,
  events_of, create_scoped_event, migrate_run_event_ids, migrate_field, migrate_events,
}
use wait_a_minute_plugin.EventId.Parsed.{parse-generate_event_id, create_scoped_event-fresh}
use wait_a_minute_plugin.EventId.Migrated.{migrated, settled, events_of-migrate_run_event_ids}

written_id : generate_event_id "run-003" "act" 1 ≡ "run-003:act:001"
unfolding generate_event_id Decimal.pad_start Decimal.to_text Decimal.digits Decimal.digit
written_id = refl

parse-generate_event_id_example :
    parse_event_id (generate_event_id "run-003" "obs" 1204)
    ≡ some (record {
      run_id = "run-003";
      kind = "obs";
      sequence = record { negative = false; magnitude = 1204 };
    })
parse-generate_event_id_example =
    parse-generate_event_id "run-003" "obs" 1204
      (refl, (refl, (refl, (refl, (refl, (refl, (refl, tt))))))) refl

abbrev event : String → Event
event id = record { id = id; text = "t"; timestamp = 5 }

abbrev run : Run
run = record {
  id = "r1";
  fields = ("actions", event "r1:act:002" ∷ event "old" ∷ event "" ∷ []) ∷ [];
}

create_scoped_event-fresh_example : (create_scoped_event run "act" none "t" 9).id ≢ "r1:act:002"
unfolding get
create_scoped_event-fresh_example =
    create_scoped_event-fresh run "act" "t" 9 (event "r1:act:002" ∷ event "old" ∷ event "" ∷ [])
      (event "r1:act:002") (refl, (refl, tt)) refl refl (inl refl)

-- The old event stands second and gets the number that the first one has.
collision :
    events_of (migrate_run_event_ids run) "act"
    ≡ some (event "r1:act:002" ∷ event "r1:act:002" ∷ event "" ∷ [])
unfolding migrate_run_event_ids migrate_field migrate_events generate_event_id parse_event_id split
    of_parts parse_int signed unsigned get set Decimal.pad_start Decimal.to_text Decimal.digits
    Decimal.digit
collision = refl

events_of-migrate_run_event_ids_example :
    let once = migrate_run_event_ids run in
    (events_of once "act" ≡ migrated "r1" "act" (events_of run "act"))
    × ((es : List Event) → events_of once "act" ≡ some es → all settled es ≡ true)
    × (events_of (migrate_run_event_ids once) "act" ≡ events_of once "act")
events_of-migrate_run_event_ids_example =
    events_of-migrate_run_event_ids run "act" (refl, (refl, tt)) refl

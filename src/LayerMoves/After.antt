-- ===== src/LayerMoves/After.antt =====
-- What a promotion and a demotion make of an item, and the events that they report, written out field by
-- field.
use wait_a_minute_plugin.Base.{ℕ, Option, none, some, [], ◌∷◌, ◌++◌}
use wait_a_minute_plugin.ContextItem.{
  State, promoted, history_or_none, created, active, compressed, stale, invalidated, archived,
  inherited, unknown, Layer, archive, Item, state_or_created, demoted,
}
use wait_a_minute_plugin.LayerMoves.{Event}

-- A compressed item wakes up; every other state is kept.
abbrev pub woken : State → State
woken compressed = active
woken created = created
woken active = active
woken stale = stale
woken invalidated = invalidated
woken archived = archived
woken (inherited x) = inherited x
woken (unknown x) = unknown x

-- The change of state that the history names, if there is one.
abbrev pub waking : State → Option (State × State)
waking compressed = some (compressed, active)
waking _ = none

-- The item after a promotion, and the event.
abbrev pub after_promotion : Item → Layer → Layer → ℕ → Item × Event
after_promotion item from target now = (
  record {
    id = item.id;
    kind = item.kind;
    category = item.category;
    lifecycle = some (woken (state_or_created item.lifecycle));
    lifecycle_history = some (
        history_or_none item.lifecycle_history
        ++ promoted from target (waking (state_or_created item.lifecycle)) now ∷ []);
    memory_layer = some target;
    metadata_layer = item.metadata_layer;
    marks = record {
      promoted = some (from, now);
      demoted = item.marks.demoted;
      archived_at = item.marks.archived_at;
    };
    importance = item.importance;
    timestamp = item.timestamp;
    updated_at = now;
  },
  record {
    from_layer = from;
    to_layer = target;
    lifecycle = waking (state_or_created item.lifecycle);
    timestamp = now;
  },
)

-- An item that is in use or stale is compressed when it goes to the archive; every other state and
-- every other move keeps the state.
abbrev pub stored_as : Layer → State → State
stored_as archive active = compressed
stored_as archive stale = compressed
stored_as _ s = s

-- The change of state that the history names, if there is one.
abbrev pub storing : Layer → State → Option (State × State)
storing archive active = some (active, compressed)
storing archive stale = some (stale, compressed)
storing _ _ = none

-- The time of the archiving, which no other layer changes.
abbrev pub archiving_time : Layer → Option ℕ → ℕ → Option ℕ
archiving_time archive old now = some now
archiving_time _ old now = old

-- The item after a demotion, and the event.
abbrev pub after_demotion : Item → Layer → Layer → ℕ → Item × Event
after_demotion item from target now = (
  record {
    id = item.id;
    kind = item.kind;
    category = item.category;
    lifecycle = some (stored_as target (state_or_created item.lifecycle));
    lifecycle_history = some (
        history_or_none item.lifecycle_history
        ++ demoted from target (storing target (state_or_created item.lifecycle)) now ∷ []);
    memory_layer = some target;
    metadata_layer = item.metadata_layer;
    marks = record {
      promoted = item.marks.promoted;
      demoted = some (from, now);
      archived_at = archiving_time target item.marks.archived_at now;
    };
    importance = item.importance;
    timestamp = item.timestamp;
    updated_at = now;
  },
  record {
    from_layer = from;
    to_layer = target;
    lifecycle = storing target (state_or_created item.lifecycle);
    timestamp = now;
  },
)

-- ===== src/LayerMoves/Tests.antt =====
-- Runs of the moves between layers, and their theorems at an active item.
use wait_a_minute_plugin.Lifecycle.{
  same, can_transition, is_lifecycle_state, transitions, transition, changed_item,
}
use wait_a_minute_plugin.Base.{◌<◌, ◌≡◌, refl, ◌↔◌, inl, inr, true, none, some, In, ok, throw}
use wait_a_minute_plugin.ContextItem.{
  active, compressed, n0, n1, n2, n3, archive, inherited_layer, Item,
}
use wait_a_minute_plugin.Layers.{working_layers, is_memory_layer, valid_layer, priority, rank}
use wait_a_minute_plugin.LayerMoves.{
  Event, resolve_current_layer, promote_item, demoted_item, demote_item, not_a_promotion,
  use_demotion, same_layer, promote_from, demote_from, if_permitted,
}
use wait_a_minute_plugin.LayerMoves.Promoted.{promote_item_iff}
use wait_a_minute_plugin.LayerMoves.Demoted.{demotion_change, demote_item_iff, archiving_change}
use wait_a_minute_plugin.LayerMoves.Back.{is_kept, promote-demote_item}
use wait_a_minute_plugin.LayerMoves.Ranked.{place}
use wait_a_minute_plugin.LayerMoves.After.{after_promotion, after_demotion}

abbrev fact_item : Item
fact_item = record {
  id = "i1";
  kind = none;
  category = none;
  lifecycle = some active;
  lifecycle_history = none;
  memory_layer = some n1;
  metadata_layer = none;
  marks = record { promoted = none; demoted = none; archived_at = none };
  importance = none;
  timestamp = some 5;
  updated_at = 5;
}

upwards_only : promote_item fact_item n3 9 ≡ throw (not_a_promotion n1 n3)
unfolding promote_item is_memory_layer same_layer promote_from resolve_current_layer valid_layer
    priority
upwards_only = refl

no_archive : promote_item fact_item archive 9 ≡ throw (use_demotion archive)
unfolding promote_item is_memory_layer same_layer
no_archive = refl

-- A name that every object inherits is taken for a layer of lower priority.
inherited_target :
    demote_item fact_item (inherited_layer "toString") 9
    ≡ ok (demoted_item fact_item n1 (inherited_layer "toString") none 9)
unfolding demote_item is_memory_layer demote_from resolve_current_layer valid_layer priority
    same_layer
inherited_target = refl

in_n1 : resolve_current_layer fact_item ≡ some n1
unfolding resolve_current_layer valid_layer is_memory_layer
in_n1 = refl

-- The item compressed, in the third layer.
abbrev squeezed : Item
squeezed = record fact_item { lifecycle = some compressed; memory_layer = some n2 }

in_n2 : resolve_current_layer squeezed ≡ some n2
unfolding resolve_current_layer valid_layer is_memory_layer
in_n2 = refl

promote_item_iff_example : (promote_item squeezed n0 9 ≡ ok (after_promotion squeezed n2 n0 9)) ↔ (
    In n0 working_layers
    × (place n0 < place n2)
    × (after_promotion squeezed n2 n0 9 ≡ after_promotion squeezed n2 n0 9))
unfolding rank priority
promote_item_iff_example =
    promote_item_iff squeezed n2 n0 9 (after_promotion squeezed n2 n0 9) in_n2 refl

demote_item_iff_example :
    (demote_item fact_item archive 9 ≡ ok (after_demotion fact_item n1 archive 9)) ↔ (
      (place n1 < place archive)
      × (after_demotion fact_item n1 archive 9 ≡ after_demotion fact_item n1 archive 9))
unfolding rank priority
demote_item_iff_example =
    demote_item_iff fact_item n1 archive 9 (after_demotion fact_item n1 archive 9) in_n1 refl refl
      refl

abbrev stored : Item × Event
stored = demoted_item fact_item n1 archive (demotion_change archive active) 9

storing : demote_item fact_item archive 9 ≡ ok (stored.0, stored.1)
unfolding demote_item is_memory_layer demote_from resolve_current_layer valid_layer priority
    same_layer same if_permitted can_transition is_lifecycle_state transitions transition
    demoted_item demotion_change changed_item archiving_change
storing = refl

promote-demote_item_example :
    (y : Item) × (ev' : Event) × (promote_item stored.0 n1 12 ≡ ok (y, ev'))
    × (y.memory_layer ≡ some n1)
    × (is_kept archive active ≡ true → y.lifecycle ≡ some active)
unfolding rank priority
promote-demote_item_example =
    promote-demote_item fact_item stored.0 stored.1 n1 archive 9 12 in_n1 refl (inr (inl refl)) refl
      storing

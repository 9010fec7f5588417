-- ===== src/Budget/Tests.antt =====
-- Runs of the budget manager, and the theorems at a manager whose first layer is over budget.
use wait_a_minute_plugin.Base.{
  ◌+◌, ◌≤◌, ◌<◌, String, ◌≡◌, refl, subst, ◌↔◌, inl, true, List, [], ◌∷◌, ◌++◌, arith, length, In,
  ok, throw,
}
use wait_a_minute_plugin.Base.Dict.{values, get, set}
use wait_a_minute_plugin.Budget.{
  Item, Manager, layer_order, new, set_budget, add_item, get_layer_usage, get_total_usage, total_of,
  violation_of, check_violations, below_minimum, unknown_layer, get_minimum, get_budget, LayerUsage,
  overlay, item_added, hard, log, used_in, violations_in,
}
use wait_a_minute_plugin.Budget.Audit.{Run, idle, step, adds, IsFunded}
use wait_a_minute_plugin.Budget.Usage.{
  get_total_usage-layers, check_violations_clean, check_violations_hard,
}
use wait_a_minute_plugin.Budget.Eviction.{check_violations_frees}

abbrev fresh : Manager
fresh = record {
  budgets = ("N0", 200) ∷ ("N1", 800) ∷ ("N2", 500) ∷ ("N3", 1500) ∷ ("ARCHIVE", 4000) ∷ [];
  minimums = ("N0", 100) ∷ ("N1", 100) ∷ ("N2", 100) ∷ ("N3", 200) ∷ ("ARCHIVE", 500) ∷ [];
  items = [];
  audit_log = [];
}

defaults : new [] [] ≡ fresh
unfolding new overlay
defaults = refl

too_low : set_budget fresh "N0" 50 1 ≡ throw (below_minimum "N0" 50 100)
unfolding set_budget get_minimum get
too_low = refl

no_layer : add_item fresh "N9" "x" 5 "OPTIONAL" 1 ≡ throw (unknown_layer "N9")
unfolding add_item
no_layer = refl

abbrev goal : Item
goal = record { layer = "N0"; tokens = 250; item_id = "goal"; admission = "REQUIRED" }

abbrev full : Manager
full = record fresh {
  items = ("goal", goal) ∷ [];
  audit_log =
      record { layer = "N0"; action = item_added "goal" 250 "REQUIRED"; timestamp = 1 } ∷ [];
}

abbrev over_usage : LayerUsage
over_usage = record { layer = "N0"; used = 250; budget = 200; remaining = 0; over_budget = true }

added : add_item fresh "N0" "goal" 250 "REQUIRED" 1 ≡ ok (over_usage, full)
unfolding add_item get_layer_usage log used_in get_budget set get
added = refl

full-Run : Run (new [] []) full
full-Run =
    step (subst (Run (new [] [])) defaults idle)
      (adds "N0" "goal" 250 "REQUIRED" 1 over_usage added)

get_total_usage-layers_example :
    (get_total_usage full
      ≡ (get_layer_usage full "N0").used
        + ((get_layer_usage full "N1").used
            + ((get_layer_usage full "N2").used
                + ((get_layer_usage full "N3").used + (get_layer_usage full "ARCHIVE").used))))
    × (length full.audit_log ≤ 10000)
get_total_usage-layers_example = get_total_usage-layers [] [] full full-Run

check_violations_clean_here : ((check_violations full).clean ≡ true) ↔ (
    (layer : String)
    → In layer layer_order
    → (get_layer_usage full layer).used ≤ (get_layer_usage full layer).budget)
check_violations_clean_here = check_violations_clean full

reported : In (violation_of full "N0") (check_violations full).violations
unfolding check_violations violations_in get_layer_usage get_budget get used_in
reported = inl refl

fresh-IsFunded : IsFunded fresh
unfolding get_minimum get_budget get
fresh-IsFunded layer = ground arith

check_violations_hard_example :
    In (violation_of full "N0").layer layer_order
    × ((violation_of full "N0").severity ≡ hard)
    × ((violation_of full "N0").budget + (violation_of full "N0").over_by
        ≡ (violation_of full "N0").used)
    × (0 < (violation_of full "N0").over_by)
check_violations_hard_example =
    check_violations_hard fresh full (violation_of full "N0") fresh-IsFunded
      (step idle (adds "N0" "goal" 250 "REQUIRED" 1 over_usage added)) reported

check_violations_frees_example :
    ((violation_of full "N0").over_by ≤ total_of (violation_of full "N0").suggestion)
    × ((x : Item)
        → In x (violation_of full "N0").suggestion
        → In x (values full.items) × (x.layer ≡ (violation_of full "N0").layer))
    × ((init : List Item) (last : Item)
        → (violation_of full "N0").suggestion ≡ init ++ last ∷ []
        → total_of init < (violation_of full "N0").over_by)
check_violations_frees_example = check_violations_frees full (violation_of full "N0") reported

-- ===== src/Budget.antt =====
-- src/context/context-budget-manager.js: the token budgets of the memory layers. A manager is a
-- record, a method that writes returns the new one, and the clock is an argument. Token counts and
-- budgets are natural numbers; the floating quotient `utilization` is left out.
pub mod Usage
pub mod Eviction
pub mod Audit
mod Tests
use wait_a_minute_plugin.Base.{
  ℕ, zero, suc, ◌+◌, ◌-◌, String, Bool, not, ◌&&◌, Option, none, some, List, [], ◌∷◌, ◌++◌, ltb,
  leb, ◌=?◌, if◌then◌else◌, length, filter, includes, Result, ok, throw, is_empty,
}
use wait_a_minute_plugin.Base.Dict.{Dict, get, set, delete, values}

pub record Item : Type 0 where
  pub layer : String
  pub tokens : ℕ
  pub item_id : String
  pub admission : String

-- The action of an audit entry, with what its text shows.
pub data Action : Type 0 where
  budget_updated : ℕ → Action
  item_added : String → ℕ → String → Action
  item_removed : String → Action

pub record Entry : Type 0 where
  pub layer : String
  pub action : Action
  pub timestamp : ℕ

pub record Manager : Type 0 where
  pub budgets : Dict ℕ
  pub minimums : Dict ℕ
  pub items : Dict Item
  pub audit_log : List Entry

abbrev pub default_budgets : Dict ℕ
default_budgets = ("N0", 200) ∷ ("N1", 800) ∷ ("N2", 500) ∷ ("N3", 1500) ∷ ("ARCHIVE", 4000) ∷ []

abbrev pub minimum_budgets : Dict ℕ
minimum_budgets = ("N0", 100) ∷ ("N1", 100) ∷ ("N2", 100) ∷ ("N3", 200) ∷ ("ARCHIVE", 500) ∷ []

abbrev pub layer_order : List String
layer_order = "N0" ∷ "N1" ∷ "N2" ∷ "N3" ∷ "ARCHIVE" ∷ []

-- { ...defaults, ...options }
unfoldable pub overlay : Dict ℕ → Dict ℕ → Dict ℕ
overlay base [] = base
overlay base ((k, v) ∷ rest) = overlay (set base k v) rest

unfoldable pub new : Dict ℕ → Dict ℕ → Manager
new budgets minimums = record {
  budgets = overlay default_budgets budgets;
  minimums = overlay minimum_budgets minimums;
  items = [];
  audit_log = [];
}

abbrev pub or_zero : Option ℕ → ℕ
or_zero none = 0
or_zero (some n) = n

-- The number under the layer or 0; for the names that every object inherits and that are not set, the
-- source answers a value that is no number, which is not modelled here or in get_minimum.
unfoldable pub get_budget : Manager → String → ℕ
get_budget m layer = or_zero (get m.budgets layer)

unfoldable pub get_minimum : Manager → String → ℕ
get_minimum m layer = or_zero (get m.minimums layer)

-- `slice` from the n-th element on.
unfoldable pub drop {ℓ} : {A : Type ℓ} → ℕ → List A → List A
drop zero xs = xs
drop (suc n) [] = []
drop (suc n) (x ∷ xs) = drop n xs

-- The limits 10000 and 5000 of the log.
abbrev pub log_limit : ℕ
log_limit = 10000

abbrev pub log_kept : ℕ
log_kept = 5000

unfoldable pub log : String → Action → ℕ → Manager → Manager
log layer action now m =
    let longer = m.audit_log ++ record { layer = layer; action = action; timestamp = now } ∷ [] in
    record m {
      audit_log =
          if ltb log_limit (length longer) then drop (length longer - log_kept) longer else longer;
    }

pub data Error : Type 0 where
  below_minimum : String → ℕ → ℕ → Error
  unknown_layer : String → Error

unfoldable pub set_budget : Manager → String → ℕ → ℕ → Result Error Manager
set_budget m layer tokens now =
    if ltb tokens (get_minimum m layer)
    then throw (below_minimum layer tokens (get_minimum m layer))
    else ok
        (log layer (budget_updated tokens) now (record m { budgets = set m.budgets layer tokens }))

-- The loop of `getLayerUsage`.
unfoldable pub used_in : String → List Item → ℕ
used_in layer [] = 0
used_in layer (i ∷ is) = (if i.layer =? layer then i.tokens else 0) + used_in layer is

pub record LayerUsage : Type 0 where
  pub layer : String
  pub used : ℕ
  pub budget : ℕ
  pub remaining : ℕ
  pub over_budget : Bool

-- Math.max(0, budget - used) is the subtraction that stops at 0.
unfoldable pub get_layer_usage : Manager → String → LayerUsage
get_layer_usage m layer =
    let used = used_in layer (values m.items) in
    record {
      layer = layer;
      used = used;
      budget = get_budget m layer;
      remaining = get_budget m layer - used;
      over_budget = ltb (get_budget m layer) used;
    }

unfoldable pub add_item :
    Manager → String → String → ℕ → String → ℕ → Result Error (LayerUsage × Manager)
add_item m layer item_id tokens admission now =
    if not (includes layer_order layer)
    then throw (unknown_layer layer)
    else let item : Item = record {
      layer = layer;
      tokens = tokens;
      item_id = item_id;
      admission = admission;
    } in
      let m' : Manager =
        log layer (item_added item_id tokens admission) now
          (record m { items = set m.items item_id item }) in
      ok (get_layer_usage m' layer, m')

unfoldable pub remove_item : Manager → String → ℕ → Option Item × Manager
remove_item m item_id now = elim (get m.items item_id) [
  | none ↦ (none, m)
  | some item ↦ (
    some item,
    log item.layer (item_removed item_id) now (record m { items = delete m.items item_id }),
  )
]

unfoldable pub get_items : Manager → String → List Item
get_items m layer = filter (λ i. i.layer =? layer) (values m.items)

unfoldable pub total_of : List Item → ℕ
total_of [] = 0
total_of (i ∷ is) = i.tokens + total_of is

unfoldable pub get_total_usage : Manager → ℕ
get_total_usage m = total_of (values m.items)

-- `sort` by the tokens, which keeps the order of equal ones.
unfoldable pub insert : Item → List Item → List Item
insert i [] = i ∷ []
insert i (j ∷ js) = if leb i.tokens j.tokens then i ∷ j ∷ js else j ∷ insert i js

unfoldable pub sort : List Item → List Item
sort [] = []
sort (i ∷ is) = insert i (sort is)

unfoldable pub take_until : ℕ → ℕ → List Item → List Item
take_until excess freed [] = []
take_until excess freed (i ∷ is) =
    if leb excess freed then [] else i ∷ take_until excess (freed + i.tokens) is

-- A suggestion keeps the whole item, of which the source copies three fields.
unfoldable pub suggest_eviction : Manager → String → ℕ → List Item
suggest_eviction m layer excess = take_until excess 0 (sort (get_items m layer))

pub data Severity : Type 0 where
  soft hard : Severity

pub record Violation : Type 0 where
  pub layer : String
  pub severity : Severity
  pub over_by : ℕ
  pub used : ℕ
  pub budget : ℕ
  pub minimum : ℕ
  pub suggestion : List Item

unfoldable pub violation_of : Manager → String → Violation
violation_of m layer =
    let usage = get_layer_usage m layer in
    record {
      layer = layer;
      severity =
          if ltb 0 (get_minimum m layer) && leb usage.used (get_minimum m layer)
          then soft
          else hard;
      over_by = usage.used - usage.budget;
      used = usage.used;
      budget = usage.budget;
      minimum = get_minimum m layer;
      suggestion = suggest_eviction m layer (usage.used - usage.budget);
    }

-- The loop over the layers.
unfoldable pub violations_in : Manager → List String → List Violation
violations_in m [] = []
violations_in m (layer ∷ layers) =
    let rest = violations_in m layers in
    if (get_layer_usage m layer).over_budget then violation_of m layer ∷ rest else rest

unfoldable pub total_over : List Violation → ℕ
total_over [] = 0
total_over (v ∷ vs) = v.over_by + total_over vs

pub record Report : Type 0 where
  pub violations : List Violation
  pub clean : Bool
  pub total_over_budget : ℕ

unfoldable pub check_violations : Manager → Report
check_violations m =
    let violations = violations_in m layer_order in
    record {
      violations = violations;
      clean = is_empty violations;
      total_over_budget = total_over violations;
    }

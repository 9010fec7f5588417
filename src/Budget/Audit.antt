-- ===== src/Budget/Audit.antt =====
-- The methods of src/context/context-budget-manager.js that write, as steps, and what they keep: the
-- bound of the audit log, the known layers of the items, and the guaranteed minimums.
use wait_a_minute_plugin.Base.{
  ℕ, zero, suc, ◌-◌, ◌≤◌, String, ◌≡◌, refl, sym, subst, inl, inr, Bool, true, false, Option, none,
  some, List, [], ◌∷◌, ◌++◌, arith, eq_iff, ltb, ◌=?◌, if◌then◌else◌, Bool-cases, length, all,
  length-append, includes, ok,
}
use wait_a_minute_plugin.Base.Dict.{Dict, get, set, delete, values, get-set}
use wait_a_minute_plugin.Budget.{
  Item, Action, Entry, Manager, LayerUsage, layer_order, log_limit, log_kept, drop, log, set_budget,
  add_item, remove_item, new, get_budget, get_minimum, or_zero, item_added, budget_updated,
  item_removed,
}

-- One call that writes; a call that throws writes nothing.
pub data Step (m : Manager) : Manager → Type 0 where
  sets :
      {m' : Manager} (layer : String) (tokens now : ℕ)
      → set_budget m layer tokens now ≡ ok m'
      → Step m m'
  adds :
      {m' : Manager} (layer id : String) (tokens : ℕ) (admission : String) (now : ℕ)
      (u : LayerUsage)
      → add_item m layer id tokens admission now ≡ ok (u, m')
      → Step m m'
  removes : (id : String) (now : ℕ) → Step m (remove_item m id now).1

pub data Run (m : Manager) : Manager → Type 0 where
  idle : Run m m
  step : {m' m'' : Manager} → Run m m' → Step m' m'' → Run m m''

length-drop : {A : Type 0} (n : ℕ) (xs : List A) → length (drop n xs) ≡ length xs - n
unfolding drop
length-drop zero xs = omega arith
length-drop (suc n) [] = omega arith
length-drop (suc n) (x ∷ xs) = omega (arith, length-drop n xs)

trimmed :
    (xs : List Entry)
    → length xs ≤ suc log_limit
    → length (if ltb log_limit (length xs) then drop (length xs - log_kept) xs else xs) ≤ log_limit
trimmed xs h = elim (Bool-cases (ltb log_limit (length xs))) [
  | inl e ↦ rw e (omega (arith, length-drop (length xs - log_kept) xs))
  | inr e ↦ rw e (ground arith)
]

log_short :
    (layer : String) (action : Action) (now : ℕ) (m : Manager)
    → length m.audit_log ≤ log_limit
    → length (log layer action now m).audit_log ≤ log_limit
unfolding log
log_short layer action now m h =
    trimmed (m.audit_log ++ record { layer = layer; action = action; timestamp = now } ∷ []) (
      omega (
        arith,
        length-append m.audit_log (record { layer = layer; action = action; timestamp = now } ∷ []),
      ))

-- The items stand in known layers.
abbrev pub Known : Manager → Type 0
Known m = all (λ i. includes layer_order i.layer) (values m.items) ≡ true

all-set :
    (p : Item → Bool) (d : Dict Item) (k : String) (i : Item)
    → all p (values d) ≡ true
    → p i ≡ true
    → all p (values (set d k i)) ≡ true
unfolding set
all-set p [] k i h hi = ground arith
all-set p ((j, x) ∷ d) k i h hi = ground (arith, all-set p d k i)

all-delete :
    (p : Item → Bool) (d : Dict Item) (k : String)
    → all p (values d) ≡ true
    → all p (values (delete d k)) ≡ true
unfolding delete
all-delete p [] k h = refl
all-delete p ((j, x) ∷ d) k h = ground (arith, all-delete p d k)

-- What every step keeps: at most 10000 entries in the log, items in known layers only.
pub record IsKept (m : Manager) : Type 0 where
  pub short : length m.audit_log ≤ log_limit
  pub known : Known m

log-IsKept :
    (layer : String) (action : Action) (now : ℕ) (m : Manager)
    → IsKept m
    → IsKept (log layer action now m)
unfolding log
log-IsKept layer action now m h = record {
  short = log_short layer action now m h.short;
  known = h.known;
}

add_item_parts :
    (m m' : Manager) (layer id : String) (tokens : ℕ) (admission : String) (now : ℕ)
    (u : LayerUsage)
    → add_item m layer id tokens admission now ≡ ok (u, m')
    → (includes layer_order layer ≡ true)
      × (m'
          ≡ log layer (item_added id tokens admission) now (record m {
            items =
                set m.items id
                  (record { layer = layer; tokens = tokens; item_id = id; admission = admission });
          }))
unfolding add_item
add_item_parts m m' layer id tokens admission now u h = ground arith

set_budget_parts :
    (m m' : Manager) (layer : String) (tokens now : ℕ)
    → set_budget m layer tokens now ≡ ok m'
    → (get_minimum m layer ≤ tokens)
      × (m'
          ≡ log layer
              (budget_updated tokens)
              now
              (record m { budgets = set m.budgets layer tokens }))
unfolding set_budget
set_budget_parts m m' layer tokens now h = ground arith

remove_item-IsKept :
    (m : Manager) (id : String) (now : ℕ) → IsKept m → IsKept (remove_item m id now).1
unfolding remove_item
remove_item-IsKept m id now h = one (get m.items id)
  where
    one :
        (found : Option Item)
        → let r : Option Item × Manager = elim found [
          | none ↦ (none, m)
          | some item ↦ (
            some item,
            log item.layer (item_removed id) now (record m { items = delete m.items id }),
          )
        ] in
          IsKept r.1
    one none = h
    one (some item) =
        log-IsKept item.layer (item_removed id) now (record m { items = delete m.items id })
          (record {
            short = h.short;
            known = all-delete (λ i. includes layer_order i.layer) m.items id h.known;
          })

Step-IsKept : {m m' : Manager} → Step m m' → IsKept m → IsKept m'
Step-IsKept {m} {m'} (sets layer tokens now e) h =
    subst IsKept (sym (set_budget_parts m m' layer tokens now e).1)
      (log-IsKept layer _ now _ (record { short = h.short; known = h.known }))
Step-IsKept {m} {m'} (adds layer id tokens admission now u e) h =
    let (there, same) = add_item_parts m m' layer id tokens admission now u e in
    subst IsKept (sym same) (
      log-IsKept layer _ now _ (record {
        short = h.short;
        known = all-set (λ i. includes layer_order i.layer) m.items id _ h.known there;
      }))
Step-IsKept {m} (removes id now) h = remove_item-IsKept m id now h

pub Run-IsKept : {m m' : Manager} → Run m m' → IsKept m → IsKept m'
Run-IsKept idle h = h
Run-IsKept (step r s) h = Step-IsKept s (Run-IsKept r h)

pub new-IsKept : (budgets minimums : Dict ℕ) → IsKept (new budgets minimums)
unfolding new
new-IsKept budgets minimums = record { short = omega arith; known = refl }

-- Every budget reaches the guaranteed minimum.
abbrev pub IsFunded : Manager → Type 0
IsFunded m = (layer : String) → get_minimum m layer ≤ get_budget m layer

log-IsFunded :
    (layer : String) (action : Action) (now : ℕ) (m : Manager)
    → IsFunded m
    → IsFunded (log layer action now m)
unfolding log get_minimum get_budget
log-IsFunded layer action now m h l = h l

set_budget-IsFunded :
    (m m' : Manager) (layer : String) (tokens now : ℕ)
    → set_budget m layer tokens now ≡ ok m'
    → IsFunded m
    → IsFunded m'
unfolding log get_minimum get_budget
set_budget-IsFunded m m' layer tokens now e' h =
    let same = (set_budget_parts m m' layer tokens now e').1 in
    subst IsFunded (sym same) λ l.
      subst (λ o. or_zero (get m.minimums l) ≤ or_zero o) (sym (get-set m.budgets layer tokens l))
        (one l (layer =? l) refl)
  where
    one :
        (l : String) (b : Bool)
        → (layer =? l) ≡ b
        → or_zero (get m.minimums l) ≤ or_zero (if b then some tokens else get m.budgets l)
    one l true e =
        subst (λ z. or_zero (get m.minimums z) ≤ tokens) ((eq_iff layer l).0 e)
          (set_budget_parts m m' layer tokens now e').0
    one l false e = h l

remove_item-IsFunded :
    (m : Manager) (id : String) (now : ℕ) → IsFunded m → IsFunded (remove_item m id now).1
unfolding remove_item get_minimum get_budget
remove_item-IsFunded m id now h = one (get m.items id)
  where
    one :
        (found : Option Item)
        → let r : Option Item × Manager = elim found [
          | none ↦ (none, m)
          | some item ↦ (
            some item,
            log item.layer (item_removed id) now (record m { items = delete m.items id }),
          )
        ] in
          IsFunded r.1
    one none = h
    one (some item) =
        log-IsFunded item.layer (item_removed id) now (record m { items = delete m.items id }) h

Step-IsFunded : {m m' : Manager} → Step m m' → IsFunded m → IsFunded m'
unfolding get_minimum get_budget
Step-IsFunded {m} {m'} (sets layer tokens now e) h = set_budget-IsFunded m m' layer tokens now e h
Step-IsFunded {m} {m'} (adds layer id tokens admission now u e) h =
    subst IsFunded (sym (add_item_parts m m' layer id tokens admission now u e).1) (
      log-IsFunded layer _ now
        (record m {
          items =
              set m.items id
                (record { layer = layer; tokens = tokens; item_id = id; admission = admission });
        })
        h)
Step-IsFunded {m} (removes id now) h = remove_item-IsFunded m id now h

-- Budgets that reach the guaranteed minimums do so after any sequence of `setBudget`, `addItem` and
-- `removeItem`.
pub Run-IsFunded : {m m' : Manager} → Run m m' → IsFunded m → IsFunded m'
Run-IsFunded idle h = h
Run-IsFunded (step r s) h = Step-IsFunded s (Run-IsFunded r h)

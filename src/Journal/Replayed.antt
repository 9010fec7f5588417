-- ===== src/Journal/Replayed.antt =====
-- What a replay of the journal of src/persistence/transaction-log.js leaves: the last write of each key.
use wait_a_minute_plugin.Base.{
  suc, ◌+◌, String, ◌≡◌, refl, sym, ap, ◌∙◌, Bool, true, false, not, ◌||◌, Option, none, some, List,
  [], ◌∷◌, ◌++◌, arith, ◌=?◌, if◌then◌else◌, length, filter, length-append, append_nil,
  append_assoc, filter-append,
}
use wait_a_minute_plugin.Base.Dict.{Dict, get, get-set, get-delete}
use wait_a_minute_plugin.Journal.{Entry, Replay, op_or_set, key_of, write, step, steps, replay}

abbrev pub or_else {ℓ} : {A : Type ℓ} → Option A → A → A
or_else none d = d
or_else (some x) d = x

abbrev first_some {ℓ} : {A : Type ℓ} → Option A → Option A → Option A
first_some none y = y
first_some (some x) y = some x

first_some-none : {A : Type 0} (x : Option A) → first_some x none ≡ x
first_some-none none = refl
first_some-none (some x) = refl

first_some_assoc :
    {A : Type 0} (x y z : Option A) → first_some (first_some x y) z ≡ first_some x (first_some y z)
first_some_assoc none y z = refl
first_some_assoc (some x) y z = refl

module _ {D : Type 0} where
  abbrev pub rejected : Option (Entry D) → Bool
  rejected none = true
  rejected (some e) = e.corrupt || (e.kind =? "" || e.task_id =? "")

  -- What an entry alone does to a key: nothing, a removal (`some none`) or a write.
  unfoldable pub effect : Option (Entry D) → String → Option (Option D)
  effect none k = none
  effect (some e) k =
      if rejected (some e) || not (key_of e =? k)
      then none
      else some (if op_or_set e.op =? "del" then none else some e.content)

  -- The effect of the last entry that has one on the key.
  unfoldable pub last_effect : List (Option (Entry D)) → String → Option (Option D)
  last_effect [] k = none
  last_effect (e ∷ es) k = first_some (last_effect es k) (effect e k)

  get-write :
      (state : Dict D) (e : Entry D) (k : String)
      → get (write state e) k ≡ (
          if key_of e =? k
          then (if op_or_set e.op =? "del" then none else some e.content)
          else get state k)
  unfolding write
  get-write state e k =
      ground (arith, get-set state (key_of e) e.content k, get-delete state (key_of e) k)

  step_parts :
      (r : Replay D) (e : Option (Entry D)) (k : String)
      → (get (step r e).final_state k ≡ or_else (effect e k) (get r.final_state k))
        × ((step r e).skipped ≡ r.skipped ++ filter rejected (e ∷ []))
        × (length (step r e).applied + length (step r e).skipped
            ≡ suc (length r.applied + length r.skipped))
  unfolding step effect
  step_parts r none k = (refl, refl, omega (arith, length-append r.skipped (none ∷ [])))
  step_parts r (some e) k = one (rejected (some e))
    where
      one :
          (b : Bool)
          → let next : Replay D =
              if b then record r { skipped = r.skipped ++ some e ∷ [] } else record r {
                applied =
                    r.applied ++ record { seq = e.seq; key = key_of e; op = op_or_set e.op } ∷ [];
                final_state = write r.final_state e;
              } in
            (get next.final_state k
              ≡ or_else
                  (if b || not (key_of e =? k)
                    then none
                    else some (if op_or_set e.op =? "del" then none else some e.content))
                  (get r.final_state k))
            × (next.skipped ≡ r.skipped ++ (if b then some e ∷ [] else []))
            × (length next.applied + length next.skipped
                ≡ suc (length r.applied + length r.skipped))
      one true = (refl, refl, omega (arith, length-append r.skipped (some e ∷ [])))
      one false = (
        rw (get-write r.final_state e k) (two (key_of e =? k)),
        sym (append_nil _),
        omega (
          arith,
          length-append r.applied
              (record { seq = e.seq; key = key_of e; op = op_or_set e.op } ∷ []),
        ),
      )
        where
          two :
              (c : Bool)
              → (if c
                  then (if op_or_set e.op =? "del" then none else some e.content)
                  else get r.final_state k)
                ≡ or_else
                    (if not c
                      then none
                      else some (if op_or_set e.op =? "del" then none else some e.content))
                    (get r.final_state k)
          two true = refl
          two false = refl

  last_effect-append :
      (xs ys : List (Option (Entry D))) (k : String)
      → last_effect (xs ++ ys) k ≡ first_some (last_effect ys k) (last_effect xs k)
  unfolding last_effect
  last_effect-append [] ys k = sym (first_some-none _)
  last_effect-append (x ∷ xs) ys k =
      rw (last_effect-append xs ys k)
        (first_some_assoc (last_effect ys k) (last_effect xs k) (effect x k))

  or_else_first :
      (x y : Option (Option D)) (d : Option D)
      → or_else (first_some x y) d ≡ or_else x (or_else y d)
  or_else_first none y d = refl
  or_else_first (some x) y d = refl

  steps_parts :
      (r : Replay D) (es : List (Option (Entry D))) (k : String)
      → (get (steps r es).final_state k ≡ or_else (last_effect es k) (get r.final_state k))
        × ((steps r es).skipped ≡ r.skipped ++ filter rejected es)
        × (length (steps r es).applied + length (steps r es).skipped
            ≡ length es + (length r.applied + length r.skipped))
  unfolding steps last_effect
  steps_parts r [] k = (refl, sym (append_nil _), omega arith)
  steps_parts r (e ∷ es) k =
      let (a, b, c) = steps_parts (step r e) es k in
      let (a', b', c') = step_parts r e k in
      (
        a ∙ rw (a', or_else_first (last_effect es k) (effect e k) (get r.final_state k)) refl,
        b
            ∙ rw (b', append_assoc r.skipped (filter rejected (e ∷ [])) (filter rejected es))
                (ap (λ l. r.skipped ++ l) (sym (filter-append rejected (e ∷ []) es))),
        omega (arith, c, c'),
      )

  -- After a replay each key holds what the last entry that writes or removes it says, whatever came
  -- before, and where there is none what it held at the start. The entries that are corrupt, null or
  -- without a type or a task are skipped, in their order, and the others are applied.
  pub replay-last_effect :
      (es : List (Option (Entry D))) (initial : Dict D) (k : String)
      → let r = replay es initial in
        (get r.final_state k ≡ or_else (last_effect es k) (get initial k))
        × (r.skipped ≡ filter rejected es)
        × (length r.applied + length r.skipped ≡ length es)
  unfolding replay
  replay-last_effect es initial k =
      let (a, b, c) =
        steps_parts (record { applied = []; skipped = []; final_state = initial }) es k in
      (a, b, omega (arith, c))

  -- A replay of a journal onto the state that it left changes no key, and neither does a replay of
  -- any last part of it.
  pub replay_again :
      (xs ys : List (Option (Entry D))) (initial : Dict D) (k : String)
      → let whole = replay (xs ++ ys) initial in
        get (replay ys whole.final_state).final_state k ≡ get whole.final_state k
  replay_again xs ys initial k =
      let whole = replay (xs ++ ys) initial in
      let (again, _, _) = replay-last_effect ys whole.final_state k in
      let (first, _, _) = replay-last_effect (xs ++ ys) initial k in
      again ∙ rw (first, last_effect-append xs ys k) (one (last_effect ys k))
    where
      one :
          (x : Option (Option D))
          → or_else x (or_else (first_some x (last_effect xs k)) (get initial k))
            ≡ or_else (first_some x (last_effect xs k)) (get initial k)
      one none = refl
      one (some w) = refl

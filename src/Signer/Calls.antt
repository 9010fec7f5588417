-- ===== src/Signer/Calls.antt =====
-- The calls on a signer of src/policy/multi-signer.js, and what one of them does to the approvals.
use wait_a_minute_plugin.Base.{
  String, ◌≡◌, refl, sym, ap, ◌∙◌, ◌≢◌, ◌⊎◌, inl, inr, Bool, true, false, not, ◌&&◌, Option, none,
  some, List, [], ◌∷◌, ◌++◌, eq_iff, ◌=?◌, if◌then◌else◌, Bool-cases, includes,
}
use wait_a_minute_plugin.Base.Dict.{get, set, delete, get-set, get-delete}
use wait_a_minute_plugin.Signer.{
  Config, Tallies, approvals_or_none, approvals_of, get_tally, approve, reset,
}

-- The calls on a signer, the latest first.
pub data Call : Type 0 where
  approved : String → String → Call
  cleared : Option String → Call

unfoldable pub run : Config → List Call → Tallies
run c [] = []
run c (approved change signer ∷ h) = (approve c (run c h) change signer).1
run c (cleared which ∷ h) = reset (run c h) which

-- The signer approved the change, and it was not reset after that.
abbrev pub Approved : List Call → String → String → Type 0
Approved [] change signer = ⊥
Approved (approved k s ∷ h) change signer = ((k ≡ change) × (s ≡ signer)) ⊎ Approved h change signer
Approved (cleared none ∷ h) change signer = ⊥
Approved (cleared (some k) ∷ h) change signer = (k ≢ change) × Approved h change signer

pub approvals_of-set :
    (t : Tallies) (k : String) (v : List String) (j : String)
    → approvals_of (set t k v) j ≡ (if k =? j then v else approvals_of t j)
unfolding approvals_of
approvals_of-set t k v j = ap approvals_or_none (get-set t k v j) ∙ one (k =? j)
  where
    one :
        (b : Bool)
        → approvals_or_none (if b then some v else get t j)
          ≡ (if b then v else approvals_or_none (get t j))
    one true = refl
    one false = refl

pub approvals_of-delete :
    (t : Tallies) (k j : String)
    → approvals_of (delete t k) j ≡ (if k =? j then [] else approvals_of t j)
unfolding approvals_of
approvals_of-delete t k j = ap approvals_or_none (get-delete t k j) ∙ one (k =? j)
  where
    one :
        (b : Bool)
        → approvals_or_none (if b then none else get t j)
          ≡ (if b then [] else approvals_or_none (get t j))
    one true = refl
    one false = refl

approvals_of-get_tally :
    (t : Tallies) (k j : String) → approvals_of (get_tally t k) j ≡ approvals_of t j
unfolding get_tally approvals_of
approvals_of-get_tally t k j = one (get t k) refl
  where
    one :
        (o : Option (List String))
        → get t k ≡ o
        → approvals_of (elim o [ none ↦ set t k [] | some xs ↦ t ]) j ≡ approvals_of t j
    one none e = approvals_of-set t k [] j ∙ same (k =? j) refl
      where
        same : (b : Bool) → (k =? j) ≡ b → (if b then [] else approvals_of t j) ≡ approvals_of t j
        same true h = ap approvals_or_none (sym (ap (get t) (sym ((eq_iff k j).0 h)) ∙ e))
        same false h = refl
    one (some xs) e = refl

-- The checks that an approval passes.
abbrev pub accepted : Config → Tallies → String → String → Bool
accepted c t change signer =
    not (change =? "")
    && (not (signer =? "")
        && (includes c.signers signer && not (includes (approvals_of t change) signer)))

pub approvals_of-approve :
    (c : Config) (t : Tallies) (change signer k : String)
    → approvals_of (approve c t change signer).1 k ≡ (
        if accepted c t change signer && change =? k
        then approvals_of t change ++ signer ∷ []
        else approvals_of t k)
unfolding approve
approvals_of-approve c t change signer k = elim (Bool-cases (change =? "")) [
  | inl e ↦ rw (e, approve) refl
  | inr e ↦ elim (Bool-cases (signer =? "")) [
    | inl f ↦ rw (e, f, approve) refl
    | inr f ↦ elim (Bool-cases (includes c.signers signer)) [
      | inr g ↦ rw (e, f, g, approve) refl
      | inl g ↦ elim (Bool-cases (includes (approvals_of t change) signer)) [
        | inl d ↦
            rw (e, f, g, approvals_of-get_tally t change change, d, approve)
              (approvals_of-get_tally t change k)
        | inr d ↦
            rw (e, f, g, approvals_of-get_tally t change change, d, approve)
              (approvals_of-set (get_tally t change) change (approvals_of t change ++ signer ∷ []) k
                ∙ ap (λ y. if change =? k then approvals_of t change ++ signer ∷ [] else y)
                    (approvals_of-get_tally t change k))
      ]
    ]
  ]
]

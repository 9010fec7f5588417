-- ===== src/Signer/Standing.antt =====
-- After any calls of src/policy/multi-signer.js the approvals of a change are those that stand.
use wait_a_minute_plugin.Base.{
  String, ◌≡◌, refl, sym, subst, ◌≢◌, ◌↔◌, inl, inr, Bool, true, false, not, ◌&&◌, Option, none,
  some, List, [], ◌∷◌, ◌++◌, arith, eq_iff, ◌=?◌, if◌then◌else◌, In, includes, includes-In,
  of_not_true, of_not_false, and_true_parts, In-append, Distinct, Distinct-snoc,
}
use wait_a_minute_plugin.Base.Dict.{get}
use wait_a_minute_plugin.Signer.{Config, Tallies, approvals_or_none, approvals_of, approve, reset}
use wait_a_minute_plugin.Signer.Calls.{
  Call, approved, cleared, run, Approved, approvals_of-delete, accepted, approvals_of-approve,
}

-- The approvals that stand are the eligible signers who approved, each once.
pub record Stands (c : Config) (h : List Call) (change : String) (xs : List String) : Type 0 where
  pub distinct : Distinct xs
  pub exact : (s : String) → In s xs ↔ (In s c.signers × Approved h change s)

module _ (c : Config) (named : (s : String) → In s c.signers → s ≢ "") where
  grown-Stands :
      (h : List Call) (change signer : String) (xs : List String)
      → includes c.signers signer ≡ true
      → includes xs signer ≡ false
      → Stands c h change xs
      → Stands c (approved change signer ∷ h) change (xs ++ signer ∷ [])
  grown-Stands h change signer xs eligible new_ st = record {
    distinct = Distinct-snoc xs signer st.distinct (λ m. cc ((includes-In xs signer).1 m, new_));
    exact = λ s. (
      λ m. elim ((In-append xs (signer ∷ []) s).0 m) [
        | inl old ↦ let (e, a) = (st.exact s).0 old in (e, inr a)
        | inr one ↦ elim one [
          | inl same ↦ (
            subst (λ z. In z c.signers) (sym same) ((includes-In c.signers signer).0 eligible),
            inl (refl, sym same),
          )
          | inr none_ ↦ absurd none_
        ]
      ],
      λ m.
          (In-append xs (signer ∷ []) s).1
            (elim m.1 [ inl now ↦ inr (inl (sym now.1)) | inr a ↦ inl ((st.exact s).1 (m.0, a)) ]),
    );
  }

  kept-Stands :
      (h : List Call) (t : Tallies) (change signer k : String)
      → k ≢ ""
      → (accepted c t change signer && change =? k) ≡ false
      → Stands c h k (approvals_of t k)
      → Stands c (approved change signer ∷ h) k (approvals_of t k)
  kept-Stands h t change signer k some_ refused st = record {
    distinct = st.distinct;
    exact = λ s. (
      λ m. let (e, a) = (st.exact s).0 m in (e, inr a),
      λ m. elim m.1 [
        | inl now ↦ (includes-In (approvals_of t k) s).0 (there s m.0 now.0 now.1)
        | inr a ↦ (st.exact s).1 (m.0, a)
      ],
    );
  }
    where
      there :
          (s : String)
          → In s c.signers
          → change ≡ k
          → signer ≡ s
          → includes (approvals_of t k) s ≡ true
      there s eligible e f =
          let r = subst (λ z. (accepted c t z signer && z =? k) ≡ false) e refused in
          let r' = subst (λ z. (accepted c t k z && k =? k) ≡ false) f r in
          of_not_false _ λ n. cc (
            r',
            of_not_true (k =? "") (λ b. some_ ((eq_iff k "").0 b)),
            of_not_true (s =? "") (λ b. named s eligible ((eq_iff s "").0 b)),
            (includes-In c.signers s).1 eligible,
            n,
            (eq_iff k k).1 refl,
          )

  approved-Stands :
      (h : List Call) (t : Tallies) (change signer k : String)
      → k ≢ ""
      → Stands c h k (approvals_of t k)
      → Stands c (approved change signer ∷ h) k (approvals_of (approve c t change signer).1 k)
  approved-Stands h t change signer k some_ st =
      subst (Stands c (approved change signer ∷ h) k)
        (sym (approvals_of-approve c t change signer k))
        (one (accepted c t change signer && change =? k) refl)
    where
      one :
          (b : Bool)
          → (accepted c t change signer && change =? k) ≡ b
          → Stands c
              (approved change signer ∷ h)
              k
              (if b then approvals_of t change ++ signer ∷ [] else approvals_of t k)
      one false e = kept-Stands h t change signer k some_ e st
      one true e =
          let (ok_, same) = and_true_parts (accepted c t change signer) (change =? k) e in
          let (_, rest) = and_true_parts (not (change =? "")) _ ok_ in
          let (_, rest') = and_true_parts (not (signer =? "")) _ rest in
          let (eligible, new_) = and_true_parts (includes c.signers signer) _ rest' in
          let at = (eq_iff change k).0 same in
          subst
            (λ z. Stands c (approved change signer ∷ h) z (approvals_of t change ++ signer ∷ [])) at
            (grown-Stands h change signer (approvals_of t change) eligible (ground arith)
              (subst (λ z. Stands c h z (approvals_of t z)) (sym at) st))

  cleared-Stands :
      (h : List Call) (t : Tallies) (which : Option String) (k : String)
      → Stands c h k (approvals_of t k)
      → Stands c (cleared which ∷ h) k (approvals_of (reset t which) k)
  unfolding reset approvals_of get
  cleared-Stands h t none k st = record {
    distinct = tt;
    exact = λ s. (λ m. absurd m, λ m. absurd m.1);
  }
  cleared-Stands h t (some j) k st =
      subst (Stands c (cleared (some j) ∷ h) k) (sym (approvals_of-delete t j k))
        (one (j =? k) refl)
    where
      one :
          (b : Bool)
          → (j =? k) ≡ b
          → Stands c (cleared (some j) ∷ h) k (if b then [] else approvals_or_none (get t k))
      one true e = record {
        distinct = tt;
        exact = λ s. (λ m. absurd m, λ m. absurd (m.1.0 ((eq_iff j k).0 e)));
      }
      one false e = record {
        distinct = st.distinct;
        exact = λ s. (
          λ m. let (x, a) = (st.exact s).0 m in (x, ((λ same. cc ((eq_iff j k).1 same, e)), a)),
          λ m. (st.exact s).1 (m.0, m.1.1),
        );
      }

  pub run-Stands : (h : List Call) (k : String) → k ≢ "" → Stands c h k (approvals_of (run c h) k)
  unfolding run approvals_of get
  run-Stands [] k some_ = record { distinct = tt; exact = λ s. (λ m. absurd m, λ m. absurd m.1) }
  run-Stands (approved change signer ∷ h) k some_ =
      approved-Stands h (run c h) change signer k some_ (run-Stands h k some_)
  run-Stands (cleared which ∷ h) k some_ = cleared-Stands h (run c h) which k (run-Stands h k some_)

-- ===== src/Signer/Quorum.antt =====
-- What a quorum of src/policy/multi-signer.js stands for: so many different eligible signers who
-- approved the change since it was last reset.
use wait_a_minute_plugin.Base.{
  ℕ, suc, ◌≤◌, ◌<◌, String, ◌≡◌, sym, ap, subst, ◌≢◌, ◌↔◌, true, false, not, ◌||◌, Option, none,
  some, List, [], ◌∷◌, arith, eq_iff, ltb, ◌=?◌, if◌then◌else◌, leb→le, length, In, filter,
  In-filter, filter-In, ok, throw, of_not_true, is_empty, Distinct, length-Distinct-le,
}
use wait_a_minute_plugin.Signer.{
  Input, Config, Mode, strict, majority, any_one, quorum_of, normalize_config, approvals_of, status,
  signers_required, required_out_of_range,
}
use wait_a_minute_plugin.Signer.Calls.{Call, run, Approved}
use wait_a_minute_plugin.Signer.Standing.{run-Stands}

-- A quorum: different eligible signers who approved, as many as are required.
abbrev pub Quorum : Config → List Call → String → Type 0
Quorum c h change =
    (xs : List String) × Distinct xs
    × ((s : String) → In s xs → In s c.signers × Approved h change s)
    × (c.required ≤ length xs)

-- What the checks of a configuration leave.
pub record IsChecked (input : Input) (c : Config) : Type 0 where
  pub given : (s : String) → In s c.signers ↔ (In s input.signers × (s ≢ ""))
  pub some_required : 1 ≤ c.required
  pub enough_signers : c.required ≤ length c.signers

quorum_of-bounds : (m : Option Mode) (n : ℕ) → 0 < n → (1 ≤ quorum_of m n) × (quorum_of m n ≤ n)
unfolding quorum_of
quorum_of-bounds none n h = (h, omega arith)
quorum_of-bounds (some strict) n h = (h, omega arith)
quorum_of-bounds (some majority) n h = (omega arith, omega arith)
quorum_of-bounds (some any_one) n h = (omega arith, h)

non_empty : (xs : List String) → is_empty xs ≡ false → 0 < length xs
non_empty [] h = cc h
non_empty (x ∷ xs) h = omega arith

normalize_config_parts :
    (input : Input) (c : Config)
    → normalize_config input ≡ ok c
    → (c.signers ≡ filter (λ s. not (s =? "")) input.signers)
      × (1 ≤ c.required)
      × (c.required ≤ length c.signers)
unfolding normalize_config
normalize_config_parts input c h = one (filter (λ s. not (s =? "")) input.signers) input.required h
  where
    one :
        (xs : List String) (n : Option ℕ)
        → (if is_empty xs then throw signers_required else elim n [
          | none ↦ ok (record { signers = xs; required = quorum_of input.mode (length xs) })
          | some n' ↦
              if ltb n' 1 || ltb (length xs) n'
              then throw (required_out_of_range n' (length xs))
              else ok (record { signers = xs; required = n' })
        ])
          ≡ ok c
        → (c.signers ≡ xs) × (1 ≤ c.required) × (c.required ≤ length c.signers)
    one [] n e = cc e
    one (x ∷ xs) none e =
        let bounds = quorum_of-bounds input.mode (suc (length xs)) (omega arith) in ground arith
    one (x ∷ xs) (some n) e = ground arith

-- A checked configuration keeps the non-empty signers it was given and requires at least one of
-- them and no more than all.
pub normalize_config-IsChecked :
    (input : Input) (c : Config) → normalize_config input ≡ ok c → IsChecked input c
normalize_config-IsChecked input c h =
    let (same, least, most) = normalize_config_parts input c h in
    record {
      given = λ s.
          subst (λ xs. In s xs ↔ (In s input.signers × (s ≢ ""))) (sym same)
            (
              λ m.
                  let (at, p) = In-filter (λ y. not (y =? "")) input.signers s m in
                  (at, λ e. cc (p, (eq_iff s "").1 e)),
              λ m.
                  filter-In (λ y. not (y =? "")) input.signers s m.0
                    (ap not (of_not_true (s =? "") (λ b. m.1 ((eq_iff s "").0 b)))),
            );
      some_required = least;
      enough_signers = most;
    }

-- Under a checked configuration, after any approvals and resets, a change is satisfied exactly when
-- there is a quorum for it: as many different eligible signers as are required, each of whom
-- approved it after it was last reset.
pub status-Quorum :
    (input : Input) (c : Config) (h : List Call) (change : String)
    → normalize_config input ≡ ok c
    → change ≢ ""
    → ((status c (run c h) change).satisfied ≡ true) ↔ Quorum c h change
unfolding status
status-Quorum input c h change checked some_ =
    let checks = normalize_config-IsChecked input c checked in
    let st = run-Stands c (λ s m. ((checks.given s).0 m).1) h change some_ in
    let xs = approvals_of (run c h) change in
    (
      λ e. (xs, st.distinct, (λ s m. (st.exact s).0 m), leb→le c.required (length xs) e),
      λ (ys, d, sub, enough).
          let few = length-Distinct-le ys xs d (λ s m. (st.exact s).1 (sub s m)) in ground arith,
    )

-- When all signers of a checked configuration are different and have approved a change since it was
-- last reset, the change is satisfied.
pub status-all-Approved :
    (input : Input) (c : Config) (h : List Call) (change : String)
    → normalize_config input ≡ ok c
    → change ≢ ""
    → Distinct c.signers
    → ((s : String) → In s c.signers → Approved h change s)
    → (status c (run c h) change).satisfied ≡ true
status-all-Approved input c h change checked some_ d all_ =
    (status-Quorum input c h change checked some_).1 (
      c.signers,
      d,
      (λ s m. (m, all_ s m)),
      (normalize_config-IsChecked input c checked).enough_signers,
    )

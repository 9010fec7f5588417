-- ===== src/Signer.antt =====
-- src/policy/multi-signer.js: approvals of a change by a quorum of signers. The signer's `tallies` are
-- a dictionary, and a call that writes returns the new one. `rejected`, which nothing writes, is left
-- out.
pub mod Calls
pub mod Standing
pub mod Quorum
mod Tests
use wait_a_minute_plugin.Base.{
  ℕ, ◌+◌, ◌/◌, String, Bool, true, false, not, ◌||◌, Option, none, some, List, [], ◌∷◌, ◌++◌, ltb,
  leb, ◌=?◌, if◌then◌else◌, length, filter, includes, Result, ok, throw, is_empty,
}
use wait_a_minute_plugin.Base.Dict.{Dict, get, set, delete}

pub data Mode : Type 0 where
  strict majority any_one : Mode

-- What `createMultiSigner` is given: the texts among the signers, the finite number `required` or
-- none, and the mode, none where it is absent or unknown.
pub record Input : Type 0 where
  pub signers : List String
  pub required : Option ℕ
  pub mode : Option Mode

pub record Config : Type 0 where
  pub signers : List String
  pub required : ℕ

pub data Error : Type 0 where
  signers_required : Error
  required_out_of_range : ℕ → ℕ → Error

-- The `required` of a mode that is given no number.
unfoldable pub quorum_of : Option Mode → ℕ → ℕ
quorum_of none n = n
quorum_of (some strict) n = n
quorum_of (some majority) n = n / 2 + 1
quorum_of (some any_one) n = 1

-- `normalizeConfig`
unfoldable pub normalize_config : Input → Result Error Config
normalize_config input =
    let signers = filter (λ s. not (s =? "")) input.signers in
    if is_empty signers then throw signers_required else elim input.required [
      | none ↦ ok (record { signers = signers; required = quorum_of input.mode (length signers) })
      | some n ↦
          if ltb n 1 || ltb (length signers) n
          then throw (required_out_of_range n (length signers))
          else ok (record { signers = signers; required = n })
    ]

-- The approvals of each change, in the order they were given.
abbrev pub Tallies : Type 0
Tallies = Dict (List String)

pub record Status : Type 0 where
  pub change_id : String
  pub required : ℕ
  pub total : ℕ
  pub signed : ℕ
  pub approvals : List String
  pub satisfied : Bool

abbrev pub approvals_or_none : Option (List String) → List String
approvals_or_none none = []
approvals_or_none (some xs) = xs

unfoldable pub approvals_of : Tallies → String → List String
approvals_of t change_id = approvals_or_none (get t change_id)

unfoldable pub status : Config → Tallies → String → Status
status c t change_id =
    let approvals = approvals_of t change_id in
    record {
      change_id = change_id;
      required = c.required;
      total = length c.signers;
      signed = length approvals;
      approvals = approvals;
      satisfied = leb c.required (length approvals);
    }

pub data Reason : Type 0 where
  change_required signer_required signer_not_eligible duplicate_approval : Reason
  quorum_reached approval_recorded : Reason

pub record Reply : Type 0 where
  pub done : Bool  -- ok
  pub reason : Reason
  pub tally : Option Status
  pub satisfied : Bool

abbrev pub refusal : Reason → Option Status → Reply
refusal why tally = record { done = false; reason = why; tally = tally; satisfied = false }

-- The tally of a change is created before the check for a duplicate, and written again with the
-- approval.
unfoldable pub get_tally : Tallies → String → Tallies
get_tally t change_id = elim (get t change_id) [ none ↦ set t change_id [] | some xs ↦ t ]

unfoldable pub approve : Config → Tallies → String → String → Reply × Tallies
approve c t change_id signer =
    if change_id =? ""
    then (refusal change_required none, t)
    else if signer =? ""
    then (refusal signer_required none, t)
    else if not (includes c.signers signer)
    then (refusal signer_not_eligible (some (status c t change_id)), t)
    else let t' = get_tally t change_id in
      let approvals = approvals_of t' change_id in
      if includes approvals signer
      then (refusal duplicate_approval (some (status c t' change_id)), t')
      else let t'' = set t' change_id (approvals ++ signer ∷ []) in
        let view = status c t'' change_id in
        (
          record {
            done = true;
            reason = if view.satisfied then quorum_reached else approval_recorded;
            tally = some view;
            satisfied = view.satisfied;
          },
          t'',
        )

-- `reset`; without a change it clears them all.
unfoldable pub reset : Tallies → Option String → Tallies
reset t none = []
reset t (some change_id) = delete t change_id

-- ===== src/Signer/Tests.antt =====
-- Runs of the multi-signer, and its theorems for two approvals out of three signers.
use wait_a_minute_plugin.Base.Dict.{get, delete, set}
use wait_a_minute_plugin.Base.{
  String, ◌≡◌, refl, sym, ◌≢◌, ◌↔◌, inl, inr, true, none, some, List, [], ◌∷◌, arith, eq_iff, ok,
  throw,
}
use wait_a_minute_plugin.Signer.{
  Input, Config, majority, normalize_config, status, signers_required, quorum_of, approvals_of,
  approve, get_tally, reset,
}
use wait_a_minute_plugin.Signer.Calls.{Call, approved, cleared, run}
use wait_a_minute_plugin.Signer.Quorum.{
  Quorum, IsChecked, normalize_config-IsChecked, status-Quorum, status-all-Approved,
}

abbrev three : Input
three = record { signers = "ana" ∷ "" ∷ "ben" ∷ "cleo" ∷ []; required = none; mode = some majority }

abbrev two_of_three : Config
two_of_three = record { signers = "ana" ∷ "ben" ∷ "cleo" ∷ []; required = 2 }

checked : normalize_config three ≡ ok two_of_three
unfolding normalize_config quorum_of
checked = refl

nobody : normalize_config (record three { signers = "" ∷ [] }) ≡ throw signers_required
unfolding normalize_config
nobody = refl

-- The latest call first: ana twice, then a reset, then ana and ben.
abbrev calls : List Call
calls =
    approved "c1" "ben"
    ∷ approved "c1" "ana"
    ∷ cleared (some "c1")
    ∷ approved "c1" "ana"
    ∷ approved "c1" "ana"
    ∷ []

satisfied_now : (status two_of_three (run two_of_three calls) "c1").satisfied ≡ true
unfolding status run approvals_of get approve get_tally reset delete set
satisfied_now = refl

abbrev change : String
change = "c1"

named : change ≢ ""
named e = ground (arith, eq_iff change "")

normalize_config-IsChecked_example : IsChecked three two_of_three
normalize_config-IsChecked_example = normalize_config-IsChecked three two_of_three checked

status-Quorum_example :
    ((status two_of_three (run two_of_three calls) "c1").satisfied ≡ true)
    ↔ Quorum two_of_three calls "c1"
status-Quorum_example = status-Quorum three two_of_three calls "c1" checked named

abbrev solo : Config
solo = record { signers = "ana" ∷ []; required = 1 }

solo_checked :
    normalize_config (record { signers = "ana" ∷ []; required = none; mode = none }) ≡ ok solo
unfolding normalize_config quorum_of
solo_checked = refl

status-all-Approved_here : (status solo (run solo (approved "c1" "ana" ∷ [])) "c1").satisfied ≡ true
status-all-Approved_here =
    status-all-Approved (record { signers = "ana" ∷ []; required = none; mode = none }) solo
      (approved "c1" "ana" ∷ []) "c1" solo_checked named ((λ m. m), tt)
      (λ s m. elim m [ inl e ↦ inl (refl, sym e) | inr none_ ↦ absurd none_ ])

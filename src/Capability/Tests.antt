-- ===== src/Capability/Tests.antt =====
-- A capability revoked, and one suspended.
use thinklocal_mcp.Base.{◌≡◌, ◌≢◌, refl, true, false, none, some, List, [], ◌∷◌}
use thinklocal_mcp.Capability.{
  CapabilityActivationRow, CapabilityActivationStore, CapabilityState, revoked, suspended, get,
  discover, activate, suspend, is_active, prune_revoked_older_than,
}
use thinklocal_mcp.Capability.Lifecycle.{
  Event, discovers, activates, suspends, steps, step, revoked_for_good,
}

abbrev row : CapabilityState → CapabilityActivationRow
row state = record {
  id = 1;
  capability_id = "fs";
  version = "1.0";
  origin_peer = "p";
  state = state;
  manifest_hash = none;
  activated_at = some 5;
  suspended_at = none;
  revoked_at = some 9;
  metadata = [];
  updated_at = 9;
}

abbrev table : CapabilityState → CapabilityActivationStore
table state = record { rows = row state ∷ []; next_id = 2 }

abbrev history : List Event
history =
    discovers "fs" "1.1" "p" (some "h") 10
    ∷ activates "fs" "p" 11
    ∷ suspends "fs" "p" (some "audit") 12
    ∷ activates "fs" "p" 13
    ∷ []

revoked_for_good_example : is_active "fs" "p" (steps (table revoked) history) ≡ false
unfolding get
revoked_for_good_example = revoked_for_good (table revoked) history "fs" "p" (row revoked) refl refl

reactivated : is_active "fs" "p" (steps (table suspended) history) ≡ true
unfolding get discover activate suspend is_active steps step
reactivated = refl

-- After its row is pruned, a revoked capability can be discovered and activated again.
back_again :
    is_active "fs" "p" (
      steps
        (prune_revoked_older_than 100 1000 (table revoked)).0
        (discovers "fs" "1.2" "p" none 1001 ∷ activates "fs" "p" 1002 ∷ []))
    ≡ true
unfolding get discover activate prune_revoked_older_than is_active steps step
back_again = refl

live : suspended ≢ revoked
live e = cc

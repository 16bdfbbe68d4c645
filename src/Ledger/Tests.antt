-- ===== src/Ledger/Tests.antt =====
-- Runs of the ledger protocol, and its theorems at concrete inputs.
use thinklocal_mcp.Base.{◌≤◌, ◌≡◌, refl, String, none, some, List, [], ◌∷◌}
use thinklocal_mcp.Ledger.{may_dispatch, next_ledger_state}
use thinklocal_mcp.Ledger.Protocol.{dispatches, final_state, at_most_once}

abbrev retries : List String
retries = "commit" ∷ "reserve" ∷ "reserve" ∷ "fail" ∷ "reserve" ∷ "bogus" ∷ []

retries_run : (dispatches none retries ≡ 1) × (final_state none retries ≡ some "failed")
unfolding dispatches final_state next_ledger_state may_dispatch
retries_run = (refl, refl)

at_most_once_example :
    (dispatches none retries ≤ 1) × ((s : String) → dispatches (some s) retries ≡ 0)
at_most_once_example = at_most_once retries

-- ===== src/Ledger.antt =====
-- packages/daemon/src/order-ledger-protocol.ts: the reserve, dispatch and commit protocol of one
-- `(signer_keyid, order_nonce)` row. States and events are the source's strings, since the code
-- guards against unknown ones at run time; `null` is `none`.
pub mod Protocol
mod Tests
use thinklocal_mcp.Base.{
  String, Bool, true, false, Option, none, some, List, [], ◌∷◌, ◌&&◌, ◌||◌, if◌then◌else◌, str_eq,
  any,
}

pub data LedgerRejection : Type 0 where
  duplicate_claim not_reserved already_final malformed : LedgerRejection

pub data LedgerTransition : Type 0 where
  granted : (next : String) (dispatchable : Bool) → LedgerTransition
  refused : LedgerRejection → (observed : Option String) → LedgerTransition

abbrev pub states : List String
states = "reserved" ∷ "committed" ∷ "failed" ∷ []

abbrev pub events : List String
events = "reserve" ∷ "commit" ∷ "fail" ∷ []

abbrev pub in_set : List String → String → Bool
in_set set x = any (λ y. str_eq x y) set

unfoldable pub is_final : Option String → Bool
is_final none = false
is_final (some s) = str_eq s "committed" || str_eq s "failed"

unfoldable pub may_dispatch : LedgerTransition → Bool
may_dispatch (granted next dispatchable) = dispatchable && in_set states next
may_dispatch (refused reason observed) = false

-- The branches below the `null` and membership tests of the state.
next_of_known : String → String → LedgerTransition
unfolding is_final
next_of_known s event =
    if in_set events event
    then if str_eq event "reserve"
      then refused duplicate_claim (some s)
      else if is_final (some s)
      then refused already_final (some s)
      else granted (if str_eq event "commit" then "committed" else "failed") false
    else refused malformed (some s)

unfoldable pub next_ledger_state : Option String → String → LedgerTransition
unfolding next_of_known
next_ledger_state (some s) event =
    if in_set states s then next_of_known s event else refused malformed none
next_ledger_state none event =
    if in_set events event
    then if str_eq event "reserve" then granted "reserved" true else refused not_reserved none
    else refused malformed none

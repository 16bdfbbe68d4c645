-- ===== src/Ledger/Protocol.antt =====
-- What a caller that follows the protocol of order-ledger-protocol.ts can observe: a caller takes
-- over `next` of a granted transition and keeps its own state on a refusal.
use thinklocal_mcp.Base.{
  ℕ, suc, ◌≤◌, ◌≡◌, refl, String, true, false, Option, none, some, List, [], ◌∷◌, ◌⊎◌, ◌↔◌,
  if◌then◌else◌, eq_iff, arith, is_some, sym, ◌∙◌,
}
use thinklocal_mcp.Ledger.{
  LedgerTransition, granted, refused, may_dispatch, next_ledger_state, is_final,
}

abbrev pub follow : Option String → LedgerTransition → Option String
follow current (granted next d) = some next
follow current (refused reason observed) = current

-- The number of dispatches that a sequence of events releases.
unfoldable pub dispatches : Option String → List String → ℕ
dispatches current [] = 0
dispatches current (e ∷ es) =
    let t = next_ledger_state current e in
    let rest = dispatches (follow current t) es in if may_dispatch t then suc rest else rest

unfoldable pub final_state : Option String → List String → Option String
final_state current [] = current
final_state current (e ∷ es) = final_state (follow current (next_ledger_state current e)) es

claimed_step :
    (s e : String)
    → (may_dispatch (next_ledger_state (some s) e) ≡ false)
      × (is_some (follow (some s) (next_ledger_state (some s) e)) ≡ true)
unfolding next_ledger_state may_dispatch
claimed_step s e = ground arith

claimed_dispatches : (s : String) (es : List String) → dispatches (some s) es ≡ 0
unfolding dispatches may_dispatch
claimed_dispatches s [] = refl
claimed_dispatches s (e ∷ es) =
    claimed_rest (next_ledger_state (some s) e) (claimed_step s e).0 (λ t. claimed_dispatches t es)
  where
    claimed_rest :
        (t : LedgerTransition)
        → may_dispatch t ≡ false
        → ((u : String) → dispatches (some u) es ≡ 0)
        → (if may_dispatch t
            then suc (dispatches (follow (some s) t) es)
            else dispatches (follow (some s) t) es)
          ≡ 0
    claimed_rest (granted next d) h ih = rw h (ih next)
    claimed_rest (refused reason o) h ih = ih s

-- From a row that does not exist, every sequence of events, whatever its strings, releases at most
-- one dispatch; from a row that exists, none.
pub at_most_once :
    (es : List String) → (dispatches none es ≤ 1) × ((s : String) → dispatches (some s) es ≡ 0)
unfolding dispatches may_dispatch
at_most_once [] = (omega arith, λ s. refl)
at_most_once (e ∷ es) = (
  fresh_rest (next_ledger_state none e) (at_most_once es).0 (λ u. claimed_dispatches u es),
  λ s. claimed_dispatches s (e ∷ es),
)
  where
    fresh_rest :
        (t : LedgerTransition)
        → dispatches none es ≤ 1
        → ((u : String) → dispatches (some u) es ≡ 0)
        → (if may_dispatch t
            then suc (dispatches (follow none t) es)
            else dispatches (follow none t) es)
          ≤ 1
    fresh_rest (granted next d) h k = ground (arith, k next)
    fresh_rest (refused reason o) h k = h

final_step :
    (s e : String)
    → is_final (some s) ≡ true
    → follow (some s) (next_ledger_state (some s) e) ≡ some s
unfolding next_ledger_state is_final
final_step s e h = ground arith

-- A committed or failed row keeps its state under every sequence of events.
pub final_absorbs :
    (s : String) (es : List String) → is_final (some s) ≡ true → final_state (some s) es ≡ some s
unfolding final_state
final_absorbs s [] h = refl
final_absorbs s (e ∷ es) h = rw (final_step s e h) (final_absorbs s es h)

-- A transition may be dispatched exactly when it is `reserve` on a row that does not exist.
pub dispatch_iff :
    (current : Option String) (e : String)
    → (may_dispatch (next_ledger_state current e) ≡ true) ↔ ((current ≡ none) × (e ≡ "reserve"))
unfolding next_ledger_state may_dispatch
dispatch_iff none e = (λ h. (refl, ground (arith, eq_iff e "reserve")), λ h. rw (h.1))
dispatch_iff (some s) e = (
  λ h. absurd (let k : true ≡ false = sym h ∙ (claimed_step s e).0 in cc),
  λ h. absurd (let k : some s ≡ none = h.0 in cc),
)

-- A granted transition without dispatch ends a reserved row, by `commit` or `fail`.
pub granted_ends :
    (current : Option String) (e next : String)
    → next_ledger_state current e ≡ granted next false
    → (current ≡ some "reserved")
      × (((e ≡ "commit") × (next ≡ "committed")) ⊎ ((e ≡ "fail") × (next ≡ "failed")))
unfolding next_ledger_state
granted_ends none e next h = ground arith
granted_ends (some s) e next h = ground (
  arith,
  eq_iff s "reserved",
  eq_iff s "committed",
  eq_iff s "failed",
  eq_iff e "reserve",
  eq_iff e "commit",
  eq_iff e "fail",
)

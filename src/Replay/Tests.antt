-- ===== src/Replay/Tests.antt =====
-- The replay window at concrete messages.
use thinklocal_mcp.Base.{◌≡◌, ◌≢◌, refl, true, none, some, [], ◌∷◌, List, arith}
use thinklocal_mcp.Base.Dict.{get}
use thinklocal_mcp.Replay.{ReplayGuard, is_replay, is_alive, delivered, receive}
use thinklocal_mcp.Replay.Window.{
  Traffic, message, tick, observe_all, delivered_once, delivered_twice_at_expiry,
}

abbrev empty : ReplayGuard
empty = record { seen = [] }

abbrev between : List Traffic
between = message "peer" "n2" 30000 150 ∷ tick 200 ∷ []

delivered_once_example :
    (receive true "peer" "n1" 30000
      (some 99)
      40000
      (observe_all (receive true "peer" "n1" 30000 (some 99) 100 empty).0 between)).1
    ≢ delivered
unfolding receive is_replay get is_alive
delivered_once_example =
    delivered_once true "peer" "n1" 30000 99 100 40000 empty between tt refl (omega arith)
      (omega arith) (omega arith) (omega arith) (omega arith)

delivered_twice_at_expiry_example :
    (receive true "peer" "n1" 30000
      (some 100)
      30100
      (receive true "peer" "n1" 30000 (some 100) 100 empty).0).1
    ≡ delivered
unfolding receive is_replay get is_alive
delivered_twice_at_expiry_example = delivered_twice_at_expiry "peer" "n1" 30000 100 empty refl

-- A message without a readable timestamp never expires.
unreadable : is_alive 1000 none 99999999 ≡ true
unfolding is_alive
unreadable = refl

-- ===== src/Breaker.antt =====
-- packages/daemon/src/circuit-breaker.ts. Times are milliseconds; `Date.now()` is the argument
-- `now`. `now - openedAt >= timeout` is written without subtraction.
pub mod Circuit
pub mod Frame
mod Tests
use thinklocal_mcp.Base.{
  ℕ, ◌+◌, String, Bool, true, false, Option, none, some, List, [], ◌∷◌, if◌then◌else◌, leb, ◌==◌,
  map,
}
use thinklocal_mcp.Base.Dict.{Dict, get, set}

pub data CircuitState : Type 0 where
  closed open_circuit half_open : CircuitState

pub record CircuitEntry : Type 0 where
  pub state : CircuitState
  pub failures : ℕ
  pub last_failure_at : ℕ
  pub opened_at : ℕ
  pub success_count : ℕ
  pub total_calls : ℕ

pub record CircuitBreaker : Type 0 where
  pub circuits : Dict CircuitEntry
  pub failure_threshold : ℕ
  pub reset_timeout_ms : ℕ

pub record CircuitStatus : Type 0 where
  pub skill_id : String
  pub state : CircuitState
  pub failures : ℕ
  pub success_count : ℕ
  pub total_calls : ℕ
  pub last_failure_at : Option ℕ
  pub next_retry_at : Option ℕ

abbrev pub fresh : CircuitEntry
fresh = record {
  state = closed;
  failures = 0;
  last_failure_at = 0;
  opened_at = 0;
  success_count = 0;
  total_calls = 0;
}

abbrev or_fresh : Option CircuitEntry → CircuitEntry
or_fresh none = fresh
or_fresh (some c) = c

-- The constructor, with the defaults of `CircuitBreakerConfig`.
abbrev or_default : ℕ → Option ℕ → ℕ
or_default d none = d
or_default d (some n) = n

unfoldable pub new_breaker : Option ℕ → Option ℕ → CircuitBreaker
new_breaker threshold timeout = record {
  circuits = [];
  failure_threshold = or_default 5 threshold;
  reset_timeout_ms = or_default 60000 timeout;
}

-- The circuit; its creation is the write that every caller of it makes.
unfoldable pub get_or_create : String → CircuitBreaker → CircuitEntry
get_or_create skill_id b = or_fresh (get skill_id b.circuits)

unfoldable pub put : String → CircuitEntry → CircuitBreaker → CircuitBreaker
put skill_id c b = record b { circuits = set skill_id c b.circuits }

-- The `switch` of `canExecute`.
admit_state : CircuitState → ℕ → ℕ → CircuitEntry → CircuitEntry × Bool
admit_state closed timeout now c = (c, true)
admit_state open_circuit timeout now c =
    if leb (c.opened_at + timeout) now then (record c { state = half_open }, true) else (c, false)
admit_state half_open timeout now c = (c, true)

unfoldable pub admit : ℕ → ℕ → CircuitEntry → CircuitEntry × Bool
unfolding admit_state
admit timeout now c = admit_state c.state timeout now c

abbrev is_half_open : CircuitState → Bool
is_half_open half_open = true
is_half_open _ = false

unfoldable pub succeed : CircuitEntry → CircuitEntry
succeed c =
    let counted = record c {
      success_count = c.success_count + 1;
      total_calls = c.total_calls + 1;
    } in
    if is_half_open c.state
    then record counted { state = closed; failures = 0 }
    else record counted { failures = 0 }

unfoldable pub fail : ℕ → ℕ → CircuitEntry → CircuitEntry
fail threshold now c =
    let counted = record c {
      failures = c.failures + 1;
      total_calls = c.total_calls + 1;
      last_failure_at = now;
    } in
    if is_half_open c.state
    then record counted { state = open_circuit; opened_at = now }
    else if leb threshold (c.failures + 1)
    then record counted { state = open_circuit; opened_at = now }
    else counted

unfoldable pub can_execute : String → ℕ → CircuitBreaker → CircuitBreaker × Bool
can_execute skill_id now b =
    let (c, allowed) = admit b.reset_timeout_ms now (get_or_create skill_id b) in
    (put skill_id c b, allowed)

unfoldable pub record_success : String → CircuitBreaker → CircuitBreaker
record_success skill_id b = put skill_id (succeed (get_or_create skill_id b)) b

unfoldable pub record_failure : String → ℕ → CircuitBreaker → CircuitBreaker
record_failure skill_id now b =
    put skill_id (fail b.failure_threshold now (get_or_create skill_id b)) b

unfoldable pub reset : String → CircuitBreaker → CircuitBreaker
reset skill_id b =
    put skill_id (record (get_or_create skill_id b) { state = closed; failures = 0 }) b

unfoldable pub clear : CircuitBreaker → CircuitBreaker
clear b = record b { circuits = [] }

abbrev retry_at : CircuitState → ℕ → Option ℕ
retry_at open_circuit t = some t
retry_at _ t = none

-- Times are given back as numbers, where the source formats them.
unfoldable pub to_status : ℕ → String → CircuitEntry → CircuitStatus
to_status timeout skill_id c = record {
  skill_id = skill_id;
  state = c.state;
  failures = c.failures;
  success_count = c.success_count;
  total_calls = c.total_calls;
  last_failure_at = if c.last_failure_at == 0 then none else some c.last_failure_at;
  next_retry_at = retry_at c.state (c.opened_at + timeout);
}

unfoldable pub get_status : String → CircuitBreaker → CircuitBreaker × CircuitStatus
get_status skill_id b =
    let c = get_or_create skill_id b in (put skill_id c b, to_status b.reset_timeout_ms skill_id c)

pub get_all : CircuitBreaker → List CircuitStatus
get_all b = map (λ e. to_status b.reset_timeout_ms e.0 e.1) b.circuits

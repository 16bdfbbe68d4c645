-- ===== src/Breaker/Circuit.antt =====
-- The life of one circuit of circuit-breaker.ts.
use thinklocal_mcp.Base.{
  ℕ, ◌+◌, ◌≤◌, ◌<◌, ◌≡◌, refl, Bool, true, false, List, [], ◌∷◌, arith, if◌then◌else◌, leb, length,
  All, Bool-cases, inl, inr, leb→le, le→leb, ap, ◌∙◌,
}
use thinklocal_mcp.Breaker.{closed, open_circuit, half_open, CircuitEntry, admit, succeed, fail}

-- What happens to one circuit: `Frame` shows that the calls of the breaker do this.
pub data Event : Type 0 where
  ask : (now : ℕ) → Event
  good : Event
  bad : (now : ℕ) → Event
  manual_reset : Event

unfoldable pub step : ℕ → ℕ → CircuitEntry → Event → CircuitEntry
step threshold timeout c (ask now) = (admit timeout now c).0
step threshold timeout c good = succeed c
step threshold timeout c (bad now) = fail threshold now c
step threshold timeout c manual_reset = record c { state = closed; failures = 0 }

unfoldable pub steps : ℕ → ℕ → CircuitEntry → List Event → CircuitEntry
steps threshold timeout c [] = c
steps threshold timeout c (e ∷ es) = steps threshold timeout (step threshold timeout c e) es

pub record IsSound (threshold : ℕ) (c : CircuitEntry) : Type 0 where
  pub below : c.state ≡ closed → c.failures < threshold
  pub counted : c.success_count + c.failures ≤ c.total_calls

step-IsSound :
    (threshold timeout : ℕ) (c : CircuitEntry) (e : Event)
    → 0 < threshold
    → IsSound threshold c
    → IsSound threshold (step threshold timeout c e)
unfolding step admit succeed fail
step-IsSound threshold timeout c (ask now) pos s = ground arith
step-IsSound threshold timeout c good pos s = ground arith
step-IsSound threshold timeout c (bad now) pos s = ground arith
step-IsSound threshold timeout c manual_reset pos s = ground arith

-- With a threshold of one or more, every sequence of events leaves a sound circuit sound.
pub steps-IsSound :
    (threshold timeout : ℕ) (c : CircuitEntry) (es : List Event)
    → 0 < threshold
    → IsSound threshold c
    → IsSound threshold (steps threshold timeout c es)
unfolding steps
steps-IsSound threshold timeout c [] pos s = s
steps-IsSound threshold timeout c (e ∷ es) pos s =
    steps-IsSound threshold timeout (step threshold timeout c e) es pos
      (step-IsSound threshold timeout c e pos s)

abbrev pub failures_at : List ℕ → List Event
failures_at [] = []
failures_at (t ∷ ts) = bad t ∷ failures_at ts

stays_open :
    (threshold timeout : ℕ) (c : CircuitEntry) (ts : List ℕ)
    → c.state ≡ open_circuit
    → (steps threshold timeout c (failures_at ts)).state ≡ open_circuit
unfolding steps step fail
stays_open threshold timeout c [] o = o
stays_open threshold timeout c (t ∷ ts) o =
    stays_open threshold timeout (fail threshold t c) ts (unfold fail in ground arith)

fail_opens :
    (threshold t : ℕ) (c : CircuitEntry)
    → threshold ≤ c.failures + 1
    → (fail threshold t c).state ≡ open_circuit
unfolding fail
fail_opens threshold t c h = ground arith

fail_counts :
    (threshold t : ℕ) (c : CircuitEntry)
    → c.state ≡ closed
    → c.failures + 1 < threshold
    → ((fail threshold t c).state ≡ closed) × ((fail threshold t c).failures ≡ c.failures + 1)
unfolding fail
fail_counts threshold t c s h = ground arith

-- A closed circuit is open after a run of failures exactly when the run, added to the failures
-- counted before, reaches the threshold; otherwise it stays closed.
pub opens_at_threshold :
    (threshold timeout : ℕ) (c : CircuitEntry) (ts : List ℕ)
    → c.state ≡ closed
    → c.failures < threshold
    → (steps threshold timeout c (failures_at ts)).state
      ≡ (if leb threshold (c.failures + length ts) then open_circuit else closed)
unfolding steps step
opens_at_threshold threshold timeout c [] s h = ground arith
opens_at_threshold threshold timeout c (t ∷ ts) s h =
    elim (Bool-cases (leb threshold (c.failures + 1))) [
      | inl full ↦
          let reached : threshold ≤ c.failures + 1 = leb→le _ _ full in
          rw (le→leb threshold (c.failures + length (t ∷ ts)) (omega arith)) (
            stays_open threshold timeout (fail threshold t c) ts (fail_opens threshold t c reached))
      | inr more ↦
          let (still, one_more) = fail_counts threshold t c s (ground arith) in
          let fits : c.failures + 1 < threshold = ground arith in
          opens_at_threshold threshold timeout (fail threshold t c) ts still (rw one_more fits)
          ∙ ap (λ (n : ℕ). if leb threshold n then open_circuit else closed) (omega arith)
    ]

-- An open circuit refuses every request before its timeout and is then unchanged; the first request
-- after it is admitted as a probe, whose failure opens the circuit for a whole timeout again and
-- whose success closes it with no failure counted.
pub probe_cycle :
    (threshold timeout : ℕ) (c : CircuitEntry) (now later failed again : ℕ)
    → c.state ≡ open_circuit
    → now < c.opened_at + timeout
    → c.opened_at + timeout ≤ later
    → again < failed + timeout
    → let probe = admit timeout later c in
      (admit timeout now c ≡ (c, false))
      × (probe.1 ≡ true)
      × ((admit timeout again (fail threshold failed probe.0)).1 ≡ false)
      × ((succeed probe.0).state ≡ closed)
      × ((succeed probe.0).failures ≡ 0)
unfolding admit succeed fail
probe_cycle threshold timeout c now later failed again o early late h =
    (ground arith, ground arith, ground arith, ground arith, ground arith)

admit_half_open :
    (timeout now : ℕ) (c : CircuitEntry) → c.state ≡ half_open → admit timeout now c ≡ (c, true)
unfolding admit
admit_half_open timeout now c h = ground arith

abbrev pub requests_at : List ℕ → List Event
requests_at [] = []
requests_at (t ∷ ts) = ask t ∷ requests_at ts

-- While a circuit is half open it admits every request of any sequence, and none of them changes it.
pub half_open_admits :
    (threshold timeout : ℕ) (c : CircuitEntry) (asks : List ℕ)
    → c.state ≡ half_open
    → All (λ now. (admit timeout now c).1 ≡ true) asks
      × (steps threshold timeout c (requests_at asks) ≡ c)
unfolding steps step
half_open_admits threshold timeout c [] h = (tt, refl)
half_open_admits threshold timeout c (t ∷ ts) h =
    let same : admit timeout t c ≡ (c, true) = admit_half_open timeout t c h in
    let (admitted, unchanged) = half_open_admits threshold timeout c ts h in
    (
      (ap (λ (r : CircuitEntry × Bool). r.1) same, admitted),
      ap (λ (r : CircuitEntry × Bool). steps threshold timeout r.0 (requests_at ts)) same
          ∙ unchanged,
    )

-- ===== src/Replay/Window.antt =====
-- Which replays the guard of replay.ts detects, over any traffic in between.
use native.Mathlib.Nat.{le_refl}
use thinklocal_mcp.Base.{
  ℕ, ◌+◌, ◌≤◌, ◌<◌, ◌≡◌, String, Bool, true, false, Option, some, List, [], ◌∷◌, arith, ◌≢◌, sym,
  ◌∙◌, ltb, not, All, Bool-cases, inl, inr, str_eq,
}
use thinklocal_mcp.Base.Dict.{
  get, set, get-set, get-set_self, get-keep, kept, IsUnique, set-IsUnique, keep-IsUnique,
}
use thinklocal_mcp.Replay.{
  ReplayGuard, replay_key, is_replay, within_ttl, cleanup, retention, is_alive, delivered, receive,
}

-- What the guard sees between two checks.
pub data Traffic : Type 0 where
  message : (sender idempotency_key : String) (ttl now : ℕ) → Traffic
  tick : (now : ℕ) → Traffic

abbrev pub time : Traffic → ℕ
time (message s k ttl now) = now
time (tick now) = now

unfoldable pub observe : ReplayGuard → Traffic → ReplayGuard
observe g (message s k ttl now) = (is_replay s k ttl now g).0
observe g (tick now) = cleanup now g

unfoldable pub observe_all : ReplayGuard → List Traffic → ReplayGuard
observe_all g [] = g
observe_all g (x ∷ xs) = observe_all (observe g x) xs

-- The key is stored with a time from `since` on.
pub record Seen (key : String) (since : ℕ) (g : ReplayGuard) : Type 0 where
  pub at : ℕ
  pub stored : get key g.seen ≡ some at
  pub recent : since ≤ at

pub observe-IsUnique :
    (g : ReplayGuard) (x : Traffic) → IsUnique g.seen → IsUnique (observe g x).seen
unfolding observe is_replay cleanup
observe-IsUnique g (message s k ttl now) u =
    ground (arith, set-IsUnique (replay_key s k) now g.seen u)
observe-IsUnique g (tick now) u = keep-IsUnique _ g.seen u

check-Seen :
    (key : String) (since : ℕ) (g : ReplayGuard) (k : String) (now : ℕ)
    → since ≤ now
    → Seen key since g
    → Seen key since (record { seen = set k now g.seen })
check-Seen key since g k now a h = elim (Bool-cases (str_eq k key)) [
  | inl same ↦ record { at = now; stored = rw (get-set, same); recent = a }
  | inr other ↦ record { at = h.at; stored = rw (get-set, other) h.stored; recent = h.recent }
]

kept_recent :
    (p : String → ℕ → Bool) (key : String) (at : ℕ)
    → p key at ≡ true
    → kept p key (some at) ≡ some at
kept_recent p key at h = rw h

cleanup-Seen :
    (key : String) (since now : ℕ) (g : ReplayGuard)
    → IsUnique g.seen
    → now ≤ since + retention
    → Seen key since g
    → Seen key since (cleanup now g)
unfolding cleanup
cleanup-Seen key since now g u c h =
    let later = h.recent in
    record {
      at = h.at;
      stored =
          rw (get-keep _ key g.seen u, h.stored)
            (kept_recent (λ k at. not (ltb (at + retention) now)) key h.at (ground arith));
      recent = h.recent;
    }

is_replay-Seen :
    (key : String) (since : ℕ) (s k : String) (ttl now : ℕ) (g : ReplayGuard)
    → since ≤ now
    → Seen key since g
    → Seen key since (is_replay s k ttl now g).0
unfolding is_replay
is_replay-Seen key since s k ttl now g a h =
    elim (Bool-cases (within_ttl (get (replay_key s k) g.seen) now ttl)) [
      | inl old ↦ rw old h
      | inr new ↦ rw new (check-Seen key since g (replay_key s k) now a h)
    ]

observe-Seen :
    (key : String) (since : ℕ) (g : ReplayGuard) (x : Traffic)
    → IsUnique g.seen
    → since ≤ time x
    → time x ≤ since + retention
    → Seen key since g
    → Seen key since (observe g x)
unfolding observe
observe-Seen key since g (message s k ttl now) u a c h = is_replay-Seen key since s k ttl now g a h
observe-Seen key since g (tick now) u a c h = cleanup-Seen key since now g u c h

observe_all-Seen :
    (key : String) (since : ℕ) (g : ReplayGuard) (xs : List Traffic)
    → IsUnique g.seen
    → All (λ x. (since ≤ time x) × (time x ≤ since + retention)) xs
    → Seen key since g
    → Seen key since (observe_all g xs)
unfolding observe_all
observe_all-Seen key since g [] u a h = h
observe_all-Seen key since g (x ∷ xs) u ((lo, hi), a) h =
    observe_all-Seen key since (observe g x) xs (observe-IsUnique g x u) a
      (observe-Seen key since g x u lo hi h)

first_check-Seen :
    (s k : String) (ttl t : ℕ) (g : ReplayGuard)
    → (is_replay s k ttl t g).1 ≡ false
    → Seen (replay_key s k) t (is_replay s k ttl t g).0
unfolding is_replay
first_check-Seen s k ttl t g fresh =
    elim (Bool-cases (within_ttl (get (replay_key s k) g.seen) t ttl)) [
      | inl old ↦ absurd (let no : true ≡ false = (rw old at fresh) in cc)
      | inr new ↦
          rw new
            (record { at = t; stored = get-set_self (replay_key s k) t g.seen; recent = le_refl t })
    ]

-- A key seen at `since` or later is a replay while the lifetime lasts.
Seen-is_replay :
    (s k : String) (ttl since now : ℕ) (g : ReplayGuard)
    → Seen (replay_key s k) since g
    → now < since + ttl
    → (is_replay s k ttl now g).1 ≡ true
unfolding is_replay
Seen-is_replay s k ttl since now g h lt =
    let known = h.stored in
    let late = h.recent in
    let inside : within_ttl (some h.at) now ttl ≡ true = ground arith in rw (known, inside)

All-within :
    (lo hi top : ℕ) (xs : List Traffic)
    → hi ≤ top
    → All (λ x. (lo ≤ time x) × (time x ≤ hi)) xs
    → All (λ x. (lo ≤ time x) × (time x ≤ top)) xs
All-within lo hi top [] h a = tt
All-within lo hi top (x ∷ xs) h ((l, r), a) = ((l, omega arith), All-within lo hi top xs h a)

-- A message that was accepted at `t` is a replay at every later check within its lifetime, whatever
-- other messages and cleanups come in between, if the lifetime is at most the retention of the
-- cleanup, the cache holds no key twice and the clock does not go back.
pub replay_detected :
    (s k : String) (ttl t again : ℕ) (g : ReplayGuard) (xs : List Traffic)
    → IsUnique g.seen
    → (is_replay s k ttl t g).1 ≡ false
    → ttl ≤ retention
    → t ≤ again
    → again < t + ttl
    → All (λ x. (t ≤ time x) × (time x ≤ again)) xs
    → (is_replay s k ttl again (observe_all (is_replay s k ttl t g).0 xs)).1 ≡ true
unfolding observe
replay_detected s k ttl t again g xs u fresh short a b all =
    let g' = (is_replay s k ttl t g).0 in
    Seen-is_replay s k ttl t again (observe_all g' xs)
      (observe_all-Seen (replay_key s k) t g' xs (observe-IsUnique g (message s k ttl t) u)
        (All-within t again (t + retention) xs (omega arith) all)
        (first_check-Seen s k ttl t g fresh))
      b

receive-delivered :
    (signed : Bool) (s k : String) (ttl : ℕ) (created : Option ℕ) (now : ℕ) (g : ReplayGuard)
    → (receive signed s k ttl created now g).1 ≡ delivered
    → (is_alive ttl created now ≡ true)
      × ((is_replay s k ttl now g).1 ≡ false)
      × ((receive signed s k ttl created now g).0 ≡ (is_replay s k ttl now g).0)
unfolding receive
receive-delivered signed s k ttl created now g h = ground arith

deliver :
    (s k : String) (ttl : ℕ) (created : Option ℕ) (now : ℕ) (g : ReplayGuard)
    → is_alive ttl created now ≡ true
    → (is_replay s k ttl now g).1 ≡ false
    → (receive true s k ttl created now g).1 ≡ delivered
unfolding receive
deliver s k ttl created now g alive fresh = ground arith

-- A message that, by a readable timestamp, was created before the moment `t` of its delivery, with a lifetime of at least 1 ms
-- and at most the retention, is not delivered a second time at any later moment, whatever messages
-- and cleanups come in between, if the cache holds no key twice and the clock does not go back.
pub delivered_once :
    (signed : Bool) (s k : String) (ttl created t again : ℕ) (g : ReplayGuard) (xs : List Traffic)
    → IsUnique g.seen
    → (receive signed s k ttl (some created) t g).1 ≡ delivered
    → 0 < ttl
    → ttl ≤ retention
    → created < t
    → t ≤ again
    → All (λ x. (t ≤ time x) × (time x ≤ again)) xs
    → (receive signed s k ttl
        (some created)
        again
        (observe_all (receive signed s k ttl (some created) t g).0 xs)).1
      ≢ delivered
delivered_once signed s k ttl created t again g xs u first pos short before a all second =
    let (alive, fresh, same) = receive-delivered signed s k ttl (some created) t g first in
    let g' = (receive signed s k ttl (some created) t g).0 in
    let (alive', fresh', same') =
      receive-delivered signed s k ttl (some created) again (observe_all g' xs) second in
    let inside : again < t + ttl = unfold is_alive in ground arith in
    let seen : (is_replay s k ttl again (observe_all g' xs)).1 ≡ true =
      rw same (replay_detected s k ttl t again g xs u fresh short a inside all) in
    absurd (let no : true ≡ false = sym seen ∙ fresh' in cc)

fresh_stored :
    (s k : String) (ttl t : ℕ) (g : ReplayGuard)
    → (is_replay s k ttl t g).1 ≡ false
    → get (replay_key s k) (is_replay s k ttl t g).0.seen ≡ some t
unfolding is_replay
fresh_stored s k ttl t g fresh =
    elim (Bool-cases (within_ttl (get (replay_key s k) g.seen) t ttl)) [
      | inl old ↦ absurd (let no : true ≡ false = (rw old at fresh) in cc)
      | inr new ↦ rw new (get-set_self (replay_key s k) t g.seen)
    ]

expired_accepts :
    (s k : String) (ttl t : ℕ) (g : ReplayGuard)
    → get (replay_key s k) g.seen ≡ some t
    → (is_replay s k ttl (t + ttl) g).1 ≡ false
unfolding is_replay
expired_accepts s k ttl t g e =
    let over : within_ttl (some t) (t + ttl) ttl ≡ false = ground arith in rw (e, over)

-- A message delivered in the millisecond of its creation, as its timestamp says, is delivered again when its lifetime is
-- exactly over: the age test still passes and the replay test no longer does.
pub delivered_twice_at_expiry :
    (s k : String) (ttl t : ℕ) (g : ReplayGuard)
    → (receive true s k ttl (some t) t g).1 ≡ delivered
    → (receive true s k ttl (some t) (t + ttl) (receive true s k ttl (some t) t g).0).1 ≡ delivered
delivered_twice_at_expiry s k ttl t g first =
    let (alive, fresh, same) = receive-delivered true s k ttl (some t) t g first in
    let stored : get (replay_key s k) (receive true s k ttl (some t) t g).0.seen ≡ some t =
      rw same (fresh_stored s k ttl t g fresh) in
    deliver s k ttl (some t) (t + ttl) _ (unfold is_alive in ground arith)
      (expired_accepts s k ttl t _ stored)

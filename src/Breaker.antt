-- ===== src/Breaker.antt =====
-- apps/backend/integrations/dt/breaker.py and health.py: the circuit breaker in front of
-- Dependency-Track, over the four Redis keys that all workers share. `now` is the caller's wall
-- clock and `server_now` that of Redis, which expires the probe lock; both, and the cooldown, are
-- counted in one unit. A worker's call is two steps, `begin_call` before the callable runs and
-- `finish_call` after it, so that the calls of several workers may interleave.
mod Consistent
mod Failures
mod Gate
mod Probe
mod Examples
use trustedoss_portal.Prelude.{
  ℕ, suc, ◌+◌, ◌-◌, ◌*◌, String, Bool, true, false, not, ◌&&◌, ◌||◌, Option, none, some, List, [],
  ◌∷◌, leb, ltb, if◌then◌else◌, Timestamp,
}

-- What the state key may hold (`opened` is STATE_OPEN): one of `_VALID_STATES`, or any other text.
pub data Stored : Type 0 where
  closed opened half_open : Stored
  invalid : String → Stored

pub record Redis : Type 0 where
  pub state : Option Stored
  pub fail_count : Option ℕ
  pub opened_at : Option Timestamp
  pub probe_lock : Option Timestamp  -- the moment at which the lock expires

pub record Config : Type 0 where
  pub failure_threshold : ℕ
  pub cooldown_seconds : ℕ

pub record Clocks : Type 0 where
  pub now : Timestamp
  pub server_now : Timestamp

-- `state_raw if state_raw in _VALID_STATES else STATE_CLOSED`
abbrev pub valid_state : Option Stored → Stored
valid_state (some opened) = opened
valid_state (some half_open) = half_open
valid_state _ = closed

abbrev pub count_of : Option ℕ → ℕ
count_of none = 0
count_of (some n) = n

pub record Snapshot : Type 0 where
  pub state : Stored
  pub fail_count : ℕ
  pub opened_at : Option Timestamp

unfoldable pub snapshot : Redis → Snapshot
snapshot r = record {
  state = valid_state r.state;
  fail_count = count_of r.fail_count;
  opened_at = r.opened_at;
}

abbrev pub is_open : Stored → Bool
is_open opened = true
is_open _ = false

abbrev pub is_half_open : Stored → Bool
is_half_open half_open = true
is_half_open _ = false

abbrev pub holds_open : Option Stored → Bool
holds_open (some s) = is_open s
holds_open none = false

abbrev pub holds_half_open : Option Stored → Bool
holds_half_open (some s) = is_half_open s
holds_half_open none = false

-- `SET probe_lock 1 NX` succeeds: there is no lock, or it has expired.
abbrev pub lock_free : Option Timestamp → Timestamp → Bool
lock_free none server_now = true
lock_free (some expiry) server_now = leb expiry server_now

-- `_PROBE_GATE_LUA`: whether the caller takes the probe slot, and the keys after the script.
pub probe_gate : Config → Clocks → Redis → Bool × Redis
probe_gate cfg t r =
    if not (holds_open r.state)
    then (false, r)
    else if ltb t.now (count_of r.opened_at + cfg.cooldown_seconds)
    then (false, r)
    else if lock_free r.probe_lock t.server_now
    then (
      true,
      record r {
        state = some half_open;
        probe_lock = some (t.server_now + cfg.cooldown_seconds * 2);
      },
    )
    else (false, r)

-- `_maybe_advance_to_half_open`
maybe_advance_to_half_open : Config → Clocks → Redis → Snapshot × Redis
unfolding snapshot probe_gate
maybe_advance_to_half_open cfg t r =
    if is_open (snapshot r).state
    then (let (won, r') = probe_gate cfg t r in if won then (snapshot r', r') else (snapshot r, r'))
    else (snapshot r, r)

-- `_open_if_not_open`: SETNX of opened_at, then SET of the state.
abbrev pub or_set : Option Timestamp → Timestamp → Option Timestamp
or_set none t = some t
or_set (some old) t = some old

open_if_not_open : Timestamp → Redis → Redis
open_if_not_open now r = record r { opened_at = or_set r.opened_at now; state = some opened }

pub record_failure : Config → Clocks → Redis → Redis
unfolding open_if_not_open
record_failure cfg t r =
    let r' = record r { fail_count = some (count_of r.fail_count + 1) } in
    if leb cfg.failure_threshold (count_of r.fail_count + 1) then open_if_not_open t.now r' else r'

pub record_success : Redis → Redis
record_success r =
    let r' = record r { fail_count = none } in
    if holds_half_open r.state
    then record r' { state = some closed; opened_at = none; probe_lock = none }
    else r'

pub force_close : Redis → Redis
force_close r = record {
  state = some closed;
  fail_count = none;
  opened_at = none;
  probe_lock = none;
}

-- How the callable ended: it returned, raised `DTUnavailable`, or raised something else.
pub data Ended : Type 0 where
  returned dt_unavailable other_error : Ended

-- The part of `call` before the callable: whether the call is short-circuited.
pub begin_call : Config → Clocks → Redis → Bool × Redis
unfolding maybe_advance_to_half_open
begin_call cfg t r = let (s, r') = maybe_advance_to_half_open cfg t r in (is_open s.state, r')

-- The part of `call` after it.
pub finish_call : Config → Clocks → Ended → Redis → Redis
unfolding record_failure record_success
finish_call cfg t returned r = record_success r
finish_call cfg t dt_unavailable r = record_failure cfg t r
finish_call cfg t other_error r = r

-- A whole call that no other worker interrupts: `none` is `DTBreakerOpen`.
pub call : Config → Clocks → Ended → Redis → Option Ended × Redis
unfolding begin_call finish_call
call cfg t ended r =
    let (short, r') = begin_call cfg t r in
    if short then (none, r') else (some ended, finish_call cfg t ended r')

-- health.py: a heartbeat bypasses the gate and records its result.
pub run_health_check : Config → Clocks → Ended → Redis → Redis
unfolding finish_call
run_health_check cfg t ended r = finish_call cfg t ended r

-- `_has_been_open_long_enough`, five cooldown windows
pub open_long_enough : Config → Clocks → Snapshot → Bool
open_long_enough cfg t s = elim s.opened_at [
  | none ↦ false
  | some o ↦ leb (o + cfg.cooldown_seconds * 5) t.now
]

-- Whether the heartbeat goes on to restart the container.
pub wants_restart : Config → Clocks → Bool → Ended → Redis → Bool
unfolding run_health_check open_long_enough snapshot
wants_restart cfg t enabled dt_unavailable r =
    let after = snapshot (run_health_check cfg t dt_unavailable r) in
    is_open after.state && (enabled && open_long_enough cfg t after)
wants_restart cfg t enabled _ r = false

-- One step of some worker, of the heartbeat or of an operator.
pub data Event : Type 0 where
  begin : Clocks → Event
  finish : Clocks → Ended → Event
  heartbeat : Clocks → Ended → Event
  close : Event

pub step : Config → Redis → Event → Redis
unfolding begin_call finish_call run_health_check force_close
step cfg r (begin t) = (begin_call cfg t r).1
step cfg r (finish t ended) = finish_call cfg t ended r
step cfg r (heartbeat t ended) = run_health_check cfg t ended r
step cfg r close = force_close r

pub run : Config → Redis → List Event → Redis
run cfg r [] = r
run cfg r (e ∷ es) = run cfg (step cfg r e) es

-- The keys before anything has been written.
abbrev pub fresh : Redis
fresh = record { state = none; fail_count = none; opened_at = none; probe_lock = none }

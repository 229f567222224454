-- ===== src/Breaker/Probe.antt =====
-- The half-open probe: recovery, and where the code and its text part.
use trustedoss_portal.Prelude.{
  ◌+◌, ◌*◌, ◌≤◌, ◌<◌, Bool, true, false, none, some, List, [], ◌∷◌, leb, arith, ◌≡◌, ap,
}
use trustedoss_portal.Prelude.{All}
use trustedoss_portal.Breaker.{
  closed, opened, half_open, Redis, Config, Clocks, returned, dt_unavailable, valid_state, count_of,
  lock_free, probe_gate, begin_call, finish_call, call,
}
use trustedoss_portal.Breaker.Consistent.{IsConsistent}

-- Recovery: from any consistent keys, one call that returns after the cooldown, with no live probe
-- lock, runs, and leaves the breaker closed, with no failure counted and no opened_at.
pub recovers :
    (cfg : Config) (t : Clocks) (r : Redis)
    → IsConsistent cfg r
    → count_of r.opened_at + cfg.cooldown_seconds ≤ t.now
    → lock_free r.probe_lock t.server_now ≡ true
    → let (answer, r') = call cfg t returned r in
      (answer ≡ some returned)
      × (valid_state r'.state ≡ closed)
      × (r'.fail_count ≡ none)
      × (r'.opened_at ≡ none)
unfolding call
recovers cfg t r c late free = ground arith

-- The calls begun one after the other, and whether each was short-circuited.
pub begun : Config → Redis → List Clocks → List Bool
begun cfg r [] = []
begun cfg r (t ∷ ts) = (begin_call cfg t r).0 ∷ begun cfg (begin_call cfg t r).1 ts

half_open_stays :
    (cfg : Config) (t : Clocks) (r : Redis)
    → r.state ≡ some half_open
    → begin_call cfg t r ≡ (false, r)
unfolding begin_call
half_open_stays cfg t r h = ground arith

each_admitted :
    (cfg : Config) (r : Redis) (ts : List Clocks)
    → r.state ≡ some half_open
    → All (λ short. short ≡ false) (begun cfg r ts)
unfolding begun
each_admitted cfg r [] h = tt
each_admitted cfg r (t ∷ ts) h =
    let e = half_open_stays cfg t r h in
    (ap (λ p. p.0) e, rw (ap (λ p. p.1) e) (each_admitted cfg r ts h))

win_half_open :
    (cfg : Config) (t : Clocks) (r : Redis)
    → (probe_gate cfg t r).0 ≡ true
    → (probe_gate cfg t r).1.state ≡ some half_open
unfolding probe_gate
win_half_open cfg t r h = ground arith

-- HALF_OPEN lets every call through: after a win at the probe gate, all the calls that other
-- workers begin before the probe has ended run too, not the probe alone.
pub half_open_lets_pass :
    (cfg : Config) (t : Clocks) (r : Redis) (others : List Clocks)
    → (probe_gate cfg t r).0 ≡ true
    → All (λ short. short ≡ false) (begun cfg (probe_gate cfg t r).1 others)
half_open_lets_pass cfg t r others won =
    each_admitted cfg (probe_gate cfg t r).1 others (win_half_open cfg t r won)

-- A failed probe does not restart the cooldown: the breaker opens again with the old opened_at,
-- and the next call at the gate is admitted exactly when the failed probe's lock has expired, two
-- cooldowns after it was taken.
pub failed_probe-next_gate :
    (cfg : Config) (probe failed next : Clocks) (r : Redis)
    → (probe_gate cfg probe r).0 ≡ true
    → cfg.failure_threshold ≤ count_of r.fail_count + 1
    → probe.now ≤ next.now
    → IsConsistent cfg r
    → let r' = finish_call cfg failed dt_unavailable (probe_gate cfg probe r).1 in
      (r'.state ≡ some opened)
      × (r'.opened_at ≡ r.opened_at)
      × ((probe_gate cfg next r').0
          ≡ leb (probe.server_now + cfg.cooldown_seconds * 2) next.server_now)
unfolding finish_call probe_gate
failed_probe-next_gate cfg probe failed next r won reached later c = ground arith

stuck_half_open :
    (cfg : Config) (late probe failed : Clocks) (r : Redis)
    → r.state ≡ some opened
    → 1 < cfg.failure_threshold
    → (probe_gate cfg probe (finish_call cfg late returned r)).0 ≡ true
    → (finish_call cfg failed dt_unavailable
        (probe_gate cfg probe (finish_call cfg late returned r)).1).state
      ≡ some half_open
unfolding finish_call probe_gate
stuck_half_open cfg late probe failed r h above won = ground arith

-- A success that comes in while the breaker is OPEN (a call begun before it opened, or a
-- heartbeat) clears the failure count and leaves the state; the probe that follows may then fail
-- and leave the breaker HALF_OPEN, where every call runs, if the threshold is above one.
pub late_success_defeats_probe :
    (cfg : Config) (late probe failed : Clocks) (r : Redis) (others : List Clocks)
    → r.state ≡ some opened
    → 1 < cfg.failure_threshold
    → (probe_gate cfg probe (finish_call cfg late returned r)).0 ≡ true
    → let r' =
        finish_call cfg failed dt_unavailable
          (probe_gate cfg probe (finish_call cfg late returned r)).1 in
      (r'.state ≡ some half_open) × All (λ short. short ≡ false) (begun cfg r' others)
late_success_defeats_probe cfg late probe failed r others h above won =
    let stuck = stuck_half_open cfg late probe failed r h above won in
    (stuck, each_admitted cfg _ others stuck)

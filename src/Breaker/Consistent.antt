-- ===== src/Breaker/Consistent.antt =====
-- What holds of the four keys between any two steps.
use trustedoss_portal.Prelude.{
  ℕ, ◌<◌, Bool, true, false, ◌||◌, Option, none, some, List, [], ◌∷◌, arith, ◌≡◌,
}
use trustedoss_portal.Breaker.{
  Stored, invalid, Redis, Config, Clocks, Ended, returned, dt_unavailable, other_error, count_of,
  holds_open, holds_half_open, begin_call, finish_call, run_health_check, force_close, Event, begin,
  finish, heartbeat, close, step, run, fresh,
}

abbrev pub is_some : Option ℕ → Bool
is_some none = false
is_some (some n) = true

abbrev pub is_known : Option Stored → Bool
is_known (some (invalid _)) = false
is_known _ = true

pub record IsConsistent (cfg : Config) (r : Redis) : Type 0 where
  pub known : is_known r.state ≡ true
  pub moment : is_some r.opened_at ≡ (holds_open r.state || holds_half_open r.state)
  pub locked : holds_half_open r.state ≡ true → is_some r.probe_lock ≡ true
  pub below :
      (holds_open r.state || holds_half_open r.state) ≡ false
      → count_of r.fail_count < cfg.failure_threshold

pub fresh-IsConsistent : (cfg : Config) → 0 < cfg.failure_threshold → IsConsistent cfg fresh
fresh-IsConsistent cfg h = ground arith

begin-IsConsistent :
    (cfg : Config) (t : Clocks) (r : Redis)
    → IsConsistent cfg r
    → IsConsistent cfg (begin_call cfg t r).1
unfolding begin_call
begin-IsConsistent cfg t r c = ground arith

finish-IsConsistent :
    (cfg : Config) (t : Clocks) (ended : Ended) (r : Redis)
    → 0 < cfg.failure_threshold
    → IsConsistent cfg r
    → IsConsistent cfg (finish_call cfg t ended r)
unfolding finish_call
finish-IsConsistent cfg t returned r pos c = ground arith
finish-IsConsistent cfg t dt_unavailable r pos c = ground arith
finish-IsConsistent cfg t other_error r pos c = c

step-IsConsistent :
    (cfg : Config) (r : Redis) (e : Event)
    → 0 < cfg.failure_threshold
    → IsConsistent cfg r
    → IsConsistent cfg (step cfg r e)
unfolding step run_health_check force_close
step-IsConsistent cfg r (begin t) pos c = begin-IsConsistent cfg t r c
step-IsConsistent cfg r (finish t ended) pos c = finish-IsConsistent cfg t ended r pos c
step-IsConsistent cfg r (heartbeat t ended) pos c = finish-IsConsistent cfg t ended r pos c
step-IsConsistent cfg r close pos c = ground arith

-- Whatever the workers, the heartbeat and the operator do, and in whatever order, from fresh keys
-- on: the state is one of the three, opened_at is set exactly in OPEN and HALF_OPEN, HALF_OPEN
-- holds a probe lock, and outside those states the failure count is below the threshold.
pub run-IsConsistent :
    (cfg : Config) (r : Redis) (es : List Event)
    → 0 < cfg.failure_threshold
    → IsConsistent cfg r
    → IsConsistent cfg (run cfg r es)
unfolding run
run-IsConsistent cfg r [] pos c = c
run-IsConsistent cfg r (e ∷ es) pos c =
    run-IsConsistent cfg (step cfg r e) es pos (step-IsConsistent cfg r e pos c)

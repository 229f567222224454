-- ===== src/Breaker/Gate.antt =====
-- The probe gate: one winner for each life of the lock, and what OPEN blocks.
use trustedoss_portal.Prelude.{
  ◌+◌, ◌*◌, ◌<◌, true, false, none, some, List, [], ◌∷◌, arith, ◌≡◌, ◌≢◌, refl, ◌∙◌,
}
use trustedoss_portal.Prelude.{All, Timestamp}
use trustedoss_portal.Breaker.{
  opened, Redis, Config, Clocks, Ended, returned, dt_unavailable, other_error, count_of, probe_gate,
  begin_call, finish_call, run_health_check, call, Event, begin, finish, heartbeat, close, step,
  run,
}

-- An OPEN breaker whose cooldown has not passed answers every call with DTBreakerOpen, does not
-- run the callable and leaves the keys as they are.
pub open_blocks :
    (cfg : Config) (t : Clocks) (ended : Ended) (r : Redis)
    → r.state ≡ some opened
    → t.now < count_of r.opened_at + cfg.cooldown_seconds
    → call cfg t ended r ≡ (none, r)
unfolding call
open_blocks cfg t ended r h early = ground arith

-- The steps of workers between a win at the gate and the end of the lock taken there: no success
-- and no operator releases the lock, and every call begins before the lock expires.
abbrev pub BeforeExpiry : Timestamp → Event → Type 0
BeforeExpiry expiry (begin t) = t.server_now < expiry
BeforeExpiry expiry (finish t returned) = ⊥
BeforeExpiry expiry (finish t _) = Unit
BeforeExpiry expiry (heartbeat t returned) = ⊥
BeforeExpiry expiry (heartbeat t _) = Unit
BeforeExpiry expiry close = ⊥

finish_keeps_lock :
    (cfg : Config) (t : Clocks) (ended : Ended) (r : Redis)
    → ended ≢ returned
    → (finish_call cfg t ended r).probe_lock ≡ r.probe_lock
unfolding finish_call
finish_keeps_lock cfg t returned r h = absurd (h refl)
finish_keeps_lock cfg t dt_unavailable r h = ground arith
finish_keeps_lock cfg t other_error r h = refl

begin_keeps_lock :
    (cfg : Config) (t : Clocks) (r : Redis) (expiry : Timestamp)
    → r.probe_lock ≡ some expiry
    → t.server_now < expiry
    → (begin_call cfg t r).1.probe_lock ≡ some expiry
unfolding begin_call
begin_keeps_lock cfg t r expiry h early = ground arith

step_keeps_lock :
    (cfg : Config) (r : Redis) (e : Event) (expiry : Timestamp)
    → r.probe_lock ≡ some expiry
    → BeforeExpiry expiry e
    → (step cfg r e).probe_lock ≡ some expiry
unfolding step run_health_check
step_keeps_lock cfg r (begin t) expiry h b = begin_keeps_lock cfg t r expiry h b
step_keeps_lock cfg r (finish t returned) expiry h b = absurd b
step_keeps_lock cfg r (finish t dt_unavailable) expiry h b =
    finish_keeps_lock cfg t dt_unavailable r (λ e. cc) ∙ h
step_keeps_lock cfg r (finish t other_error) expiry h b =
    finish_keeps_lock cfg t other_error r (λ e. cc) ∙ h
step_keeps_lock cfg r (heartbeat t returned) expiry h b = absurd b
step_keeps_lock cfg r (heartbeat t dt_unavailable) expiry h b =
    finish_keeps_lock cfg t dt_unavailable r (λ e. cc) ∙ h
step_keeps_lock cfg r (heartbeat t other_error) expiry h b =
    finish_keeps_lock cfg t other_error r (λ e. cc) ∙ h
step_keeps_lock cfg r close expiry h b = absurd b

run_keeps_lock :
    (cfg : Config) (r : Redis) (es : List Event) (expiry : Timestamp)
    → r.probe_lock ≡ some expiry
    → All (BeforeExpiry expiry) es
    → (run cfg r es).probe_lock ≡ some expiry
unfolding run
run_keeps_lock cfg r [] expiry h b = h
run_keeps_lock cfg r (e ∷ es) expiry h b =
    run_keeps_lock cfg (step cfg r e) es expiry (step_keeps_lock cfg r e expiry h b.0) b.1

win_takes_lock :
    (cfg : Config) (t : Clocks) (r : Redis)
    → (probe_gate cfg t r).0 ≡ true
    → (probe_gate cfg t r).1.probe_lock ≡ some (t.server_now + cfg.cooldown_seconds * 2)
unfolding probe_gate
win_takes_lock cfg t r h = ground arith

locked_out :
    (cfg : Config) (t : Clocks) (r : Redis) (expiry : Timestamp)
    → r.probe_lock ≡ some expiry
    → t.server_now < expiry
    → (probe_gate cfg t r).0 ≡ false
unfolding probe_gate
locked_out cfg t r expiry h early = ground arith

-- After one worker has won the probe gate, no other wins it before the lock of the first expires,
-- two cooldowns later, whatever calls, failures and heartbeats come in between, as long as none
-- of them is a success or an operator's close.
pub one_probe_per_lock :
    (cfg : Config) (first second : Clocks) (r : Redis) (es : List Event)
    → (probe_gate cfg first r).0 ≡ true
    → All (BeforeExpiry (first.server_now + cfg.cooldown_seconds * 2)) es
    → second.server_now < first.server_now + cfg.cooldown_seconds * 2
    → (probe_gate cfg second (run cfg (probe_gate cfg first r).1 es)).0 ≡ false
one_probe_per_lock cfg first second r es won b early =
    locked_out cfg second (run cfg (probe_gate cfg first r).1 es)
      (first.server_now + cfg.cooldown_seconds * 2)
      (run_keeps_lock cfg (probe_gate cfg first r).1 es
        (first.server_now + cfg.cooldown_seconds * 2) (win_takes_lock cfg first r won) b)
      early

-- ===== src/Breaker/Examples.antt =====
-- The theorems on the breaker at the default threshold and cooldown, in seconds.
use trustedoss_portal.Prelude.{ℕ, true, false, none, some, List, [], ◌∷◌, leb, arith, ◌≡◌, refl}
use trustedoss_portal.Breaker.{
  closed, opened, Redis, Config, Clocks, returned, dt_unavailable, valid_state, holds_open,
  probe_gate, call, finish_call, finish, run, fresh,
}
use trustedoss_portal.Breaker.Consistent.{IsConsistent}
use trustedoss_portal.Breaker.Failures.{fails, opens_at_threshold}
use trustedoss_portal.Breaker.Gate.{one_probe_per_lock}
use trustedoss_portal.Breaker.Probe.{recovers}

abbrev cfg : Config
cfg = record { failure_threshold = 5; cooldown_seconds = 30 }

abbrev at : ℕ → Clocks
at t = record { now = t; server_now = t }

-- Opened at 100, by five failures.
abbrev tripped : Redis
tripped = record {
  state = some opened;
  fail_count = some 5;
  opened_at = some 100;
  probe_lock = none;
}

abbrev five : List Clocks
five = at 1 ∷ at 2 ∷ at 3 ∷ at 4 ∷ at 5 ∷ []

opens_at_threshold_example : holds_open (fails cfg five fresh).state ≡ leb 5 5
opens_at_threshold_example = opens_at_threshold cfg five fresh refl (omega arith) (omega arith)

tripped-IsConsistent : IsConsistent cfg tripped
tripped-IsConsistent = ground arith

won : (probe_gate cfg (at 140) tripped).0 ≡ true
unfolding probe_gate
won = refl

one_probe_per_lock_example :
    (probe_gate cfg
      (at 150)
      (run cfg (probe_gate cfg (at 140) tripped).1 (finish (at 145) dt_unavailable ∷ []))).0
    ≡ false
one_probe_per_lock_example =
    one_probe_per_lock cfg (at 140) (at 150) tripped (finish (at 145) dt_unavailable ∷ []) won
      (tt, tt) (omega arith)

recovers_example :
    let (answer, r') = call cfg (at 140) returned tripped in
    (answer ≡ some returned)
    × (valid_state r'.state ≡ closed)
    × (r'.fail_count ≡ none)
    × (r'.opened_at ≡ none)
recovers_example = recovers cfg (at 140) tripped tripped-IsConsistent (omega arith) refl

late_won : (probe_gate cfg (at 140) (finish_call cfg (at 120) returned tripped)).0 ≡ true
unfolding probe_gate finish_call
late_won = refl

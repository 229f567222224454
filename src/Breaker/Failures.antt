-- ===== src/Breaker/Failures.antt =====
-- The threshold: consecutive failures open the breaker, and a success starts the count again.
use trustedoss_portal.Prelude.{
  ◌+◌, ◌≤◌, ◌<◌, Bool, true, not, ◌||◌, Option, none, some, List, [], ◌∷◌, leb, arith, ◌≡◌, ap, ◌∙◌,
}
use trustedoss_portal.Prelude.{length}
use trustedoss_portal.Breaker.{
  Stored, Redis, Config, Clocks, returned, dt_unavailable, other_error, count_of, holds_open,
  holds_half_open, call,
}

-- Failing calls one after the other.
pub fails : Config → List Clocks → Redis → Redis
fails cfg [] r = r
fails cfg (t ∷ ts) r = fails cfg ts (call cfg t dt_unavailable r).1

abbrev pub is_calm : Option Stored → Bool
is_calm s = not (holds_open s || holds_half_open s)

fail_below :
    (cfg : Config) (t : Clocks) (r : Redis)
    → is_calm r.state ≡ true
    → count_of r.fail_count + 1 < cfg.failure_threshold
    → (is_calm (call cfg t dt_unavailable r).1.state ≡ true)
      × (count_of (call cfg t dt_unavailable r).1.fail_count ≡ count_of r.fail_count + 1)
unfolding call
fail_below cfg t r h lt = ground arith

fail_last :
    (cfg : Config) (t : Clocks) (r : Redis)
    → is_calm r.state ≡ true
    → cfg.failure_threshold ≡ count_of r.fail_count + 1
    → holds_open (call cfg t dt_unavailable r).1.state ≡ true
unfolding call
fail_last cfg t r h e = ground arith

-- From a closed breaker whose failure count is below the threshold, failing calls open it exactly
-- when they bring the count to the threshold, and not before.
pub opens_at_threshold :
    (cfg : Config) (ts : List Clocks) (r : Redis)
    → is_calm r.state ≡ true
    → count_of r.fail_count < cfg.failure_threshold
    → count_of r.fail_count + length ts ≤ cfg.failure_threshold
    → holds_open (fails cfg ts r).state
      ≡ leb cfg.failure_threshold (count_of r.fail_count + length ts)
unfolding fails
opens_at_threshold cfg [] r h lt le = ground arith
opens_at_threshold cfg (t ∷ []) r h lt le = ground (arith, fail_below cfg t r, fail_last cfg t r)
opens_at_threshold cfg (t ∷ t' ∷ ts) r h lt le =
    let (calm, cnt) = fail_below cfg t r h (omega arith) in
    let r' = (call cfg t dt_unavailable r).1 in
    opens_at_threshold cfg (t' ∷ ts) r' calm (omega (arith, cnt)) (omega (arith, cnt))
    ∙ ap (leb cfg.failure_threshold) (omega (arith, cnt))

-- A call that returns on a closed breaker leaves it closed with no failure counted; one that
-- raises another error leaves the keys as they are.
pub calm_calls :
    (cfg : Config) (t : Clocks) (r : Redis)
    → is_calm r.state ≡ true
    → (call cfg t returned r ≡ (some returned, record r { fail_count = none }))
      × (call cfg t other_error r ≡ (some other_error, r))
unfolding call
calm_calls cfg t r h = ground arith

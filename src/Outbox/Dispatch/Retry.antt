-- ===== src/Outbox/Dispatch/Retry.antt =====
-- The dispatcher's retry delays.
use xpens_go.Prelude.{arith, max, min, suc, zero, ℕ, ◌*◌, ◌-◌, ◌^◌, ◌≡◌, ◌≤◌}
use xpens_go.Outbox.Dispatch.{retry_delay_seconds}
use native.Mathlib.Nat.{pow-suc}

pow_pos : (n : ℕ) → 1 ≤ 2 ^ n
pow_pos zero = omega arith
pow_pos (suc n) = omega (arith, pow-suc 2 n, pow_pos n)

-- From the seventh attempt on the exponent is capped, and the delay is at its ceiling either way.
capped : (n : ℕ) → 1800 ≤ 30 * 2 ^ suc (suc (suc (suc (suc (suc n)))))
capped n =
    let a = pow-suc 2 n in
    let b = pow-suc 2 (suc n) in
    let c = pow-suc 2 (suc (suc n)) in
    let d = pow-suc 2 (suc (suc (suc n))) in
    let e = pow-suc 2 (suc (suc (suc (suc n)))) in
    let f = pow-suc 2 (suc (suc (suc (suc (suc n))))) in omega (arith, pow_pos n)

-- The first delay is half a minute, each later one doubles it, and half an hour is the ceiling: the
-- cap that the source puts on the exponent changes no delay. Every delay fits the schema of
-- `OutboxRetryDelaySeconds`, at most 3600, so that decoding it never throws.
pub retry_delay_seconds_lem :
    (n : ℕ)
    → (retry_delay_seconds (suc n) ≡ min (30 * 2 ^ n) 1800)
      × (30 ≤ retry_delay_seconds (suc n))
      × (retry_delay_seconds (suc n) ≤ 3600)
unfolding retry_delay_seconds
retry_delay_seconds_lem zero = omega arith
retry_delay_seconds_lem (suc zero) = omega arith
retry_delay_seconds_lem (suc (suc zero)) = omega arith
retry_delay_seconds_lem (suc (suc (suc zero))) = omega arith
retry_delay_seconds_lem (suc (suc (suc (suc zero)))) = omega arith
retry_delay_seconds_lem (suc (suc (suc (suc (suc zero))))) = omega arith
retry_delay_seconds_lem (suc (suc (suc (suc (suc (suc n)))))) =
    let e : min (max (suc (suc (suc (suc (suc (suc (suc n)))))) - 1) 0) 6 ≡ 6 = omega arith in
    rw e (omega (arith, capped n))

-- ===== src/Orchestration/Recovery/Delays.antt =====
-- The waiting times of src/factory/orchestration/recovery.py.
use ai_factory_lab.Common.{ℕ, ◌-◌, ◌*◌, ◌^◌, ◌≤◌, min, ◌≡◌, arith}
use native.Mathlib.Nat.{mul-le-mul_left, pow-le-pow_right, one-le-pow}
use ai_factory_lab.Domain.Errors.{ok}
use ai_factory_lab.Orchestration.Recovery.{RecoveryPolicy, new_policy, delay_for}

abbrev wait : ℕ → ℕ → ℕ → ℕ
wait base most n = min most (base * 2 ^ min (n - 1) 30)

wait_mono : (base most n m : ℕ) → n ≤ m → wait base most n ≤ wait base most m
wait_mono base most n m le = omega (
  arith,
  mul-le-mul_left {m = 2 ^ min (n - 1) 30} {n = 2 ^ min (m - 1) 30} base (
      pow-le-pow_right {n = 2} (omega arith) {i = min (n - 1) 30} {j = min (m - 1) 30}
        (omega arith)),
)

wait_base : (base most n : ℕ) → base ≤ most → base ≤ wait base most n
wait_base base most n le = omega (
  arith,
  mul-le-mul_left {m = 1} {n = 2 ^ min (n - 1) 30} base
      (one-le-pow (min (n - 1) 30) 2 (omega arith)),
)

delay_for-wait :
    (policy : RecoveryPolicy) (n : ℕ) {d : ℕ}
    → delay_for policy n ≡ ok d
    → d ≡ wait policy.base_backoff_seconds policy.max_backoff_seconds n
unfolding delay_for
delay_for-wait policy n h = ground arith

new_policy-fields :
    (corrections retries base most : ℕ) {policy : RecoveryPolicy}
    → new_policy corrections retries base most ≡ ok policy
    → (policy.base_backoff_seconds ≡ base) × (policy.max_backoff_seconds ≡ most) × (base ≤ most)
unfolding new_policy
new_policy-fields corrections retries base most h = ground arith

-- A policy that was constructed waits, before any correction that is numbered from 1 on, at least
-- its base and at most its maximum, and a later correction never waits less.
pub delay_for-bounded :
    (corrections retries base most : ℕ) {policy : RecoveryPolicy} (n m : ℕ)
    → new_policy corrections retries base most ≡ ok policy
    → n ≤ m
    → {shorter longer : ℕ} → delay_for policy n ≡ ok shorter
    → delay_for policy m ≡ ok longer
    → (base ≤ shorter) × (shorter ≤ longer) × (longer ≤ most)
delay_for-bounded corrections retries base most {policy} n m valid le first second =
    let (lower, upper, ordered) = new_policy-fields corrections retries base most valid in
    let e = delay_for-wait policy n first in
    let f = delay_for-wait policy m second in
    (
      omega (
        arith,
        e,
        lower,
        wait_base policy.base_backoff_seconds policy.max_backoff_seconds n
            (omega (arith, lower, upper, ordered)),
      ),
      omega (arith, e, f, wait_mono policy.base_backoff_seconds policy.max_backoff_seconds n m le),
      omega (arith, f, upper),
    )

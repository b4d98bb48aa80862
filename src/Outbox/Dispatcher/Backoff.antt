-- ===== src/Outbox/Dispatcher/Backoff.antt =====
-- The delay before the next attempt.
use native.Mathlib.Nat.{pow-le-pow_right}
use task_manager_api.Prelude.{ℕ, ◌^◌, ◌≤◌, ◌≡◌, ◌↔◌, inl, inr, arith, leb, Bool-cases}
use task_manager_api.Outbox.Dispatcher.{retry_delay}

pow2_mono : (a b : ℕ) → a ≤ b → 2 ^ a ≤ 2 ^ b
pow2_mono a b h = pow-le-pow_right (omega arith) h

-- The delay lies between one and thirty seconds and never falls with the attempts.
pub retry_delay_bounds :
    (a b : ℕ)
    → a ≤ b
    → (1000 ≤ retry_delay a) × (retry_delay a ≤ retry_delay b) × (retry_delay b ≤ 30000)
unfolding retry_delay
retry_delay_bounds a b h = ground (arith, pow2_mono a b h, pow2_mono 0 a (omega arith))

-- The delay is thirty seconds exactly from the fifth attempt on.
pub retry_delay_cap : (a : ℕ) → (retry_delay a ≡ 30000) ↔ (5 ≤ a)
unfolding retry_delay
retry_delay_cap a = (from_cap, λ h. ground (arith, pow2_mono 5 a h))
  where
    from_cap : retry_delay a ≡ 30000 → 5 ≤ a
    from_cap h = elim (Bool-cases (leb 5 a)) [
      | inl many ↦ ground arith
      | inr few ↦ absurd (ground (arith, pow2_mono a 4 (ground arith)))
    ]

-- ===== src/Guard/Delay.antt =====
-- The delays between connection attempts.
use native.Mathlib.Nat.{pow-suc, mul-suc}
use waveshare.Prelude.{ℕ, zero, suc, ◌*◌, ◌^◌, ◌<◌, ◌≤◌, ◌≡◌, ap, ◌∙◌, min, arith}
use waveshare.Guard.{doubled, delay_from, retry_delay_ms, max_delay_ms}

one_le-pow : (n : ℕ) → 1 ≤ 2 ^ n
one_le-pow zero = omega arith
one_le-pow (suc n) = omega (arith, one_le-pow n, pow-suc 2 n)

product_le : (d p : ℕ) → 1 ≤ p → d ≤ d * p
product_le d zero h = absurd (omega arith)
product_le d (suc p) h = omega (arith, mul-suc d p)

mul_twice : (d p : ℕ) → d * (p * 2) ≡ d * 2 * p
mul_twice d p = omega arith

delay_from_lem :
    (attempts delay : ℕ)
    → 0 < delay
    → delay ≤ max_delay_ms
    → delay_from attempts delay ≡ min (delay * 2 ^ attempts) max_delay_ms
unfolding delay_from
delay_from_lem zero delay h k = ground arith
delay_from_lem (suc attempts) delay h k =
    let power = 2 ^ attempts in
    let twice : delay * 2 ^ suc attempts ≡ delay * 2 * power =
      ap (λ (x : ℕ). delay * x) (pow-suc 2 attempts) ∙ mul_twice delay power in
    let some_rounds = one_le-pow attempts in
    let grows = product_le (delay * 2) power some_rounds in
    let limit = product_le max_delay_ms power some_rounds in
    ground (
      arith,
      twice,
      grows,
      limit,
      delay_from_lem attempts (doubled delay) (ground arith) (ground arith),
    )

-- The delay before an attempt is half a second, doubled for each attempt before it, up to five seconds.
pub retry_delay_ms-min :
    (attempt : ℕ) → retry_delay_ms attempt ≡ min (500 * 2 ^ attempt) max_delay_ms
unfolding retry_delay_ms
retry_delay_ms-min attempt = delay_from_lem attempt 500 (omega arith) (omega arith)

-- ===== src/Guard/Tests.antt =====
-- The guards at concrete inputs.
use waveshare.Prelude.{◌*◌, ◌^◌, ◌<◌, ◌≤◌, ◌≡◌, refl, true, false, arith, min, u32_max}
use waveshare.Guard.{
  default_policy, policy_is_safe, heap_allows_model_request, rate_limit_until_ms,
  request_in_cooldown, epoch_added, epoch_is_current, retry_delay_ms, max_delay_ms,
}
use waveshare.Guard.Epoch.{cancelled, epoch_is_current-cancelled}
use waveshare.Guard.Delay.{retry_delay_ms-min}

heap_decides :
    (heap_allows_model_request default_policy 65536 ≡ true)
    × (heap_allows_model_request default_policy 65535 ≡ false)
unfolding heap_allows_model_request policy_is_safe
heap_decides = (refl, refl)

cools_down :
    (request_in_cooldown 1000 (rate_limit_until_ms default_policy 1000 0) ≡ true)
    × (request_in_cooldown 61000 (rate_limit_until_ms default_policy 1000 0) ≡ false)
unfolding rate_limit_until_ms policy_is_safe
cools_down = (refl, refl)

-- A cooldown that ends after the wrap of the clock does not hold.
wrapped_cooldown :
    request_in_cooldown 4294967290 (rate_limit_until_ms default_policy 4294967290 0) ≡ false
unfolding rate_limit_until_ms policy_is_safe
wrapped_cooldown = refl

retry_delay_ms-min_example : retry_delay_ms 3 ≡ min (500 * 2 ^ 3) max_delay_ms
retry_delay_ms-min_example = retry_delay_ms-min 3

epoch_is_current-cancelled_example :
    (epoch_is_current (cancelled 2 4294967295) 4294967295 ≡ false)
    × (epoch_is_current (epoch_added (cancelled 2 4294967295)) 4294967295 ≡ false)
    × (0 < cancelled 2 4294967295)
    × (cancelled 2 4294967295 ≤ u32_max)
epoch_is_current-cancelled_example =
    epoch_is_current-cancelled 2 4294967295 (omega arith) (omega arith) (omega arith)

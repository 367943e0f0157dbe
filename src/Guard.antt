-- ===== src/Guard.antt =====
-- What holds requests back: components/app_core/src/aiqa_hardening.c, the cancelling of requests in
-- components/provider_common/src/aiqa_request_epoch.c, and the delays between connection attempts in
-- components/net_connect/src/aiqa_net_policy.c. No pointer is NULL.
pub mod Epoch
pub mod Delay
mod Tests
use waveshare.Prelude.{
  ℕ, zero, suc, ◌+◌, ◌*◌, ◌%◌, ◌^◌, Bool, true, false, not, ◌&&◌, ◌||◌, ltb, leb, ◌==◌,
  if◌then◌else◌,
}

pub record HardeningPolicy : Type 0 where
  pub min_model_heap_bytes : ℕ
  pub rate_limit_cooldown_ms : ℕ
  pub max_consecutive_provider_failures : ℕ
  pub redact_transcripts : Bool
  pub redact_answers : Bool

abbrev pub default_policy : HardeningPolicy
default_policy = record {
  min_model_heap_bytes = 64 * 1024;
  rate_limit_cooldown_ms = 60000;
  max_consecutive_provider_failures = 3;
  redact_transcripts = true;
  redact_answers = true;
}

pub policy_is_safe : HardeningPolicy → Bool
policy_is_safe policy =
    if ltb policy.min_model_heap_bytes (32 * 1024)
    then false
    else if ltb policy.rate_limit_cooldown_ms 1000
        || ltb (10 * 60 * 1000) policy.rate_limit_cooldown_ms
    then false
    else if policy.max_consecutive_provider_failures == 0
        || ltb 10 policy.max_consecutive_provider_failures
    then false
    else policy.redact_transcripts && policy.redact_answers

pub heap_allows_model_request : HardeningPolicy → ℕ → Bool
heap_allows_model_request policy free_heap_bytes =
    policy_is_safe policy && leb policy.min_model_heap_bytes free_heap_bytes

pub rate_limit_until_ms : HardeningPolicy → ℕ → ℕ → ℕ
rate_limit_until_ms policy now_ms retry_after_ms =
    let delay_ms = if ltb 0 retry_after_ms then retry_after_ms else policy.rate_limit_cooldown_ms in
    if not (policy_is_safe policy) then now_ms else (now_ms + delay_ms) % 2 ^ 32

abbrev pub request_in_cooldown : ℕ → ℕ → Bool
request_in_cooldown now_ms cooldown_until_ms = ltb now_ms cooldown_until_ms

-- The value of an `aiqa_request_epoch_t` after the two steps of a cancel: the addition, and the store
-- that skips zero.
pub epoch_added : ℕ → ℕ
epoch_added value = (value + 1) % 2 ^ 32

pub epoch_cancel : ℕ → ℕ
epoch_cancel value = let next = epoch_added value in if next == 0 then 1 else next

-- `epoch_is_current` of an epoch with this value; a capture is the value.
pub epoch_is_current : ℕ → ℕ → Bool
epoch_is_current value captured_epoch = not (captured_epoch == 0) && captured_epoch == value

abbrev pub max_delay_ms : ℕ
max_delay_ms = 5000

abbrev pub doubled : ℕ → ℕ
doubled delay =
    let next = delay * 2 % 2 ^ 32 in if ltb max_delay_ms next then max_delay_ms else next

-- The loop of `retry_delay_ms`, with the attempts left.
pub delay_from : ℕ → ℕ → ℕ
delay_from zero delay = delay
delay_from (suc attempts) delay =
    let rest = delay_from attempts (doubled delay) in if ltb delay max_delay_ms then rest else delay

pub retry_delay_ms : ℕ → ℕ
retry_delay_ms attempt = delay_from attempt 500

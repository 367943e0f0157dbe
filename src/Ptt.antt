-- ===== src/Ptt.antt =====
-- components/app_core/src/aiqa_ptt_button.c: the debounced push-to-talk button.
-- The header's constants and types are those of components/app_core/include/aiqa_ptt_button.h.
pub mod Laws
pub mod Gesture
pub mod Taps
mod Tests
use waveshare.Prelude.{
  ℕ, ◌+◌, ◌-◌, ◌%◌, ◌^◌, Bool, true, false, not, xor, ◌&&◌, ltb, leb, if◌then◌else◌,
}

pub data Output : Type 0 where
  no_output press_start press_end audio_too_long : Output

pub record Policy : Type 0 where
  pub debounce_ms : ℕ
  pub long_press_ms : ℕ
  pub poll_interval_ms : ℕ
  pub max_record_ms : ℕ

pub record Button : Type 0 where
  pub initialized : Bool
  pub raw_pressed : Bool
  pub stable_pressed : Bool
  pub recording : Bool
  pub timeout_reported : Bool
  pub raw_changed_at_ms : ℕ
  pub pressed_since_ms : ℕ
  pub record_started_at_ms : ℕ

-- uint32_t subtraction, which wraps.
pub elapsed_ms : ℕ → ℕ → ℕ
elapsed_ms now_ms then_ms = (now_ms + 2 ^ 32 - then_ms) % 2 ^ 32

abbrev pub max_record_limit_ms : ℕ
max_record_limit_ms = 20000

abbrev pub default_policy : Policy
default_policy = record {
  debounce_ms = 40;
  long_press_ms = 500;
  poll_interval_ms = 20;
  max_record_ms = max_record_limit_ms;
}

pub policy_is_safe : Policy → Bool
policy_is_safe p =
    leb 10 p.debounce_ms
    && leb p.debounce_ms 200
    && leb 300 p.long_press_ms
    && leb p.long_press_ms 3000
    && ltb p.debounce_ms p.long_press_ms
    && ltb 0 p.poll_interval_ms
    && leb p.poll_interval_ms p.debounce_ms
    && leb 1000 p.max_record_ms
    && leb p.max_record_ms max_record_limit_ms
    && ltb p.long_press_ms p.max_record_ms

abbrev pub button_init : Button
button_init = record {
  initialized = false;
  raw_pressed = false;
  stable_pressed = false;
  recording = false;
  timeout_reported = false;
  raw_changed_at_ms = 0;
  pressed_since_ms = 0;
  record_started_at_ms = 0;
}

-- The first sample is taken as it is.
pub first_sample : Button → Bool → ℕ → Button
first_sample b raw now_ms = record b {
  initialized = true;
  raw_pressed = raw;
  stable_pressed = raw;
  raw_changed_at_ms = now_ms;
  pressed_since_ms = if raw then now_ms else 0;
}

pub note_raw : Button → Bool → ℕ → Button
note_raw b raw now_ms =
    if xor raw b.raw_pressed then record b { raw_pressed = raw; raw_changed_at_ms = now_ms } else b

-- The stable level follows the raw one once that has lasted `debounce_ms`.
pub debounce : Policy → Button → ℕ → Button
unfolding elapsed_ms
debounce p b now_ms =
    if xor b.stable_pressed b.raw_pressed
      && leb p.debounce_ms (elapsed_ms now_ms b.raw_changed_at_ms)
    then (if b.raw_pressed
        then record b {
          stable_pressed = true;
          pressed_since_ms = b.raw_changed_at_ms;
          timeout_reported = false;
        }
        else record b { stable_pressed = false })
    else b

-- The three tests that end `update`.
pub report : Policy → Button → ℕ → Output × Button
unfolding elapsed_ms
report p b now_ms =
    if b.stable_pressed
      && not b.recording
      && not b.timeout_reported
      && leb p.long_press_ms (elapsed_ms now_ms b.pressed_since_ms)
    then (press_start, record b { recording = true; record_started_at_ms = now_ms })
    else if b.stable_pressed
        && b.recording
        && not b.timeout_reported
        && leb p.max_record_ms (elapsed_ms now_ms b.record_started_at_ms)
    then (audio_too_long, record b { recording = false; timeout_reported = true })
    else if not b.stable_pressed
    then (if b.recording
        then (press_end, record b { recording = false })
        else (no_output, record b { timeout_reported = false }))
    else (no_output, b)

pub update : Button → Policy → Bool → ℕ → Output × Button
unfolding policy_is_safe first_sample note_raw debounce report
update b p raw now_ms =
    if not (policy_is_safe p)
    then (no_output, b)
    else if not b.initialized
    then (no_output, first_sample b raw now_ms)
    else report p (debounce p (note_raw b raw now_ms) now_ms) now_ms

-- ===== src/Machine/Names.antt =====
-- components/app_core/src/aiqa_state_machine.c: the names that the log and the display show.
use Prim.Native.String.{String}
use text.Mathlib.Text.{◌==◌}
use waveshare.Prelude.{
  ◌≡◌, refl, ap, ◌∙◌, sym, ◌↔◌, arith, List, [], ◌∷◌, Option, none, some, if◌then◌else◌,
}
use waveshare.Machine.{
  State, EventType, ErrorCode, boot, config_check, connecting, idle, recording, transcribing,
  asr_job_pending, thinking, idle_with_result, error, booted, config_ready, config_missing,
  config_corrupt, network_connecting, network_ready, network_failed, press_start, press_end, cancel,
  audio_too_long, asr_started, asr_job_submitted, asr_done, asr_failed, chat_started, chat_token,
  chat_done, chat_failed, auth_failed, tls_failed, cert_time_invalid, rate_limited,
  provider_unsupported, timeout, factory_reset, no_error, config_missing_error,
  config_corrupt_error, network_failed_error, auth_failed_error, tls_failed_error,
  cert_time_invalid_error, rate_limited_error, provider_unsupported_error, audio_too_long_error,
  asr_failed_error, chat_failed_error, timeout_error, cancelled_error,
}

pub state_name : State → String
state_name boot = "BOOT"
state_name config_check = "CONFIG_CHECK"
state_name connecting = "NETWORK_CONNECTING"
state_name idle = "IDLE"
state_name recording = "RECORDING"
state_name transcribing = "TRANSCRIBING"
state_name asr_job_pending = "ASR_JOB_PENDING"
state_name thinking = "THINKING"
state_name idle_with_result = "IDLE_WITH_RESULT"
state_name error = "ERROR"

pub event_name : EventType → String
event_name booted = "BOOTED"
event_name config_ready = "CONFIG_READY"
event_name config_missing = "CONFIG_MISSING"
event_name config_corrupt = "CONFIG_CORRUPT"
event_name network_connecting = "NETWORK_CONNECTING"
event_name network_ready = "NETWORK_READY"
event_name network_failed = "NETWORK_FAILED"
event_name press_start = "PRESS_START"
event_name press_end = "PRESS_END"
event_name cancel = "CANCEL"
event_name audio_too_long = "AUDIO_TOO_LONG"
event_name asr_started = "ASR_STARTED"
event_name asr_job_submitted = "ASR_JOB_SUBMITTED"
event_name asr_done = "ASR_DONE"
event_name asr_failed = "ASR_FAILED"
event_name chat_started = "CHAT_STARTED"
event_name chat_token = "CHAT_TOKEN"
event_name chat_done = "CHAT_DONE"
event_name chat_failed = "CHAT_FAILED"
event_name auth_failed = "AUTH_FAILED"
event_name tls_failed = "TLS_FAILED"
event_name cert_time_invalid = "CERT_TIME_INVALID"
event_name rate_limited = "RATE_LIMITED"
event_name provider_unsupported = "PROVIDER_UNSUPPORTED"
event_name timeout = "TIMEOUT"
event_name factory_reset = "FACTORY_RESET"

pub error_name : ErrorCode → String
error_name no_error = "NONE"
error_name config_missing_error = "CONFIG_MISSING"
error_name config_corrupt_error = "CONFIG_CORRUPT"
error_name network_failed_error = "NETWORK_FAILED"
error_name auth_failed_error = "AUTH_FAILED"
error_name tls_failed_error = "TLS_FAILED"
error_name cert_time_invalid_error = "CERT_TIME_INVALID"
error_name rate_limited_error = "RATE_LIMITED"
error_name provider_unsupported_error = "PROVIDER_UNSUPPORTED"
error_name audio_too_long_error = "AUDIO_TOO_LONG"
error_name asr_failed_error = "ASR_FAILED"
error_name chat_failed_error = "CHAT_FAILED"
error_name timeout_error = "TIMEOUT"
error_name cancelled_error = "CANCELLED"

-- The first value of a list that has the name.
named {ℓ} : {A : Type ℓ} → (A → String) → String → List A → Option A
named name text [] = none
named name text (x ∷ xs) = if name x == text then some x else named name text xs

abbrev states : List State
states =
    boot ∷ config_check ∷ connecting ∷ idle ∷ recording ∷ transcribing ∷ asr_job_pending ∷ thinking
    ∷ idle_with_result ∷ error ∷ []

abbrev events : List EventType
events =
    booted ∷ config_ready ∷ config_missing ∷ config_corrupt ∷ network_connecting ∷ network_ready
    ∷ network_failed ∷ press_start ∷ press_end ∷ cancel ∷ audio_too_long ∷ asr_started
    ∷ asr_job_submitted ∷ asr_done ∷ asr_failed ∷ chat_started ∷ chat_token ∷ chat_done
    ∷ chat_failed ∷ auth_failed ∷ tls_failed ∷ cert_time_invalid ∷ rate_limited
    ∷ provider_unsupported ∷ timeout ∷ factory_reset ∷ []

abbrev errors : List ErrorCode
errors =
    no_error ∷ config_missing_error ∷ config_corrupt_error ∷ network_failed_error
    ∷ auth_failed_error ∷ tls_failed_error ∷ cert_time_invalid_error ∷ rate_limited_error
    ∷ provider_unsupported_error ∷ audio_too_long_error ∷ asr_failed_error ∷ chat_failed_error
    ∷ timeout_error ∷ cancelled_error ∷ []

named-state_name : (x : State) → named state_name (state_name x) states ≡ some x
unfolding named state_name
named-state_name boot = refl
named-state_name config_check = refl
named-state_name connecting = refl
named-state_name idle = refl
named-state_name recording = refl
named-state_name transcribing = refl
named-state_name asr_job_pending = refl
named-state_name thinking = refl
named-state_name idle_with_result = refl
named-state_name error = refl

named-event_name : (x : EventType) → named event_name (event_name x) events ≡ some x
unfolding named event_name
named-event_name booted = refl
named-event_name config_ready = refl
named-event_name config_missing = refl
named-event_name config_corrupt = refl
named-event_name network_connecting = refl
named-event_name network_ready = refl
named-event_name network_failed = refl
named-event_name press_start = refl
named-event_name press_end = refl
named-event_name cancel = refl
named-event_name audio_too_long = refl
named-event_name asr_started = refl
named-event_name asr_job_submitted = refl
named-event_name asr_done = refl
named-event_name asr_failed = refl
named-event_name chat_started = refl
named-event_name chat_token = refl
named-event_name chat_done = refl
named-event_name chat_failed = refl
named-event_name auth_failed = refl
named-event_name tls_failed = refl
named-event_name cert_time_invalid = refl
named-event_name rate_limited = refl
named-event_name provider_unsupported = refl
named-event_name timeout = refl
named-event_name factory_reset = refl

named-error_name : (x : ErrorCode) → named error_name (error_name x) errors ≡ some x
unfolding named error_name
named-error_name no_error = refl
named-error_name config_missing_error = refl
named-error_name config_corrupt_error = refl
named-error_name network_failed_error = refl
named-error_name auth_failed_error = refl
named-error_name tls_failed_error = refl
named-error_name cert_time_invalid_error = refl
named-error_name rate_limited_error = refl
named-error_name provider_unsupported_error = refl
named-error_name audio_too_long_error = refl
named-error_name asr_failed_error = refl
named-error_name chat_failed_error = refl
named-error_name timeout_error = refl
named-error_name cancelled_error = refl

from_name {ℓ} :
    {A : Type ℓ} (name : A → String) (all : List A) {x y : A}
    → named name (name x) all ≡ some x
    → named name (name y) all ≡ some y
    → (name x ≡ name y) ↔ (x ≡ y)
from_name name all {x} {y} h k = (
  λ same. let found = sym h ∙ ap (λ n. named name n all) same ∙ k in ground (arith, found),
  λ same. ap name same,
)

-- No two states, no two events and no two errors share a name.
pub names_injective :
    (x y : State) (e f : EventType) (c d : ErrorCode)
    → ((state_name x ≡ state_name y) ↔ (x ≡ y))
      × ((event_name e ≡ event_name f) ↔ (e ≡ f))
      × ((error_name c ≡ error_name d) ↔ (c ≡ d))
names_injective x y e f c d = (
  from_name state_name states (named-state_name x) (named-state_name y),
  from_name event_name events (named-event_name e) (named-event_name f),
  from_name error_name errors (named-error_name c) (named-error_name d),
)

-- ===== src/Runtime.antt =====
-- components/app_runtime/src/aiqa_runtime_events.c: the events that the button and the ends of the calls
-- to the providers give to the state machine.
pub mod Answers
mod Tests
use waveshare.Prelude.{ℕ, Bool, true, false, Option, none, some}
use waveshare.Machine.{
  EventType, press_start, press_end, audio_too_long, asr_done, asr_failed, chat_done, chat_failed,
  auth_failed, rate_limited, provider_unsupported, timeout, ErrorCode, no_error, auth_failed_error,
  rate_limited_error, provider_unsupported_error, audio_too_long_error, asr_failed_error,
  chat_failed_error, timeout_error,
}
use waveshare.Ptt.{Output}
use waveshare.Ptt

pub record Event : Type 0 where
  pub event_type : EventType
  pub error_code : ErrorCode
  pub value : ℕ

-- `aiqa_chat_status_t` and `aiqa_asr_status_t`, which have the same members and numbers.
pub data CallStatus : Type 0 where
  call_ok invalid_arg_error buffer_too_small_error unsupported_provider_error : CallStatus
  auth_error rate_limited_answer call_timeout provider_error parse_error : CallStatus

abbrev pub status_code : CallStatus → ℕ
status_code call_ok = 0
status_code invalid_arg_error = 1
status_code buffer_too_small_error = 2
status_code unsupported_provider_error = 3
status_code auth_error = 4
status_code rate_limited_answer = 5
status_code call_timeout = 6
status_code provider_error = 7
status_code parse_error = 8

abbrev pub event : EventType → ErrorCode → ℕ → Event
event event_type error_code value = record {
  event_type = event_type;
  error_code = error_code;
  value = value;
}

-- None is no event.
unfoldable pub ptt_output_to_event : Output → Option Event
ptt_output_to_event Ptt.press_start = some (event press_start no_error 0)
ptt_output_to_event Ptt.press_end = some (event press_end no_error 0)
ptt_output_to_event Ptt.audio_too_long = some (event audio_too_long audio_too_long_error 0)
ptt_output_to_event Ptt.no_output = none

-- The status that counts: that of the result, or a provider error when it is NULL, unless the
-- transport timed out.
unfoldable pub call_status : Option CallStatus → Bool → CallStatus
call_status result true = call_timeout
call_status none false = provider_error
call_status (some status) false = status

unfoldable pub chat_event : CallStatus → Event
chat_event call_ok = event chat_done no_error 0
chat_event auth_error = event auth_failed auth_failed_error (status_code auth_error)
chat_event rate_limited_answer =
    event rate_limited rate_limited_error (status_code rate_limited_answer)
chat_event call_timeout = event timeout timeout_error (status_code call_timeout)
chat_event unsupported_provider_error =
    event provider_unsupported provider_unsupported_error (status_code unsupported_provider_error)
chat_event status = event chat_failed chat_failed_error (status_code status)

-- The result, and whether the transport returned ESP_ERR_TIMEOUT.
unfoldable pub chat_result_to_event : Option CallStatus → Bool → Event
chat_result_to_event result timed_out = chat_event (call_status result timed_out)

unfoldable pub asr_event : CallStatus → Event
asr_event call_ok = event asr_done no_error 0
asr_event auth_error = event auth_failed auth_failed_error (status_code auth_error)
asr_event rate_limited_answer =
    event rate_limited rate_limited_error (status_code rate_limited_answer)
asr_event call_timeout = event timeout timeout_error (status_code call_timeout)
asr_event unsupported_provider_error =
    event provider_unsupported provider_unsupported_error (status_code unsupported_provider_error)
asr_event status = event asr_failed asr_failed_error (status_code status)

unfoldable pub asr_result_to_event : Option CallStatus → Bool → Event
asr_result_to_event result timed_out = asr_event (call_status result timed_out)

abbrev pub asr_failure_event : ℕ → Event
asr_failure_event generation = event asr_failed asr_failed_error generation

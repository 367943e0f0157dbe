-- ===== src/Runtime/Tests.antt =====
-- A call that succeeds, and one that times out.
use waveshare.Prelude.{◌≡◌, refl, true, some}
use waveshare.Machine.{
  idle_with_result, thinking, transcribing, no_error, timeout_error, chat_failed_error,
  asr_failed_error,
}
use waveshare.Runtime.{call_ok, call_status, chat_event, chat_result_to_event, asr_result_to_event}
use waveshare.Runtime.Answers.{after, Ends, chat_result_to_event-Ends}

timed_out_call : (chat_result_to_event (some call_ok) true).error_code ≡ timeout_error
unfolding chat_result_to_event chat_event call_status
timed_out_call = refl

chat_result_to_event-Ends_example :
    let chat =
      after
        (chat_result_to_event (some call_ok) true)
        (record { state = thinking; last_error = no_error; transition_count = 5 }) in
    let speech =
      after
        (asr_result_to_event (some call_ok) true)
        (record { state = transcribing; last_error = no_error; transition_count = 5 }) in
    Ends chat_failed_error idle_with_result (some call_ok) true chat.state chat.last_error
    × Ends asr_failed_error thinking (some call_ok) true speech.state speech.last_error
chat_result_to_event-Ends_example = chat_result_to_event-Ends no_error 5 (some call_ok) true

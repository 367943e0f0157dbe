-- ===== src/Runtime/Answers.antt =====
-- The end of a call to a provider ends the state that waits for it.
use waveshare.Prelude.{ℕ, Bool, true, false, Option, none, some}
use waveshare.Machine.{
  State, idle_with_result, thinking, transcribing, error, Machine, dispatch_event, on_state, accept,
  transition_error, make_transition, ErrorCode, no_error, timeout_error, auth_failed_error,
  rate_limited_error, provider_unsupported_error, chat_failed_error, asr_failed_error,
}
use waveshare.Runtime.{
  CallStatus, call_ok, invalid_arg_error, buffer_too_small_error, unsupported_provider_error,
  auth_error, rate_limited_answer, call_timeout, provider_error, parse_error, call_status,
  chat_event, chat_result_to_event, asr_event, asr_result_to_event, Event,
}

abbrev pub after : Event → Machine → Machine
after event m = (dispatch_event event.event_type m).1

-- The failures of a call that no error code is reserved for.
pub data IsPlain : CallStatus → Type 0 where
  bad_argument : IsPlain invalid_arg_error
  small_buffer : IsPlain buffer_too_small_error
  bad_answer : IsPlain provider_error
  unreadable : IsPlain parse_error

-- The error that the user sees of a call that failed, by its result and whether the transport timed
-- out; a plain failure has the error of its kind of call.
pub data Reports (kind : ErrorCode) : Option CallStatus → Bool → ErrorCode → Type 0 where
  cut_off : {result : Option CallStatus} → Reports kind result true timeout_error
  late : Reports kind (some call_timeout) false timeout_error
  signed_out : Reports kind (some auth_error) false auth_failed_error
  limited : Reports kind (some rate_limited_answer) false rate_limited_error
  unsupported : Reports kind (some unsupported_provider_error) false provider_unsupported_error
  plain : {status : CallStatus} → IsPlain status → Reports kind (some status) false kind
  no_result : Reports kind none false kind

-- A call that succeeded in time takes the machine to `next`, without an error; any other takes it to
-- the error state, with the error that it reports.
pub data Ends (kind : ErrorCode) (next : State)
    : Option CallStatus → Bool → State → ErrorCode → Type 0 where
  succeeded : Ends kind next (some call_ok) false next no_error
  reported :
      {result : Option CallStatus} {timed_out : Bool} {code : ErrorCode}
      → Reports kind result timed_out code
      → Ends kind next result timed_out error code

module _ (last_error : ErrorCode) (count : ℕ) where
  abbrev in_state : State → Machine
  in_state s = record { state = s; last_error = last_error; transition_count = count }

  chat-Ends :
      (result : Option CallStatus) (timed_out : Bool)
      → let m = after (chat_result_to_event result timed_out) (in_state thinking) in
        Ends chat_failed_error idle_with_result result timed_out m.state m.last_error
  unfolding chat_result_to_event call_status chat_event dispatch_event on_state accept
      transition_error make_transition
  chat-Ends result true = reported cut_off
  chat-Ends none false = reported no_result
  chat-Ends (some call_ok) false = succeeded
  chat-Ends (some invalid_arg_error) false = reported (plain bad_argument)
  chat-Ends (some buffer_too_small_error) false = reported (plain small_buffer)
  chat-Ends (some unsupported_provider_error) false = reported unsupported
  chat-Ends (some auth_error) false = reported signed_out
  chat-Ends (some rate_limited_answer) false = reported limited
  chat-Ends (some call_timeout) false = reported late
  chat-Ends (some provider_error) false = reported (plain bad_answer)
  chat-Ends (some parse_error) false = reported (plain unreadable)

  asr-Ends :
      (result : Option CallStatus) (timed_out : Bool)
      → let m = after (asr_result_to_event result timed_out) (in_state transcribing) in
        Ends asr_failed_error thinking result timed_out m.state m.last_error
  unfolding asr_result_to_event call_status asr_event dispatch_event on_state accept
      transition_error make_transition
  asr-Ends result true = reported cut_off
  asr-Ends none false = reported no_result
  asr-Ends (some call_ok) false = succeeded
  asr-Ends (some invalid_arg_error) false = reported (plain bad_argument)
  asr-Ends (some buffer_too_small_error) false = reported (plain small_buffer)
  asr-Ends (some unsupported_provider_error) false = reported unsupported
  asr-Ends (some auth_error) false = reported signed_out
  asr-Ends (some rate_limited_answer) false = reported limited
  asr-Ends (some call_timeout) false = reported late
  asr-Ends (some provider_error) false = reported (plain bad_answer)
  asr-Ends (some parse_error) false = reported (plain unreadable)

  -- A chat call takes the machine out of the thinking state, to the idle state with a result exactly
  -- when the call succeeded in time, and else to the error state: with a timeout when the transport or
  -- the provider timed out, with the error of a refused sign-in, of a rate limit or of an unsupported
  -- provider for those, and with a failed chat for every other status and for no result. A speech call
  -- likewise takes it from the transcribing to the thinking or the error state.
  pub chat_result_to_event-Ends :
      (result : Option CallStatus) (timed_out : Bool)
      → let chat =
          after
            (chat_result_to_event result timed_out)
            (record { state = thinking; last_error = last_error; transition_count = count }) in
        let speech =
          after
            (asr_result_to_event result timed_out)
            (record { state = transcribing; last_error = last_error; transition_count = count }) in
        Ends chat_failed_error idle_with_result result timed_out chat.state chat.last_error
        × Ends asr_failed_error thinking result timed_out speech.state speech.last_error
  chat_result_to_event-Ends result timed_out =
      (chat-Ends result timed_out, asr-Ends result timed_out)

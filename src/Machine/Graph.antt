-- ===== src/Machine/Graph.antt =====
-- The graph of the machine's states, and runs of events through `dispatch_event`.
use waveshare.Prelude.{
  ◌≡◌, refl, sym, subst, ◌+◌, ◌%◌, ◌^◌, true, false, not, ◌==◌, Option, none, some, arith,
  if◌then◌else◌,
}
use waveshare.Machine.{
  State, boot, config_check, connecting, idle, recording, transcribing, asr_job_pending, thinking,
  idle_with_result, error, EventType, booted, config_ready, config_missing, config_corrupt,
  network_ready, network_failed, press_start, press_end, cancel, audio_too_long, asr_started,
  asr_job_submitted, asr_done, asr_failed, chat_started, chat_token, chat_done, chat_failed,
  auth_failed, tls_failed, cert_time_invalid, rate_limited, provider_unsupported, timeout,
  factory_reset, ErrorCode, no_error, config_missing_error, config_corrupt_error,
  network_failed_error, auth_failed_error, tls_failed_error, cert_time_invalid_error,
  rate_limited_error, provider_unsupported_error, audio_too_long_error, asr_failed_error,
  chat_failed_error, timeout_error, cancelled_error, Machine, Transition, make_transition,
  transition_error, error_allows_ptt_retry, refuse, accept, on_cancel, on_state, dispatch_event,
  state_code,
}

-- The error that a failure event reports.
unfoldable pub failure : EventType → Option ErrorCode
failure config_missing = some config_missing_error
failure config_corrupt = some config_corrupt_error
failure network_failed = some network_failed_error
failure auth_failed = some auth_failed_error
failure tls_failed = some tls_failed_error
failure cert_time_invalid = some cert_time_invalid_error
failure rate_limited = some rate_limited_error
failure provider_unsupported = some provider_unsupported_error
failure audio_too_long = some audio_too_long_error
failure asr_failed = some asr_failed_error
failure chat_failed = some chat_failed_error
failure timeout = some timeout_error
failure _ = none

-- Past the network, a press of the button may start to record.
pub data Listens : State → Type 0 where
  from_idle : Listens idle
  from_result : Listens idle_with_result
  from_transcribing : Listens transcribing
  from_job : Listens asr_job_pending
  from_thinking : Listens thinking

-- The states that CANCEL leaves.
pub data Cancels : State → Type 0 where
  listens : {s : State} → Listens s → Cancels s
  records : Cancels recording
  fails : Cancels error

-- The errors of a single turn, after which the button may start the next one; those of the
-- configuration, the network and the account are not among them.
pub data Retriable : ErrorCode → Type 0 where
  too_long : Retriable audio_too_long_error
  not_recognized : Retriable asr_failed_error
  not_answered : Retriable chat_failed_error
  too_late : Retriable timeout_error
  called_off : Retriable cancelled_error

-- The edges of the graph: the source with the error it carries, the event, and the target with the
-- error recorded there. Only the button's press in the error state asks for the error carried.
pub data Edge : State → ErrorCode → EventType → State → ErrorCode → Type 0 where
  booting : {d : ErrorCode} → Edge boot d booted config_check no_error
  configured : {d : ErrorCode} → Edge config_check d config_ready connecting no_error
  connected : {d : ErrorCode} → Edge connecting d network_ready idle no_error
  reset : {s : State} {d : ErrorCode} → Edge s d factory_reset config_check no_error
  cancels : {s : State} {d : ErrorCode} → Cancels s → Edge s d cancel idle cancelled_error
  failing : {s : State} {e : EventType} {d c : ErrorCode} → failure e ≡ some c → Edge s d e error c
  press : {s : State} {d : ErrorCode} → Listens s → Edge s d press_start recording no_error
  retry : {c : ErrorCode} → Retriable c → Edge error c press_start recording no_error
  released : {d : ErrorCode} → Edge recording d press_end transcribing no_error
  asr_start : {d : ErrorCode} → Edge transcribing d asr_started transcribing no_error
  asr_submit : {d : ErrorCode} → Edge transcribing d asr_job_submitted asr_job_pending no_error
  asr_finish : {d : ErrorCode} → Edge transcribing d asr_done thinking no_error
  job_finish : {d : ErrorCode} → Edge asr_job_pending d asr_done thinking no_error
  idle_chat : {d : ErrorCode} → Edge idle d chat_started thinking no_error
  result_chat : {d : ErrorCode} → Edge idle_with_result d chat_started thinking no_error
  chat_again : {d : ErrorCode} → Edge thinking d chat_started thinking no_error
  token : {d : ErrorCode} → Edge thinking d chat_token thinking no_error
  answered : {d : ErrorCode} → Edge thinking d chat_done idle_with_result no_error
  reconfigured : {d : ErrorCode} → Edge error d config_ready connecting no_error

-- How a call in state `s` ends: refused and unchanged, or along an edge.
pub data Outcome (s : State) (event : EventType) (m : Machine) (t : Transition) (m' : Machine)
    : Type 0 where
  refused : t.accepted ≡ false → t.changed ≡ false → m' ≡ m → Outcome s event m t m'
  followed :
      t.accepted ≡ true
      → t.changed ≡ not (state_code m.state == state_code m'.state)
      → m'.transition_count
        ≡ (if t.changed then (m.transition_count + 1) % 2 ^ 32 else m.transition_count)
      → Edge s m.last_error event m'.state m'.last_error
      → Outcome s event m t m'

refuse-Outcome :
    (s : State) (event : EventType) (m : Machine) → let (t, m') = refuse m in Outcome s event m t m'
unfolding refuse make_transition
refuse-Outcome s event m = refused refl (ground arith) refl

accept-Outcome :
    {s : State} {event : EventType} (m : Machine) {next : State} {e : ErrorCode}
    → Edge s m.last_error event next e
    → let (t, m') = make_transition m next e true in Outcome s event m t m'
unfolding make_transition
accept-Outcome m edge = followed refl refl refl edge

cancel-Outcome : (s : State) (m : Machine) → let (t, m') = on_cancel s m in Outcome s cancel m t m'
unfolding on_cancel refuse
cancel-Outcome boot m = refuse-Outcome boot cancel m
cancel-Outcome config_check m = refuse-Outcome config_check cancel m
cancel-Outcome connecting m = refuse-Outcome connecting cancel m
cancel-Outcome idle m = accept-Outcome m (cancels (listens from_idle))
cancel-Outcome recording m = accept-Outcome m (cancels records)
cancel-Outcome transcribing m = accept-Outcome m (cancels (listens from_transcribing))
cancel-Outcome asr_job_pending m = accept-Outcome m (cancels (listens from_job))
cancel-Outcome thinking m = accept-Outcome m (cancels (listens from_thinking))
cancel-Outcome idle_with_result m = accept-Outcome m (cancels (listens from_result))
cancel-Outcome error m = accept-Outcome m (cancels fails)

retry-Outcome :
    (c : ErrorCode) (m : Machine)
    → m.last_error ≡ c
    → let (t, m') = if error_allows_ptt_retry c then accept m recording else refuse m in
      Outcome error press_start m t m'
unfolding accept error_allows_ptt_retry
retry-Outcome audio_too_long_error m h = accept-Outcome m (retry (subst Retriable (sym h) too_long))
retry-Outcome asr_failed_error m h =
    accept-Outcome m (retry (subst Retriable (sym h) not_recognized))
retry-Outcome chat_failed_error m h =
    accept-Outcome m (retry (subst Retriable (sym h) not_answered))
retry-Outcome timeout_error m h = accept-Outcome m (retry (subst Retriable (sym h) too_late))
retry-Outcome cancelled_error m h = accept-Outcome m (retry (subst Retriable (sym h) called_off))
retry-Outcome c m h = refuse-Outcome error press_start m

on_state-Outcome :
    (s : State) (event : EventType) (m : Machine)
    → let (t, m') = on_state s event m in Outcome s event m t m'
unfolding on_state accept
on_state-Outcome boot booted m = accept-Outcome m booting
on_state-Outcome config_check config_ready m = accept-Outcome m configured
on_state-Outcome connecting network_ready m = accept-Outcome m connected
on_state-Outcome idle chat_started m = accept-Outcome m idle_chat
on_state-Outcome idle press_start m = accept-Outcome m (press from_idle)
on_state-Outcome idle_with_result chat_started m = accept-Outcome m result_chat
on_state-Outcome idle_with_result press_start m = accept-Outcome m (press from_result)
on_state-Outcome recording press_end m = accept-Outcome m released
on_state-Outcome transcribing press_start m = accept-Outcome m (press from_transcribing)
on_state-Outcome transcribing asr_started m = accept-Outcome m asr_start
on_state-Outcome transcribing asr_job_submitted m = accept-Outcome m asr_submit
on_state-Outcome transcribing asr_done m = accept-Outcome m asr_finish
on_state-Outcome asr_job_pending press_start m = accept-Outcome m (press from_job)
on_state-Outcome asr_job_pending asr_done m = accept-Outcome m job_finish
on_state-Outcome thinking press_start m = accept-Outcome m (press from_thinking)
on_state-Outcome thinking chat_started m = accept-Outcome m chat_again
on_state-Outcome thinking chat_token m = accept-Outcome m token
on_state-Outcome thinking chat_done m = accept-Outcome m answered
on_state-Outcome error config_ready m = accept-Outcome m reconfigured
on_state-Outcome error press_start m = retry-Outcome m.last_error m refl
on_state-Outcome s event m = refuse-Outcome s event m

pub dispatch_event-follows :
    (event : EventType) (m : Machine)
    → let (t, m') = dispatch_event event m in Outcome m.state event m t m'
unfolding dispatch_event transition_error accept failure
dispatch_event-follows cancel m = cancel-Outcome m.state m
dispatch_event-follows factory_reset m = accept-Outcome m reset
dispatch_event-follows config_missing m = accept-Outcome m (failing refl)
dispatch_event-follows config_corrupt m = accept-Outcome m (failing refl)
dispatch_event-follows network_failed m = accept-Outcome m (failing refl)
dispatch_event-follows auth_failed m = accept-Outcome m (failing refl)
dispatch_event-follows tls_failed m = accept-Outcome m (failing refl)
dispatch_event-follows cert_time_invalid m = accept-Outcome m (failing refl)
dispatch_event-follows rate_limited m = accept-Outcome m (failing refl)
dispatch_event-follows provider_unsupported m = accept-Outcome m (failing refl)
dispatch_event-follows audio_too_long m = accept-Outcome m (failing refl)
dispatch_event-follows asr_failed m = accept-Outcome m (failing refl)
dispatch_event-follows chat_failed m = accept-Outcome m (failing refl)
dispatch_event-follows timeout m = accept-Outcome m (failing refl)
dispatch_event-follows event m = on_state-Outcome m.state event m

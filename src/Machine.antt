-- ===== src/Machine.antt =====
-- components/app_core/src/aiqa_state_machine.c: the states of the assistant.
-- An event is its `type`: `dispatch` reads neither its `error` nor its `value`.
pub mod Graph
pub mod Exact
pub mod Runs
pub mod Names
mod Tests
use waveshare.Prelude.{
  ℕ, ◌+◌, ◌-◌, ◌%◌, ◌^◌, Bool, true, false, not, ◌&&◌, Option, none, some, leb, ◌==◌, if◌then◌else◌,
}

pub data EventType : Type 0 where
  booted config_ready config_missing config_corrupt network_connecting network_ready : EventType
  network_failed press_start press_end cancel audio_too_long asr_started : EventType
  asr_job_submitted asr_done asr_failed chat_started chat_token chat_done chat_failed : EventType
  auth_failed tls_failed cert_time_invalid rate_limited provider_unsupported timeout : EventType
  factory_reset : EventType

-- The error codes of a failure carry the name of its event.
pub data ErrorCode : Type 0 where
  no_error config_missing_error config_corrupt_error network_failed_error : ErrorCode
  auth_failed_error tls_failed_error cert_time_invalid_error rate_limited_error : ErrorCode
  provider_unsupported_error audio_too_long_error asr_failed_error : ErrorCode
  chat_failed_error timeout_error cancelled_error : ErrorCode

pub data State : Type 0 where
  boot config_check connecting idle recording transcribing : State
  asr_job_pending thinking idle_with_result error : State

abbrev pub state_code : State → ℕ
state_code boot = 0
state_code config_check = 1
state_code connecting = 2
state_code idle = 3
state_code recording = 4
state_code transcribing = 5
state_code asr_job_pending = 6
state_code thinking = 7
state_code idle_with_result = 8
state_code error = 9

pub record Machine : Type 0 where
  pub state : State
  pub last_error : ErrorCode
  pub transition_count : ℕ  -- uint32_t

pub record Transition : Type 0 where
  pub previous_state : State
  pub next_state : State
  pub error : ErrorCode
  pub changed : Bool
  pub accepted : Bool

-- An accepted transition; one that is refused leaves the machine alone.
unfoldable pub make_transition : Machine → State → ErrorCode → Bool → Transition × Machine
make_transition m next e accepted =
    let changed = not (state_code m.state == state_code next) in
    (
      record {
        previous_state = m.state;
        next_state = next;
        error = e;
        changed = changed;
        accepted = accepted;
      },
      if accepted
          then record {
            state = next;
            last_error = e;
            transition_count =
                if changed then (m.transition_count + 1) % 2 ^ 32 else m.transition_count;
          }
          else m,
    )

unfoldable pub transition_error : Machine → ErrorCode → Transition × Machine
unfolding make_transition
transition_error m e = make_transition m error e true

pub error_allows_ptt_retry : ErrorCode → Bool
error_allows_ptt_retry audio_too_long_error = true
error_allows_ptt_retry asr_failed_error = true
error_allows_ptt_retry chat_failed_error = true
error_allows_ptt_retry timeout_error = true
error_allows_ptt_retry cancelled_error = true
error_allows_ptt_retry _ = false

abbrev pub init : Machine
init = record { state = boot; last_error = no_error; transition_count = 0 }

abbrev pub asr_phase_timeout_ms : ℕ
asr_phase_timeout_ms = 35000

pub waits_for_asr : State → Bool
waits_for_asr transcribing = true
waits_for_asr asr_job_pending = true
waits_for_asr _ = false

-- `now_ms - state_entered_ms` wraps at 2 ^ 32.
pub asr_deadline_expired : State → ℕ → ℕ → Bool
unfolding waits_for_asr
asr_deadline_expired state state_entered_ms now_ms =
    waits_for_asr state && leb asr_phase_timeout_ms ((now_ms + 2 ^ 32 - state_entered_ms) % 2 ^ 32)

unfoldable pub refuse : Machine → Transition × Machine
unfolding make_transition
refuse m = make_transition m m.state m.last_error false

unfoldable pub accept : Machine → State → Transition × Machine
unfolding make_transition
accept m next = make_transition m next no_error true

-- The `switch` on the state for CANCEL.
unfoldable pub on_cancel : State → Machine → Transition × Machine
unfolding refuse make_transition
on_cancel boot m = refuse m
on_cancel config_check m = refuse m
on_cancel connecting m = refuse m
on_cancel _ m = make_transition m idle cancelled_error true

-- The last `switch`, on the state and then the event.
unfoldable pub on_state : State → EventType → Machine → Transition × Machine
unfolding accept refuse error_allows_ptt_retry
on_state boot booted m = accept m config_check
on_state config_check config_ready m = accept m connecting
on_state connecting network_ready m = accept m idle
on_state idle chat_started m = accept m thinking
on_state idle press_start m = accept m recording
on_state idle_with_result chat_started m = accept m thinking
on_state idle_with_result press_start m = accept m recording
on_state recording press_end m = accept m transcribing
on_state transcribing press_start m = accept m recording
on_state transcribing asr_started m = accept m transcribing
on_state transcribing asr_job_submitted m = accept m asr_job_pending
on_state transcribing asr_done m = accept m thinking
on_state asr_job_pending press_start m = accept m recording
on_state asr_job_pending asr_done m = accept m thinking
on_state thinking press_start m = accept m recording
on_state thinking chat_started m = accept m thinking
on_state thinking chat_token m = accept m thinking
on_state thinking chat_done m = accept m idle_with_result
on_state error config_ready m = accept m connecting
on_state error press_start m =
    if error_allows_ptt_retry m.last_error then accept m recording else refuse m
on_state _ _ m = refuse m

-- `dispatch` for a machine that is there: CANCEL, FACTORY_RESET, the failures, and the rest.
unfoldable pub dispatch_event : EventType → Machine → Transition × Machine
unfolding on_cancel transition_error on_state accept
dispatch_event cancel m = on_cancel m.state m
dispatch_event factory_reset m = accept m config_check
dispatch_event config_missing m = transition_error m config_missing_error
dispatch_event config_corrupt m = transition_error m config_corrupt_error
dispatch_event network_failed m = transition_error m network_failed_error
dispatch_event auth_failed m = transition_error m auth_failed_error
dispatch_event tls_failed m = transition_error m tls_failed_error
dispatch_event cert_time_invalid m = transition_error m cert_time_invalid_error
dispatch_event rate_limited m = transition_error m rate_limited_error
dispatch_event provider_unsupported m = transition_error m provider_unsupported_error
dispatch_event audio_too_long m = transition_error m audio_too_long_error
dispatch_event asr_failed m = transition_error m asr_failed_error
dispatch_event chat_failed m = transition_error m chat_failed_error
dispatch_event timeout m = transition_error m timeout_error
dispatch_event event m = on_state m.state event m

-- A NULL machine gets a refusal and stays NULL.
pub dispatch : Option Machine → EventType → Transition × Option Machine
unfolding dispatch_event
dispatch none event = (
  record {
    previous_state = error;
    next_state = error;
    error = config_corrupt_error;
    changed = false;
    accepted = false;
  },
  none,
)
dispatch (some m) event = let (t, m') = dispatch_event event m in (t, some m')

-- ===== src/Machine/Tests.antt =====
-- Runs of the state machine, and its theorems at concrete inputs.
use waveshare.Prelude.{◌↔◌, true, ◌≡◌, refl, List, [], ◌∷◌}
use waveshare.Machine.{
  recording, error, idle_with_result, EventType, booted, config_ready, network_ready, press_start,
  press_end, asr_done, chat_token, chat_done, asr_failed, auth_failed, asr_failed_error, Machine,
  init, dispatch_event, error_allows_ptt_retry, on_state, accept, refuse, make_transition,
  transition_error,
}
use waveshare.Machine.Graph.{Outcome}
use waveshare.Machine.Exact.{Leaves, dispatch_event-Outcome}
use waveshare.Machine.Runs.{run}

abbrev turn : List EventType
turn =
    booted ∷ config_ready ∷ network_ready ∷ press_start ∷ press_end ∷ asr_done ∷ chat_token
    ∷ chat_done ∷ []

turn_ends_with_result : (run turn init).1.state ≡ idle_with_result
unfolding run dispatch_event on_state accept make_transition
turn_ends_with_result = refl

-- The error of a sign-in is not retried by the button; the failed recognition is.
retries :
    ((run (auth_failed ∷ press_start ∷ []) init).1.state ≡ error)
    × ((run (asr_failed ∷ press_start ∷ []) init).1.state ≡ recording)
unfolding run dispatch_event on_state accept refuse make_transition transition_error
    error_allows_ptt_retry
retries = (refl, refl)

abbrev failed_turn : Machine
failed_turn = record { state = error; last_error = asr_failed_error; transition_count = 4294967295 }

dispatch_event-Outcome_example :
    let (t, m') = dispatch_event press_start failed_turn in
    Outcome error press_start failed_turn t m'
    × ((t.accepted ≡ true) ↔ Leaves error failed_turn.last_error press_start)
dispatch_event-Outcome_example = dispatch_event-Outcome press_start failed_turn

recorded : (dispatch_event press_start failed_turn).1.state ≡ recording
unfolding dispatch_event on_state accept make_transition error_allows_ptt_retry
recorded = refl

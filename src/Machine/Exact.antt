-- ===== src/Machine/Exact.antt =====
-- The events that the machine accepts are those that the graph has an edge for.
use waveshare.Prelude.{ℕ, ◌≡◌, refl, ◌↔◌, true, some, arith}
use waveshare.Machine.{
  State, EventType, ErrorCode, Machine, make_transition, transition_error, error_allows_ptt_retry,
  accept, on_cancel, on_state, dispatch_event,
}
use waveshare.Machine.Graph.{
  failure, from_idle, from_result, from_transcribing, from_job, from_thinking, Cancels, listens,
  records, fails, too_long, not_recognized, not_answered, too_late, called_off, Edge, booting,
  configured, connected, reset, cancels, failing, press, retry, released, asr_start, asr_submit,
  asr_finish, job_finish, idle_chat, result_chat, chat_again, token, answered, reconfigured,
  Outcome, refused, followed, dispatch_event-follows,
}

-- An edge leaves the state for the event.
pub data Leaves (s : State) (d : ErrorCode) (event : EventType) : Type 0 where
  along : {next : State} {c : ErrorCode} → Edge s d event next c → Leaves s d event

failure-accepted :
    (event : EventType) (c : ErrorCode) (m : Machine)
    → failure event ≡ some c
    → (dispatch_event event m).0.accepted ≡ true
unfolding failure dispatch_event transition_error accept make_transition
failure-accepted event c m h = ground arith

Cancels-accepted : {s : State} → Cancels s → (m : Machine) → (on_cancel s m).0.accepted ≡ true
unfolding on_cancel accept make_transition
Cancels-accepted (listens from_idle) m = refl
Cancels-accepted (listens from_result) m = refl
Cancels-accepted (listens from_transcribing) m = refl
Cancels-accepted (listens from_job) m = refl
Cancels-accepted (listens from_thinking) m = refl
Cancels-accepted records m = refl
Cancels-accepted fails m = refl

Edge-accepted :
    {s : State} {d : ErrorCode} {event : EventType} {next : State} {c : ErrorCode} (count : ℕ)
    → Edge s d event next c
    → (dispatch_event event
        (record { state = s; last_error = d; transition_count = count })).0.accepted
      ≡ true
unfolding dispatch_event on_state accept make_transition error_allows_ptt_retry
Edge-accepted count booting = refl
Edge-accepted count configured = refl
Edge-accepted count connected = refl
Edge-accepted count reset = refl
Edge-accepted count (cancels h) = Cancels-accepted h _
Edge-accepted count (failing h) = failure-accepted _ _ _ h
Edge-accepted count (press from_idle) = refl
Edge-accepted count (press from_result) = refl
Edge-accepted count (press from_transcribing) = refl
Edge-accepted count (press from_job) = refl
Edge-accepted count (press from_thinking) = refl
Edge-accepted count (retry too_long) = refl
Edge-accepted count (retry not_recognized) = refl
Edge-accepted count (retry not_answered) = refl
Edge-accepted count (retry too_late) = refl
Edge-accepted count (retry called_off) = refl
Edge-accepted count released = refl
Edge-accepted count asr_start = refl
Edge-accepted count asr_submit = refl
Edge-accepted count asr_finish = refl
Edge-accepted count job_finish = refl
Edge-accepted count idle_chat = refl
Edge-accepted count result_chat = refl
Edge-accepted count chat_again = refl
Edge-accepted count token = refl
Edge-accepted count answered = refl
Edge-accepted count reconfigured = refl

-- An event is accepted exactly when an edge of the graph leaves the state, with the error it carries,
-- for that event. An accepted event follows an edge, and the change is reported and counted, modulo
-- 2 ^ 32; any other is refused, which leaves the machine as it was.
pub dispatch_event-Outcome :
    (event : EventType) (m : Machine)
    → let (t, m') = dispatch_event event m in
      Outcome m.state event m t m' × ((t.accepted ≡ true) ↔ Leaves m.state m.last_error event)
dispatch_event-Outcome event m = (
  dispatch_event-follows event m,
  (
    λ h. elim (dispatch_event-follows event m) [
      | refused a b same ↦ absurd (ground arith)
      | followed a b c edge ↦ along edge
    ],
    λ leaves. elim leaves [ along edge ↦ Edge-accepted m.transition_count edge ],
  ),
)

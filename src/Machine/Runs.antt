-- ===== src/Machine/Runs.antt =====
-- Sequences of events from `init` on: the error that a state carries, the count of transitions, and
-- what the button and the deadline do.
use waveshare.Prelude.{
  ℕ, ◌≡◌, refl, ap, sym, subst, ◌∙◌, ◌⊎◌, inl, inr, ◌+◌, ◌%◌, ◌^◌, ◌<◌, ◌≤◌, ◌↔◌, Bool, true, false,
  ◌==◌, List, [], ◌∷◌, arith, if◌then◌else◌, some,
}
use waveshare.Machine.{
  State, idle, recording, error, EventType, config_ready, network_ready, factory_reset, press_start,
  ErrorCode, no_error, cancelled_error, Machine, init, dispatch_event, on_state, accept, refuse,
  make_transition, error_allows_ptt_retry, asr_deadline_expired, waits_for_asr, state_code,
}
use waveshare.Machine.Graph.{
  failure, Edge, booting, configured, connected, reset, cancels, failing, press, retry, released,
  asr_start, asr_submit, asr_finish, job_finish, idle_chat, result_chat, chat_again, token,
  answered, reconfigured, refused, followed, dispatch_event-follows,
}

-- The machine after some events, and how many of them were reported as changes.
unfoldable pub run : List EventType → Machine → ℕ × Machine
run [] m = (0, m)
run (event ∷ events) m =
    let (t, m') = dispatch_event event m in
    let (n, m'') = run events m' in (if t.changed then n + 1 else n, m'')

-- A failed state carries the error of its failure, an idle one may carry a cancellation, and no
-- other state carries an error.
pub data Carries : State → ErrorCode → Type 0 where
  failed : (e : EventType) {c : ErrorCode} → failure e ≡ some c → Carries error c
  cancelled : Carries idle cancelled_error
  nothing : {s : State} → (state_code s == state_code error) ≡ false → Carries s no_error

Edge-Carries :
    {s : State} {d : ErrorCode} {e : EventType} {s' : State} {c : ErrorCode}
    → Edge s d e s' c
    → Carries s' c
Edge-Carries booting = nothing refl
Edge-Carries configured = nothing refl
Edge-Carries connected = nothing refl
Edge-Carries reset = nothing refl
Edge-Carries (cancels h) = cancelled
Edge-Carries (failing {e = e} h) = failed e h
Edge-Carries (press h) = nothing refl
Edge-Carries (retry h) = nothing refl
Edge-Carries released = nothing refl
Edge-Carries asr_start = nothing refl
Edge-Carries asr_submit = nothing refl
Edge-Carries asr_finish = nothing refl
Edge-Carries job_finish = nothing refl
Edge-Carries idle_chat = nothing refl
Edge-Carries result_chat = nothing refl
Edge-Carries chat_again = nothing refl
Edge-Carries token = nothing refl
Edge-Carries answered = nothing refl
Edge-Carries reconfigured = nothing refl

dispatch_event-Carries :
    (event : EventType) (m : Machine)
    → Carries m.state m.last_error
    → Carries (dispatch_event event m).1.state (dispatch_event event m).1.last_error
dispatch_event-Carries event m h = elim (dispatch_event-follows event m) [
  | refused a b same ↦ subst (λ x. Carries x.state x.last_error) (sym same) h
  | followed a b c edge ↦ Edge-Carries edge
]

run-Carries :
    (events : List EventType) (m : Machine)
    → Carries m.state m.last_error
    → let (n, m') = run events m in Carries m'.state m'.last_error
unfolding run
run-Carries [] m h = h
run-Carries (event ∷ events) m h =
    run-Carries events (dispatch_event event m).1 (dispatch_event-Carries event m h)

-- After any events from `init` on, the machine carries the error of a failure exactly in its error
-- state, a cancellation at most when idle, and otherwise no error.
pub run-init-Carries :
    (events : List EventType) → let (n, m) = run events init in Carries m.state m.last_error
run-init-Carries events = run-Carries events init (nothing refl)

-- The count of transitions is the number of reported changes, modulo 2 ^ 32.
pub run-transition_count :
    (events : List EventType) (m : Machine)
    → m.transition_count < 2 ^ 32
    → let (n, m') = run events m in m'.transition_count ≡ (m.transition_count + n) % 2 ^ 32
unfolding run
run-transition_count [] m h = omega arith
run-transition_count (event ∷ events) m h =
    let m' = (dispatch_event event m).1 in
    elim (dispatch_event-follows event m) [
      | refused a b same ↦
          let later = run-transition_count events m' (ground (arith, same)) in
          ground (arith, same, later)
      | followed a b count edge ↦
          let later = run-transition_count events m' (ground (arith, count)) in
          ground (arith, count, later)
    ]

recording-Edge :
    {s : State} {d : ErrorCode} {e : EventType} {s' : State} {c : ErrorCode}
    → Edge s d e s' c
    → s' ≡ recording
    → e ≡ press_start
recording-Edge (press h) p = refl
recording-Edge (retry h) p = refl
recording-Edge booting p = ground arith
recording-Edge configured p = ground arith
recording-Edge connected p = ground arith
recording-Edge reset p = ground arith
recording-Edge (cancels h) p = ground arith
recording-Edge (failing h) p = ground arith
recording-Edge released p = ground arith
recording-Edge asr_start p = ground arith
recording-Edge asr_submit p = ground arith
recording-Edge asr_finish p = ground arith
recording-Edge job_finish p = ground arith
recording-Edge idle_chat p = ground arith
recording-Edge result_chat p = ground arith
recording-Edge chat_again p = ground arith
recording-Edge token p = ground arith
recording-Edge answered p = ground arith
recording-Edge reconfigured p = ground arith

-- Only a press of the button starts to record.
pub recording-press :
    (event : EventType) (m : Machine)
    → (dispatch_event event m).1.state ≡ recording
    → (m.state ≡ recording) ⊎ (event ≡ press_start)
recording-press event m h = elim (dispatch_event-follows event m) [
  | refused a b same ↦ inl (sym (ap (λ x. x.state) same) ∙ h)
  | followed a b c edge ↦ inr (recording-Edge edge h)
]

-- From any state, the three events of a factory reset lead to a machine that is idle and carries no
-- error.
pub run-reset :
    (m : Machine)
    → let (n, m') = run (factory_reset ∷ config_ready ∷ network_ready ∷ []) m in
      (m'.state ≡ idle) × (m'.last_error ≡ no_error)
unfolding run dispatch_event accept on_state make_transition
run-reset m = (refl, refl)

-- A wait for the recognizer that began `waited` milliseconds ago has expired exactly from 35 seconds
-- on, also when the clock has wrapped in between.
pub asr_deadline_expired_iff :
    (state : State) (entered waited : ℕ)
    → entered < 2 ^ 32
    → waited < 2 ^ 32
    → (asr_deadline_expired state entered ((entered + waited) % 2 ^ 32) ≡ true)
      ↔ ((waits_for_asr state ≡ true) × (35000 ≤ waited))
unfolding asr_deadline_expired
asr_deadline_expired_iff state entered waited h k = ground arith

retry-cases :
    (m : Machine) (b : Bool)
    → m.state ≡ error
    → ((if b then accept m recording else refuse m).1.state ≡ recording) ↔ (b ≡ true)
unfolding accept refuse make_transition
retry-cases m true h = (λ p. refl, λ p. refl)
retry-cases m false h = ground arith

-- In the error state the button records again exactly after a failure of one turn; any other failure
-- has to be configured or reset away.
pub retry_iff :
    (m : Machine)
    → m.state ≡ error
    → ((dispatch_event press_start m).1.state ≡ recording)
      ↔ (error_allows_ptt_retry m.last_error ≡ true)
unfolding dispatch_event on_state
retry_iff m h =
    subst
      (λ s.
        ((on_state s press_start m).1.state ≡ recording)
        ↔ (error_allows_ptt_retry m.last_error ≡ true))
      (sym h) (retry-cases m (error_allows_ptt_retry m.last_error) h)

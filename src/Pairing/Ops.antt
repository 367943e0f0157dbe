-- ===== src/Pairing/Ops.antt =====
-- The operations of aiqa_pairing_lifecycle.c, each with the outcome that it returns.
use waveshare.Prelude.{
  ℕ, ◌+◌, ◌%◌, ◌^◌, Bool, true, not, ◌&&◌, ◌||◌, List, [], ◌∷◌, ◌==◌, if◌then◌else◌,
}
use waveshare.Pairing.State.{
  inactive, available, handshake, wait_finished_sent, active, locked, fault, ◌is◌, Outcome, ok,
  invalid_argument, invalid_state, invalid_session, local_presence_required, locked_out, busy,
  random_failed, display_failed, persistence_error, start_failed, faulted, LocalAction, start,
  reset, LockRecord, lock_record_version, record_stored, code_shown, presence_consumed,
  code_consumed, Ports, Lifecycle, deadline_after, earlier_deadline,
}
use waveshare.Pairing.Refresh.{
  revoke_connection, settle_inactive_or_locked, fault_after_clear_failure, clear_code,
  clear_transient, enter_fault, refresh,
}
use waveshare.Pairing.Code.{generate_code}

unfoldable pub session_matches : Lifecycle → ℕ → ℕ → Bool
session_matches l connection_id handshake_id =
    l.connection_id == connection_id && l.handshake_id == handshake_id

-- What the deadlines of a handshake step become.
unfoldable pub step_deadline : Lifecycle → ℕ → ℕ
step_deadline l now_ms =
    earlier_deadline (deadline_after now_ms l.policy.step_ms) l.window_deadline_ms

abbrev pub reset_record : LockRecord
reset_record = record { version = lock_record_version; attempts_used = 0 }

unfoldable pub progress_refreshed : ℕ → ℕ → ℕ → Lifecycle → Outcome × Lifecycle
progress_refreshed connection_id handshake_id now_ms l =
    if not (l.state is handshake)
    then (invalid_state, l)
    else if not (session_matches l connection_id handshake_id)
    then (invalid_session, l)
    else (ok, record l { step_deadline_ms = step_deadline l now_ms })

unfoldable pub activity_refreshed : ℕ → ℕ → Lifecycle → Outcome × Lifecycle
activity_refreshed connection_id now_ms l =
    if not (l.state is active)
    then (invalid_state, l)
    else if not (l.connection_id == connection_id)
    then (invalid_session, l)
    else (
      ok,
      record l {
        session_idle_deadline_ms =
            earlier_deadline (deadline_after now_ms l.policy.session_idle_ms)
              l.session_absolute_deadline_ms;
      },
    )

-- The calls of the owner task.
pub data Op : Type 0 where
  local_open_op : ℕ → Op
  begin_op handshake_progress_op client_finished_verified_op : ℕ → ℕ → Op
  device_finished_sent_op protocol_failed_op : ℕ → ℕ → Op
  authenticated_activity_op disconnect_op : ℕ → Op
  tick_op local_reset_op : Op

module _ (ports : Ports) where
  unfoldable pub consume_presence : LocalAction → Lifecycle → Bool × Lifecycle
  consume_presence action l =
      let present = ports.consume_local_presence l.calls action in
      (present, record l { calls = presence_consumed action present ∷ l.calls })

  unfoldable pub store_record : LockRecord → Lifecycle → Bool × Lifecycle
  store_record r l =
      let done = ports.store_lock_record l.calls r in
      (done, record l { calls = record_stored r done ∷ l.calls })

  unfoldable pub show_code : Lifecycle → Bool × Lifecycle
  show_code l =
      let shown = ports.show_code l.calls l.code in
      (shown, record l { calls = code_shown l.code shown ∷ l.calls })

  unfoldable pub consume_code : ℕ → ℕ → Lifecycle → Bool × Lifecycle
  consume_code connection_id handshake_id l =
      let consumed = ports.consume_code l.calls l.code connection_id handshake_id in
      (
        consumed,
        record l { calls = code_consumed l.code connection_id handshake_id consumed ∷ l.calls },
      )

  -- `refresh`, and the rest of an operation if that returned OK.
  abbrev pub refreshed : Lifecycle → (ℕ → Lifecycle → Outcome × Lifecycle) → Outcome × Lifecycle
  refreshed l next =
      let (outcome, now_ms, l') = refresh ports l in
      elim outcome [ ok ↦ next now_ms l' | failed ↦ (failed, l') ]

  -- `local_open` from the drawing of the code on.
  unfoldable pub open_window : ℕ → ℕ → Lifecycle → Outcome × Lifecycle
  open_window connection_id now_ms l =
      let (generated, l₁) = generate_code ports l in
      if not generated
      then (random_failed, l₁)
      else (let (shown, l₂) =
            show_code (record l₁ { code_visible = true; connection_id = connection_id }) in
          if not shown then (display_failed, enter_fault ports l₂) else (
            ok,
            record l₂ {
              window_deadline_ms = deadline_after now_ms l₂.policy.window_ms;
              state = available;
            },
          ))

  unfoldable pub open_refreshed : ℕ → ℕ → Lifecycle → Outcome × Lifecycle
  open_refreshed connection_id now_ms l =
      if l.state is fault
      then (faulted, l)
      else if l.state is locked
      then (locked_out, l)
      else if not (l.state is inactive)
      then (invalid_state, l)
      else (let (present, l₁) = consume_presence start l in
          if not present
          then (local_presence_required, l₁)
          else open_window connection_id now_ms l₁)

  unfoldable pub local_open : Lifecycle → ℕ → Outcome × Lifecycle
  local_open l connection_id =
      if connection_id == 0
      then (invalid_argument, l)
      else refreshed l (open_refreshed connection_id)

  -- `begin` once the attempt is stored.
  unfoldable pub start_handshake : ℕ → ℕ → ℕ → LockRecord → Lifecycle → Outcome × Lifecycle
  start_handshake connection_id handshake_id now_ms next_record l =
      let (consumed, l₁) = consume_code connection_id handshake_id (record l {
        lock_record = next_record;
        handshake_id = handshake_id;
        step_deadline_ms = step_deadline l now_ms;
        state = handshake;
      }) in
      let (cleared, l₂) = clear_code ports l₁ in
      if not cleared
      then fault_after_clear_failure l₂
      else if not consumed
      then (start_failed, settle_inactive_or_locked (revoke_connection l₂))
      else (ok, l₂)

  unfoldable pub begin_refreshed : ℕ → ℕ → ℕ → Lifecycle → Outcome × Lifecycle
  begin_refreshed connection_id handshake_id now_ms l =
      if l.state is handshake || l.state is wait_finished_sent || l.state is active
      then (busy, l)
      else if not (l.state is available)
      then (if l.state is locked then locked_out else invalid_state, l)
      else if not (l.connection_id == connection_id)
      then (invalid_session, l)
      else (let next_record : LockRecord = record {
        version = lock_record_version;
        attempts_used = (l.lock_record.attempts_used + 1) % 2 ^ 32;
      } in
          let (done, l₁) = store_record next_record l in
          if not done
          then (persistence_error, enter_fault ports l₁)
          else start_handshake connection_id handshake_id now_ms next_record l₁)

  unfoldable pub begin : Lifecycle → ℕ → ℕ → Outcome × Lifecycle
  begin l connection_id handshake_id =
      if connection_id == 0 || handshake_id == 0
      then (invalid_argument, l)
      else refreshed l (begin_refreshed connection_id handshake_id)

  unfoldable pub handshake_progress : Lifecycle → ℕ → ℕ → Outcome × Lifecycle
  handshake_progress l connection_id handshake_id =
      refreshed l (progress_refreshed connection_id handshake_id)

  unfoldable pub client_finished_verified : Lifecycle → ℕ → ℕ → Outcome × Lifecycle
  client_finished_verified l connection_id handshake_id =
      let (outcome, l₁) = handshake_progress l connection_id handshake_id in
      elim outcome [ ok ↦ (ok, record l₁ { state = wait_finished_sent }) | failed ↦ (failed, l₁) ]

  unfoldable pub sent_refreshed : ℕ → ℕ → ℕ → Lifecycle → Outcome × Lifecycle
  sent_refreshed connection_id handshake_id now_ms l =
      if not (l.state is wait_finished_sent)
      then (invalid_state, l)
      else if not (session_matches l connection_id handshake_id)
      then (invalid_session, l)
      else (let (done, l₁) = store_record reset_record l in
          if not done then (persistence_error, enter_fault ports l₁) else (
            ok,
            record l₁ {
              lock_record = reset_record;
              session_idle_deadline_ms = deadline_after now_ms l₁.policy.session_idle_ms;
              session_absolute_deadline_ms = deadline_after now_ms l₁.policy.session_absolute_ms;
              state = active;
            },
          ))

  unfoldable pub device_finished_sent : Lifecycle → ℕ → ℕ → Outcome × Lifecycle
  device_finished_sent l connection_id handshake_id =
      refreshed l (sent_refreshed connection_id handshake_id)

  unfoldable pub authenticated_activity : Lifecycle → ℕ → Outcome × Lifecycle
  authenticated_activity l connection_id = refreshed l (activity_refreshed connection_id)

  -- The common end of `protocol_failed` and `disconnect`.
  unfoldable pub end_connection : Lifecycle → Outcome × Lifecycle
  end_connection l =
      let (cleared, l₁) = clear_transient ports l in
      if not cleared then fault_after_clear_failure l₁ else (ok, settle_inactive_or_locked l₁)

  unfoldable pub failed_refreshed : ℕ → ℕ → ℕ → Lifecycle → Outcome × Lifecycle
  failed_refreshed connection_id handshake_id now_ms l =
      if (not (l.state is handshake) && not (l.state is wait_finished_sent))
        || not (session_matches l connection_id handshake_id)
      then (invalid_session, l)
      else end_connection l

  unfoldable pub protocol_failed : Lifecycle → ℕ → ℕ → Outcome × Lifecycle
  protocol_failed l connection_id handshake_id =
      refreshed l (failed_refreshed connection_id handshake_id)

  unfoldable pub disconnect_refreshed : ℕ → ℕ → Lifecycle → Outcome × Lifecycle
  disconnect_refreshed connection_id now_ms l =
      if l.connection_id == 0 || not (l.connection_id == connection_id)
      then (invalid_session, l)
      else end_connection l

  unfoldable pub disconnect : Lifecycle → ℕ → Outcome × Lifecycle
  disconnect l connection_id = refreshed l (disconnect_refreshed connection_id)

  unfoldable pub tick : Lifecycle → Outcome × Lifecycle
  tick l = refreshed l (λ now_ms l'. (ok, l'))

  unfoldable pub local_reset : Lifecycle → Outcome × Lifecycle
  local_reset l =
      let (present, l₁) = consume_presence reset l in
      if not present
      then (local_presence_required, l₁)
      else (let (cleared, l₂) = clear_transient ports l₁ in
          if not cleared
          then fault_after_clear_failure l₂
          else (let (done, l₃) = store_record reset_record l₂ in
              if not done
              then (persistence_error, record l₃ { state = fault })
              else (ok, record l₃ { lock_record = reset_record; state = inactive })))

  unfoldable pub step : Op → Lifecycle → Outcome × Lifecycle
  step (local_open_op c) l = local_open l c
  step (begin_op c h) l = begin l c h
  step (handshake_progress_op c h) l = handshake_progress l c h
  step (client_finished_verified_op c h) l = client_finished_verified l c h
  step (device_finished_sent_op c h) l = device_finished_sent l c h
  step (authenticated_activity_op c) l = authenticated_activity l c
  step (protocol_failed_op c h) l = protocol_failed l c h
  step (disconnect_op c) l = disconnect l c
  step tick_op l = tick l
  step local_reset_op l = local_reset l

  -- The owner's calls in order, with the outcome of each.
  unfoldable pub run : List Op → Lifecycle → List Outcome × Lifecycle
  run [] l = ([], l)
  run (op ∷ ops) l =
      let (outcome, l') = step op l in let (outcomes, l'') = run ops l' in (outcome ∷ outcomes, l'')

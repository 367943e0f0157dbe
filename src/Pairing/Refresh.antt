-- ===== src/Pairing/Refresh.antt =====
-- The helpers of aiqa_pairing_lifecycle.c that wipe, expire and read the clock.
use waveshare.Prelude.{
  ℕ, Bool, true, false, ◌&&◌, ◌||◌, ◌∷◌, Option, none, some, ltb, leb, ◌==◌, if◌then◌else◌,
}
use waveshare.Pairing.State.{
  State, inactive, available, handshake, wait_finished_sent, active, locked, fault, ◌is◌, Outcome,
  ok, display_failed, clock_failed, Lifecycle, Ports, clock_read, code_cleared, connection_revoked,
  zero_code,
}

unfoldable pub revoke_connection : Lifecycle → Lifecycle
revoke_connection l = record l {
  calls = if l.connection_id == 0 then l.calls else connection_revoked l.connection_id ∷ l.calls;
  connection_id = 0;
  handshake_id = 0;
}

unfoldable pub settle_inactive_or_locked : Lifecycle → Lifecycle
settle_inactive_or_locked l = record l {
  state = if leb l.policy.max_attempts l.lock_record.attempts_used then locked else inactive;
}

unfoldable pub clear_deadlines : Lifecycle → Lifecycle
clear_deadlines l = record l {
  window_deadline_ms = 0;
  step_deadline_ms = 0;
  session_idle_deadline_ms = 0;
  session_absolute_deadline_ms = 0;
}

unfoldable pub fault_after_clear_failure : Lifecycle → Outcome × Lifecycle
fault_after_clear_failure l =
    (display_failed, record (clear_deadlines (revoke_connection l)) { state = fault })

-- The test of `expire_if_needed`.
unfoldable pub expired : State → Lifecycle → ℕ → Bool
expired available l now_ms = leb l.window_deadline_ms now_ms
expired handshake l now_ms = leb l.window_deadline_ms now_ms || leb l.step_deadline_ms now_ms
expired wait_finished_sent l now_ms =
    leb l.window_deadline_ms now_ms || leb l.step_deadline_ms now_ms
expired active l now_ms =
    leb l.session_idle_deadline_ms now_ms || leb l.session_absolute_deadline_ms now_ms
expired _ l now_ms = false

module _ (ports : Ports) where
  -- The code is wiped in memory always, and on the display if it is shown there.
  unfoldable pub clear_code : Lifecycle → Bool × Lifecycle
  clear_code l =
      let cleared = if l.code_visible then ports.clear_code l.calls else true in
      (
        cleared,
        record l {
          calls = if l.code_visible then code_cleared cleared ∷ l.calls else l.calls;
          code = zero_code;
          code_visible = if cleared then false else l.code_visible;
        },
      )

  unfoldable pub clear_transient : Lifecycle → Bool × Lifecycle
  clear_transient l = clear_code (clear_deadlines (revoke_connection l))

  unfoldable pub enter_fault : Lifecycle → Lifecycle
  enter_fault l = record (clear_transient l).1 { state = fault }

  unfoldable pub read_time : Option ℕ → Lifecycle → Outcome × ℕ × Lifecycle
  read_time none l = (clock_failed, 0, enter_fault l)
  read_time (some now_ms) l =
      if l.clock_initialized && ltb now_ms l.last_now_ms
      then (clock_failed, 0, enter_fault l)
      else (ok, now_ms, record l { clock_initialized = true; last_now_ms = now_ms })

  unfoldable pub read_clock : Lifecycle → Outcome × ℕ × Lifecycle
  read_clock l =
      let answer = ports.monotonic_ms l.calls in
      read_time answer (record l { calls = clock_read answer ∷ l.calls })

  unfoldable pub expire_if_needed : Lifecycle → ℕ → Outcome × Lifecycle
  expire_if_needed l now_ms =
      if expired l.state l now_ms
      then (let (cleared, l') = clear_transient l in
          if cleared then (ok, settle_inactive_or_locked l') else fault_after_clear_failure l')
      else (ok, l)

  -- The time is handed back beside the outcome; it counts only after `ok`.
  unfoldable pub refresh : Lifecycle → Outcome × ℕ × Lifecycle
  refresh l =
      if l.state is fault
      then (ok, l.last_now_ms, l)
      else (let (outcome, now_ms, l') = read_clock l in
          elim outcome [
            | ok ↦ let (outcome', l'') = expire_if_needed l' now_ms in (outcome', now_ms, l'')
            | failed ↦ (failed, now_ms, l')
          ])

-- ===== src/Pairing/Keeps.antt =====
-- Every operation keeps the invariant.
use waveshare.Prelude.{
  ℕ, ◌+◌, ◌%◌, ◌^◌, ◌≤◌, ◌<◌, ◌≡◌, ◌≢◌, refl, inl, inr, true, false, arith, ◌||◌, ◌==◌, u64_max,
  Bool-cases,
}
use waveshare.Pairing.State.{
  inactive, handshake, Outcome, ok, start, reset, lock_record_version, policy_is_safe, Policy,
  LockRecord, Ports, Lifecycle, deadline_after, earlier_deadline,
}
use waveshare.Pairing.Refresh.{
  revoke_connection, settle_inactive_or_locked, fault_after_clear_failure, clear_deadlines,
  clear_code, clear_transient, refresh,
}
use waveshare.Pairing.Code.{generate_code, generate_code-Drawn}
use waveshare.Pairing.Invariant.{
  enter_fault-IsValid, fault_after_clear-IsValid, IsValid, refresh-IsValid, end-IsValid,
  clear_transient-Wiped, clear_transient-hidden,
}
use waveshare.Pairing.Ops.{
  reset_record, step_deadline, consume_presence, store_record, show_code, consume_code, refreshed,
  open_window, open_refreshed, local_open, start_handshake, begin_refreshed, begin,
  progress_refreshed, handshake_progress, client_finished_verified, sent_refreshed,
  device_finished_sent, activity_refreshed, authenticated_activity, end_connection,
  failed_refreshed, protocol_failed, disconnect_refreshed, disconnect, tick, local_reset, Op, step,
  local_open_op, begin_op, handshake_progress_op, client_finished_verified_op,
  device_finished_sent_op, authenticated_activity_op, protocol_failed_op, disconnect_op, tick_op,
  local_reset_op,
}

earlier-le : (a b : ℕ) → earlier_deadline a b ≤ b
unfolding earlier_deadline
earlier-le a b = ground arith

-- The sum saturates, so a longer span never ends earlier.
deadline_mono : (now a b : ℕ) → a ≤ b → b ≤ u64_max → deadline_after now a ≤ deadline_after now b
unfolding deadline_after
deadline_mono now a b h k = ground arith

pub attempt_allowed : (p : Policy) → policy_is_safe p ≡ true → 0 < p.max_attempts
unfolding policy_is_safe
attempt_allowed p h = ground arith

idle-le-absolute :
    (p : Policy)
    → policy_is_safe p ≡ true
    → (p.session_idle_ms ≤ p.session_absolute_ms) × (p.session_absolute_ms ≤ u64_max)
unfolding policy_is_safe
idle-le-absolute p h = ground arith

progress-IsValid :
    (c h now : ℕ) (l : Lifecycle) → IsValid l → IsValid (progress_refreshed c h now l).1
unfolding progress_refreshed step_deadline
progress-IsValid c h now l v =
    ground (arith, earlier-le (deadline_after now l.policy.step_ms) l.window_deadline_ms)

activity-IsValid : (c now : ℕ) (l : Lifecycle) → IsValid l → IsValid (activity_refreshed c now l).1
unfolding activity_refreshed
activity-IsValid c now l v =
    ground (
      arith,
      earlier-le (deadline_after now l.policy.session_idle_ms) l.session_absolute_deadline_ms,
    )

-- After a successful step of a handshake the lifecycle is in one.
progressed-state :
    (c h now : ℕ) (l : Lifecycle)
    → (progress_refreshed c h now l).0 ≡ ok
    → (progress_refreshed c h now l).1.state ≡ handshake
unfolding progress_refreshed
progressed-state c h now l e = ground arith

module _ (ports : Ports) where
  handshake_progress-state :
      (c h : ℕ) (l : Lifecycle)
      → (handshake_progress ports l c h).0 ≡ ok
      → (handshake_progress ports l c h).1.state ≡ handshake
  unfolding handshake_progress
  handshake_progress-state c h l e =
      let (outcome, now, l') = refresh ports l in ground (arith, progressed-state c h now l')

  -- An operation that begins by a refresh keeps the invariant if its rest does.
  refreshed-IsValid :
      (l : Lifecycle) (next : ℕ → Lifecycle → Outcome × Lifecycle)
      → ((now : ℕ) (l' : Lifecycle) → IsValid l' → IsValid (next now l').1)
      → IsValid l
      → IsValid (refreshed ports l next).1
  refreshed-IsValid l next keep v =
      let (outcome, now, l') = refresh ports l in
      let v' = refresh-IsValid ports l v in ground (arith, v', keep now l' v')

  open_window-IsValid :
      (c now : ℕ) (l : Lifecycle)
      → c ≢ 0
      → l.state ≡ inactive
      → IsValid l
      → IsValid (open_window ports c now l).1
  unfolding open_window show_code
  open_window-IsValid c now l nz i v =
      let l₁ = (generate_code ports l).1 in
      let l₂ : Lifecycle = record l₁ { code_visible = true; connection_id = c } in
      ground (arith, generate_code-Drawn ports l, enter_fault-IsValid ports (show_code ports l₂).1)

  open-IsValid :
      (c now : ℕ) (l : Lifecycle) → c ≢ 0 → IsValid l → IsValid (open_refreshed ports c now l).1
  unfolding open_refreshed consume_presence
  open-IsValid c now l nz v =
      let l₁ = (consume_presence ports start l).1 in ground (arith, open_window-IsValid c now l₁ nz)

  -- `clear_code` in a handshake.
  clear_code-IsValid :
      (l : Lifecycle)
      → policy_is_safe l.policy ≡ true
      → l.state ≡ handshake
      → l.connection_id ≢ 0
      → l.handshake_id ≢ 0
      → l.lock_record.attempts_used ≤ l.policy.max_attempts
      → l.step_deadline_ms ≤ l.window_deadline_ms
      → let (cleared, l') = clear_code ports l in
        (cleared ≡ true → IsValid l' × IsValid (settle_inactive_or_locked (revoke_connection l')))
        × (cleared ≡ false → IsValid (fault_after_clear_failure l').1)
  unfolding clear_code settle_inactive_or_locked revoke_connection fault_after_clear_failure
      clear_deadlines
  clear_code-IsValid l s st nc nh b d = ground arith

  start_handshake-IsValid :
      (c h now : ℕ) (r : LockRecord) (l : Lifecycle)
      → policy_is_safe l.policy ≡ true
      → l.connection_id ≢ 0
      → h ≢ 0
      → r.attempts_used ≤ l.policy.max_attempts
      → IsValid (start_handshake ports c h now r l).1
  unfolding start_handshake consume_code
  start_handshake-IsValid c h now r l s nc nh b =
      let l₀ : Lifecycle = record l {
        lock_record = r;
        handshake_id = h;
        step_deadline_ms = step_deadline l now;
        state = handshake;
      } in
      let l₁ = (consume_code ports c h l₀).1 in
      let deadline : step_deadline l now ≤ l.window_deadline_ms =
        unfold step_deadline in
        earlier-le (deadline_after now l.policy.step_ms) l.window_deadline_ms in
      ground (arith, clear_code-IsValid l₁ s refl nc nh b deadline)

  begin-IsValid :
      (c h now : ℕ) (l : Lifecycle)
      → h ≢ 0
      → IsValid l
      → IsValid (begin_refreshed ports c h now l).1
  unfolding begin_refreshed store_record
  begin-IsValid c h now l nh v =
      let r : LockRecord = record {
        version = lock_record_version;
        attempts_used = (l.lock_record.attempts_used + 1) % 2 ^ 32;
      } in
      let l₁ = (store_record ports r l).1 in
      ground (arith, enter_fault-IsValid ports l₁, start_handshake-IsValid c h now r l₁)

  sent-IsValid :
      (c h now : ℕ) (l : Lifecycle) → IsValid l → IsValid (sent_refreshed ports c h now l).1
  unfolding sent_refreshed store_record
  sent-IsValid c h now l v =
      let l₁ = (store_record ports reset_record l).1 in
      ground (
        arith,
        enter_fault-IsValid ports l₁,
        deadline_mono now l.policy.session_idle_ms l.policy.session_absolute_ms,
        idle-le-absolute l.policy v.safe,
      )

  end_connection-IsValid :
      (l : Lifecycle)
      → policy_is_safe l.policy ≡ true
      → l.lock_record.attempts_used ≤ l.policy.max_attempts
      → IsValid (end_connection ports l).1
  unfolding end_connection
  end_connection-IsValid l s b = ground (arith, end-IsValid ports l s b)

  failed-IsValid :
      (c h now : ℕ) (l : Lifecycle) → IsValid l → IsValid (failed_refreshed ports c h now l).1
  unfolding failed_refreshed
  failed-IsValid c h now l v = ground (arith, end_connection-IsValid l v.safe)

  disconnected-IsValid :
      (c now : ℕ) (l : Lifecycle) → IsValid l → IsValid (disconnect_refreshed ports c now l).1
  unfolding disconnect_refreshed
  disconnected-IsValid c now l v = ground (arith, end_connection-IsValid l v.safe)

  progress_op-IsValid :
      (c h : ℕ) (l : Lifecycle) → IsValid l → IsValid (handshake_progress ports l c h).1
  unfolding handshake_progress
  progress_op-IsValid c h l v =
      refreshed-IsValid l (progress_refreshed c h) (progress-IsValid c h) v

  verified-IsValid :
      (c h : ℕ) (l : Lifecycle) → IsValid l → IsValid (client_finished_verified ports l c h).1
  unfolding client_finished_verified
  verified-IsValid c h l v =
      ground (arith, progress_op-IsValid c h l v, handshake_progress-state c h l)

  reset-IsValid : (l : Lifecycle) → IsValid l → IsValid (local_reset ports l).1
  unfolding local_reset consume_presence store_record
  reset-IsValid l v =
      let l₁ = (consume_presence ports reset l).1 in
      let l₂ = (clear_transient ports l₁).1 in
      ground (
        arith,
        clear_transient-Wiped ports l₁,
        clear_transient-hidden ports l₁,
        fault_after_clear-IsValid l₂,
        attempt_allowed l.policy v.safe,
      )

  -- Every operation, whatever its arguments and whatever the ports answer, takes a valid lifecycle
  -- to a valid one: a connection is bound exactly in the states that serve one, the code is wiped
  -- from memory outside the pairing window, `inactive` has an attempt left and `locked` has none,
  -- and no step or idle deadline lies behind the one that caps it.
  pub step-IsValid : (op : Op) (l : Lifecycle) → IsValid l → IsValid (step ports op l).1
  unfolding step local_open begin device_finished_sent authenticated_activity protocol_failed
      disconnect tick
  step-IsValid (local_open_op c) l v = elim (Bool-cases (c == 0)) [
    | inl e ↦ rw e v
    | inr e ↦ rw e (
        refreshed-IsValid l (open_refreshed ports c)
          (λ now l'. open-IsValid c now l' (ground arith)) v)
  ]
  step-IsValid (begin_op c h) l v = elim (Bool-cases (c == 0 || h == 0)) [
    | inl e ↦ rw e v
    | inr e ↦ rw e (
        refreshed-IsValid l (begin_refreshed ports c h)
          (λ now l'. begin-IsValid c h now l' (ground arith)) v)
  ]
  step-IsValid (handshake_progress_op c h) l v = progress_op-IsValid c h l v
  step-IsValid (client_finished_verified_op c h) l v = verified-IsValid c h l v
  step-IsValid (device_finished_sent_op c h) l v =
      refreshed-IsValid l (sent_refreshed ports c h) (sent-IsValid c h) v
  step-IsValid (authenticated_activity_op c) l v =
      refreshed-IsValid l (activity_refreshed c) (activity-IsValid c) v
  step-IsValid (protocol_failed_op c h) l v =
      refreshed-IsValid l (failed_refreshed ports c h) (failed-IsValid c h) v
  step-IsValid (disconnect_op c) l v =
      refreshed-IsValid l (disconnect_refreshed ports c) (disconnected-IsValid c) v
  step-IsValid tick_op l v = refreshed-IsValid l (λ now l'. (ok, l')) (λ now l' v'. v') v
  step-IsValid local_reset_op l v = reset-IsValid l v

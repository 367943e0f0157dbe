-- ===== src/Pairing/Attempts.antt =====
-- How often a code may be tried: the attempts that are paid for before the code is handed out.
use waveshare.Prelude.{
  ℕ, ◌+◌, ◌%◌, ◌^◌, ◌≤◌, ◌<◌, ◌≡◌, ◌≢◌, inl, inr, true, List, [], ◌∷◌, arith, ◌||◌, ◌==◌,
  Bool-cases,
}
use waveshare.Pairing.State.{
  handshake, Outcome, ok, LockRecord, lock_record_version, Policy, policy_is_safe, attempts_max,
  Ports, Lifecycle,
}
use waveshare.Pairing.Refresh.{revoke_connection, clear_code, refresh}
use waveshare.Pairing.Invariant.{IsValid, Bounded, refresh-IsValid}
use waveshare.Pairing.Ops.{
  reset_record, step_deadline, store_record, consume_code, refreshed, open_refreshed, local_open,
  start_handshake, begin_refreshed, begin, progress_refreshed, handshake_progress,
  client_finished_verified, sent_refreshed, device_finished_sent, activity_refreshed,
  authenticated_activity, failed_refreshed, protocol_failed, disconnect_refreshed, disconnect, tick,
  Op, step, run, local_open_op, begin_op, handshake_progress_op, client_finished_verified_op,
  device_finished_sent_op, authenticated_activity_op, protocol_failed_op, disconnect_op, tick_op,
  local_reset_op,
}
use waveshare.Pairing.Keeps.{step-IsValid}
use waveshare.Pairing.Quiet.{
  guesses, Quiet, clear_code-Quiet, enter_fault-Quiet, settle-Quiet, revoke-Quiet,
  fault_after_clear-Quiet, end_connection-Quiet, refresh-Quiet, open-Quiet, progress-Quiet,
  activity-Quiet,
}

policy_limit : (p : Policy) → policy_is_safe p ≡ true → p.max_attempts ≤ attempts_max
unfolding policy_is_safe
policy_limit p h = ground arith

-- A part of an operation that pays for each code it hands out, and never past the limit.
record Paid (l l' : Lifecycle) : Type 0 where
  kept_policy : l'.policy ≡ l.policy
  bounded : Bounded l'
  paid :
      guesses l'.calls + l.lock_record.attempts_used
      ≤ guesses l.calls + l'.lock_record.attempts_used

Quiet-Paid : (l l' : Lifecycle) → Bounded l → Quiet l l' → Paid l l'
Quiet-Paid l l' b q = ground arith

Paid-trans : (l m n : Lifecycle) → Paid l m → Paid m n → Paid l n
Paid-trans l m n p q = ground arith

module _ (ports : Ports) where
  refreshed-Paid :
      (l : Lifecycle) (next : ℕ → Lifecycle → Outcome × Lifecycle)
      → ((now : ℕ) (l' : Lifecycle) → IsValid l' → Bounded l' → Paid l' (next now l').1)
      → IsValid l
      → Bounded l
      → Paid l (refreshed ports l next).1
  refreshed-Paid l next pays v b =
      let (outcome, now, l') = refresh ports l in
      let q = refresh-Quiet ports l in
      let rest = pays now l' (refresh-IsValid ports l v) in ground (arith, q, rest)

  -- The guess that `begin` makes is the attempt that it has stored.
  start_handshake-Paid :
      (c h now : ℕ) (r : LockRecord) (l : Lifecycle)
      → r.attempts_used ≡ l.lock_record.attempts_used + 1
      → l.lock_record.attempts_used < l.policy.max_attempts
      → Paid l (start_handshake ports c h now r l).1
  unfolding start_handshake consume_code guesses
  start_handshake-Paid c h now r l e b =
      let l₀ : Lifecycle = record l {
        lock_record = r;
        handshake_id = h;
        step_deadline_ms = step_deadline l now;
        state = handshake;
      } in
      let l₁ = (consume_code ports c h l₀).1 in
      let l₂ = (clear_code ports l₁).1 in
      ground (
        arith,
        clear_code-Quiet ports l₁,
        fault_after_clear-Quiet l₂,
        revoke-Quiet l₂,
        settle-Quiet (revoke_connection l₂),
      )

  begin-Paid :
      (c h now : ℕ) (l : Lifecycle)
      → IsValid l
      → Bounded l
      → Paid l (begin_refreshed ports c h now l).1
  unfolding begin_refreshed store_record guesses
  begin-Paid c h now l v b =
      let r : LockRecord = record {
        version = lock_record_version;
        attempts_used = (l.lock_record.attempts_used + 1) % 2 ^ 32;
      } in
      let l₁ = (store_record ports r l).1 in
      ground (
        arith,
        enter_fault-Quiet ports l₁,
        start_handshake-Paid c h now r l₁,
        policy_limit l.policy v.safe,
      )

  sent-Quiet :
      (c h now : ℕ) (l : Lifecycle)
      → (sent_refreshed ports c h now l).0 ≢ ok
      → Quiet l (sent_refreshed ports c h now l).1
  unfolding sent_refreshed store_record guesses
  sent-Quiet c h now l e =
      ground (arith, enter_fault-Quiet ports (store_record ports reset_record l).1)

  sent-Paid :
      (c h : ℕ) (l : Lifecycle)
      → (device_finished_sent ports l c h).0 ≢ ok
      → IsValid l
      → Bounded l
      → Paid l (device_finished_sent ports l c h).1
  unfolding device_finished_sent
  sent-Paid c h l e v b =
      let (outcome, now, l') = refresh ports l in
      let q = refresh-Quiet ports l in
      ground (
        arith,
        q,
        Quiet-Paid l l' b q,
        sent-Quiet c h now l',
        Quiet-Paid l' (sent_refreshed ports c h now l').1,
        Paid-trans l l' (sent_refreshed ports c h now l').1,
      )

  failed-Quiet : (c h now : ℕ) (l : Lifecycle) → Quiet l (failed_refreshed ports c h now l).1
  unfolding failed_refreshed
  failed-Quiet c h now l = ground (arith, end_connection-Quiet ports l)

  disconnected-Quiet : (c now : ℕ) (l : Lifecycle) → Quiet l (disconnect_refreshed ports c now l).1
  unfolding disconnect_refreshed
  disconnected-Quiet c now l = ground (arith, end_connection-Quiet ports l)

-- Neither a completed pairing nor a reset at the device.
abbrev pub Unpaired : Op → Outcome → Type 0
Unpaired (device_finished_sent_op c h) outcome = outcome ≢ ok
Unpaired local_reset_op outcome = ⊥
Unpaired _ outcome = Unit {0}

module _ (ports : Ports) where
  progress_op-Paid :
      (c h : ℕ) (l : Lifecycle) → IsValid l → Bounded l → Paid l (handshake_progress ports l c h).1
  unfolding handshake_progress
  progress_op-Paid c h l =
      refreshed-Paid ports l (progress_refreshed c h)
        (λ now l' v b. Quiet-Paid l' _ b (progress-Quiet c h now l'))

  verified-Paid :
      (c h : ℕ) (l : Lifecycle)
      → IsValid l
      → Bounded l
      → Paid l (client_finished_verified ports l c h).1
  unfolding client_finished_verified
  verified-Paid c h l v b = ground (arith, progress_op-Paid c h l v b)

  step-Paid :
      (op : Op) (l : Lifecycle)
      → Unpaired op (step ports op l).0
      → IsValid l
      → Bounded l
      → Paid l (step ports op l).1
  unfolding step local_open begin authenticated_activity protocol_failed disconnect tick
  step-Paid (local_open_op c) l u v b = elim (Bool-cases (c == 0)) [
    | inl e ↦ rw e (Quiet-Paid l l b (ground arith))
    | inr e ↦ rw e (
        refreshed-Paid ports l (open_refreshed ports c)
          (λ now l' v' b'. Quiet-Paid l' _ b' (open-Quiet ports c now l')) v b)
  ]
  step-Paid (begin_op c h) l u v b = elim (Bool-cases (c == 0 || h == 0)) [
    | inl e ↦ rw e (Quiet-Paid l l b (ground arith))
    | inr e ↦ rw e (refreshed-Paid ports l (begin_refreshed ports c h) (begin-Paid ports c h) v b)
  ]
  step-Paid (handshake_progress_op c h) l u v b = progress_op-Paid c h l v b
  step-Paid (client_finished_verified_op c h) l u v b = verified-Paid c h l v b
  step-Paid (device_finished_sent_op c h) l u v b = sent-Paid ports c h l u v b
  step-Paid (authenticated_activity_op c) l u v b =
      refreshed-Paid ports l (activity_refreshed c)
        (λ now l' v' b'. Quiet-Paid l' _ b' (activity-Quiet c now l')) v b
  step-Paid (protocol_failed_op c h) l u v b =
      refreshed-Paid ports l (failed_refreshed ports c h)
        (λ now l' v' b'. Quiet-Paid l' _ b' (failed-Quiet ports c h now l')) v b
  step-Paid (disconnect_op c) l u v b =
      refreshed-Paid ports l (disconnect_refreshed ports c)
        (λ now l' v' b'. Quiet-Paid l' _ b' (disconnected-Quiet ports c now l')) v b
  step-Paid tick_op l u v b =
      refreshed-Paid ports l (λ now l'. (ok, l'))
        (λ now l' v' b'. Quiet-Paid l' l' b' (ground arith)) v b
  step-Paid local_reset_op l u v b = elim u [ ]

  -- No call of the list completes a pairing or resets the lock at the device.
  abbrev pub AllUnpaired : List Op → Lifecycle → Type 0
  AllUnpaired [] l = Unit {0}
  AllUnpaired (op ∷ ops) l = Unpaired op (step ports op l).0 × AllUnpaired ops (step ports op l).1

  run-Paid :
      (ops : List Op) (l : Lifecycle)
      → AllUnpaired ops l
      → IsValid l
      → Bounded l
      → Paid l (run ports ops l).1
  unfolding run
  run-Paid [] l u v b = Quiet-Paid l l b (ground arith)
  run-Paid (op ∷ ops) l u v b =
      let l' = (step ports op l).1 in
      let first = step-Paid op l u.0 v b in
      let rest = run-Paid ops l' u.1 (step-IsValid ports op l v) first.bounded in
      Paid-trans l l' _ first rest

  -- From a valid lifecycle with attempts in bounds, whatever calls come and whatever the ports
  -- answer: until a pairing is completed or the lock is reset at the device, the code is handed to
  -- a handshake at most `max_attempts - attempts_used` times.
  pub guesses-le :
      (ops : List Op) (l : Lifecycle)
      → AllUnpaired ops l
      → IsValid l
      → Bounded l
      → guesses (run ports ops l).1.calls + l.lock_record.attempts_used
        ≤ guesses l.calls + l.policy.max_attempts
  guesses-le ops l u v b = let p = run-Paid ops l u v b in ground (arith, p)

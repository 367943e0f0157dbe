-- ===== src/Pairing/Quiet.antt =====
-- The parts of an operation that neither hand out a code nor change what was paid for it.
use waveshare.Prelude.{
  ℕ, zero, suc, ◌≡◌, inl, inr, true, List, [], ◌∷◌, Option, none, some, arith, Option-cases,
}
use waveshare.Pairing.State.{start, code_size, Ports, Call, clock_read, code_consumed, Lifecycle}
use waveshare.Pairing.Refresh.{
  revoke_connection, settle_inactive_or_locked, clear_deadlines, fault_after_clear_failure,
  clear_code, clear_transient, enter_fault, read_time, read_clock, expire_if_needed, refresh,
}
use waveshare.Pairing.Code.{draw, write_digit, draw_digits, generate_code, digit_rejection_limit}
use waveshare.Pairing.Ops.{
  consume_presence, show_code, open_window, open_refreshed, progress_refreshed, activity_refreshed,
  end_connection,
}

-- How often a code has been handed to a handshake: each time is one guess of the other side.
unfoldable pub guesses : List Call → ℕ
guesses [] = 0
guesses (code_consumed code c h r ∷ calls) = suc (guesses calls)
guesses (_ ∷ calls) = guesses calls

-- A part of an operation that hands out no code and pays for none.
pub record Quiet (l l' : Lifecycle) : Type 0 where
  pub same_policy : l'.policy ≡ l.policy
  pub same_record : l'.lock_record ≡ l.lock_record
  pub same_guesses : guesses l'.calls ≡ guesses l.calls

module _ (ports : Ports) where
  pub clear_code-Quiet : (l : Lifecycle) → Quiet l (clear_code ports l).1
  unfolding clear_code guesses
  clear_code-Quiet l = ground arith

  pub clear_transient-Quiet : (l : Lifecycle) → Quiet l (clear_transient ports l).1
  unfolding clear_transient clear_code clear_deadlines revoke_connection guesses
  clear_transient-Quiet l = ground arith

  pub enter_fault-Quiet : (l : Lifecycle) → Quiet l (enter_fault ports l)
  unfolding enter_fault
  enter_fault-Quiet l = ground (arith, clear_transient-Quiet l)

  pub read_time-Quiet : (answer : Option ℕ) (l : Lifecycle) → Quiet l (read_time ports answer l).2
  unfolding read_time
  read_time-Quiet none l = enter_fault-Quiet l
  read_time-Quiet (some now) l = ground (arith, enter_fault-Quiet l)

  pub read_clock-Quiet : (l : Lifecycle) → Quiet l (read_clock ports l).2
  unfolding read_clock guesses
  read_clock-Quiet l =
      let answer = ports.monotonic_ms l.calls in
      ground (arith, read_time-Quiet answer (record l { calls = clock_read answer ∷ l.calls }))

pub settle-Quiet : (l : Lifecycle) → Quiet l (settle_inactive_or_locked l)
unfolding settle_inactive_or_locked
settle-Quiet l = ground arith

pub revoke-Quiet : (l : Lifecycle) → Quiet l (revoke_connection l)
unfolding revoke_connection guesses
revoke-Quiet l = ground arith

pub fault_after_clear-Quiet : (l : Lifecycle) → Quiet l (fault_after_clear_failure l).1
unfolding fault_after_clear_failure revoke_connection clear_deadlines guesses
fault_after_clear-Quiet l = ground arith

module _ (ports : Ports) where
  pub end_connection-Quiet : (l : Lifecycle) → Quiet l (end_connection ports l).1
  unfolding end_connection
  end_connection-Quiet l =
      let l' = (clear_transient ports l).1 in
      ground (arith, clear_transient-Quiet ports l, settle-Quiet l', fault_after_clear-Quiet l')

  pub expire-Quiet : (l : Lifecycle) (now : ℕ) → Quiet l (expire_if_needed ports l now).1
  unfolding expire_if_needed
  expire-Quiet l now =
      let l' = (clear_transient ports l).1 in
      ground (arith, clear_transient-Quiet ports l, settle-Quiet l', fault_after_clear-Quiet l')

  pub refresh-Quiet : (l : Lifecycle) → Quiet l (refresh ports l).2
  unfolding refresh
  refresh-Quiet l =
      let (outcome, now, l') = read_clock ports l in
      ground (arith, read_clock-Quiet ports l, expire-Quiet l' now)

  pub draw_digits-Quiet :
      (left rejections : ℕ) (l : Lifecycle) → Quiet l (draw_digits ports left rejections l).1
  unfolding draw_digits draw write_digit guesses
  draw_digits-Quiet zero rejections l = ground arith
  draw_digits-Quiet (suc left) zero l = ground arith
  draw_digits-Quiet (suc left) (suc rejections) l =
      let l' = (draw ports l).1 in
      elim (Option-cases (ports.random_fill l.calls)) [
        | inl e ↦ ground arith
        | inr (value, e) ↦ ground (
          arith,
          draw_digits-Quiet (suc left) rejections l',
          draw_digits-Quiet left (suc rejections) (write_digit (suc left) value l'),
        )
      ]

  pub generate_code-Quiet : (l : Lifecycle) → Quiet l (generate_code ports l).1
  unfolding generate_code
  generate_code-Quiet l = draw_digits-Quiet code_size digit_rejection_limit l

  pub open_window-Quiet : (c now : ℕ) (l : Lifecycle) → Quiet l (open_window ports c now l).1
  unfolding open_window show_code guesses
  open_window-Quiet c now l =
      let l₁ = (generate_code ports l).1 in
      let l₂ : Lifecycle = record l₁ { code_visible = true; connection_id = c } in
      ground (arith, generate_code-Quiet l, enter_fault-Quiet ports (show_code ports l₂).1)

  pub open-Quiet : (c now : ℕ) (l : Lifecycle) → Quiet l (open_refreshed ports c now l).1
  unfolding open_refreshed consume_presence guesses
  open-Quiet c now l = ground (arith, open_window-Quiet c now (consume_presence ports start l).1)

pub progress-Quiet : (c h now : ℕ) (l : Lifecycle) → Quiet l (progress_refreshed c h now l).1
unfolding progress_refreshed
progress-Quiet c h now l = ground arith

pub activity-Quiet : (c now : ℕ) (l : Lifecycle) → Quiet l (activity_refreshed c now l).1
unfolding activity_refreshed
activity-Quiet c now l = ground arith

-- ===== src/Pairing/Tests.antt =====
-- Runs of a pairing lifecycle against scripted ports, and the theorems at concrete inputs.
use waveshare.Prelude.{
  ◌⊎◌, ◌↔◌, ℕ, suc, ◌+◌, ◌*◌, ◌≤◌, ◌<◌, ◌≡◌, refl, true, false, some, List, [], ◌∷◌, arith, length,
}
use waveshare.Pairing.State.{
  inactive, active, fault, Outcome, not_found, zero_code, default_policy, policy_is_safe, Call,
  clock_read, Ports, Lifecycle, deadline_after, earlier_deadline, code_size,
}
use waveshare.Pairing.Refresh.{
  revoke_connection, settle_inactive_or_locked, clear_deadlines, fault_after_clear_failure, expired,
  clear_code, clear_transient, enter_fault, read_time, read_clock, expire_if_needed, refresh,
}
use waveshare.Pairing.Code.{
  draw, write_digit, draw_digits, generate_code, generate_code-Digits, Digits,
}
use waveshare.Pairing.Invariant.{IsValid, IsOpen}
use waveshare.Pairing.Ops.{
  session_matches, step_deadline, consume_presence, store_record, show_code, consume_code,
  open_window, open_refreshed, local_open, start_handshake, begin_refreshed, begin,
  progress_refreshed, handshake_progress, client_finished_verified, sent_refreshed,
  device_finished_sent, activity_refreshed, authenticated_activity, end_connection,
  failed_refreshed, protocol_failed, disconnect_refreshed, disconnect, tick, local_reset, Op, step,
  run, local_open_op, begin_op, client_finished_verified_op, device_finished_sent_op,
  protocol_failed_op,
}
use waveshare.Pairing.Keeps.{step-IsValid}
use waveshare.Pairing.Attempts.{guesses-le}
use waveshare.Pairing.Quiet.{guesses}
use waveshare.Pairing.Create.{
  blank, created, create, create-IsValid, status_of, get_status, reported_deadline, Status,
}
use waveshare.Pairing.Expiry.{step-fault, get_status_lem}

-- Each read of the clock is a second later than the last.
abbrev seconds : List Call → ℕ
seconds [] = 0
seconds (clock_read t ∷ calls) = suc (seconds calls)
seconds (_ ∷ calls) = seconds calls

-- Every port works; the random bytes are all 7.
abbrev bench : Ports
bench = record {
  monotonic_ms = λ calls. some (seconds calls * 1000);
  random_fill = λ calls. some 7;
  load_lock_record = λ calls r. (not_found, r);
  store_lock_record = λ calls r. true;
  show_code = λ calls code. true;
  clear_code = λ calls. true;
  consume_local_presence = λ calls action. true;
  consume_code = λ calls code c h. true;
}

abbrev fresh : Lifecycle
fresh = blank default_policy []

-- Runs with every callee open.
play : List Op → Lifecycle → List Outcome × Lifecycle
unfolding run step local_open begin handshake_progress client_finished_verified device_finished_sent
    authenticated_activity protocol_failed disconnect tick local_reset open_refreshed open_window
    begin_refreshed start_handshake progress_refreshed sent_refreshed activity_refreshed
    failed_refreshed disconnect_refreshed end_connection consume_presence store_record show_code
    consume_code session_matches step_deadline refresh read_clock read_time expire_if_needed expired
    enter_fault clear_transient clear_code clear_deadlines revoke_connection
    settle_inactive_or_locked fault_after_clear_failure generate_code draw_digits draw write_digit
    deadline_after earlier_deadline
play ops l = run bench ops l

abbrev pairing : List Op
pairing =
    local_open_op 9
    ∷ begin_op 9 1
    ∷ client_finished_verified_op 9 1
    ∷ device_finished_sent_op 9 1
    ∷ []

abbrev attack : List Op
attack = local_open_op 9 ∷ begin_op 9 1 ∷ protocol_failed_op 9 1 ∷ []

pairing_succeeds : (play pairing fresh).1.state ≡ active
unfolding play
pairing_succeeds = refl

code_of_sevens :
    (play (local_open_op 9 ∷ []) fresh).1.code
    ≡ b'7' ∷ b'7' ∷ b'7' ∷ b'7' ∷ b'7' ∷ b'7' ∷ b'7' ∷ b'7' ∷ []
unfolding play
code_of_sevens = refl

fresh-IsValid : IsValid fresh
fresh-IsValid = record {
  safe = unfold policy_is_safe in refl;
  holds = (refl, refl, refl, omega arith);
}

step-IsValid_example : IsValid (step bench (local_open_op 9) fresh).1
step-IsValid_example = step-IsValid bench (local_open_op 9) fresh fresh-IsValid

guesses-le_example : guesses (run bench attack fresh).1.calls + 0 ≤ guesses [] + 5
guesses-le_example = guesses-le bench attack fresh (tt, (tt, (tt, tt))) fresh-IsValid (omega arith)

generate_code-Digits_example :
    let (done, l) = generate_code bench fresh in
    ((done ≡ true) × (length l.code ≡ code_size) × Digits l.code)
    ⊎ ((done ≡ false) × (l.code ≡ zero_code))
generate_code-Digits_example = generate_code-Digits bench fresh refl

create-IsValid_example : IsValid (created bench default_policy [])
unfolding create policy_is_safe
create-IsValid_example = create-IsValid bench default_policy true [] refl

abbrev broken : Lifecycle
broken = record fresh { state = fault }

step-fault_example : (step bench (begin_op 9 1) broken).1 ≡ broken
step-fault_example =
    step-fault bench (begin_op 9 1) broken tt
      (record { safe = unfold policy_is_safe in refl; holds = (refl, refl) }) refl

abbrev fresh_status : Status
fresh_status = record { state = inactive; attempts_remaining = 5; remaining_ms = 0 }

get_status-fresh : (get_status bench fresh).1 ≡ some fresh_status
unfolding get_status status_of reported_deadline refresh read_clock read_time expire_if_needed
    expired
get_status-fresh = refl

get_status_lem_example :
    let l' = (get_status bench fresh).2 in
    ((0 < 0) ↔ IsOpen inactive) × (5 + l'.lock_record.attempts_used ≡ l'.policy.max_attempts)
get_status_lem_example = get_status_lem bench fresh fresh-IsValid get_status-fresh (ground arith)

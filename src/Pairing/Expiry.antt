-- ===== src/Pairing/Expiry.antt =====
-- Time and faults: what a session may outlive, and what a faulted lifecycle still does.
use waveshare.Prelude.{◌+◌, ◌<◌, ◌≡◌, ◌≢◌, ◌↔◌, refl, true, false, some, arith, ltb}
use waveshare.Pairing.State.{State, inactive, locked, fault, ok, Ports, Lifecycle, earlier_deadline}
use waveshare.Pairing.Refresh.{
  settle_inactive_or_locked, expired, read_time, read_clock, expire_if_needed, refresh,
  fault_after_clear_failure,
}
use waveshare.Pairing.Invariant.{IsValid, IsOpen, Holds, Bounded, refresh-IsValid}
use waveshare.Pairing.Ops.{
  open_refreshed, local_open, begin_refreshed, begin, progress_refreshed, handshake_progress,
  client_finished_verified, sent_refreshed, device_finished_sent, activity_refreshed,
  authenticated_activity, failed_refreshed, protocol_failed, disconnect_refreshed, disconnect, tick,
  Op, step, local_reset_op,
}
use waveshare.Pairing.Create.{Status, status_of, reported_deadline, get_status}

-- The calls of the peer and of the owner, less the reset at the device.
abbrev pub IsRemote : Op → Type 0
IsRemote local_reset_op = ⊥
IsRemote _ = Unit {0}

-- A faulted lifecycle answers every call but the local reset without changing anything and without
-- calling any port: no clock is read, no code is shown or handed out, and nothing is stored.
pub step-fault :
    (ports : Ports) (op : Op) (l : Lifecycle)
    → IsRemote op
    → IsValid l
    → l.state ≡ fault
    → (step ports op l).1 ≡ l
unfolding step local_open begin handshake_progress client_finished_verified device_finished_sent
    authenticated_activity protocol_failed disconnect tick open_refreshed begin_refreshed
    progress_refreshed sent_refreshed activity_refreshed failed_refreshed disconnect_refreshed
    refresh
step-fault ports local_reset_op l r v f = elim r [ ]
step-fault ports _ l r v f = ground arith

-- What a refresh leaves open has not reached its deadline.
refresh-live :
    (ports : Ports) (l : Lifecycle)
    → l.state ≢ fault
    → (refresh ports l).0 ≡ ok
    → let l' = (refresh ports l).2 in IsOpen l'.state → expired l'.state l' l'.last_now_ms ≡ false
unfolding refresh read_clock read_time expire_if_needed settle_inactive_or_locked
    fault_after_clear_failure
refresh-live ports l nf e o = ground arith

live :
    (s : State) (l : Lifecycle)
    → IsOpen s
    → expired s l l.last_now_ms ≡ false
    → l.last_now_ms < reported_deadline s l
unfolding expired reported_deadline earlier_deadline
live inactive l o e = elim o [ ]
live locked l o e = elim o [ ]
live fault l o e = elim o [ ]
live _ l o e = ground arith

not_fault-Bounded : (s : State) (l : Lifecycle) → s ≢ fault → Holds s l → Bounded l
not_fault-Bounded fault l n h = absurd (n refl)
not_fault-Bounded _ l n h = omega arith

reported-IsOpen :
    (s : State) (l : Lifecycle) → ltb l.last_now_ms (reported_deadline s l) ≡ true → IsOpen s
unfolding reported_deadline
reported-IsOpen inactive l h = ground arith
reported-IsOpen locked l h = ground arith
reported-IsOpen fault l h = ground arith
reported-IsOpen _ l h = tt

-- Unless the lifecycle is faulted, a status reports time left exactly when it reports an open window
-- or session, and the attempts that it reports and those used make up the limit.
pub get_status_lem :
    (ports : Ports) (l : Lifecycle) {s : Status}
    → IsValid l
    → (get_status ports l).1 ≡ some s
    → s.state ≢ fault
    → let l' = (get_status ports l).2 in
      ((0 < s.remaining_ms) ↔ IsOpen s.state)
      × (s.attempts_remaining + l'.lock_record.attempts_used ≡ l'.policy.max_attempts)
unfolding get_status status_of
get_status_lem ports l v e n =
    let l' = (refresh ports l).2 in
    let v' = refresh-IsValid ports l v in
    (
      (
        λ r. ground (arith, reported-IsOpen l'.state l'),
        λ o. ground (arith, refresh-live ports l, live l'.state l'),
      ),
      ground (arith, not_fault-Bounded l'.state l'),
    )

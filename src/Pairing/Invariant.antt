-- ===== src/Pairing/Invariant.antt =====
-- What holds of a pairing lifecycle between two calls, whatever the ports answer.
use waveshare.Prelude.{
  ℕ, ◌≤◌, ◌<◌, ◌≡◌, ◌≢◌, inl, inr, true, false, List, Option, none, some, Bool-cases, arith,
}
use waveshare.Pairing.State.{
  State, inactive, available, handshake, wait_finished_sent, active, locked, fault, zero_code,
  policy_is_safe, Ports, Call, Lifecycle,
}
use waveshare.Pairing.Refresh.{
  revoke_connection, settle_inactive_or_locked, clear_deadlines, fault_after_clear_failure, expired,
  clear_code, clear_transient, enter_fault, read_time, read_clock, expire_if_needed, refresh,
}

-- A connection is bound exactly while a pairing window or a session is open.
abbrev pub IsOpen : State → Type 0
IsOpen inactive = ⊥
IsOpen locked = ⊥
IsOpen fault = ⊥
IsOpen _ = Unit {0}

-- The facts of each state.
abbrev pub Holds : State → Lifecycle → Type 0
Holds inactive l =
    (l.connection_id ≡ 0)
    × (l.code ≡ zero_code)
    × (l.code_visible ≡ false)
    × (l.lock_record.attempts_used < l.policy.max_attempts)
Holds available l = (l.connection_id ≢ 0) × (l.lock_record.attempts_used < l.policy.max_attempts)
Holds handshake l =
    (l.connection_id ≢ 0)
    × (l.handshake_id ≢ 0)
    × (l.code ≡ zero_code)
    × (l.code_visible ≡ false)
    × (l.lock_record.attempts_used ≤ l.policy.max_attempts)
    × (l.step_deadline_ms ≤ l.window_deadline_ms)
Holds wait_finished_sent l =
    (l.connection_id ≢ 0)
    × (l.handshake_id ≢ 0)
    × (l.code ≡ zero_code)
    × (l.code_visible ≡ false)
    × (l.lock_record.attempts_used ≤ l.policy.max_attempts)
    × (l.step_deadline_ms ≤ l.window_deadline_ms)
Holds active l =
    (l.connection_id ≢ 0)
    × (l.handshake_id ≢ 0)
    × (l.code ≡ zero_code)
    × (l.code_visible ≡ false)
    × (l.lock_record.attempts_used ≡ 0)
    × (l.session_idle_deadline_ms ≤ l.session_absolute_deadline_ms)
Holds locked l =
    (l.connection_id ≡ 0)
    × (l.code ≡ zero_code)
    × (l.code_visible ≡ false)
    × (l.lock_record.attempts_used ≡ l.policy.max_attempts)
Holds fault l = (l.connection_id ≡ 0) × (l.code ≡ zero_code)

pub record IsValid (l : Lifecycle) : Type 0 where
  pub safe : policy_is_safe l.policy ≡ true
  pub holds : Holds l.state l

-- Attempts never pass the limit, in any state but `fault`.
abbrev pub Bounded : Lifecycle → Type 0
Bounded l = l.lock_record.attempts_used ≤ l.policy.max_attempts

-- What wiping leaves alone, and what it leaves.
pub record Wiped (l l' : Lifecycle) : Type 0 where
  pub same_policy : l'.policy ≡ l.policy
  pub same_record : l'.lock_record ≡ l.lock_record
  pub no_connection : l'.connection_id ≡ 0
  pub no_handshake : l'.handshake_id ≡ 0
  pub no_code : l'.code ≡ zero_code

pub clear_transient-Wiped : (ports : Ports) (l : Lifecycle) → Wiped l (clear_transient ports l).1
unfolding clear_transient clear_code clear_deadlines revoke_connection
clear_transient-Wiped ports l = ground arith

pub clear_transient-hidden :
    (ports : Ports) (l : Lifecycle)
    → (clear_transient ports l).0 ≡ true
    → (clear_transient ports l).1.code_visible ≡ false
unfolding clear_transient clear_code clear_deadlines revoke_connection
clear_transient-hidden ports l h = ground arith

pub enter_fault-IsValid :
    (ports : Ports) (l : Lifecycle) → policy_is_safe l.policy ≡ true → IsValid (enter_fault ports l)
unfolding enter_fault
enter_fault-IsValid ports l h = ground (arith, clear_transient-Wiped ports l)

pub settle-IsValid :
    (l : Lifecycle)
    → policy_is_safe l.policy ≡ true
    → l.connection_id ≡ 0
    → l.code ≡ zero_code
    → l.code_visible ≡ false
    → l.lock_record.attempts_used ≤ l.policy.max_attempts
    → IsValid (settle_inactive_or_locked l)
unfolding settle_inactive_or_locked
settle-IsValid l s c z v b = ground arith

pub fault_after_clear-IsValid :
    (l : Lifecycle)
    → policy_is_safe l.policy ≡ true
    → l.code ≡ zero_code
    → IsValid (fault_after_clear_failure l).1
unfolding fault_after_clear_failure revoke_connection clear_deadlines
fault_after_clear-IsValid l s z = ground arith

-- The clock changes nothing that the invariant reads.
Holds-clock :
    (s : State) (l : Lifecycle) (calls : List Call) (now : ℕ)
    → Holds s l
    → Holds s (record l { calls = calls; clock_initialized = true; last_now_ms = now })
Holds-clock inactive l calls now h = h
Holds-clock available l calls now h = h
Holds-clock handshake l calls now h = h
Holds-clock wait_finished_sent l calls now h = h
Holds-clock active l calls now h = h
Holds-clock locked l calls now h = h
Holds-clock fault l calls now h = h

read_time-IsValid :
    (ports : Ports) (answer : Option ℕ) (l : Lifecycle)
    → IsValid l
    → IsValid (read_time ports answer l).2
unfolding read_time
read_time-IsValid ports none l v = enter_fault-IsValid ports l v.safe
read_time-IsValid ports (some now) l v =
    ground (arith, enter_fault-IsValid ports l v.safe, Holds-clock l.state l l.calls now v.holds)

with_calls-IsValid :
    (l : Lifecycle) (calls : List Call) → IsValid l → IsValid (record l { calls = calls })
with_calls-IsValid l calls v = ground arith

pub read_clock-IsValid :
    (ports : Ports) (l : Lifecycle) → IsValid l → IsValid (read_clock ports l).2
unfolding read_clock
read_clock-IsValid ports l v =
    read_time-IsValid ports (ports.monotonic_ms l.calls) _ (with_calls-IsValid l _ v)

-- Only an open state expires.
expired-IsOpen : (s : State) (l : Lifecycle) (now : ℕ) → expired s l now ≡ true → IsOpen s
unfolding expired
expired-IsOpen inactive l now h = cc
expired-IsOpen locked l now h = cc
expired-IsOpen fault l now h = cc
expired-IsOpen _ l now h = tt

open-Bounded : (s : State) (l : Lifecycle) → IsOpen s → Holds s l → Bounded l
open-Bounded inactive l o h = elim o [ ]
open-Bounded locked l o h = elim o [ ]
open-Bounded fault l o h = elim o [ ]
open-Bounded _ l o h = omega arith

-- Ending a connection, which `expire_if_needed`, `protocol_failed` and `disconnect` share.
pub end-IsValid :
    (ports : Ports) (l : Lifecycle)
    → policy_is_safe l.policy ≡ true
    → Bounded l
    → let (cleared, l') = clear_transient ports l in
      (cleared ≡ true → IsValid (settle_inactive_or_locked l'))
      × IsValid (fault_after_clear_failure l').1
end-IsValid ports l s b =
    let l' = (clear_transient ports l).1 in
    let w = clear_transient-Wiped ports l in
    let hidden = clear_transient-hidden ports l in
    (
      λ c. settle-IsValid l' (ground arith) w.no_connection w.no_code (hidden c) (ground arith),
      fault_after_clear-IsValid l' (ground arith) w.no_code,
    )

expire-IsValid :
    (ports : Ports) (l : Lifecycle) (now : ℕ) → IsValid l → IsValid (expire_if_needed ports l now).1
unfolding expire_if_needed
expire-IsValid ports l now v = elim (Bool-cases (expired l.state l now)) [
  | inl e ↦
      let ended =
        end-IsValid ports l v.safe
          (open-Bounded l.state l (expired-IsOpen l.state l now e) v.holds) in
      rw e (ground (arith, ended))
  | inr e ↦ rw e v
]

pub refresh-IsValid : (ports : Ports) (l : Lifecycle) → IsValid l → IsValid (refresh ports l).2
unfolding refresh
refresh-IsValid ports l v =
    let (outcome, now, l') = read_clock ports l in
    ground (arith, read_clock-IsValid ports l v, expire-IsValid ports l' now)

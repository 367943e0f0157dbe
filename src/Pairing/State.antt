-- ===== src/Pairing/State.antt =====
-- The state of aiqa_pairing_lifecycle.c, its policy, and the ports that it calls.
use waveshare.Prelude.{
  ℕ, ◌-◌, ◌+◌, Bool, ◌&&◌, List, Option, ltb, leb, ◌==◌, if◌then◌else◌, replicate, u64_max,
}

pub data State : Type 0 where
  inactive available handshake wait_finished_sent active locked fault : State

abbrev pub state_code : State → ℕ
state_code inactive = 0
state_code available = 1
state_code handshake = 2
state_code wait_finished_sent = 3
state_code active = 4
state_code locked = 5
state_code fault = 6

infix 50 ◌is◌
abbrev pub ◌is◌ : State → State → Bool
s is t = state_code s == state_code t

pub data Outcome : Type 0 where
  ok invalid_argument invalid_state invalid_session local_presence_required locked_out : Outcome
  busy random_failed display_failed persistence_error clock_failed start_failed faulted : Outcome

pub data PersistenceResult : Type 0 where
  found not_found error : PersistenceResult

pub data LocalAction : Type 0 where
  start reset : LocalAction

pub record LockRecord : Type 0 where
  pub version : ℕ
  pub attempts_used : ℕ

pub record Policy : Type 0 where
  pub window_ms : ℕ
  pub step_ms : ℕ
  pub session_idle_ms : ℕ
  pub session_absolute_ms : ℕ
  pub max_attempts : ℕ

abbrev pub window_max : ℕ
window_max = 120000

abbrev pub step_max : ℕ
step_max = 15000

abbrev pub session_idle_max : ℕ
session_idle_max = 300000

abbrev pub session_absolute_max : ℕ
session_absolute_max = 1800000

abbrev pub attempts_max : ℕ
attempts_max = 5

abbrev pub lock_record_version : ℕ
lock_record_version = 1

abbrev pub code_size : ℕ
code_size = 8

abbrev pub zero_code : List ℕ
zero_code = replicate code_size 0

abbrev pub default_policy : Policy
default_policy = record {
  window_ms = window_max;
  step_ms = step_max;
  session_idle_ms = session_idle_max;
  session_absolute_ms = session_absolute_max;
  max_attempts = attempts_max;
}

unfoldable pub policy_is_safe : Policy → Bool
policy_is_safe p =
    leb p.step_ms p.window_ms
    && ltb 0 p.step_ms
    && ltb 0 p.session_idle_ms
    && leb p.session_idle_ms p.session_absolute_ms
    && leb p.window_ms window_max
    && leb p.step_ms step_max
    && leb p.session_idle_ms session_idle_max
    && leb p.session_absolute_ms session_absolute_max
    && ltb 0 p.max_attempts
    && leb p.max_attempts attempts_max

-- One call of a port, with its answer.
pub data Call : Type 0 where
  clock_read : Option ℕ → Call
  random_byte : Option ℕ → Call
  record_loaded : PersistenceResult → LockRecord → Call
  record_stored : LockRecord → Bool → Call
  code_shown : List ℕ → Bool → Call
  code_cleared : Bool → Call
  presence_consumed : LocalAction → Bool → Call
  connection_revoked : ℕ → Call
  code_consumed : List ℕ → ℕ → ℕ → Bool → Call

-- The environment: each port answers by the calls made so far, newest first, and its arguments.
-- `consume_code` is the callback that `begin` is given.
pub record Ports : Type 0 where
  pub monotonic_ms : List Call → Option ℕ
  pub random_fill : List Call → Option ℕ
  pub load_lock_record : List Call → LockRecord → PersistenceResult × LockRecord
  pub store_lock_record : List Call → LockRecord → Bool
  pub show_code : List Call → List ℕ → Bool
  pub clear_code : List Call → Bool
  pub consume_local_presence : List Call → LocalAction → Bool
  pub consume_code : List Call → List ℕ → ℕ → ℕ → Bool

-- `struct aiqa_pairing_lifecycle`, with the calls that it has made on the ports.
pub record Lifecycle : Type 0 where
  pub policy : Policy
  pub lock_record : LockRecord
  pub state : State
  pub code : List ℕ
  pub code_visible : Bool
  pub clock_initialized : Bool
  pub last_now_ms : ℕ
  pub window_deadline_ms : ℕ
  pub step_deadline_ms : ℕ
  pub session_idle_deadline_ms : ℕ
  pub session_absolute_deadline_ms : ℕ
  pub connection_id : ℕ
  pub handshake_id : ℕ
  pub calls : List Call

unfoldable pub deadline_after : ℕ → ℕ → ℕ
deadline_after now_ms duration_ms =
    if ltb (u64_max - duration_ms) now_ms then u64_max else now_ms + duration_ms

unfoldable pub earlier_deadline : ℕ → ℕ → ℕ
earlier_deadline first second = if ltb first second then first else second

-- ===== src/Pairing/Create.antt =====
-- `create`, `destroy` and `get_status` of aiqa_pairing_lifecycle.c.
use waveshare.Prelude.{
  ℕ, ◌-◌, ◌≡◌, ◌≢◌, Bool, true, false, not, ◌||◌, Option, none, some, List, ◌∷◌, arith, ltb, leb,
  ◌==◌, if◌then◌else◌,
}
use waveshare.Pairing.State.{
  State, inactive, available, handshake, wait_finished_sent, active, fault, ◌is◌, Outcome, ok,
  invalid_argument, faulted, PersistenceResult, found, not_found, error, LockRecord,
  lock_record_version, zero_code, Policy, policy_is_safe, Call, record_loaded, Ports, Lifecycle,
  earlier_deadline,
}
use waveshare.Pairing.Refresh.{
  settle_inactive_or_locked, clear_transient, enter_fault, read_time, read_clock, refresh,
}
use waveshare.Pairing.Keeps.{attempt_allowed}
use waveshare.Pairing.Invariant.{IsValid, settle-IsValid, read_clock-IsValid}

pub record Status : Type 0 where
  pub state : State
  pub attempts_remaining : ℕ
  pub remaining_ms : ℕ

abbrev pub first_record : LockRecord
first_record = record { version = lock_record_version; attempts_used = 0 }

-- `calloc` and the assignments below it.
abbrev pub blank : Policy → List Call → Lifecycle
blank policy calls = record {
  policy = policy;
  lock_record = first_record;
  state = inactive;
  code = zero_code;
  code_visible = false;
  clock_initialized = false;
  last_now_ms = 0;
  window_deadline_ms = 0;
  step_deadline_ms = 0;
  session_idle_deadline_ms = 0;
  session_absolute_deadline_ms = 0;
  connection_id = 0;
  handshake_id = 0;
  calls = calls;
}

-- The state by the result of the load; `r` is what the port left in the record.
unfoldable pub loaded : PersistenceResult → LockRecord → Lifecycle → Lifecycle
loaded not_found r l = record l { lock_record = first_record }
loaded found r l =
    if not (r.version == lock_record_version) || ltb l.policy.max_attempts r.attempts_used
    then record l { lock_record = r; state = fault }
    else settle_inactive_or_locked (record l { lock_record = r })
loaded error r l = record l { lock_record = r; state = fault }

module _ (ports : Ports) where
  -- `create` after its guards and the allocation.
  unfoldable pub created : Policy → List Call → Lifecycle
  created policy calls =
      let l = blank policy calls in
      let (result, r) = ports.load_lock_record calls l.lock_record in
      let l₁ = loaded result r (record l { calls = record_loaded result r ∷ calls }) in
      if l₁.state is fault
      then l₁
      else (let (outcome, now_ms, l₂) = read_clock ports l₁ in
          elim outcome [ ok ↦ l₂ | _ ↦ record l₂ { state = fault } ])

  -- `existing` is what `*out_lifecycle` holds; `allocated` is false where `calloc` fails.
  unfoldable pub create : Option Lifecycle → Policy → Bool → List Call → Outcome × Option Lifecycle
  create (some l) policy allocated calls = (invalid_argument, some l)
  create none policy allocated calls =
      if not (policy_is_safe policy)
      then (invalid_argument, none)
      else if not allocated
      then (faulted, none)
      else (ok, some (created policy calls))

  -- The lifecycle is wiped and freed: what is left are the calls that it made.
  unfoldable pub destroy : Lifecycle → List Call
  destroy l = (clear_transient ports l).1.calls

-- The deadline that is reported.
unfoldable pub reported_deadline : State → Lifecycle → ℕ
reported_deadline available l = l.window_deadline_ms
reported_deadline handshake l = earlier_deadline l.window_deadline_ms l.step_deadline_ms
reported_deadline wait_finished_sent l = earlier_deadline l.window_deadline_ms l.step_deadline_ms
reported_deadline active l =
    earlier_deadline l.session_idle_deadline_ms l.session_absolute_deadline_ms
reported_deadline _ l = 0

unfoldable pub status_of : Lifecycle → Status
status_of l =
    let deadline_ms = reported_deadline l.state l in
    record {
      state = l.state;
      attempts_remaining =
          if leb l.policy.max_attempts l.lock_record.attempts_used
          then 0
          else l.policy.max_attempts - l.lock_record.attempts_used;
      remaining_ms = if ltb l.last_now_ms deadline_ms then deadline_ms - l.last_now_ms else 0;
    }

module _ (ports : Ports) where
  -- No status is written where the refresh fails.
  unfoldable pub get_status : Lifecycle → Outcome × Option Status × Lifecycle
  get_status l =
      if l.state is fault
      then (ok, some (status_of l), l)
      else (let (outcome, now_ms, l') = refresh ports l in
          elim outcome [ ok ↦ (ok, some (status_of l'), l') | failed ↦ (failed, none, l') ])

loaded-IsValid :
    (result : PersistenceResult) (r : LockRecord) (policy : Policy) (calls : List Call)
    → policy_is_safe policy ≡ true
    → IsValid (loaded result r (blank policy calls))
unfolding loaded
loaded-IsValid not_found r policy calls s = ground (arith, attempt_allowed policy s)
loaded-IsValid found r policy calls s =
    ground (arith, settle-IsValid (record (blank policy calls) { lock_record = r }) s)
loaded-IsValid error r policy calls s = ground arith

loaded_calls-IsValid :
    (result : PersistenceResult) (r : LockRecord) (l : Lifecycle) (calls : List Call)
    → IsValid (loaded result r l)
    → IsValid (loaded result r (record l { calls = calls }))
unfolding loaded settle_inactive_or_locked
loaded_calls-IsValid not_found r l calls v = ground arith
loaded_calls-IsValid found r l calls v = ground arith
loaded_calls-IsValid error r l calls v = ground arith

-- A clock that fails leaves the lifecycle in `fault` already.
read_clock-fault :
    (ports : Ports) (l : Lifecycle)
    → (read_clock ports l).0 ≢ ok
    → (read_clock ports l).2.state ≡ fault
unfolding read_clock read_time enter_fault
read_clock-fault ports l e = ground arith

created-IsValid :
    (ports : Ports) (policy : Policy) (calls : List Call)
    → policy_is_safe policy ≡ true
    → IsValid (created ports policy calls)
unfolding created
created-IsValid ports policy calls s =
    let (result, r) = ports.load_lock_record calls first_record in
    let v =
      loaded_calls-IsValid result r (blank policy calls) (record_loaded result r ∷ calls)
        (loaded-IsValid result r policy calls s) in
    let l₁ = loaded result r (blank policy (record_loaded result r ∷ calls)) in
    ground (arith, v, read_clock-IsValid ports l₁ v, read_clock-fault ports l₁)

-- Whatever the store and the clock answer at the start, what `create` makes is valid.
pub create-IsValid :
    (ports : Ports) (policy : Policy) (allocated : Bool) (calls : List Call) {l : Lifecycle}
    → create ports none policy allocated calls ≡ (ok, some l)
    → IsValid l
unfolding create created
create-IsValid ports policy allocated calls e = ground (arith, created-IsValid ports policy calls)

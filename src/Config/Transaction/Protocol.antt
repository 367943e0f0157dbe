-- ===== src/Config/Transaction/Protocol.antt =====
-- The calls that an update makes on its ports, as protocols that end with a status.
use waveshare.Prelude.{ℕ, ◌≡◌, Bool, true, false, not, ◌||◌, List, ◌∷◌, if◌then◌else◌, subst, sym}
use waveshare.Config.{WifiCredentials}
use waveshare.Config.Transaction.{
  Slot, Record, Activation, indeterminate, committed, not_committed, unknown_activation, Status, ok,
  stage_failed, verify_failed, trial_failed_rolled_back, activate_failed_rolled_back,
  network_recovery_failed, activation_indeterminate, candidate_cleanup_failed,
  retired_slot_cleanup_failed, Call, staged, verified, activated, discarded, trial_connected,
  restore_connected, quarantined, Ports, Transaction, clean_up, roll_back, quarantine, commit,
  settle, activate_candidate, try_candidate, verify_candidate, stage_candidate,
}

-- How the ports are left, after the calls `before`: the status, whether recovery is required, and
-- the calls, newest first.
pub data Cleaned (slot : Slot) (failed : Status) (before : List Call)
    : Status → Bool → List Call → Type 0 where
  cleaned : Cleaned slot failed before failed false (discarded slot true ∷ before)
  uncleaned :
      Cleaned slot failed before candidate_cleanup_failed true (discarded slot false ∷ before)

-- `v` are the credentials that are connected again.
pub data RolledBack (slot : Slot) (v : WifiCredentials) (failed : Status) (before : List Call)
    : Status → Bool → List Call → Type 0 where
  rolled_back :
      RolledBack slot v failed before failed false
        (discarded slot true ∷ restore_connected v true ∷ before)
  left_over :
      RolledBack slot v failed before candidate_cleanup_failed true
        (discarded slot false ∷ restore_connected v true ∷ before)
  cut_off :
      (b : Bool)
      → RolledBack slot v failed before network_recovery_failed true
          (discarded slot b ∷ restore_connected v false ∷ before)

-- The calls up to a candidate that is durable, intact and connects.
abbrev pub kept : Record → List Call → List Call
kept new before = staged new.active_slot new true ∷ before

abbrev pub tried : Record → WifiCredentials → Bool → List Call → List Call
tried new w connected before =
    trial_connected w connected ∷ verified new.active_slot new true ∷ kept new before

abbrev pub headed : Record → Record → WifiCredentials → Activation → List Call → List Call
headed old new w activation before =
    activated new old.active_slot old.revision activation ∷ tried new w true before

-- The protocols of an update from `old` to `new`, with the record that is active in the end.
pub data Protocol (old new : Record) (w v : WifiCredentials) (before : List Call)
    : Status → Bool → List Call → Record → Type 0 where
  not_staged :
      {s : Status} {r : Bool} {calls : List Call}
      → Cleaned new.active_slot stage_failed (staged new.active_slot new false ∷ before) s r calls
      → Protocol old new w v before s r calls old
  not_verified :
      {s : Status} {r : Bool} {calls : List Call}
      → Cleaned new.active_slot verify_failed
          (verified new.active_slot new false ∷ kept new before)
          s
          r
          calls
      → Protocol old new w v before s r calls old
  not_connected :
      {s : Status} {r : Bool} {calls : List Call}
      → RolledBack new.active_slot v trial_failed_rolled_back (tried new w false before) s r calls
      → Protocol old new w v before s r calls old
  not_activated :
      {s : Status} {r : Bool} {calls : List Call}
      → RolledBack new.active_slot v activate_failed_rolled_back
          (headed old new w not_committed before)
          s
          r
          calls
      → Protocol old new w v before s r calls old
  head_unknown :
      Protocol old new w v before activation_indeterminate true
        (quarantined ∷ headed old new w indeterminate before)
        old
  head_invalid :
      (n : ℕ)
      → Protocol old new w v before activation_indeterminate true
          (quarantined ∷ headed old new w (unknown_activation n) before)
          old
  done :
      Protocol old new w v before ok false
        (discarded old.active_slot true ∷ headed old new w committed before)
        new
  left_retired :
      Protocol old new w v before retired_slot_cleanup_failed true
        (discarded old.active_slot false ∷ headed old new w committed before)
        new

-- `result` follows a protocol from `t` to `new`.
unfoldable pub Follows :
    Transaction → Record → WifiCredentials → WifiCredentials → Status × Transaction → Type 0
Follows t new w v result =
    Protocol t.active new w v t.calls result.0 result.1.recovery_required result.1.calls
      result.1.active

discard-Cleaned :
    (slot : Slot) (failed : Status) (before : List Call) (b : Bool)
    → Cleaned slot failed before
        (if b then failed else candidate_cleanup_failed)
        (not b)
        (discarded slot b ∷ before)
discard-Cleaned slot failed before true = cleaned
discard-Cleaned slot failed before false = uncleaned

clean_up-Cleaned :
    (p : Ports) (slot : Slot) (failed : Status) (t : Transaction)
    → let (s, t') = clean_up p slot failed t in
      Cleaned slot failed t.calls s t'.recovery_required t'.calls
unfolding clean_up
clean_up-Cleaned p slot failed t = discard-Cleaned slot failed t.calls (p.discard t.calls slot)

restore-RolledBack :
    (slot : Slot) (v : WifiCredentials) (failed : Status) (before : List Call) (b c : Bool)
    → RolledBack slot v failed before
        (if not b
          then network_recovery_failed
          else if not c
          then candidate_cleanup_failed
          else failed)
        (not b || not c)
        (discarded slot c ∷ restore_connected v b ∷ before)
restore-RolledBack slot v failed before true true = rolled_back
restore-RolledBack slot v failed before true false = left_over
restore-RolledBack slot v failed before false c = cut_off c

roll_back-RolledBack :
    (p : Ports) (slot : Slot) (v : WifiCredentials) (failed : Status) (t : Transaction)
    → let (s, t') = roll_back p slot v failed t in
      RolledBack slot v failed t.calls s t'.recovery_required t'.calls
unfolding roll_back
roll_back-RolledBack p slot v failed t =
    let b = p.restore_connect t.calls v in
    restore-RolledBack slot v failed t.calls b (p.discard (restore_connected v b ∷ t.calls) slot)

module _ (p : Ports) (new : Record) (w v : WifiCredentials) where
  done_by :
      (t : Transaction) (b : Bool)
      → Protocol t.active new w v t.calls
          (if b then ok else retired_slot_cleanup_failed)
          (if b then false else true)
          (discarded t.active.active_slot b ∷ headed t.active new w committed t.calls)
          new
  done_by t true = done
  done_by t false = left_retired

  settle-Protocol :
      (t : Transaction) (a : Activation)
      → t.recovery_required ≡ false
      → Follows t new w v (settle a p new v (record t { calls = headed t.active new w a t.calls }))
  unfolding settle Follows quarantine commit
  settle-Protocol t indeterminate h = head_unknown
  settle-Protocol t (unknown_activation n) h = head_invalid n
  settle-Protocol t not_committed h = not_activated (
      roll_back-RolledBack p new.active_slot v activate_failed_rolled_back
        (record t { calls = headed t.active new w not_committed t.calls }))
  settle-Protocol t committed h =
      let before = headed t.active new w committed t.calls in
      let b = p.discard before t.active.active_slot in
      subst
        (λ r.
          Protocol t.active new w v t.calls (if b then ok else retired_slot_cleanup_failed)
            (if b then r else true) (discarded t.active.active_slot b ∷ before) new)
        (sym h) (done_by t b)

  activate-Protocol :
      (t : Transaction)
      → t.recovery_required ≡ false
      → Follows t new w v
          (activate_candidate p new v (record t { calls = tried new w true t.calls }))
  unfolding activate_candidate
  activate-Protocol t h =
      settle-Protocol t
        (p.activate (tried new w true t.calls) new t.active.active_slot t.active.revision) h

  tried_by :
      (t : Transaction) (b : Bool)
      → t.recovery_required ≡ false
      → let t' = record t { calls = tried new w b t.calls } in
        Follows t new w v (
          if not b
          then roll_back p new.active_slot v trial_failed_rolled_back t'
          else activate_candidate p new v t')
  unfolding Follows roll_back
  tried_by t true h = activate-Protocol t h
  tried_by t false h = not_connected (
      roll_back-RolledBack p new.active_slot v trial_failed_rolled_back
        (record t { calls = tried new w false t.calls }))

  verified_by :
      (t : Transaction) (b : Bool)
      → t.recovery_required ≡ false
      → let t' = record t { calls = verified new.active_slot new b ∷ kept new t.calls } in
        Follows t new w v (
          if not b then clean_up p new.active_slot verify_failed t' else try_candidate p new w v t')
  unfolding Follows clean_up try_candidate
  verified_by t true h =
      tried_by t (p.trial_connect (verified new.active_slot new true ∷ kept new t.calls) w) h
  verified_by t false h = not_verified (
      clean_up-Cleaned p new.active_slot verify_failed
        (record t { calls = verified new.active_slot new false ∷ kept new t.calls }))

  staged_by :
      (t : Transaction) (b : Bool)
      → t.recovery_required ≡ false
      → let t' = record t { calls = staged new.active_slot new b ∷ t.calls } in
        Follows t new w v (
          if not b
          then clean_up p new.active_slot stage_failed t'
          else verify_candidate p new w v t')
  unfolding Follows clean_up verify_candidate
  staged_by t true h = verified_by t (p.verify (kept new t.calls) new.active_slot new) h
  staged_by t false h = not_staged (
      clean_up-Cleaned p new.active_slot stage_failed
        (record t { calls = staged new.active_slot new false ∷ t.calls }))

  pub stage_candidate-Protocol :
      (t : Transaction)
      → t.recovery_required ≡ false
      → Follows t new w v (stage_candidate p new w v t)
  unfolding stage_candidate
  stage_candidate-Protocol t h = staged_by t (p.stage t.calls new.active_slot new) h

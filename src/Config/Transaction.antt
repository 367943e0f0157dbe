-- ===== src/Config/Transaction.antt =====
-- components/config_store/src/aiqa_config_transaction.c: the Wi-Fi update as a transaction over the
-- storage and network ports of components/config_store/include/aiqa_config_transaction.h.
-- The ports answer by the calls made so far; the two locks are those that the caller sees.
pub mod Protocol
pub mod Commit
pub mod Safety
pub mod Lifetime
pub mod Genuine
mod Tests
use waveshare.Prelude.{
  ◌==◌, ℕ, Bool, true, false, not, ◌&&◌, ◌||◌, List, [], ◌∷◌, Option, none, some, if◌then◌else◌,
}
use waveshare.Config.Validate.{config_validate, is_config_ok}
use waveshare.Config.{
  is_secret_ok, secret_config_validate, AiqaConfig, SecretConfig, WifiCredentials, WifiUpdate,
  UpdateStatus, update_ok, invalid_argument, revision_conflict, revision_exhausted, ssid_error,
  password_error, password_action_error, PublicWifiConfig, wifi_credentials_from_secrets,
  prepare_wifi_update, build_public_wifi_view,
}

pub data Slot : Type 0 where
  legacy slot_a slot_b : Slot

pub record Record : Type 0 where
  pub config : AiqaConfig
  pub secrets : SecretConfig
  pub revision : ℕ
  pub active_slot : Slot

-- What `activate` may return: the enum's values, or any other number.
pub data Activation : Type 0 where
  indeterminate committed not_committed : Activation
  unknown_activation : ℕ → Activation

pub data Status : Type 0 where
  ok invalid_argument_status busy revision_conflict_status revision_exhausted_status : Status
  ssid_status password_status password_action_status stage_failed verify_failed : Status
  trial_failed_rolled_back activate_failed_rolled_back network_recovery_failed : Status
  activation_indeterminate candidate_cleanup_failed retired_slot_cleanup_failed : Status
  recovery_required_status : Status

pub data ReadStatus : Type 0 where
  read_ok read_invalid_argument read_busy read_recovery_required : ReadStatus

unfoldable pub inactive_slot : Slot → Slot
inactive_slot slot_a = slot_b
inactive_slot _ = slot_a

unfoldable pub map_wifi_status : UpdateStatus → Status
map_wifi_status update_ok = ok
map_wifi_status revision_conflict = revision_conflict_status
map_wifi_status revision_exhausted = revision_exhausted_status
map_wifi_status ssid_error = ssid_status
map_wifi_status password_error = password_status
map_wifi_status password_action_error = password_action_status
map_wifi_status invalid_argument = invalid_argument_status

-- One call of a port, with its answer.
pub data Call : Type 0 where
  staged verified : Slot → Record → Bool → Call
  activated : Record → Slot → ℕ → Activation → Call
  discarded : Slot → Bool → Call
  trial_connected restore_connected : WifiCredentials → Bool → Call
  quarantined : Call

-- The environment: each port answers by the calls made so far, newest first, and its arguments.
pub record Ports : Type 0 where
  pub stage : List Call → Slot → Record → Bool
  pub verify : List Call → Slot → Record → Bool
  pub activate : List Call → Record → Slot → ℕ → Activation
  pub discard : List Call → Slot → Bool
  pub trial_connect : List Call → WifiCredentials → Bool
  pub restore_connect : List Call → WifiCredentials → Bool

-- `aiqa_config_transaction_impl_t` beside `s_global_transaction_locked`, with the calls made.
pub record Transaction : Type 0 where
  pub active : Record
  pub locked : Bool
  pub recovery_required : Bool
  pub initialized : Bool
  pub lifecycle_locked : Bool
  pub calls : List Call

abbrev pub called : Transaction → Call → Transaction
called t call = record t { calls = call ∷ t.calls }

-- `aiqa_config_transaction_init` on storage that holds `t`; `ports_valid` is whether no port is NULL.
-- The slot of a record is one of the three by its type.
unfoldable pub transaction_init : Transaction → Record → Bool → Bool × Transaction
transaction_init t active ports_valid =
    if active.revision == 0
      || not (is_config_ok (config_validate active.config))
      || not (is_secret_ok (secret_config_validate active.secrets))
      || not ports_valid
    then (false, t)
    else (
      true,
      record t { active = active; locked = false; recovery_required = false; initialized = true },
    )

-- `aiqa_config_transaction_copy_active`: none is a cleared record.
pub copy_active : Transaction → ReadStatus × Option Record
copy_active t =
    if not t.initialized
    then (read_invalid_argument, none)
    else if t.locked
    then (read_busy, none)
    else if not t.recovery_required
    then (read_ok, some t.active)
    else (read_recovery_required, none)

unfoldable pub unlock_apply : Transaction → Transaction
unlock_apply t = record t { locked = false; lifecycle_locked = false }

-- A candidate that was not tried is discarded.
unfoldable pub clean_up : Ports → Slot → Status → Transaction → Status × Transaction
clean_up p slot failed t =
    let was_discarded = p.discard t.calls slot in
    (
      if was_discarded then failed else candidate_cleanup_failed,
      record (called t (discarded slot was_discarded)) { recovery_required = not was_discarded },
    )

-- A candidate that was tried gives way to the active credentials, and is discarded.
unfoldable pub roll_back :
    Ports → Slot → WifiCredentials → Status → Transaction → Status × Transaction
roll_back p slot active_wifi failed t =
    let restored = p.restore_connect t.calls active_wifi in
    let t₁ = called t (restore_connected active_wifi restored) in
    let was_discarded = p.discard t₁.calls slot in
    (
      if not restored
          then network_recovery_failed
          else if not was_discarded
          then candidate_cleanup_failed
          else failed,
      record (called t₁ (discarded slot was_discarded)) {
        recovery_required = not restored || not was_discarded;
      },
    )

-- A new head whose state is unknown: both slots stay.
unfoldable pub quarantine : Transaction → Status × Transaction
quarantine t =
    (activation_indeterminate, record (called t quarantined) { recovery_required = true })

-- The committed candidate is the active record; the retired slot is discarded.
unfoldable pub commit : Ports → Record → Transaction → Status × Transaction
commit p candidate t =
    let retired_slot = t.active.active_slot in
    let was_discarded = p.discard t.calls retired_slot in
    (
      if was_discarded then ok else retired_slot_cleanup_failed,
      record (called t (discarded retired_slot was_discarded)) {
        active = candidate;
        recovery_required = if was_discarded then t.recovery_required else true;
      },
    )

-- What follows the answer of `activate`. The view is the one built on a commit.
unfoldable pub settle :
    Activation → Ports → Record → WifiCredentials → Transaction → Status × Transaction
unfolding quarantine roll_back commit
settle committed p candidate active_wifi t = commit p candidate t
settle not_committed p candidate active_wifi t =
    roll_back p candidate.active_slot active_wifi activate_failed_rolled_back t
settle _ p candidate active_wifi t = quarantine t

unfoldable pub activate_candidate :
    Ports → Record → WifiCredentials → Transaction → Status × Transaction
unfolding settle
activate_candidate p candidate active_wifi t =
    let activation = p.activate t.calls candidate t.active.active_slot t.active.revision in
    settle activation p candidate active_wifi
      (called t (activated candidate t.active.active_slot t.active.revision activation))

unfoldable pub try_candidate :
    Ports → Record → WifiCredentials → WifiCredentials → Transaction → Status × Transaction
unfolding roll_back activate_candidate
try_candidate p candidate candidate_wifi active_wifi t =
    let connected = p.trial_connect t.calls candidate_wifi in
    let t₁ = called t (trial_connected candidate_wifi connected) in
    if not connected
    then roll_back p candidate.active_slot active_wifi trial_failed_rolled_back t₁
    else activate_candidate p candidate active_wifi t₁

unfoldable pub verify_candidate :
    Ports → Record → WifiCredentials → WifiCredentials → Transaction → Status × Transaction
unfolding clean_up try_candidate
verify_candidate p candidate candidate_wifi active_wifi t =
    let intact = p.verify t.calls candidate.active_slot candidate in
    let t₁ = called t (verified candidate.active_slot candidate intact) in
    if not intact
    then clean_up p candidate.active_slot verify_failed t₁
    else try_candidate p candidate candidate_wifi active_wifi t₁

unfoldable pub stage_candidate :
    Ports → Record → WifiCredentials → WifiCredentials → Transaction → Status × Transaction
unfolding clean_up verify_candidate
stage_candidate p candidate candidate_wifi active_wifi t =
    let durable = p.stage t.calls candidate.active_slot candidate in
    let t₁ = called t (staged candidate.active_slot candidate durable) in
    if not durable
    then clean_up p candidate.active_slot stage_failed t₁
    else verify_candidate p candidate candidate_wifi active_wifi t₁

-- The credentials of the candidate and of the active record: none is invalid.
unfoldable pub apply_projected :
    Ports
    → Record
    → Option WifiCredentials
    → Option WifiCredentials
    → Transaction
    → Status × Transaction
unfolding stage_candidate unlock_apply
apply_projected p candidate (some candidate_wifi) (some active_wifi) t =
    let (result, t₁) = stage_candidate p candidate candidate_wifi active_wifi t in
    (result, unlock_apply t₁)
apply_projected p candidate _ _ t = (invalid_argument_status, unlock_apply t)

unfoldable pub candidate_for : Transaction → SecretConfig → ℕ → Record
unfolding inactive_slot
candidate_for t secrets next_revision = record t.active {
  secrets = secrets;
  revision = next_revision;
  active_slot = inactive_slot t.active.active_slot;
}

-- What `prepare_wifi_update` gave: a refusal, or the secrets and the revision of a candidate.
unfoldable pub apply_prepared :
    Ports → UpdateStatus → Option (SecretConfig × ℕ) → Transaction → Status × Transaction
unfolding apply_projected candidate_for map_wifi_status unlock_apply
apply_prepared p wifi_status none t = (map_wifi_status wifi_status, unlock_apply t)
apply_prepared p wifi_status (some (secrets, next_revision)) t =
    apply_projected p (candidate_for t secrets next_revision)
      (wifi_credentials_from_secrets secrets) (wifi_credentials_from_secrets t.active.secrets) t

unfoldable pub apply_locked : Ports → WifiUpdate → Transaction → Status × Transaction
unfolding apply_prepared unlock_apply
apply_locked p request t =
    let (wifi_status, updated) = prepare_wifi_update t.active.secrets t.active.revision request in
    if t.recovery_required
    then (recovery_required_status, unlock_apply t)
    else apply_prepared p wifi_status updated t

unfoldable pub is_committed : Status → Bool
is_committed ok = true
is_committed retired_slot_cleanup_failed = true
is_committed _ = false

-- The caller's view after an update, none when `out_view` is NULL.
unfoldable pub view_after : Status → Transaction → Option PublicWifiConfig → Option PublicWifiConfig
unfolding is_committed
view_after status t none = none
view_after status t (some view) =
    if is_committed status
    then (elim (build_public_wifi_view t.active.secrets t.active.revision) [
      | none ↦ some view
      | some built ↦ some built
    ])
    else some view

-- The status, the caller's view and the transaction.
unfoldable pub apply_wifi :
    Ports
    → WifiUpdate
    → Option PublicWifiConfig
    → Transaction
    → Status × Option PublicWifiConfig × Transaction
unfolding apply_locked view_after
apply_wifi p request out_view t =
    if not t.initialized
    then (invalid_argument_status, out_view, t)
    else if t.locked
    then (busy, out_view, t)
    else if t.lifecycle_locked
    then (busy, out_view, record t { locked = false })
    else (let (status, t₁) =
          apply_locked p request (record t { locked = true; lifecycle_locked = true }) in
        (status, view_after status t₁ out_view, t₁))

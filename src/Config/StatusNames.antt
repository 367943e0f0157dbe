-- ===== src/Config/StatusNames.antt =====
-- components/config_store/src/aiqa_config.c and aiqa_config_transaction.c: the names of the statuses
-- that the log and the management replies show. A number outside an enum has the name UNKNOWN there;
-- the data types have no such value.
use Prim.Native.String.{String}
use waveshare.Config.{
  SecretStatus, secret_ok, wifi_ssid_error, wifi_password_error, chat_api_key_error, UpdateStatus,
  update_ok, invalid_argument, revision_conflict, revision_exhausted, ssid_error, password_error,
  password_action_error,
}
use waveshare.Config.Validate.{
  ConfigStatus, config_ok, version_error, provider_error, model_error, base_url_error,
}
use waveshare.Config.Transaction.{
  Status, ok, invalid_argument_status, busy, revision_conflict_status, revision_exhausted_status,
  ssid_status, password_status, password_action_status, stage_failed, verify_failed,
  trial_failed_rolled_back, activate_failed_rolled_back, network_recovery_failed,
  activation_indeterminate, candidate_cleanup_failed, retired_slot_cleanup_failed,
  recovery_required_status,
}

pub config_status_name : ConfigStatus → String
config_status_name config_ok = "OK"
config_status_name version_error = "VERSION"
config_status_name provider_error = "PROVIDER"
config_status_name model_error = "MODEL"
config_status_name base_url_error = "BASE_URL"

pub secret_status_name : SecretStatus → String
secret_status_name secret_ok = "OK"
secret_status_name wifi_ssid_error = "WIFI_SSID"
secret_status_name wifi_password_error = "WIFI_PASSWORD"
secret_status_name chat_api_key_error = "CHAT_API_KEY"

pub wifi_update_status_name : UpdateStatus → String
wifi_update_status_name update_ok = "OK"
wifi_update_status_name invalid_argument = "INVALID_ARGUMENT"
wifi_update_status_name revision_conflict = "REVISION_CONFLICT"
wifi_update_status_name revision_exhausted = "REVISION_EXHAUSTED"
wifi_update_status_name ssid_error = "SSID"
wifi_update_status_name password_error = "PASSWORD"
wifi_update_status_name password_action_error = "PASSWORD_ACTION"

pub transaction_status_name : Status → String
transaction_status_name ok = "OK"
transaction_status_name invalid_argument_status = "INVALID_ARGUMENT"
transaction_status_name busy = "BUSY"
transaction_status_name revision_conflict_status = "REVISION_CONFLICT"
transaction_status_name revision_exhausted_status = "REVISION_EXHAUSTED"
transaction_status_name ssid_status = "SSID"
transaction_status_name password_status = "PASSWORD"
transaction_status_name password_action_status = "PASSWORD_ACTION"
transaction_status_name stage_failed = "STAGE_FAILED"
transaction_status_name verify_failed = "VERIFY_FAILED"
transaction_status_name trial_failed_rolled_back = "TRIAL_FAILED_ROLLED_BACK"
transaction_status_name activate_failed_rolled_back = "ACTIVATE_FAILED_ROLLED_BACK"
transaction_status_name network_recovery_failed = "NETWORK_RECOVERY_FAILED"
transaction_status_name activation_indeterminate = "ACTIVATION_INDETERMINATE"
transaction_status_name candidate_cleanup_failed = "CANDIDATE_CLEANUP_FAILED"
transaction_status_name retired_slot_cleanup_failed = "RETIRED_SLOT_CLEANUP_FAILED"
transaction_status_name recovery_required_status = "RECOVERY_REQUIRED"

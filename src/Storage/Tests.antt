-- ===== src/Storage/Tests.antt =====
-- A flash in memory with the default settings in slot A, and the theorems at concrete inputs.
use waveshare.Prelude.{
  ◌+◌, ◌<◌, ◌≡◌, ◌≢◌, ◌⊎◌, refl, true, false, [], ◌∷◌, none, some, Option, arith, codes, c_text,
  same_bytes,
}
use waveshare.Provider.{
  provider_caps_for, provider_model_allowed, provider_host_allowed, matches_any, ends_with,
}
use waveshare.Config.{
  prepare_wifi_update, is_update_ok, new_password, check_password, wifi_ssid_is_valid,
  wifi_credentials_from_secrets, SecretConfig, WifiUpdate, keep, bounded_strlen, stored_text,
  is_secret_ok, wifi_credentials_validate, secret_config_validate, wifi_secret_config_validate,
  max_wifi_ssid_len, max_wifi_password_len, max_api_key_len,
}
use waveshare.Config.Validate.{
  is_config_ok, has_space, scan_host, extract_https_host, check_host, check_endpoint,
  validate_provider_endpoint, voice_is_valid, config_validate, config_default,
}
use waveshare.Config.Transaction.{
  apply_wifi, apply_locked, apply_prepared, apply_projected, candidate_for, stage_candidate,
  verify_candidate, try_candidate, activate_candidate, settle, commit, quarantine, roll_back,
  clean_up, unlock_apply, map_wifi_status, inactive_slot, is_committed, view_after, legacy, slot_a,
  slot_b, Record, Transaction, transaction_init, committed, not_committed,
}
use waveshare.Config.Transaction.Safety.{run}
use waveshare.Storage.Nvs.{
  Nvs, Outcome, got, failed, not_found, u64, set_num, meta_space, write_all,
}
use waveshare.Storage.Fields.{
  record_writes, read_required_string, read_record_fields, accepted, config_equals, secrets_equal,
  records_equal,
}
use waveshare.Storage.Slots.{
  verify_record, slot_namespace, encode_head, decode_head, load_from, stage_refusal, may_discard,
  valid_successor, expected_head_matches, activation_of, read_head, load_slot_record, compare_slot,
  stage_fields, stage_record, activate_record, write_head, is_gone,
}
use waveshare.Storage.Erase.{erase_slot, discard_slot, discard_record, selected_record}
use waveshare.Storage.Reset.{reset_is_pending, erase_nvs_namespace}
use waveshare.Storage.Head.{decode_head-encode_head}
use waveshare.Storage.Durable.{durable, Kept, Elsewhere}
use waveshare.Storage.Staging.{stage_record_keeps}
use waveshare.Storage.Discarding.{discard_record_keeps}
use waveshare.Storage.Activating.{activate_record_keeps}
use waveshare.Storage.Ports.{Surroundings, flash_after, storage_ports}
use waveshare.Storage.Updates.{OthersKeep}
use waveshare.Storage.Load.{load_active_record}
use waveshare.Storage.Loading.{Loads}
use waveshare.Storage.Restart.{run-storage_ports}
use waveshare.Storage.Resume.{AfterReset, erase_nvs_namespace_resumes}
use waveshare.Storage.Memory.{
  Flash, memory, memory-Separate, cached, restarted, cached-Commits, memory-Keyed, blank_flash,
  find, remove,
}

abbrev home : SecretConfig
home = record {
  wifi_ssid = stored_text max_wifi_ssid_len (codes "home");
  wifi_password = stored_text max_wifi_password_len (codes "password");
  chat_api_key = stored_text max_api_key_len (codes "kkkkkk");
  asr_api_key = stored_text max_api_key_len [];
}

abbrev first_record : Record
first_record = record {
  config = config_default;
  secrets = home;
  revision = 7;
  active_slot = slot_a;
}

-- Slot A as it is staged, under a head that selects it.
abbrev first_flash : Flash
first_flash =
    (memory.write meta_space (set_num u64 "head" (encode_head slot_a 7))
      (stage_record memory false slot_a first_record blank_flash).1).1

decode_head-encode_head_example :
    (decode_head (encode_head slot_b 5) ≡ some (slot_b, 5))
    × (decode_head 14 ≡ some (slot_a, 7)
        → (14 ≡ encode_head slot_a 7) × (slot_a ≢ legacy) × (0 < 7))
decode_head-encode_head_example =
    decode_head-encode_head slot_b slot_a 5 7 14 (λ q. ground arith) (omega arith) (omega arith)

stage_record_keeps_example :
    let (err, s) = stage_record memory false slot_b first_record first_flash in
    Kept memory first_flash s × (err ≡ none → compare_slot memory s slot_b first_record ≡ none)
stage_record_keeps_example =
    stage_record_keeps memory false slot_b first_record first_flash memory-Separate

discard_record_keeps_example :
    let (was_discarded, s) = discard_record memory false slot_b first_flash in
    Kept memory first_flash s
    × (was_discarded ≡ true → slot_b ≢ legacy → load_slot_record memory s slot_b ≡ failed not_found)
discard_record_keeps_example = discard_record_keeps memory false slot_b first_flash memory-Separate

activate_record_keeps_example :
    let (activation, s) = activate_record memory false first_record slot_b 6 first_flash in
    (activation ≡ committed
      → (r : Record) × (durable memory s ≡ got r) × (records_equal r first_record ≡ true))
    × (activation ≡ not_committed → Kept memory first_flash s)
    × Elsewhere memory meta_space first_flash s
activate_record_keeps_example =
    activate_record_keeps memory false first_record slot_b 6 first_flash memory-Separate
      (omega arith)

erase_nvs_namespace_resumes_example :
    let s : Flash × Flash = (first_flash, first_flash) in
    let (err, s') = erase_nvs_namespace cached false false s in
    AfterReset cached restarted cached-Commits s s' err
erase_nvs_namespace_resumes_example =
    erase_nvs_namespace_resumes cached restarted cached-Commits (first_flash, first_flash)

abbrev loaded : Outcome Record
loaded = durable memory first_flash

first_loads : loaded ≡ got first_record
unfolding selected_record read_head load_slot_record load_from slot_namespace decode_head
    encode_head read_record_fields read_required_string accepted stage_record stage_fields
    stage_refusal write_all record_writes find remove is_secret_ok secret_config_validate
    wifi_secret_config_validate wifi_credentials_validate bounded_strlen config_validate
    is_config_ok voice_is_valid validate_provider_endpoint check_endpoint check_host
    extract_https_host scan_host has_space provider_caps_for provider_model_allowed
    provider_host_allowed matches_any ends_with c_text same_bytes stored_text
first_loads = refl

abbrev resting : Transaction
resting = record {
  active = first_record;
  locked = false;
  recovery_required = false;
  initialized = false;
  lifecycle_locked = false;
  calls = [];
}

starts : (transaction_init resting first_record true).0 ≡ true
unfolding transaction_init is_secret_ok secret_config_validate wifi_secret_config_validate
    wifi_credentials_validate bounded_strlen config_validate is_config_ok voice_is_valid
    validate_provider_endpoint check_endpoint check_host extract_https_host scan_host has_space
    provider_caps_for provider_model_allowed provider_host_allowed matches_any ends_with c_text
    same_bytes stored_text
starts = refl

abbrev to_lab : WifiUpdate
to_lab = record {
  base_revision = 7;
  ssid = some (codes "lab");
  password_action = keep;
  password = none;
}

-- Nobody else holds the lock, and every network connects.
abbrev quiet : {S : Type 0} → Surroundings S
quiet = record {
  busy = λ calls. false;
  others = λ calls s. s;
  trial_connect = λ calls wifi. true;
  restore_connect = λ calls wifi. true;
}

abbrev no_layout : {S : Type 0} → S → Outcome (Option Record) × S
no_layout s = (got none, s)

quiet-OthersKeep : {S : Type 0} → (nvs : Nvs S) → OthersKeep nvs quiet
unfolding OthersKeep Elsewhere
quiet-OthersKeep nvs calls s n other = refl

no_reset :
    (reset_is_pending (memory.look first_flash meta_space) ≡ got false)
    × (reset_is_pending (cached.look (first_flash, first_flash) meta_space) ≡ got false)
unfolding selected_record read_head load_slot_record load_from slot_namespace decode_head
    encode_head read_record_fields read_required_string accepted stage_record stage_fields
    stage_refusal write_all record_writes find remove is_secret_ok secret_config_validate
    wifi_secret_config_validate wifi_credentials_validate bounded_strlen config_validate
    is_config_ok voice_is_valid validate_provider_endpoint check_endpoint check_host
    extract_https_host scan_host has_space provider_caps_for provider_model_allowed
    provider_host_allowed matches_any ends_with c_text same_bytes stored_text reset_is_pending
no_reset = (refl, refl)

run-storage_ports_example :
    let (n, t) =
      run
        (storage_ports memory quiet first_flash)
        (to_lab ∷ to_lab ∷ [])
        (transaction_init resting first_record true).1 in
    let s = flash_after memory quiet first_flash t.calls in
    ((found : Record) × (records_equal found t.active ≡ true)
      × (found.revision ≡ 7 + n)
      × Loads memory s found (load_active_record memory no_layout false s).0)
    ⊎ ((t.recovery_required ≡ true)
        × (run (storage_ports memory quiet first_flash) (to_lab ∷ []) t ≡ (0, t)))
run-storage_ports_example =
    run-storage_ports memory quiet first_flash memory-Separate memory-Keyed
      (quiet-OthersKeep memory) (to_lab ∷ to_lab ∷ []) (to_lab ∷ []) resting first_record no_layout
      refl refl (omega arith) starts first_loads no_reset.0

abbrev saved : Flash × Flash
saved = (first_flash, first_flash)

-- An update that goes through: the head selects the next revision in the other slot, and the retired
-- slot is empty.
second_loads :
    let (n, t) =
      run
        (storage_ports memory quiet first_flash)
        (to_lab ∷ [])
        (transaction_init resting first_record true).1 in
    let s = flash_after memory quiet first_flash t.calls in
    (n ≡ 1)
    × (read_head memory s ≡ got (encode_head slot_b 8))
    × (durable memory s ≡ got t.active)
    × (load_slot_record memory s slot_a ≡ failed not_found)
unfolding selected_record read_head load_slot_record load_from slot_namespace decode_head
    encode_head read_record_fields read_required_string accepted stage_record stage_fields
    stage_refusal write_all record_writes find remove is_secret_ok secret_config_validate
    wifi_secret_config_validate wifi_credentials_validate bounded_strlen config_validate
    is_config_ok voice_is_valid validate_provider_endpoint check_endpoint check_host
    extract_https_host scan_host has_space provider_caps_for provider_model_allowed
    provider_host_allowed matches_any ends_with c_text same_bytes stored_text apply_wifi
    apply_locked apply_prepared apply_projected candidate_for stage_candidate verify_candidate
    try_candidate activate_candidate settle commit quarantine roll_back clean_up unlock_apply
    map_wifi_status inactive_slot is_committed view_after prepare_wifi_update is_update_ok
    new_password check_password wifi_ssid_is_valid wifi_credentials_from_secrets run storage_ports
    flash_after transaction_init activate_record verify_record discard_record discard_slot
    erase_slot may_discard is_gone compare_slot records_equal config_equals secrets_equal
    valid_successor expected_head_matches write_head activation_of
second_loads = (refl, refl, refl, refl)

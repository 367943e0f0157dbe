-- ===== src/Config/Transaction/Tests.antt =====
-- Updates over scripted ports, and the theorems of the transaction at concrete inputs.
use waveshare.Prelude.{
  ◌≤◌, u32_max, c_text, same_bytes, ◌≡◌, ◌+◌, ◌⊎◌, refl, true, false, [], ◌∷◌, Option, none, some,
  arith, replicate,
}
use waveshare.Config.{
  AiqaConfig, SecretConfig, WifiUpdate, PublicWifiConfig, keep, bounded_strlen,
  wifi_credentials_validate, is_secret_ok, wifi_credentials_from_secrets, wifi_ssid_is_valid,
  stored_text, check_password, new_password, is_update_ok, prepare_wifi_update,
}
use waveshare.Provider.{
  provider_caps_for, provider_model_allowed, provider_host_allowed, matches_any, ends_with,
}
use waveshare.Config.{secret_config_validate, wifi_secret_config_validate}
use waveshare.Config.Validate.{
  is_config_ok, has_space, scan_host, extract_https_host, check_host, check_endpoint,
  validate_provider_endpoint, voice_is_valid, config_validate, config_default,
}
use waveshare.Config.Transaction.Lifetime.{IsWhole, run-init-IsWhole}
use waveshare.Config.Transaction.{Record, transaction_init}
use waveshare.Config.Transaction.{
  slot_a, slot_b, committed, indeterminate, Status, ok, activation_indeterminate, Ports,
  Transaction, inactive_slot, map_wifi_status, unlock_apply, clean_up, roll_back, quarantine,
  commit, settle, activate_candidate, try_candidate, verify_candidate, stage_candidate,
  apply_projected, candidate_for, apply_prepared, apply_locked, is_committed, view_after,
  apply_wifi,
}
use waveshare.Config.Transaction.Commit.{IsFree, IsValid, IsNext, Ending, apply_wifi-Ending}
use waveshare.Config.Transaction.Safety.{apply_wifi-active, run}

abbrev settings : AiqaConfig
settings = record {
  config_version = 1;
  active_provider = [];
  model = [];
  base_url = [];
  asr_provider = [];
  asr_model = [];
  asr_base_url = [];
  tts_provider = [];
  tts_model = [];
  tts_base_url = [];
  tts_voice = [];
  stream = true;
  hide_reasoning = true;
  max_completion_tokens = 768;
}

-- "home", with the password "password".
abbrev home : SecretConfig
home = record {
  wifi_ssid = 104 ∷ 111 ∷ 109 ∷ 101 ∷ replicate 29 0;
  wifi_password = 112 ∷ 97 ∷ 115 ∷ 115 ∷ 119 ∷ 111 ∷ 114 ∷ 100 ∷ replicate 57 0;
  chat_api_key = [];
  asr_api_key = [];
}

abbrev resting : Transaction
resting = record {
  active = record { config = settings; secrets = home; revision = 7; active_slot = slot_a };
  locked = false;
  recovery_required = false;
  initialized = true;
  lifecycle_locked = false;
  calls = [];
}

-- Every port succeeds.
abbrev bench : Ports
bench = record {
  stage = λ calls slot new. true;
  verify = λ calls slot new. true;
  activate = λ calls new slot revision. committed;
  discard = λ calls slot. true;
  trial_connect = λ calls wifi. true;
  restore_connect = λ calls wifi. true;
}

-- To "lab", with the password kept.
abbrev to_lab : WifiUpdate
to_lab = record {
  base_revision = 7;
  ssid = some (108 ∷ 97 ∷ 98 ∷ []);
  password_action = keep;
  password = none;
}

-- An update with every callee open.
play : Ports → Transaction → Status × Option PublicWifiConfig × Transaction
unfolding apply_wifi apply_locked apply_prepared apply_projected candidate_for stage_candidate
    verify_candidate try_candidate activate_candidate settle commit quarantine roll_back clean_up
    unlock_apply map_wifi_status inactive_slot is_committed view_after prepare_wifi_update
    is_update_ok new_password check_password stored_text wifi_ssid_is_valid
    wifi_credentials_from_secrets is_secret_ok wifi_credentials_validate bounded_strlen
play p t = apply_wifi p to_lab none t

commits :
    let (s, view, t) = play bench resting in
    (s ≡ ok) × (t.active.revision ≡ 8) × (t.active.active_slot ≡ slot_b)
unfolding play
commits = (refl, refl, refl)

unknown_head_quarantines :
    let (s, view, t) =
      play (record bench { activate = λ calls new slot revision. indeterminate }) resting in
    (s ≡ activation_indeterminate) × (t.active.revision ≡ 7) × (t.recovery_required ≡ true)
unfolding play
unknown_head_quarantines = (refl, refl, refl)

resting-IsFree : IsFree resting
resting-IsFree = record { ready = refl; unlocked = refl; free = refl }

resting-IsValid : IsValid resting
unfolding wifi_credentials_validate bounded_strlen
resting-IsValid = record { sound = refl; bounded = omega arith }

apply_wifi-Ending_example :
    let (s, view, t) = apply_wifi bench to_lab none resting in Ending resting to_lab s t
apply_wifi-Ending_example =
    apply_wifi-Ending bench to_lab none resting resting-IsFree resting-IsValid

apply_wifi-active_example :
    let (s, view, t) = apply_wifi bench to_lab none resting in
    ((is_committed s ≡ true) × IsNext resting to_lab t.active)
    ⊎ ((is_committed s ≡ false) × (t.active ≡ resting.active))
apply_wifi-active_example =
    apply_wifi-active bench to_lab none resting resting-IsFree resting-IsValid

abbrev stuck : Transaction
stuck = record resting { recovery_required = true }

stuck-IsFree : IsFree stuck
stuck-IsFree = record { ready = refl; unlocked = refl; free = refl }

-- A record that is whole: the default settings, and secrets of the shortest lengths.
abbrev first_record : Record
first_record = record {
  config = config_default;
  secrets = record home { chat_api_key = replicate 6 107 };
  revision = 7;
  active_slot = slot_a;
}

abbrev storage : Transaction
storage = record resting { initialized = false }

starts : (transaction_init storage first_record true).0 ≡ true
unfolding transaction_init is_secret_ok secret_config_validate wifi_secret_config_validate
    wifi_credentials_validate bounded_strlen config_validate is_config_ok voice_is_valid
    validate_provider_endpoint check_endpoint check_host extract_https_host scan_host has_space
    provider_caps_for provider_model_allowed provider_host_allowed matches_any ends_with c_text
    same_bytes stored_text
starts = refl

run-init-IsWhole_example :
    let (n, t) = run bench (to_lab ∷ to_lab ∷ []) (transaction_init storage first_record true).1 in
    IsFree t × IsWhole t.active × (t.active.revision ≡ 7 + n) × (t.active.revision ≤ u32_max)
run-init-IsWhole_example =
    run-init-IsWhole bench (to_lab ∷ to_lab ∷ []) storage first_record refl (omega arith) starts

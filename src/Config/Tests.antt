-- ===== src/Config/Tests.antt =====
-- Wi-Fi updates at concrete inputs.
use waveshare.Prelude.{ℕ, ◌≡◌, ◌≤◌, refl, [], ◌∷◌, ◌++◌, some, arith, replicate, u32_max}
use waveshare.Config.{
  SecretConfig, WifiUpdate, replace, bounded_strlen, secret_ok, wifi_credentials_validate,
  projected, wifi_ssid_is_valid, wifi_password_is_valid, stored_text, check_password, new_password,
  is_update_ok, prepare_wifi_update,
}
use waveshare.Config.Update.{prepare_wifi_update_sound}

abbrev secrets : SecretConfig
secrets = record {
  wifi_ssid = 104 ∷ replicate 32 0;
  wifi_password = replicate 65 0;
  chat_api_key = [];
  asr_api_key = [];
}

abbrev to_guest : WifiUpdate
to_guest = record {
  base_revision = 3;
  ssid = some (103 ∷ []);
  password_action = replace;
  password = some (replicate 8 120);
}

abbrev guest : SecretConfig
guest = record secrets {
  wifi_ssid = 103 ∷ replicate 32 0;
  wifi_password = replicate 8 120 ++ replicate 57 0;
}

accepted : (prepare_wifi_update secrets 3 to_guest).1 ≡ some (guest, 4)
unfolding prepare_wifi_update is_update_ok new_password check_password stored_text
    wifi_ssid_is_valid wifi_password_is_valid bounded_strlen
accepted = refl

valid : wifi_credentials_validate (projected secrets) ≡ secret_ok
unfolding wifi_credentials_validate bounded_strlen
valid = refl

prepare_wifi_update_sound_example :
    (to_guest.base_revision ≡ 3)
    × (◌≡◌ {A = ℕ} 4 4)
    × (wifi_credentials_validate (projected guest) ≡ secret_ok)
    × (4 ≤ u32_max)
    × (guest.chat_api_key ≡ secrets.chat_api_key)
    × (guest.asr_api_key ≡ secrets.asr_api_key)
prepare_wifi_update_sound_example =
    prepare_wifi_update_sound secrets 3 to_guest guest 4 accepted (omega arith) valid

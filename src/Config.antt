-- ===== src/Config.antt =====
-- components/config_store/src/aiqa_config.c: the Wi-Fi credentials, their update and their public
-- view, with the types of components/config_store/include/aiqa_config.h.
-- A `char` array is the list of its bytes; a `const char *` is none when it is NULL. Where a list
-- ends without a NUL, its end is read as one.
pub mod Texts
pub mod Validate
pub mod Endpoint
pub mod Update
pub mod Transaction
mod StatusNames
mod EndpointTests
mod Tests
use waveshare.Prelude.{
  ℕ, zero, suc, ◌+◌, ◌-◌, Bool, true, false, not, ◌&&◌, ◌||◌, List, [], ◌∷◌, ◌++◌, Option, none,
  some, ltb, leb, ◌==◌, if◌then◌else◌, take, replicate, get_or, length, u32_max,
}

abbrev pub max_wifi_ssid_len : ℕ
max_wifi_ssid_len = 33

abbrev pub max_wifi_password_len : ℕ
max_wifi_password_len = 65

abbrev pub max_api_key_len : ℕ
max_api_key_len = 192

pub record SecretConfig : Type 0 where
  pub wifi_ssid : List ℕ
  pub wifi_password : List ℕ
  pub chat_api_key : List ℕ
  pub asr_api_key : List ℕ

-- `aiqa_config_t`: what is not secret.
pub record AiqaConfig : Type 0 where
  pub config_version : ℕ
  pub active_provider : List ℕ
  pub model : List ℕ
  pub base_url : List ℕ
  pub asr_provider : List ℕ
  pub asr_model : List ℕ
  pub asr_base_url : List ℕ
  pub tts_provider : List ℕ
  pub tts_model : List ℕ
  pub tts_base_url : List ℕ
  pub tts_voice : List ℕ
  pub stream : Bool
  pub hide_reasoning : Bool
  pub max_completion_tokens : ℕ

pub record WifiCredentials : Type 0 where
  pub ssid : List ℕ
  pub password : List ℕ

pub data SecretStatus : Type 0 where
  secret_ok wifi_ssid_error wifi_password_error chat_api_key_error : SecretStatus

pub data PasswordAction : Type 0 where
  keep replace clear : PasswordAction
  unknown_action : ℕ → PasswordAction

pub record WifiUpdate : Type 0 where
  pub base_revision : ℕ
  pub ssid : Option (List ℕ)
  pub password_action : PasswordAction
  pub password : Option (List ℕ)

pub data UpdateStatus : Type 0 where
  update_ok invalid_argument revision_conflict revision_exhausted : UpdateStatus
  ssid_error password_error password_action_error : UpdateStatus

pub record PublicWifiConfig : Type 0 where
  pub revision : ℕ
  pub ssid : List ℕ
  pub has_password : Bool

unfoldable pub bounded_strlen : List ℕ → ℕ → ℕ
bounded_strlen [] max_len = 0
bounded_strlen (c ∷ value) zero = 0
bounded_strlen (c ∷ value) (suc max_len) = if c == 0 then 0 else suc (bounded_strlen value max_len)

abbrev pub bytes_of : Option (List ℕ) → List ℕ
bytes_of none = []
bytes_of (some value) = value

-- The first byte of an array, or the NUL that ends it.
abbrev pub first : List ℕ → ℕ
first value = get_or value 0 0

unfoldable pub wifi_credentials_validate : WifiCredentials → SecretStatus
unfolding bounded_strlen
wifi_credentials_validate c =
    let ssid_len = bounded_strlen c.ssid max_wifi_ssid_len in
    let password_len = bounded_strlen c.password max_wifi_password_len in
    if first c.ssid == 0
    then wifi_ssid_error
    else if ssid_len == 0 || leb max_wifi_ssid_len ssid_len
    then wifi_ssid_error
    else if leb max_wifi_password_len password_len
        || (ltb 0 password_len && ltb password_len 8)
        || ltb 63 password_len
    then wifi_password_error
    else secret_ok

abbrev pub projected : SecretConfig → WifiCredentials
projected s = record { ssid = s.wifi_ssid; password = s.wifi_password }

unfoldable pub is_secret_ok : SecretStatus → Bool
is_secret_ok secret_ok = true
is_secret_ok _ = false

-- None is a refusal, which clears the caller's credentials.
unfoldable pub wifi_credentials_from_secrets : SecretConfig → Option WifiCredentials
unfolding wifi_credentials_validate is_secret_ok
wifi_credentials_from_secrets s =
    if is_secret_ok (wifi_credentials_validate (projected s)) then some (projected s) else none

unfoldable pub wifi_secret_config_validate : SecretConfig → SecretStatus
unfolding wifi_credentials_validate
wifi_secret_config_validate s = wifi_credentials_validate (projected s)

unfoldable pub secret_config_validate : SecretConfig → SecretStatus
unfolding wifi_secret_config_validate is_secret_ok
secret_config_validate s =
    let wifi_status = wifi_secret_config_validate s in
    let chat_key_len = bounded_strlen s.chat_api_key max_api_key_len in
    let asr_key_len = bounded_strlen s.asr_api_key max_api_key_len in
    if not (is_secret_ok wifi_status)
    then wifi_status
    else if ltb chat_key_len 6 || leb max_api_key_len chat_key_len
    then chat_api_key_error
    else if not (first s.asr_api_key == 0) && (ltb asr_key_len 6 || leb max_api_key_len asr_key_len)
    then chat_api_key_error
    else secret_ok

unfoldable pub wifi_ssid_is_valid : Option (List ℕ) → Bool
wifi_ssid_is_valid value =
    let ssid_len = bounded_strlen (bytes_of value) max_wifi_ssid_len in
    ltb 0 ssid_len && ltb ssid_len max_wifi_ssid_len

pub wifi_password_is_valid : Option (List ℕ) → Bool
wifi_password_is_valid value =
    let password_len = bounded_strlen (bytes_of value) max_wifi_password_len in
    leb 8 password_len && leb password_len 63

-- `memset`, `memcpy` and the NUL: the text in an array of `size` bytes.
unfoldable pub stored_text : ℕ → List ℕ → List ℕ
unfolding bounded_strlen
stored_text size value =
    let len = bounded_strlen value size in take len value ++ replicate (size - len) 0

-- The `switch` on the password action: what it refuses.
unfoldable pub check_password : PasswordAction → Option (List ℕ) → UpdateStatus
unfolding wifi_password_is_valid
check_password keep password =
    if first (bytes_of password) == 0 then update_ok else password_action_error
check_password replace password =
    if wifi_password_is_valid password then update_ok else password_error
check_password clear password =
    if first (bytes_of password) == 0 then update_ok else password_action_error
check_password (unknown_action n) password = password_action_error

-- The password that an accepted action leaves.
unfoldable pub new_password : PasswordAction → List ℕ → Option (List ℕ) → List ℕ
unfolding stored_text
new_password replace old password = stored_text max_wifi_password_len (bytes_of password)
new_password clear old password = replicate max_wifi_password_len 0
new_password _ old password = old

unfoldable pub is_update_ok : UpdateStatus → Bool
is_update_ok update_ok = true
is_update_ok _ = false

-- The status, with the updated secrets and the next revision on success.
unfoldable pub prepare_wifi_update :
    SecretConfig → ℕ → WifiUpdate → UpdateStatus × Option (SecretConfig × ℕ)
unfolding wifi_ssid_is_valid check_password new_password stored_text is_update_ok
prepare_wifi_update current current_revision request =
    let password_status = check_password request.password_action request.password in
    if not (request.base_revision == current_revision)
    then (revision_conflict, none)
    else if current_revision == u32_max
    then (revision_exhausted, none)
    else if not (wifi_ssid_is_valid request.ssid)
    then (ssid_error, none)
    else if not (is_update_ok password_status)
    then (password_status, none)
    else (
      update_ok,
      some (
        record current {
          wifi_ssid = stored_text max_wifi_ssid_len (bytes_of request.ssid);
          wifi_password =
              new_password request.password_action current.wifi_password request.password;
        },
        current_revision + 1,
      ),
    )

-- None leaves the caller's view alone.
pub build_public_wifi_view : SecretConfig → ℕ → Option PublicWifiConfig
unfolding wifi_ssid_is_valid stored_text
build_public_wifi_view secrets revision =
    if wifi_ssid_is_valid (some secrets.wifi_ssid)
    then some (record {
      revision = revision;
      ssid = stored_text max_wifi_ssid_len secrets.wifi_ssid;
      has_password = not (first secrets.wifi_password == 0);
    })
    else none

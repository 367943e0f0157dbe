-- ===== src/Config/Update.antt =====
-- What an accepted update of the Wi-Fi settings leaves, and what the public view shows of it.
use waveshare.Prelude.{
  ℕ, ◌+◌, ◌<◌, ◌≤◌, ◌≡◌, refl, ◌↔◌, ◌≢◌, ◌⊎◌, inl, zero, suc, [], ◌∷◌, false, List, Option, none,
  some, arith, ◌==◌, length, replicate, u32_max,
}
use waveshare.Config.{
  max_wifi_ssid_len, max_wifi_password_len, SecretConfig, WifiCredentials, secret_ok,
  PasswordAction, keep, replace, clear, unknown_action, WifiUpdate, update_ok, bounded_strlen,
  bytes_of, first, wifi_credentials_validate, projected, is_secret_ok,
  wifi_credentials_from_secrets, wifi_ssid_is_valid, wifi_password_is_valid, check_password,
  new_password, is_update_ok, prepare_wifi_update,
}
use waveshare.Config.Texts.{bounded_strlen-stored_text}

-- The sizes of the struct's arrays.
pub record Fits (s : SecretConfig) : Type 0 where
  pub ssid_size : length s.wifi_ssid ≡ max_wifi_ssid_len
  pub password_size : length s.wifi_password ≡ max_wifi_password_len

first-bounded_strlen :
    (value : List ℕ) (max_len : ℕ) → 0 < bounded_strlen value max_len → (first value == 0) ≡ false
unfolding bounded_strlen
first-bounded_strlen [] max_len h = ground arith
first-bounded_strlen (c ∷ value) zero h = ground arith
first-bounded_strlen (c ∷ value) (suc max_len) h = ground arith

-- An SSID has 1 to 32 bytes, and a password none, or 8 to 63.
pub AreSound : WifiCredentials → Type 0
AreSound c =
    let ssid_len = bounded_strlen c.ssid max_wifi_ssid_len in
    let password_len = bounded_strlen c.password max_wifi_password_len in
    (0 < ssid_len)
    × (ssid_len < max_wifi_ssid_len)
    × ((password_len ≡ 0) ⊎ ((8 ≤ password_len) × (password_len ≤ 63)))

-- Credentials are valid exactly when the SSID has 1 to 32 bytes, and the password none or 8 to 63.
pub wifi_credentials_validate_iff :
    (c : WifiCredentials) → (wifi_credentials_validate c ≡ secret_ok) ↔ AreSound c
unfolding wifi_credentials_validate AreSound
wifi_credentials_validate_iff c =
    let named = first-bounded_strlen c.ssid max_wifi_ssid_len in
    (λ h. ground arith, λ h. ground (arith, named))

zeros-bounded_strlen : (n max_len : ℕ) → bounded_strlen (replicate n 0) max_len ≡ 0
unfolding bounded_strlen
zeros-bounded_strlen zero max_len = refl
zeros-bounded_strlen (suc n) zero = refl
zeros-bounded_strlen (suc n) (suc max_len) = refl

PasswordIsSound : List ℕ → Type 0
PasswordIsSound value =
    let len = bounded_strlen value max_wifi_password_len in (len ≡ 0) ⊎ ((8 ≤ len) × (len ≤ 63))

new_password_sound :
    (action : PasswordAction) (old : List ℕ) (password : Option (List ℕ))
    → check_password action password ≡ update_ok
    → PasswordIsSound old
    → PasswordIsSound (new_password action old password)
unfolding check_password new_password wifi_password_is_valid PasswordIsSound
new_password_sound keep old password h v = v
new_password_sound replace old password h v =
    ground (arith, bounded_strlen-stored_text max_wifi_password_len (bytes_of password))
new_password_sound clear old password h v =
    inl (zeros-bounded_strlen max_wifi_password_len max_wifi_password_len)
new_password_sound (unknown_action n) old password h v = ground arith

-- An update that is accepted was asked for at the current revision, which it raises by one without
-- overflow; it leaves valid credentials, if those before were valid, and the API keys.
pub prepare_wifi_update_sound :
    (current : SecretConfig) (revision : ℕ) (request : WifiUpdate) (next : SecretConfig)
    (next_revision : ℕ)
    → (prepare_wifi_update current revision request).1 ≡ some (next, next_revision)
    → revision ≤ u32_max
    → wifi_credentials_validate (projected current) ≡ secret_ok
    → (request.base_revision ≡ revision)
      × (next_revision ≡ revision + 1)
      × (wifi_credentials_validate (projected next) ≡ secret_ok)
      × (next_revision ≤ u32_max)
      × (next.chat_api_key ≡ current.chat_api_key)
      × (next.asr_api_key ≡ current.asr_api_key)
unfolding prepare_wifi_update AreSound PasswordIsSound wifi_ssid_is_valid is_update_ok
prepare_wifi_update_sound current revision request next next_revision h bound v =
    let kept = new_password_sound request.password_action current.wifi_password request.password in
    let named = bounded_strlen-stored_text max_wifi_ssid_len (bytes_of request.ssid) in
    let before = wifi_credentials_validate_iff (projected current) in
    let after = wifi_credentials_validate_iff (projected next) in
    ground (arith, kept, named, before, after)

pub refused-some :
    (current : SecretConfig) (revision : ℕ) (request : WifiUpdate)
    → (prepare_wifi_update current revision request).1 ≡ none
    → (prepare_wifi_update current revision request).0 ≢ update_ok
unfolding prepare_wifi_update is_update_ok
refused-some current revision request h = ground arith

pub from_secrets_lem :
    (s : SecretConfig)
    → wifi_credentials_validate (projected s) ≡ secret_ok
    → wifi_credentials_from_secrets s ≡ some (projected s)
unfolding wifi_credentials_from_secrets is_secret_ok
from_secrets_lem s h = ground (arith, h)

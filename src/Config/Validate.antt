-- ===== src/Config/Validate.antt =====
-- components/config_store/src/aiqa_config.c: the settings of the providers, their defaults and their
-- validation against components/provider_common/src/aiqa_provider.c.
use waveshare.Prelude.{
  ℕ, Bool, true, false, not, ◌&&◌, ◌||◌, List, [], ◌∷◌, Option, none, some, leb, ◌==◌,
  if◌then◌else◌, length, take, drop, same_bytes, codes,
}
use waveshare.Provider.{
  ProviderCaps, dashscope_chat, dashscope_asr_flash, dashscope_tts, provider_caps_for,
  provider_model_allowed, provider_host_allowed,
}
use waveshare.Config.{AiqaConfig, bounded_strlen, first, stored_text}

pub data ConfigStatus : Type 0 where
  config_ok version_error provider_error model_error base_url_error : ConfigStatus

abbrev pub config_version : ℕ
config_version = 1

abbrev pub max_provider_id_len : ℕ
max_provider_id_len = 32

abbrev pub max_model_len : ℕ
max_model_len = 64

abbrev pub max_base_url_len : ℕ
max_base_url_len = 160

abbrev pub max_tts_voice_len : ℕ
max_tts_voice_len = 32

abbrev pub is_space : ℕ → Bool
is_space c = c == b' ' || c == 9 || c == 10 || c == 13

-- `has_space` of a text that is there.
unfoldable pub has_space : List ℕ → Bool
has_space [] = false
has_space (c ∷ value) =
    let rest = has_space value in if c == 0 then false else if is_space c then true else rest

abbrev pub https_prefix : List ℕ
https_prefix = codes "https://"

abbrev pub ends_host : ℕ → Bool
ends_host c = c == 0 || c == b'/' || c == b':'

abbrev pub with_char : ℕ → Option (List ℕ) → Option (List ℕ)
with_char c none = none
with_char c (some host) = some (c ∷ host)

-- The loop over the host: none at a space or a tab.
unfoldable pub scan_host : List ℕ → Option (List ℕ)
scan_host [] = some []
scan_host (c ∷ rest) =
    let more = scan_host rest in
    if ends_host c then some [] else if c == b' ' || c == 9 then none else with_char c more

-- None is a refusal.
unfoldable pub extract_https_host : List ℕ → ℕ → Option (List ℕ)
unfolding scan_host
extract_https_host base_url host_size =
    let host_start = drop (length https_prefix) base_url in
    if not (same_bytes (take (length https_prefix) base_url) https_prefix)
    then none
    else if first host_start == 0 || first host_start == b'/'
    then none
    else elim (scan_host host_start) [
      | none ↦ none
      | some host ↦ if length host == 0 || leb host_size (length host) then none else some host
    ]

-- What an endpoint is for.
pub record Needs : Type 0 where
  pub chat : Bool
  pub audio : Bool
  pub tts : Bool

abbrev pub serves : Needs → ProviderCaps → Bool
serves needs caps = not (
    (needs.chat && not caps.supports_chat_stream)
    || (needs.audio
        && caps.max_audio_bytes == 0
        && not caps.supports_data_uri_audio
        && not caps.requires_public_audio_url)
    || (needs.tts && not caps.supports_tts_stream))

abbrev pub host_buffer_size : ℕ
host_buffer_size = 96

-- The last test of an endpoint, on the host that was found.
unfoldable pub check_host : List ℕ → Option (List ℕ) → ConfigStatus
check_host provider none = base_url_error
check_host provider (some host) =
    if provider_host_allowed (some provider) (some host) then config_ok else base_url_error

-- The tests on a provider that is known.
unfoldable pub check_endpoint : ProviderCaps → List ℕ → List ℕ → List ℕ → Needs → ConfigStatus
unfolding check_host has_space extract_https_host
check_endpoint caps provider model base_url needs =
    if not (serves needs caps)
    then provider_error
    else if first model == 0 || has_space model
    then model_error
    else if not (provider_model_allowed (some provider) (some model))
    then model_error
    else check_host provider (extract_https_host base_url host_buffer_size)

unfoldable pub validate_provider_endpoint : List ℕ → List ℕ → List ℕ → Needs → ConfigStatus
unfolding check_endpoint
validate_provider_endpoint provider model base_url needs =
    elim (provider_caps_for (some provider)) [
      | none ↦ provider_error
      | some caps ↦ check_endpoint caps provider model base_url needs
    ]

unfoldable pub is_config_ok : ConfigStatus → Bool
is_config_ok config_ok = true
is_config_ok _ = false

abbrev pub for_chat : Needs
for_chat = record { chat = true; audio = false; tts = false }

abbrev pub for_audio : Needs
for_audio = record { chat = false; audio = true; tts = false }

abbrev pub for_tts : Needs
for_tts = record { chat = false; audio = false; tts = true }

unfoldable pub voice_is_valid : List ℕ → Bool
unfolding has_space
voice_is_valid voice = not (
    first voice == 0
    || leb max_tts_voice_len (bounded_strlen voice max_tts_voice_len)
    || has_space voice)

unfoldable pub config_validate : AiqaConfig → ConfigStatus
unfolding validate_provider_endpoint is_config_ok voice_is_valid
config_validate c =
    let chat = validate_provider_endpoint c.active_provider c.model c.base_url for_chat in
    let audio = validate_provider_endpoint c.asr_provider c.asr_model c.asr_base_url for_audio in
    if not (c.config_version == config_version)
    then version_error
    else if not (is_config_ok chat)
    then chat
    else if not (is_config_ok audio)
    then audio
    else if not (voice_is_valid c.tts_voice)
    then model_error
    else validate_provider_endpoint c.tts_provider c.tts_model c.tts_base_url for_tts

abbrev pub config_default : AiqaConfig
unfolding stored_text
config_default = record {
  config_version = config_version;
  active_provider = stored_text max_provider_id_len dashscope_chat;
  model = stored_text max_model_len (codes "qwen3.7-max");
  base_url =
      stored_text max_base_url_len (codes "https://dashscope.aliyuncs.com/compatible-mode/v1");
  asr_provider = stored_text max_provider_id_len dashscope_asr_flash;
  asr_model = stored_text max_model_len (codes "qwen3-asr-flash");
  asr_base_url =
      stored_text max_base_url_len (codes "https://dashscope.aliyuncs.com/compatible-mode/v1");
  tts_provider = stored_text max_provider_id_len dashscope_tts;
  tts_model = stored_text max_model_len (codes "qwen3-tts-flash");
  tts_base_url = stored_text max_base_url_len (codes "https://dashscope.aliyuncs.com/api/v1");
  tts_voice = stored_text max_tts_voice_len (codes "Cherry");
  stream = true;
  hide_reasoning = true;
  max_completion_tokens = 768;
}

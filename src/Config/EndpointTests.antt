-- ===== src/Config/EndpointTests.antt =====
-- The default configuration, and URLs that the host test lets through.
use waveshare.Prelude.{ℕ, ◌≡◌, refl, List, codes, c_text, same_bytes}
use waveshare.Provider.{
  dashscope_chat, provider_caps_for, provider_model_allowed, provider_host_allowed, matches_any,
  ends_with,
}
use waveshare.Config.{bounded_strlen, stored_text}
use waveshare.Config.Validate.{
  ConfigStatus, config_ok, is_config_ok, has_space, scan_host, extract_https_host, check_host,
  check_endpoint, validate_provider_endpoint, voice_is_valid, config_validate, config_default,
  for_chat, for_audio, for_tts, config_version,
}
use waveshare.Config.Endpoint.{IsEndpoint, config_validate_sound}

default_is_valid : config_validate config_default ≡ config_ok
unfolding config_validate is_config_ok voice_is_valid validate_provider_endpoint check_endpoint
    check_host extract_https_host scan_host has_space provider_caps_for provider_model_allowed
    provider_host_allowed matches_any ends_with c_text same_bytes bounded_strlen stored_text
default_is_valid = refl

config_validate_sound_example :
    (config_default.config_version ≡ config_version)
    × IsEndpoint config_default.active_provider config_default.model config_default.base_url
        for_chat
    × IsEndpoint config_default.asr_provider config_default.asr_model config_default.asr_base_url
        for_audio
    × IsEndpoint config_default.tts_provider config_default.tts_model config_default.tts_base_url
        for_tts
config_validate_sound_example = config_validate_sound config_default default_is_valid

abbrev validated : List ℕ → ConfigStatus
validated url = validate_provider_endpoint dashscope_chat (codes "qwen-plus") url for_chat

-- The part before `:` is taken for the host, also where it is the user information of another host.
user_information_passes :
    validated (codes "https://dashscope.aliyuncs.com:x@example.org/") ≡ config_ok
unfolding validate_provider_endpoint check_endpoint check_host extract_https_host scan_host
    has_space provider_caps_for provider_model_allowed provider_host_allowed matches_any ends_with
    c_text same_bytes
user_information_passes = refl

-- A `?` does not end the host.
query_passes : validated (codes "https://example.org?.maas.aliyuncs.com") ≡ config_ok
unfolding validate_provider_endpoint check_endpoint check_host extract_https_host scan_host
    has_space provider_caps_for provider_model_allowed provider_host_allowed matches_any ends_with
    c_text same_bytes
query_passes = refl

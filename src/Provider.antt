-- ===== src/Provider.antt =====
-- components/provider_common/src/aiqa_provider.c: what each provider can do, and the hosts and models
-- that it may be used with. A `const char *` is none when it is NULL.
pub mod Allowed
use Prim.Native.String.{String}
use waveshare.Prelude.{
  ℕ, ◌-◌, ◌*◌, Bool, true, false, ◌&&◌, ◌||◌, List, [], ◌∷◌, Option, none, some, leb, if◌then◌else◌,
  drop, codes, c_text, strlen, same_text,
}

-- `aiqa_provider_caps_t`
pub record ProviderCaps : Type 0 where
  pub supports_chat_stream : Bool
  pub supports_reasoning_controls : Bool
  pub supports_device_intent_route : Bool
  pub supports_data_uri_audio : Bool
  pub requires_public_audio_url : Bool
  pub supports_tts_stream : Bool
  pub async_transcription : Bool
  pub max_audio_bytes : ℕ
  pub max_audio_seconds : ℕ
  pub max_tts_text_bytes : ℕ
  pub tts_sample_rate_hz : ℕ

abbrev pub dashscope_chat : List ℕ
dashscope_chat = codes "dashscope_openai_chat"

abbrev pub minimax_chat : List ℕ
minimax_chat = codes "minimax_openai_chat"

abbrev pub dashscope_asr_flash : List ℕ
dashscope_asr_flash = codes "dashscope_qwen_asr_flash"

abbrev pub dashscope_tts : List ℕ
dashscope_tts = codes "dashscope_qwen_tts"

abbrev pub minimax_chat_caps : ProviderCaps
minimax_chat_caps = record {
  supports_chat_stream = true;
  supports_reasoning_controls = true;
  supports_device_intent_route = false;
  supports_data_uri_audio = false;
  requires_public_audio_url = false;
  supports_tts_stream = false;
  async_transcription = false;
  max_audio_bytes = 0;
  max_audio_seconds = 0;
  max_tts_text_bytes = 0;
  tts_sample_rate_hz = 0;
}

abbrev pub dashscope_chat_caps : ProviderCaps
dashscope_chat_caps = record minimax_chat_caps { supports_device_intent_route = true }

abbrev pub dashscope_asr_flash_caps : ProviderCaps
dashscope_asr_flash_caps = record minimax_chat_caps {
  supports_chat_stream = false;
  supports_reasoning_controls = false;
  supports_data_uri_audio = true;
  max_audio_bytes = 10 * 1024 * 1024;
  max_audio_seconds = 5 * 60;
}

abbrev pub dashscope_tts_caps : ProviderCaps
dashscope_tts_caps = record minimax_chat_caps {
  supports_chat_stream = false;
  supports_reasoning_controls = false;
  supports_tts_stream = true;
  max_tts_text_bytes = 512;
  tts_sample_rate_hz = 24000;
}

unfoldable pub provider_caps_for : Option (List ℕ) → Option ProviderCaps
provider_caps_for none = none
provider_caps_for (some id) =
    if same_text id dashscope_chat
    then some dashscope_chat_caps
    else if same_text id minimax_chat
    then some minimax_chat_caps
    else if same_text id dashscope_asr_flash
    then some dashscope_asr_flash_caps
    else if same_text id dashscope_tts
    then some dashscope_tts_caps
    else none

unfoldable pub provider_is_known : Option (List ℕ) → Bool
unfolding provider_caps_for
provider_is_known id = elim (provider_caps_for id) [ none ↦ false | some caps ↦ true ]

-- `matches_any` of a value that is there.
unfoldable pub matches_any : List ℕ → List (List ℕ) → Bool
matches_any value [] = false
matches_any value (text ∷ allowed) = same_text value text || matches_any value allowed

unfoldable pub ends_with : List ℕ → List ℕ → Bool
ends_with value suffix =
    leb (strlen suffix) (strlen value)
    && same_text (drop (strlen value - strlen suffix) value) suffix

abbrev pub dashscope_hosts : List (List ℕ)
dashscope_hosts =
    codes "dashscope.aliyuncs.com"
    ∷ codes "dashscope-intl.aliyuncs.com"
    ∷ codes "dashscope-us.aliyuncs.com"
    ∷ codes "cn-hongkong.dashscope.aliyuncs.com"
    ∷ []

abbrev pub minimax_hosts : List (List ℕ)
minimax_hosts = codes "api.minimax.io" ∷ codes "api.minimax.chat" ∷ []

abbrev pub maas_suffix : List ℕ
maas_suffix = codes ".maas.aliyuncs.com"

unfoldable pub provider_host_allowed : Option (List ℕ) → Option (List ℕ) → Bool
unfolding matches_any ends_with
provider_host_allowed (some id) (some host) =
    if same_text id dashscope_chat || same_text id dashscope_asr_flash || same_text id dashscope_tts
    then matches_any host dashscope_hosts || ends_with host maas_suffix
    else if same_text id minimax_chat
    then matches_any host minimax_hosts
    else false
provider_host_allowed _ _ = false

abbrev pub dashscope_chat_models : List (List ℕ)
dashscope_chat_models = codes "qwen3.7-max" ∷ codes "qwen-plus" ∷ codes "qwen-turbo" ∷ []

abbrev pub minimax_chat_models : List (List ℕ)
minimax_chat_models = codes "MiniMax-M3" ∷ []

abbrev pub dashscope_asr_models : List (List ℕ)
dashscope_asr_models = codes "qwen3-asr-flash" ∷ []

abbrev pub dashscope_tts_models : List (List ℕ)
dashscope_tts_models =
    codes "qwen3-tts-flash" ∷ codes "qwen3-tts-instruct-flash" ∷ codes "qwen-tts" ∷ []

unfoldable pub provider_model_allowed : Option (List ℕ) → Option (List ℕ) → Bool
unfolding matches_any
provider_model_allowed (some id) (some model) =
    if same_text id dashscope_chat
    then matches_any model dashscope_chat_models
    else if same_text id minimax_chat
    then matches_any model minimax_chat_models
    else if same_text id dashscope_asr_flash
    then matches_any model dashscope_asr_models
    else if same_text id dashscope_tts
    then matches_any model dashscope_tts_models
    else false
provider_model_allowed _ _ = false

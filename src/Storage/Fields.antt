-- ===== src/Storage/Fields.antt =====
-- components/config_store/src/aiqa_config_nvs_ab.c: the record of a slot as keys of NVS.
use Prim.Native.String.{String}
use waveshare.Prelude.{
  ℕ, Bool, true, false, not, ◌&&◌, ◌||◌, List, [], ◌∷◌, ◌==◌, if◌then◌else◌, ◌%◌, ◌^◌, same_text,
}
use waveshare.Config.{
  AiqaConfig, SecretConfig, stored_text, is_secret_ok, secret_config_validate, max_wifi_ssid_len,
  max_wifi_password_len, max_api_key_len,
}
use waveshare.Config.Validate.{
  config_validate, is_config_ok, max_provider_id_len, max_model_len, max_base_url_len,
  max_tts_voice_len,
}
use waveshare.Config.Transaction.{Slot, legacy, slot_a, slot_b, Record}
use waveshare.Storage.Nvs.{
  invalid_state, Outcome, got, failed, ◌>>=◌, pure, u8, u32, i32, Look, Write, set_num, set_str,
}

abbrev pub layout_version : ℕ
layout_version = 1

abbrev pub byte_of : Bool → ℕ
byte_of true = 1
byte_of false = 0

-- The calls of `write_record_fields`, of which the first that fails is the last.
unfoldable pub record_writes : Record → List Write
record_writes r =
    let c = r.config in
    set_num u32 "layout" layout_version
    ∷ set_num u32 "revision" r.revision
    ∷ set_num u32 "version" (c.config_version % 2 ^ 32)
    ∷ set_str "provider" c.active_provider
    ∷ set_str "model" c.model
    ∷ set_str "base_url" c.base_url
    ∷ set_str "asr_provider" c.asr_provider
    ∷ set_str "asr_model" c.asr_model
    ∷ set_str "asr_base_url" c.asr_base_url
    ∷ set_str "tts_provider" c.tts_provider
    ∷ set_str "tts_model" c.tts_model
    ∷ set_str "tts_base_url" c.tts_base_url
    ∷ set_str "tts_voice" c.tts_voice
    ∷ set_num u8 "stream" (byte_of c.stream)
    ∷ set_num u8 "hide_reason" (byte_of c.hide_reasoning)
    ∷ set_num i32 "max_tokens" c.max_completion_tokens
    ∷ set_str "wifi_ssid" r.secrets.wifi_ssid
    ∷ set_str "wifi_pass" r.secrets.wifi_password
    ∷ set_str "chat_key" r.secrets.chat_api_key
    ∷ set_str "asr_key" r.secrets.asr_api_key
    ∷ []

-- A text in its array, which is zero before.
unfoldable pub read_required_string : Look → String → ℕ → Outcome (List ℕ)
read_required_string look key size = do text ← look.str key size; pure (stored_text size text)

-- A record whose values are valid.
unfoldable pub accepted : Record → Outcome Record
accepted loaded =
    if loaded.revision == 0
      || not (is_config_ok (config_validate loaded.config))
      || not (is_secret_ok (secret_config_validate loaded.secrets))
    then failed invalid_state
    else got loaded

-- `read_record_fields`: the record, if every key is there and the values are valid.
unfoldable pub read_record_fields : Look → Slot → Outcome Record
read_record_fields look slot = do
  layout ← look.num u32 "layout"
  if not (layout == layout_version) then failed invalid_state else do
    revision ← look.num u32 "revision"
    version ← look.num u32 "version"
    active_provider ← read_required_string look "provider" max_provider_id_len
    model ← read_required_string look "model" max_model_len
    base_url ← read_required_string look "base_url" max_base_url_len
    asr_provider ← read_required_string look "asr_provider" max_provider_id_len
    asr_model ← read_required_string look "asr_model" max_model_len
    asr_base_url ← read_required_string look "asr_base_url" max_base_url_len
    tts_provider ← read_required_string look "tts_provider" max_provider_id_len
    tts_model ← read_required_string look "tts_model" max_model_len
    tts_base_url ← read_required_string look "tts_base_url" max_base_url_len
    tts_voice ← read_required_string look "tts_voice" max_tts_voice_len
    stream ← look.num u8 "stream"
    hide_reasoning ← look.num u8 "hide_reason"
    max_tokens ← look.num i32 "max_tokens"
    wifi_ssid ← read_required_string look "wifi_ssid" max_wifi_ssid_len
    wifi_password ← read_required_string look "wifi_pass" max_wifi_password_len
    chat_api_key ← read_required_string look "chat_key" max_api_key_len
    asr_api_key ← read_required_string look "asr_key" max_api_key_len
    let config : AiqaConfig = record {
      config_version = version;
      active_provider = active_provider;
      model = model;
      base_url = base_url;
      asr_provider = asr_provider;
      asr_model = asr_model;
      asr_base_url = asr_base_url;
      tts_provider = tts_provider;
      tts_model = tts_model;
      tts_base_url = tts_base_url;
      tts_voice = tts_voice;
      stream = not (stream == 0);
      hide_reasoning = not (hide_reasoning == 0);
      max_completion_tokens = max_tokens;
    }
    let secrets : SecretConfig = record {
      wifi_ssid = wifi_ssid;
      wifi_password = wifi_password;
      chat_api_key = chat_api_key;
      asr_api_key = asr_api_key;
    }
    let loaded : Record = record {
      config = config;
      secrets = secrets;
      revision = revision;
      active_slot = slot;
    }
    accepted loaded

abbrev pub same_slot : Slot → Slot → Bool
same_slot legacy legacy = true
same_slot slot_a slot_a = true
same_slot slot_b slot_b = true
same_slot _ _ = false

abbrev pub same_bool : Bool → Bool → Bool
same_bool true b = b
same_bool false b = not b

unfoldable pub config_equals : AiqaConfig → AiqaConfig → Bool
config_equals left right =
    left.config_version == right.config_version
    && same_bool left.stream right.stream
    && same_bool left.hide_reasoning right.hide_reasoning
    && left.max_completion_tokens == right.max_completion_tokens
    && same_text left.active_provider right.active_provider
    && same_text left.model right.model
    && same_text left.base_url right.base_url
    && same_text left.asr_provider right.asr_provider
    && same_text left.asr_model right.asr_model
    && same_text left.asr_base_url right.asr_base_url
    && same_text left.tts_provider right.tts_provider
    && same_text left.tts_model right.tts_model
    && same_text left.tts_base_url right.tts_base_url
    && same_text left.tts_voice right.tts_voice

unfoldable pub secrets_equal : SecretConfig → SecretConfig → Bool
secrets_equal left right =
    same_text left.wifi_ssid right.wifi_ssid
    && same_text left.wifi_password right.wifi_password
    && same_text left.chat_api_key right.chat_api_key
    && same_text left.asr_api_key right.asr_api_key

unfoldable pub records_equal : Record → Record → Bool
records_equal left right =
    left.revision == right.revision
    && same_slot left.active_slot right.active_slot
    && config_equals left.config right.config
    && secrets_equal left.secrets right.secrets

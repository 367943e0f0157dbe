-- ===== src/Config/Endpoint.antt =====
-- A validated configuration names hosts that its providers are allowed.
use waveshare.Prelude.{
  ℕ, ◌<◌, ◌≡◌, refl, ap, subst, inl, inr, Bool, true, false, not, ◌||◌, List, [], ◌∷◌, ◌++◌, Option,
  none, some, arith, ◌==◌, if◌then◌else◌, length, take, drop, same_bytes-eq, Option-cases,
}
use waveshare.Provider.{
  ProviderCaps, provider_caps_for, provider_model_allowed, provider_host_allowed,
}
use waveshare.Config.{AiqaConfig}
use waveshare.Config.Validate.{
  ConfigStatus, config_ok, version_error, model_error, is_config_ok, ends_host, with_char,
  scan_host, https_prefix, extract_https_host, Needs, serves, check_host, check_endpoint,
  validate_provider_endpoint, config_validate, host_buffer_size, config_version, for_chat,
  for_audio, for_tts,
}

-- The characters of a host, and what may follow them.
abbrev pub IsPlain : List ℕ → Type 0
IsPlain [] = Unit {0}
IsPlain (c ∷ host) = (ends_host c ≡ false) × ((c == b' ' || c == 9) ≡ false) × IsPlain host

abbrev pub EndsHost : List ℕ → Type 0
EndsHost [] = Unit {0}
EndsHost (c ∷ rest) = ends_host c ≡ true

-- `host` is the host at the start of a text.
abbrev pub IsHostOf : List ℕ → List ℕ → Type 0
IsHostOf text host =
    let rest = drop (length host) text in IsPlain host × (text ≡ host ++ rest) × EndsHost rest

abbrev Scanned : List ℕ → Option (List ℕ) → Type 0
Scanned text none = Unit {0}
Scanned text (some host) = IsHostOf text host

with_char-Scanned :
    (c : ℕ) (text : List ℕ) (o : Option (List ℕ))
    → ends_host c ≡ false
    → (c == b' ' || c == 9) ≡ false
    → Scanned text o
    → Scanned (c ∷ text) (with_char c o)
with_char-Scanned c text none e f h = tt
with_char-Scanned c text (some host) e f h = ((e, f, h.0), ap (λ t. c ∷ t) h.1, h.2)

scan_step :
    (c : ℕ) (text : List ℕ) (o : Option (List ℕ)) (b d : Bool)
    → ends_host c ≡ b
    → (c == b' ' || c == 9) ≡ d
    → Scanned text o
    → Scanned (c ∷ text) (if b then some [] else if d then none else with_char c o)
scan_step c text o true d e f h = (tt, refl, e)
scan_step c text o false true e f h = tt
scan_step c text o false false e f h = with_char-Scanned c text o e f h

scan_host-Scanned : (text : List ℕ) → Scanned text (scan_host text)
unfolding scan_host
scan_host-Scanned [] = (tt, refl, tt)
scan_host-Scanned (c ∷ text) =
    scan_step c text (scan_host text) (ends_host c) (c == b' ' || c == 9) refl refl
      (scan_host-Scanned text)

-- A URL is `https://`, a host of 1 to 95 characters that holds no slash, colon, space, tab or NUL, and then the end,
-- a slash or a colon.
pub record IsUrlOf (url host : List ℕ) : Type 0 where
  pub secure : url ≡ https_prefix ++ drop (length https_prefix) url
  pub in_front : IsHostOf (drop (length https_prefix) url) host
  pub nonempty : 0 < length host
  pub short : length host < host_buffer_size

split_prefix : (p url : List ℕ) → take (length p) url ≡ p → url ≡ p ++ drop (length p) url
split_prefix [] url h = refl
split_prefix (c ∷ p) [] h = ground arith
split_prefix (c ∷ p) (d ∷ url) h = ground (arith, split_prefix p url)

extract_https_host_sound :
    (url host : List ℕ) → extract_https_host url host_buffer_size ≡ some host → IsUrlOf url host
unfolding extract_https_host
extract_https_host_sound url host h =
    let start = drop (length https_prefix) url in
    let prefix = same_bytes-eq (take (length https_prefix) url) https_prefix in
    let split = split_prefix https_prefix url in
    elim (Option-cases (scan_host start)) [
      | inl e ↦ ground (arith, e)
      | inr e ↦
          let same : e.0 ≡ host = ground (arith, e.1) in
          let good = subst (Scanned start) e.1 (scan_host-Scanned start) in
          record {
            secure = ground (arith, prefix, split);
            in_front = subst (IsHostOf start) same good;
            nonempty = ground (arith, e.1);
            short = ground (arith, e.1);
          }
    ]

-- An endpoint that may be used: its provider is known and can do what is needed, its model is one of
-- the provider's, and its URL is on one of the provider's hosts.
pub record IsEndpoint (provider model url : List ℕ) (needs : Needs) : Type 0 where
  pub caps : ProviderCaps
  pub known : provider_caps_for (some provider) ≡ some caps
  pub serving : serves needs caps ≡ true
  pub model_allowed : provider_model_allowed (some provider) (some model) ≡ true
  pub host : List ℕ
  pub url_of : IsUrlOf url host
  pub host_allowed : provider_host_allowed (some provider) (some host) ≡ true

check_host_sound :
    (provider url : List ℕ) (o : Option (List ℕ))
    → check_host provider o ≡ config_ok
    → (host : List ℕ) × (o ≡ some host) × (provider_host_allowed (some provider) (some host) ≡ true)
unfolding check_host
check_host_sound provider url none h = ground arith
check_host_sound provider url (some host) h = (host, refl, ground arith)

IsEndpoint-accepted :
    (provider model url : List ℕ) (needs : Needs)
    → validate_provider_endpoint provider model url needs ≡ config_ok
    → IsEndpoint provider model url needs
unfolding validate_provider_endpoint check_endpoint
IsEndpoint-accepted provider model url needs h =
    elim (Option-cases (provider_caps_for (some provider))) [
      | inl e ↦ ground (arith, e)
      | inr (caps, e) ↦
          let (host, found, allowed) =
            check_host_sound provider url (extract_https_host url host_buffer_size)
              (ground (arith, e)) in
          record {
            caps = caps;
            known = e;
            serving = ground (arith, e);
            model_allowed = ground (arith, e);
            host = host;
            url_of = extract_https_host_sound url host found;
            host_allowed = allowed;
          }
    ]

all_ok :
    (v w : Bool) (chat audio tts : ConfigStatus)
    → (if not v
        then version_error
        else if not (is_config_ok chat)
        then chat
        else if not (is_config_ok audio)
        then audio
        else if not w
        then model_error
        else tts)
      ≡ config_ok
    → (v ≡ true) × (chat ≡ config_ok) × (audio ≡ config_ok) × (tts ≡ config_ok)
unfolding is_config_ok
all_ok v w chat audio tts h = ground arith

-- A configuration that is validated has version 1, and each of its three endpoints is an `https://`
-- URL whose host, up to the first slash or colon, is one that its provider is allowed, with a model
-- of that provider and a provider that can do what the endpoint is for.
pub config_validate_sound :
    (c : AiqaConfig)
    → config_validate c ≡ config_ok
    → (c.config_version ≡ config_version)
      × IsEndpoint c.active_provider c.model c.base_url for_chat
      × IsEndpoint c.asr_provider c.asr_model c.asr_base_url for_audio
      × IsEndpoint c.tts_provider c.tts_model c.tts_base_url for_tts
unfolding config_validate
config_validate_sound c h =
    let (v, chat, audio, tts) = all_ok (c.config_version == config_version) _ _ _ _ h in
    (
      ground (arith, v),
      IsEndpoint-accepted c.active_provider c.model c.base_url for_chat chat,
      IsEndpoint-accepted c.asr_provider c.asr_model c.asr_base_url for_audio audio,
      IsEndpoint-accepted c.tts_provider c.tts_model c.tts_base_url for_tts tts,
    )

-- ===== src/Config/Transaction/Lifetime.antt =====
-- A transaction from its start on: the record that is active stays one that would be accepted.
use waveshare.Prelude.{
  ◌+◌, ◌<◌, ◌≤◌, ◌≡◌, refl, sym, subst, ap, ◌∙◌, inl, inr, Bool, true, false, not, ◌||◌, List, [],
  ◌∷◌, none, arith, if◌then◌else◌, u32_max, ◌==◌,
}
use waveshare.Config.{
  SecretConfig, SecretStatus, secret_ok, is_secret_ok, wifi_credentials_validate,
  wifi_secret_config_validate, secret_config_validate, projected, WifiUpdate,
}
use waveshare.Config.Validate.{ConfigStatus, config_ok, is_config_ok, config_validate}
use waveshare.Config.Transaction.{Record, Ports, Transaction, transaction_init, apply_wifi}
use waveshare.Config.Transaction.Commit.{IsFree, IsValid, IsNext}
use waveshare.Config.Transaction.Safety.{
  apply_wifi-active, apply_wifi-IsFree, apply_wifi-IsValid, run, run-IsValid,
}

-- A record that `transaction_init` accepts.
pub record IsWhole (r : Record) : Type 0 where
  pub config_valid : config_validate r.config ≡ config_ok
  pub secrets_valid : secret_config_validate r.secrets ≡ secret_ok
  pub revised : 0 < r.revision

secrets-wifi :
    (s : SecretConfig)
    → secret_config_validate s ≡ secret_ok
    → wifi_credentials_validate (projected s) ≡ secret_ok
unfolding secret_config_validate wifi_secret_config_validate is_secret_ok
secrets-wifi s h = ground arith

same_keys-valid :
    (s s' : SecretConfig)
    → s'.chat_api_key ≡ s.chat_api_key
    → s'.asr_api_key ≡ s.asr_api_key
    → wifi_credentials_validate (projected s') ≡ secret_ok
    → secret_config_validate s ≡ secret_ok
    → secret_config_validate s' ≡ secret_ok
unfolding secret_config_validate wifi_secret_config_validate is_secret_ok
same_keys-valid s s' c a w h = ground arith

IsNext-IsWhole :
    (t : Transaction) (request : WifiUpdate) (new : Record)
    → IsNext t request new
    → IsWhole t.active
    → IsWhole new
IsNext-IsWhole t request new n w = record {
  config_valid = ap config_validate n.same_config ∙ w.config_valid;
  secrets_valid =
      same_keys-valid t.active.secrets new.secrets n.same_chat_key n.same_asr_key n.new_sound
        w.secrets_valid;
  revised = omega (arith, n.next);
}

apply_wifi-IsWhole :
    (p : Ports) (request : WifiUpdate) (t : Transaction)
    → IsFree t
    → IsValid t
    → IsWhole t.active
    → IsWhole (apply_wifi p request none t).2.active
apply_wifi-IsWhole p request t f v w = elim (apply_wifi-active p request none t f v) [
  | inl e ↦ IsNext-IsWhole t request _ e.1 w
  | inr e ↦ subst IsWhole (sym e.1) w
]

run-IsWhole :
    (p : Ports) (requests : List WifiUpdate) (t : Transaction)
    → IsFree t
    → IsValid t
    → IsWhole t.active
    → IsWhole (run p requests t).1.active
unfolding run
run-IsWhole p [] t f v w = w
run-IsWhole p (request ∷ requests) t f v w =
    run-IsWhole p requests (apply_wifi p request none t).2 (apply_wifi-IsFree p request none t f v)
      (apply_wifi-IsValid p request none t f v) (apply_wifi-IsWhole p request t f v w)

accepted_lem :
    (zero_revision : Bool) (config : ConfigStatus) (secrets : SecretStatus) (t t' : Transaction)
    → let r : Bool × Transaction =
        if zero_revision || not (is_config_ok config) || not (is_secret_ok secrets) || not true
        then (false, t)
        else (true, t') in
      r.0 ≡ true
      → (zero_revision ≡ false) × (config ≡ config_ok) × (secrets ≡ secret_ok) × (r.1 ≡ t')
unfolding is_config_ok is_secret_ok
accepted_lem z c s t t' h = ground arith

pub init-facts :
    (t : Transaction) (active : Record)
    → t.lifecycle_locked ≡ false
    → (transaction_init t active true).0 ≡ true
    → let t' = (transaction_init t active true).1 in
      IsFree t' × IsWhole t'.active × (t'.active ≡ active)
unfolding transaction_init
init-facts t active l h =
    let fresh : Transaction = record t {
      active = active;
      locked = false;
      recovery_required = false;
      initialized = true;
    } in
    let (revised, config, secrets, same) = accepted_lem (active.revision == 0) _ _ t fresh h in
    let whole : IsWhole active = record {
      config_valid = config;
      secrets_valid = secrets;
      revised = ground (arith, revised);
    } in
    let free : IsFree fresh = record { ready = refl; unlocked = refl; free = l } in
    subst (λ x. IsFree x × IsWhole x.active × (x.active ≡ active)) (sym same) (free, whole, refl)

pub init-calls :
    (t : Transaction) (active : Record) → (transaction_init t active true).1.calls ≡ t.calls
unfolding transaction_init
init-calls t active = ground arith

pub init-IsValid :
    (t : Transaction) (active : Record)
    → t.lifecycle_locked ≡ false
    → active.revision ≤ u32_max
    → (transaction_init t active true).0 ≡ true
    → IsValid (transaction_init t active true).1
init-IsValid t active l b h =
    let t₀ = (transaction_init t active true).1 in
    let (f, w, same) = init-facts t active l h in
    let revised = ap (λ r. r.revision) same in
    record {
      sound = secrets-wifi t₀.active.secrets w.secrets_valid;
      bounded = omega (arith, revised);
    }

-- From a `transaction_init` that succeeds, any updates leave the transaction free, with an active
-- record that `transaction_init` would accept again: valid settings, valid secrets, and a revision
-- that grew by one with each committed update and never overflowed.
pub run-init-IsWhole :
    (p : Ports) (requests : List WifiUpdate) (t : Transaction) (active : Record)
    → t.lifecycle_locked ≡ false
    → active.revision ≤ u32_max
    → (transaction_init t active true).0 ≡ true
    → let (n, t') = run p requests (transaction_init t active true).1 in
      IsFree t'
      × IsWhole t'.active
      × (t'.active.revision ≡ active.revision + n)
      × (t'.active.revision ≤ u32_max)
run-init-IsWhole p requests t active l b h =
    let t₀ = (transaction_init t active true).1 in
    let (f, w, same) = init-facts t active l h in
    let revised = ap (λ r. r.revision) same in
    let v = init-IsValid t active l b h in
    let (f', v', count) = run-IsValid p requests t₀ f v in
    (f', run-IsWhole p requests t₀ f v w, omega (arith, count, revised), v'.bounded)

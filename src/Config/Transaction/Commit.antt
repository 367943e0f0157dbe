-- ===== src/Config/Transaction/Commit.antt =====
-- What a whole update does: it is refused, or it follows a protocol, and only a committed one
-- changes the active record.
use waveshare.Prelude.{
  ℕ, ◌+◌, ◌≤◌, ◌≡◌, ◌≢◌, refl, sym, subst, ap, ◌∙◌, Bool, true, false, Option, none, some, arith,
  if◌then◌else◌, u32_max,
}
use waveshare.Config.{
  SecretConfig, WifiCredentials, WifiUpdate, UpdateStatus, update_ok, secret_ok, PublicWifiConfig,
  wifi_credentials_validate, wifi_credentials_from_secrets, projected, prepare_wifi_update,
}
use waveshare.Config.Update.{prepare_wifi_update_sound, refused-some, from_secrets_lem}
use waveshare.Config.Transaction.{
  Record, Status, recovery_required_status, Ports, Transaction, inactive_slot, map_wifi_status,
  unlock_apply, clean_up, roll_back, quarantine, commit, settle, activate_candidate, try_candidate,
  verify_candidate, stage_candidate, apply_projected, candidate_for, apply_prepared, apply_locked,
  is_committed, view_after, apply_wifi,
}
use waveshare.Config.Transaction.Protocol.{Protocol, Follows, stage_candidate-Protocol}

-- A transaction at rest: nobody holds a lock.
pub record IsFree (t : Transaction) : Type 0 where
  pub ready : t.initialized ≡ true
  pub unlocked : t.locked ≡ false
  pub free : t.lifecycle_locked ≡ false

-- The active record is one that the device can connect with.
pub record IsValid (t : Transaction) : Type 0 where
  pub sound : wifi_credentials_validate (projected t.active.secrets) ≡ secret_ok
  pub bounded : t.active.revision ≤ u32_max

-- `new` is what the request asks for: the next revision, in the other slot, with valid credentials.
pub record IsNext (t : Transaction) (request : WifiUpdate) (new : Record) : Type 0 where
  pub based : request.base_revision ≡ t.active.revision
  pub next : new.revision ≡ t.active.revision + 1
  pub new_bounded : new.revision ≤ u32_max
  pub other_slot : new.active_slot ≡ inactive_slot t.active.active_slot
  pub new_sound : wifi_credentials_validate (projected new.secrets) ≡ secret_ok
  pub same_config : new.config ≡ t.active.config
  pub same_chat_key : new.secrets.chat_api_key ≡ t.active.secrets.chat_api_key
  pub same_asr_key : new.secrets.asr_api_key ≡ t.active.secrets.asr_api_key

pub data Ending (t : Transaction) (request : WifiUpdate) (s : Status) (t' : Transaction)
    : Type 0 where
  refused : is_committed s ≡ false → t' ≡ t → Ending t request s t'
  attempted :
      (new : Record)
      → t.recovery_required ≡ false
      → IsNext t request new
      → Protocol t.active new
          (projected new.secrets)
          (projected t.active.secrets)
          t.calls
          s
          t'.recovery_required
          t'.calls
          t'.active
      → IsFree t'
      → Ending t request s t'

unlock_apply_lem :
    (t : Transaction)
    → IsFree t
    → unlock_apply (record t { locked = true; lifecycle_locked = true }) ≡ t
unfolding unlock_apply
unlock_apply_lem t f = ground arith

stage_candidate-initialized :
    (p : Ports) (new : Record) (w v : WifiCredentials) (t : Transaction)
    → (stage_candidate p new w v t).1.initialized ≡ t.initialized
unfolding stage_candidate verify_candidate try_candidate activate_candidate clean_up roll_back
    settle quarantine commit
stage_candidate-initialized p new w v t = ground arith

not_committed_status : (s : UpdateStatus) → s ≢ update_ok → is_committed (map_wifi_status s) ≡ false
unfolding is_committed map_wifi_status
not_committed_status s h = ground arith

projected-Ending :
    (p : Ports) (request : WifiUpdate) (t : Transaction) (new : Record)
    → IsFree t
    → IsValid t
    → t.recovery_required ≡ false
    → IsNext t request new
    → let (s, t') =
        apply_projected p new
          (wifi_credentials_from_secrets new.secrets)
          (wifi_credentials_from_secrets t.active.secrets)
          (record t { locked = true; lifecycle_locked = true }) in
      Ending t request s t'
unfolding apply_projected unlock_apply Follows
projected-Ending p request t new f v h n =
    let t₀ = record t { locked = true; lifecycle_locked = true } in
    let w = projected new.secrets in
    let old = projected t.active.secrets in
    let Ends : Option WifiCredentials → Option WifiCredentials → Type 0 =
      λ x y. Ending t request (apply_projected p new x y t₀).0 (apply_projected p new x y t₀).1 in
    subst (λ x. Ends x (wifi_credentials_from_secrets t.active.secrets))
      (sym (from_secrets_lem new.secrets n.new_sound))
      (subst (Ends (some w)) (sym (from_secrets_lem t.active.secrets v.sound)) (
        attempted new h n (stage_candidate-Protocol p new w old t₀ h) (record {
          ready = stage_candidate-initialized p new w old t₀ ∙ f.ready;
          unlocked = refl;
          free = refl;
        })))

prepared-IsNext :
    (request : WifiUpdate) (t : Transaction) (secrets : SecretConfig) (revision : ℕ)
    → IsValid t
    → (prepare_wifi_update t.active.secrets t.active.revision request).1 ≡ some (secrets, revision)
    → IsNext t request (candidate_for t secrets revision)
unfolding candidate_for
prepared-IsNext request t secrets revision v e =
    let (based, next, sound, bounded, chat, asr) =
      prepare_wifi_update_sound t.active.secrets t.active.revision request secrets revision e
        v.bounded v.sound in
    record {
      based = based;
      next = next;
      new_bounded = bounded;
      other_slot = refl;
      new_sound = sound;
      same_config = refl;
      same_chat_key = chat;
      same_asr_key = asr;
    }

prepared-Ending :
    (p : Ports) (request : WifiUpdate) (t : Transaction) (status : UpdateStatus)
    (updated : Option (SecretConfig × ℕ))
    → IsFree t
    → IsValid t
    → t.recovery_required ≡ false
    → prepare_wifi_update t.active.secrets t.active.revision request ≡ (status, updated)
    → let (s, t') =
        apply_prepared p status updated (record t { locked = true; lifecycle_locked = true }) in
      Ending t request s t'
unfolding apply_prepared candidate_for
prepared-Ending p request t status none f v h e =
    refused
      (not_committed_status status (λ q.
        refused-some t.active.secrets t.active.revision request (ap (λ x. x.1) e)
          (ap (λ x. x.0) e ∙ q)))
      (unlock_apply_lem t f)
prepared-Ending p request t status (some (secrets, revision)) f v h e =
    projected-Ending p request t (candidate_for t secrets revision) f v h
      (prepared-IsNext request t secrets revision v (ap (λ x. x.1) e))

applied_by :
    (p : Ports) (request : WifiUpdate) (t : Transaction) (b : Bool)
    → IsFree t
    → IsValid t
    → t.recovery_required ≡ b
    → let t₀ = record t { locked = true; lifecycle_locked = true } in
      let (status, updated) = prepare_wifi_update t.active.secrets t.active.revision request in
      let (s, t') =
        if b
        then (recovery_required_status, unlock_apply t₀)
        else apply_prepared p status updated t₀ in
      Ending t request s t'
unfolding is_committed
applied_by p request t true f v h = refused refl (unlock_apply_lem t f)
applied_by p request t false f v h =
    let (status, updated) = prepare_wifi_update t.active.secrets t.active.revision request in
    prepared-Ending p request t status updated f v h refl

locked-Ending :
    (p : Ports) (request : WifiUpdate) (t : Transaction)
    → IsFree t
    → IsValid t
    → let (s, t') = apply_locked p request (record t { locked = true; lifecycle_locked = true }) in
      Ending t request s t'
unfolding apply_locked
locked-Ending p request t f v = applied_by p request t t.recovery_required f v refl

pub apply_wifi_lem :
    (p : Ports) (request : WifiUpdate) (out_view : Option PublicWifiConfig) (t : Transaction)
    → IsFree t
    → let (s, view, t') = apply_wifi p request out_view t in
      let (s', t'') =
        apply_locked p request (record t { locked = true; lifecycle_locked = true }) in
      (s ≡ s') × (view ≡ view_after s' t'' out_view) × (t' ≡ t'')
unfolding apply_wifi
apply_wifi_lem p request out_view t f = ground (arith, f)

-- An update of a valid transaction that nobody holds either is refused and changes nothing, with no
-- call of a port; or recovery is not required, the candidate is the next revision in the other slot
-- with valid credentials, the calls follow a protocol, which gives the status, the active record and
-- the need of recovery, and both locks are released.
pub apply_wifi-Ending :
    (p : Ports) (request : WifiUpdate) (out_view : Option PublicWifiConfig) (t : Transaction)
    → IsFree t
    → IsValid t
    → let (s, view, t') = apply_wifi p request out_view t in Ending t request s t'
apply_wifi-Ending p request out_view t f v =
    let (same, view, after) = apply_wifi_lem p request out_view t f in
    let (s, t') = apply_locked p request (record t { locked = true; lifecycle_locked = true }) in
    subst (λ x. Ending t request x (apply_wifi p request out_view t).2) (sym same)
      (subst (Ending t request s) (sym after) (locked-Ending p request t f v))

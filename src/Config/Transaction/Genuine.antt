-- ===== src/Config/Transaction/Genuine.antt =====
-- The calls in the state of a transaction are the ones that were made, with the answers of the ports.
use waveshare.Prelude.{
  ℕ, ◌≡◌, refl, sym, subst, true, List, [], ◌∷◌, Option, none, some, if_keeps, if_not_keeps,
}
use waveshare.Config.{SecretConfig, WifiCredentials, WifiUpdate, UpdateStatus}
use waveshare.Config.Transaction.{
  Slot, Record, Activation, indeterminate, committed, not_committed, unknown_activation, Status,
  stage_failed, verify_failed, trial_failed_rolled_back, activate_failed_rolled_back, Call, staged,
  verified, activated, discarded, trial_connected, restore_connected, quarantined, called, Ports,
  Transaction, unlock_apply, clean_up, roll_back, quarantine, commit, settle, activate_candidate,
  try_candidate, verify_candidate, stage_candidate, candidate_for, apply_projected, apply_prepared,
  apply_locked, apply_wifi,
}
use waveshare.Config.Transaction.Commit.{IsFree, apply_wifi_lem}

-- The answer in a call is the port's, given the calls before it.
unfoldable pub IsAnswer : Ports → Call → List Call → Type 0
IsAnswer p (staged slot r b) calls = p.stage calls slot r ≡ b
IsAnswer p (verified slot r b) calls = p.verify calls slot r ≡ b
IsAnswer p (activated r slot revision a) calls = p.activate calls r slot revision ≡ a
IsAnswer p (discarded slot b) calls = p.discard calls slot ≡ b
IsAnswer p (trial_connected w b) calls = p.trial_connect calls w ≡ b
IsAnswer p (restore_connected w b) calls = p.restore_connect calls w ≡ b
IsAnswer p quarantined calls = true ≡ true

pub data Genuine (p : Ports) : List Call → Type 0 where
  no_call : Genuine p []
  answered :
      {c : Call} {calls : List Call} → IsAnswer p c calls → Genuine p calls → Genuine p (c ∷ calls)

module _ (p : Ports) where
  IsGenuine : Status × Transaction → Type 0
  IsGenuine result = Genuine p result.1.calls

  clean_up-Genuine :
      (slot : Slot) (s : Status) (t : Transaction)
      → Genuine p t.calls
      → IsGenuine (clean_up p slot s t)
  unfolding IsGenuine clean_up IsAnswer
  clean_up-Genuine slot s t g = answered refl g

  roll_back-Genuine :
      (slot : Slot) (v : WifiCredentials) (s : Status) (t : Transaction)
      → Genuine p t.calls
      → IsGenuine (roll_back p slot v s t)
  unfolding IsGenuine roll_back IsAnswer
  roll_back-Genuine slot v s t g = answered refl (answered refl g)

  settle-Genuine :
      (a : Activation) (new : Record) (v : WifiCredentials) (t : Transaction)
      → Genuine p t.calls
      → IsGenuine (settle a p new v t)
  unfolding IsGenuine settle quarantine commit IsAnswer
  settle-Genuine committed new v t g = answered refl g
  settle-Genuine not_committed new v t g =
      roll_back-Genuine new.active_slot v activate_failed_rolled_back t g
  settle-Genuine indeterminate new v t g = answered refl g
  settle-Genuine (unknown_activation n) new v t g = answered refl g

  activate-Genuine :
      (new : Record) (v : WifiCredentials) (t : Transaction)
      → Genuine p t.calls
      → IsGenuine (activate_candidate p new v t)
  unfolding activate_candidate IsAnswer
  activate-Genuine new v t g = settle-Genuine _ new v _ (answered refl g)

  try-Genuine :
      (new : Record) (w v : WifiCredentials) (t : Transaction)
      → Genuine p t.calls
      → IsGenuine (try_candidate p new w v t)
  unfolding try_candidate IsAnswer
  try-Genuine new w v t g =
      let connected = p.trial_connect t.calls w in
      let t₁ = called t (trial_connected w connected) in
      if_not_keeps IsGenuine connected
        (roll_back-Genuine new.active_slot v trial_failed_rolled_back t₁ (answered refl g))
        (activate-Genuine new v t₁ (answered refl g))

  verify-Genuine :
      (new : Record) (w v : WifiCredentials) (t : Transaction)
      → Genuine p t.calls
      → IsGenuine (verify_candidate p new w v t)
  unfolding verify_candidate IsAnswer
  verify-Genuine new w v t g =
      let intact = p.verify t.calls new.active_slot new in
      let t₁ = called t (verified new.active_slot new intact) in
      if_not_keeps IsGenuine intact
        (clean_up-Genuine new.active_slot verify_failed t₁ (answered refl g))
        (try-Genuine new w v t₁ (answered refl g))

  stage-Genuine :
      (new : Record) (w v : WifiCredentials) (t : Transaction)
      → Genuine p t.calls
      → IsGenuine (stage_candidate p new w v t)
  unfolding stage_candidate IsAnswer
  stage-Genuine new w v t g =
      let durable = p.stage t.calls new.active_slot new in
      let t₁ = called t (staged new.active_slot new durable) in
      if_not_keeps IsGenuine durable
        (clean_up-Genuine new.active_slot stage_failed t₁ (answered refl g))
        (verify-Genuine new w v t₁ (answered refl g))

  projected-Genuine :
      (new : Record) (w v : Option WifiCredentials) (t : Transaction)
      → Genuine p t.calls
      → IsGenuine (apply_projected p new w v t)
  unfolding IsGenuine apply_projected unlock_apply
  projected-Genuine new (some w) (some v) t g = stage-Genuine new w v t g
  projected-Genuine new (some w) none t g = g
  projected-Genuine new none (some v) t g = g
  projected-Genuine new none none t g = g

  prepared-Genuine :
      (s : UpdateStatus) (updated : Option (SecretConfig × ℕ)) (t : Transaction)
      → Genuine p t.calls
      → IsGenuine (apply_prepared p s updated t)
  unfolding IsGenuine apply_prepared unlock_apply
  prepared-Genuine s none t g = g
  prepared-Genuine s (some (secrets, revision)) t g =
      projected-Genuine (candidate_for t secrets revision) _ _ t g

  locked-Genuine :
      (request : WifiUpdate) (t : Transaction)
      → Genuine p t.calls
      → IsGenuine (apply_locked p request t)
  unfolding apply_locked IsGenuine
  locked-Genuine request t g = if_keeps IsGenuine t.recovery_required g (prepared-Genuine _ _ t g)

  -- An update adds calls that were made to calls that were made.
  pub apply_wifi-Genuine :
      (request : WifiUpdate) (t : Transaction)
      → IsFree t
      → Genuine p t.calls
      → Genuine p (apply_wifi p request none t).2.calls
  unfolding IsGenuine
  apply_wifi-Genuine request t f g =
      let (same, view, after) = apply_wifi_lem p request none t f in
      subst (λ x. Genuine p x.calls) (sym after)
        (locked-Genuine request (record t { locked = true; lifecycle_locked = true }) g)

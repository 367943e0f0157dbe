-- ===== src/Storage/Restart.antt =====
-- Wi-Fi updates over the slots, from a start to the loading of the next one.
use waveshare.Prelude.{
  ℕ, ◌+◌, ◌≤◌, ◌≡◌, refl, sym, ◌∙◌, ap, subst, ◌⊎◌, inl, inr, Bool, true, false, List, [],
  same_bytes_self, c_text, ◌==◌, ◌∷◌, none, Option, arith, u32_max,
}
use waveshare.Config.{AiqaConfig, SecretConfig, WifiUpdate}
use waveshare.Config.Transaction.{
  Slot, legacy, slot_a, slot_b, Record, Call, staged, verified, activated, discarded,
  trial_connected, restore_connected, quarantined, is_committed, Ports, Transaction,
  transaction_init, apply_wifi,
}
use waveshare.Config.Transaction.Commit.{IsFree, IsValid, refused, attempted, apply_wifi-Ending}
use waveshare.Config.Transaction.Safety.{
  apply_wifi-IsFree, apply_wifi-IsValid, recovery_required_stops, run,
}
use waveshare.Config.Transaction.Genuine.{Genuine, no_call, apply_wifi-Genuine}
use waveshare.Storage.Nvs.{meta_space, Nvs, Separate, Keyed, Outcome, got}
use waveshare.Storage.Reset.{reset_is_pending}
use waveshare.Storage.Load.{load_active_record}
use waveshare.Storage.Loading.{Loads, load_active_record-Loads}
use waveshare.Storage.Pending.{stage_record-meta, discard_record-meta, activate_record-pending}
use waveshare.Storage.Fields.{records_equal}
use waveshare.Storage.Durable.{durable, Elsewhere}
use waveshare.Storage.Ports.{Surroundings, flash_after, flash_at, storage_ports}
use waveshare.Config.Transaction.Lifetime.{init-calls, init-facts, init-IsValid, run-init-IsWhole}
use waveshare.Storage.Activating.{records_equal-revision}
use waveshare.Storage.Fields.{same_slot, same_bool, config_equals, secrets_equal}
use waveshare.Storage.Updates.{IsStored, OthersKeep, Protocol-IsStored}

same_slot_self : (slot : Slot) → same_slot slot slot ≡ true
same_slot_self legacy = refl
same_slot_self slot_a = refl
same_slot_self slot_b = refl

same_bool_self : (b : Bool) → same_bool b b ≡ true
same_bool_self true = refl
same_bool_self false = refl

same_number_self : (n : ℕ) → (n == n) ≡ true
same_number_self n = ground arith

config_equals_self : (c : AiqaConfig) → config_equals c c ≡ true
unfolding config_equals
config_equals_self c = rw (
  same_number_self c.config_version,
  same_bool_self c.stream,
  same_bool_self c.hide_reasoning,
  same_number_self c.max_completion_tokens,
  same_bytes_self (c_text c.active_provider),
  same_bytes_self (c_text c.model),
  same_bytes_self (c_text c.base_url),
  same_bytes_self (c_text c.asr_provider),
  same_bytes_self (c_text c.asr_model),
  same_bytes_self (c_text c.asr_base_url),
  same_bytes_self (c_text c.tts_provider),
  same_bytes_self (c_text c.tts_model),
  same_bytes_self (c_text c.tts_base_url),
  same_bytes_self (c_text c.tts_voice),
)

secrets_equal_self : (s : SecretConfig) → secrets_equal s s ≡ true
unfolding secrets_equal
secrets_equal_self s = rw (
  same_bytes_self (c_text s.wifi_ssid),
  same_bytes_self (c_text s.wifi_password),
  same_bytes_self (c_text s.chat_api_key),
  same_bytes_self (c_text s.asr_api_key),
)

records_equal_self : (r : Record) → records_equal r r ≡ true
unfolding records_equal
records_equal_self r = rw (
  same_number_self r.revision,
  same_slot_self r.active_slot,
  config_equals_self r.config,
  secrets_equal_self r.secrets,
)

-- Once recovery is required, further updates are refused and call no port.
run-stopped :
    (p : Ports) (requests : List WifiUpdate) (t : Transaction)
    → IsFree t
    → t.recovery_required ≡ true
    → run p requests t ≡ (0, t)
unfolding run is_committed
run-stopped p [] t f h = refl
run-stopped p (request ∷ requests) t f h =
    rw (recovery_required_stops p request none t f h).0 (rw (run-stopped p requests t f h) refl)

module _ {S : Type 0} (nvs : Nvs S) (around : Surroundings S) (start : S) (separate : Separate nvs)
    (keyed : Keyed nvs) (others : OthersKeep nvs around) where
  abbrev p : Ports
  p = storage_ports nvs around start

  abbrev flash : List Call → S
  flash calls = flash_after nvs around start calls

  pending : S → Outcome Bool
  pending s = reset_is_pending (nvs.look s meta_space)

  abbrev at : List Call → S
  at calls = flash_at nvs around start calls

  at-pending :
      (calls : List Call)
      → pending (flash calls) ≡ pending start
      → pending (at calls) ≡ pending start
  unfolding pending OthersKeep Elsewhere
  at-pending calls h =
      ap reset_is_pending (others calls (flash calls) meta_space (λ q. ground arith)) ∙ h

  flash-pending : (calls : List Call) → pending (flash calls) ≡ pending start
  unfolding flash_after pending
  flash-pending [] = refl
  flash-pending (staged slot r b ∷ calls) =
      ap reset_is_pending (stage_record-meta nvs separate (around.busy calls) slot r (at calls))
      ∙ at-pending calls (flash-pending calls)
  flash-pending (activated r slot revision a ∷ calls) =
      activate_record-pending nvs separate (around.busy calls) r slot revision (at calls) keyed
      ∙ at-pending calls (flash-pending calls)
  flash-pending (discarded slot b ∷ calls) =
      ap reset_is_pending (discard_record-meta nvs separate (around.busy calls) slot (at calls))
      ∙ at-pending calls (flash-pending calls)
  flash-pending (verified slot r b ∷ calls) = at-pending calls (flash-pending calls)
  flash-pending (trial_connected w b ∷ calls) = at-pending calls (flash-pending calls)
  flash-pending (restore_connected w b ∷ calls) = at-pending calls (flash-pending calls)
  flash-pending (quarantined ∷ calls) = at-pending calls (flash-pending calls)

  -- The state of a transaction agrees with the flash, unless recovery is required.
  IsSynced : Transaction → Type 0
  IsSynced t =
      Genuine p t.calls × (IsStored nvs (flash t.calls) t.active ⊎ (t.recovery_required ≡ true))

  apply_wifi-IsSynced :
      (request : WifiUpdate) (t : Transaction)
      → IsFree t
      → IsValid t
      → IsSynced t
      → IsSynced (apply_wifi p request none t).2
  unfolding IsSynced
  apply_wifi-IsSynced request t f v (g, inr h) =
      let same = ap (λ x. x.2) (recovery_required_stops p request none t f h).0 in
      subst IsSynced (sym same) (g, inr h)
  apply_wifi-IsSynced request t f v (g, inl h) =
      let g' = apply_wifi-Genuine p request t f g in
      elim (apply_wifi-Ending p request none t f v) [
        | refused c same ↦ subst IsSynced (sym same) (g, inl h)
        | attempted new ready n protocol f' ↦
            (g', Protocol-IsStored nvs around start separate others protocol g' n.new_bounded h)
      ]

  run-IsSynced :
      (requests : List WifiUpdate) (t : Transaction)
      → IsFree t
      → IsValid t
      → IsSynced t
      → IsSynced (run p requests t).1
  unfolding run
  run-IsSynced [] t f v h = h
  run-IsSynced (request ∷ requests) t f v h =
      run-IsSynced requests (apply_wifi p request none t).2 (apply_wifi-IsFree p request none t f v)
        (apply_wifi-IsValid p request none t f v) (apply_wifi-IsSynced request t f v h)

  -- What the flash holds after the updates, unless recovery is required.
  pub run-storage_ports_flash :
      (requests : List WifiUpdate) (t : Transaction) (active : Record)
      → t.calls ≡ []
      → t.lifecycle_locked ≡ false
      → active.revision ≤ u32_max
      → (transaction_init t active true).0 ≡ true
      → durable nvs start ≡ got active
      → reset_is_pending (nvs.look start meta_space) ≡ got false
      → let (n, t') =
          run (storage_ports nvs around start) requests (transaction_init t active true).1 in
        let s = flash_after nvs around start t'.calls in
        ((found : Record) × (records_equal found t'.active ≡ true)
          × (found.revision ≡ active.revision + n)
          × (durable nvs s ≡ got found)
          × (reset_is_pending (nvs.look s meta_space) ≡ got false))
        ⊎ (t'.recovery_required ≡ true)
  unfolding IsSynced IsStored flash_after pending
  run-storage_ports_flash requests t active none_made l b h e none_pending =
      let t₀ = (transaction_init t active true).1 in
      let t' = (run p requests t₀).1 in
      let (f, w, same) = init-facts t active l h in
      let v = init-IsValid t active l b h in
      let (whole_free, whole, count, bounded) = run-init-IsWhole p requests t active l b h in
      let calls = init-calls t active ∙ none_made in
      let synced : IsSynced t₀ = (
        subst (Genuine p) (sym calls) no_call,
        inl (
            subst (λ made. IsStored nvs (flash made) t₀.active) (sym calls)
              (subst (IsStored nvs (flash [])) (sym same) (active, e, records_equal_self active))),
      ) in
      elim (run-IsSynced requests t₀ f v synced).1 [
        | inr required ↦ inr required
        | inl (found, stored, equal) ↦ inl (
          found,
          equal,
          records_equal-revision found _ equal ∙ count,
          stored,
          flash-pending t'.calls ∙ none_pending,
        )
      ]

  -- Over a storage that keeps namespaces and keys apart, from a start without a pending reset and a
  -- `transaction_init` with the record that the head selects, whose revision has 32 bits, with the
  -- lifecycle lock free and no call made before, after any updates over the slots: the loading of the next start answers a record equal to
  -- the active one, with the revision that the committed updates gave, or an error when the settings of
  -- the first layout cannot be discarded; or recovery is required, and any further updates are refused
  -- and leave the transaction, with the calls it has made, as it is. This holds whatever writes fail,
  -- whatever the network and the lock of the storage answer, and whatever other tasks write in the
  -- namespace of the first layout. What is read of the flash is what was written last, committed or
  -- not.
  pub run-storage_ports :
      (requests more : List WifiUpdate) (t : Transaction) (active : Record)
      (load_first_layout : S → Outcome (Option Record) × S)
      → t.calls ≡ []
      → t.lifecycle_locked ≡ false
      → active.revision ≤ u32_max
      → (transaction_init t active true).0 ≡ true
      → durable nvs start ≡ got active
      → reset_is_pending (nvs.look start meta_space) ≡ got false
      → let ports = storage_ports nvs around start in
        let (n, t') = run ports requests (transaction_init t active true).1 in
        let s = flash_after nvs around start t'.calls in
        ((found : Record) × (records_equal found t'.active ≡ true)
          × (found.revision ≡ active.revision + n)
          × Loads nvs s found (load_active_record nvs load_first_layout false s).0)
        ⊎ ((t'.recovery_required ≡ true) × (run ports more t' ≡ (0, t')))
  run-storage_ports requests more t active load_first_layout none_made l b h e none_pending =
      let t' = (run p requests (transaction_init t active true).1).1 in
      let s = flash t'.calls in
      elim (run-storage_ports_flash requests t active none_made l b h e none_pending) [
        | inr required ↦
            let free = (run-init-IsWhole p requests t active l b h).0 in
            inr (required, run-stopped p more t' free required)
        | inl (found, equal, revision, stored, pending) ↦ inl (
          found,
          equal,
          revision,
          load_active_record-Loads nvs load_first_layout s found pending stored,
        )
      ]

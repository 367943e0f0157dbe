-- ===== src/Storage/Ports.antt =====
-- components/config_store/src/aiqa_config_nvs_ab.c: `aiqa_config_nvs_storage_ports`, which connects the
-- slots to the transaction of components/config_store/src/aiqa_config_transaction.c. The flash is what
-- the calls made so far have left of the first one, and what other tasks have written in between.
use waveshare.Prelude.{Bool, List, [], ◌∷◌}
use waveshare.Config.{WifiCredentials}
use waveshare.Config.Transaction.{
  Call, staged, verified, activated, discarded, trial_connected, restore_connected, quarantined,
  Ports,
}
use waveshare.Storage.Nvs.{Nvs, is_ok}
use waveshare.Storage.Slots.{stage_record, verify_record, activate_record}
use waveshare.Storage.Erase.{discard_record}

-- What else decides: whether another task holds the lock of the storage at a call, what the other tasks
-- have written since the call before, and the network.
pub record Surroundings (S : Type 0) : Type 0 where
  pub busy : List Call → Bool
  pub others : List Call → S → S
  pub trial_connect : List Call → WifiCredentials → Bool
  pub restore_connect : List Call → WifiCredentials → Bool

module _ {S : Type 0} (nvs : Nvs S) (around : Surroundings S) (start : S) where
  -- The flash after the calls, newest first.
  unfoldable pub flash_after : List Call → S
  flash_after [] = start
  flash_after (c ∷ calls) =
      let s = around.others calls (flash_after calls) in
      elim c [
        | staged slot r b ↦ (stage_record nvs (around.busy calls) slot r s).1
        | activated r slot revision a ↦
            (activate_record nvs (around.busy calls) r slot revision s).1
        | discarded slot b ↦ (discard_record nvs (around.busy calls) slot s).1
        | verified slot r b ↦ s
        | trial_connected w b ↦ s
        | restore_connected w b ↦ s
        | quarantined ↦ s
      ]

  -- The flash that the next call finds.
  abbrev pub flash_at : List Call → S
  flash_at calls = around.others calls (flash_after calls)

  unfoldable pub storage_ports : Ports
  storage_ports = record {
    stage = λ calls slot r. is_ok (stage_record nvs (around.busy calls) slot r (flash_at calls)).0;
    verify = λ calls slot r. is_ok (verify_record nvs (flash_at calls) slot r);
    activate = λ calls r slot revision.
        (activate_record nvs (around.busy calls) r slot revision (flash_at calls)).0;
    discard = λ calls slot. (discard_record nvs (around.busy calls) slot (flash_at calls)).0;
    trial_connect = around.trial_connect;
    restore_connect = around.restore_connect;
  }

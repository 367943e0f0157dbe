-- ===== src/Storage/Load.antt =====
-- components/config_store/src/aiqa_config_nvs_ab.c: `load_active_record_unlocked`, the loading at a start.
use waveshare.Prelude.{Bool, true, false, Option, none, some}
use waveshare.Config.Transaction.{Record}
use waveshare.Storage.Nvs.{meta_space, Err, Outcome, got, failed, not_found, Nvs}
use waveshare.Storage.Slots.{read_head}
use waveshare.Storage.Erase.{load_headed_record}
use waveshare.Storage.Reset.{reset_is_pending, complete_pending_reset}

-- ESP_OK, with `*found` false.
abbrev pub nothing_found : Option Err → Outcome (Option Record)
nothing_found none = got none
nothing_found (some e) = failed e

abbrev pub found_record : Outcome Record → Outcome (Option Record)
found_record (got r) = got (some r)
found_record (failed e) = failed e

module _ {S : Type 0} (nvs : Nvs S) where
  -- None is that no record was found. `load_first_layout` is the branch without a head, which reads the
  -- settings of the first layout and migrates them.
  unfoldable pub load_active_record :
      (load_first_layout : S → Outcome (Option Record) × S) → Bool → S → Outcome (Option Record) × S
  load_active_record load_first_layout busy s = elim (reset_is_pending (nvs.look s meta_space)) [
    | failed e ↦ (failed e, s)
    | got true ↦ let (err, s') = complete_pending_reset nvs busy s in (nothing_found err, s')
    | got false ↦ elim (read_head nvs s) [
      | failed not_found ↦ load_first_layout s
      | failed e ↦ (failed e, s)
      | got head ↦ let (r, s') = load_headed_record nvs busy s in (found_record r, s')
    ]
  ]

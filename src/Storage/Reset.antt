-- ===== src/Storage/Reset.antt =====
-- components/config_store/src/aiqa_config_nvs_ab.c: the factory reset, in two steps: a tombstone is
-- written beside the head, and then every namespace is erased, the one of the tombstone last.
use waveshare.Prelude.{
  Bool, true, false, not, List, [], ◌∷◌, Option, none, some, ◌==◌, if◌then◌else◌,
}
use waveshare.Storage.Nvs.{
  Namespace, legacy_space, slot_a_space, slot_b_space, meta_space, Err, not_found, invalid_state,
  Outcome, got, failed, u8, Look, open_write, erase_all, commit_writes, set_num, Nvs, write_all,
  unless_failed,
}

-- Whether a tombstone is there; the error, if that cannot be told.
unfoldable pub reset_is_pending : Look → Outcome Bool
reset_is_pending look = elim (look.opened) [
  | some not_found ↦ got false
  | some e ↦ failed e
  | none ↦ elim (look.num u8 "reset") [
    | failed not_found ↦ got false
    | failed e ↦ failed e
    | got reset ↦ got (not (reset == 0))
  ]
]

-- Whether a tombstone that was written can be read back.
unfoldable pub tombstone_result : Outcome Bool → Option Err
tombstone_result (got true) = none
tombstone_result _ = some invalid_state

module _ {S : Type 0} (nvs : Nvs S) where
  unfoldable pub erase_namespace : Namespace → S → Option Err × S
  erase_namespace n s = write_all nvs n (open_write ∷ erase_all ∷ commit_writes ∷ []) s

  -- The namespaces of a list, up to the first that cannot be erased.
  unfoldable pub erase_namespaces : List Namespace → S → Option Err × S
  erase_namespaces [] s = (none, s)
  erase_namespaces (n ∷ spaces) s =
      let (err, s') = erase_namespace n s in unless_failed err s' (erase_namespaces spaces s')

  unfoldable pub complete_pending_reset_locked : S → Option Err × S
  complete_pending_reset_locked s =
      erase_namespaces (legacy_space ∷ slot_a_space ∷ slot_b_space ∷ meta_space ∷ []) s

  unfoldable pub complete_pending_reset : Bool → S → Option Err × S
  complete_pending_reset busy s =
      if busy then (some invalid_state, s) else complete_pending_reset_locked s

  unfoldable pub write_reset_tombstone : S → Option Err × S
  write_reset_tombstone s =
      let (ret, s') =
        write_all nvs meta_space (open_write ∷ set_num u8 "reset" 1 ∷ commit_writes ∷ []) s in
      unless_failed ret s' (tombstone_result (reset_is_pending (nvs.look s' meta_space)), s')

  -- `aiqa_config_erase_nvs_namespace`: `lifecycle_busy` and `busy` are whether the two locks are held.
  unfoldable pub erase_nvs_namespace : Bool → Bool → S → Option Err × S
  erase_nvs_namespace lifecycle_busy busy s =
      let (err, s') = write_reset_tombstone s in
      if lifecycle_busy
      then (some invalid_state, s)
      else if busy
      then (some invalid_state, s)
      else unless_failed err s' (complete_pending_reset_locked s')

-- ===== src/Storage/Slots.antt =====
-- components/config_store/src/aiqa_config_nvs_ab.c: the head, and the four storage ports of an update.
-- `busy` is whether another task holds the lock of the storage: each operation takes it and gives it
-- back on every path, so that two of them never overlap.
use waveshare.Prelude.{
  ℕ, ◌+◌, ◌*◌, ◌/◌, ◌%◌, ◌^◌, Bool, true, false, not, ◌&&◌, ◌||◌, [], ◌∷◌, ◌++◌, Option, none, some,
  ltb, ◌==◌, if◌then◌else◌, u32_max,
}
use waveshare.Config.{is_secret_ok, secret_config_validate}
use waveshare.Config.Validate.{config_validate, is_config_ok}
use waveshare.Config.Transaction.{
  Slot, legacy, slot_a, slot_b, Record, Activation, indeterminate, committed, not_committed,
}
use waveshare.Storage.Nvs.{
  Namespace, slot_a_space, slot_b_space, meta_space, Err, not_found, invalid_state, invalid_arg,
  Outcome, got, failed, is_ok, is_not_found, u32, u64, Look, open_write, erase_all, commit_writes,
  set_num, Nvs, write_all,
}
use waveshare.Storage.Fields.{record_writes, read_record_fields, same_slot, records_equal}

unfoldable pub slot_namespace : Slot → Option Namespace
slot_namespace slot_a = some slot_a_space
slot_namespace slot_b = some slot_b_space
slot_namespace legacy = none

unfoldable pub encode_head : Slot → ℕ → ℕ
encode_head slot revision = revision * 2 % 2 ^ 64 + (if same_slot slot slot_b then 1 else 0)

-- None is a head that names no slot.
unfoldable pub decode_head : ℕ → Option (Slot × ℕ)
decode_head head =
    let stored_revision = head / 2 in
    if stored_revision == 0 || ltb u32_max stored_revision
    then none
    else some (if head % 2 == 0 then slot_a else slot_b, stored_revision)

-- A namespace that must be open to read.
abbrev pub opening {ℓ} : {A : Type ℓ} → Look → Outcome A → Outcome A
opening look rest = elim (look.opened) [ none ↦ rest | some e ↦ failed e ]

unfoldable pub load_from : Look → Slot → Outcome Record
load_from look slot = opening look (read_record_fields look slot)

-- Whether the head lets a slot be staged: the error, if not.
unfoldable pub stage_refusal : Slot → Outcome ℕ → Option Err
stage_refusal slot (got head) = elim (decode_head head) [
  | none ↦ some invalid_state
  | some (active_slot, revision) ↦ if same_slot active_slot slot then some invalid_state else none
]
stage_refusal slot (failed not_found) = none
stage_refusal slot (failed e) = some e

-- Whether the head lets a slot be discarded.
unfoldable pub may_discard : Slot → Outcome ℕ → Bool
may_discard slot (got head) = elim (decode_head head) [
  | none ↦ false
  | some (active_slot, revision) ↦ not (same_slot active_slot slot)
]
may_discard slot (failed not_found) = not (same_slot slot legacy)
may_discard slot (failed e) = false

-- Whether a slot that was erased is gone: its namespace, or its layout.
unfoldable pub is_gone : Look → Bool
is_gone look = is_not_found (opening look (look.num u32 "layout"))

unfoldable pub valid_successor : Record → Slot → ℕ → Bool
valid_successor candidate expected_slot expected_revision =
    (same_slot expected_slot legacy
      && same_slot candidate.active_slot slot_a
      && candidate.revision == 1
      && expected_revision == 1)
    || (not (same_slot expected_slot legacy)
        && not (same_slot candidate.active_slot expected_slot)
        && not (expected_revision == u32_max)
        && candidate.revision == expected_revision + 1)

unfoldable pub expected_head_matches : Outcome ℕ → Slot → ℕ → Bool
expected_head_matches (got previous) slot revision =
    not (same_slot slot legacy) && previous == encode_head slot revision
expected_head_matches (failed not_found) slot revision = same_slot slot legacy
expected_head_matches (failed e) slot revision = false

-- The answer to an activation, by the head that is read back.
unfoldable pub activation_of : ℕ → Outcome ℕ → Outcome ℕ → Activation
activation_of target (got previous) (got durable) =
    if durable == target
    then committed
    else if durable == previous
    then not_committed
    else indeterminate
activation_of target (failed e) (got durable) =
    if durable == target then committed else indeterminate
activation_of target (failed not_found) (failed not_found) = not_committed
activation_of target _ _ = indeterminate

abbrev pub is_unreadable {ℓ} : {A : Type ℓ} → Outcome A → Bool
is_unreadable (got a) = false
is_unreadable (failed not_found) = false
is_unreadable (failed e) = true

module _ {S : Type 0} (nvs : Nvs S) where
  unfoldable pub read_head : S → Outcome ℕ
  read_head s = let look = nvs.look s meta_space in opening look (look.num u64 "head")

  unfoldable pub load_slot_record : S → Slot → Outcome Record
  load_slot_record s slot = elim (slot_namespace slot) [
    | none ↦ failed invalid_arg
    | some n ↦ load_from (nvs.look s n) slot
  ]

  -- Whether a slot holds a record: the error, if not.
  unfoldable pub compare_slot : S → Slot → Record → Option Err
  compare_slot s slot expected = elim (load_slot_record s slot) [
    | failed e ↦ some e
    | got actual ↦ if records_equal actual expected then none else some invalid_state
  ]

  unfoldable pub verify_record : S → Slot → Record → Option Err
  verify_record s slot expected =
      if same_slot slot legacy || not (same_slot expected.active_slot slot)
      then some invalid_arg
      else compare_slot s slot expected

  -- The writing of a slot, which counts if it reads back as the record.
  unfoldable pub stage_fields : Namespace → Slot → Record → S → Option Err × S
  stage_fields n slot r s =
      let (ret, s') =
        write_all nvs n (open_write ∷ erase_all ∷ record_writes r ++ commit_writes ∷ []) s in
      (
        elim (compare_slot s' slot r) [ none ↦ none | some e ↦ if is_ok ret then some e else ret ],
        s',
      )

  unfoldable pub stage_record : Bool → Slot → Record → S → Option Err × S
  stage_record busy slot r s = elim (slot_namespace slot) [
    | none ↦ (some invalid_arg, s)
    | some n ↦
        if not (same_slot r.active_slot slot)
          || r.revision == 0
          || not (is_config_ok (config_validate r.config))
          || not (is_secret_ok (secret_config_validate r.secrets))
        then (some invalid_arg, s)
        else if busy
        then (some invalid_state, s)
        else elim (stage_refusal slot (read_head s)) [
          | some e ↦ (some e, s)
          | none ↦ stage_fields n slot r s
        ]
  ]

  -- The writing of a head over the one that was read before.
  unfoldable pub write_head : ℕ → Outcome ℕ → S → Activation × S
  write_head target previous s =
      let s' =
        (write_all nvs meta_space (open_write ∷ set_num u64 "head" target ∷ commit_writes ∷ [])
          s).1 in
      (activation_of target previous (read_head s'), s')

  unfoldable pub activate_record : Bool → Record → Slot → ℕ → S → Activation × S
  activate_record busy candidate expected_slot expected_revision s =
      let previous = read_head s in
      if same_slot candidate.active_slot legacy || candidate.revision == 0 || expected_revision == 0
      then (indeterminate, s)
      else if not (valid_successor candidate expected_slot expected_revision) || busy
      then (not_committed, s)
      else if not (is_ok (compare_slot s candidate.active_slot candidate))
      then (not_committed, s)
      else if is_unreadable previous
      then (indeterminate, s)
      else if not (expected_head_matches previous expected_slot expected_revision)
      then (not_committed, s)
      else write_head (encode_head candidate.active_slot candidate.revision) previous s

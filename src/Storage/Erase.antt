-- ===== src/Storage/Erase.antt =====
-- components/config_store/src/aiqa_config_nvs.c: the erasure of the settings of the first layout, and
-- components/config_store/src/aiqa_config_nvs_ab.c: the discarding of a slot, and the loading of the
-- record that a head selects, which discards that layout.
use Prim.Native.String.{String}
use waveshare.Prelude.{
  ℕ, Bool, true, false, not, ◌&&◌, List, [], ◌∷◌, Option, none, some, ◌==◌, if◌then◌else◌,
}
use waveshare.Config.Transaction.{Slot, legacy, Record}
use waveshare.Storage.Nvs.{
  Namespace, legacy_space, Err, not_found, invalid_state, Outcome, got, failed, is_ok, Look,
  open_write, erase_all, commit_writes, erase_key, Nvs, write_all, unless_failed,
}
use waveshare.Storage.Slots.{
  slot_namespace, decode_head, may_discard, is_gone, read_head, load_slot_record,
}

abbrev pub record_keys : List String
record_keys =
    "version" ∷ "provider" ∷ "model" ∷ "base_url" ∷ "asr_provider" ∷ "asr_model" ∷ "asr_base_url"
    ∷ "tts_provider" ∷ "tts_model" ∷ "tts_base_url" ∷ "tts_voice" ∷ "stream" ∷ "hide_reason"
    ∷ "max_tokens" ∷ "wifi_ssid" ∷ "wifi_pass" ∷ "chat_key" ∷ "asr_key" ∷ []

abbrev pub secret_keys : List String
secret_keys = "wifi_ssid" ∷ "wifi_pass" ∷ "chat_key" ∷ "asr_key" ∷ []

-- The second loop of the erasure: no secret may be there.
unfoldable pub no_secret : Look → List String → Option Err
no_secret look [] = none
no_secret look (key ∷ keys) =
    let rest = no_secret look keys in
    elim (look.str_length key) [
      | got required ↦ some invalid_state
      | failed not_found ↦ rest
      | failed e ↦ some e
    ]

-- The check after the erasure.
unfoldable pub legacy_is_erased : Look → Option Err
legacy_is_erased look = elim (look.opened) [
  | none ↦ no_secret look secret_keys
  | some not_found ↦ none
  | some e ↦ some e
]

module _ {S : Type 0} (nvs : Nvs S) where
  -- The loop over the keys, with whether one was erased.
  unfoldable pub erase_keys : List String → Bool → S → Option Err × Bool × S
  erase_keys [] changed s = (none, changed, s)
  erase_keys (key ∷ keys) changed s =
      let (err, s') = nvs.write legacy_space (erase_key key) s in
      elim err [
        | none ↦ erase_keys keys true s'
        | some not_found ↦ erase_keys keys changed s'
        | some e ↦ (some e, changed, s')
      ]

  -- The erasure in a namespace that is open.
  unfoldable pub erase_record : S → Option Err × S
  erase_record s =
      let (err, changed, s₁) = erase_keys record_keys false s in
      let (ret, s₂) =
        (if is_ok err && changed then nvs.write legacy_space commit_writes s₁ else (err, s₁)) in
      unless_failed ret s₂ (legacy_is_erased (nvs.look s₂ legacy_space), s₂)

  unfoldable pub erase_legacy_record : S → Option Err × S
  erase_legacy_record s =
      let (err, s') = nvs.write legacy_space open_write s in
      elim err [ none ↦ erase_record s' | some not_found ↦ (none, s') | some e ↦ (some e, s') ]

  unfoldable pub erase_slot : Namespace → S → Bool × S
  erase_slot n s =
      let (ret, s') = write_all nvs n (open_write ∷ erase_all ∷ commit_writes ∷ []) s in
      (is_ok ret && is_gone (nvs.look s' n), s')

  -- `discard_record` of a slot that the head does not select.
  unfoldable pub discard_slot : Slot → S → Bool × S
  discard_slot slot s = elim (slot_namespace slot) [
    | none ↦ let (err, s') = erase_legacy_record s in (is_ok err, s')
    | some n ↦ erase_slot n s
  ]

  unfoldable pub discard_record : Bool → Slot → S → Bool × S
  discard_record busy slot s =
      if busy
      then (false, s)
      else if not (may_discard slot (read_head nvs s))
      then (false, s)
      else discard_slot slot s

  -- The record that a head selects: the part of `load_active_record_unlocked` up to its revision.
  unfoldable pub selected_record : Outcome ℕ → S → Outcome Record
  selected_record (failed e) s = failed e
  selected_record (got head) s = elim (decode_head head) [
    | none ↦ failed invalid_state
    | some (slot, revision) ↦ elim (load_slot_record nvs s slot) [
      | failed e ↦ failed e
      | got r ↦ if r.revision == revision then got r else failed invalid_state
    ]
  ]

  -- Its rest: the record counts once the first layout is erased.
  unfoldable pub load_headed_record : Bool → S → Outcome Record × S
  load_headed_record busy s = elim (selected_record (read_head nvs s) s) [
    | failed e ↦ (failed e, s)
    | got r ↦
        let (was_discarded, s') = discard_record busy legacy s in
        (if was_discarded then got r else failed invalid_state, s')
  ]

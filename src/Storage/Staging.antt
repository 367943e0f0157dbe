-- ===== src/Storage/Staging.antt =====
-- Staging a record in a slot.
use waveshare.Prelude.{◌≡◌, Bool, [], ◌∷◌, ◌++◌, Option, none, some, if◌then◌else◌, if_keeps, arith}
use waveshare.Config.Transaction.{Slot, legacy, slot_a, slot_b, Record}
use waveshare.Storage.Nvs.{
  Err, invalid_state, invalid_arg, open_write, erase_all, commit_writes, Nvs, Separate,
}
use waveshare.Storage.Fields.{record_writes}
use waveshare.Storage.Slots.{
  slot_namespace, stage_refusal, read_head, compare_slot, stage_fields, stage_record,
}
use waveshare.Storage.Durable.{
  stage_refusal-IsSpare, space_of, unless_refused_keeps, Kept, Kept-refl, spare-Kept,
  write_all-Elsewhere,
}

module _ {S : Type 0} (nvs : Nvs S) where
  -- What staging a slot gives, when it is a spare one.
  Staged : Slot → Record → S → Option Err × S → Type 0
  Staged slot r s (err, s') = Kept nvs s s' × (err ≡ none → compare_slot nvs s' slot r ≡ none)

  unstaged : (slot : Slot) (r : Record) (s : S) (e : Err) → Staged slot r s (some e, s)
  unfolding Staged
  unstaged slot r s e = (Kept-refl nvs s, λ q. absurd (ground arith))

  stage_fields-Staged :
      (slot : Slot) (r : Record) (s : S)
      → Separate nvs
      → stage_refusal slot (read_head nvs s) ≡ none
      → Staged slot r s (stage_fields nvs (space_of slot) slot r s)
  unfolding Staged stage_fields
  stage_fields-Staged slot r s separate h = (
    spare-Kept nvs slot s _
        (write_all-Elsewhere nvs (space_of slot)
          (open_write ∷ erase_all ∷ record_writes r ++ commit_writes ∷ []) s separate)
        (stage_refusal-IsSpare slot (read_head nvs s) h),
    λ q. ground arith,
  )

  stage_slot-Staged :
      (busy bad : Bool) (slot : Slot) (r : Record) (s : S)
      → Separate nvs
      → Staged slot r s (
          if bad
          then (some invalid_arg, s)
          else if busy
          then (some invalid_state, s)
          else elim (stage_refusal slot (read_head nvs s)) [
            | some e ↦ (some e, s)
            | none ↦ stage_fields nvs (space_of slot) slot r s
          ])
  stage_slot-Staged busy bad slot r s separate =
      if_keeps (Staged slot r s) bad (unstaged slot r s invalid_arg) (
        if_keeps (Staged slot r s) busy (unstaged slot r s invalid_state) (
          unless_refused_keeps (Staged slot r s) (stage_refusal slot (read_head nvs s))
            (unstaged slot r s) (stage_fields-Staged slot r s separate)))

  -- Staging never changes the head nor the record that it selects, whether it succeeds, is refused or
  -- fails halfway; and if it succeeds, the slot reads back as the record.
  pub stage_record_keeps :
      (busy : Bool) (slot : Slot) (r : Record) (s : S)
      → Separate nvs
      → let (err, s') = stage_record nvs busy slot r s in
        Kept nvs s s' × (err ≡ none → compare_slot nvs s' slot r ≡ none)
  unfolding stage_record Staged slot_namespace space_of
  stage_record_keeps busy legacy r s separate = unstaged legacy r s invalid_arg
  stage_record_keeps busy slot_a r s separate = stage_slot-Staged busy _ slot_a r s separate
  stage_record_keeps busy slot_b r s separate = stage_slot-Staged busy _ slot_b r s separate

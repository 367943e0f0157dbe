-- ===== src/Storage/Pending.antt =====
-- The tombstone of a reset, under the operations on the slots.
use waveshare.Prelude.{
  ℕ, ◌≡◌, ◌≢◌, refl, sym, ◌∙◌, ◌==◌, ap, Bool, true, false, not, ◌||◌, [], ◌∷◌, ◌++◌, Option, none,
  some, if_keeps, if◌then◌else◌, arith,
}
use waveshare.Config.Transaction.{
  Slot, legacy, slot_a, slot_b, Record, Activation, indeterminate, not_committed,
}
use waveshare.Storage.Nvs.{
  Namespace, meta_space, Err, invalid_state, invalid_arg, not_found, Outcome, got, failed, is_ok,
  u8, u64, Look, open_write, erase_all, commit_writes, set_num, Nvs, Separate, Keyed, reading,
  write_all, look-write_all, unless_failed-keeps, slot_a_space, slot_b_space, other_error,
}
use waveshare.Storage.Fields.{record_writes, same_slot}
use waveshare.Storage.Slots.{
  slot_namespace, stage_refusal, read_head, stage_fields, stage_record, write_head, activate_record,
  may_discard, valid_successor, compare_slot, is_unreadable, expected_head_matches, encode_head,
}
use waveshare.Storage.Erase.{discard_slot, discard_record}
use waveshare.Storage.Reset.{reset_is_pending}
use waveshare.Storage.Durable.{unless_refused_keeps, Elsewhere}
use waveshare.Storage.Discarding.{erase_legacy_record-Elsewhere, erase_slot-Elsewhere}

pending_of : Outcome ℕ → Outcome Bool
pending_of (failed not_found) = got false
pending_of (failed e) = failed e
pending_of (got reset) = got (not (reset == 0))

pending_by :
    (opened : Option Err) (value : Outcome ℕ)
    → elim opened [
      | some not_found ↦ got false
      | some e ↦ failed e
      | none ↦ elim value [
        | failed not_found ↦ got false
        | failed e ↦ failed e
        | got reset ↦ got (not (reset == 0))
      ]
    ]
      ≡ pending_of (elim opened [ none ↦ value | some e ↦ failed e ])
unfolding pending_of
pending_by none (got n) = refl
pending_by none (failed not_found) = refl
pending_by none (failed invalid_state) = refl
pending_by none (failed invalid_arg) = refl
pending_by none (failed (other_error n)) = refl
pending_by (some not_found) value = refl
pending_by (some invalid_state) value = refl
pending_by (some invalid_arg) value = refl
pending_by (some (other_error n)) value = refl

pending-same :
    (l l' : Look)
    → reading l' u8 "reset" ≡ reading l u8 "reset"
    → reset_is_pending l' ≡ reset_is_pending l
unfolding reset_is_pending
pending-same l l' e =
    pending_by l'.opened (l'.num u8 "reset")
    ∙ ap pending_of e
    ∙ sym (pending_by l.opened (l.num u8 "reset"))

module _ {S : Type 0} (nvs : Nvs S) (separate : Separate nvs) where
  Same : S → S → Type 0
  Same s s' = nvs.look s' meta_space ≡ nvs.look s meta_space

  staged_meta :
      (busy bad : Bool) (slot : Slot) (n : Namespace) (r : Record) (s : S)
      → meta_space ≢ n
      → let (err, s') =
          if bad
          then (some invalid_arg, s)
          else if busy
          then (some invalid_state, s)
          else elim (stage_refusal slot (read_head nvs s)) [
            | some e ↦ (some e, s)
            | none ↦ stage_fields nvs n slot r s
          ] in
        Same s s'
  unfolding Same stage_fields
  staged_meta busy bad slot n r s other =
      let Keeps : Option Err × S → Type 0 = λ x. Same s x.1 in
      if_keeps Keeps bad refl (
        if_keeps Keeps busy refl (
          unless_refused_keeps Keeps (stage_refusal slot (read_head nvs s)) (λ e. refl)
            (λ q.
              look-write_all nvs n meta_space
                (open_write ∷ erase_all ∷ record_writes r ++ commit_writes ∷ []) s separate other)))

  -- Staging writes nothing beside the head.
  pub stage_record-meta :
      (busy : Bool) (slot : Slot) (r : Record) (s : S)
      → nvs.look (stage_record nvs busy slot r s).1 meta_space ≡ nvs.look s meta_space
  unfolding stage_record stage_fields slot_namespace Same
  stage_record-meta busy legacy r s = refl
  stage_record-meta busy slot_a r s = staged_meta busy _ slot_a slot_a_space r s (λ q. ground arith)
  stage_record-meta busy slot_b r s = staged_meta busy _ slot_b slot_b_space r s (λ q. ground arith)

  discard_slot-meta : (slot : Slot) (s : S) → Same s (discard_slot nvs slot s).1
  unfolding Same discard_slot slot_namespace Elsewhere
  discard_slot-meta legacy s =
      erase_legacy_record-Elsewhere nvs s separate meta_space (λ q. ground arith)
  discard_slot-meta slot_a s =
      erase_slot-Elsewhere nvs slot_a_space s separate meta_space (λ q. ground arith)
  discard_slot-meta slot_b s =
      erase_slot-Elsewhere nvs slot_b_space s separate meta_space (λ q. ground arith)

  pub discard_record-meta :
      (busy : Bool) (slot : Slot) (s : S)
      → nvs.look (discard_record nvs busy slot s).1 meta_space ≡ nvs.look s meta_space
  unfolding discard_record Same
  discard_record-meta busy slot s =
      let Keeps : Bool × S → Type 0 = λ x. Same s x.1 in
      if_keeps Keeps busy refl
        (if_keeps Keeps (not (may_discard slot (read_head nvs s))) refl (discard_slot-meta slot s))

  head_writes-reading :
      (target : ℕ) (s : S)
      → Keyed nvs
      → let s' =
          (write_all nvs meta_space
            (open_write ∷ set_num u64 "head" target ∷ commit_writes ∷ [])
            s).1 in
        reading (nvs.look s' meta_space) u8 "reset" ≡ reading (nvs.look s meta_space) u8 "reset"
  unfolding write_all Keyed
  head_writes-reading target s keyed =
      let (e₁, s₁) = nvs.write meta_space open_write s in
      let (e₂, s₂) = nvs.write meta_space (set_num u64 "head" target) s₁ in
      let (e₃, s₃) = nvs.write meta_space commit_writes s₂ in
      let P : S → Type 0 = λ x.
        reading (nvs.look x meta_space) u8 "reset" ≡ reading (nvs.look s meta_space) u8 "reset" in
      let first = keyed meta_space open_write s u8 "reset" refl in
      let second = keyed meta_space (set_num u64 "head" target) s₁ u8 "reset" refl ∙ first in
      let third = keyed meta_space commit_writes s₂ u8 "reset" refl ∙ second in
      unless_failed-keeps P e₁ s₁ _ first
        (unless_failed-keeps P e₂ s₂ _ second (unless_failed-keeps P e₃ s₃ (none, s₃) third third))

  write_head-pending :
      (target : ℕ) (previous : Outcome ℕ) (s : S)
      → Keyed nvs
      → reset_is_pending (nvs.look (write_head nvs target previous s).1 meta_space)
        ≡ reset_is_pending (nvs.look s meta_space)
  unfolding write_head
  write_head-pending target previous s keyed = pending-same _ _ (head_writes-reading target s keyed)

  -- A property of the end of an activation, whichever of its five checks stops it.
  checked-keeps :
      (P : Activation × S → Type 0) (s : S) (x : Activation × S)
      (invalid refused damaged unreadable mismatch : Bool)
      → ((activation : Activation) → P (activation, s))
      → P x
      → P (
          if invalid
          then (indeterminate, s)
          else if refused
          then (not_committed, s)
          else if damaged
          then (not_committed, s)
          else if unreadable
          then (indeterminate, s)
          else if mismatch
          then (not_committed, s)
          else x)
  checked-keeps P s x true refused damaged unreadable mismatch stays h = stays indeterminate
  checked-keeps P s x false true damaged unreadable mismatch stays h = stays not_committed
  checked-keeps P s x false false true unreadable mismatch stays h = stays not_committed
  checked-keeps P s x false false false true mismatch stays h = stays indeterminate
  checked-keeps P s x false false false false true stays h = stays not_committed
  checked-keeps P s x false false false false false stays h = h

  -- A property of the flash after an activation that wrote the head, or did nothing.
  pub activate_record-by :
      (P : S → Type 0) (busy : Bool) (candidate : Record) (slot : Slot) (revision : ℕ) (s : S)
      → P s
      → ((target : ℕ) → P (write_head nvs target (read_head nvs s) s).1)
      → P (activate_record nvs busy candidate slot revision s).1
  unfolding activate_record
  activate_record-by P busy candidate slot revision s h k =
      checked-keeps (λ x. P x.1) s (write_head nvs _ (read_head nvs s) s)
        (same_slot candidate.active_slot legacy || candidate.revision == 0 || revision == 0)
        (not (valid_successor candidate slot revision) || busy)
        (not (is_ok (compare_slot nvs s candidate.active_slot candidate)))
        (is_unreadable (read_head nvs s))
        (not (expected_head_matches (read_head nvs s) slot revision)) (λ activation. h)
        (k (encode_head candidate.active_slot candidate.revision))

  -- Writing a head leaves the tombstone as it is.
  pub activate_record-pending :
      (busy : Bool) (candidate : Record) (slot : Slot) (revision : ℕ) (s : S)
      → Keyed nvs
      → reset_is_pending
          (nvs.look (activate_record nvs busy candidate slot revision s).1 meta_space)
        ≡ reset_is_pending (nvs.look s meta_space)
  activate_record-pending busy candidate slot revision s keyed =
      activate_record-by
        (λ x. reset_is_pending (nvs.look x meta_space) ≡ reset_is_pending (nvs.look s meta_space))
        busy candidate slot revision s refl
        (λ target. write_head-pending target (read_head nvs s) s keyed)

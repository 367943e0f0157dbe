-- ===== src/Storage/Discarding.antt =====
-- Discarding a slot, or the settings of the first layout.
use waveshare.Prelude.{
  ◌≡◌, ◌≢◌, refl, ◌∙◌, Bool, true, false, not, ◌&&◌, List, [], ◌∷◌, Option, none, some,
  if◌then◌else◌, if_keeps, arith,
}
use waveshare.Config.Transaction.{Slot, legacy, slot_a, slot_b}
use Prim.Native.String.{String}
use waveshare.Storage.Nvs.{
  other_error, Namespace, legacy_space, slot_a_space, slot_b_space, Err, not_found, invalid_state,
  invalid_arg, failed, is_ok, Look, Write, open_write, erase_all, commit_writes, erase_key, Nvs,
  Separate, write_all, unless_failed,
}
use waveshare.Storage.Fields.{read_record_fields}
use waveshare.Storage.Slots.{
  is_gone, slot_namespace, may_discard, read_head, load_slot_record, load_from,
}
use waveshare.Storage.Erase.{
  erase_legacy_record, erase_record, erase_keys, erase_slot, discard_slot, discard_record,
  record_keys,
}
use waveshare.Storage.Durable.{
  Elsewhere, IsSpare, may_discard-IsSpare, space_of, Kept, Kept-refl, spare-Kept,
  write_all-Elsewhere,
}

gone-load_from :
    (look : Look) (slot : Slot) → is_gone look ≡ true → load_from look slot ≡ failed not_found
unfolding is_gone load_from read_record_fields
gone-load_from look slot h = ground arith

module _ {S : Type 0} (nvs : Nvs S) where
  after-Elsewhere :
      (n : Namespace) (s s' s'' : S)
      → Elsewhere nvs n s s'
      → Elsewhere nvs n s' s''
      → Elsewhere nvs n s s''
  unfolding Elsewhere
  after-Elsewhere n s s' s'' h k m other = k m other ∙ h m other

  write-Elsewhere :
      (n : Namespace) (w : Write) (s : S) → Separate nvs → Elsewhere nvs n s (nvs.write n w s).1
  unfolding Elsewhere Separate
  write-Elsewhere n w s separate m other = separate n m w s other

  -- What follows a call that may have found nothing.
  or_missing_keeps {ℓ κ} :
      {A : Type ℓ} (P : A → Type κ) (err : Option Err) {x y : A} {z : Err → A}
      → P x
      → P y
      → ((e : Err) → P (z e))
      → P (elim err [ none ↦ x | some not_found ↦ y | some e ↦ z e ])
  or_missing_keeps P none p q r = p
  or_missing_keeps P (some not_found) p q r = q
  or_missing_keeps P (some invalid_state) p q r = r invalid_state
  or_missing_keeps P (some invalid_arg) p q r = r invalid_arg
  or_missing_keeps P (some (other_error n)) p q r = r (other_error n)

  erase_keys-Elsewhere :
      (keys : List String) (changed : Bool) (s : S)
      → Separate nvs
      → Elsewhere nvs legacy_space s (erase_keys nvs keys changed s).2
  unfolding erase_keys Elsewhere
  erase_keys-Elsewhere [] changed s separate = λ m other. refl
  erase_keys-Elsewhere (key ∷ keys) changed s separate =
      let (err, s') = nvs.write legacy_space (erase_key key) s in
      let step = write-Elsewhere legacy_space (erase_key key) s separate in
      let Same : Option Err × Bool × S → Type 0 = λ x. Elsewhere nvs legacy_space s x.2 in
      or_missing_keeps Same err {z = λ e. (some e, changed, s')}
        (after-Elsewhere legacy_space s s' _ step (erase_keys-Elsewhere keys true s' separate))
        (after-Elsewhere legacy_space s s' _ step (erase_keys-Elsewhere keys changed s' separate))
        (λ e. step)

  commit-Elsewhere :
      (b : Bool) (err : Option Err) (s : S)
      → Separate nvs
      → Elsewhere nvs legacy_space s
          (if b then nvs.write legacy_space commit_writes s else (err, s)).1
  unfolding Elsewhere
  commit-Elsewhere true err s separate = write-Elsewhere legacy_space commit_writes s separate
  commit-Elsewhere false err s separate = λ m other. refl

  checked-Elsewhere :
      (n : Namespace) (ret : Option Err) (s s' : S) (last : Option Err)
      → Elsewhere nvs n s s'
      → Elsewhere nvs n s (unless_failed ret s' (last, s')).1
  checked-Elsewhere n none s s' last h = h
  checked-Elsewhere n (some e) s s' last h = h

  erase_record-Elsewhere :
      (s : S) → Separate nvs → Elsewhere nvs legacy_space s (erase_record nvs s).1
  unfolding erase_record
  erase_record-Elsewhere s separate =
      let (err, changed, s₁) = erase_keys nvs record_keys false s in
      checked-Elsewhere legacy_space _ s _ _ (
        after-Elsewhere legacy_space s s₁ _ (erase_keys-Elsewhere record_keys false s separate)
          (commit-Elsewhere (is_ok err && changed) err s₁ separate))

  pub erase_legacy_record-Elsewhere :
      (s : S) → Separate nvs → Elsewhere nvs legacy_space s (erase_legacy_record nvs s).1
  unfolding erase_legacy_record
  erase_legacy_record-Elsewhere s separate =
      let (err, s') = nvs.write legacy_space open_write s in
      let step = write-Elsewhere legacy_space open_write s separate in
      or_missing_keeps (λ (x : Option Err × S). Elsewhere nvs legacy_space s x.1) err
        {z = λ e. (some e, s')}
        (after-Elsewhere legacy_space s s' _ step (erase_record-Elsewhere s' separate)) step
        (λ e. step)

  -- What discarding a slot gives.
  Discarded : Slot → S → Bool × S → Type 0
  Discarded slot s (was_discarded, s') =
      Kept nvs s s'
      × (was_discarded ≡ true → slot ≢ legacy → load_slot_record nvs s' slot ≡ failed not_found)

  stays-Discarded : (slot : Slot) (s : S) → Discarded slot s (false, s)
  unfolding Discarded
  stays-Discarded slot s = (Kept-refl nvs s, λ q. absurd (ground arith))

  both_hold : (a b : Bool) → a && b ≡ true → b ≡ true
  both_hold a b h = ground arith

  pub erase_slot-Elsewhere :
      (n : Namespace) (s : S) → Separate nvs → Elsewhere nvs n s (erase_slot nvs n s).1
  unfolding erase_slot
  erase_slot-Elsewhere n s separate =
      write_all-Elsewhere nvs n (open_write ∷ erase_all ∷ commit_writes ∷ []) s separate

  erase_slot-gone :
      (n : Namespace) (slot : Slot) (s : S)
      → (erase_slot nvs n s).0 ≡ true
      → load_from (nvs.look (erase_slot nvs n s).1 n) slot ≡ failed not_found
  unfolding erase_slot
  erase_slot-gone n slot s h =
      gone-load_from (nvs.look (erase_slot nvs n s).1 n) slot
        (both_hold (is_ok (write_all nvs n (open_write ∷ erase_all ∷ commit_writes ∷ []) s).0) _ h)

  discard_slot-Discarded :
      (slot : Slot) (s : S)
      → Separate nvs
      → IsSpare slot (read_head nvs s)
      → Discarded slot s (discard_slot nvs slot s)
  unfolding Discarded discard_slot slot_namespace space_of load_slot_record
  discard_slot-Discarded legacy s separate spare = (
    spare-Kept nvs legacy s _ (erase_legacy_record-Elsewhere s separate) spare,
    λ h other. absurd (other refl),
  )
  discard_slot-Discarded slot_a s separate spare = (
    spare-Kept nvs slot_a s _ (erase_slot-Elsewhere slot_a_space s separate) spare,
    λ h other. erase_slot-gone slot_a_space slot_a s h,
  )
  discard_slot-Discarded slot_b s separate spare = (
    spare-Kept nvs slot_b s _ (erase_slot-Elsewhere slot_b_space s separate) spare,
    λ h other. erase_slot-gone slot_b_space slot_b s h,
  )

  spare_or_not :
      (slot : Slot) (s : S) (b : Bool)
      → Separate nvs
      → (b ≡ true → IsSpare slot (read_head nvs s))
      → Discarded slot s (if not b then (false, s) else discard_slot nvs slot s)
  spare_or_not slot s true separate spare = discard_slot-Discarded slot s separate (spare refl)
  spare_or_not slot s false separate spare = stays-Discarded slot s

  -- Discarding a slot never changes the head nor the record that it selects, whether it succeeds, is
  -- refused or fails halfway; and if it succeeds, a slot A or B no longer loads.
  pub discard_record_keeps :
      (busy : Bool) (slot : Slot) (s : S)
      → Separate nvs
      → let (was_discarded, s') = discard_record nvs busy slot s in
        Kept nvs s s'
        × (was_discarded ≡ true → slot ≢ legacy → load_slot_record nvs s' slot ≡ failed not_found)
  unfolding discard_record Discarded
  discard_record_keeps busy slot s separate =
      if_keeps (Discarded slot s) busy (stays-Discarded slot s) (
        spare_or_not slot s (may_discard slot (read_head nvs s)) separate
          (may_discard-IsSpare slot (read_head nvs s)))

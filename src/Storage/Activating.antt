-- ===== src/Storage/Activating.antt =====
-- Activating a candidate: the writing of the head.
use waveshare.Prelude.{
  ℕ, ◌<◌, ◌≤◌, ◌≡◌, ◌≢◌, refl, ◌∙◌, ap, inl, inr, Bool, true, false, not, Option-cases, ◌||◌, none,
  some, ◌==◌, if◌then◌else◌, if_keeps, arith, u32_max,
}
use waveshare.Config.Transaction.{
  Slot, legacy, slot_a, slot_b, Record, Activation, indeterminate, committed, not_committed,
}
use waveshare.Storage.Nvs.{
  slot_a_space, slot_b_space, meta_space, Outcome, got, failed, is_ok, Nvs, Separate,
}
use waveshare.Storage.Fields.{same_slot, records_equal}
use waveshare.Storage.Slots.{slot_namespace, decode_head, read_head, load_slot_record, compare_slot}
use waveshare.Storage.Erase.{selected_record}
use waveshare.Storage.Durable.{durable, Elsewhere, Kept, Kept-refl, write_all-Elsewhere}
use waveshare.Storage.Head.{decode-encode}
use waveshare.Storage.Slots.{
  encode_head, activation_of, write_head, activate_record, expected_head_matches, is_unreadable,
}

activation_of-committed :
    (target : ℕ) (previous now : Outcome ℕ)
    → activation_of target previous now ≡ committed
    → now ≡ got target
unfolding activation_of
activation_of-committed target previous now h = ground arith

activation_of-not_committed :
    (target : ℕ) (previous now : Outcome ℕ)
    → activation_of target previous now ≡ not_committed
    → now ≡ previous
unfolding activation_of
activation_of-not_committed target previous now h = ground arith

pub records_equal-revision :
    (left right : Record) → records_equal left right ≡ true → left.revision ≡ right.revision
unfolding records_equal
records_equal-revision left right h = ground arith

module _ {S : Type 0} (nvs : Nvs S) where
  compare_slot-found :
      (s : S) (slot : Slot) (expected : Record)
      → compare_slot nvs s slot expected ≡ none
      → (r : Record) × (load_slot_record nvs s slot ≡ got r) × (records_equal r expected ≡ true)
  unfolding compare_slot
  compare_slot-found s slot expected h = ground arith

  slots_same :
      (s s' : S) (slot : Slot)
      → Elsewhere nvs meta_space s s'
      → load_slot_record nvs s' slot ≡ load_slot_record nvs s slot
  unfolding load_slot_record Elsewhere slot_namespace
  slots_same s s' legacy e = refl
  slots_same s s' slot_a e = rw (e slot_a_space (λ q. ground arith))
  slots_same s s' slot_b e = rw (e slot_b_space (λ q. ground arith))

  selected-meta :
      (previous : Outcome ℕ) (s s' : S)
      → Elsewhere nvs meta_space s s'
      → selected_record nvs previous s' ≡ selected_record nvs previous s
  unfolding selected_record
  selected-meta (failed x) s s' e = refl
  selected-meta (got head) s s' e = elim (Option-cases (decode_head head)) [
    | inl h ↦ rw (h, selected_record)
    | inr ((slot, revision), h) ↦ rw (h, slots_same s s' slot e, selected_record)
  ]

  -- The record that the head selects after a commit.
  selected-committed :
      (candidate r : Record) (head : ℕ) (s : S)
      → decode_head head ≡ some (candidate.active_slot, candidate.revision)
      → load_slot_record nvs s candidate.active_slot ≡ got r
      → records_equal r candidate ≡ true
      → selected_record nvs (got head) s ≡ got r
  unfolding selected_record
  selected-committed candidate r head s d l same =
      let revised = records_equal-revision r candidate same in ground (arith, d, l, revised)

  -- What an activation gives.
  Activated : Record → S → Activation × S → Type 0
  Activated candidate s (activation, s') =
      (activation ≡ committed
        → (r : Record) × (durable nvs s' ≡ got r) × (records_equal r candidate ≡ true))
      × (activation ≡ not_committed → Kept nvs s s')
      × Elsewhere nvs meta_space s s'

  stays-Activated :
      (candidate : Record) (s : S) (activation : Activation)
      → activation ≢ committed
      → Activated candidate s (activation, s)
  unfolding Activated Elsewhere
  stays-Activated candidate s activation h =
      (λ q. absurd (h q), λ q. Kept-refl nvs s, λ m other. refl)

  write_head-Elsewhere :
      (target : ℕ) (previous : Outcome ℕ) (s : S)
      → Separate nvs
      → Elsewhere nvs meta_space s (write_head nvs target previous s).1
  unfolding write_head
  write_head-Elsewhere target previous s separate = write_all-Elsewhere nvs meta_space _ s separate

  write_head-activation :
      (target : ℕ) (previous : Outcome ℕ) (s : S)
      → let (activation, s') = write_head nvs target previous s in
        (activation ≡ committed → read_head nvs s' ≡ got target)
        × (activation ≡ not_committed → read_head nvs s' ≡ previous)
  unfolding write_head
  write_head-activation target previous s =
      (activation_of-committed target previous _, activation_of-not_committed target previous _)

  write_head-Activated :
      (candidate : Record) (s : S)
      → Separate nvs
      → candidate.active_slot ≢ legacy
      → 0 < candidate.revision
      → candidate.revision ≤ u32_max
      → compare_slot nvs s candidate.active_slot candidate ≡ none
      → let target = encode_head candidate.active_slot candidate.revision in
        Activated candidate s (write_head nvs target (read_head nvs s) s)
  unfolding Activated
  write_head-Activated candidate s separate other positive bounded intact =
      let target = encode_head candidate.active_slot candidate.revision in
      let (activation, s') = write_head nvs target (read_head nvs s) s in
      let elsewhere = write_head-Elsewhere target (read_head nvs s) s separate in
      let (r, loaded, same) = compare_slot-found s candidate.active_slot candidate intact in
      let (on_commit, otherwise) = write_head-activation target (read_head nvs s) s in
      let decoded = decode-encode candidate.active_slot candidate.revision other positive bounded in
      let kept = slots_same s s' candidate.active_slot elsewhere in
      (
        λ h. (
          r,
          ap (λ head. selected_record nvs head s') (on_commit h)
              ∙ selected-committed candidate r target s' decoded (kept ∙ loaded) same,
          same,
        ),
        λ h. record {
          same_head = otherwise h;
          same_record =
              ap (λ head. selected_record nvs head s') (otherwise h)
              ∙ selected-meta (read_head nvs s) s s' elsewhere;
        },
        elsewhere,
      )

  checked-Activated :
      (candidate : Record) (s : S) (intact : Bool)
      → Separate nvs
      → candidate.active_slot ≢ legacy
      → 0 < candidate.revision
      → candidate.revision ≤ u32_max
      → is_ok (compare_slot nvs s candidate.active_slot candidate) ≡ intact
      → (unreadable mismatch : Bool)
      → let target = encode_head candidate.active_slot candidate.revision in
        Activated candidate s (
          if not intact
          then (not_committed, s)
          else if unreadable
          then (indeterminate, s)
          else if mismatch
          then (not_committed, s)
          else write_head nvs target (read_head nvs s) s)
  checked-Activated candidate s false separate other positive bounded h unreadable mismatch =
      stays-Activated candidate s not_committed (λ q. ground arith)
  checked-Activated candidate s true separate other positive bounded h unreadable mismatch =
      if_keeps (Activated candidate s) unreadable
        (stays-Activated candidate s indeterminate (λ q. ground arith))
        (if_keeps (Activated candidate s) mismatch
          (stays-Activated candidate s not_committed (λ q. ground arith))
          (write_head-Activated candidate s separate other positive bounded (ground arith)))

  guarded-Activated :
      (candidate : Record) (s : S) (invalid refused : Bool) (x : Activation × S)
      → (invalid ≡ false → Activated candidate s x)
      → Activated candidate s
          (if invalid then (indeterminate, s) else if refused then (not_committed, s) else x)
  guarded-Activated candidate s true refused x h =
      stays-Activated candidate s indeterminate (λ q. ground arith)
  guarded-Activated candidate s false true x h =
      stays-Activated candidate s not_committed (λ q. ground arith)
  guarded-Activated candidate s false false x h = h refl

  valid_candidate :
      (candidate : Record) (n : ℕ)
      → same_slot candidate.active_slot legacy || candidate.revision == 0 || n == 0 ≡ false
      → (candidate.active_slot ≢ legacy) × (0 < candidate.revision)
  valid_candidate candidate n h = (λ q. ground (arith, h, q), ground (arith, h))

  -- An activation that answers committed leaves a head that selects a record equal to the candidate;
  -- one that answers not committed leaves the head and the record that it selects as they were; and
  -- none writes outside of the namespace of the head.
  pub activate_record_keeps :
      (busy : Bool) (candidate : Record) (slot : Slot) (revision : ℕ) (s : S)
      → Separate nvs
      → candidate.revision ≤ u32_max
      → let (activation, s') = activate_record nvs busy candidate slot revision s in
        (activation ≡ committed
          → (r : Record) × (durable nvs s' ≡ got r) × (records_equal r candidate ≡ true))
        × (activation ≡ not_committed → Kept nvs s s')
        × Elsewhere nvs meta_space s s'
  unfolding activate_record Activated
  activate_record_keeps busy candidate slot revision s separate bounded =
      let previous = read_head nvs s in
      guarded-Activated candidate s _ _ _ (λ h.
        let (other, positive) = valid_candidate candidate revision h in
        checked-Activated candidate s _ separate other positive bounded refl
          (is_unreadable previous) (not (expected_head_matches previous slot revision)))

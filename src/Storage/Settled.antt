-- ===== src/Storage/Settled.antt =====
-- What a restart keeps of the slots and the head, on a flash that does not fail.
use Prim.Native.String.{String}
use waveshare.Prelude.{
  ℕ, ◌≡◌, ◌≢◌, refl, sym, ◌∙◌, ap, subst, ◌⊎◌, inl, inr, Bool, true, false, not, ◌&&◌, List, [],
  ◌∷◌, ◌++◌, Option, none, some, if_keeps, if◌then◌else◌, arith,
}
use waveshare.Config.Transaction.{Slot, legacy, slot_a, slot_b, Record}
use waveshare.Storage.Nvs.{
  Namespace, legacy_space, slot_a_space, slot_b_space, meta_space, Err, not_found, invalid_state,
  invalid_arg, other_error, is_ok, u64, Write, open_write, erase_all, commit_writes, erase_key,
  set_num, Nvs, Separate, Commits, write_all, look-write_all, unless_failed,
}
use waveshare.Storage.Fields.{record_writes}
use waveshare.Storage.Slots.{
  slot_namespace, stage_refusal, read_head, stage_fields, stage_record, write_head, activate_record,
  may_discard,
}
use waveshare.Storage.Erase.{
  erase_keys, record_keys, erase_record, erase_legacy_record, erase_slot, discard_slot,
  discard_record,
}
use waveshare.Storage.Durable.{unless_refused_keeps, Elsewhere}
use waveshare.Storage.Discarding.{erase_legacy_record-Elsewhere}
use waveshare.Storage.Pending.{activate_record-by}
use waveshare.Storage.Tombstone.{unless_failed-state}
use waveshare.Storage.Resume.{write_all-apart}

-- No write fails.
unfoldable pub Reliable : {S : Type 0} → Nvs S → Type 0
Reliable {S} nvs = (n : Namespace) (w : Write) (s : S) → (nvs.write n w s).0 ≡ none

same_or_other : (n m : Namespace) → (m ≡ n) ⊎ (m ≢ n)
same_or_other legacy_space m = ground arith
same_or_other slot_a_space m = ground arith
same_or_other slot_b_space m = ground arith
same_or_other meta_space m = ground arith

module _ {S : Type 0} (nvs : Nvs S) (restart : S → S) (separate : Separate nvs)
    (commits : Commits nvs restart) (reliable : Reliable nvs) where
  -- A restart finds the head and the slots as they are read before it.
  unfoldable pub IsSettled : S → Type 0
  IsSettled s = (n : Namespace) → n ≢ legacy_space → nvs.look (restart s) n ≡ nvs.look s n

  passed :
      (err : Option Err) (s : S) (rest : Option Err × S)
      → err ≡ none
      → unless_failed err s rest ≡ rest
  passed none s rest h = refl
  passed (some e) s rest h = absurd (ground (arith, h))

  -- Writes that end with a commit.
  committed_settles :
      (n : Namespace) (ws : List Write) (s : S)
      → let s' = (write_all nvs n (ws ++ commit_writes ∷ []) s).1 in
        nvs.look (restart s') n ≡ nvs.look s' n
  unfolding write_all Reliable
  committed_settles n [] s =
      let (err, s') = nvs.write n commit_writes s in
      let ok = reliable n commit_writes s in
      subst (λ x. nvs.look (restart x.1) n ≡ nvs.look x.1 n) (sym (passed err s' (none, s') ok))
        (commits.survives n s ok)
  committed_settles n (w ∷ ws) s =
      let (err, s') = nvs.write n w s in
      subst (λ x. nvs.look (restart x.1) n ≡ nvs.look x.1 n)
        (sym (passed err s' _ (reliable n w s))) (committed_settles n ws s')

  write_all-IsSettled :
      (n : Namespace) (ws : List Write) (s : S)
      → IsSettled s
      → IsSettled (write_all nvs n (ws ++ commit_writes ∷ []) s).1
  unfolding IsSettled
  write_all-IsSettled n ws s h m other =
      let s' = (write_all nvs n (ws ++ commit_writes ∷ []) s).1 in
      elim (same_or_other n m) [
        | inl e ↦
            subst (λ k. nvs.look (restart s') k ≡ nvs.look s' k) (sym e) (committed_settles n ws s)
        | inr d ↦
            write_all-apart nvs restart commits n m _ s d
            ∙ h m other
            ∙ sym (look-write_all nvs n m _ s separate d)
      ]

  staged-IsSettled :
      (busy bad : Bool) (slot : Slot) (n : Namespace) (r : Record) (s : S)
      → IsSettled s
      → let (err, s') =
          if bad
          then (some invalid_arg, s)
          else if busy
          then (some invalid_state, s)
          else elim (stage_refusal slot (read_head nvs s)) [
            | some e ↦ (some e, s)
            | none ↦ stage_fields nvs n slot r s
          ] in
        IsSettled s'
  unfolding stage_fields
  staged-IsSettled busy bad slot n r s h =
      let Keeps : Option Err × S → Type 0 = λ x. IsSettled x.1 in
      if_keeps Keeps bad h (
        if_keeps Keeps busy h (
          unless_refused_keeps Keeps (stage_refusal slot (read_head nvs s)) (λ e. h)
            (λ q. write_all-IsSettled n (open_write ∷ erase_all ∷ record_writes r) s h)))

  pub stage_record-IsSettled :
      (busy : Bool) (slot : Slot) (r : Record) (s : S)
      → IsSettled s
      → IsSettled (stage_record nvs busy slot r s).1
  unfolding stage_record slot_namespace
  stage_record-IsSettled busy legacy r s h = h
  stage_record-IsSettled busy slot_a r s h = staged-IsSettled busy _ slot_a slot_a_space r s h
  stage_record-IsSettled busy slot_b r s h = staged-IsSettled busy _ slot_b slot_b_space r s h

  pub activate_record-IsSettled :
      (busy : Bool) (candidate : Record) (slot : Slot) (revision : ℕ) (s : S)
      → IsSettled s
      → IsSettled (activate_record nvs busy candidate slot revision s).1
  unfolding write_head
  activate_record-IsSettled busy candidate slot revision s h =
      activate_record-by nvs separate IsSettled busy candidate slot revision s h
        (λ target. write_all-IsSettled meta_space (open_write ∷ set_num u64 "head" target ∷ []) s h)

  -- The storage, read as after a restart.
  abbrev later : Nvs S
  later = record nvs { look = λ s n. nvs.look (restart s) n }

  later-Separate : Separate later
  unfolding Separate
  later-Separate n m w s other = commits.apart n m w s other

  keys_by :
      (err : Option Err) (keys : List String) (changed : Bool) (s : S)
      → ((b : Bool) → erase_keys later keys b s ≡ erase_keys nvs keys b s)
      → let over : Nvs S → Option Err × Bool × S = λ x. elim err [
        | none ↦ erase_keys x keys true s
        | some not_found ↦ erase_keys x keys changed s
        | some e ↦ (some e, changed, s)
      ] in
        over later ≡ over nvs
  keys_by none keys changed s h = h true
  keys_by (some not_found) keys changed s h = h changed
  keys_by (some invalid_state) keys changed s h = refl
  keys_by (some invalid_arg) keys changed s h = refl
  keys_by (some (other_error n)) keys changed s h = refl

  erase_keys-same :
      (keys : List String) (changed : Bool) (s : S)
      → erase_keys later keys changed s ≡ erase_keys nvs keys changed s
  unfolding erase_keys
  erase_keys-same [] changed s = refl
  erase_keys-same (key ∷ keys) changed s =
      let (err, s') = nvs.write legacy_space (erase_key key) s in
      keys_by err keys changed s' (λ b. erase_keys-same keys b s')

  erase_record-same : (s : S) → (erase_record later s).1 ≡ (erase_record nvs s).1
  unfolding erase_record
  erase_record-same s =
      unless_failed-state later _ _ _
      ∙ ap
          (λ x.
            let (err, changed, s₁) = x in
            (if is_ok err && changed then nvs.write legacy_space commit_writes s₁ else (err, s₁)).1)
          (erase_keys-same record_keys false s)
      ∙ sym (unless_failed-state nvs _ _ _)

  legacy_by :
      (err : Option Err) (s : S)
      → let over : Nvs S → Option Err × S = λ x. elim err [
        | none ↦ erase_record x s
        | some not_found ↦ (none, s)
        | some e ↦ (some e, s)
      ] in
        (over later).1 ≡ (over nvs).1
  legacy_by none s = erase_record-same s
  legacy_by (some not_found) s = refl
  legacy_by (some invalid_state) s = refl
  legacy_by (some invalid_arg) s = refl
  legacy_by (some (other_error n)) s = refl

  erase_legacy_record-same :
      (s : S) → (erase_legacy_record later s).1 ≡ (erase_legacy_record nvs s).1
  unfolding erase_legacy_record
  erase_legacy_record-same s =
      let (err, s') = nvs.write legacy_space open_write s in legacy_by err s'

  erase_legacy_record-IsSettled : (s : S) → IsSettled s → IsSettled (erase_legacy_record nvs s).1
  unfolding IsSettled Elsewhere
  erase_legacy_record-IsSettled s h m other =
      ap (λ x. nvs.look (restart x) m) (sym (erase_legacy_record-same s))
      ∙ erase_legacy_record-Elsewhere later s later-Separate m other
      ∙ h m other
      ∙ sym (erase_legacy_record-Elsewhere nvs s separate m other)

  discard_slot-IsSettled :
      (slot : Slot) (s : S) → IsSettled s → IsSettled (discard_slot nvs slot s).1
  unfolding discard_slot slot_namespace erase_slot
  discard_slot-IsSettled legacy s h = erase_legacy_record-IsSettled s h
  discard_slot-IsSettled slot_a s h =
      write_all-IsSettled slot_a_space (open_write ∷ erase_all ∷ []) s h
  discard_slot-IsSettled slot_b s h =
      write_all-IsSettled slot_b_space (open_write ∷ erase_all ∷ []) s h

  pub discard_record-IsSettled :
      (busy : Bool) (slot : Slot) (s : S)
      → IsSettled s
      → IsSettled (discard_record nvs busy slot s).1
  unfolding discard_record
  discard_record-IsSettled busy slot s h =
      let Keeps : Bool × S → Type 0 = λ x. IsSettled x.1 in
      if_keeps Keeps busy h (
        if_keeps Keeps (not (may_discard slot (read_head nvs s))) h
          (discard_slot-IsSettled slot s h))

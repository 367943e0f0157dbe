-- ===== src/Storage/Loading.antt =====
-- What the loading at a start answers, when the head selects a record.
use waveshare.Prelude.{
  ℕ, ◌≡◌, refl, sym, subst, ◌⊎◌, inl, inr, Bool, true, false, Option, some, arith, if◌then◌else◌,
}
use waveshare.Config.Transaction.{legacy, Record}
use waveshare.Storage.Nvs.{meta_space, invalid_state, not_found, Outcome, got, failed, Nvs}
use waveshare.Storage.Slots.{read_head}
use waveshare.Storage.Erase.{selected_record, discard_record, load_headed_record}
use waveshare.Storage.Reset.{reset_is_pending, complete_pending_reset}
use waveshare.Storage.Load.{load_active_record, found_record, nothing_found}
use waveshare.Storage.Durable.{durable}

-- The record, unless the settings of the first layout cannot be discarded.
unfoldable pub Loads : {S : Type 0} → Nvs S → S → Record → Outcome (Option Record) → Type 0
Loads nvs s r answer =
    (answer ≡ got (some r))
    ⊎ (((discard_record nvs false legacy s).0 ≡ false) × (answer ≡ failed invalid_state))

module _ {S : Type 0} (nvs : Nvs S) where
  discarded_or_not :
      (r : Record) (b : Bool)
      → let answer = found_record (if b then got r else failed invalid_state) in
        (answer ≡ got (some r)) ⊎ ((b ≡ false) × (answer ≡ failed invalid_state))
  discarded_or_not r true = inl refl
  discarded_or_not r false = inr (refl, refl)

  load_headed_record-Loads :
      (s : S) (r : Record)
      → durable nvs s ≡ got r
      → Loads nvs s r (found_record (load_headed_record nvs false s).0)
  unfolding Loads load_headed_record
  load_headed_record-Loads s r e =
      subst
        (λ o.
          let loaded : Outcome Record × S = elim o [
            | failed x ↦ (failed x, s)
            | got a ↦
                let (was_discarded, s') = discard_record nvs false legacy s in
                (if was_discarded then got a else failed invalid_state, s')
          ] in
          Loads nvs s r (found_record loaded.0))
        (sym e) (discarded_or_not r (discard_record nvs false legacy s).0)

  has_head :
      (s : S) (r : Record) (head : Outcome ℕ)
      → selected_record nvs head s ≡ got r
      → (n : ℕ) × (head ≡ got n)
  unfolding selected_record
  has_head s r (got n) e = (n, refl)
  has_head s r (failed x) e = absurd (ground (arith, e))

  -- Without a reset that is pending.
  pub load_active_record-Loads :
      (load_first_layout : S → Outcome (Option Record) × S) (s : S) (r : Record)
      → reset_is_pending (nvs.look s meta_space) ≡ got false
      → durable nvs s ≡ got r
      → Loads nvs s r (load_active_record nvs load_first_layout false s).0
  unfolding load_active_record
  load_active_record-Loads load_first_layout s r h e =
      let (n, head) = has_head s r (read_head nvs s) e in
      let (x, s') = load_headed_record nvs false s in
      subst
        (λ o.
          let loaded : Outcome (Option Record) × S = elim o [
            | failed x ↦ (failed x, s)
            | got true ↦
                let (err, s') = complete_pending_reset nvs false s in (nothing_found err, s')
            | got false ↦ elim (read_head nvs s) [
              | failed not_found ↦ load_first_layout s
              | failed x ↦ (failed x, s)
              | got head ↦ (found_record x, s')
            ]
          ] in
          Loads nvs s r loaded.0)
        (sym h)
        (subst
          (λ o.
            let loaded : Outcome (Option Record) × S = elim o [
              | failed not_found ↦ load_first_layout s
              | failed x ↦ (failed x, s)
              | got head ↦ (found_record x, s')
            ] in
            Loads nvs s r loaded.0)
          (sym head) (load_headed_record-Loads s r e))

-- ===== src/Storage/Updates.antt =====
-- Wi-Fi updates over the slots: what a restart would load, against the record that is active.
use waveshare.Prelude.{
  ◌≤◌, ◌≡◌, refl, ◌∙◌, ◌⊎◌, inl, inr, Bool, true, false, List, ◌∷◌, arith, u32_max, some, ℕ,
}
use waveshare.Config.{WifiCredentials}
use waveshare.Config.Transaction.{
  Slot, legacy, Record, committed, not_committed, Status, Call, staged, verified, activated,
  discarded, trial_connected, restore_connected, quarantined, Ports,
}
use waveshare.Config.Transaction.Protocol.{
  Protocol, cleaned, uncleaned, RolledBack, rolled_back, left_over, cut_off, not_staged,
  not_verified, not_connected, not_activated, head_unknown, head_invalid, done, left_retired, tried,
}
use waveshare.Config.Transaction.Genuine.{IsAnswer, Genuine, answered}
use waveshare.Storage.Nvs.{legacy_space, Nvs, Separate, got}
use waveshare.Storage.Fields.{same_slot, records_equal}
use waveshare.Storage.Durable.{durable, Elsewhere, IsSpare, space_of, Kept, spare-Kept}
use waveshare.Storage.Slots.{decode_head}
use waveshare.Storage.Staging.{stage_record_keeps}
use waveshare.Storage.Discarding.{discard_record_keeps}
use waveshare.Storage.Activating.{activate_record_keeps}
use waveshare.Storage.Ports.{Surroundings, flash_after, flash_at, storage_ports}

-- A flash from which a restart loads a record equal to `r`.
unfoldable pub IsStored : {S : Type 0} → Nvs S → S → Record → Type 0
IsStored nvs s r = (found : Record) × (durable nvs s ≡ got found) × (records_equal found r ≡ true)

-- The tasks that write the head or the slots without being the transaction are a reset and a loading,
-- and hold the lifecycle lock like it; what others write lies in the first layout's namespace, where
-- the user's preferences are.
unfoldable pub OthersKeep : {S : Type 0} → Nvs S → Surroundings S → Type 0
OthersKeep {S} nvs around =
    (calls : List Call) (s : S) → Elsewhere nvs legacy_space s (around.others calls s)

decode_head-other :
    (head revision : ℕ) (slot : Slot)
    → decode_head head ≡ some (slot, revision)
    → same_slot slot legacy ≡ false
unfolding decode_head
decode_head-other head revision slot h = ground (arith, h)

pub legacy-Kept :
    {S : Type 0} (nvs : Nvs S) (s s' : S) → Elsewhere nvs legacy_space s s' → Kept nvs s s'
unfolding IsSpare space_of
legacy-Kept nvs s s' e =
    spare-Kept nvs legacy s s' e (λ head revision slot q d. decode_head-other head revision slot d)

-- A call that does not write the head.
is_quiet : Call → Bool
is_quiet (activated r slot revision a) = false
is_quiet _ = true

module _ {S : Type 0} (nvs : Nvs S) (around : Surroundings S) (start : S) (separate : Separate nvs)
    (bounded_others : OthersKeep nvs around) where
  abbrev p : Ports
  p = storage_ports nvs around start

  abbrev flash : List Call → S
  flash calls = flash_after nvs around start calls

  abbrev at : List Call → S
  at calls = flash_at nvs around start calls

  others-durable : (calls : List Call) → durable nvs (at calls) ≡ durable nvs (flash calls)
  unfolding OthersKeep
  others-durable calls = (legacy-Kept nvs _ _ (bounded_others calls (flash calls))).same_record

  quiet-durable :
      (c : Call) (calls : List Call)
      → is_quiet c ≡ true
      → durable nvs (flash (c ∷ calls)) ≡ durable nvs (flash calls)
  unfolding flash_after is_quiet
  quiet-durable (staged slot r b) calls h =
      (stage_record_keeps nvs (around.busy calls) slot r (at calls) separate).0.same_record
      ∙ others-durable calls
  quiet-durable (discarded slot b) calls h =
      (discard_record_keeps nvs (around.busy calls) slot (at calls) separate).0.same_record
      ∙ others-durable calls
  quiet-durable (activated r slot revision a) calls h = absurd (ground arith)
  quiet-durable (verified slot r b) calls h = others-durable calls
  quiet-durable (trial_connected w b) calls h = others-durable calls
  quiet-durable (restore_connected w b) calls h = others-durable calls
  quiet-durable quarantined calls h = others-durable calls

  quiet-IsStored :
      (c : Call) (calls : List Call) (r : Record)
      → is_quiet c ≡ true
      → IsStored nvs (flash calls) r
      → IsStored nvs (flash (c ∷ calls)) r
  unfolding IsStored
  quiet-IsStored c calls r h (found, e, same) = (found, quiet-durable c calls h ∙ e, same)

  tried-IsStored :
      (new r : Record) (w : WifiCredentials) (b : Bool) (before : List Call)
      → IsStored nvs (flash before) r
      → IsStored nvs (flash (tried new w b before)) r
  unfolding is_quiet
  tried-IsStored new r w b before h = quiet-IsStored (trial_connected w b) _ r refl (
      quiet-IsStored (verified new.active_slot new true) _ r refl
        (quiet-IsStored (staged new.active_slot new true) before r refl h))

  not_committed-IsStored :
      (r new : Record) (slot : Slot) (revision : ℕ) (calls : List Call)
      → new.revision ≤ u32_max
      → IsAnswer p (activated new slot revision not_committed) calls
      → IsStored nvs (flash calls) r
      → IsStored nvs (flash (activated new slot revision not_committed ∷ calls)) r
  unfolding IsStored IsAnswer flash_after storage_ports
  not_committed-IsStored r new slot revision calls bounded a (found, e, same) =
      let keeps =
        activate_record_keeps nvs (around.busy calls) new slot revision (at calls) separate
          bounded in
      (found, (keeps.1 a).same_record ∙ others-durable calls ∙ e, same)

  committed-IsStored :
      (new : Record) (slot : Slot) (revision : ℕ) (calls : List Call)
      → new.revision ≤ u32_max
      → IsAnswer p (activated new slot revision committed) calls
      → IsStored nvs (flash (activated new slot revision committed ∷ calls)) new
  unfolding IsStored IsAnswer flash_after storage_ports
  committed-IsStored new slot revision calls bounded a =
      (activate_record_keeps nvs (around.busy calls) new slot revision (at calls) separate
          bounded).0
        a

  RolledBack-IsStored :
      (slot : Slot) (v : WifiCredentials) (failed s : Status) (before calls : List Call) (r : Bool)
      (old : Record)
      → RolledBack slot v failed before s r calls
      → IsStored nvs (flash before) old
      → IsStored nvs (flash calls) old
  unfolding is_quiet
  RolledBack-IsStored slot v failed s before calls r old rolled_back h =
      quiet-IsStored (discarded slot true) _ old refl
        (quiet-IsStored (restore_connected v true) before old refl h)
  RolledBack-IsStored slot v failed s before calls r old left_over h =
      quiet-IsStored (discarded slot false) _ old refl
        (quiet-IsStored (restore_connected v true) before old refl h)
  RolledBack-IsStored slot v failed s before calls r old (cut_off b) h =
      quiet-IsStored (discarded slot b) _ old refl
        (quiet-IsStored (restore_connected v false) before old refl h)

  -- The calls before the last one were made, too.
  earlier :
      (c : Call) (calls : List Call) → Genuine p (c ∷ calls) → IsAnswer p c calls × Genuine p calls
  earlier c calls (answered a g) = (a, g)

  RolledBack-Genuine :
      (slot : Slot) (v : WifiCredentials) (failed s : Status) (before calls : List Call) (r : Bool)
      → RolledBack slot v failed before s r calls
      → Genuine p calls
      → Genuine p before
  RolledBack-Genuine slot v failed s before calls r rolled_back g =
      (earlier _ before (earlier _ _ g).1).1
  RolledBack-Genuine slot v failed s before calls r left_over g =
      (earlier _ before (earlier _ _ g).1).1
  RolledBack-Genuine slot v failed s before calls r (cut_off b) g =
      (earlier _ before (earlier _ _ g).1).1

  -- What follows a protocol: a restart would load the active record, or the head is unknown.
  pub Protocol-IsStored :
      {old new last : Record} {w v : WifiCredentials} {before calls : List Call} {s : Status}
      {r : Bool}
      → Protocol old new w v before s r calls last
      → Genuine p calls
      → new.revision ≤ u32_max
      → IsStored nvs (flash before) old
      → IsStored nvs (flash calls) last ⊎ (r ≡ true)
  unfolding is_quiet
  Protocol-IsStored {old} {new} {last} {w} {v} {before} (not_staged cleaned) g b h =
      inl (quiet-IsStored _ _ old refl (quiet-IsStored _ before old refl h))
  Protocol-IsStored (not_staged uncleaned) g b h = inr refl
  Protocol-IsStored {old} {new} {last} {w} {v} {before} (not_verified cleaned) g b h = inl (
      quiet-IsStored _ _ old refl
        (quiet-IsStored _ _ old refl (quiet-IsStored _ before old refl h)))
  Protocol-IsStored (not_verified uncleaned) g b h = inr refl
  Protocol-IsStored {old} {new} {last} {w} {v} {before} {calls} {s} {r} (not_connected rolled) g b
        h =
      inl
        (RolledBack-IsStored _ v _ s _ calls r old rolled (tried-IsStored new old w false before h))
  Protocol-IsStored {old} {new} {last} {w} {v} {before} {calls} {s} {r} (not_activated rolled) g b
        h =
      let before_rolling = RolledBack-Genuine _ v _ s _ calls r rolled g in
      inl (
        RolledBack-IsStored _ v _ s _ calls r old rolled (
          not_committed-IsStored old new old.active_slot old.revision (tried new w true before) b
            (earlier _ _ before_rolling).0 (tried-IsStored new old w true before h)))
  Protocol-IsStored head_unknown g b h = inr refl
  Protocol-IsStored (head_invalid n) g b h = inr refl
  Protocol-IsStored {old} {new} {last} {w} {v} {before} done g b h = inl (
      quiet-IsStored _ _ new refl (
        committed-IsStored new old.active_slot old.revision (tried new w true before) b
          (earlier _ _ (earlier _ _ g).1).0))
  Protocol-IsStored left_retired g b h = inr refl

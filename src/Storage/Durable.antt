-- ===== src/Storage/Durable.antt =====
-- The record that the head selects, under the operations on the slots, for a storage that keeps its
-- namespaces apart.
use waveshare.Prelude.{
  ℕ, ◌≡◌, ◌≢◌, refl, ◌∙◌, ap, inl, inr, true, false, Option-cases, List, Option, none, some, arith,
}
use waveshare.Config.Transaction.{Slot, legacy, slot_a, slot_b, Record}
use waveshare.Storage.Nvs.{
  Namespace, legacy_space, slot_a_space, slot_b_space, meta_space, Err, Outcome, got, failed, Write,
  Nvs, Separate, write_all, look-write_all,
}
use waveshare.Storage.Fields.{same_slot}
use waveshare.Storage.Slots.{
  slot_namespace, decode_head, stage_refusal, may_discard, read_head, load_slot_record,
}
use waveshare.Storage.Erase.{selected_record}

-- What the head and the slots give after a restart.
abbrev pub durable : {S : Type 0} → Nvs S → S → Outcome Record
durable nvs s = selected_record nvs (read_head nvs s) s

-- Only one namespace may read differently.
unfoldable pub Elsewhere : {S : Type 0} → Nvs S → Namespace → S → S → Type 0
Elsewhere nvs n s s' = (m : Namespace) → m ≢ n → nvs.look s' m ≡ nvs.look s m

-- The slot is not the one that a head selects.
unfoldable pub IsSpare : Slot → Outcome ℕ → Type 0
IsSpare slot previous =
    (head revision : ℕ) (active_slot : Slot)
    → previous ≡ got head
    → decode_head head ≡ some (active_slot, revision)
    → same_slot active_slot slot ≡ false

pub stage_refusal-IsSpare :
    (slot : Slot) (previous : Outcome ℕ)
    → stage_refusal slot previous ≡ none
    → IsSpare slot previous
unfolding stage_refusal IsSpare
stage_refusal-IsSpare slot previous h head revision active_slot e d = ground (arith, h, e, d)

pub may_discard-IsSpare :
    (slot : Slot) (previous : Outcome ℕ) → may_discard slot previous ≡ true → IsSpare slot previous
unfolding may_discard IsSpare
may_discard-IsSpare slot previous h head revision active_slot e d = ground (arith, h, e, d)

unfoldable pub space_of : Slot → Namespace
space_of legacy = legacy_space
space_of slot_a = slot_a_space
space_of slot_b = slot_b_space

pub space-other : (slot : Slot) → meta_space ≢ space_of slot
unfolding space_of
space-other legacy = λ e. ground arith
space-other slot_a = λ e. ground arith
space-other slot_b = λ e. ground arith

-- A property of the two ways of a refusal.
pub unless_refused_keeps {ℓ κ} :
    {A : Type ℓ} (P : A → Type κ) (refusal : Option Err) {x : A} {y : Err → A}
    → ((e : Err) → P (y e))
    → (refusal ≡ none → P x)
    → P (elim refusal [ some e ↦ y e | none ↦ x ])
unless_refused_keeps P none p q = q refl
unless_refused_keeps P (some e) p q = p e

module _ {S : Type 0} (nvs : Nvs S) where
  pub head-same :
      (s s' : S)
      → nvs.look s' meta_space ≡ nvs.look s meta_space
      → read_head nvs s' ≡ read_head nvs s
  unfolding read_head
  head-same s s' e = rw e

  pub load-same :
      (slot other : Slot) (s s' : S)
      → Elsewhere nvs (space_of slot) s s'
      → same_slot other slot ≡ false
      → load_slot_record nvs s' other ≡ load_slot_record nvs s other
  unfolding load_slot_record Elsewhere space_of slot_namespace
  load-same slot legacy s s' e h = refl
  load-same legacy slot_a s s' e h = rw (e slot_a_space (λ q. ground arith))
  load-same legacy slot_b s s' e h = rw (e slot_b_space (λ q. ground arith))
  load-same slot_a slot_b s s' e h = rw (e slot_b_space (λ q. ground arith))
  load-same slot_b slot_a s s' e h = rw (e slot_a_space (λ q. ground arith))
  load-same slot_a slot_a s s' e h = absurd (ground arith)
  load-same slot_b slot_b s s' e h = absurd (ground arith)

  selected-same :
      (slot : Slot) (previous : Outcome ℕ) (s s' : S)
      → Elsewhere nvs (space_of slot) s s'
      → IsSpare slot previous
      → selected_record nvs previous s' ≡ selected_record nvs previous s
  unfolding selected_record IsSpare
  selected-same slot (failed x) s s' e spare = refl
  selected-same slot (got head) s s' e spare = elim (Option-cases (decode_head head)) [
    | inl h ↦ rw (h, selected_record)
    | inr ((active, revision), h) ↦
        rw (h, load-same slot active s s' e (spare head revision active refl h), selected_record)
  ]

  -- The head and the record that it selects are as before.
  pub record Kept (s s' : S) : Type 0 where
    pub same_head : read_head nvs s' ≡ read_head nvs s
    pub same_record : durable nvs s' ≡ durable nvs s

  pub Kept-refl : (s : S) → Kept s s
  Kept-refl s = record { same_head = refl; same_record = refl }

  pub spare-Kept :
      (slot : Slot) (s s' : S)
      → Elsewhere nvs (space_of slot) s s'
      → IsSpare slot (read_head nvs s)
      → Kept s s'
  unfolding Elsewhere
  spare-Kept slot s s' e spare =
      let same = head-same s s' (e meta_space (space-other slot)) in
      record {
        same_head = same;
        same_record =
            ap (λ previous. selected_record nvs previous s') same
            ∙ selected-same slot (read_head nvs s) s s' e spare;
      }

  pub write_all-Elsewhere :
      (n : Namespace) (ws : List Write) (s : S)
      → Separate nvs
      → Elsewhere nvs n s (write_all nvs n ws s).1
  unfolding Elsewhere
  write_all-Elsewhere n ws s separate m other = look-write_all nvs n m ws s separate other

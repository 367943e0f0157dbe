-- ===== src/Storage/Head.antt =====
-- The head: what is encoded is decoded, and no other head is accepted.
use waveshare.Prelude.{ℕ, ◌<◌, ◌≤◌, ◌≡◌, ◌≢◌, refl, arith, some, u32_max}
use waveshare.Config.Transaction.{Slot, legacy, slot_a, slot_b}
use waveshare.Storage.Slots.{encode_head, decode_head}

pub decode-encode :
    (slot : Slot) (revision : ℕ)
    → slot ≢ legacy
    → 0 < revision
    → revision ≤ u32_max
    → decode_head (encode_head slot revision) ≡ some (slot, revision)
unfolding encode_head decode_head
decode-encode legacy revision h a b = absurd (h refl)
decode-encode slot_a revision h a b = ground arith
decode-encode slot_b revision h a b = ground arith

-- A head of slot A or B and a revision that is not zero decodes to the two; and a head that decodes,
-- to whatever slot and revision, is the head of these, so that no two heads select the same record.
pub decode_head-encode_head :
    (slot other : Slot) (revision other_revision head : ℕ)
    → slot ≢ legacy
    → 0 < revision
    → revision ≤ u32_max
    → (decode_head (encode_head slot revision) ≡ some (slot, revision))
      × (decode_head head ≡ some (other, other_revision)
          → (head ≡ encode_head other other_revision) × (other ≢ legacy) × (0 < other_revision))
unfolding encode_head decode_head
decode_head-encode_head slot other revision other_revision head h a b =
    (decode-encode slot revision h a b, λ e. ground (arith, e))

-- ===== src/Guard/Epoch.antt =====
-- The epochs of requests.
use waveshare.Prelude.{ℕ, zero, suc, ◌+◌, ◌-◌, ◌%◌, ◌<◌, ◌≤◌, ◌≡◌, arith, false, u32_max, ◌==◌}
use waveshare.Guard.{epoch_added, epoch_cancel, epoch_is_current}

-- The value after some cancels.
unfoldable pub cancelled : ℕ → ℕ → ℕ
cancelled zero value = value
cancelled (suc n) value = epoch_cancel (cancelled n value)

cancelled_lem :
    (n value : ℕ) → 0 < value → value ≤ u32_max → cancelled n value ≡ (value - 1 + n) % u32_max + 1
unfolding cancelled epoch_cancel epoch_added
cancelled_lem zero value h k = ground arith
cancelled_lem (suc n) value h k = ground (arith, cancelled_lem n value h k)

-- A request that was started at an epoch is not current after a cancel, nor after any further ones up
-- to 2^32 - 3 of them; without a cancel it is. An epoch never becomes zero, and between the two steps
-- of a cancel, where it may be, no request is current that was started before.
pub epoch_is_current-cancelled :
    (n value : ℕ)
    → 0 < value
    → value ≤ u32_max
    → n + 1 < u32_max
    → (epoch_is_current (cancelled n value) value ≡ (n == 0))
      × (epoch_is_current (epoch_added (cancelled n value)) value ≡ false)
      × (0 < cancelled n value)
      × (cancelled n value ≤ u32_max)
unfolding epoch_is_current epoch_added
epoch_is_current-cancelled n value h k l =
    let closed = cancelled_lem n value h k in
    (ground (arith, closed), ground (arith, closed), ground (arith, closed), ground (arith, closed))

-- ===== src/Playback/Starvation.antt =====
-- The statistics of starvation saturate.
use waveshare.Prelude.{
  ℕ, ◌+◌, ◌≤◌, ◌≡◌, refl, List, [], ◌∷◌, arith, length, min, if◌then◌else◌, ltb, u64_max,
}
use waveshare.Playback.{StarvationStats, record_starvation, size_max, stats_init}

unfoldable pub record_all : List ℕ → StarvationStats → StarvationStats
record_all [] stats = stats
record_all (wait_us ∷ waits) stats = record_all waits (record_starvation stats wait_us)

pub sum : List ℕ → ℕ
sum [] = 0
sum (n ∷ ns) = n + sum ns

pub longest : ℕ → List ℕ → ℕ
longest so_far [] = so_far
longest so_far (n ∷ ns) = let further = if ltb so_far n then n else so_far in longest further ns

record_all_lem :
    (waits : List ℕ) (stats : StarvationStats)
    → stats.count ≤ size_max
    → stats.total_wait_us ≤ u64_max
    → let after = record_all waits stats in
      (after.count ≡ min (stats.count + length waits) size_max)
      × (after.total_wait_us ≡ min (stats.total_wait_us + sum waits) u64_max)
      × (after.max_wait_us ≡ longest stats.max_wait_us waits)
unfolding record_all sum longest record_starvation
record_all_lem [] stats h k = (ground arith, ground arith, refl)
record_all_lem (wait_us ∷ waits) stats h k =
    let next = record_starvation stats wait_us in
    let (count, total, most) = record_all_lem waits next (ground arith) (ground arith) in
    (ground (arith, count), ground (arith, total), most)

-- After any waits, the statistics are their number, their sum and the longest of them, the first two
-- stopped at the limits of their types instead of wrapping.
pub record_all-stats_init :
    (waits : List ℕ)
    → let after = record_all waits stats_init in
      (after.count ≡ min (length waits) size_max)
      × (after.total_wait_us ≡ min (sum waits) u64_max)
      × (after.max_wait_us ≡ longest 0 waits)
record_all-stats_init waits =
    let (count, total, most) = record_all_lem waits stats_init (omega arith) (omega arith) in
    (omega (arith, count), omega (arith, total), most)

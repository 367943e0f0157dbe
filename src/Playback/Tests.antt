-- ===== src/Playback/Tests.antt =====
-- The playback at concrete inputs.
use waveshare.Prelude.{
  ℕ, ◌+◌, ◌<◌, ◌≡◌, ◌≢◌, ◌⊎◌, refl, true, List, [], ◌∷◌, ◌++◌, some, arith, length, min, replicate,
  u64_max,
}
use waveshare.Playback.{
  bytes_for_duration, playback_policy, policy_init, stats_init, size_max, buffer_ok, buffer_full,
  PcmBuffer, pcm_buffer_init, pcm_buffer_append, append_to,
}
use waveshare.Playback.Starvation.{record_all, sum, longest, record_all-stats_init}
use waveshare.Playback.Buffers.{samples, IsValid, pcm_buffer_append-samples}

-- 24000 samples a second of 16 bits: 480 ms are 23040 bytes.
half_a_second :
    policy_init 24000 16 1 480 240
    ≡ some (record {
      bytes_per_second = 48000;
      initial_buffer_bytes = 23040;
      resume_buffer_bytes = 11520;
    })
unfolding policy_init playback_policy bytes_for_duration
half_a_second = refl

abbrev waits : List ℕ
waits = 5 ∷ 9 ∷ []

record_all-stats_init_example :
    let after = record_all waits stats_init in
    (after.count ≡ min (length waits) size_max)
    × (after.total_wait_us ≡ min (sum waits) u64_max)
    × (after.max_wait_us ≡ longest 0 waits)
record_all-stats_init_example = record_all-stats_init waits

abbrev four_bytes : PcmBuffer
four_bytes = pcm_buffer_init (some (replicate 4 0)) 4

four_bytes-IsValid : IsValid four_bytes
unfolding IsValid
four_bytes-IsValid = (omega arith, omega arith)

overflows :
    let (status, buffer) = pcm_buffer_append four_bytes (1 ∷ 2 ∷ 3 ∷ []) in
    let (status', buffer') = pcm_buffer_append buffer (4 ∷ 5 ∷ []) in
    (status ≡ buffer_ok) × (status' ≡ buffer_full) × (samples buffer' ≡ 1 ∷ 2 ∷ 3 ∷ [])
unfolding pcm_buffer_append append_to samples
overflows = (refl, refl, refl)

abbrev two_samples : List ℕ
two_samples = 1 ∷ 2 ∷ []

pcm_buffer_append-samples_example :
    let (status, buffer) = pcm_buffer_append four_bytes two_samples in
    IsValid buffer
    × (((status ≡ buffer_ok) × (samples buffer ≡ samples four_bytes ++ two_samples))
        ⊎ ((status ≢ buffer_ok)
            × (samples buffer ≡ samples four_bytes)
            × (status ≡ buffer_full → (4 < 0 + length two_samples) × (buffer.overflow ≡ true))))
pcm_buffer_append-samples_example =
    pcm_buffer_append-samples four_bytes two_samples four_bytes-IsValid

-- ===== src/Playback.antt =====
-- components/app_core/src/aiqa_tts_playback_policy.c and aiqa_tts_pcm_buffer.c: when the playback of an
-- answer starts and resumes, how often it starves, and the buffer of its samples. A `size_t` has 32
-- bits; no pointer is NULL unless it is an Option.
pub mod Starvation
pub mod Buffers
mod Tests
use waveshare.Prelude.{
  ℕ, ◌+◌, ◌-◌, ◌*◌, ◌/◌, ◌%◌, ◌^◌, Bool, true, false, not, ◌&&◌, ◌||◌, List, [], ◌∷◌, ◌++◌, Option,
  none, some, ltb, leb, ◌==◌, if◌then◌else◌, length, take, drop, u32_max, u64_max,
}

abbrev pub size_max : ℕ
size_max = u32_max

-- None is a refusal.
unfoldable pub bytes_for_duration : ℕ → ℕ → Option ℕ
bytes_for_duration bytes_per_second duration_ms =
    let scaled = bytes_per_second * duration_ms % 2 ^ 64 in
    let bytes = (scaled + 999) / 1000 in
    if bytes_per_second == 0 || duration_ms == 0
    then none
    else if ltb (u64_max / bytes_per_second) duration_ms
    then none
    else if ltb (u64_max - 999) scaled
    then none
    else if bytes == 0 || ltb size_max bytes
    then none
    else some bytes

pub record PlaybackPolicy : Type 0 where
  pub bytes_per_second : ℕ
  pub initial_buffer_bytes : ℕ
  pub resume_buffer_bytes : ℕ

unfoldable pub playback_policy : ℕ → Option ℕ → Option ℕ → Option PlaybackPolicy
playback_policy bytes_per_second (some initial) (some resume) = some (record {
  bytes_per_second = bytes_per_second;
  initial_buffer_bytes = initial;
  resume_buffer_bytes = resume;
})
playback_policy bytes_per_second _ _ = none

unfoldable pub policy_init : ℕ → ℕ → ℕ → ℕ → ℕ → Option PlaybackPolicy
policy_init sample_rate_hz bits_per_sample channels initial_buffer_ms resume_buffer_ms =
    let bytes_per_second = sample_rate_hz * channels * (bits_per_sample / 8) % 2 ^ 64 in
    if sample_rate_hz == 0
      || bits_per_sample == 0
      || not (bits_per_sample % 8 == 0)
      || channels == 0
    then none
    else if bytes_per_second == 0 || ltb size_max bytes_per_second
    then none
    else playback_policy bytes_per_second (bytes_for_duration bytes_per_second initial_buffer_ms)
        (bytes_for_duration bytes_per_second resume_buffer_ms)

unfoldable pub buffer_ready : PlaybackPolicy → ℕ → Bool → Bool → Bool
buffer_ready policy buffered_bytes producer_done recovering_from_starvation =
    let required_bytes =
      (if recovering_from_starvation
        then policy.resume_buffer_bytes
        else policy.initial_buffer_bytes) in
    if buffered_bytes == 0
    then false
    else if producer_done
    then true
    else ltb 0 required_bytes && leb required_bytes buffered_bytes

unfoldable pub buffered_bytes : ℕ → ℕ → Option ℕ
buffered_bytes held_pcm_bytes queued_pcm_bytes =
    if ltb (size_max - held_pcm_bytes) queued_pcm_bytes
    then none
    else some (held_pcm_bytes + queued_pcm_bytes)

unfoldable pub wait_is_starvation : ℕ → ℕ → Bool
wait_is_starvation wait_us threshold_ms =
    if threshold_ms == 0 then ltb 0 wait_us else leb (threshold_ms * 1000) wait_us

pub record StarvationStats : Type 0 where
  pub count : ℕ
  pub total_wait_us : ℕ
  pub max_wait_us : ℕ

abbrev pub stats_init : StarvationStats
stats_init = record { count = 0; total_wait_us = 0; max_wait_us = 0 }

unfoldable pub record_starvation : StarvationStats → ℕ → StarvationStats
record_starvation stats wait_us = record {
  count = if ltb stats.count size_max then stats.count + 1 else stats.count;
  total_wait_us =
      if ltb (u64_max - stats.total_wait_us) wait_us
      then u64_max
      else stats.total_wait_us + wait_us;
  max_wait_us = if ltb stats.max_wait_us wait_us then wait_us else stats.max_wait_us;
}

pub data BufferStatus : Type 0 where
  buffer_ok buffer_invalid_arg buffer_full : BufferStatus

-- `aiqa_tts_pcm_buffer_t`: the storage is none when it is NULL.
pub record PcmBuffer : Type 0 where
  pub storage : Option (List ℕ)
  pub capacity : ℕ
  pub used : ℕ
  pub overflow : Bool

abbrev pub pcm_buffer_init : Option (List ℕ) → ℕ → PcmBuffer
pcm_buffer_init storage storage_bytes = record {
  storage = storage;
  capacity = storage_bytes;
  used = 0;
  overflow = false;
}

-- `memcpy` to an offset.
abbrev pub copied : List ℕ → ℕ → List ℕ → List ℕ
copied bytes offset new = take offset bytes ++ new ++ drop (offset + length new) bytes

-- The append to a storage that is there.
unfoldable pub append_to : PcmBuffer → List ℕ → List ℕ → BufferStatus × PcmBuffer
append_to buffer storage pcm =
    if length pcm == 0
    then (buffer_ok, buffer)
    else if ltb (buffer.capacity - buffer.used) (length pcm)
    then (buffer_full, record buffer { overflow = true })
    else (
      buffer_ok,
      record buffer {
        storage = some (copied storage buffer.used pcm);
        used = buffer.used + length pcm;
      },
    )

unfoldable pub pcm_buffer_append : PcmBuffer → List ℕ → BufferStatus × PcmBuffer
pcm_buffer_append buffer pcm = elim (buffer.storage) [
  | none ↦ (buffer_invalid_arg, buffer)
  | some storage ↦
      if buffer.capacity == 0 then (buffer_invalid_arg, buffer) else append_to buffer storage pcm
]

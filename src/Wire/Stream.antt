-- ===== src/Wire/Stream.antt =====
-- What a sender frames is what the receiver's callback gets, however the link cuts the bytes up.
use waveshare.Prelude.{
  ℕ, ◌+◌, ◌%◌, ◌^◌, ◌≤◌, ◌<◌, ◌≡◌, ◌≢◌, refl, ◌∙◌, Bool, true, false, none, some, List, [], ◌∷◌,
  ◌++◌, arith, length,
}
use waveshare.Wire.{
  Decoder, Frame, header_size, max_payload, kind_is_valid, encode_header, after_header,
  consume_header_byte, consume_magic_byte, feed_byte, decoder_feed,
}
use waveshare.Wire.Frames.{
  feed_more, decoder_feed-append, Delivered, header_of, encode_header-good, frame_run, feed_step,
}
use waveshare.Wire.Bounds.{IsValid, AllSound, decoder_feed-Sound}

-- A frame on the link: the header that `encode_header` writes, and the body.
abbrev pub frame_bytes : Frame → List ℕ
frame_bytes f = elim (encode_header f.kind (length f.body) header_size) [
  | none ↦ []
  | some hdr ↦ hdr ++ f.body
]

-- The bytes of frames on the link, one after the other.
abbrev pub stream : List Frame → List ℕ
stream [] = []
stream (f ∷ fs) = frame_bytes f ++ stream fs

frame_bytes-eq :
    (f : Frame)
    → kind_is_valid f.kind ≡ true
    → length f.body ≤ max_payload
    → frame_bytes f ≡ header_of f.kind (length f.body) ++ f.body
frame_bytes-eq f h m = ground (arith, encode_header-good f.kind (length f.body) h m)

Delivered-append :
    {d : Decoder} {fs gs : List Frame} {r : Bool × Decoder × List Frame} (bytes : List ℕ)
    → Delivered d fs r
    → Delivered r.1 gs (decoder_feed r.1 bytes)
    → Delivered d (fs ++ gs) (feed_more r bytes)
Delivered-append bytes a b = ground arith

stream_run :
    (fs : List Frame) (d : Decoder)
    → IsValid d
    → d.header_used ≡ 0
    → AllSound fs
    → Delivered d fs (decoder_feed d (stream fs))
stream_run [] d v i h = unfold decoder_feed in ground arith
stream_run (f ∷ fs) d v i h =
    let one = frame_run f.kind f.body d v i h.0 h.1 in
    let sound = decoder_feed-Sound (header_of f.kind (length f.body) ++ f.body) d v in
    rw (frame_bytes-eq f h.0 h.1, decoder_feed-append)
      (Delivered-append (stream fs) one (stream_run fs _ sound.0 one.is_idle h.2))

-- The reads of a link, one call of `decoder_feed` for each, until one fails.
abbrev pub feed_reads : Decoder → List (List ℕ) → Bool × Decoder × List Frame
feed_reads d [] = (true, d, [])
feed_reads d (bytes ∷ reads) =
    let (ok, e, frames) = decoder_feed d bytes in
    elim ok [
      | false ↦ (false, e, frames)
      | true ↦ let (ok', e', more) = feed_reads e reads in (ok', e', frames ++ more)
    ]

abbrev pub joined : List (List ℕ) → List ℕ
joined [] = []
joined (bytes ∷ reads) = bytes ++ joined reads

feed_reads-joined :
    (reads : List (List ℕ)) (d : Decoder) → feed_reads d reads ≡ decoder_feed d (joined reads)
feed_reads-joined [] d = unfold decoder_feed in refl
feed_reads-joined (bytes ∷ reads) d =
    rw decoder_feed-append (ground (arith, feed_reads-joined reads (decoder_feed d bytes).1))

-- Frames of known kinds, with bodies of at most 4096 bytes, that are sent over the link with the
-- headers of `encode_header`, reach the callback unchanged and in order, however the link cuts the
-- bytes into reads; afterwards the decoder waits for a header and its two counters are as before.
pub feed_reads-Delivered :
    (fs : List Frame) (reads : List (List ℕ)) (d : Decoder)
    → IsValid d
    → d.header_used ≡ 0
    → AllSound fs
    → joined reads ≡ stream fs
    → Delivered d fs (feed_reads d reads)
feed_reads-Delivered fs reads d v i h e = rw (feed_reads-joined, e) (stream_run fs d v i h)

-- Noise before a frame: no byte of it starts the magic.
abbrev pub IsNoise : List ℕ → Type 0
IsNoise [] = Unit {0}
IsNoise (b ∷ bs) = (b ≢ b'A') × IsNoise bs

noise_step :
    (b : ℕ) (d : Decoder)
    → d.header_used ≡ 0
    → b ≢ b'A'
    → feed_byte d b
      ≡ (true, record d { header_used = 0; dropped_bytes = (d.dropped_bytes + 1) % 2 ^ 64 }, [])
unfolding feed_byte consume_header_byte consume_magic_byte after_header
noise_step b d i n = ground arith

-- `frames` handed over, `n` bytes dropped and counted, and a new header awaited.
abbrev pub Skipped : ℕ → Decoder → List Frame → Bool × Decoder × List Frame → Type 0
Skipped n d frames (ok, e, out) =
    (ok ≡ true)
    × (out ≡ frames)
    × (e.header_used ≡ 0)
    × (e.dropped_bytes ≡ (d.dropped_bytes + n) % 2 ^ 64)
    × (e.protocol_errors ≡ d.protocol_errors)

noise_run :
    (bytes : List ℕ) (d : Decoder)
    → d.header_used ≡ 0
    → d.dropped_bytes < 2 ^ 64
    → IsNoise bytes
    → Skipped (length bytes) d [] (decoder_feed d bytes)
noise_run [] d i small h = unfold decoder_feed in ground arith
noise_run (b ∷ bytes) d i small h =
    let e : Decoder = record d {
      header_used = 0;
      dropped_bytes = (d.dropped_bytes + 1) % 2 ^ 64;
    } in
    let rest = noise_run bytes e refl (omega arith) h.1 in
    rw (feed_step b bytes d e (noise_step b d i h.0))
      (rest.0, rest.1, rest.2, rest.3 ∙ omega arith, rest.4)

-- A decoder that waits for a header drops and counts noise that holds no 'A' (the first byte of the
-- magic), byte for byte, and then delivers the frames that follow it, unchanged and in order.
pub decoder_feed-Skipped :
    (bytes : List ℕ) (fs : List Frame) (d : Decoder)
    → IsValid d
    → d.header_used ≡ 0
    → d.dropped_bytes < 2 ^ 64
    → IsNoise bytes
    → AllSound fs
    → Skipped (length bytes) d fs (decoder_feed d (bytes ++ stream fs))
decoder_feed-Skipped bytes fs d v i small h k =
    let noise = noise_run bytes d i small h in
    let sound = decoder_feed-Sound bytes d v in
    let frames = stream_run fs (decoder_feed d bytes).1 sound.0 noise.2 k in
    rw decoder_feed-append (ground (arith, noise, frames))

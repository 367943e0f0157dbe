-- ===== src/Wire/Tests.antt =====
-- Runs of the wire codec, and the theorems at concrete inputs.
use waveshare.Prelude.{ℕ, ◌≡◌, refl, none, some, List, [], ◌∷◌, ◌++◌, arith}
use waveshare.Prelude.Bits.{read_u32_be}
use waveshare.Wire.{
  Frame, request, event, encode_header, secure_zero, decoder_init, reset_frame, check_header,
  after_header, consume_magic_byte, consume_header_byte, consume_payload_byte, feed_byte,
  decoder_feed, kind_is_valid,
}
use waveshare.Wire.Bounds.{Sound, decoder_init-IsValid, decoder_feed-Sound}
use waveshare.Wire.Stream.{stream, feed_reads, feed_reads-Delivered, Skipped, decoder_feed-Skipped}
use waveshare.Wire.Frames.{Delivered}

-- A decoder that runs every callee.
run : List ℕ → List Frame
unfolding decoder_init decoder_feed feed_byte consume_header_byte consume_magic_byte check_header
    after_header consume_payload_byte reset_frame secure_zero kind_is_valid read_u32_be
run bytes = (decoder_feed decoder_init bytes).2

abbrev hello : Frame
hello = record { kind = request; body = b'h' ∷ b'i' ∷ [] }

abbrev ping : Frame
ping = record { kind = event; body = [] }

abbrev hello_bytes : List ℕ
hello_bytes = b'A' ∷ b'Q' ∷ b'M' ∷ b'G' ∷ 1 ∷ 1 ∷ 0 ∷ 0 ∷ 0 ∷ 0 ∷ 0 ∷ 2 ∷ b'h' ∷ b'i' ∷ []

encode_hello :
    encode_header request 2 12
    ≡ some (b'A' ∷ b'Q' ∷ b'M' ∷ b'G' ∷ 1 ∷ 1 ∷ 0 ∷ 0 ∷ 0 ∷ 0 ∷ 0 ∷ 2 ∷ [])
unfolding encode_header
encode_hello = refl

encode_limits :
    (encode_header 4 0 12 ≡ none) × (encode_header 1 4097 12 ≡ none) × (encode_header 1 0 11 ≡ none)
unfolding encode_header
encode_limits = (refl, refl, refl)

-- A false start of the magic is dropped up to its second 'A'.
run_resync : run (b'A' ∷ b'Q' ∷ hello_bytes) ≡ hello ∷ []
unfolding run
run_resync = refl

run_bad_version : run (b'A' ∷ b'Q' ∷ b'M' ∷ b'G' ∷ 2 ∷ 1 ∷ 0 ∷ 0 ∷ 0 ∷ 0 ∷ 0 ∷ 2 ∷ hello_bytes) ≡ []
unfolding run
run_bad_version = refl

decoder_feed-Sound_example : Sound (decoder_feed decoder_init (b'x' ∷ hello_bytes))
decoder_feed-Sound_example =
    decoder_feed-Sound (b'x' ∷ hello_bytes) decoder_init decoder_init-IsValid

reads_hello : hello_bytes ++ [] ≡ stream (hello ∷ [])
unfolding encode_header
reads_hello = refl

feed_reads-Delivered_example : Delivered decoder_init (hello ∷ []) (
    feed_reads decoder_init (
      (b'A' ∷ b'Q' ∷ [])
      ∷ (b'M' ∷ b'G' ∷ 1 ∷ 1 ∷ 0 ∷ 0 ∷ 0 ∷ 0 ∷ 0 ∷ 2 ∷ b'h' ∷ [])
      ∷ (b'i' ∷ [])
      ∷ []))
unfolding decoder_init kind_is_valid
feed_reads-Delivered_example =
    feed_reads-Delivered (hello ∷ [])
      ((b'A' ∷ b'Q' ∷ [])
        ∷ (b'M' ∷ b'G' ∷ 1 ∷ 1 ∷ 0 ∷ 0 ∷ 0 ∷ 0 ∷ 0 ∷ 2 ∷ b'h' ∷ [])
        ∷ (b'i' ∷ [])
        ∷ [])
      decoder_init decoder_init-IsValid refl (refl, omega arith, tt) reads_hello

decoder_feed-Skipped_example :
    Skipped 2 decoder_init
      (ping ∷ hello ∷ [])
      (decoder_feed decoder_init ((0 ∷ b'G' ∷ []) ++ stream (ping ∷ hello ∷ [])))
unfolding decoder_init kind_is_valid
decoder_feed-Skipped_example =
    decoder_feed-Skipped (0 ∷ b'G' ∷ []) (ping ∷ hello ∷ []) decoder_init decoder_init-IsValid refl
      (omega arith) (omega arith, (omega arith, tt)) (refl, omega arith, (refl, omega arith, tt))

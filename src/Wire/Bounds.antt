-- ===== src/Wire/Bounds.antt =====
-- The decoder's buffers: every index that it writes lies inside its array.
use waveshare.Prelude.{
  ℕ, ◌+◌, ◌≤◌, ◌<◌, ◌≡◌, Bool, true, List, [], ◌∷◌, ◌++◌, arith, length, length-set, length-append,
  length-replicate, length-drop, length-take, replicate, drop, set, ◌%◌, ◌^◌, get_or,
}
use waveshare.Prelude.Bits.{read_u32_be}
use waveshare.Wire.{
  Decoder, Frame, header_size, max_payload, kind_is_valid, secure_zero, decoder_init, reset_frame,
  consume_header_byte, check_header, consume_magic_byte, consume_payload_byte, after_header,
  feed_byte, decoder_feed,
}

-- Between two rounds: the arrays keep their sizes, and either a header is being gathered (no
-- payload byte yet), or it is complete and some payload byte is missing.
pub record IsValid (d : Decoder) : Type 0 where
  pub header_fits : length d.header ≡ header_size
  pub payload_fits : length d.payload ≡ max_payload
  pub header_phase :
      d.header_used < header_size → (d.payload_used ≡ 0) × (d.expected_payload_length ≡ 0)
  pub payload_phase :
      header_size ≤ d.header_used
      → (d.header_used ≡ header_size)
        × (d.payload_used < d.expected_payload_length)
        × (d.expected_payload_length ≤ max_payload)
        × (kind_is_valid (get_or d.header 5 0) ≡ true)

length-secure_zero : (n : ℕ) (xs : List ℕ) → n ≤ length xs → length (secure_zero n xs) ≡ length xs
unfolding secure_zero
length-secure_zero n xs h = omega (
  arith,
  length-append (replicate {A = ℕ} n 0) (drop n xs),
  length-replicate {A = ℕ} n 0,
  length-drop n xs,
)

-- What may come out of a reset: a frame's payload has been filled up to its length at most.
IsValid-reset :
    (d : Decoder)
    → length d.payload ≡ max_payload
    → d.payload_used ≤ max_payload
    → IsValid (reset_frame d)
unfolding reset_frame
IsValid-reset d h k = ground (arith, length-secure_zero d.payload_used d.payload)

consume_magic_byte-IsValid :
    (d : Decoder) (b : ℕ) → IsValid d → d.header_used < 4 → IsValid (consume_magic_byte d b)
unfolding consume_magic_byte
consume_magic_byte-IsValid d b v h =
    ground (arith, length-set d.header d.header_used b, length-set d.header 0 b)

-- The good frames: a known kind, and a body that fits the payload buffer.
abbrev pub AllSound : List Frame → Type 0
AllSound [] = Unit {0}
AllSound (f ∷ fs) = (kind_is_valid f.kind ≡ true) × (length f.body ≤ max_payload) × AllSound fs

pub AllSound-append : (fs gs : List Frame) → AllSound fs → AllSound gs → AllSound (fs ++ gs)
AllSound-append [] gs h k = k
AllSound-append (f ∷ fs) gs h k = (h.0, h.1, AllSound-append fs gs h.2 k)

-- The result of one round: the invariant, and what was handed to the callback.
abbrev pub Sound : Bool × Decoder × List Frame → Type 0
Sound (ok, d, frames) = IsValid d × AllSound frames

check_header-Sound :
    (d : Decoder)
    → length d.header ≡ header_size
    → length d.payload ≡ max_payload
    → d.payload_used ≡ 0
    → d.header_used ≡ header_size
    → Sound (after_header (check_header d))
unfolding check_header after_header
check_header-Sound d a b c e = ground (
  arith,
  IsValid-reset (record d { protocol_errors = (d.protocol_errors + 1) % 2 ^ 32 }) b,
  IsValid-reset (record d { expected_payload_length = read_u32_be d.header 8 }) b,
)

after_header-Sound :
    (d : Decoder) → IsValid d → d.header_used < header_size → Sound (after_header (true, d))
unfolding after_header
after_header-Sound d v h = ground arith

used-consume_magic_byte :
    (d : Decoder) (b : ℕ) → d.header_used < 4 → (consume_magic_byte d b).header_used ≤ 4
unfolding consume_magic_byte
used-consume_magic_byte d b h = ground arith

header_byte-Sound :
    (d : Decoder) (b : ℕ)
    → IsValid d
    → d.header_used < header_size
    → Sound (after_header (consume_header_byte d b))
unfolding consume_header_byte
header_byte-Sound d b v h =
    let d' : Decoder = record d {
      header = set d.header d.header_used b;
      header_used = d.header_used + 1;
    } in
    ground (
      arith,
      consume_magic_byte-IsValid d b v,
      used-consume_magic_byte d b,
      after_header-Sound (consume_magic_byte d b),
      length-set d.header d.header_used b,
      after_header-Sound d',
      check_header-Sound d',
    )

payload_byte-Sound :
    (d : Decoder) (b : ℕ)
    → IsValid d
    → header_size ≤ d.header_used
    → Sound (consume_payload_byte d b)
unfolding consume_payload_byte
payload_byte-Sound d b v h =
    let d' : Decoder = record d {
      payload = set d.payload d.payload_used b;
      payload_used = d.payload_used + 1;
    } in
    ground (
      arith,
      length-set d.payload d.payload_used b,
      IsValid-reset d',
      length-take d'.payload_used d'.payload,
    )

feed_byte-Sound : (d : Decoder) (b : ℕ) → IsValid d → Sound (feed_byte d b)
unfolding feed_byte
feed_byte-Sound d b v = ground (arith, header_byte-Sound d b v, payload_byte-Sound d b v)

-- From a valid decoder, whatever bytes arrive, the decoder stays valid, with its indices within the
-- 12-byte header array and the 4096-byte payload array; and every frame that reaches the callback
-- has a known kind and a body of at most 4096 bytes. This holds whether or not the feed stops at a
-- bad header.
pub decoder_feed-Sound : (bytes : List ℕ) (d : Decoder) → IsValid d → Sound (decoder_feed d bytes)
unfolding decoder_feed
decoder_feed-Sound [] d v = (v, tt)
decoder_feed-Sound (b ∷ rest) d v =
    let (ok, e, frames) = feed_byte d b in
    let (ok', e', more) = decoder_feed e rest in
    ground (arith, feed_byte-Sound d b v, decoder_feed-Sound rest e, AllSound-append frames more)

pub decoder_init-IsValid : IsValid decoder_init
unfolding decoder_init
decoder_init-IsValid =
    ground (arith, length-replicate {A = ℕ} 12 0, length-replicate {A = ℕ} max_payload 0)

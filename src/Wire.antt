-- ===== src/Wire.antt =====
-- components/management_transport/src/aiqa_management_wire.c: the framing of the management link.
-- A frame is a 12-byte header (magic, version, kind, two zero bytes, length) and a payload.
-- A callback is a list of the frames handed over, in order; a `size_t` index is a number.
pub mod Bounds
pub mod Frames
pub mod Stream
mod Tests
use waveshare.Prelude.{
  ℕ, zero, suc, ◌+◌, ◌*◌, ◌/◌, ◌%◌, ◌^◌, bit_or, Bool, true, false, not, ◌&&◌, ◌||◌, Option, none,
  some, List, [], ◌∷◌, ◌++◌, ltb, leb, ◌==◌, if◌then◌else◌, length, get_or, set, take, drop,
  replicate,
}
use waveshare.Prelude.Bits.{u32_be, read_u32_be}

abbrev pub version : ℕ
version = 1

abbrev pub header_size : ℕ
header_size = 12

abbrev pub max_payload : ℕ
max_payload = 4096

-- "AQMG"
abbrev pub magic : List ℕ
magic = b'A' ∷ b'Q' ∷ b'M' ∷ b'G' ∷ []

abbrev pub request : ℕ
request = 1

abbrev pub response : ℕ
response = 2

abbrev pub event : ℕ
event = 3

pub kind_is_valid : ℕ → Bool
kind_is_valid kind = kind == request || kind == response || kind == event

-- `none` is `false`: nothing is written. `out_header` is a buffer of `header_capacity` bytes.
pub encode_header : ℕ → ℕ → ℕ → Option (List ℕ)
unfolding u32_be kind_is_valid
encode_header kind payload_length header_capacity =
    if not (kind_is_valid kind) || ltb max_payload payload_length || ltb header_capacity header_size
    then none
    else some (magic ++ version ∷ kind % 256 ∷ 0 ∷ 0 ∷ u32_be (payload_length % 2 ^ 32))

pub record Decoder : Type 0 where
  pub header : List ℕ
  pub header_used : ℕ
  pub payload : List ℕ
  pub payload_used : ℕ
  pub expected_payload_length : ℕ
  pub dropped_bytes : ℕ  -- uint64_t
  pub protocol_errors : ℕ  -- uint32_t

-- One call of `on_frame`.
pub record Frame : Type 0 where
  pub kind : ℕ
  pub body : List ℕ

-- `secure_zero` over the first `n` bytes of a buffer.
pub secure_zero : ℕ → List ℕ → List ℕ
secure_zero n xs = replicate n 0 ++ drop n xs

-- `secure_zero(decoder, sizeof(*decoder))`, of `decoder_init` and of `decoder_secure_clear`
pub decoder_init : Decoder
decoder_init = record {
  header = replicate header_size 0;
  header_used = 0;
  payload = replicate max_payload 0;
  payload_used = 0;
  expected_payload_length = 0;
  dropped_bytes = 0;
  protocol_errors = 0;
}

pub reset_frame : Decoder → Decoder
reset_frame d = record d {
  header = replicate header_size 0;
  payload = if ltb 0 d.payload_used then secure_zero d.payload_used d.payload else d.payload;
  header_used = 0;
  payload_used = 0;
  expected_payload_length = 0;
}

-- The bytes of the magic: a match is stored; after a mismatch an 'A' starts a new header.
pub consume_magic_byte : Decoder → ℕ → Decoder
consume_magic_byte d byte =
    if byte == get_or magic d.header_used 0
    then record d { header = set d.header d.header_used byte; header_used = d.header_used + 1 }
    else if byte == get_or magic 0 0
    then record d {
      header = set d.header 0 byte;
      header_used = 1;
      dropped_bytes = (d.dropped_bytes + 1) % 2 ^ 64;
    }
    else record d { header_used = 0; dropped_bytes = (d.dropped_bytes + 1) % 2 ^ 64 }

-- The check of a complete header.
pub check_header : Decoder → Bool × Decoder
check_header d =
    let payload_length = read_u32_be d.header 8 in
    if not (get_or d.header 4 0 == version)
      || not (kind_is_valid (get_or d.header 5 0))
      || not (get_or d.header 6 0 == 0)
      || not (get_or d.header 7 0 == 0)
      || ltb max_payload payload_length
    then (false, reset_frame (record d { protocol_errors = (d.protocol_errors + 1) % 2 ^ 32 }))
    else (true, record d { expected_payload_length = payload_length })

pub consume_header_byte : Decoder → ℕ → Bool × Decoder
consume_header_byte d byte =
    if ltb d.header_used (length magic)
    then (true, consume_magic_byte d byte)
    else let d' = record d {
      header = set d.header d.header_used byte;
      header_used = d.header_used + 1;
    } in
      if ltb d'.header_used header_size then (true, d') else check_header d'

-- The end of a header byte's round: an empty payload makes a frame at once.
pub after_header : Bool × Decoder → Bool × Decoder × List Frame
after_header (false, d) = (false, d, [])
after_header (true, d) =
    if d.header_used == header_size && d.expected_payload_length == 0
    then (true, reset_frame d, record { kind = get_or d.header 5 0; body = [] } ∷ [])
    else (true, d, [])

-- A byte of the payload; the last one makes the frame.
pub consume_payload_byte : Decoder → ℕ → Bool × Decoder × List Frame
consume_payload_byte d byte =
    let d' = record d {
      payload = set d.payload d.payload_used byte;
      payload_used = d.payload_used + 1;
    } in
    if d'.payload_used == d'.expected_payload_length
    then (
      true,
      reset_frame d',
      record { kind = get_or d'.header 5 0; body = take d'.payload_used d'.payload } ∷ [],
    )
    else (true, d', [])

-- One round of the loop of `decoder_feed`.
pub feed_byte : Decoder → ℕ → Bool × Decoder × List Frame
feed_byte d byte =
    if ltb d.header_used header_size
    then after_header (consume_header_byte d byte)
    else consume_payload_byte d byte

-- The loop; `false` stops it at a bad header, with the rest of the data unread.
pub decoder_feed : Decoder → List ℕ → Bool × Decoder × List Frame
decoder_feed d [] = (true, d, [])
decoder_feed d (byte ∷ rest) =
    let (ok, d', frames) = feed_byte d byte in
    elim ok [
      | false ↦ (false, d', frames)
      | true ↦ let (ok', e, more) = decoder_feed d' rest in (ok', e, frames ++ more)
    ]

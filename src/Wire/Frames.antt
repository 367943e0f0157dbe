-- ===== src/Wire/Frames.antt =====
-- One frame, from the header of `encode_header` and the body, through the decoder.
use waveshare.Prelude.{
  ℕ, suc, ◌+◌, ◌/◌, ◌%◌, ◌^◌, ◌≤◌, ◌<◌, ◌≡◌, ◌≢◌, refl, ap, ◌∙◌, Bool, true, false, some, List, [],
  ◌∷◌, ◌++◌, append-nil, append_assoc, arith, length, get_or, set, take, take-set, length-set,
}
use native.Mathlib.Numerals.{add-one}
use waveshare.Prelude.Bits.{read_u32_be, read_bytes-u32_be}
use waveshare.Wire.{
  Decoder, Frame, header_size, max_payload, magic, version, kind_is_valid, encode_header,
  reset_frame, check_header, after_header, consume_payload_byte, consume_header_byte,
  consume_magic_byte, feed_byte, decoder_feed,
}
use waveshare.Wire.Bounds.{IsValid}

-- A feed that goes on with more bytes, unless it has stopped.
abbrev pub feed_more : Bool × Decoder × List Frame → List ℕ → Bool × Decoder × List Frame
feed_more (ok, d, frames) bytes = elim ok [
  | false ↦ (false, d, frames)
  | true ↦ let (ok', e, more) = decoder_feed d bytes in (ok', e, frames ++ more)
]

-- Feeding two pieces one after the other is feeding them at once, errors included.
pub decoder_feed-append :
    (xs ys : List ℕ) (d : Decoder) → decoder_feed d (xs ++ ys) ≡ feed_more (decoder_feed d xs) ys
unfolding decoder_feed
decoder_feed-append [] ys d = refl
decoder_feed-append (x ∷ xs) ys d =
    let (ok, e, frames) = feed_byte d x in
    let (ok', e', more) = decoder_feed e xs in
    ground (arith, decoder_feed-append xs ys e, append_assoc frames more (decoder_feed e' ys).2)

-- Twelve bytes overwrite the header array, whatever it held.
header_run :
    (hdr pay : List ℕ) (dropped errors k a b c e : ℕ)
    → length hdr ≡ header_size
    → decoder_feed
        (record {
          header = hdr;
          header_used = 0;
          payload = pay;
          payload_used = 0;
          expected_payload_length = 0;
          dropped_bytes = dropped;
          protocol_errors = errors;
        })
        (magic ++ version ∷ k ∷ 0 ∷ 0 ∷ a ∷ b ∷ c ∷ e ∷ [])
      ≡ feed_more
          (after_header (
            check_header (record {
              header = magic ++ version ∷ k ∷ 0 ∷ 0 ∷ a ∷ b ∷ c ∷ e ∷ [];
              header_used = header_size;
              payload = pay;
              payload_used = 0;
              expected_payload_length = 0;
              dropped_bytes = dropped;
              protocol_errors = errors;
            })))
          []
unfolding decoder_feed feed_byte consume_header_byte consume_magic_byte after_header
header_run (a0 ∷ a1 ∷ a2 ∷ a3 ∷ a4 ∷ a5 ∷ a6 ∷ a7 ∷ a8 ∷ a9 ∷ a10 ∷ a11 ∷ []) pay dropped errors k a
      b c e h =
    refl
header_run _ pay dropped errors k a b c e h = absurd (omega arith)

-- What a feed leaves behind when it ends between two frames: it has handed over exactly `frames`,
-- waits for a new header, and has counted no dropped byte and no error.
pub record Delivered (d : Decoder) (frames : List Frame) (r : Bool × Decoder × List Frame)
    : Type 0 where
  pub going_on : r.0 ≡ true
  pub handed_over : r.2 ≡ frames
  pub is_idle : r.1.header_used ≡ 0
  pub same_dropped : r.1.dropped_bytes ≡ d.dropped_bytes
  pub same_errors : r.1.protocol_errors ≡ d.protocol_errors

-- A round that hands over nothing.
pub feed_step :
    (x : ℕ) (rest : List ℕ) (d e : Decoder)
    → feed_byte d x ≡ (true, e, [])
    → decoder_feed d (x ∷ rest) ≡ decoder_feed e rest
unfolding decoder_feed
feed_step x rest d e h = ground arith

-- The decoder with one more byte of the payload.
abbrev stored : Decoder → ℕ → Decoder
stored d x = record d {
  payload = set d.payload d.payload_used x;
  payload_used = d.payload_used + 1;
}

payload_step :
    (x : ℕ) (d : Decoder)
    → header_size ≤ d.header_used
    → d.payload_used + 1 < d.expected_payload_length
    → feed_byte d x ≡ (true, stored d x, [])
unfolding feed_byte consume_payload_byte
payload_step x d h k = ground arith

stored-IsValid :
    (x : ℕ) (d : Decoder)
    → IsValid d
    → header_size ≤ d.header_used
    → d.payload_used + 1 < d.expected_payload_length
    → IsValid (stored d x)
stored-IsValid x d v h k = ground (arith, length-set d.payload d.payload_used x)

body-stored :
    (x : ℕ) (rest : List ℕ) (d : Decoder)
    → d.payload_used < length d.payload
    → take (d.payload_used + 1) (set d.payload d.payload_used x) ++ rest
      ≡ take d.payload_used d.payload ++ x ∷ rest
body-stored x rest d h =
    rw (add-one, take-set d.payload d.payload_used x h)
      (append_assoc (take d.payload_used d.payload) (x ∷ []) rest)

-- The payload phase: the bytes that are missing complete the frame.
abbrev frame_with : Decoder → List ℕ → Frame
frame_with d bytes = record {
  kind = get_or d.header 5 0;
  body = take d.payload_used d.payload ++ bytes;
}

body_run :
    (x : ℕ) (xs : List ℕ) (d : Decoder)
    → IsValid d
    → header_size ≤ d.header_used
    → d.payload_used + suc (length xs) ≡ d.expected_payload_length
    → Delivered d (frame_with d (x ∷ xs) ∷ []) (decoder_feed d (x ∷ xs))
body_run x [] d v h e =
    unfold decoder_feed feed_byte consume_payload_byte reset_frame in
    ground (arith, take-set d.payload d.payload_used x)
body_run x (y ∷ xs) d v h e =
    let shorter : d.payload_used + 1 < d.expected_payload_length = omega arith in
    let rest = body_run y xs (stored d x) (stored-IsValid x d v h shorter) h (omega arith) in
    rw (feed_step x (y ∷ xs) d (stored d x) (payload_step x d h shorter)) (record {
      going_on = rest.going_on;
      handed_over =
          rest.handed_over
          ∙ ap (λ b. record { kind = get_or d.header 5 0; body = b } ∷ [])
              (body-stored x (y ∷ xs) d (omega (arith, v.payload_phase h)));
      is_idle = rest.is_idle;
      same_dropped = rest.same_dropped;
      same_errors = rest.same_errors;
    })

-- The decoder once a good header is in.
abbrev loaded : List ℕ → List ℕ → ℕ → ℕ → ℕ → Decoder
loaded hdr pay n dropped errors = record {
  header = hdr;
  header_used = header_size;
  payload = pay;
  payload_used = 0;
  expected_payload_length = n;
  dropped_bytes = dropped;
  protocol_errors = errors;
}

abbrev pub header_of : ℕ → ℕ → List ℕ
header_of k n =
    magic
    ++ version ∷ k ∷ 0 ∷ 0 ∷ n / 2 ^ 24 % 256 ∷ n / 2 ^ 16 % 256 ∷ n / 2 ^ 8 % 256 ∷ n % 256 ∷ []

check_header-good :
    (k n dropped errors : ℕ) (pay : List ℕ)
    → kind_is_valid k ≡ true
    → n ≤ max_payload
    → check_header (loaded (header_of k n) pay 0 dropped errors)
      ≡ (true, loaded (header_of k n) pay n dropped errors)
unfolding check_header read_u32_be
check_header-good k n dropped errors pay h m = ground (arith, read_bytes-u32_be n)

pub encode_header-good :
    (k n : ℕ)
    → kind_is_valid k ≡ true
    → n ≤ max_payload
    → encode_header k n header_size ≡ some (header_of k n)
unfolding encode_header
encode_header-good k n h m = ground arith

idle_eq :
    (d : Decoder)
    → IsValid d
    → d.header_used ≡ 0
    → d ≡ record (loaded d.header d.payload 0 d.dropped_bytes d.protocol_errors) { header_used = 0 }
idle_eq d v h = ground arith

feed-header :
    (k n : ℕ) (d : Decoder)
    → IsValid d
    → d.header_used ≡ 0
    → kind_is_valid k ≡ true
    → n ≤ max_payload
    → decoder_feed d (header_of k n)
      ≡ feed_more
          (after_header
            (true, loaded (header_of k n) d.payload n d.dropped_bytes d.protocol_errors))
          []
feed-header k n d v i h m =
    ap (λ e. decoder_feed e (header_of k n)) (idle_eq d v i)
    ∙ header_run d.header d.payload d.dropped_bytes d.protocol_errors k (n / 2 ^ 24 % 256)
        (n / 2 ^ 16 % 256) (n / 2 ^ 8 % 256) (n % 256) v.header_fits
    ∙ ap (λ r. feed_more (after_header r) [])
        (check_header-good k n d.dropped_bytes d.protocol_errors d.payload h m)

after_header-nonempty :
    (d : Decoder) → d.expected_payload_length ≢ 0 → after_header (true, d) ≡ (true, d, [])
unfolding after_header
after_header-nonempty d h = ground arith

-- One frame, from its header and its body.
pub frame_run :
    (k : ℕ) (body : List ℕ) (d : Decoder)
    → IsValid d
    → d.header_used ≡ 0
    → kind_is_valid k ≡ true
    → length body ≤ max_payload
    → Delivered d
        (record { kind = k; body = body } ∷ [])
        (decoder_feed d (header_of k (length body) ++ body))
unfolding decoder_feed
frame_run k [] d v i h m =
    rw append-nil (
      rw (feed-header k 0 d v i h m) (unfold decoder_feed after_header reset_frame in ground arith))
frame_run k (x ∷ xs) d v i h m =
    let n : ℕ = length (x ∷ xs) in
    let e = loaded (header_of k n) d.payload n d.dropped_bytes d.protocol_errors in
    let valid : IsValid e = record {
      header_fits = refl;
      payload_fits = v.payload_fits;
      header_phase = λ h. absurd (omega arith);
      payload_phase = λ _. (refl, omega arith, m, h);
    } in
    let rest = body_run x xs e valid (omega arith) (omega arith) in
    rw (decoder_feed-append, feed-header k n d v i h m, after_header-nonempty e (λ z. cc))
      (record {
        going_on = rest.going_on;
        handed_over = rest.handed_over;
        is_idle = rest.is_idle;
        same_dropped = rest.same_dropped;
        same_errors = rest.same_errors;
      })

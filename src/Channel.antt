-- ===== src/Channel.antt =====
-- components/management_session/src/aiqa_secure_channel.c: the records of a paired session.
-- The functions of mbedTLS are parameters. A buffer of the caller is the list of its bytes, as long
-- as its capacity, with its address.
pub mod Records
pub mod Fields
pub mod Opening
pub mod RoundTrip
pub mod Sending
mod Tests
use waveshare.Prelude.{
  ℕ, ◌+◌, ◌-◌, ◌%◌, ◌^◌, Bool, true, false, not, ◌&&◌, ◌||◌, List, [], ◌∷◌, ◌++◌, Option, none,
  some, ltb, leb, ◌==◌, if◌then◌else◌, length, take, drop, replicate, get_or, u64_max, same_bytes,
}
use waveshare.Prelude.Bits.{u32_be, read_u32_be, u64_be, read_u64_from}

pub data Role : Type 0 where
  client device : Role

abbrev pub role_code : Role → ℕ
role_code client = 1
role_code device = 2

abbrev pub peer : Role → Role
peer client = device
peer device = client

pub data Result : Type 0 where
  ok invalid_argument invalid_state buffer_too_small crypto_error auth_failed replay : Result

pub is_ok : Result → Bool
is_ok ok = true
is_ok _ = false

-- `mbedtls_gcm_crypt_and_tag` and `_auth_decrypt` under a key, with the nonce, the additional data and
-- the text, and none for an error; `ct_equal` is whether `mbedtls_ct_memcmp` gives zero.
pub record Mbedtls : Type 0 where
  pub crypt_and_tag : List ℕ → List ℕ → List ℕ → List ℕ → Option (List ℕ × List ℕ)
  pub auth_decrypt : List ℕ → List ℕ → List ℕ → List ℕ → List ℕ → Option (List ℕ)
  pub ct_equal : List ℕ → List ℕ → Bool

-- `struct aiqa_secure_channel`; the two GCM contexts are their keys.
pub record Channel : Type 0 where
  pub send_key : List ℕ
  pub receive_key : List ℕ
  pub local_role : Role
  pub send_nonce_prefix : List ℕ
  pub receive_nonce_prefix : List ℕ
  pub session_id : List ℕ
  pub send_counter : ℕ
  pub receive_counter : ℕ

abbrev pub record_header_size : ℕ
record_header_size = 28

abbrev pub record_tag_size : ℕ
record_tag_size = 16

abbrev pub record_max : ℕ
record_max = 4096

abbrev pub plaintext_max : ℕ
plaintext_max = record_max - record_header_size - record_tag_size

abbrev pub record_magic : List ℕ
record_magic = b'A' ∷ b'Q' ∷ b'S' ∷ b'E' ∷ []

pub frame_kind_is_valid : ℕ → Bool
frame_kind_is_valid kind = leb 1 kind && leb kind 3

pub regions_overlap : ℕ → ℕ → ℕ → ℕ → Bool
regions_overlap first first_length second second_length =
    if first_length == 0 || second_length == 0
    then false
    else if leb first second
    then ltb (second - first) first_length
    else ltb (first - second) second_length

pub send_kind_is_valid : Role → ℕ → Bool
send_kind_is_valid client kind = kind == 1
send_kind_is_valid device kind = kind == 2 || kind == 3

pub receive_kind_is_valid : Role → ℕ → Bool
receive_kind_is_valid client kind = kind == 2 || kind == 3
receive_kind_is_valid device kind = kind == 1

pub make_nonce : List ℕ → ℕ → List ℕ
make_nonce prefix counter = prefix ++ u64_be counter

pub make_outer_header : ℕ → ℕ → List ℕ
make_outer_header kind payload_length =
    b'A' ∷ b'Q' ∷ b'M' ∷ b'G' ∷ 1 ∷ kind ∷ 0 ∷ 0 ∷ u32_be payload_length

-- The first 28 bytes of a record.
pub record_header : Channel → ℕ → List ℕ
record_header c plaintext_length =
    record_magic
    ++ 1 ∷ role_code c.local_role ∷ 0 ∷ 0 ∷ c.session_id
    ++ u64_be c.send_counter
    ++ u32_be plaintext_length

-- Bytes written at the start of a buffer.
abbrev pub written : List ℕ → List ℕ → List ℕ
written bytes buffer = bytes ++ drop (length bytes) buffer

abbrev pub zeroized : List ℕ → List ℕ
zeroized buffer = replicate (length buffer) 0

-- The call of the cipher in `encrypt`.
pub sealed : Mbedtls → Channel → ℕ → List ℕ → Option (List ℕ × List ℕ)
unfolding record_header make_nonce make_outer_header
sealed m c kind plaintext =
    let record_length = record_header_size + length plaintext + record_tag_size in
    m.crypt_and_tag c.send_key (make_nonce c.send_nonce_prefix c.send_counter)
      (make_outer_header kind record_length ++ record_header c (length plaintext)) plaintext

-- The end of `encrypt`, on the answer of the cipher.
pub seal : Channel → List ℕ → List ℕ → ℕ → Option (List ℕ × List ℕ) → Result × ℕ × List ℕ × Channel
seal c header output record_length none =
    (crypto_error, 0, written (replicate record_length 0) output, c)
seal c header output record_length (some (text, tag)) = (
  ok,
  record_length,
  written (header ++ text ++ tag) output,
  record c { send_counter = (c.send_counter + 1) % 2 ^ 64 },
)

-- The result, `*out_length`, the output buffer and the channel.
pub encrypt : Mbedtls → Channel → ℕ → ℕ × List ℕ → ℕ × List ℕ → Result × ℕ × List ℕ × Channel
unfolding seal sealed record_header
encrypt m c kind (plaintext_address, plaintext) (output_address, output) =
    let record_length = record_header_size + length plaintext + record_tag_size in
    let header = record_header c (length plaintext) in
    if not (frame_kind_is_valid kind)
    then (invalid_argument, 0, output, c)
    else if not (send_kind_is_valid c.local_role kind)
    then (invalid_argument, 0, output, c)
    else if ltb plaintext_max (length plaintext)
    then (invalid_argument, 0, output, c)
    else if regions_overlap plaintext_address (length plaintext) output_address record_length
    then (invalid_argument, 0, output, c)
    else if ltb (length output) record_length
    then (buffer_too_small, 0, output, c)
    else if c.send_counter == u64_max
    then (invalid_state, 0, output, c)
    else seal c header output record_length (sealed m c kind plaintext)

-- The call of the cipher in `decrypt`.
pub opened : Mbedtls → Channel → ℕ → List ℕ → Option (List ℕ)
unfolding make_nonce make_outer_header
opened m c kind bytes =
    let ciphertext_length = read_u32_be bytes 24 in
    m.auth_decrypt c.receive_key
      (make_nonce c.receive_nonce_prefix (read_u64_from 0 (take 8 (drop 16 bytes))))
      (make_outer_header kind (length bytes) ++ take record_header_size bytes)
      (take record_tag_size (drop (record_header_size + ciphertext_length) bytes))
      (take ciphertext_length (drop record_header_size bytes))

-- The end of `decrypt`, on the answer of the cipher: the buffer has been zeroized.
pub unseal : Channel → List ℕ → ℕ → Option (List ℕ) → Result × ℕ × List ℕ × Channel
unseal c plaintext ciphertext_length none = (auth_failed, 0, zeroized plaintext, c)
unseal c plaintext ciphertext_length (some text) = (
  ok,
  ciphertext_length,
  written text (zeroized plaintext),
  record c { receive_counter = (c.receive_counter + 1) % 2 ^ 64 },
)

-- The checks of the header before the counter.
pub header_is_good : Mbedtls → Channel → List ℕ → ℕ → Bool
header_is_good m c bytes capacity =
    let ciphertext_length = read_u32_be bytes 24 in
    leb (record_header_size + record_tag_size) (length bytes)
    && leb (length bytes) record_max
    && same_bytes (take 4 bytes) record_magic
    && get_or bytes 4 0 == 1
    && get_or bytes 6 0 == 0
    && get_or bytes 7 0 == 0
    && get_or bytes 5 0 == role_code (peer c.local_role)
    && m.ct_equal (take 8 (drop 8 bytes)) c.session_id
    && leb ciphertext_length plaintext_max
    && ciphertext_length + record_header_size + record_tag_size == length bytes
    && leb ciphertext_length capacity

abbrev pub record_counter : List ℕ → ℕ
record_counter bytes = read_u64_from 0 (take 8 (drop 16 bytes))

-- The result, `*out_plaintext_length`, the plaintext buffer and the channel.
pub decrypt : Mbedtls → Channel → ℕ → ℕ × List ℕ → ℕ × List ℕ → Result × ℕ × List ℕ × Channel
unfolding unseal opened header_is_good
decrypt m c kind (record_address, bytes) (plaintext_address, plaintext) =
    let ciphertext_length = read_u32_be bytes 24 in
    let counter = record_counter bytes in
    if not (frame_kind_is_valid kind)
    then (invalid_argument, 0, zeroized plaintext, c)
    else if regions_overlap record_address (length bytes) plaintext_address (length plaintext)
    then (invalid_argument, 0, zeroized plaintext, c)
    else if not (receive_kind_is_valid c.local_role kind)
    then (auth_failed, 0, zeroized plaintext, c)
    else if not (header_is_good m c bytes (length plaintext))
    then (auth_failed, 0, zeroized plaintext, c)
    else if not (counter == c.receive_counter) || counter == u64_max
    then (replay, 0, zeroized plaintext, c)
    else unseal c plaintext ciphertext_length (opened m c kind bytes)

-- The session id, copied.
abbrev pub copy_session_id : Channel → List ℕ
copy_session_id c = c.session_id

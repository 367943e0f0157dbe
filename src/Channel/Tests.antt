-- ===== src/Channel/Tests.antt =====
-- A channel with a cipher that copies, and the theorems at concrete inputs.
use waveshare.Prelude.{
  ℕ, ◌+◌, ◌<◌, ◌≡◌, ◌≢◌, refl, ◌⊎◌, List, [], ◌∷◌, ◌++◌, Option, some, arith, ap, sym, length, take,
  false, replicate, u64_max, same_bytes, true,
}
use waveshare.Prelude.Bits.{u32_be, read_u32_be, u64_be, read_u64_from}
use waveshare.Channel.{
  client, device, ok, Mbedtls, Channel, frame_kind_is_valid, regions_overlap, send_kind_is_valid,
  receive_kind_is_valid, make_nonce, make_outer_header, record_header, seal, sealed, encrypt,
  unseal, opened, header_is_good, record_counter, decrypt, zeroized,
}
use waveshare.Channel.Opening.{Gcm, Paired}
use waveshare.Channel.RoundTrip.{decrypt-encrypt}
use waveshare.Channel.Records.{
  Refused, decrypt_lem, decrypt_twice, Message, Use, sends, receives, use_all,
}

-- The tag is sixteen zeros, and is not looked at.
abbrev copying : Mbedtls
copying = record {
  crypt_and_tag = λ key nonce aad text. some (text, replicate 16 0);
  auth_decrypt = λ key nonce aad tag text. some text;
  ct_equal = λ x y. true;
}

abbrev from_client : Channel
from_client = record {
  send_key = [];
  receive_key = [];
  local_role = client;
  send_nonce_prefix = 1 ∷ 2 ∷ 3 ∷ 4 ∷ [];
  receive_nonce_prefix = 5 ∷ 6 ∷ 7 ∷ 8 ∷ [];
  session_id = replicate 8 9;
  send_counter = 1;
  receive_counter = 1;
}

abbrev to_device : Channel
to_device = record from_client { local_role = device }

abbrev greeting : List ℕ
greeting = 104 ∷ 105 ∷ []

abbrev sent : List ℕ
sent =
    65 ∷ 81 ∷ 83 ∷ 69 ∷ 1 ∷ 1 ∷ 0 ∷ 0 ∷ replicate 8 9
    ++ 0 ∷ 0 ∷ 0 ∷ 0 ∷ 0 ∷ 0 ∷ 0 ∷ 1 ∷ 0 ∷ 0 ∷ 0 ∷ 2 ∷ 104 ∷ 105 ∷ replicate 16 0

seals :
    let (result, n, buffer, c) =
      encrypt copying from_client 1 (0, greeting) (100, replicate 46 7) in
    (result ≡ ok) × (n ≡ 46) × (buffer ≡ sent) × (c.send_counter ≡ 2)
unfolding encrypt sealed seal record_header make_nonce make_outer_header frame_kind_is_valid
    send_kind_is_valid regions_overlap u32_be u64_be
seals = (refl, refl, refl, refl)

reads : (decrypt copying to_device 1 (0, sent) (100, replicate 4 7)).0 ≡ ok
unfolding decrypt opened unseal header_is_good make_nonce make_outer_header frame_kind_is_valid
    receive_kind_is_valid regions_overlap u32_be u64_be read_u32_be read_u64_from same_bytes
reads = refl

decrypt_lem_example :
    let r = decrypt copying to_device 1 (0, sent) (100, replicate 4 7) in
    Refused to_device (zeroized (replicate 4 7)) r
    ⊎ ((r.0 ≡ ok)
        × (record_counter sent ≡ 1)
        × (1 < u64_max)
        × (r.3 ≡ record to_device { receive_counter = 1 + 1 }))
decrypt_lem_example = decrypt_lem copying to_device 1 0 100 sent (replicate 4 7) (omega arith)

abbrev two_messages : List Message
two_messages =
    record {
      kind = 1;
      address = 0;
      plaintext = greeting;
      output_address = 100;
      output = replicate 46 7;
    }
    ∷ record {
      kind = 1;
      address = 0;
      plaintext = greeting;
      output_address = 100;
      output = replicate 46 7;
    }
    ∷ []

-- The record that was read comes again and is refused, and one goes out.
abbrev meanwhile : List Use
meanwhile =
    receives
      (record { kind = 1; address = 0; bytes = sent; plaintext_address = 100; plaintext = [] })
    ∷ sends (record {
      kind = 2;
      address = 0;
      plaintext = greeting;
      output_address = 100;
      output = replicate 46 7;
    })
    ∷ []

decrypt_twice_example :
    let (result, n, buffer, c) = decrypt copying to_device 1 (0, sent) (100, replicate 4 7) in
    (decrypt copying (use_all copying c meanwhile) 1 (0, sent) (100, replicate 4 7)).0 ≢ ok
decrypt_twice_example =
    decrypt_twice copying to_device 1 0 100 sent (replicate 4 7) meanwhile 1 0 100 sent
      (replicate 4 7) (omega arith) (omega arith) refl reads

pair_equal :
    (x y u v : List ℕ)
    → ◌≡◌ {A = Option (List ℕ × List ℕ)} (some (x, y)) (some (u, v))
    → (x ≡ u) × (y ≡ v)
pair_equal x y u v e = ground (arith, e)

copying-Gcm : Gcm copying
copying-Gcm = record {
  opens = λ key nonce aad text cipher tag e. ap some (sym (pair_equal _ _ _ _ e).0);
  cipher_length = λ key nonce aad text cipher tag e. ap length (sym (pair_equal _ _ _ _ e).0);
  tag_length = λ key nonce aad text cipher tag e. ap length (sym (pair_equal _ _ _ _ e).1);
  self_equal = λ bytes. refl;
}

abbrev from_device : Channel
from_device = record from_client {
  local_role = device;
  send_nonce_prefix = 5 ∷ 6 ∷ 7 ∷ 8 ∷ [];
  receive_nonce_prefix = 1 ∷ 2 ∷ 3 ∷ 4 ∷ [];
}

ends-Paired : Paired from_client from_device
ends-Paired = record {
  same_key = refl;
  same_prefix = refl;
  same_session = refl;
  session_length = refl;
  other_end = refl;
  in_step = refl;
  bounded = omega arith;
}

was_sent : (encrypt copying from_client 1 (0, greeting) (100, replicate 46 7)).0 ≡ ok
unfolding encrypt sealed seal record_header make_nonce make_outer_header frame_kind_is_valid
    send_kind_is_valid regions_overlap u32_be u64_be
was_sent = refl

abbrev room : List ℕ
room = replicate 4 7

apart :
    let (result, n, buffer, s) =
      encrypt copying from_client 1 (0, greeting) (100, replicate 46 7) in
    regions_overlap 200 (length (take n buffer)) 300 (length room) ≡ false
unfolding encrypt sealed seal record_header make_nonce make_outer_header frame_kind_is_valid
    send_kind_is_valid regions_overlap u32_be u64_be
apart = refl

decrypt-encrypt_example :
    let (result, n, buffer, s) =
      encrypt copying from_client 1 (0, greeting) (100, replicate 46 7) in
    let (result', n', text, r) = decrypt copying from_device 1 (200, take n buffer) (300, room) in
    (result' ≡ ok) × (n' ≡ 2) × (take n' text ≡ greeting) × Paired s r
decrypt-encrypt_example =
    decrypt-encrypt copying from_client from_device 1 0 100 200 300 greeting (replicate 46 7) room
      copying-Gcm ends-Paired was_sent apart (omega arith)

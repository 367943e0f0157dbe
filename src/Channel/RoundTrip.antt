-- ===== src/Channel/RoundTrip.antt =====
-- A record that one end seals is read by the other.
use waveshare.Prelude.{
  ℕ, ◌+◌, ◌<◌, ◌≤◌, ◌≡◌, refl, sym, ap, subst, ◌∙◌, inl, inr, true, false, List, ◌++◌, some,
  Option-cases, arith, length, take, drop, u64_max, append_assoc, length-append,
}
use waveshare.Prelude.Bits.{read_u32_be}
use waveshare.Channel.{
  role_code, Result, ok, record_header_size, record_tag_size, plaintext_max, record_header, Mbedtls,
  Channel, frame_kind_is_valid, regions_overlap, send_kind_is_valid, receive_kind_is_valid, sealed,
  seal, encrypt, unseal, decrypt, written, zeroized,
}
use waveshare.Channel.Fields.{IsRecord, head_of-IsRecord}
use waveshare.Channel.Opening.{
  Gcm, Paired, IsSealed, take_front, decrypt-unseal, peer_receives, IsSealed-good, IsSealed-counter,
  IsSealed-opened,
}

-- What a call of `encrypt` that succeeds has passed.
pub record Sent (m : Mbedtls) (s : Channel) (kind : ℕ) (plaintext output : List ℕ)
    (result : Result × ℕ × List ℕ × Channel) : Type 0 where
  kind_valid : frame_kind_is_valid kind ≡ true
  may_send : send_kind_is_valid s.local_role kind ≡ true
  fits : length plaintext ≤ plaintext_max
  not_last : s.send_counter < u64_max
  cipher : List ℕ
  tag : List ℕ
  sealing : sealed m s kind plaintext ≡ some (cipher, tag)
  total : result.1 ≡ record_header_size + length plaintext + record_tag_size
  buffer : result.2 ≡ written (record_header s (length plaintext) ++ cipher ++ tag) output
  channel : result.3 ≡ record s { send_counter = s.send_counter + 1 }

pub encrypt-Sent :
    (m : Mbedtls) (s : Channel) (kind a b : ℕ) (plaintext output : List ℕ)
    → s.send_counter ≤ u64_max
    → let result = encrypt m s kind (a, plaintext) (b, output) in
      result.0 ≡ ok → Sent m s kind plaintext output result
unfolding encrypt seal
encrypt-Sent m s kind a b plaintext output bounded h =
    elim (Option-cases (sealed m s kind plaintext)) [
      | inl e ↦ absurd (ground (arith, h, e))
      | inr ((cipher, tag), e) ↦ record {
        kind_valid = ground (arith, h, e);
        may_send = ground (arith, h, e);
        fits = ground (arith, h, e);
        not_last = ground (arith, h, e);
        cipher = cipher;
        tag = tag;
        sealing = e;
        total = ground (arith, h, e);
        buffer = ground (arith, h, e);
        channel = ground (arith, h, e);
      }
    ]

-- The bytes that `encrypt` reports.
pub Sent-IsSealed :
    (m : Mbedtls) (s : Channel) (kind : ℕ) (plaintext output : List ℕ)
    (result : Result × ℕ × List ℕ × Channel)
    → Gcm m
    → length s.session_id ≡ 8
    → Sent m s kind plaintext output result
    → IsSealed m s kind plaintext (take (result.1) (result.2))
unfolding record_header sealed
Sent-IsSealed m s kind plaintext output result gcm eight sent =
    let header = record_header s (length plaintext) in
    let rest = sent.cipher ++ sent.tag in
    let f =
      head_of-IsRecord (role_code s.local_role) s.session_id s.send_counter (length plaintext) rest
        eight (omega (arith, sent.fits)) in
    let cipher_length = gcm.cipher_length _ _ _ _ _ _ sent.sealing in
    let tag_length = gcm.tag_length _ _ _ _ _ _ sent.sealing in
    let total = length-append sent.cipher sent.tag in
    let whole = length-append header rest in
    let size = f.size in
    let assoc : header ++ sent.cipher ++ sent.tag ≡ header ++ rest =
      append_assoc header sent.cipher sent.tag in
    let same : take (result.1) (result.2) ≡ header ++ rest =
      ap (λ b. take (result.1) b) sent.buffer
      ∙ take_front (header ++ sent.cipher ++ sent.tag) _ (result.1) (
          sent.total
          ∙ omega (arith, size, total, cipher_length, tag_length)
          ∙ ap length (sym assoc))
      ∙ assoc in
    record {
      cipher = sent.cipher;
      tag = sent.tag;
      sealing = sent.sealing;
      bytes_eq = same;
      fields =
          subst
            (IsRecord (role_code s.local_role) s.session_id s.send_counter (length plaintext) rest)
            (sym same) f;
      cipher_size = cipher_length;
      tag_size = tag_length;
      header_size = omega (arith, size, whole, total);
    }

-- The end of a reading that succeeds.
unseal-some :
    (r : Channel) (out text : List ℕ) (n : ℕ)
    → r.receive_counter < u64_max
    → length text ≡ n
    → let (result, out_length, buffer, r') = unseal r out n (some text) in
      (result ≡ ok)
      × (out_length ≡ n)
      × (take out_length buffer ≡ text)
      × (r' ≡ record r { receive_counter = r.receive_counter + 1 })
unfolding unseal
unseal-some r out text n bounded e =
    (refl, refl, take_front text (drop (length text) (zeroized out)) n (sym e), ground arith)

next-Paired :
    (s s' r r' : Channel)
    → Paired s r
    → s.send_counter < u64_max
    → s' ≡ record s { send_counter = s.send_counter + 1 }
    → r' ≡ record r { receive_counter = r.receive_counter + 1 }
    → Paired s' r'
next-Paired s s' r r' pair bounded e e' =
    let next : Paired (record s { send_counter = s.send_counter + 1 })
        (record r { receive_counter = r.receive_counter + 1 }) =
      record {
        same_key = pair.same_key;
        same_prefix = pair.same_prefix;
        same_session = pair.same_session;
        session_length = pair.session_length;
        other_end = pair.other_end;
        in_step = ap (λ n. n + 1) pair.in_step;
        bounded = omega arith;
      } in
    subst (λ x. Paired x r') (sym e) (subst (Paired _) (sym e') next)

-- A record that `encrypt` made, with the buffers apart and room for the text, is read by the other end
-- as the text that was sent, and the two ends stay in step for the next one.
pub decrypt-encrypt :
    (m : Mbedtls) (s r : Channel) (kind a b c d : ℕ) (plaintext output out : List ℕ)
    → Gcm m
    → Paired s r
    → let (result, n, buffer, s') = encrypt m s kind (a, plaintext) (b, output) in
      let bytes = take n buffer in
      result ≡ ok
      → regions_overlap c (length bytes) d (length out) ≡ false
      → length plaintext ≤ length out
      → let (result', n', text, r') = decrypt m r kind (c, bytes) (d, out) in
        (result' ≡ ok) × (n' ≡ length plaintext) × (take n' text ≡ plaintext) × Paired s' r'
decrypt-encrypt m s r kind a b c d plaintext output out gcm pair h apart room =
    let result = encrypt m s kind (a, plaintext) (b, output) in
    let bytes = take (result.1) (result.2) in
    let sent = encrypt-Sent m s kind a b plaintext output pair.bounded h in
    let sealing = Sent-IsSealed m s kind plaintext output result gcm pair.session_length sent in
    let in_step = pair.in_step in
    let not_last = sent.not_last in
    let received =
      subst (λ role. receive_kind_is_valid role kind ≡ true) (sym pair.other_end)
        (peer_receives s.local_role kind sent.may_send) in
    let computed =
      decrypt-unseal m r kind c d bytes out sent.kind_valid apart received
        (IsSealed-good m s r kind (length out) plaintext bytes gcm pair sealing sent.fits room)
        (IsSealed-counter m s kind plaintext bytes sealing not_last ∙ sym in_step)
        (omega (arith, in_step, not_last))
      ∙ ap (unseal r out (read_u32_be bytes 24))
          (IsSealed-opened m s r kind plaintext bytes gcm pair sealing not_last)
      ∙ ap (λ n. unseal r out n (some plaintext)) sealing.fields.text_length in
    let Reads : Result × ℕ × List ℕ × Channel → Type 0 = λ x.
      (x.0 ≡ ok)
      × (x.1 ≡ length plaintext)
      × (take x.1 x.2 ≡ plaintext)
      × (x.3 ≡ record r { receive_counter = r.receive_counter + 1 }) in
    let (read, count, text, channel) =
      subst Reads (sym computed)
        (unseal-some r out plaintext (length plaintext) (omega (arith, in_step, not_last)) refl) in
    (read, count, text, next-Paired s _ r _ pair not_last sent.channel channel)

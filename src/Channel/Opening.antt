-- ===== src/Channel/Opening.antt =====
-- What a record of one end is at the other, if GCM opens what it sealed.
use waveshare.Prelude.{
  ℕ, ◌+◌, ◌<◌, ◌≤◌, ◌≡◌, refl, sym, ap, subst, ◌∙◌, true, false, List, [], ◌++◌, some, arith,
  length, take, drop, u64_max, same_bytes, append-nil, append_assoc, length-append, take-append,
  drop-append,
}
use waveshare.Prelude.Bits.{read_u32_be, read_u64_from, read_u64-u64_be}
use waveshare.Channel.{
  Role, client, device, role_code, peer, record_header_size, record_tag_size, plaintext_max,
  record_header, Mbedtls, Channel, frame_kind_is_valid, regions_overlap, send_kind_is_valid,
  receive_kind_is_valid, sealed, opened, unseal, header_is_good, record_counter, decrypt,
}
use waveshare.Channel.Fields.{IsRecord}

-- What the records rely on: GCM opens what it sealed, with a text of the same length and a tag of 16
-- bytes, and a comparison of equal bytes finds no difference.
pub record Gcm (m : Mbedtls) : Type 0 where
  pub opens :
      (key nonce aad text cipher tag : List ℕ)
      → m.crypt_and_tag key nonce aad text ≡ some (cipher, tag)
      → m.auth_decrypt key nonce aad tag cipher ≡ some text
  pub cipher_length :
      (key nonce aad text cipher tag : List ℕ)
      → m.crypt_and_tag key nonce aad text ≡ some (cipher, tag)
      → length cipher ≡ length text
  pub tag_length :
      (key nonce aad text cipher tag : List ℕ)
      → m.crypt_and_tag key nonce aad text ≡ some (cipher, tag)
      → length tag ≡ record_tag_size
  pub self_equal : (bytes : List ℕ) → m.ct_equal bytes bytes ≡ true

-- `r` is the other end of what `s` sends.
pub record Paired (s r : Channel) : Type 0 where
  pub same_key : r.receive_key ≡ s.send_key
  pub same_prefix : r.receive_nonce_prefix ≡ s.send_nonce_prefix
  pub same_session : r.session_id ≡ s.session_id
  pub session_length : length s.session_id ≡ 8
  pub other_end : r.local_role ≡ peer s.local_role
  pub in_step : r.receive_counter ≡ s.send_counter
  pub bounded : s.send_counter ≤ u64_max

-- Bytes that are a record of `s`.
pub record IsSealed (m : Mbedtls) (s : Channel) (kind : ℕ) (plaintext bytes : List ℕ) : Type 0 where
  pub cipher : List ℕ
  pub tag : List ℕ
  pub sealing : sealed m s kind plaintext ≡ some (cipher, tag)
  pub bytes_eq : bytes ≡ record_header s (length plaintext) ++ (cipher ++ tag)
  pub fields :
      IsRecord
        (role_code s.local_role)
        s.session_id
        s.send_counter
        (length plaintext)
        (cipher ++ tag)
        bytes
  pub cipher_size : length cipher ≡ length plaintext
  pub tag_size : length tag ≡ 16
  pub header_size : length (record_header s (length plaintext)) ≡ 28

drop_both : (xs ys zs : List ℕ) (n : ℕ) → n ≡ length xs + length ys → drop n (xs ++ ys ++ zs) ≡ zs
drop_both xs ys zs n e = rw (e ∙ sym (length-append xs ys)) (drop-append (xs ++ ys) zs)

pub take_front : (xs ys : List ℕ) (n : ℕ) → n ≡ length xs → take n (xs ++ ys) ≡ xs
take_front xs ys n e = rw e (take-append xs ys)

take_all : (xs : List ℕ) (n : ℕ) → n ≡ length xs → take n xs ≡ xs
take_all xs n e = subst (λ l. take n l ≡ xs) (append-nil xs) (take_front xs [] n e)

pub decrypt-unseal :
    (m : Mbedtls) (r : Channel) (kind a b : ℕ) (bytes out : List ℕ)
    → frame_kind_is_valid kind ≡ true
    → regions_overlap a (length bytes) b (length out) ≡ false
    → receive_kind_is_valid r.local_role kind ≡ true
    → header_is_good m r bytes (length out) ≡ true
    → record_counter bytes ≡ r.receive_counter
    → r.receive_counter < u64_max
    → decrypt m r kind (a, bytes) (b, out)
      ≡ unseal r out (read_u32_be bytes 24) (opened m r kind bytes)
unfolding decrypt
decrypt-unseal m r kind a b bytes out valid apart received good counter bounded = ground arith

pub peer_receives :
    (role : Role) (kind : ℕ)
    → send_kind_is_valid role kind ≡ true
    → receive_kind_is_valid (peer role) kind ≡ true
unfolding send_kind_is_valid receive_kind_is_valid
peer_receives client kind h = h
peer_receives device kind h = h

peer_twice : (role : Role) → peer (peer role) ≡ role
peer_twice client = refl
peer_twice device = refl

good_by :
    (m : Mbedtls) (r : Channel) (session_id rest bytes : List ℕ) (counter len capacity : ℕ)
    → IsRecord (role_code (peer r.local_role)) session_id counter len rest bytes
    → m.ct_equal session_id r.session_id ≡ true
    → length rest ≡ len + 16
    → len ≤ plaintext_max
    → len ≤ capacity
    → header_is_good m r bytes capacity ≡ true
unfolding header_is_good same_bytes
good_by m r session_id rest bytes counter len capacity f same size fits room =
    rw
      (
        f.text_length, f.magic, f.version, f.role_byte, f.flags, f.reserved, f.session, same,
        f.size, size,
      )
      (ground arith)

opened_by :
    (m : Mbedtls) (s r : Channel) (kind : ℕ) (plaintext bytes cipher tag : List ℕ)
    → Gcm m
    → Paired s r
    → sealed m s kind plaintext ≡ some (cipher, tag)
    → read_u32_be bytes 24 ≡ length plaintext
    → record_counter bytes ≡ s.send_counter
    → length bytes ≡ record_header_size + length plaintext + record_tag_size
    → take record_header_size bytes ≡ record_header s (length plaintext)
    → take record_tag_size (drop (record_header_size + length plaintext) bytes) ≡ tag
    → take (length plaintext) (drop record_header_size bytes) ≡ cipher
    → opened m r kind bytes ≡ some plaintext
unfolding opened sealed
opened_by m s r kind plaintext bytes cipher tag gcm pair e len counter size header tag_eq
      cipher_eq =
    rw (len, pair.same_key, pair.same_prefix, counter, size, header, tag_eq, cipher_eq, opened)
      (gcm.opens _ _ _ _ _ _ e)

-- The header of a record of `s` passes the checks of its other end.
pub IsSealed-good :
    (m : Mbedtls) (s r : Channel) (kind capacity : ℕ) (plaintext bytes : List ℕ)
    → Gcm m
    → Paired s r
    → IsSealed m s kind plaintext bytes
    → length plaintext ≤ plaintext_max
    → length plaintext ≤ capacity
    → header_is_good m r bytes capacity ≡ true
IsSealed-good m s r kind capacity plaintext bytes gcm pair sealing fits room =
    let rest = sealing.cipher ++ sealing.tag in
    let rest_length = length-append sealing.cipher sealing.tag in
    let far_end : peer r.local_role ≡ s.local_role =
      ap peer pair.other_end ∙ peer_twice s.local_role in
    let f =
      subst
        (λ role.
          IsRecord (role_code role) s.session_id s.send_counter (length plaintext) rest bytes)
        (sym far_end) sealing.fields in
    let same_id =
      subst (λ x. m.ct_equal s.session_id x ≡ true) (sym pair.same_session)
        (gcm.self_equal s.session_id) in
    good_by m r s.session_id rest bytes s.send_counter (length plaintext) capacity f same_id
      (rest_length
        ∙ ap (λ n. n + length sealing.tag) sealing.cipher_size
        ∙ ap (λ n. length plaintext + n) sealing.tag_size)
      fits room

pub IsSealed-counter :
    (m : Mbedtls) (s : Channel) (kind : ℕ) (plaintext bytes : List ℕ)
    → IsSealed m s kind plaintext bytes
    → s.send_counter < u64_max
    → record_counter bytes ≡ s.send_counter
IsSealed-counter m s kind plaintext bytes sealing bounded =
    ap (read_u64_from 0) sealing.fields.counter_bytes ∙ read_u64-u64_be s.send_counter (omega arith)

-- The cipher opens a record of `s` at its other end.
pub IsSealed-opened :
    (m : Mbedtls) (s r : Channel) (kind : ℕ) (plaintext bytes : List ℕ)
    → Gcm m
    → Paired s r
    → IsSealed m s kind plaintext bytes
    → s.send_counter < u64_max
    → opened m r kind bytes ≡ some plaintext
unfolding record_header
IsSealed-opened m s r kind plaintext bytes gcm pair sealing bounded =
    let header = record_header s (length plaintext) in
    let cipher = sealing.cipher in
    let tag = sealing.tag in
    let f = sealing.fields in
    let cipher_size = sealing.cipher_size in
    let tag_size = sealing.tag_size in
    let header_size = sealing.header_size in
    let rest_length = length-append cipher tag in
    let behind =
      drop_both header cipher tag (28 + length plaintext)
        (omega (arith, cipher_size, header_size)) in
    opened_by m s r kind plaintext bytes cipher tag gcm pair sealing.sealing f.text_length
      (IsSealed-counter m s kind plaintext bytes sealing bounded)
      (f.size ∙ omega (arith, rest_length, cipher_size, tag_size)) f.whole_header
      (ap (λ x. take 16 (drop (28 + length plaintext) x))
          (sealing.bytes_eq ∙ sym (append_assoc header cipher tag))
        ∙ ap (take 16) behind
        ∙ take_all tag 16 (sym tag_size))
      (ap (take (length plaintext)) f.body ∙ take_front cipher tag _ (sym cipher_size))

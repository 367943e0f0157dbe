-- ===== src/Channel/Records.antt =====
-- The two counters of the channel, over calls of `encrypt` and `decrypt`.
use waveshare.Prelude.{
  ℕ, ◌+◌, ◌<◌, ◌≤◌, ◌≡◌, ◌≢◌, refl, ap, ◌⊎◌, inl, inr, List, [], ◌∷◌, Option, none, some, arith,
  length, u64_max,
}
use waveshare.Prelude.Bits.{read_u32_be}
use waveshare.Channel.{
  Result, ok, record_header_size, record_tag_size, record_header, Mbedtls, Channel, seal, encrypt,
  unseal, record_counter, decrypt, zeroized, sealed, opened,
}

-- A refusal: no bytes are reported, the buffer is as given, and the channel is unchanged.
abbrev pub Refused : Channel → List ℕ → Result × ℕ × List ℕ × Channel → Type 0
Refused c buffer (result, out_length, buffer', c') =
    (result ≢ ok) × (out_length ≡ 0) × (buffer' ≡ buffer) × (c' ≡ c)

unseal-cases :
    (c : Channel) (plaintext : List ℕ) (n : ℕ) (o : Option (List ℕ))
    → c.receive_counter < u64_max
    → let r = unseal c plaintext n o in
      Refused c (zeroized plaintext) r
      ⊎ ((r.0 ≡ ok) × (r.3 ≡ record c { receive_counter = c.receive_counter + 1 }))
unfolding unseal
unseal-cases c plaintext n none h = inl (ground arith, refl, refl, refl)
unseal-cases c plaintext n (some text) h = inr (refl, ground arith)

-- A record that is refused wipes the caller's buffer, reports no bytes and leaves the channel as it
-- was; one that is read bears the expected counter, which is then raised by one.
pub decrypt_lem :
    (m : Mbedtls) (c : Channel) (kind a b : ℕ) (bytes plaintext : List ℕ)
    → c.receive_counter ≤ u64_max
    → let r = decrypt m c kind (a, bytes) (b, plaintext) in
      Refused c (zeroized plaintext) r
      ⊎ ((r.0 ≡ ok)
          × (record_counter bytes ≡ c.receive_counter)
          × (c.receive_counter < u64_max)
          × (r.3 ≡ record c { receive_counter = c.receive_counter + 1 }))
unfolding decrypt
decrypt_lem m c kind a b bytes plaintext h =
    let cases = unseal-cases c plaintext (read_u32_be bytes 24) (opened m c kind bytes) in
    ground (arith, cases)

seal-cases :
    (c : Channel) (header output : List ℕ) (n : ℕ) (o : Option (List ℕ × List ℕ))
    → c.send_counter < u64_max
    → let r = seal c header output n o in
      ((r.0 ≢ ok) × (r.3 ≡ c))
      ⊎ ((r.0 ≡ ok) × (r.3 ≡ record c { send_counter = c.send_counter + 1 }))
unfolding seal
seal-cases c header output n none h = inl (ground arith, refl)
seal-cases c header output n (some (text, tag)) h = inr (refl, ground arith)

pub encrypt_lem :
    (m : Mbedtls) (c : Channel) (kind a b : ℕ) (plaintext output : List ℕ)
    → c.send_counter ≤ u64_max
    → let r = encrypt m c kind (a, plaintext) (b, output) in
      ((r.0 ≢ ok) × (r.3 ≡ c))
      ⊎ ((r.0 ≡ ok)
          × (c.send_counter < u64_max)
          × (r.3 ≡ record c { send_counter = c.send_counter + 1 }))
unfolding encrypt
encrypt_lem m c kind a b plaintext output h =
    let n = record_header_size + length plaintext + record_tag_size in
    let cases =
      seal-cases c (record_header c (length plaintext)) output n (sealed m c kind plaintext) in
    ground (arith, cases)

-- One call of `encrypt`, with its buffers and their addresses.
pub record Message : Type 0 where
  pub kind : ℕ
  pub address : ℕ
  pub plaintext : List ℕ
  pub output_address : ℕ
  pub output : List ℕ

-- One call of `decrypt`, with its buffers and their addresses.
pub record Delivery : Type 0 where
  pub kind : ℕ
  pub address : ℕ
  pub bytes : List ℕ
  pub plaintext_address : ℕ
  pub plaintext : List ℕ

pub data Use : Type 0 where
  sends : Message → Use
  receives : Delivery → Use

-- The channel after one call of `encrypt` or `decrypt`.
unfoldable pub use_once : Mbedtls → Channel → Use → Channel
use_once m c (sends x) =
    (encrypt m c x.kind (x.address, x.plaintext) (x.output_address, x.output)).3
use_once m c (receives x) =
    (decrypt m c x.kind (x.address, x.bytes) (x.plaintext_address, x.plaintext)).3

-- The channel after the calls of a list, in order.
unfoldable pub use_all : Mbedtls → Channel → List Use → Channel
use_all m c [] = c
use_all m c (x ∷ xs) = use_all m (use_once m c x) xs

-- Within 64 bits, and with a counter that does not fall.
IsLater : Channel → Channel → Type 0
IsLater c d =
    (d.send_counter ≤ u64_max)
    × (d.receive_counter ≤ u64_max)
    × (c.receive_counter ≤ d.receive_counter)

use_once-IsLater :
    (m : Mbedtls) (c : Channel) (x : Use)
    → c.send_counter ≤ u64_max
    → c.receive_counter ≤ u64_max
    → IsLater c (use_once m c x)
unfolding IsLater use_once
use_once-IsLater m c (sends x) h k =
    elim (encrypt_lem m c x.kind x.address x.output_address x.plaintext x.output h) [
      | inl r ↦ ground (arith, r.1)
      | inr r ↦ let bound = r.1 in let next = r.2 in ground (arith, bound, next)
    ]
use_once-IsLater m c (receives x) h k =
    elim (decrypt_lem m c x.kind x.address x.plaintext_address x.bytes x.plaintext k) [
      | inl r ↦ let same = r.3 in ground (arith, same)
      | inr r ↦ let bound = r.2 in let next = r.3 in ground (arith, bound, next)
    ]

use_all-IsLater :
    (m : Mbedtls) (c : Channel) (xs : List Use)
    → c.send_counter ≤ u64_max
    → c.receive_counter ≤ u64_max
    → IsLater c (use_all m c xs)
unfolding IsLater use_all
use_all-IsLater m c [] h k = omega arith
use_all-IsLater m c (x ∷ xs) h k =
    let once = use_once-IsLater m c x h k in
    let later = use_all-IsLater m (use_once m c x) xs once.0 once.1 in omega (arith, once, later)

-- While the two counters are within 64 bits, a record that was read is never read again by the same
-- channel, whatever kind it is then given and
-- whatever records the channel sends and receives in between; nor is any other record that bears the
-- same counter.
pub decrypt_twice :
    (m : Mbedtls) (c : Channel) (kind a b : ℕ) (bytes plaintext : List ℕ) (between : List Use)
    (kind' a' b' : ℕ) (bytes' plaintext' : List ℕ)
    → c.send_counter ≤ u64_max
    → c.receive_counter ≤ u64_max
    → record_counter bytes' ≡ record_counter bytes
    → let (result, n, buffer, c') = decrypt m c kind (a, bytes) (b, plaintext) in
      result ≡ ok → (decrypt m (use_all m c' between) kind' (a', bytes') (b', plaintext')).0 ≢ ok
unfolding IsLater
decrypt_twice m c kind a b bytes plaintext between kind' a' b' bytes' plaintext' h k same e e' =
    let c' = (decrypt m c kind (a, bytes) (b, plaintext)).3 in
    let d = use_all m c' between in
    elim (decrypt_lem m c kind a b bytes plaintext k) [
      | inl r ↦ absurd (r.0 e)
      | inr r ↦
          let next = ap (λ x. x.receive_counter) r.3 in
          let sent = ap (λ x. x.send_counter) r.3 in
          let bound = r.2 in
          let later = use_all-IsLater m c' between (omega (arith, sent)) (omega (arith, next)) in
          elim (decrypt_lem m d kind' a' b' bytes' plaintext' later.1) [
            | inl r' ↦ absurd (r'.0 e')
            | inr r' ↦ absurd (omega (arith, r'.1, r.1, next, later.2, same))
          ]
    ]

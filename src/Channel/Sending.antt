-- ===== src/Channel/Sending.antt =====
-- The records that `encrypt` sends, and the nonces that it passes to the cipher.
use waveshare.Prelude.{
  ℕ, ◌+◌, ◌≤◌, ◌≡◌, List, [], ◌∷◌, Option, none, some, arith, if◌then◌else◌, take, drop,
}
use waveshare.Prelude.Bits.{read_u64_from}
use waveshare.Channel.{is_ok, Mbedtls, Channel, sealed, encrypt, record_counter}
use waveshare.Channel.Records.{Message}

-- A cipher that answers with the nonce it is given.
abbrev watching : Mbedtls → Mbedtls
watching m = record m { crypt_and_tag = λ key nonce aad text. some (nonce, []) }

first_or_nothing : Option (List ℕ × List ℕ) → List ℕ
first_or_nothing none = []
first_or_nothing (some (x, y)) = x

-- The nonce of the call of the cipher in `encrypt`.
unfoldable pub nonce_passed : Mbedtls → Channel → ℕ → List ℕ → List ℕ
unfolding first_or_nothing
nonce_passed m c kind plaintext = first_or_nothing (sealed (watching m) c kind plaintext)

-- The records that are sent for the messages of a list, each with the nonce it was sealed under, and
-- the channel after them.
pub send_all : Mbedtls → Channel → List Message → List (List ℕ × List ℕ) × Channel
send_all m c [] = ([], c)
send_all m c (x ∷ xs) =
    let (result, n, buffer, c') =
      encrypt m c x.kind (x.address, x.plaintext) (x.output_address, x.output) in
    let (records, c'') = send_all m c' xs in
    (
      if is_ok result
          then (nonce_passed m c x.kind x.plaintext, take n buffer) ∷ records
          else records,
      c'',
    )

-- Each record bears a counter of the range, above those of the records before it, and is sealed under
-- the prefix and that counter.
unfoldable pub Rising : List ℕ → ℕ → List (List ℕ × List ℕ) → ℕ → Type 0
Rising prefix low [] high = low ≤ high
Rising prefix low ((nonce, bytes) ∷ xs) high =
    (low ≤ record_counter bytes)
    × (take 4 nonce ≡ prefix)
    × (read_u64_from 0 (drop 4 nonce) ≡ record_counter bytes)
    × Rising prefix (record_counter bytes + 1) xs high

Rising-weaken :
    (prefix : List ℕ) (low low' : ℕ) (xs : List (List ℕ × List ℕ)) (high : ℕ)
    → low ≤ low'
    → Rising prefix low' xs high
    → Rising prefix low xs high
unfolding Rising
Rising-weaken prefix low low' [] high h r = omega arith
Rising-weaken prefix low low' (x ∷ xs) high h r = (omega (arith, r.0), r.1, r.2, r.3)

-- ===== src/Prelude/Bits.antt =====
-- Big-endian words: shifts and `|` as arithmetic.
use Prim.Native.Nat.{
  ℕ, zero, suc, ◌+◌, ◌*◌, ◌/◌, ◌%◌, ◌^◌, ◌≤◌, ◌<◌, max, bit_or, bit_xor, digits, bit_or-bitwise,
  bit_xor-bitwise, differ,
}
use mathlib.Core.Path.{◌≡◌, refl, ap, ◌∙◌}
use mathlib.Core.List.{List, [], ◌∷◌}
use native.Mathlib.Nat.{pow-suc}
use native.Mathlib.Omega.{arith}
use waveshare.Prelude.Lists.{get_or}

-- `bit_or` as a recursion on the lowest digit, free of the fuel of its definition.
or_digits_fuel :
    (n m a b : ℕ) → a ≤ n → a ≤ m → digits (λ y. y) max n a b ≡ digits (λ y. y) max m a b
or_digits_fuel zero zero a b p q = refl
or_digits_fuel zero (suc m) zero b p q = refl
or_digits_fuel zero (suc m) (suc a) b p q = absurd (omega arith)
or_digits_fuel (suc n) zero zero b p q = refl
or_digits_fuel (suc n) zero (suc a) b p q = absurd (omega arith)
or_digits_fuel (suc n) (suc m) zero b p q = refl
or_digits_fuel (suc n) (suc m) (suc a) b p q =
    omega (arith, or_digits_fuel n m (suc a / 2) (b / 2) (omega arith) (omega arith))

zero-bit_or : (b : ℕ) → bit_or 0 b ≡ b
zero-bit_or b = bit_or-bitwise 0 b

bit_or_halves : (a b : ℕ) → bit_or a b ≡ bit_or (a / 2) (b / 2) * 2 + max (a % 2) (b % 2)
bit_or_halves zero b = omega (arith, zero-bit_or b, zero-bit_or (b / 2))
bit_or_halves (suc a) b = omega (
  arith,
  bit_or-bitwise (suc a) b,
  bit_or-bitwise (suc a / 2) (b / 2),
  or_digits_fuel a (suc a / 2) (suc a / 2) (b / 2) (omega arith) (omega arith),
)

bit_or-zero_fuel : (n a : ℕ) → a ≤ n → bit_or a 0 ≡ a
bit_or-zero_fuel n zero h = refl
bit_or-zero_fuel zero (suc a) h = absurd (omega arith)
bit_or-zero_fuel (suc n) (suc a) h =
    omega (arith, bit_or_halves (suc a) 0, bit_or-zero_fuel n (suc a / 2) (omega arith))

-- No bit is lost by `|`.
pub le-bit_or : (n a b : ℕ) → a ≤ n → (a ≤ bit_or a b) × (b ≤ bit_or a b)
le-bit_or n zero b h = omega (arith, zero-bit_or b)
le-bit_or zero (suc a) b h = absurd (omega arith)
le-bit_or (suc n) (suc a) b h =
    omega (arith, bit_or_halves (suc a) b, le-bit_or n (suc a / 2) (b / 2) (omega arith))

-- `bit_xor` in the same way.
xor_digits_fuel :
    (n m a b : ℕ) → a ≤ n → a ≤ m → digits (λ y. y) differ n a b ≡ digits (λ y. y) differ m a b
xor_digits_fuel zero zero a b p q = refl
xor_digits_fuel zero (suc m) zero b p q = refl
xor_digits_fuel zero (suc m) (suc a) b p q = absurd (omega arith)
xor_digits_fuel (suc n) zero zero b p q = refl
xor_digits_fuel (suc n) zero (suc a) b p q = absurd (omega arith)
xor_digits_fuel (suc n) (suc m) zero b p q = refl
xor_digits_fuel (suc n) (suc m) (suc a) b p q =
    omega (arith, xor_digits_fuel n m (suc a / 2) (b / 2) (omega arith) (omega arith))

zero-bit_xor : (b : ℕ) → bit_xor 0 b ≡ b
zero-bit_xor b = bit_xor-bitwise 0 b

differ_zero : (y : ℕ) → differ 0 y ≡ y
differ_zero y = ground arith

differ_bits : (x y : ℕ) → x < 2 → y < 2 → differ x y ≡ 0 → x ≡ y
differ_bits x y h k e = ground arith

differ_self : (x : ℕ) → differ x x ≡ 0
differ_self zero = refl
differ_self (suc x) = differ_self x

bit_xor_halves : (a b : ℕ) → bit_xor a b ≡ bit_xor (a / 2) (b / 2) * 2 + differ (a % 2) (b % 2)
bit_xor_halves zero b = ground (arith, zero-bit_xor b, zero-bit_xor (b / 2), differ_zero (b % 2))
bit_xor_halves (suc a) b = omega (
  arith,
  bit_xor-bitwise (suc a) b,
  bit_xor-bitwise (suc a / 2) (b / 2),
  xor_digits_fuel a (suc a / 2) (suc a / 2) (b / 2) (omega arith) (omega arith),
)

-- Two numbers with no differing bit are equal.
pub bit_xor_eq_zero : (n a b : ℕ) → a ≤ n → bit_xor a b ≡ 0 → a ≡ b
bit_xor_eq_zero n zero b h e = omega (arith, zero-bit_xor b)
bit_xor_eq_zero zero (suc a) b h e = absurd (omega arith)
bit_xor_eq_zero (suc n) (suc a) b h e =
    let halves = bit_xor_halves (suc a) b in
    let high = bit_xor_eq_zero n (suc a / 2) (b / 2) (omega arith) (omega arith) in
    let low = differ_bits (suc a % 2) (b % 2) (omega arith) (omega arith) (omega arith) in
    omega arith

pub bit_xor_self : (n a : ℕ) → a ≤ n → bit_xor a a ≡ 0
bit_xor_self n zero h = refl
bit_xor_self zero (suc a) h = absurd (omega arith)
bit_xor_self (suc n) (suc a) h = omega (
  arith,
  bit_xor_halves (suc a) (suc a),
  bit_xor_self n (suc a / 2) (omega arith),
  differ_self (suc a % 2),
)

-- Disjoint fields: `(q << k) | r` adds.
pub bit_or_fields : (k q r : ℕ) → r < 2 ^ k → bit_or (q * 2 ^ k) r ≡ q * 2 ^ k + r
bit_or_fields zero q r h = ground (arith, bit_or-zero_fuel q q)
bit_or_fields (suc k) q r h = ground (
  arith,
  bit_or_halves (q * 2 ^ suc k) r,
  pow-suc 2 k,
  ap (λ (t : ℕ). q * t) (pow-suc 2 k),
  bit_or_fields k q (r / 2) (omega (arith, pow-suc 2 k)),
)

-- The bytes of a `uint32_t`, highest first, as four shifts and casts write them.
unfoldable pub u32_be : ℕ → List ℕ
u32_be v = v / 2 ^ 24 % 256 ∷ v / 2 ^ 16 % 256 ∷ v / 2 ^ 8 % 256 ∷ v % 256 ∷ []

-- Four bytes from `i` on, joined by shifts and `|`.
unfoldable pub read_u32_be : List ℕ → ℕ → ℕ
read_u32_be bytes i =
    bit_or
      (bit_or (bit_or (get_or bytes i 0 * 2 ^ 24) (get_or bytes (i + 1) 0 * 2 ^ 16))
        (get_or bytes (i + 2) 0 * 2 ^ 8))
      (get_or bytes (i + 3) 0)

-- One more byte at the low end of a word.
or_byte : (q k b : ℕ) → b < 2 ^ k → {w : ℕ} → w ≡ q * 2 ^ k → bit_or w b ≡ w + b
or_byte q k b h e = rw e (bit_or_fields k q b h)

join_u32 :
    (a b c d : ℕ)
    → b < 256
    → c < 256
    → d < 256
    → bit_or (bit_or (bit_or (a * 2 ^ 24) (b * 2 ^ 16)) (c * 2 ^ 8)) d
      ≡ a * 2 ^ 24 + b * 2 ^ 16 + c * 2 ^ 8 + d
join_u32 a b c d hb hc hd =
    rw
      (
        or_byte a 24 (b * 2 ^ 16) (omega arith) refl,
        or_byte (a * 256 + b) 16 (c * 2 ^ 8) (omega arith) {w = a * 2 ^ 24 + b * 2 ^ 16}
            (omega arith),
        or_byte (a * 2 ^ 16 + b * 256 + c) 8 d hd {w = a * 2 ^ 24 + b * 2 ^ 16 + c * 2 ^ 8}
            (omega arith),
      )
      refl

-- What the two codecs of a word compose to: reading back the bytes at the end of a header.
pub read_bytes-u32_be :
    (v : ℕ)
    → v < 2 ^ 32
    → bit_or
        (bit_or
          (bit_or (v / 2 ^ 24 % 256 * 2 ^ 24) (v / 2 ^ 16 % 256 * 2 ^ 16))
          (v / 2 ^ 8 % 256 * 2 ^ 8))
        (v % 256)
      ≡ v
read_bytes-u32_be v h = omega (
  arith,
  join_u32 (v / 2 ^ 24 % 256) (v / 2 ^ 16 % 256) (v / 2 ^ 8 % 256) (v % 256) (omega arith)
      (omega arith) (omega arith),
)

-- The loop of a 64-bit read: `value = (value << 8) | byte` over the bytes given.
unfoldable pub read_u64_from : ℕ → List ℕ → ℕ
read_u64_from value [] = value
read_u64_from value (byte ∷ rest) = read_u64_from (bit_or (value * 2 ^ 8 % 2 ^ 64) byte) rest

-- The bytes of a `uint64_t`, highest first; byte `7 - index` is `value >> (index * 8)`, cast.
unfoldable pub u64_be : ℕ → List ℕ
u64_be v =
    v / 2 ^ 56 % 256
    ∷ v / 2 ^ 48 % 256
    ∷ v / 2 ^ 40 % 256
    ∷ v / 2 ^ 32 % 256
    ∷ v / 2 ^ 24 % 256
    ∷ v / 2 ^ 16 % 256
    ∷ v / 2 ^ 8 % 256
    ∷ v % 256
    ∷ []

-- One round of the loop takes the next byte of a word in.
round_lem : (x w : ℕ) → x < 2 ^ 64 → w ≡ x / 256 → bit_or (w * 2 ^ 8 % 2 ^ 64) (x % 256) ≡ x
round_lem x w h e =
    omega (arith, or_byte w 8 (x % 256) (omega arith) {w = w * 2 ^ 8 % 2 ^ 64} (omega arith))

pub read_u64-u64_be : (v : ℕ) → v < 2 ^ 64 → read_u64_from 0 (u64_be v) ≡ v
unfolding read_u64_from u64_be
read_u64-u64_be v h = round_lem v _ h (
    round_lem (v / 2 ^ 8) _ (omega arith) (
      round_lem (v / 2 ^ 16) _ (omega arith) (
        round_lem (v / 2 ^ 24) _ (omega arith) (
          round_lem (v / 2 ^ 32) _ (omega arith) (
            round_lem (v / 2 ^ 40) _ (omega arith) (
              round_lem (v / 2 ^ 48) _ (omega arith)
                (round_lem (v / 2 ^ 56) 0 (omega arith) (omega arith) ∙ omega arith)
              ∙ omega arith)
            ∙ omega arith)
          ∙ omega arith)
        ∙ omega arith)
      ∙ omega arith)
    ∙ omega arith)

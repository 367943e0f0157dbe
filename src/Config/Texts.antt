-- ===== src/Config/Texts.antt =====
-- The texts in the arrays: a text that is stored is read back, with its length.
use waveshare.Prelude.{
  ℕ, zero, suc, ◌-◌, ◌≤◌, ◌≡◌, refl, inl, inr, Bool-cases, List, [], ◌∷◌, ◌++◌, arith, ◌==◌, length,
  take, replicate, length-append, length-take, length-replicate,
}
use waveshare.Config.{bounded_strlen, stored_text}

pub bounded_strlen-le : (value : List ℕ) (max_len : ℕ) → bounded_strlen value max_len ≤ max_len
unfolding bounded_strlen
bounded_strlen-le [] max_len = omega arith
bounded_strlen-le (c ∷ value) zero = omega arith
bounded_strlen-le (c ∷ value) (suc max_len) = ground (arith, bounded_strlen-le value max_len)

pub bounded_strlen-length :
    (value : List ℕ) (max_len : ℕ) → bounded_strlen value max_len ≤ length value
unfolding bounded_strlen
bounded_strlen-length [] max_len = omega arith
bounded_strlen-length (c ∷ value) zero = omega arith
bounded_strlen-length (c ∷ value) (suc max_len) =
    ground (arith, bounded_strlen-length value max_len)

zeros : (max_len n : ℕ) → bounded_strlen (replicate n 0) max_len ≡ 0
unfolding bounded_strlen
zeros max_len zero = refl
zeros zero (suc n) = refl
zeros (suc max_len) (suc n) = refl

-- The text found under one bound is found again in front of zeros, under any bound that it meets.
padded :
    (value : List ℕ) (size max_len n : ℕ)
    → bounded_strlen value size ≤ max_len
    → let len = bounded_strlen value size in
      bounded_strlen (take len value ++ replicate n 0) max_len ≡ len
unfolding bounded_strlen
padded [] size max_len n h = zeros max_len n
padded (c ∷ value) zero max_len n h = zeros max_len n
padded (c ∷ value) (suc size) zero n h = ground (arith, zeros zero n, h)
padded (c ∷ value) (suc size) (suc max_len) n h = elim (Bool-cases (c == 0)) [
  | inl e ↦ ground (arith, e, zeros (suc max_len) n)
  | inr e ↦
      let later = padded value size max_len n (ground (arith, e, h)) in ground (arith, e, later)
]

-- The text of an array.
pub text : List ℕ → List ℕ
text value = take (bounded_strlen value (length value)) value

-- A text that is stored in an array is read back with the length that it had, cut at the array's
-- size.
pub bounded_strlen-stored_text :
    (size : ℕ) (value : List ℕ)
    → bounded_strlen (stored_text size value) size ≡ bounded_strlen value size
unfolding stored_text
bounded_strlen-stored_text size value =
    padded value size size (size - bounded_strlen value size) (bounded_strlen-le value size)

pub length-stored_text : (size : ℕ) (value : List ℕ) → length (stored_text size value) ≡ size
unfolding stored_text
length-stored_text size value =
    let len = bounded_strlen value size in
    omega (
      arith,
      length-append (take len value) (replicate (size - len) 0),
      length-take len value,
      length-replicate {A = ℕ} (size - len) 0,
      bounded_strlen-le value size,
      bounded_strlen-length value size,
    )

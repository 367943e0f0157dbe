-- ===== src/Memory/Utf8.antt =====
-- Cutting any text: the loop of `utf8_prefix_len` ends, within the text and before a NUL.
use waveshare.Prelude.{
  ℕ, zero, suc, ◌+◌, ◌-◌, ◌≤◌, ◌≡◌, refl, Bool, true, false, ◌||◌, List, [], ◌∷◌, ◌++◌, arith, ltb,
  ◌==◌, if◌then◌else◌, length, take, drop, take-add, is_text, length-drop, inl, inr, Bool-cases,
}
use waveshare.Memory.{char_len, char_size, follows, utf8_from, utf8_prefix_len}

-- `n` bytes are rounds of the loop at the front of a text, none of which takes a NUL.
pub data Cuts : List ℕ → ℕ → Type 0 where
  stop : {text : List ℕ} → Cuts text 0
  step :
      {first : ℕ} {rest : List ℕ} {n : ℕ}
      → (first == 0) ≡ false
      → Cuts (drop (char_size first rest) (first ∷ rest)) n
      → Cuts (first ∷ rest) (char_size first rest + n)

size_bounds :
    (first : ℕ) (rest : List ℕ)
    → (1 ≤ char_size first rest) × (char_size first rest ≤ char_len first)
unfolding char_size char_len
size_bounds first rest = ground arith

stop_or_step :
    (b : Bool) (first : ℕ) (rest : List ℕ) (n : ℕ)
    → (b ≡ false → (first == 0) ≡ false)
    → Cuts (drop (char_size first rest) (first ∷ rest)) n
    → Cuts (first ∷ rest) (if b then 0 else char_size first rest + n)
stop_or_step true first rest n e h = stop
stop_or_step false first rest n e h = step (e refl) h

utf8_from-Cuts : (rounds : ℕ) (text : List ℕ) (room : ℕ) → Cuts text (utf8_from rounds text room)
unfolding utf8_from
utf8_from-Cuts zero text room = stop
utf8_from-Cuts (suc rounds) [] room = stop
utf8_from-Cuts (suc rounds) (first ∷ rest) room =
    let size = char_size first rest in
    stop_or_step (first == 0 || room == 0 || ltb room (char_len first)) first rest
      (utf8_from rounds (drop size (first ∷ rest)) (room - size)) (λ e. ground (arith, e))
      (utf8_from-Cuts rounds (drop size (first ∷ rest)) (room - size))

utf8_from-le : (rounds : ℕ) (text : List ℕ) (room : ℕ) → utf8_from rounds text room ≤ room
unfolding utf8_from
utf8_from-le zero text room = omega arith
utf8_from-le (suc rounds) [] room = omega arith
utf8_from-le (suc rounds) (first ∷ rest) room =
    let size = char_size first rest in
    ground
      (arith, size_bounds first rest, utf8_from-le rounds (drop size (first ∷ rest)) (room - size))

utf8_from-rounds :
    (m n : ℕ) (text : List ℕ) (room : ℕ)
    → room ≤ m
    → room ≤ n
    → utf8_from m text room ≡ utf8_from n text room
unfolding utf8_from
utf8_from-rounds zero zero text room h k = refl
utf8_from-rounds zero (suc n) [] room h k = refl
utf8_from-rounds zero (suc n) (first ∷ rest) room h k = ground arith
utf8_from-rounds (suc m) zero [] room h k = refl
utf8_from-rounds (suc m) zero (first ∷ rest) room h k = ground arith
utf8_from-rounds (suc m) (suc n) [] room h k = refl
utf8_from-rounds (suc m) (suc n) (first ∷ rest) room h k =
    let size = char_size first rest in
    ground
      (arith, size_bounds first rest, utf8_from-rounds m n (drop size (first ∷ rest)) (room - size))

-- The loop ends: more rounds than there are bytes of room change nothing. It takes at most
-- `max_bytes` bytes, in whole rounds.
pub utf8_prefix_len_lem :
    (text : List ℕ) (max_bytes rounds : ℕ)
    → max_bytes ≤ rounds
    → (utf8_from rounds text max_bytes ≡ utf8_prefix_len text max_bytes)
      × (utf8_prefix_len text max_bytes ≤ max_bytes)
      × Cuts text (utf8_prefix_len text max_bytes)
unfolding utf8_prefix_len
utf8_prefix_len_lem text max_bytes rounds h = (
  utf8_from-rounds rounds max_bytes text max_bytes h (omega arith),
  utf8_from-le max_bytes text max_bytes,
  utf8_from-Cuts max_bytes text max_bytes,
)

follows-is_text : (n : ℕ) (text : List ℕ) → follows n text ≡ true → is_text (take n text) ≡ true
unfolding follows is_text
follows-is_text zero text h = refl
follows-is_text (suc n) [] h = refl
follows-is_text (suc n) (c ∷ text) h = ground (arith, follows-is_text n text)

character-is_text :
    (first : ℕ) (rest : List ℕ)
    → (first == 0) ≡ false
    → is_text (take (char_size first rest) (first ∷ rest)) ≡ true
unfolding char_size is_text
character-is_text first rest h =
    let k = char_len first - 1 in
    let size : char_len first ≡ suc k = ground (arith, size_bounds first rest) in
    elim (Bool-cases (follows k rest)) [
      | inl e ↦ ground (arith, e, size, follows-is_text k rest e)
      | inr e ↦ ground (arith, e)
    ]

follows-length : (n : ℕ) (text : List ℕ) → follows n text ≡ true → n ≤ length text
unfolding follows
follows-length zero text h = omega arith
follows-length (suc n) [] h = ground arith
follows-length (suc n) (c ∷ text) h = ground (arith, follows-length n text)

character-length : (first : ℕ) (rest : List ℕ) → char_size first rest ≤ length (first ∷ rest)
unfolding char_size
character-length first rest = ground (arith, follows-length (char_len first - 1) rest)

pub Cuts-length : (text : List ℕ) (n : ℕ) → Cuts text n → n ≤ length text
Cuts-length text n stop = omega arith
Cuts-length (first ∷ rest) n (step {n = m} e h) =
    let size = char_size first rest in
    omega (
      arith,
      character-length first rest,
      length-drop size (first ∷ rest),
      Cuts-length (drop size (first ∷ rest)) m h,
    )

is_text-append :
    (xs ys : List ℕ) → is_text xs ≡ true → is_text ys ≡ true → is_text (xs ++ ys) ≡ true
unfolding is_text
is_text-append [] ys h k = k
is_text-append (x ∷ xs) ys h k = ground (arith, is_text-append xs ys)

pub Cuts-is_text : (text : List ℕ) (n : ℕ) → Cuts text n → is_text (take n text) ≡ true
unfolding is_text
Cuts-is_text text n stop = refl
Cuts-is_text (first ∷ rest) n (step {n = m} e h) =
    let size = char_size first rest in
    rw (take-add size m (first ∷ rest)) (
      is_text-append (take size (first ∷ rest)) (take m (drop size (first ∷ rest)))
        (character-is_text first rest e) (Cuts-is_text (drop size (first ∷ rest)) m h))

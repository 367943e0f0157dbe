-- ===== src/Memory/Characters.antt =====
-- UTF-8 characters, and how a round of `utf8_prefix_len` reads one.
use waveshare.Prelude.{
  ℕ, zero, suc, ◌≤◌, ◌<◌, ◌≡◌, refl, sym, ◌∙◌, Bool, Bool-cases, inl, inr, subst, true, false, ◌&&◌,
  ◌||◌, List, [], ◌∷◌, ◌++◌, arith, ltb, ◌==◌, if◌then◌else◌, length, bit_and,
}
use waveshare.Memory.{char_len, char_size, follows}

-- A continuation byte.
pub record Continues (c : ℕ) : Type 0 where
  pub low : 128 ≤ c
  pub high : c < 192

-- The bytes of a character: one below 128, or as many as the first one announces.
pub data Character : List ℕ → Type 0 where
  ascii : {a : ℕ} → 0 < a → a < 128 → Character (a ∷ [])
  two : {a b : ℕ} → 192 ≤ a → a < 224 → Continues b → Character (a ∷ b ∷ [])
  three : {a b c : ℕ} → 224 ≤ a → a < 240 → Continues b → Continues c → Character (a ∷ b ∷ c ∷ [])
  four :
      {a b c d : ℕ}
      → 240 ≤ a
      → a < 248
      → Continues b
      → Continues c
      → Continues d
      → Character (a ∷ b ∷ c ∷ d ∷ [])

pub data Characters : List (List ℕ) → Type 0 where
  none_left : Characters []
  next : {c : List ℕ} {cs : List (List ℕ)} → Character c → Characters cs → Characters (c ∷ cs)

-- The bytes of the characters.
abbrev pub text_of : List (List ℕ) → List ℕ
text_of [] = []
text_of (c ∷ cs) = c ++ text_of cs

-- A test of the numbers below a bound.
all_below : ℕ → (ℕ → Bool) → Bool
all_below zero test = true
all_below (suc n) test = test n && all_below n test

all_below-holds :
    (n : ℕ) (test : ℕ → Bool) (c : ℕ) → all_below n test ≡ true → c < n → test c ≡ true
unfolding all_below
all_below-holds zero test c h k = absurd (omega arith)
all_below-holds (suc n) test c h k = elim (Bool-cases (c == n)) [
  | inl e ↦
      let same : c ≡ n = ground (arith, e) in
      subst (λ x. test x ≡ true) (sym same) (ground (arith, h))
  | inr e ↦ all_below-holds n test c (ground (arith, h)) (ground (arith, e, k))
]

announced : ℕ → ℕ
announced c = if ltb c 192 then 1 else if ltb c 224 then 2 else if ltb c 240 then 3 else 4

char_len-announced : (c : ℕ) → c < 248 → char_len c ≡ announced c
unfolding char_len announced all_below
char_len-announced c h =
    let test = all_below-holds 248 (λ x. char_len x == announced x) c refl h in ground (arith, test)

Continues-bit_and : (c : ℕ) → Continues c → (bit_and c 192 == 128) ≡ true
unfolding all_below
Continues-bit_and c h =
    let test = all_below-holds 192 (λ x. ltb x 128 || bit_and x 192 == 128) c refl h.high in
    ground (arith, test, h.low)

-- The first byte of a character announces it, and the others follow.
pub record Reads (c rest : List ℕ) : Type 0 where
  pub first : ℕ
  pub others : List ℕ
  pub bytes : c ≡ first ∷ others
  pub not_nul : (first == 0) ≡ false
  pub announces : char_len first ≡ length c
  pub whole : char_size first (others ++ rest) ≡ length c

follows_by :
    (n : ℕ) (c : ℕ) (text : List ℕ)
    → Continues c
    → follows n text ≡ true
    → follows (suc n) (c ∷ text) ≡ true
unfolding follows
follows_by n c text h k = ground (arith, Continues-bit_and c h, k, h.low)

size_by :
    (first n : ℕ) (text : List ℕ)
    → char_len first ≡ suc n
    → follows n text ≡ true
    → char_size first text ≡ suc n
unfolding char_size
size_by first n text h k = ground (arith, h, k)

pub Character-Reads : {c : List ℕ} → Character c → (rest : List ℕ) → Reads c rest
unfolding announced follows
Character-Reads (ascii {a = a} h k) rest =
    let len : char_len a ≡ 1 = char_len-announced a (omega arith) ∙ ground arith in
    record {
      first = a;
      others = [];
      bytes = refl;
      not_nul = ground arith;
      announces = len;
      whole = size_by a 0 rest len refl;
    }
Character-Reads (two {a = a} {b = b} h k x) rest =
    let len : char_len a ≡ 2 = char_len-announced a (omega arith) ∙ ground arith in
    record {
      first = a;
      others = b ∷ [];
      bytes = refl;
      not_nul = ground arith;
      announces = len;
      whole = size_by a 1 (b ∷ rest) len (follows_by 0 b rest x refl);
    }
Character-Reads (three {a = a} {b = b} {c = c} h k x y) rest =
    let len : char_len a ≡ 3 = char_len-announced a (omega arith) ∙ ground arith in
    record {
      first = a;
      others = b ∷ c ∷ [];
      bytes = refl;
      not_nul = ground arith;
      announces = len;
      whole =
          size_by a 2 (b ∷ c ∷ rest) len (follows_by 1 b (c ∷ rest) x (follows_by 0 c rest y refl));
    }
Character-Reads (four {a = a} {b = b} {c = c} {d = d} h k x y z) rest =
    let len : char_len a ≡ 4 = char_len-announced a (omega arith) ∙ ground arith in
    record {
      first = a;
      others = b ∷ c ∷ d ∷ [];
      bytes = refl;
      not_nul = ground arith;
      announces = len;
      whole = size_by a 3 (b ∷ c ∷ d ∷ rest) len (
          follows_by 2 b (c ∷ d ∷ rest) x
            (follows_by 1 c (d ∷ rest) y (follows_by 0 d rest z refl)));
    }

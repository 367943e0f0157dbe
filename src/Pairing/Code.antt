-- ===== src/Pairing/Code.antt =====
-- `generate_code`: eight decimal digits by rejection sampling. The two counters are those of the
-- loops: digits still to draw, and rejections still allowed. Each round lowers one of them.
use waveshare.Prelude.{
  ◌⊎◌, inl, inr, Bool-cases, ℕ, zero, suc, ◌+◌, ◌-◌, ◌%◌, ◌≤◌, ◌≡◌, refl, ap, Bool, true, false,
  List, [], ◌∷◌, Option, none, some, arith, leb, set, length, length-set, take, take-set,
  Option-cases, inl, inr, ◌++◌,
}
use waveshare.Pairing.State.{Lifecycle, Ports, random_byte, code_size, zero_code}

abbrev pub digit_rejection_limit : ℕ
digit_rejection_limit = 256

-- `lifecycle->code[index] = '0' + value % 10`, with `left` digits to draw, this one included
unfoldable pub write_digit : ℕ → ℕ → Lifecycle → Lifecycle
write_digit left value l = record l {
  code = set l.code (code_size - left) ((b'0' + value % 10) % 256);
}

module _ (ports : Ports) where
  -- A draw of one byte.
  unfoldable pub draw : Lifecycle → Option ℕ × Lifecycle
  draw l =
      let answer = ports.random_fill l.calls in
      (answer, record l { calls = random_byte answer ∷ l.calls })

  unfoldable pub draw_digits : ℕ → ℕ → Lifecycle → Bool × Lifecycle
  draw_digits zero rejections l = (true, l)
  draw_digits (suc left) zero l = (false, record l { code = zero_code })
  draw_digits (suc left) (suc rejections) l =
      let (answer, l') = draw l in
      elim answer [
        | none ↦ (false, record l' { code = zero_code })
        | some value ↦ elim (leb 250 value) [
          | true ↦ draw_digits (suc left) rejections l'
          | false ↦ draw_digits left (suc rejections) (write_digit (suc left) value l')
        ]
      ]

  unfoldable pub generate_code : Lifecycle → Bool × Lifecycle
  unfolding draw write_digit draw_digits
  generate_code l = draw_digits code_size digit_rejection_limit l

-- What a draw of a code leaves alone; a failure leaves no digit behind.
pub record Drawn (l : Lifecycle) (r : Bool × Lifecycle) : Type 0 where
  pub same_policy : r.1.policy ≡ l.policy
  pub same_record : r.1.lock_record ≡ l.lock_record
  pub same_state : r.1.state ≡ l.state
  pub same_connection : r.1.connection_id ≡ l.connection_id
  pub same_handshake : r.1.handshake_id ≡ l.handshake_id
  pub same_visible : r.1.code_visible ≡ l.code_visible
  pub wiped : r.0 ≡ false → r.1.code ≡ zero_code

draw_digits-Drawn :
    (ports : Ports) (left rejections : ℕ) (l : Lifecycle)
    → Drawn l (draw_digits ports left rejections l)
unfolding draw_digits draw write_digit
draw_digits-Drawn ports zero rejections l = ground arith
draw_digits-Drawn ports (suc left) zero l = ground arith
draw_digits-Drawn ports (suc left) (suc rejections) l =
    let l' = (draw ports l).1 in
    elim (Option-cases (ports.random_fill l.calls)) [
      | inl e ↦ ground arith
      | inr (value, e) ↦ ground (
        arith,
        draw_digits-Drawn ports (suc left) rejections l',
        draw_digits-Drawn ports left (suc rejections) (write_digit (suc left) value l'),
      )
    ]

pub generate_code-Drawn : (ports : Ports) (l : Lifecycle) → Drawn l (generate_code ports l)
unfolding generate_code
generate_code-Drawn ports l = draw_digits-Drawn ports code_size digit_rejection_limit l

-- The characters '0' to '9'.
abbrev pub Digits : List ℕ → Type 0
Digits [] = Unit {0}
Digits (c ∷ cs) = (b'0' ≤ c) × (c ≤ b'9') × Digits cs

Digits-append : (xs ys : List ℕ) → Digits xs → Digits ys → Digits (xs ++ ys)
Digits-append [] ys h k = k
Digits-append (x ∷ xs) ys h k = (h.0, h.1, Digits-append xs ys h.2 k)

-- A code whose first `n` characters are drawn.
record Partly (n : ℕ) (code : List ℕ) : Type 0 where
  full_size : length code ≡ code_size
  drawn : Digits (take n code)

write_digit-Partly :
    (left value : ℕ) (l : Lifecycle)
    → suc left ≤ code_size
    → Partly (code_size - suc left) l.code
    → Partly (code_size - left) (write_digit (suc left) value l).code
unfolding write_digit
write_digit-Partly left value l h p =
    let i : ℕ = code_size - suc left in
    let digit : ℕ = (b'0' + value % 10) % 256 in
    let one : Digits (digit ∷ []) = (omega arith, omega arith, tt) in
    let next : code_size - left ≡ suc i = omega arith in
    record {
      full_size = omega (arith, length-set l.code i digit, p.full_size);
      drawn =
          rw (next, take-set l.code i digit (omega (arith, p.full_size)))
            (Digits-append (take i l.code) (digit ∷ []) p.drawn one);
    }

draw_digits-Partly :
    (ports : Ports) (left rejections : ℕ) (l : Lifecycle)
    → left ≤ code_size
    → Partly (code_size - left) l.code
    → (draw_digits ports left rejections l).0 ≡ true
    → Partly code_size (draw_digits ports left rejections l).1.code
unfolding draw_digits draw
draw_digits-Partly ports zero rejections l h p e = p
draw_digits-Partly ports (suc left) zero l h p e = absurd (ground arith)
draw_digits-Partly ports (suc left) (suc rejections) l h p e =
    let l' = (draw ports l).1 in
    elim (Option-cases (ports.random_fill l.calls)) [
      | inl none_left ↦ ground arith
      | inr (value, drawn) ↦ ground (
        arith,
        draw_digits-Partly ports (suc left) rejections l' h p,
        draw_digits-Partly ports left (suc rejections) (write_digit (suc left) value l'),
        write_digit-Partly left value l' h p,
      )
    ]

take-full : (n : ℕ) (xs : List ℕ) → length xs ≡ n → take n xs ≡ xs
take-full zero [] h = refl
take-full zero (x ∷ xs) h = absurd (omega arith)
take-full (suc n) [] h = refl
take-full (suc n) (x ∷ xs) h = ap (λ t. x ∷ t) (take-full n xs (omega arith))

-- A code that `generate_code` reports as drawn is eight characters, each from '0' to '9'; one that
-- it reports as failed is wiped to zeros.
pub generate_code-Digits :
    (ports : Ports) (l : Lifecycle)
    → length l.code ≡ code_size
    → let (done, l') = generate_code ports l in
      ((done ≡ true) × (length l'.code ≡ code_size) × Digits l'.code)
      ⊎ ((done ≡ false) × (l'.code ≡ zero_code))
unfolding generate_code
generate_code-Digits ports l h =
    let (done, l') = draw_digits ports code_size digit_rejection_limit l in
    elim (Bool-cases done) [
      | inl e ↦
          let p =
            draw_digits-Partly ports code_size digit_rejection_limit l (omega arith)
              (record { full_size = h; drawn = tt }) e in
          inl (e, p.full_size, rw (take-full code_size l'.code p.full_size) at p.drawn)
      | inr e ↦ inr (e, (draw_digits-Drawn ports code_size digit_rejection_limit l).wiped e)
    ]

-- ===== src/Access/Ids.antt =====
-- The two loops over session ids, which look at every byte, decide what a comparison would.
use Prim.Native.Nat.{bit_xor}
use native.Mathlib.Nat.{le_refl}
use waveshare.Prelude.{ℕ, ◌≤◌, ◌≡◌, refl, true, List, [], ◌∷◌, arith, bit_or, length}
use waveshare.Prelude.Bits.{le-bit_or, bit_xor_eq_zero, bit_xor_self}
use waveshare.Access.{differ, session_ids_match}

le-differ : (d : ℕ) (xs ys : List ℕ) → d ≤ differ d xs ys
unfolding differ
le-differ d [] ys = le_refl d
le-differ d (x ∷ xs) [] = le_refl d
le-differ d (x ∷ xs) (y ∷ ys) =
    omega (arith, le-bit_or d d (bit_xor x y) (le_refl d), le-differ (bit_or d (bit_xor x y)) xs ys)

differ_eq_zero : (d : ℕ) (xs ys : List ℕ) → length xs ≡ length ys → differ d xs ys ≡ 0 → xs ≡ ys
unfolding differ
differ_eq_zero d [] [] h e = refl
differ_eq_zero d [] (y ∷ ys) h e = absurd (omega arith)
differ_eq_zero d (x ∷ xs) [] h e = absurd (omega arith)
differ_eq_zero d (x ∷ xs) (y ∷ ys) h e =
    let grown = le-differ (bit_or d (bit_xor x y)) xs ys in
    let kept = le-bit_or d d (bit_xor x y) (le_refl d) in
    let head = bit_xor_eq_zero x x y (le_refl x) (omega arith) in
    let tail = differ_eq_zero (bit_or d (bit_xor x y)) xs ys (omega arith) e in cc

differ_self : (xs : List ℕ) → differ 0 xs xs ≡ 0
unfolding differ
differ_self [] = refl
differ_self (x ∷ xs) = ground (arith, bit_xor_self x x, differ_self xs)

pub session_ids_match-eq :
    (first second : List ℕ)
    → length first ≡ length second
    → session_ids_match first second ≡ true
    → first ≡ second
unfolding session_ids_match
session_ids_match-eq first second h e = differ_eq_zero 0 first second h (ground arith)

pub session_ids_match_self : (first : List ℕ) → session_ids_match first first ≡ true
unfolding session_ids_match
session_ids_match_self first = ground (arith, differ_self first)

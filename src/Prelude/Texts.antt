-- ===== src/Prelude/Texts.antt =====
-- C strings: a list of bytes up to its first NUL, or to its end.
use Prim.Native.Char.{code}
use Prim.Native.String.{String}
use Prim.Native.Nat.{ℕ}
use mathlib.Core.Path.{◌≡◌, refl}
use mathlib.Core.Bool.{Bool, true, not, ◌&&◌}
use mathlib.Core.List.{List, [], ◌∷◌, ◌++◌}
use native.Mathlib.Omega.{arith}
use waveshare.Prelude.Tests.{◌==◌, if◌then◌else◌}
use waveshare.Prelude.Lists.{length, same_bytes}

-- The bytes of a literal, which is ASCII. `String` has its own `[]` and `∷`.
abbrev pub codes : String → List ℕ
codes String.[] = []
codes (String.◌∷◌ c s) = code c ∷ codes s

-- What a `char` array holds.
unfoldable pub c_text : List ℕ → List ℕ
c_text [] = []
c_text (c ∷ value) = let rest = c_text value in if c == 0 then [] else c ∷ rest

-- `strlen`, and `strcmp(left, right) == 0`.
abbrev pub strlen : List ℕ → ℕ
strlen value = length (c_text value)

abbrev pub same_text : List ℕ → List ℕ → Bool
same_text left right = same_bytes (c_text left) (c_text right)

-- A text without a NUL is the whole of its list.
unfoldable pub is_text : List ℕ → Bool
is_text [] = true
is_text (c ∷ value) = not (c == 0) && is_text value

pub c_text_lem : (value : List ℕ) → is_text value ≡ true → c_text value ≡ value
unfolding c_text is_text
c_text_lem [] h = refl
c_text_lem (c ∷ value) h = ground (arith, c_text_lem value)

pub is_text-c_text : (value : List ℕ) → is_text (c_text value) ≡ true
unfolding c_text is_text
is_text-c_text [] = refl
is_text-c_text (c ∷ value) = ground (arith, is_text-c_text value)

pub c_text-append : (text rest : List ℕ) → is_text text ≡ true → c_text (text ++ 0 ∷ rest) ≡ text
unfolding c_text is_text
c_text-append [] rest h = refl
c_text-append (c ∷ text) rest h = ground (arith, c_text-append text rest)

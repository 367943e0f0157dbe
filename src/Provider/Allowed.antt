-- ===== src/Provider/Allowed.antt =====
-- What the lists of hosts and models leave.
use waveshare.Prelude.{ℕ, ◌≡◌, ◌⊎◌, true, List, [], ◌∷◌, arith, same_bytes-eq, c_text}
use waveshare.Provider.{matches_any}

-- A list of texts holds a value.
pub OneOf : List ℕ → List (List ℕ) → Type 0
OneOf value [] = ⊥
OneOf value (text ∷ allowed) = (c_text value ≡ c_text text) ⊎ OneOf value allowed

pub matches_any-OneOf :
    (value : List ℕ) (allowed : List (List ℕ))
    → matches_any value allowed ≡ true
    → OneOf value allowed
unfolding matches_any OneOf
matches_any-OneOf value [] h = ground arith
matches_any-OneOf value (text ∷ allowed) h =
    ground (arith, same_bytes-eq (c_text value) (c_text text), matches_any-OneOf value allowed)

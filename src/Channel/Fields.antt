-- ===== src/Channel/Fields.antt =====
-- Where the fields of a record are.
use waveshare.Prelude.{
  ℕ, ◌+◌, ◌<◌, ◌≡◌, refl, ◌^◌, List, [], ◌∷◌, ◌++◌, arith, length, take, drop, get_or,
}
use waveshare.Prelude.Bits.{u32_be, read_u32_be, u64_be, read_bytes-u32_be}
use waveshare.Channel.{record_magic}

abbrev pub head_of : ℕ → List ℕ → ℕ → ℕ → List ℕ
head_of role session_id counter len =
    record_magic ++ 1 ∷ role ∷ 0 ∷ 0 ∷ session_id ++ u64_be counter ++ u32_be len

-- What is read from a record with this header.
pub record IsRecord (role : ℕ) (session_id : List ℕ) (counter len : ℕ) (rest : List ℕ)
    (bytes : List ℕ) : Type 0 where
  pub whole_header : take 28 bytes ≡ head_of role session_id counter len
  pub body : drop 28 bytes ≡ rest
  pub magic : take 4 bytes ≡ record_magic
  pub version : get_or bytes 4 0 ≡ 1
  pub role_byte : get_or bytes 5 0 ≡ role
  pub flags : get_or bytes 6 0 ≡ 0
  pub reserved : get_or bytes 7 0 ≡ 0
  pub session : take 8 (drop 8 bytes) ≡ session_id
  pub counter_bytes : take 8 (drop 16 bytes) ≡ u64_be counter
  pub text_length : read_u32_be bytes 24 ≡ len
  pub size : length bytes ≡ 28 + length rest

eight :
    (l : List ℕ)
    → length l ≡ 8
    → (P : List ℕ → Type 0) → ((a b c d e f g h : ℕ) → P (a ∷ b ∷ c ∷ d ∷ e ∷ f ∷ g ∷ h ∷ []))
    → P l
eight (a ∷ b ∷ c ∷ d ∷ e ∷ f ∷ g ∷ h ∷ []) q P k = k a b c d e f g h
eight [] q P k = absurd (ground arith)
eight (a ∷ []) q P k = absurd (ground arith)
eight (a ∷ b ∷ []) q P k = absurd (ground arith)
eight (a ∷ b ∷ c ∷ []) q P k = absurd (ground arith)
eight (a ∷ b ∷ c ∷ d ∷ []) q P k = absurd (ground arith)
eight (a ∷ b ∷ c ∷ d ∷ e ∷ []) q P k = absurd (ground arith)
eight (a ∷ b ∷ c ∷ d ∷ e ∷ f ∷ []) q P k = absurd (ground arith)
eight (a ∷ b ∷ c ∷ d ∷ e ∷ f ∷ g ∷ []) q P k = absurd (ground arith)
eight (a ∷ b ∷ c ∷ d ∷ e ∷ f ∷ g ∷ h ∷ i ∷ l) q P k = absurd (ground arith)

concrete :
    (role counter len : ℕ) (rest : List ℕ)
    → len < 2 ^ 32
    → (a b c d e f g h : ℕ)
    → let sid = a ∷ b ∷ c ∷ d ∷ e ∷ f ∷ g ∷ h ∷ [] in
      IsRecord role sid counter len rest (head_of role sid counter len ++ rest)
unfolding u32_be u64_be read_u32_be
concrete role counter len rest bound a b c d e f g h = record {
  whole_header = refl;
  body = refl;
  magic = refl;
  version = refl;
  role_byte = refl;
  flags = refl;
  reserved = refl;
  session = refl;
  counter_bytes = refl;
  text_length = read_bytes-u32_be len bound;
  size = omega arith;
}

pub head_of-IsRecord :
    (role : ℕ) (session_id : List ℕ) (counter len : ℕ) (rest : List ℕ)
    → length session_id ≡ 8
    → len < 2 ^ 32
    → IsRecord role session_id counter len rest (head_of role session_id counter len ++ rest)
head_of-IsRecord role session_id counter len rest q b =
    eight session_id q
      (λ sid. IsRecord role sid counter len rest (head_of role sid counter len ++ rest))
      (concrete role counter len rest b)

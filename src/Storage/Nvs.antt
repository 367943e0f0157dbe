-- ===== src/Storage/Nvs.antt =====
-- The key-value storage of ESP-IDF (nvs.h), which components/config_store/src/aiqa_config_nvs_ab.c and
-- aiqa_config_nvs.c call: a parameter over an unknown state of the flash.
-- An `esp_err_t` is none where it is ESP_OK. A handle is the namespace it was opened on; closing it
-- changes nothing.
use Prim.Native.String.{String}
use text.Mathlib.Text.{◌==◌}
use waveshare.Prelude.{
  ℕ, ◌≡◌, ◌≢◌, refl, ◌∙◌, Bool, true, false, not, List, [], ◌∷◌, Option, none, some,
}

pub data Namespace : Type 0 where
  legacy_space slot_a_space slot_b_space meta_space : Namespace

-- The errors that the code tells apart, and any other.
pub data Err : Type 0 where
  not_found invalid_state invalid_arg : Err
  other_error : ℕ → Err

pub data Outcome {ℓ} (A : Type ℓ) : Type ℓ where
  got : A → Outcome A
  failed : Err → Outcome A

infixl 5 ◌>>=◌
abbrev pub ◌>>=◌ {ℓ κ} : {A : Type ℓ} {B : Type κ} → Outcome A → (A → Outcome B) → Outcome B
got a >>= f = f a
failed e >>= f = failed e

abbrev pub pure {ℓ} : {A : Type ℓ} → A → Outcome A
pure a = got a

abbrev pub is_ok : Option Err → Bool
is_ok none = true
is_ok (some e) = false

abbrev pub is_not_found {ℓ} : {A : Type ℓ} → Outcome A → Bool
is_not_found (failed not_found) = true
is_not_found _ = false

-- The number types of the getters and setters.
pub data Number : Type 0 where
  u8 u32 u64 i32 : Number

-- What can be read from a namespace: the result of opening it to read, and then the getters, a text
-- for a buffer of some size, or its length without a buffer.
pub record Look : Type 0 where
  pub opened : Option Err
  pub num : Number → String → Outcome ℕ
  pub str : String → ℕ → Outcome (List ℕ)
  pub str_length : String → Outcome ℕ

-- A call that may change the flash.
pub data Write : Type 0 where
  open_write erase_all commit_writes : Write
  erase_key : String → Write
  set_num : Number → String → ℕ → Write
  set_str : String → List ℕ → Write

pub record Nvs (S : Type 0) : Type 0 where
  pub look : S → Namespace → Look
  pub write : Namespace → Write → S → Option Err × S

-- Writing in a namespace leaves what is read from the others, whether it succeeds or not.
unfoldable pub Separate : {S : Type 0} → Nvs S → Type 0
Separate {S} nvs =
    (n m : Namespace) (w : Write) (s : S) → m ≢ n → nvs.look (nvs.write n w s).1 m ≡ nvs.look s m

-- A namespace without a key, or that is not there.
pub data IsEmpty (look : Look) : Type 0 where
  no_namespace : look.opened ≡ some not_found → IsEmpty look
  no_key :
      ((t : Number) (key : String) → look.num t key ≡ failed not_found)
      → ((key : String) (size : ℕ) → look.str key size ≡ failed not_found)
      → IsEmpty look

-- What nvs.h promises of a commit, where `restart` is the flash as the next start finds it: a commit
-- that succeeds changes nothing that is read, and what is then read of its namespace is read again
-- after a restart; writing in a namespace leaves what a restart finds of the others; and an
-- `nvs_erase_all` that succeeds leaves an empty namespace. Of a write that is not committed a restart
-- may find anything.
pub record Commits {S : Type 0} (nvs : Nvs S) (restart : S → S) : Type 0 where
  pub unchanged :
      (n : Namespace) (s : S)
      → (nvs.write n commit_writes s).0 ≡ none
      → nvs.look (nvs.write n commit_writes s).1 n ≡ nvs.look s n
  pub survives :
      (n : Namespace) (s : S)
      → (nvs.write n commit_writes s).0 ≡ none
      → nvs.look (restart (nvs.write n commit_writes s).1) n
        ≡ nvs.look (nvs.write n commit_writes s).1 n
  pub apart :
      (n m : Namespace) (w : Write) (s : S)
      → m ≢ n
      → nvs.look (restart (nvs.write n w s).1) m ≡ nvs.look (restart s) m
  pub empties :
      (n : Namespace) (s : S)
      → (nvs.write n erase_all s).0 ≡ none
      → IsEmpty (nvs.look (nvs.write n erase_all s).1 n)

-- A number of a namespace that has to be opened first.
abbrev pub reading : Look → Number → String → Outcome ℕ
reading look t key = elim (look.opened) [ none ↦ look.num t key | some e ↦ failed e ]

-- Writes of which the storage promises that another key reads as before.
abbrev pub passes : Write → String → Bool
passes open_write key = true
passes commit_writes key = true
passes (set_num t other value) key = not (other == key)
passes _ key = false

-- What nvs.h says of keys: opening a namespace, setting another key and committing leave what a key
-- reads as, whether they succeed or not.
unfoldable pub Keyed : {S : Type 0} → Nvs S → Type 0
Keyed {S} nvs =
    (n : Namespace) (w : Write) (s : S) (t : Number) (key : String)
    → passes w key ≡ true
    → reading (nvs.look (nvs.write n w s).1 n) t key ≡ reading (nvs.look s n) t key

-- What follows a call: nothing once it failed.
abbrev pub unless_failed {ℓ} : {S : Type ℓ} → Option Err → S → Option Err × S → Option Err × S
unless_failed none s rest = rest
unless_failed (some e) s rest = (some e, s)

pub unless_failed-keeps {ℓ κ} :
    {S : Type ℓ} (P : S → Type κ) (err : Option Err) (s : S) (rest : Option Err × S)
    → P s
    → P rest.1
    → P (unless_failed err s rest).1
unless_failed-keeps P none s rest h k = k
unless_failed-keeps P (some e) s rest h k = h

module _ {S : Type 0} (nvs : Nvs S) where
  -- The writes of a list, up to the first that fails.
  unfoldable pub write_all : Namespace → List Write → S → Option Err × S
  write_all n [] s = (none, s)
  write_all n (w ∷ ws) s =
      let (err, s') = nvs.write n w s in unless_failed err s' (write_all n ws s')

  look-unless_failed :
      (m : Namespace) (err : Option Err) (s s' : S) (rest : Option Err × S)
      → nvs.look s' m ≡ nvs.look s m
      → nvs.look rest.1 m ≡ nvs.look s' m
      → nvs.look (unless_failed err s' rest).1 m ≡ nvs.look s m
  look-unless_failed m none s s' rest h k = k ∙ h
  look-unless_failed m (some e) s s' rest h k = h

  pub look-write_all :
      (n m : Namespace) (ws : List Write) (s : S)
      → Separate nvs
      → m ≢ n
      → nvs.look (write_all n ws s).1 m ≡ nvs.look s m
  unfolding write_all Separate
  look-write_all n m [] s separate other = refl
  look-write_all n m (w ∷ ws) s separate other =
      let (err, s') = nvs.write n w s in
      look-unless_failed m err s s' (write_all n ws s') (separate n m w s other)
        (look-write_all n m ws s' separate other)

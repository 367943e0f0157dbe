-- ===== src/Storage/Memory.antt =====
-- An NVS in memory, which never fails: namespaces are lists of cells.
use Prim.Native.String.{String}
use text.Mathlib.Text.{◌==◌}
use waveshare.Prelude.{
  ℕ, ◌≡◌, ◌≢◌, refl, Bool, true, false, List, [], ◌∷◌, Option, none, some, if◌then◌else◌, leb,
  length, c_text, arith,
}
use waveshare.Storage.Nvs.{
  Namespace, legacy_space, slot_a_space, slot_b_space, meta_space, not_found, other_error, Outcome,
  got, failed, Number, u8, u32, u64, i32, Look, Write, open_write, erase_all, commit_writes,
  erase_key, set_num, set_str, Nvs, Separate, no_key, Commits, Keyed, reading, passes,
}
use waveshare.Storage.Settled.{Reliable}

pub data Cell : Type 0 where
  num_cell : Number → String → ℕ → Cell
  str_cell : String → List ℕ → Cell

abbrev pub Flash : Type 0
Flash = Namespace → Option (List Cell)

abbrev same_space : Namespace → Namespace → Bool
same_space legacy_space legacy_space = true
same_space slot_a_space slot_a_space = true
same_space slot_b_space slot_b_space = true
same_space meta_space meta_space = true
same_space _ _ = false

abbrev same_number : Number → Number → Bool
same_number u8 u8 = true
same_number u32 u32 = true
same_number u64 u64 = true
same_number i32 i32 = true
same_number _ _ = false

abbrev key_of : Cell → String
key_of (num_cell t key value) = key
key_of (str_cell key text) = key

-- The newest cell of a key.
unfoldable pub find : String → List Cell → Option Cell
find key [] = none
find key (cell ∷ cells) =
    let rest = find key cells in if key_of cell == key then some cell else rest

unfoldable pub remove : String → List Cell → List Cell
remove key [] = []
remove key (cell ∷ cells) =
    let rest = remove key cells in if key_of cell == key then rest else cell ∷ rest

abbrev num_of : Number → Option Cell → Outcome ℕ
num_of t (some (num_cell t' key value)) = if same_number t t' then got value else failed not_found
num_of t _ = failed not_found

abbrev str_of : ℕ → Option Cell → Outcome (List ℕ)
str_of size (some (str_cell key text)) =
    if leb size (length text) then failed (other_error 4364) else got text
str_of size _ = failed not_found

abbrev length_of : Option Cell → Outcome ℕ
length_of (some (str_cell key text)) = got (length text)
length_of _ = failed not_found

abbrev look_at : Option (List Cell) → Look
look_at none = record {
  opened = some not_found;
  num = λ t key. failed not_found;
  str = λ key size. failed not_found;
  str_length = λ key. failed not_found;
}
look_at (some cells) = record {
  opened = none;
  num = λ t key. num_of t (find key cells);
  str = λ key size. str_of size (find key cells);
  str_length = λ key. length_of (find key cells);
}

abbrev cells_of : Option (List Cell) → List Cell
cells_of none = []
cells_of (some cells) = cells

abbrev after_write : Write → List Cell → List Cell
after_write open_write cells = cells
after_write erase_all cells = []
after_write commit_writes cells = cells
after_write (erase_key key) cells = remove key cells
after_write (set_num t key value) cells = num_cell t key value ∷ cells
after_write (set_str key text) cells = str_cell key (c_text text) ∷ cells

abbrev pub memory : Nvs Flash
memory = record {
  look = λ s n. look_at (s n);
  write =
      λ n w s. (none, λ m. if same_space m n then some (after_write w (cells_of (s n))) else s m);
}

different_spaces : (n m : Namespace) → m ≢ n → same_space m n ≡ false
different_spaces n m h = ground arith

pub memory-Separate : Separate memory
unfolding Separate
memory-Separate n m w s other = rw (different_spaces n m other)

abbrev pub blank_flash : Flash
blank_flash = λ n. none

-- An NVS with a cache: what is read is the first flash, and a commit copies a namespace to the second,
-- which is all that a restart keeps.
abbrev pub cached_after : Namespace → Write → Flash × Flash → Flash × Flash
cached_after n commit_writes (s, kept) = (s, λ m. if same_space m n then s m else kept m)
cached_after n w (s, kept) = ((memory.write n w s).1, kept)

abbrev pub cached : Nvs (Flash × Flash)
cached = record { look = λ s n. look_at (s.0 n); write = λ n w s. (none, cached_after n w s) }

abbrev pub restarted : Flash × Flash → Flash × Flash
restarted (s, kept) = (kept, kept)

same_space_self : (n : Namespace) → same_space n n ≡ true
same_space_self legacy_space = refl
same_space_self slot_a_space = refl
same_space_self slot_b_space = refl
same_space_self meta_space = refl

cached-apart :
    (n m : Namespace) (w : Write) (s : Flash × Flash)
    → m ≢ n
    → look_at ((cached_after n w s).1 m) ≡ look_at (s.1 m)
cached-apart n m open_write s other = refl
cached-apart n m erase_all s other = refl
cached-apart n m commit_writes s other = rw (different_spaces n m other)
cached-apart n m (erase_key key) s other = refl
cached-apart n m (set_num t key value) s other = refl
cached-apart n m (set_str key text) s other = refl

pub cached-Commits : Commits cached restarted
unfolding find
cached-Commits = record {
  unchanged = λ n s h. refl;
  survives = λ n s h. rw (same_space_self n);
  apart = cached-apart;
  empties = λ n s h. rw (same_space_self n) (no_key (λ t key. refl) (λ key size. refl));
}

look_at-reading :
    (cells : Option (List Cell)) (w : Write) (t : Number) (key : String)
    → passes w key ≡ true
    → reading (look_at (some (after_write w (cells_of cells)))) t key
      ≡ reading (look_at cells) t key
unfolding find
look_at-reading none open_write t key h = refl
look_at-reading (some cells) open_write t key h = refl
look_at-reading none commit_writes t key h = refl
look_at-reading (some cells) commit_writes t key h = refl
look_at-reading none (set_num t' other value) t key h = ground (arith, h)
look_at-reading (some cells) (set_num t' other value) t key h = ground (arith, h)
look_at-reading cells erase_all t key h = absurd (ground arith)
look_at-reading cells (erase_key other) t key h = absurd (ground arith)
look_at-reading cells (set_str other text) t key h = absurd (ground arith)

pub memory-Keyed : Keyed memory
unfolding Keyed
memory-Keyed n w s t key h = rw (same_space_self n) (look_at-reading (s n) w t key h)

pub cached-Separate : Separate cached
unfolding Separate
cached-Separate n m open_write s other = rw (different_spaces n m other)
cached-Separate n m erase_all s other = rw (different_spaces n m other)
cached-Separate n m commit_writes s other = refl
cached-Separate n m (erase_key key) s other = rw (different_spaces n m other)
cached-Separate n m (set_num t key value) s other = rw (different_spaces n m other)
cached-Separate n m (set_str key text) s other = rw (different_spaces n m other)

pub cached-Keyed : Keyed cached
unfolding Keyed
cached-Keyed n open_write s t key h =
    rw (same_space_self n) (look_at-reading (s.0 n) open_write t key h)
cached-Keyed n commit_writes s t key h = refl
cached-Keyed n (set_num t' other value) s t key h =
    rw (same_space_self n) (look_at-reading (s.0 n) (set_num t' other value) t key h)
cached-Keyed n erase_all s t key h = absurd (ground arith)
cached-Keyed n (erase_key other) s t key h = absurd (ground arith)
cached-Keyed n (set_str other text) s t key h = absurd (ground arith)

pub cached-Reliable : Reliable cached
unfolding Reliable
cached-Reliable n w s = refl

-- ===== src/Memory.antt =====
-- components/app_core/src/aiqa_conversation_memory.c: the last turns of the conversation, in a ring,
-- with texts cut at the end of a UTF-8 character.
-- A text that is given by pointer is there (NULL is refused like an empty one).
pub mod Utf8
pub mod Characters
pub mod Cut
pub mod Ring
pub mod Recall
pub mod Context
mod Tests
use waveshare.Prelude.{
  ℕ, zero, suc, ◌+◌, ◌-◌, ◌%◌, bit_and, Bool, true, false, not, ◌&&◌, ◌||◌, List, [], ◌∷◌, ◌++◌,
  Option, none, some, ltb, leb, ◌==◌, if◌then◌else◌, length, get_or, set, take, drop, replicate,
  c_text, strlen, codes,
}

abbrev pub max_turns : ℕ
max_turns = 3

abbrev pub user_max_len : ℕ
user_max_len = 128

abbrev pub pet_max_len : ℕ
pet_max_len = 192

pub record Turn : Type 0 where
  pub user : List ℕ
  pub pet : List ℕ

pub record ConversationMemory : Type 0 where
  pub turns : List Turn
  pub start : ℕ
  pub count : ℕ

-- The length that the first byte of a character announces.
pub char_len : ℕ → ℕ
char_len first =
    if bit_and first 128 == 0
    then 1
    else if bit_and first 224 == 192
    then 2
    else if bit_and first 240 == 224
    then 3
    else if bit_and first 248 == 240
    then 4
    else 1

-- The loop over the following bytes of a character.
pub follows : ℕ → List ℕ → Bool
follows zero text = true
follows (suc n) [] = false
follows (suc n) (c ∷ text) = not (c == 0) && bit_and c 192 == 128 && follows n text

-- The bytes of the character at the front: those announced, or one if they do not follow.
pub char_size : ℕ → List ℕ → ℕ
unfolding char_len follows
char_size first rest = if follows (char_len first - 1) rest then char_len first else 1

-- The loop of `utf8_prefix_len` from some offset on: the text and the room that are left. Each round
-- takes a byte of the room, which bounds the rounds.
pub utf8_from : ℕ → List ℕ → ℕ → ℕ
utf8_from zero text room = 0
utf8_from (suc rounds) [] room = 0
utf8_from (suc rounds) (first ∷ rest) room =
    let size = char_size first rest in
    let more = utf8_from rounds (drop size (first ∷ rest)) (room - size) in
    if first == 0 || room == 0 || ltb room (char_len first) then 0 else size + more

pub utf8_prefix_len : List ℕ → ℕ → ℕ
unfolding utf8_from char_size char_len
utf8_prefix_len text max_bytes = utf8_from max_bytes text max_bytes

abbrev pub first_byte : List ℕ → ℕ
first_byte text = get_or text 0 0

-- `copy_turn_text` into an array; the bytes after the NUL stay.
pub copy_turn_text : List ℕ → List ℕ → List ℕ
unfolding utf8_prefix_len
copy_turn_text out text =
    let copy_len = utf8_prefix_len text (length out - 1) in
    if length out == 0
    then out
    else if first_byte text == 0
    then set out 0 0
    else take copy_len text ++ 0 ∷ drop (copy_len + 1) out

abbrev pub empty_turn : Turn
empty_turn = record { user = replicate user_max_len 0; pet = replicate pet_max_len 0 }

abbrev pub memory_clear : ConversationMemory
memory_clear = record { turns = replicate max_turns empty_turn; start = 0; count = 0 }

pub add_turn : ConversationMemory → List ℕ → List ℕ → Bool × ConversationMemory
unfolding copy_turn_text
add_turn m user pet =
    let full = not (ltb m.count max_turns) in
    let slot = if full then m.start else (m.start + m.count) % max_turns in
    let old = get_or m.turns slot empty_turn in
    let new : Turn = record {
      user = copy_turn_text old.user user;
      pet = copy_turn_text old.pet pet;
    } in
    if first_byte user == 0 || first_byte pet == 0 then (false, m) else (
      not (first_byte new.user == 0) && not (first_byte new.pet == 0),
      record {
        turns = set m.turns slot new;
        start = if full then (m.start + 1) % max_turns else m.start;
        count = if full then m.count else m.count + 1;
      },
    )

-- The context is the text in front of its NUL, in a buffer of `size` bytes; none is a refusal.
pub append_text : ℕ → List ℕ → List ℕ → Option (List ℕ)
append_text size context text =
    if leb size (length context + strlen text) then none else some (context ++ c_text text)

-- A run of `append_text`, up to the first that is refused.
pub append_texts : ℕ → List ℕ → List (List ℕ) → Bool × List ℕ
unfolding append_text
append_texts size context [] = (true, context)
append_texts size context (text ∷ texts) = elim (append_text size context text) [
  | none ↦ (false, context)
  | some longer ↦ append_texts size longer texts
]

abbrev pub turn_texts : Turn → List (List ℕ)
turn_texts turn = codes "User: " ∷ turn.user ∷ codes "\nPet: " ∷ turn.pet ∷ codes "\n" ∷ []

abbrev pub is_blank : Turn → Bool
is_blank turn = first_byte turn.user == 0 || first_byte turn.pet == 0

-- The loop over the turns, oldest first.
pub context_from : ℕ → List ℕ → List Turn → List ℕ
unfolding append_texts
context_from size context [] = context
context_from size context (turn ∷ turns) =
    let (done, longer) = append_texts size context (turn_texts turn) in
    let skipped = context_from size context turns in
    let more = context_from size longer turns in
    if is_blank turn then skipped else if done then more else longer

-- The turns in order: `count` of them from `start` on.
pub ordered : ℕ → ℕ → List Turn → List Turn
ordered zero start turns = []
ordered (suc count) start turns =
    get_or turns (start % max_turns) empty_turn ∷ ordered count (start + 1) turns

-- The result, and the text of the context.
pub build_context : ConversationMemory → ℕ → Bool × List ℕ
unfolding context_from ordered
build_context m size =
    let context = context_from size [] (ordered m.count m.start m.turns) in
    if size == 0 || m.count == 0 then (false, []) else (ltb 0 (length context), context)

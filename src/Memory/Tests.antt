-- ===== src/Memory/Tests.antt =====
-- A conversation of four turns, and the theorems at concrete inputs.
use waveshare.Prelude.{
  ℕ, ◌<◌, ◌≡◌, refl, true, List, [], ◌∷◌, ◌++◌, ◌-◌, take, arith, length, codes, c_text,
}
use waveshare.Memory.{
  char_len, char_size, follows, utf8_from, utf8_prefix_len, copy_turn_text, memory_clear, add_turn,
  append_text, append_texts, context_from, ordered, build_context, user_max_len, pet_max_len,
}
use waveshare.Memory.Characters.{Characters, none_left, next, ascii, three, text_of}
use waveshare.Memory.Cut.{fit, utf8_prefix_len-fit}
use waveshare.Memory.Recall.{add_turn-Characters}
use waveshare.Memory.Ring.{IsValid, clear-IsValid, view, last_three, run, run-clear-IsValid}
use waveshare.Memory.Context.{rendered, build_context_lem}

-- A three-byte character does not fit in the last two bytes of room.
cut_before_character : utf8_prefix_len (97 ∷ 228 ∷ 189 ∷ 160 ∷ []) 3 ≡ 1
unfolding utf8_prefix_len utf8_from char_size char_len follows
cut_before_character = refl

abbrev talk : List (List ℕ × List ℕ)
talk =
    (codes "a", codes "b")
    ∷ (codes "c", codes "d")
    ∷ (codes "e", codes "f")
    ∷ (codes "g", codes "h")
    ∷ []

-- The turns with every callee open.
said : List (List ℕ × List ℕ) → List (List ℕ × List ℕ)
unfolding run add_turn copy_turn_text utf8_prefix_len utf8_from char_size char_len follows ordered
    c_text
said turns = view (run turns memory_clear)

keeps_three :
    said talk ≡ (codes "c", codes "d") ∷ (codes "e", codes "f") ∷ (codes "g", codes "h") ∷ []
unfolding said
keeps_three = refl

-- "a" and a character of three bytes.
abbrev mixed : List (List ℕ)
mixed = (97 ∷ []) ∷ (228 ∷ 189 ∷ 160 ∷ []) ∷ []

mixed-Characters : Characters mixed
mixed-Characters = next (ascii (omega arith) (omega arith)) (
    next
      (three (omega arith) (omega arith) (record { low = omega arith; high = omega arith })
        (record { low = omega arith; high = omega arith }))
      none_left)

fits_before : fit 3 mixed ≡ (97 ∷ []) ∷ []
unfolding fit
fits_before = refl

utf8_prefix_len-fit_example :
    (take (utf8_prefix_len (text_of mixed) 3) (text_of mixed) ≡ text_of (fit 3 mixed))
    × (utf8_from 9 (text_of mixed) 3 ≡ utf8_prefix_len (text_of mixed) 3)
utf8_prefix_len-fit_example = utf8_prefix_len-fit mixed 3 9 mixed-Characters (omega arith)

add_turn-Characters_example :
    view (add_turn memory_clear (text_of mixed) (text_of mixed)).1
    ≡ last_three (
        view memory_clear
        ++ (text_of (fit (user_max_len - 1) mixed), text_of (fit (pet_max_len - 1) mixed)) ∷ [])
add_turn-Characters_example =
    add_turn-Characters memory_clear (97 ∷ []) (97 ∷ []) ((228 ∷ 189 ∷ 160 ∷ []) ∷ [])
      ((228 ∷ 189 ∷ 160 ∷ []) ∷ []) clear-IsValid mixed-Characters mixed-Characters

run-clear-IsValid_example : IsValid (run talk memory_clear)
run-clear-IsValid_example = run-clear-IsValid talk

has_context : (build_context (run ((codes "a", codes "b") ∷ []) memory_clear) 768).0 ≡ true
unfolding run add_turn copy_turn_text utf8_prefix_len utf8_from char_size char_len follows ordered
    c_text build_context context_from append_texts append_text
has_context = refl

build_context_lem_example :
    let m = run ((codes "a", codes "b") ∷ []) memory_clear in
    let (done, context) = build_context m 768 in
    (0 < length context)
    × (length context < 768)
    × ((rest : List ℕ) × (rendered (ordered m.count m.start m.turns) ≡ context ++ rest))
build_context_lem_example =
    build_context_lem (run ((codes "a", codes "b") ∷ []) memory_clear) 768 has_context

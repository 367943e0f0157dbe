-- ===== src/Memory/Recall.antt =====
-- What the ring remembers of turns whose texts are UTF-8 characters.
use waveshare.Prelude.{ℕ, ◌-◌, ◌≡◌, ◌∙◌, ap, false, List, [], ◌∷◌, ◌++◌, arith, ◌==◌}
use waveshare.Memory.{ConversationMemory, add_turn, first_byte, user_max_len, pet_max_len}
use waveshare.Memory.Characters.{Characters, next, Character-Reads, text_of}
use waveshare.Memory.Cut.{fit, utf8_prefix_len-fit}
use waveshare.Memory.Ring.{IsValid, view, last_three, cut_to, add_turn-view}

first_byte-Characters :
    (c : List ℕ) (cs : List (List ℕ))
    → Characters (c ∷ cs)
    → (first_byte (text_of (c ∷ cs)) == 0) ≡ false
first_byte-Characters c cs (next good more) =
    let r = Character-Reads good (text_of cs) in
    ap (λ x. first_byte (x ++ text_of cs) == 0) r.bytes ∙ r.not_nul

cut_to-fit :
    (size : ℕ) (cs : List (List ℕ))
    → Characters cs
    → cut_to size (text_of cs) ≡ text_of (fit (size - 1) cs)
cut_to-fit size cs good = (utf8_prefix_len-fit cs (size - 1) (size - 1) good (omega arith)).0

-- Turns of two texts of UTF-8 characters, neither empty, are remembered as in a list: the new turn
-- comes last, each text cut to as many whole characters as fit its array before the NUL, and of four
-- turns the oldest goes.
pub add_turn-Characters :
    (m : ConversationMemory) (u p : List ℕ) (us ps : List (List ℕ))
    → IsValid m
    → Characters (u ∷ us)
    → Characters (p ∷ ps)
    → view (add_turn m (text_of (u ∷ us)) (text_of (p ∷ ps))).1
      ≡ last_three (
          view m
          ++ (text_of (fit (user_max_len - 1) (u ∷ us)), text_of (fit (pet_max_len - 1) (p ∷ ps)))
            ∷ [])
add_turn-Characters m u p us ps v good good' =
    add_turn-view m (text_of (u ∷ us)) (text_of (p ∷ ps)) v (first_byte-Characters u us good)
      (first_byte-Characters p ps good')
    ∙ ap (λ x. last_three (view m ++ (x, cut_to pet_max_len (text_of (p ∷ ps))) ∷ []))
        (cut_to-fit user_max_len (u ∷ us) good)
    ∙ ap (λ x. last_three (view m ++ (text_of (fit (user_max_len - 1) (u ∷ us)), x) ∷ []))
        (cut_to-fit pet_max_len (p ∷ ps) good')

-- ===== src/Memory/Ring.antt =====
-- The ring against a list: the last three turns, oldest first.
use waveshare.Prelude.{
  ℕ, zero, suc, ◌+◌, ◌-◌, ◌≤◌, ◌<◌, ◌%◌, ◌≡◌, refl, sym, ap, subst, ◌∙◌, false, not, List, [], ◌∷◌,
  ◌++◌, arith, ltb, ◌==◌, if◌then◌else◌, length, get_or, set, take, drop, c_text, c_text-append,
  length-set, length-append, length-take, length-drop,
}
use waveshare.Memory.{
  Turn, ConversationMemory, max_turns, empty_turn, first_byte, copy_turn_text, memory_clear,
  add_turn, ordered, utf8_prefix_len, user_max_len, pet_max_len,
}
use waveshare.Memory.Utf8.{Cuts-is_text, Cuts-length, utf8_prefix_len_lem}

-- The arrays of a turn have their sizes.
abbrev pub IsSized : Turn → Type 0
IsSized turn = (length turn.user ≡ user_max_len) × (length turn.pet ≡ pet_max_len)

abbrev pub AllSized : List Turn → Type 0
AllSized [] = Unit {0}
AllSized (turn ∷ turns) = IsSized turn × AllSized turns

pub record IsValid (m : ConversationMemory) : Type 0 where
  pub size : length m.turns ≡ max_turns
  pub sized : AllSized m.turns
  pub begins : m.start < max_turns
  pub bounded : m.count ≤ max_turns
  pub filling : m.count < max_turns → m.start ≡ 0

-- The texts of the turns, oldest first.
abbrev pub texts_of : List Turn → List (List ℕ × List ℕ)
texts_of [] = []
texts_of (turn ∷ turns) = (c_text turn.user, c_text turn.pet) ∷ texts_of turns

abbrev pub view : ConversationMemory → List (List ℕ × List ℕ)
view m = texts_of (ordered m.count m.start m.turns)

-- The newest three.
abbrev pub last_three {ℓ} : {A : Type ℓ} → List A → List A
last_three xs = drop (length xs - max_turns) xs

-- What an array of `size` bytes holds of a text.
abbrev pub cut_to : ℕ → List ℕ → List ℕ
cut_to size text = take (utf8_prefix_len text (size - 1)) text

copy_turn_text-size :
    (out text : List ℕ) (size : ℕ)
    → length out ≡ size
    → 0 < size
    → length (copy_turn_text out text) ≡ size
unfolding copy_turn_text
copy_turn_text-size out text size h k =
    let n = utf8_prefix_len text (length out - 1) in
    let (rounds, bound, cuts) =
      utf8_prefix_len_lem text (length out - 1) (length out - 1) (omega arith) in
    ground (
      arith,
      bound,
      Cuts-length text n cuts,
      length-set out 0 0,
      length-append (take n text) (0 ∷ drop (n + 1) out),
      length-take n text,
      length-drop (n + 1) out,
    )

copy_turn_text-text :
    (out text : List ℕ) (size : ℕ)
    → length out ≡ size
    → 0 < size
    → (first_byte text == 0) ≡ false
    → c_text (copy_turn_text out text) ≡ cut_to size text
unfolding copy_turn_text
copy_turn_text-text out text size h k e =
    let n = utf8_prefix_len text (length out - 1) in
    let (rounds, bound, cuts) =
      utf8_prefix_len_lem text (length out - 1) (length out - 1) (omega arith) in
    let read = c_text-append (take n text) (drop (n + 1) out) (Cuts-is_text text n cuts) in
    ground (arith, read)

-- The turn that is written over `old`.
abbrev new_turn : Turn → List ℕ → List ℕ → Turn
new_turn old user pet = record {
  user = copy_turn_text old.user user;
  pet = copy_turn_text old.pet pet;
}

-- The ring itself, on turns that are there.
ring_step :
    (a b c new : Turn) (start count : ℕ)
    → start < max_turns
    → count ≤ max_turns
    → (count < max_turns → start ≡ 0)
    → let turns = a ∷ b ∷ c ∷ [] in
      let full = not (ltb count max_turns) in
      let slot = if full then start else (start + count) % max_turns in
      texts_of (
        ordered
          (if full then count else count + 1)
          (if full then (start + 1) % max_turns else start)
          (set turns slot new))
      ≡ last_three (texts_of (ordered count start turns) ++ texts_of (new ∷ []))
unfolding ordered
ring_step a b c new zero zero h k f = refl
ring_step a b c new zero (suc zero) h k f = refl
ring_step a b c new zero (suc (suc zero)) h k f = refl
ring_step a b c new zero (suc (suc (suc zero))) h k f = refl
ring_step a b c new (suc zero) (suc (suc (suc zero))) h k f = refl
ring_step a b c new (suc (suc zero)) (suc (suc (suc zero))) h k f = refl
ring_step a b c new start count h k f = absurd (ground arith)

-- Three turns, written out.
three : (turns : List Turn) → length turns ≡ max_turns → (a b c : Turn) × (turns ≡ a ∷ b ∷ c ∷ [])
three (a ∷ b ∷ c ∷ []) h = (a, b, c, refl)
three [] h = ground arith
three (a ∷ []) h = ground arith
three (a ∷ b ∷ []) h = ground arith
three (a ∷ b ∷ c ∷ d ∷ turns) h = ground arith

AllSized-get :
    (turns : List Turn) (i : ℕ)
    → AllSized turns
    → i < length turns
    → IsSized (get_or turns i empty_turn)
AllSized-get [] i h k = absurd (omega arith)
AllSized-get (turn ∷ turns) zero h k = h.0
AllSized-get (turn ∷ turns) (suc i) h k = AllSized-get turns i h.1 (omega arith)

AllSized-set :
    (turns : List Turn) (i : ℕ) (new : Turn)
    → AllSized turns
    → IsSized new
    → AllSized (set turns i new)
AllSized-set [] i new h k = tt
AllSized-set (turn ∷ turns) zero new h k = (k, h.1)
AllSized-set (turn ∷ turns) (suc i) new h k = (h.0, AllSized-set turns i new h.1 k)

-- The slot that `add_turn` writes.
abbrev slot_of : ConversationMemory → ℕ
slot_of m = if not (ltb m.count max_turns) then m.start else (m.start + m.count) % max_turns

new_turn-IsSized : (old : Turn) (user pet : List ℕ) → IsSized old → IsSized (new_turn old user pet)
new_turn-IsSized old user pet h = (
  copy_turn_text-size old.user user user_max_len h.0 (omega arith),
  copy_turn_text-size old.pet pet pet_max_len h.1 (omega arith),
)

add_turn-IsValid :
    (m : ConversationMemory) (user pet : List ℕ) → IsValid m → IsValid (add_turn m user pet).1
unfolding add_turn
add_turn-IsValid m user pet v =
    let old = get_or m.turns (slot_of m) empty_turn in
    let new = new_turn old user pet in
    let old_size = AllSized-get m.turns (slot_of m) v.sized (ground (arith, v)) in
    let sized =
      AllSized-set m.turns (slot_of m) new v.sized (new_turn-IsSized old user pet old_size) in
    ground (arith, v, sized, length-set m.turns (slot_of m) new)

ring_view :
    (m : ConversationMemory) (new : Turn)
    → IsValid m
    → let full = not (ltb m.count max_turns) in
      texts_of (
        ordered
          (if full then m.count else m.count + 1)
          (if full then (m.start + 1) % max_turns else m.start)
          (set m.turns (slot_of m) new))
      ≡ last_three (view m ++ texts_of (new ∷ []))
ring_view m new v =
    let (a, b, c, e) = three m.turns v.size in
    let full = not (ltb m.count max_turns) in
    subst
      (λ turns.
        texts_of (
          ordered (if full then m.count else m.count + 1)
            (if full then (m.start + 1) % max_turns else m.start) (set turns (slot_of m) new))
        ≡ last_three (texts_of (ordered m.count m.start turns) ++ texts_of (new ∷ [])))
      (sym e) (ring_step a b c new m.start m.count v.begins v.bounded v.filling)

added :
    (m : ConversationMemory) (user pet : List ℕ)
    → (first_byte user == 0) ≡ false
    → (first_byte pet == 0) ≡ false
    → let full = not (ltb m.count max_turns) in
      (add_turn m user pet).1 ≡ record {
        turns = set m.turns (slot_of m) (new_turn (get_or m.turns (slot_of m) empty_turn) user pet);
        start = if full then (m.start + 1) % max_turns else m.start;
        count = if full then m.count else m.count + 1;
      }
unfolding add_turn
added m user pet e f = ground (arith, e, f)

pair_path : {A B : Type 0} {a a' : A} {b b' : B} → a ≡ a' → b ≡ b' → ◌≡◌ {A = A × B} (a, b) (a', b')
pair_path {a' = a'} {b = b} p q = ap (λ x. (x, b)) p ∙ ap (λ y. (a', y)) q

-- Turns with two texts are remembered as in a list: the new turn, each text cut by `utf8_prefix_len` to
-- fit its array, comes last, and of four turns the oldest goes.
pub add_turn-view :
    (m : ConversationMemory) (user pet : List ℕ)
    → IsValid m
    → (first_byte user == 0) ≡ false
    → (first_byte pet == 0) ≡ false
    → view (add_turn m user pet).1
      ≡ last_three (view m ++ (cut_to user_max_len user, cut_to pet_max_len pet) ∷ [])
add_turn-view m user pet v e f =
    let old = get_or m.turns (slot_of m) empty_turn in
    let new = new_turn old user pet in
    let old_size = AllSized-get m.turns (slot_of m) v.sized (ground (arith, v)) in
    let same_user = copy_turn_text-text old.user user user_max_len old_size.0 (omega arith) e in
    let same_pet = copy_turn_text-text old.pet pet pet_max_len old_size.1 (omega arith) f in
    ap view (added m user pet e f)
    ∙ ring_view m new v
    ∙ ap (λ x. last_three (view m ++ x ∷ [])) (pair_path same_user same_pet)

pub clear-IsValid : IsValid memory_clear
clear-IsValid = record {
  size = refl;
  sized = ((refl, refl), ((refl, refl), ((refl, refl), tt)));
  begins = omega arith;
  bounded = omega arith;
  filling = λ h. refl;
}

-- The memory after some turns, from a cleared one on.
unfoldable pub run : List (List ℕ × List ℕ) → ConversationMemory → ConversationMemory
run [] m = m
run ((user, pet) ∷ turns) m = run turns (add_turn m user pet).1

run-IsValid :
    (turns : List (List ℕ × List ℕ)) (m : ConversationMemory) → IsValid m → IsValid (run turns m)
unfolding run
run-IsValid [] m v = v
run-IsValid ((user, pet) ∷ turns) m v =
    run-IsValid turns (add_turn m user pet).1 (add_turn-IsValid m user pet v)

-- After any turns the ring is valid: its indices lie within its three turns, whose arrays keep
-- their sizes.
pub run-clear-IsValid : (turns : List (List ℕ × List ℕ)) → IsValid (run turns memory_clear)
run-clear-IsValid turns = run-IsValid turns memory_clear clear-IsValid

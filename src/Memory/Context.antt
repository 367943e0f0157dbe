-- ===== src/Memory/Context.antt =====
-- The context for the next request: it fits its buffer, and is a prefix of what all turns say.
use waveshare.Prelude.{
  ℕ, ◌<◌, ◌≡◌, refl, sym, ap, ◌∙◌, Bool, true, false, List, [], ◌∷◌, ◌++◌, arith, if◌then◌else◌,
  length, length-append, c_text, append-nil, append_assoc, none, some, inl, inr, ◌⊎◌,
}
use waveshare.Memory.{
  Turn, ConversationMemory, append_text, append_texts, turn_texts, is_blank, context_from, ordered,
  build_context,
}

-- All the texts, one after the other.
pub spoken : List (List ℕ) → List ℕ
spoken [] = []
spoken (text ∷ texts) = c_text text ++ spoken texts

-- The turns that are not blank, in full.
pub rendered : List Turn → List ℕ
rendered [] = []
rendered (turn ∷ turns) =
    let rest = rendered turns in if is_blank turn then rest else spoken (turn_texts turn) ++ rest

-- `out` fits the buffer and holds `context` and the start of `full`, which is all of it if it is
-- `done`.
pub record Grown (size : ℕ) (context full : List ℕ) (done : Bool) (out : List ℕ) : Type 0 where
  pub fits : length out < size
  pub rest : List ℕ
  pub split : context ++ full ≡ out ++ rest
  pub complete : done ≡ true → rest ≡ []

append_text-cases :
    (size : ℕ) (context text : List ℕ)
    → (append_text size context text ≡ none)
      ⊎ ((append_text size context text ≡ some (context ++ c_text text))
          × (length (context ++ c_text text) < size))
unfolding append_text
append_text-cases size context text = ground (arith, length-append context (c_text text))

append_texts-Grown :
    (size : ℕ) (context : List ℕ) (texts : List (List ℕ))
    → length context < size
    → let (done, out) = append_texts size context texts in
      Grown size context (spoken texts) done out
unfolding append_texts spoken
append_texts-Grown size context [] h = record {
  fits = h;
  rest = [];
  split = refl;
  complete = λ e. refl;
}
append_texts-Grown size context (text ∷ texts) h = elim (append_text-cases size context text) [
  | inl e ↦
      rw (e, append_texts)
        (record {
          fits = h;
          rest = c_text text ++ spoken texts;
          split = refl;
          complete = λ d. ground arith;
        })
  | inr (e, f) ↦
      let later = append_texts-Grown size (context ++ c_text text) texts f in
      rw (e, append_texts)
        (record {
          fits = later.fits;
          rest = later.rest;
          split = sym (append_assoc context (c_text text) (spoken texts)) ∙ later.split;
          complete = later.complete;
        })
]

context_step :
    (size : ℕ) (context : List ℕ) (turn : Turn) (turns : List Turn) (blank done : Bool)
    (longer : List ℕ)
    → length context < size
    → Grown size context (spoken (turn_texts turn)) done longer
    → Grown size context (rendered turns) false (context_from size context turns)
    → Grown size longer (rendered turns) false (context_from size longer turns)
    → let skipped = context_from size context turns in
      let more = context_from size longer turns in
      let rest = rendered turns in
      Grown size context
        (if blank then rest else spoken (turn_texts turn) ++ rest)
        false
        (if blank then skipped else if done then more else longer)
context_step size context turn turns true done longer h g skipped more = skipped
context_step size context turn turns false true longer h g skipped more = record {
  fits = more.fits;
  rest = more.rest;
  split =
      sym (append_assoc context (spoken (turn_texts turn)) (rendered turns))
      ∙ ap (λ x. x ++ rendered turns)
          (g.split ∙ ap (λ r. longer ++ r) (g.complete refl) ∙ append-nil longer)
      ∙ more.split;
  complete = λ d. ground arith;
}
context_step size context turn turns false false longer h g skipped more = record {
  fits = g.fits;
  rest = g.rest ++ rendered turns;
  split =
      sym (append_assoc context (spoken (turn_texts turn)) (rendered turns))
      ∙ ap (λ x. x ++ rendered turns) g.split
      ∙ append_assoc longer g.rest (rendered turns);
  complete = λ d. ground arith;
}

context_from-Grown :
    (size : ℕ) (context : List ℕ) (turns : List Turn)
    → length context < size
    → Grown size context (rendered turns) false (context_from size context turns)
unfolding context_from rendered
context_from-Grown size context [] h = record {
  fits = h;
  rest = [];
  split = refl;
  complete = λ e. refl;
}
context_from-Grown size context (turn ∷ turns) h =
    let (done, longer) = append_texts size context (turn_texts turn) in
    let g = append_texts-Grown size context (turn_texts turn) h in
    context_step size context turn turns (is_blank turn) done longer h g
      (context_from-Grown size context turns h) (context_from-Grown size longer turns g.fits)

-- A context that is reported fits its buffer with its NUL, is not empty, and is the start of what the
-- remembered turns say in order, blank ones left out.
pub build_context_lem :
    (m : ConversationMemory) (size : ℕ)
    → let (done, context) = build_context m size in
      done ≡ true
      → (0 < length context)
        × (length context < size)
        × ((rest : List ℕ) × (rendered (ordered m.count m.start m.turns) ≡ context ++ rest))
unfolding build_context
build_context_lem m size h =
    let nonempty : 0 < size = ground arith in
    let g = context_from-Grown size [] (ordered m.count m.start m.turns) nonempty in
    ground (arith, g.fits, g.split)

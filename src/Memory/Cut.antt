-- ===== src/Memory/Cut.antt =====
-- Cutting a text of UTF-8 characters: `utf8_prefix_len` against a cut of the list of its characters.
use waveshare.Prelude.{
  ℕ, zero, suc, ◌+◌, ◌-◌, ◌≤◌, ◌<◌, ◌≡◌, refl, sym, ◌∙◌, ap, Bool, true, false, ◌||◌, List, [], ◌∷◌,
  ◌++◌, arith, ltb, leb, ◌==◌, if◌then◌else◌, length, take, drop, take-append, take-add,
  drop-append, length-append,
}
use waveshare.Memory.{char_len, char_size, utf8_from, utf8_prefix_len}
use waveshare.Memory.Characters.{Characters, none_left, next, text_of, Reads, Character-Reads}

-- As many whole characters from the front as fit.
unfoldable pub fit : ℕ → List (List ℕ) → List (List ℕ)
fit room [] = []
fit room (c ∷ cs) =
    let rest = fit (room - length c) cs in if leb (length c) room then c ∷ rest else []

round_by :
    (first room size more : ℕ)
    → (first == 0) ≡ false
    → char_len first ≡ size
    → 0 < size
    → (if first == 0 || room == 0 || ltb room (char_len first) then 0 else size + more)
      ≡ (if leb size room then size + more else 0)
round_by first room size more h k p = ground (arith, h, k, p)

nothing_left : (rounds room : ℕ) → utf8_from rounds [] room ≡ 0
unfolding utf8_from
nothing_left zero room = refl
nothing_left (suc rounds) room = refl

no_room :
    (room : ℕ) (c : List ℕ) (cs : List (List ℕ))
    → room ≡ 0
    → 0 < length c
    → 0 ≡ length (text_of (fit room (c ∷ cs)))
unfolding fit
no_room room c cs h k = ground (arith, h, k)

fit_by :
    (room : ℕ) (c : List ℕ) (cs : List (List ℕ)) (n : ℕ)
    → n ≡ length (text_of (fit (room - length c) cs))
    → (if leb (length c) room then length c + n else 0) ≡ length (text_of (fit room (c ∷ cs)))
unfolding fit
fit_by room c cs n h = ground (arith, h, length-append c (text_of (fit (room - length c) cs)))

fit_front_by :
    (b : Bool) (room : ℕ) (c : List ℕ) (cs : List (List ℕ))
    → take (length (text_of (fit room cs))) (text_of cs) ≡ text_of (fit room cs)
    → let taken = if b then c ∷ fit room cs else [] in
      take (length (text_of taken)) (c ++ text_of cs) ≡ text_of taken
fit_front_by false room c cs h = refl
fit_front_by true room c cs h =
    ap (λ n. take n (c ++ text_of cs)) (length-append c (text_of (fit room cs)))
    ∙ take-add (length c) (length (text_of (fit room cs))) (c ++ text_of cs)
    ∙ ap (λ x. x ++ take (length (text_of (fit room cs))) (drop (length c) (c ++ text_of cs)))
        (take-append c (text_of cs))
    ∙ ap (λ x. c ++ take (length (text_of (fit room cs))) x) (drop-append c (text_of cs))
    ∙ ap (λ x. c ++ x) h

-- One round of the loop.
utf8_from-round :
    (rounds room : ℕ) (c rest : List ℕ)
    → Reads c rest
    → utf8_from (suc rounds) (c ++ rest) room
      ≡ (if leb (length c) room then length c + utf8_from rounds rest (room - length c) else 0)
unfolding utf8_from
utf8_from-round rounds room c rest r =
    let behind = drop-append c rest in
    let text : c ++ rest ≡ r.first ∷ (r.others ++ rest) = ap (λ x. x ++ rest) r.bytes in
    let skipped : drop (char_size r.first (r.others ++ rest)) (r.first ∷ (r.others ++ rest))
        ≡ rest =
      ap (λ n. drop n (r.first ∷ (r.others ++ rest))) r.whole
      ∙ ap (drop (length c)) (sym text)
      ∙ behind in
    let body : ℕ → List ℕ → ℕ = λ size left.
      if r.first == 0 || room == 0 || ltb room (char_len r.first)
      then 0
      else size + utf8_from rounds left (room - size) in
    let some_bytes : length c ≡ suc (length r.others) = ap length r.bytes in
    let opened : utf8_from (suc rounds) (r.first ∷ (r.others ++ rest)) room
        ≡ body (char_size r.first (r.others ++ rest))
            (drop (char_size r.first (r.others ++ rest)) (r.first ∷ (r.others ++ rest))) =
      refl in
    let settled : body (length c) rest
        ≡ (if leb (length c) room then length c + utf8_from rounds rest (room - length c) else 0) =
      round_by r.first room (length c) (utf8_from rounds rest (room - length c)) r.not_nul
        r.announces (omega (arith, some_bytes)) in
    ap (λ x. utf8_from (suc rounds) x room) text
    ∙ opened
    ∙ ap (λ n. body n (drop (char_size r.first (r.others ++ rest)) (r.first ∷ (r.others ++ rest))))
        r.whole
    ∙ ap (body (length c)) skipped
    ∙ settled

utf8_from-fit :
    (rounds room : ℕ) (cs : List (List ℕ))
    → room ≤ rounds
    → Characters cs
    → utf8_from rounds (text_of cs) room ≡ length (text_of (fit room cs))
unfolding utf8_from fit
utf8_from-fit zero room [] h none_left = nothing_left zero room
utf8_from-fit (suc rounds) room [] h none_left = nothing_left (suc rounds) room
utf8_from-fit zero room (c ∷ cs) h (next good more) =
    let r = Character-Reads good [] in
    let some_bytes : length c ≡ suc (length r.others) = ap length r.bytes in
    no_room room c cs (omega (arith, h)) (omega (arith, some_bytes))
utf8_from-fit (suc rounds) room (c ∷ cs) h (next good more) =
    let r = Character-Reads good (text_of cs) in
    let some_bytes : length c ≡ suc (length r.others) = ap length r.bytes in
    utf8_from-round rounds room c (text_of cs) r
    ∙ fit_by room c cs _
        (utf8_from-fit rounds (room - length c) cs (omega (arith, h, some_bytes)) more)

fit-front :
    (room : ℕ) (cs : List (List ℕ))
    → take (length (text_of (fit room cs))) (text_of cs) ≡ text_of (fit room cs)
unfolding fit
fit-front room [] = refl
fit-front room (c ∷ cs) =
    fit_front_by (leb (length c) room) (room - length c) c cs (fit-front (room - length c) cs)

-- Of a text of UTF-8 characters, `utf8_prefix_len` takes as many whole characters from the front as
-- fit in `max_bytes` bytes; and its loop ends: more rounds than there are bytes of room change nothing.
pub utf8_prefix_len-fit :
    (cs : List (List ℕ)) (max_bytes rounds : ℕ)
    → Characters cs
    → max_bytes ≤ rounds
    → (take (utf8_prefix_len (text_of cs) max_bytes) (text_of cs) ≡ text_of (fit max_bytes cs))
      × (utf8_from rounds (text_of cs) max_bytes ≡ utf8_prefix_len (text_of cs) max_bytes)
unfolding utf8_prefix_len
utf8_prefix_len-fit cs max_bytes rounds good h =
    let len = utf8_from-fit max_bytes max_bytes cs (omega arith) good in
    (
      ap (λ n. take n (text_of cs)) len ∙ fit-front max_bytes cs,
      utf8_from-fit rounds max_bytes cs h good ∙ sym len,
    )

-- ===== src/Playback/Buffers.antt =====
-- The buffer of samples holds what was appended.
use waveshare.Prelude.{
  ℕ, ◌+◌, ◌<◌, ◌≤◌, ◌≡◌, ◌≢◌, refl, sym, ap, subst, ◌∙◌, ◌⊎◌, inl, inr, Bool, true, false, List, [],
  ◌∷◌, ◌++◌, Option, none, some, arith, if◌then◌else◌, ltb, ◌==◌, length, take, drop, length-take,
  length-append, length-drop, take-append, append-nil, if_keeps, ◌-◌,
}
use waveshare.Playback.{
  BufferStatus, buffer_ok, buffer_invalid_arg, buffer_full, PcmBuffer, copied, append_to,
  pcm_buffer_append,
}

-- The samples that a buffer holds.
unfoldable pub samples : PcmBuffer → List ℕ
samples buffer = elim (buffer.storage) [ none ↦ [] | some storage ↦ take buffer.used storage ]

-- The samples fill a part of the capacity, and the storage is that large.
unfoldable pub IsValid : PcmBuffer → Type 0
IsValid buffer = (buffer.used ≤ buffer.capacity) × (elim (buffer.storage) as (λ o. Type 0) [
  | none ↦ buffer.used ≡ 0
  | some storage ↦ buffer.capacity ≤ length storage
])

take-copied :
    (storage pcm : List ℕ) (used : ℕ)
    → used ≤ length storage
    → take (used + length pcm) (copied storage used pcm) ≡ take used storage ++ pcm
take-copied storage pcm used h =
    let front = take used storage ++ pcm in
    let size = length-append (take used storage) pcm in
    let taken = length-take used storage in
    subst (λ n. take n (copied storage used pcm) ≡ front) (omega (arith, size, taken))
      (take-append front (drop (used + length pcm) storage))

length-copied :
    (storage pcm : List ℕ) (used : ℕ)
    → used + length pcm ≤ length storage
    → length (copied storage used pcm) ≡ length storage
length-copied storage pcm used h = omega (
  arith,
  length-append (take used storage) pcm,
  length-append (take used storage ++ pcm) (drop (used + length pcm) storage),
  length-take used storage,
  length-drop (used + length pcm) storage,
)

-- What an append gives: it adds the samples, or it refuses them and changes at most the mark of an
-- overflow.
Appended : PcmBuffer → List ℕ → BufferStatus × PcmBuffer → Type 0
Appended buffer pcm (status, buffer') =
    IsValid buffer'
    × (((status ≡ buffer_ok) × (samples buffer' ≡ samples buffer ++ pcm))
        ⊎ ((status ≢ buffer_ok)
            × (samples buffer' ≡ samples buffer)
            × (status ≡ buffer_full
                → (buffer.capacity < buffer.used + length pcm) × (buffer'.overflow ≡ true))))

no_samples : (pcm : List ℕ) → length pcm ≡ 0 → pcm ≡ []
no_samples [] h = refl
no_samples (x ∷ pcm) h = absurd (ground arith)

append_to-Appended :
    (storage pcm : List ℕ) (capacity used : ℕ) (overflow empty full : Bool)
    → used ≤ capacity
    → capacity ≤ length storage
    → length pcm == 0 ≡ empty
    → ltb (capacity - used) (length pcm) ≡ full
    → let buffer : PcmBuffer = record {
      storage = some storage;
      capacity = capacity;
      used = used;
      overflow = overflow;
    } in
      Appended buffer pcm (
        if empty
        then (buffer_ok, buffer)
        else if full
        then (buffer_full, record buffer { overflow = true })
        else (
          buffer_ok,
          record buffer { storage = some (copied storage used pcm); used = used + length pcm },
        ))
unfolding Appended IsValid samples
append_to-Appended storage pcm capacity used overflow true full h k e f =
    let none_given = no_samples pcm (ground arith) in
    (
      (h, k),
      inl (
        refl,
        sym (append-nil (take used storage)) ∙ ap (λ l. take used storage ++ l) (sym none_given),
      ),
    )
append_to-Appended storage pcm capacity used overflow false true h k e f =
    ((h, k), inr (λ q. ground arith, refl, λ q. (ground arith, refl)))
append_to-Appended storage pcm capacity used overflow false false h k e f =
    let fits : used + length pcm ≤ capacity = ground arith in
    (
      (fits, omega (arith, length-copied storage pcm used (omega arith))),
      inl (refl, take-copied storage pcm used (omega arith)),
    )

invalid-Appended :
    (buffer : PcmBuffer) (pcm : List ℕ)
    → IsValid buffer
    → Appended buffer pcm (buffer_invalid_arg, buffer)
unfolding Appended
invalid-Appended buffer pcm v = (v, inr (λ q. ground arith, refl, λ q. absurd (ground arith)))

append-Appended :
    (storage : Option (List ℕ)) (capacity used : ℕ) (overflow : Bool) (pcm : List ℕ)
    → let buffer : PcmBuffer = record {
      storage = storage;
      capacity = capacity;
      used = used;
      overflow = overflow;
    } in
      IsValid buffer → Appended buffer pcm (pcm_buffer_append buffer pcm)
unfolding pcm_buffer_append append_to IsValid
append-Appended none capacity used overflow pcm v = invalid-Appended _ pcm v
append-Appended (some storage) capacity used overflow pcm v =
    let buffer : PcmBuffer = record {
      storage = some storage;
      capacity = capacity;
      used = used;
      overflow = overflow;
    } in
    if_keeps (Appended buffer pcm) (capacity == 0) (invalid-Appended buffer pcm v)
      (append_to-Appended storage pcm capacity used overflow _ _ v.0 v.1 refl refl)

-- An append to a valid buffer leaves it valid, within its capacity: it adds the samples behind those
-- that are there, or it refuses them and leaves those; and it is only full when there is no room for
-- all of the new ones, which it marks.
pub pcm_buffer_append-samples :
    (buffer : PcmBuffer) (pcm : List ℕ)
    → IsValid buffer
    → let (status, buffer') = pcm_buffer_append buffer pcm in
      IsValid buffer'
      × (((status ≡ buffer_ok) × (samples buffer' ≡ samples buffer ++ pcm))
          ⊎ ((status ≢ buffer_ok)
              × (samples buffer' ≡ samples buffer)
              × (status ≡ buffer_full
                  → (buffer.capacity < buffer.used + length pcm) × (buffer'.overflow ≡ true))))
unfolding Appended
pcm_buffer_append-samples buffer pcm v =
    append-Appended buffer.storage buffer.capacity buffer.used buffer.overflow pcm v

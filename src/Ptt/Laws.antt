-- ===== src/Ptt/Laws.antt =====
-- What the button reports: recordings are opened and closed in turn, and none outlives its limit.
use waveshare.Prelude.{
  ℕ, ◌≡◌, ◌≢◌, refl, ◌+◌, ◌<◌, ◌≤◌, ◌^◌, Bool, true, false, List, [], ◌∷◌, arith,
}
use waveshare.Ptt.{
  Output, press_start, press_end, audio_too_long, Policy, Button, elapsed_ms, policy_is_safe,
  button_init, first_sample, note_raw, debounce, report, update,
}

-- Only a pressed button records, and a recording that timed out is over.
pub record IsValid (b : Button) : Type 0 where
  pub unused : b.initialized ≡ false → (b.stable_pressed ≡ false) × (b.timeout_reported ≡ false)
  pub pressed : b.recording ≡ true → (b.stable_pressed ≡ true) × (b.timeout_reported ≡ false)
  pub started : b.recording ≡ true → b.initialized ≡ true

pub update-IsValid :
    (p : Policy) (b : Button) (raw : Bool) (now_ms : ℕ)
    → IsValid b
    → IsValid (update b p raw now_ms).1
unfolding update first_sample note_raw debounce report
update-IsValid p b raw now_ms v = ground arith

-- The recordings that an output opens and closes.
abbrev pub opens : Output → ℕ
opens press_start = 1
opens _ = 0

abbrev pub closes : Output → ℕ
closes press_end = 1
closes audio_too_long = 1
closes _ = 0

abbrev pub as_number : Bool → ℕ
as_number true = 1
as_number false = 0

-- The button after some samples, with its outputs counted: opened, closed.
unfoldable pub run : Policy → List (Bool × ℕ) → Button → ℕ × ℕ × Button
run p [] b = (0, 0, b)
run p ((raw, now_ms) ∷ samples) b =
    let (output, b') = update b p raw now_ms in
    let (opened, closed, b'') = run p samples b' in
    (opens output + opened, closes output + closed, b'')

update-balance :
    (p : Policy) (b : Button) (raw : Bool) (now_ms : ℕ)
    → IsValid b
    → let (output, b') = update b p raw now_ms in
      as_number b.recording + opens output ≡ as_number b'.recording + closes output
unfolding update first_sample note_raw debounce report
update-balance p b raw now_ms v = ground arith

run-balance_from :
    (p : Policy) (samples : List (Bool × ℕ)) (b : Button)
    → IsValid b
    → let (opened, closed, b') = run p samples b in
      as_number b.recording + opened ≡ as_number b'.recording + closed
unfolding run
run-balance_from p [] b v = refl
run-balance_from p ((raw, now_ms) ∷ samples) b v =
    let later =
      run-balance_from p samples (update b p raw now_ms).1 (update-IsValid p b raw now_ms v) in
    ground (arith, update-balance p b raw now_ms v, later)

pub button_init-IsValid : IsValid button_init
button_init-IsValid = ground arith

-- From `button_init` on, whatever the samples, every recording that PRESS_START opens is closed by
-- one PRESS_END or AUDIO_TOO_LONG, but for the one that is still going on.
pub run-balance :
    (p : Policy) (samples : List (Bool × ℕ))
    → let (opened, closed, b) = run p samples button_init in opened ≡ closed + as_number b.recording
run-balance p samples = ground (arith, run-balance_from p samples button_init button_init-IsValid)

-- After a sample the button records only if it is held down and the recording is younger than
-- `max_record_ms`, whatever the clock has done.
pub update-recording :
    (p : Policy) (b : Button) (raw : Bool) (now_ms : ℕ)
    → policy_is_safe p ≡ true
    → now_ms < 2 ^ 32
    → IsValid b
    → let b' = (update b p raw now_ms).1 in
      b'.recording ≡ true
      → (b'.stable_pressed ≡ true) × (elapsed_ms now_ms b'.record_started_at_ms < p.max_record_ms)
unfolding policy_is_safe update first_sample note_raw debounce report elapsed_ms
update-recording p b raw now_ms safe h v r = ground arith

-- The stable level changes only to the level sampled, once that has been there for `debounce_ms`.
pub update-stable_pressed :
    (p : Policy) (b : Button) (raw : Bool) (now_ms : ℕ)
    → b.initialized ≡ true
    → let b' = (update b p raw now_ms).1 in
      b'.stable_pressed ≢ b.stable_pressed
      → (b'.stable_pressed ≡ raw) × (p.debounce_ms ≤ elapsed_ms now_ms b'.raw_changed_at_ms)
unfolding update note_raw debounce report
update-stable_pressed p b raw now_ms i h = ground arith

-- A recording begins only when the button was not recording and has been pressed, by the stable
-- level, for `long_press_ms`.
pub update-press_start :
    (p : Policy) (b : Button) (raw : Bool) (now_ms : ℕ)
    → let (output, b') = update b p raw now_ms in
      output ≡ press_start
      → (b.recording ≡ false)
        × (b'.stable_pressed ≡ true)
        × (p.long_press_ms ≤ elapsed_ms now_ms b'.pressed_since_ms)
unfolding update first_sample note_raw debounce report
update-press_start p b raw now_ms h = ground arith

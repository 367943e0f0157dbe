-- ===== src/Ptt/Taps.antt =====
-- The taps that the gesture counts, and the local action that they ask for.
use waveshare.Prelude.{
  ℕ, ◌≡◌, refl, ◌⊎◌, ◌<◌, ◌≤◌, ◌^◌, Bool, true, false, not, ◌&&◌, ◌||◌, ◌↔◌, List, [], ◌∷◌, arith,
  leb, u8_max,
}
use waveshare.Ptt.{
  no_output, press_start, audio_too_long, Policy, Button, elapsed_ms, policy_is_safe, first_sample,
  note_raw, debounce, report, update,
}
use waveshare.Ptt.Laws.{IsValid, update-IsValid, button_init-IsValid}
use waveshare.Ptt.Gesture.{
  LocalAction, pairing, reset, Gesture, gesture_init, forget_taps, count_tap, end_gap,
  gesture_update, is_start_or_timeout, is_none,
}

-- A long press is going on, or has timed out.
abbrev is_long : Button → Bool
is_long b = b.recording || b.timeout_reported

-- The taps counted so far fit their byte, and during a long press there are none.
pub record IsQuiet (g : Gesture) : Type 0 where
  pub button : IsValid g.ptt
  pub bounded : g.short_tap_count ≤ u8_max
  pub silent : is_long g.ptt ≡ true → g.short_tap_count ≡ 0

-- A long press begins with an output that forgets the taps.
update-is_long :
    (p : Policy) (b : Button) (raw : Bool) (now_ms : ℕ)
    → IsValid b
    → let (output, b') = update b p raw now_ms in
      is_long b' ≡ true → (is_long b ≡ true) ⊎ (output ≡ press_start) ⊎ (output ≡ audio_too_long)
unfolding update first_sample note_raw debounce report
update-is_long p b raw now_ms v h = ground arith

gesture_update-IsQuiet :
    (p : Policy) (g : Gesture) (raw : Bool) (now_ms : ℕ)
    → IsQuiet g
    → IsQuiet (gesture_update g p raw now_ms).2
unfolding gesture_update forget_taps count_tap end_gap
gesture_update-IsQuiet p g raw now_ms v =
    ground (
      arith,
      update-IsValid p g.ptt raw now_ms v.button,
      update-is_long p g.ptt raw now_ms v.button,
    )

-- The gesture after some samples, with the local actions that it asked for.
unfoldable pub run : Policy → List (Bool × ℕ) → Gesture → List LocalAction × Gesture
run p [] g = ([], g)
run p ((raw, now_ms) ∷ samples) g =
    let (output, action, g') = gesture_update g p raw now_ms in
    let (actions, g'') = run p samples g' in (action ∷ actions, g'')

run-IsQuiet_from :
    (p : Policy) (samples : List (Bool × ℕ)) (g : Gesture) → IsQuiet g → IsQuiet (run p samples g).1
unfolding run
run-IsQuiet_from p [] g v = v
run-IsQuiet_from p ((raw, now_ms) ∷ samples) g v =
    run-IsQuiet_from p samples (gesture_update g p raw now_ms).2
      (gesture_update-IsQuiet p g raw now_ms v)

-- Whatever the samples, the count of taps fits its byte, and is zero during a long press.
pub run-IsQuiet : (p : Policy) (samples : List (Bool × ℕ)) → IsQuiet (run p samples gesture_init).1
run-IsQuiet p samples =
    run-IsQuiet_from p samples gesture_init
      (record { button = button_init-IsValid; bounded = omega arith; silent = λ h. refl })

-- The button released while its stable level is down reports the end of a long press, or a tap.
update-release :
    (p : Policy) (b : Button) (raw : Bool) (now_ms : ℕ)
    → IsValid b
    → policy_is_safe p ≡ true
    → let (output, b') = update b p raw now_ms in
      b.stable_pressed ≡ true
      → b'.stable_pressed ≡ false
      → (b.recording ≡ false)
      → output ≡ no_output
unfolding update first_sample note_raw debounce report
update-release p b raw now_ms v safe h k r = ground arith

update-held :
    (p : Policy) (b : Button) (raw : Bool) (now_ms : ℕ)
    → let (output, b') = update b p raw now_ms in
      (output ≡ press_start) ⊎ (output ≡ audio_too_long) → b'.stable_pressed ≡ true
unfolding update first_sample note_raw debounce report
update-held p b raw now_ms h = ground arith

-- A gesture asks for a local action exactly when the button was up and stays up and half a second has
-- passed since the last tap: for pairing when three taps were counted before, for a reset when five
-- were, and for none after any other count.
pub gesture_update-action :
    (p : Policy) (g : Gesture) (raw : Bool) (now_ms : ℕ)
    → policy_is_safe p ≡ true
    → now_ms < 2 ^ 32
    → IsQuiet g
    → let (output, action, g') = gesture_update g p raw now_ms in
      let rests =
        not g.ptt.stable_pressed
        && not g'.ptt.stable_pressed
        && leb 500 (elapsed_ms now_ms g.last_short_release_ms) in
      ((action ≡ pairing) ↔ ((rests ≡ true) × (g.short_tap_count ≡ 3)))
      × ((action ≡ reset) ↔ ((rests ≡ true) × (g.short_tap_count ≡ 5)))
unfolding gesture_update forget_taps count_tap end_gap elapsed_ms is_start_or_timeout is_none
gesture_update-action p g raw now_ms safe h v =
    let fits = update-IsValid p g.ptt raw now_ms v.button in
    let release = update-release p g.ptt raw now_ms v.button safe in
    let held = update-held p g.ptt raw now_ms in
    (
      (ground (arith, fits, release, held), ground (arith, fits, release, held)),
      (ground (arith, fits, release, held), ground (arith, fits, release, held)),
    )

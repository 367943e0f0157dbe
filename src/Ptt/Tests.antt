-- ===== src/Ptt/Tests.antt =====
-- Samples of the button, and its theorems at concrete inputs.
use waveshare.Prelude.{
  ◌↔◌, ℕ, xor, ◌≡◌, ◌≢◌, refl, ◌+◌, ◌<◌, Bool, true, false, not, ◌&&◌, leb, List, [], ◌∷◌, arith,
}
use waveshare.Ptt.{
  press_start, Button, default_policy, elapsed_ms, policy_is_safe, button_init, first_sample,
  note_raw, debounce, report, update,
}
use waveshare.Ptt.Laws.{IsValid, as_number, run, run-balance, update-recording}
use waveshare.Ptt.Gesture.{
  no_action, pairing, reset, Gesture, gesture_init, gesture_update, forget_taps, count_tap, end_gap,
  is_start_or_timeout, is_none,
}
use waveshare.Ptt.Taps.{IsQuiet, run-IsQuiet, gesture_update-action}
use waveshare.Ptt.Taps

-- A press held past the limit and released: one recording, closed by the timeout.
abbrev held_too_long : List (Bool × ℕ)
held_too_long =
    (false, 0)
    ∷ (true, 100)
    ∷ (true, 140)
    ∷ (true, 600)
    ∷ (true, 20600)
    ∷ (false, 21000)
    ∷ (false, 21040)
    ∷ []

timeout_closes :
    let (opened, closed, b) = run default_policy held_too_long button_init in
    (opened ≡ 1) × (closed ≡ 1) × (b.recording ≡ false)
unfolding run update policy_is_safe first_sample note_raw debounce report elapsed_ms xor
timeout_closes = (refl, refl, refl)

-- Three taps and half a second.
abbrev three_taps : List (Bool × ℕ)
three_taps =
    (false, 0)
    ∷ (true, 100)
    ∷ (true, 140)
    ∷ (false, 200)
    ∷ (false, 240)
    ∷ (true, 300)
    ∷ (true, 340)
    ∷ (false, 400)
    ∷ (false, 440)
    ∷ (true, 500)
    ∷ (true, 540)
    ∷ (false, 600)
    ∷ (false, 640)
    ∷ (false, 1140)
    ∷ []

asks_for_pairing : Taps.run default_policy three_taps gesture_init ≡ (
  no_action ∷ no_action ∷ no_action ∷ no_action ∷ no_action ∷ no_action ∷ no_action ∷ no_action
      ∷ no_action ∷ no_action ∷ no_action ∷ no_action ∷ no_action ∷ pairing ∷ [],
  (Taps.run default_policy three_taps gesture_init).1,
)
unfolding Taps.run gesture_update forget_taps count_tap end_gap is_start_or_timeout is_none update
    policy_is_safe first_sample note_raw debounce report elapsed_ms xor
asks_for_pairing = refl

run-balance_example :
    let (opened, closed, b) = run default_policy held_too_long button_init in
    opened ≡ closed + as_number b.recording
run-balance_example = run-balance default_policy held_too_long

abbrev pressed : Button
pressed = record {
  initialized = true;
  raw_pressed = true;
  stable_pressed = true;
  recording = false;
  timeout_reported = false;
  raw_changed_at_ms = 4294967000;
  pressed_since_ms = 4294967000;
  record_started_at_ms = 0;
}

pressed-IsValid : IsValid pressed
pressed-IsValid = ground arith

is_safe : policy_is_safe default_policy ≡ true
unfolding policy_is_safe
is_safe = refl

-- The clock has wrapped since the press.
starts : (update pressed default_policy true 204).0 ≡ press_start
unfolding update policy_is_safe note_raw debounce report elapsed_ms xor
starts = refl

records : (update pressed default_policy true 204).1.recording ≡ true
unfolding update policy_is_safe note_raw debounce report elapsed_ms xor
records = refl

update-recording_example :
    ((update pressed default_policy true 204).1.stable_pressed ≡ true)
    × (elapsed_ms 204 (update pressed default_policy true 204).1.record_started_at_ms < 20000)
update-recording_example =
    update-recording default_policy pressed true 204 is_safe (omega arith) pressed-IsValid records

abbrev let_go : Button
let_go = record pressed { raw_pressed = false }

released : (update let_go default_policy false 0).1.stable_pressed ≢ true
unfolding update policy_is_safe note_raw debounce report elapsed_ms xor
released = ground arith

abbrev tapped : Gesture
tapped = record {
  ptt = record button_init { initialized = true };
  short_tap_count = 3;
  last_short_release_ms = 640;
}

tapped-IsQuiet : IsQuiet tapped
tapped-IsQuiet = record { button = ground arith; bounded = omega arith; silent = ground arith }

gesture_update-action_example :
    let (output, action, g') = gesture_update tapped default_policy false 1140 in
    let rests = not g'.ptt.stable_pressed && leb 500 (elapsed_ms 1140 640) in
    ((action ≡ pairing) ↔ ((rests ≡ true) × (tapped.short_tap_count ≡ 3)))
    × ((action ≡ reset) ↔ ((rests ≡ true) × (tapped.short_tap_count ≡ 5)))
gesture_update-action_example =
    gesture_update-action default_policy tapped false 1140 is_safe (omega arith) tapped-IsQuiet

-- ===== src/Ptt/Gesture.antt =====
-- components/app_core/src/aiqa_boot_gesture.c: short taps of the same button, counted.
-- The types are those of components/app_core/include/aiqa_boot_gesture.h.
use waveshare.Prelude.{
  ℕ, ◌+◌, Bool, true, false, not, ◌&&◌, ◌||◌, ltb, leb, ◌==◌, if◌then◌else◌, u8_max,
}
use waveshare.Ptt.{
  Output, no_output, press_start, audio_too_long, Policy, Button, elapsed_ms, policy_is_safe,
  button_init, update,
}

pub data LocalAction : Type 0 where
  no_action pairing reset : LocalAction

pub record Gesture : Type 0 where
  pub ptt : Button
  pub short_tap_count : ℕ  -- uint8_t
  pub last_short_release_ms : ℕ

abbrev pub gap_ms : ℕ
gap_ms = 500

abbrev pub gesture_init : Gesture
gesture_init = record { ptt = button_init; short_tap_count = 0; last_short_release_ms = 0 }

unfoldable pub is_start_or_timeout : Output → Bool
is_start_or_timeout press_start = true
is_start_or_timeout audio_too_long = true
is_start_or_timeout _ = false

unfoldable pub is_none : Output → Bool
is_none no_output = true
is_none _ = false

-- A long press forgets the taps.
unfoldable pub forget_taps : Output → Gesture → Gesture
unfolding is_start_or_timeout
forget_taps output g =
    if is_start_or_timeout output
    then record g { short_tap_count = 0; last_short_release_ms = 0 }
    else g

-- The release of a short press counts, up to UINT8_MAX.
unfoldable pub count_tap : Bool → Bool → Output → ℕ → Gesture → Gesture
unfolding is_none
count_tap was_stable_pressed was_long_press output now_ms g =
    if was_stable_pressed && not g.ptt.stable_pressed && not was_long_press && is_none output
    then record g {
      short_tap_count =
          if ltb g.short_tap_count u8_max then g.short_tap_count + 1 else g.short_tap_count;
      last_short_release_ms = now_ms;
    }
    else g

abbrev pub action_of : ℕ → LocalAction
action_of n = if n == 3 then pairing else if n == 5 then reset else no_action

-- When the gap is over, three taps ask for pairing and five for a reset.
unfoldable pub end_gap : ℕ → Gesture → LocalAction × Gesture
end_gap now_ms g =
    if not g.ptt.stable_pressed
      && ltb 0 g.short_tap_count
      && leb gap_ms (elapsed_ms now_ms g.last_short_release_ms)
    then (action_of g.short_tap_count, record g { short_tap_count = 0; last_short_release_ms = 0 })
    else (no_action, g)

unfoldable pub gesture_update : Gesture → Policy → Bool → ℕ → Output × LocalAction × Gesture
unfolding forget_taps count_tap end_gap
gesture_update g p raw now_ms =
    if not (policy_is_safe p)
    then (no_output, no_action, g)
    else (let (output, ptt) = update g.ptt p raw now_ms in
        let counted =
          count_tap g.ptt.stable_pressed (g.ptt.recording || g.ptt.timeout_reported) output now_ms
            (forget_taps output (record g { ptt = ptt })) in
        let (action, g') = end_gap now_ms counted in (output, action, g'))

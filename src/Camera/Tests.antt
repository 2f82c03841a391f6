-- ===== src/Camera/Tests.antt =====
-- A fly camera at concrete frames: two routes, of which the second carries the focused keyboard.
use trueos_picasso.Prelude.{ℕ, true, false, ◌≡◌, refl, none, some, List, [], ◌∷◌, ◌==◌, arith}
use trueos_picasso.Prelude.Result.{ok, err}
use trueos_picasso.Prelude.Floats.{pos, Float, thousandths, IsExactAtZero, IsClamping}
use trueos_picasso.Camera.{Camera, perspective, vec3, quaternion}
use trueos_picasso.Camera.Matrix.{identity_mat4, invert_mat4}
use trueos_picasso.Camera.Fly.{Wasd, FlyCam, fly_cam, step}
use trueos_picasso.Camera.Fly.Keys.{step_opposed}
use trueos_picasso.Camera.Fly.Ui4.{
  KeyboardState, InputRoute, Frame, PointerEvent, Ui4InputFrame, choose_route, ui4_route_eligible,
  ui4_keyboard_matches, identity_of, step_ui4, handle_ui4_pointer_event, event_identity,
}
use trueos_picasso.Camera.Fly.Ui4.Rank.{best, route_rank, choose_route-best}
use trueos_picasso.Camera.Fly.Ui4.Errors.{Fails, step_ui4-err}
use trueos_picasso.Camera.Fly.Ui4.Reach.{IsSound, called, created, frames, Reached-IsSound}
use trueos_picasso.Camera.Fly.Ui4.Pointer.{IsRouted, handle_ui4_pointer_event-IsRouted}

instance abbrev numbers : Float ℕ
numbers = thousandths

numbers-IsExactAtZero : IsExactAtZero ℕ
numbers-IsExactAtZero = record {
  zero_self = refl;
  sub_self = λ n. omega arith;
  eq_nought = refl;
  length_nought = refl;
}

numbers-IsClamping : IsClamping ℕ
numbers-IsClamping = record {
  max_nought = λ x. ground arith;
  literal_positive = λ n k. ground arith;
}

abbrev eye : Camera ℕ
eye = record {
  position = vec3 1000 2000 3000;
  rotation = quaternion 0 0 0 1000;
  projection = perspective 1000 100 none none;
}

abbrev pilot : FlyCam ℕ
pilot = record {
  camera = eye;
  speed = 4000;
  look_sensitivity = 2;
  ui4 = record { last_keys = forward; route = none; last_combo = 0; pointer_log_frames = 29 };
}
  where
    forward : Wasd
    forward = record { w = true; a = false; s = false; d = false; q = false; e = false }

abbrev opposed : Wasd
opposed = record { w = true; a = false; s = true; d = false; q = true; e = true }

step_opposed_example : step opposed 16 pilot ≡ pilot
step_opposed_example =
    step_opposed numbers-IsExactAtZero opposed 16 pilot
      (record { roll_keys = refl; side_keys = refl; drive_keys = refl })

abbrev typing : KeyboardState
typing = record {
  controller_id = 1;
  slot_id = 2;
  ep_target = 3;
  combo_id = 9;
  is_down = λ usage. usage == 26;
}

abbrev plain : InputRoute
plain = record {
  cursor = record { controller_id = 5; slot_id = 0; ep_target = 1 };
  combo_id = 4;
  application_focus = true;
  selected_for_window = true;
  keyboard = none;
}

abbrev typed : InputRoute
typed = record {
  cursor = record { controller_id = 6; slot_id = 0; ep_target = 1 };
  combo_id = 9;
  application_focus = true;
  selected_for_window = true;
  keyboard = some typing;
}

abbrev routes : List InputRoute
routes = plain ∷ typed ∷ []

abbrev frame : Frame ℕ
frame = record { input_routes = ok routes; keyboard_state = ok (some typing) }

abbrev broken : Frame ℕ
broken = record { input_routes = ok routes; keyboard_state = err 7 }

chosen_first : choose_route none none routes ≡ some plain
unfolding choose_route ui4_route_eligible
chosen_first = refl

chosen_by_keyboard : choose_route (some (identity_of plain)) (some typing) routes ≡ some typed
unfolding choose_route ui4_route_eligible ui4_keyboard_matches
chosen_by_keyboard = refl

choose_route-best_example :
    choose_route (some (identity_of plain)) (some typing) routes
    ≡ best (route_rank (some (identity_of plain)) (some typing)) routes
choose_route-best_example = choose_route-best (some (identity_of plain)) (some typing) routes

broken_fails : step_ui4 broken 16 pilot ≡ (err 7, pilot)
unfolding step_ui4
broken_fails = refl

step_ui4-err_example : (pilot ≡ pilot) × Fails broken 7
step_ui4-err_example = step_ui4-err broken 16 pilot broken_fails

Reached-IsSound_example : IsSound (step_ui4 frame 16 (fly_cam eye 4000)).1
Reached-IsSound_example =
    Reached-IsSound numbers-IsClamping ℕ
      (called (created eye 4000) (frames frame 16 (fly_cam eye 4000)))

abbrev drag : PointerEvent
drag = record {
  source = record { controller_id = 6; slot_id = 0; ep_target = 1 };
  combo_id = 9;
  middle = true;
  dx = pos 3;
  dy = pos 0;
}

abbrev seen : Ui4InputFrame
seen = record {
  keys = record { w = true; a = false; s = false; d = false; q = false; e = false };
  route_count = 2;
  focused = true;
}

frame_ok : step_ui4 frame 16 pilot ≡ (ok seen, (step_ui4 frame 16 pilot).1)
unfolding step_ui4 ui4_route_eligible ui4_keyboard_matches
frame_ok = refl

drag_turns :
    handle_ui4_pointer_event drag true (step_ui4 frame 16 pilot).1
    ≡ (true, (handle_ui4_pointer_event drag true (step_ui4 frame 16 pilot).1).1)
unfolding step_ui4 handle_ui4_pointer_event step ui4_route_eligible ui4_keyboard_matches
drag_turns = refl

handle_ui4_pointer_event-IsRouted_example :
    (true ≡ true) × (true ≡ true) × IsRouted frame (event_identity drag)
handle_ui4_pointer_event-IsRouted_example =
    handle_ui4_pointer_event-IsRouted frame 16 pilot drag true frame_ok drag_turns

inverse_identity : invert_mat4 {F = ℕ} identity_mat4 ≡ some identity_mat4
unfolding invert_mat4 identity_mat4
inverse_identity = refl

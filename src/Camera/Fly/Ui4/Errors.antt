-- ===== src/Camera/Fly/Ui4/Errors.antt =====
-- The errors of `step_ui4`.
use trueos_picasso.Prelude.{Bool, true, ◌≡◌, refl, Option, List, ◌⊎◌, inr, arith}
use trueos_picasso.Prelude.Result.{Result, ok, err}
use trueos_picasso.Prelude.Floats.{Float}
use trueos_picasso.Camera.Fly.{FlyCam}
use trueos_picasso.Camera.Fly.Ui4.{
  KeyboardState, InputRoute, Frame, any, focused_keyboard, with_keyboard, with_routes, step_ui4,
}

-- Some route has the application's focus.
abbrev pub is_focused : List InputRoute → Bool
is_focused routes = any (λ (r : InputRoute). r.application_focus) routes

-- Where an error of a frame comes from: its routes, or the keyboard of a frame in focus.
abbrev pub Fails : {E : Type 0} → Frame E → E → Type 0
Fails frame x =
    (frame.input_routes ≡ err x)
    ⊎ ((routes : List InputRoute) × (frame.input_routes ≡ ok routes)
        × (is_focused routes ≡ true)
        × (frame.keyboard_state ≡ err x))

module _ {ℓ} {F : Type ℓ} ⦃f : Float F⦄ {E : Type 0} (frame : Frame E) (dt : F) (c : FlyCam F) where
  with_keyboard-err :
      (r : Result E (Option KeyboardState)) (routes : List InputRoute) {x : E} {c' : FlyCam F}
      → with_keyboard r routes dt c ≡ (err x, c')
      → (c' ≡ c) × (r ≡ err x)
  unfolding with_keyboard
  with_keyboard-err (err y) routes h = ground arith
  with_keyboard-err (ok keyboard) routes h = cc

  focused_keyboard-err :
      (routes : List InputRoute) {x : E}
      → focused_keyboard frame routes ≡ err x
      → (is_focused routes ≡ true) × (frame.keyboard_state ≡ err x)
  unfolding focused_keyboard
  focused_keyboard-err routes h = ground arith

  with_routes-err :
      (r : Result E (List InputRoute)) {x : E} {c' : FlyCam F}
      → frame.input_routes ≡ r
      → with_routes frame r dt c ≡ (err x, c')
      → (c' ≡ c) × Fails frame x
  unfolding with_routes
  with_routes-err (err y) e h = ground arith
  with_routes-err (ok routes) e h =
      let k = with_keyboard-err (focused_keyboard frame routes) routes h in
      let q = focused_keyboard-err routes k.1 in (k.0, inr (routes, e, q.0, q.1))

  -- When step_ui4 fails, the camera and the whole state of the adapter are as before, and the error
  -- is that of the frame's routes, or of the keyboard, which is asked for only in focus.
  pub step_ui4-err :
      {x : E} {c' : FlyCam F} → step_ui4 frame dt c ≡ (err x, c') → (c' ≡ c) × Fails frame x
  unfolding step_ui4
  step_ui4-err h = with_routes-err frame.input_routes refl h

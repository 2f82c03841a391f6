-- ===== src/Camera/Fly/Ui4.antt =====
-- The UI4 adapter of src/cam.rs: `step_ui4`, `handle_ui4_pointer_event` and their helpers.
--
-- UI4's frames, routes, keyboards and events are parameters: records of what the code reads.
pub mod Find
pub mod Rank
pub mod Errors
pub mod State
pub mod Reach
pub mod Pointer
use trueos_picasso.Prelude.{
  ℕ, ◌+◌, ◌%◌, ◌^◌, Bool, true, false, not, ◌&&◌, ◌||◌, Option, none, some, List, [], ◌∷◌, ◌==◌,
  if◌then◌else◌, length,
}
use trueos_picasso.Prelude.Result.{Result, ok, err, ◌>>=◌}
use trueos_picasso.Prelude.Words.{and_then}
use trueos_picasso.Prelude.Floats.{ℤ, is_zero, Float}
use trueos_picasso.Camera.Fly.{
  Wasd, no_keys, CursorSource, Ui4RouteIdentity, Ui4FlyState, FlyCam, look, step,
}

-- `trueos_bp::ui4_scene`
pub record KeyboardState : Type 0 where
  pub controller_id : ℕ
  pub slot_id : ℕ
  pub ep_target : ℕ
  pub combo_id : ℕ
  pub is_down : ℕ → Bool

pub record InputRoute : Type 0 where
  pub cursor : CursorSource
  pub combo_id : ℕ
  pub application_focus : Bool
  pub selected_for_window : Bool
  pub keyboard : Option KeyboardState

pub record Frame (E : Type 0) : Type 0 where
  pub input_routes : Result E (List InputRoute)
  pub keyboard_state : Result E (Option KeyboardState)

-- `middle` is `buttons_down & POINTER_BUTTON_MIDDLE != 0`.
pub record PointerEvent : Type 0 where
  pub source : CursorSource
  pub combo_id : ℕ
  pub middle : Bool
  pub dx : ℤ
  pub dy : ℤ

pub record Ui4InputFrame : Type 0 where
  pub keys : Wasd
  pub route_count : ℕ
  pub focused : Bool

abbrev pub bool_eq : Bool → Bool → Bool
bool_eq true b = b
bool_eq false b = not b

abbrev pub wasd_eq : Wasd → Wasd → Bool
wasd_eq k l =
    bool_eq k.w l.w
    && bool_eq k.a l.a
    && bool_eq k.s l.s
    && bool_eq k.d l.d
    && bool_eq k.q l.q
    && bool_eq k.e l.e

abbrev pub identity_eq : Ui4RouteIdentity → Ui4RouteIdentity → Bool
identity_eq a b =
    a.cursor.controller_id == b.cursor.controller_id
    && a.cursor.slot_id == b.cursor.slot_id
    && a.cursor.ep_target == b.cursor.ep_target
    && a.combo_id == b.combo_id

abbrev pub option_eq {ℓ} : {A : Type ℓ} → (A → A → Bool) → Option A → Option A → Bool
option_eq eq none none = true
option_eq eq (some a) (some b) = eq a b
option_eq eq _ _ = false

-- `Iterator::any`, `Iterator::find` and `Option::or_else`
abbrev pub any {ℓ} : {A : Type ℓ} → (A → Bool) → List A → Bool
any test [] = false
any test (x ∷ xs) = test x || any test xs

abbrev pub find {ℓ} : {A : Type ℓ} → (A → Bool) → List A → Option A
find test [] = none
find test (x ∷ xs) = if test x then some x else find test xs

abbrev pub or_else {ℓ} : {A : Type ℓ} → Option A → Option A → Option A
or_else (some a) b = some a
or_else none b = b

abbrev pub identity_of : InputRoute → Ui4RouteIdentity
identity_of route = record { cursor = route.cursor; combo_id = route.combo_id }

abbrev pub route_identity : Option InputRoute → Option Ui4RouteIdentity
route_identity none = none
route_identity (some route) = some (identity_of route)

unfoldable pub ui4_route_eligible : InputRoute → Bool
ui4_route_eligible route = route.application_focus && route.selected_for_window

unfoldable pub ui4_keyboard_matches : InputRoute → KeyboardState → Bool
ui4_keyboard_matches route keyboard = matches route.keyboard
  where
    matches : Option KeyboardState → Bool
    matches none = false
    matches (some candidate) =
        candidate.controller_id == keyboard.controller_id
        && candidate.slot_id == keyboard.slot_id
        && candidate.ep_target == keyboard.ep_target
        && candidate.combo_id == keyboard.combo_id

-- The usages of the HID keyboard page: W, A, S, D, Q and E.
abbrev pub flycam_keys_from_keyboard : KeyboardState → Wasd
flycam_keys_from_keyboard k = record {
  w = k.is_down 26;
  a = k.is_down 4;
  s = k.is_down 22;
  d = k.is_down 7;
  q = k.is_down 20;
  e = k.is_down 8;
}

-- `routes.iter().any(|route| route.application_focus)`, and then the state of the keyboard
unfoldable pub focused_keyboard :
    {E : Type 0} → Frame E → List InputRoute → Result E (Option KeyboardState)
focused_keyboard frame routes =
    if any (λ (r : InputRoute). r.application_focus) routes then frame.keyboard_state else ok none

abbrev pub by_keyboard : Option KeyboardState → InputRoute → Bool
by_keyboard none r = false
by_keyboard (some k) r = ui4_keyboard_matches r k

abbrev pub by_identity : Option Ui4RouteIdentity → InputRoute → Bool
by_identity none r = false
by_identity (some id) r = identity_eq (identity_of r) id

unfoldable pub choose_route :
    (sticky : Option Ui4RouteIdentity) → Option KeyboardState → List InputRoute → Option InputRoute
choose_route sticky keyboard routes =
    or_else
      (and_then keyboard λ k. find (λ r. ui4_route_eligible r && ui4_keyboard_matches r k) routes)
      (or_else
        (and_then sticky
          λ id. find (λ r. ui4_route_eligible r && identity_eq (identity_of r) id) routes)
        (find ui4_route_eligible routes))

-- What the state keeps of the route: the combo of the last one stays when there is none.
unfoldable pub adopt : Option InputRoute → Ui4FlyState → Ui4FlyState
adopt route u = if option_eq identity_eq (route_identity route) u.route then u else switched route
  where
    switched : Option InputRoute → Ui4FlyState
    switched none = record u { route = none }
    switched (some r) = record u { route = some (identity_of r); last_combo = r.combo_id }

abbrev pub keys_of : Option KeyboardState → Wasd
keys_of none = no_keys
keys_of (some k) = flycam_keys_from_keyboard k

-- The keys of the first route of this identity.
unfoldable pub sampled_keys : Option Ui4RouteIdentity → List InputRoute → Wasd
sampled_keys identity routes = keys_of (
    and_then identity
      λ id. and_then (find (λ r. identity_eq (identity_of r) id) routes) λ r. r.keyboard)

unfoldable pub keep_keys : Wasd → Ui4FlyState → Ui4FlyState
keep_keys keys u = if wasd_eq keys u.last_keys then u else record u { last_keys = keys }

abbrev pub is_some {ℓ} : {A : Type ℓ} → Option A → Bool
is_some none = false
is_some (some a) = true

abbrev pub event_identity : PointerEvent → Ui4RouteIdentity
event_identity event = record { cursor = event.source; combo_id = event.combo_id }

-- `wrapping_add(1) % 30` on a u8
abbrev pub count_frame : Ui4FlyState → Ui4FlyState
count_frame u = record u { pointer_log_frames = (u.pointer_log_frames + 1) % 2 ^ 8 % 30 }

module _ {ℓ} {F : Type ℓ} ⦃f : Float F⦄ where
  unfoldable pub after_route :
      (route : Option InputRoute)
      → List InputRoute
      → (delta_seconds : F) → FlyCam F
      → Ui4InputFrame × FlyCam F
  unfolding adopt sampled_keys keep_keys
  after_route route routes dt c =
      let identity = route_identity route in
      let keys = sampled_keys identity routes in
      let u = keep_keys keys (adopt route c.ui4) in
      let answer : Ui4InputFrame = record {
        keys = keys;
        route_count = length routes % 2 ^ 32;
        focused = is_some identity;
      } in
      (answer, step keys dt (record c { ui4 = u }))

  unfoldable pub with_keyboard :
      {E : Type 0}
      → Result E (Option KeyboardState)
      → List InputRoute
      → (delta_seconds : F) → FlyCam F
      → Result E Ui4InputFrame × FlyCam F
  unfolding choose_route after_route
  with_keyboard (err e) routes dt c = (err e, c)
  with_keyboard (ok keyboard) routes dt c =
      let r = after_route (choose_route c.ui4.route keyboard routes) routes dt c in (ok r.0, r.1)

  unfoldable pub with_routes :
      {E : Type 0}
      → Frame E
      → Result E (List InputRoute)
      → (delta_seconds : F) → FlyCam F
      → Result E Ui4InputFrame × FlyCam F
  unfolding focused_keyboard with_keyboard
  with_routes frame (err e) dt c = (err e, c)
  with_routes frame (ok routes) dt c = with_keyboard (focused_keyboard frame routes) routes dt c

  unfoldable pub step_ui4 :
      {E : Type 0} → Frame E → (delta_seconds : F) → FlyCam F → Result E Ui4InputFrame × FlyCam F
  unfolding with_routes
  step_ui4 frame dt c = with_routes frame frame.input_routes dt c

  unfoldable pub is_active : PointerEvent → (allow_look : Bool) → FlyCam F → Bool
  is_active event allow_look c =
      allow_look
      && option_eq identity_eq (some (event_identity event)) c.ui4.route
      && event.middle
      && (not (is_zero event.dx) || not (is_zero event.dy))

  unfoldable pub handle_ui4_pointer_event :
      PointerEvent → (allow_look : Bool) → FlyCam F → Bool × FlyCam F
  unfolding is_active look
  handle_ui4_pointer_event event allow_look c =
      let turned = look (f.of_int event.dx) (f.of_int event.dy) c in
      if is_active event allow_look c
      then (true, record turned { ui4 = count_frame turned.ui4 })
      else (false, c)

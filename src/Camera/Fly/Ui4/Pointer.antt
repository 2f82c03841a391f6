-- ===== src/Camera/Fly/Ui4/Pointer.antt =====
-- Pointer events after a frame.
use mathlib.Core.List.{Mem}
use trueos_picasso.Prelude.{
  Bool, true, ◌≡◌, refl, ap, sym, ◌∙◌, Option, none, some, List, ◌&&◌, arith,
}
use trueos_picasso.Prelude.Result.{Result, ok, err}
use trueos_picasso.Prelude.Words.{and_then}
use trueos_picasso.Prelude.Floats.{Float}
use trueos_picasso.Camera.Fly.{Ui4RouteIdentity, Ui4FlyState, FlyCam}
use trueos_picasso.Camera.Fly.Ui4.{
  KeyboardState, InputRoute, Frame, Ui4InputFrame, PointerEvent, identity_of, event_identity,
  identity_eq, find, route_identity, ui4_route_eligible, choose_route, focused_keyboard,
  after_route, with_keyboard, with_routes, step_ui4, is_active, ui4_keyboard_matches,
  handle_ui4_pointer_event, adopt, keep_keys, sampled_keys, or_else,
}
use trueos_picasso.Camera.Fly.Ui4.Find.{find-some}
use trueos_picasso.Camera.Fly.Ui4.State.{
  route-adopt, keep_keys_keeps, option_identity_sound, step_keeps,
}

-- What an option holds, if anything.
abbrev Only {ℓ κ} : {A : Type ℓ} → (A → Type κ) → Option A → Type (ℓ ⊔ κ)
Only {A = A} P o = (a : A) → o ≡ some a → P a

or_else-Only {ℓ κ} :
    {A : Type ℓ} (P : A → Type κ) (o p : Option A) → Only P o → Only P p → Only P (or_else o p)
or_else-Only P (some a) p h k = h
or_else-Only P none p h k = k

and_then-Only {ℓ κ μ} :
    {A : Type ℓ} {B : Type κ} (P : B → Type μ) (o : Option A) (next : A → Option B)
    → ((a : A) → Only P (next a))
    → Only P (and_then o next)
and_then-Only P (some a) next h = h a
and_then-Only P none next h = λ b e. cc

abbrev IsEligibleIn : List InputRoute → InputRoute → Type 0
IsEligibleIn routes r = (ui4_route_eligible r ≡ true) × Mem r routes

find-Only :
    (extra : InputRoute → Bool) (routes : List InputRoute)
    → Only (IsEligibleIn routes) (find (λ r. ui4_route_eligible r && extra r) routes)
find-Only extra routes r e =
    let found = find-some (λ r. ui4_route_eligible r && extra r) routes e in
    (ground (arith, found.0), found.1)

choose_route-eligible :
    (sticky : Option Ui4RouteIdentity) (keyboard : Option KeyboardState) (routes : List InputRoute)
    → Only (IsEligibleIn routes) (choose_route sticky keyboard routes)
unfolding choose_route
choose_route-eligible sticky keyboard routes =
    or_else-Only (IsEligibleIn routes) _ _
      (and_then-Only (IsEligibleIn routes) keyboard _
        (λ k. find-Only (λ r. ui4_keyboard_matches r k) routes))
      (or_else-Only (IsEligibleIn routes) _ _
        (and_then-Only (IsEligibleIn routes) sticky _
          (λ id. find-Only (λ r. identity_eq (identity_of r) id) routes))
        (λ r e. find-some ui4_route_eligible routes e))

held_route {κ} :
    (P : InputRoute → Type κ) (o : Option InputRoute) {id : Ui4RouteIdentity}
    → Only P o
    → route_identity o ≡ some id
    → (r : InputRoute) × P r × (identity_of r ≡ id)
held_route P none only h = cc
held_route P (some r) only h = (r, only r refl, ground arith)

-- The route an adapter holds after a frame is that of an eligible route of the frame.
abbrev pub IsRouted : {E : Type 0} → Frame E → Ui4RouteIdentity → Type 0
IsRouted frame id =
    (routes : List InputRoute) × (frame.input_routes ≡ ok routes)
    × (r : InputRoute) × (ui4_route_eligible r ≡ true)
    × Mem r routes
    × (identity_of r ≡ id)

module _ {ℓ} {F : Type ℓ} ⦃f : Float F⦄ where
  route-after_route :
      (r : Option InputRoute) (routes : List InputRoute) (dt : F) (c : FlyCam F)
      → (after_route r routes dt c).1.ui4.route ≡ route_identity r
  unfolding after_route
  route-after_route r routes dt c =
      let keys = sampled_keys (route_identity r) routes in
      let u = adopt r c.ui4 in
      ap (λ (v : Ui4FlyState). v.route) (step_keeps keys dt (record c { ui4 = keep_keys keys u })).0
      ∙ ((keep_keys_keeps keys u).0 ∙ route-adopt r c.ui4)

  with_keyboard-IsRouted :
      {E : Type 0} (k : Result E (Option KeyboardState)) (routes : List InputRoute) (dt : F)
      (c : FlyCam F) {answer : Ui4InputFrame} {d : FlyCam F} {id : Ui4RouteIdentity}
      → with_keyboard k routes dt c ≡ (ok answer, d)
      → d.ui4.route ≡ some id
      → (r : InputRoute) × IsEligibleIn routes r × (identity_of r ≡ id)
  unfolding with_keyboard
  with_keyboard-IsRouted (err x) routes dt c h held = cc
  with_keyboard-IsRouted {E = E} (ok k) routes dt c h held =
      let chosen = choose_route c.ui4.route k routes in
      held_route (IsEligibleIn routes) chosen (choose_route-eligible c.ui4.route k routes) (
        sym (route-after_route chosen routes dt c)
        ∙ (ap (λ (p : Result E Ui4InputFrame × FlyCam F). p.1.ui4.route) h ∙ held))

  with_routes-IsRouted :
      {E : Type 0} (frame : Frame E) (r : Result E (List InputRoute)) (dt : F) (c : FlyCam F)
      {answer : Ui4InputFrame} {d : FlyCam F} {id : Ui4RouteIdentity}
      → frame.input_routes ≡ r
      → with_routes frame r dt c ≡ (ok answer, d)
      → d.ui4.route ≡ some id
      → IsRouted frame id
  unfolding with_routes
  with_routes-IsRouted frame (err x) dt c e h held = cc
  with_routes-IsRouted frame (ok routes) dt c e h held =
      let (r, found, same) =
        with_keyboard-IsRouted (focused_keyboard frame routes) routes dt c h held in
      (routes, e, r, found.0, found.1, same)

  handle-active :
      (event : PointerEvent) (allow_look : Bool) (c : FlyCam F) {d : FlyCam F}
      → handle_ui4_pointer_event event allow_look c ≡ (true, d)
      → (allow_look ≡ true) × (event.middle ≡ true) × (c.ui4.route ≡ some (event_identity event))
  unfolding handle_ui4_pointer_event is_active
  handle-active event allow_look c h =
      ground (arith, option_identity_sound (some (event_identity event)) c.ui4.route)

  -- A pointer event that turns the camera after a frame was stepped is allowed to, comes with the
  -- middle button held, and from the source of an eligible route of that frame.
  pub handle_ui4_pointer_event-IsRouted :
      {E : Type 0} (frame : Frame E) (dt : F) (c : FlyCam F) (event : PointerEvent)
      (allow_look : Bool) {answer : Ui4InputFrame} {d after : FlyCam F}
      → step_ui4 frame dt c ≡ (ok answer, d)
      → handle_ui4_pointer_event event allow_look d ≡ (true, after)
      → (allow_look ≡ true) × (event.middle ≡ true) × IsRouted frame (event_identity event)
  unfolding step_ui4
  handle_ui4_pointer_event-IsRouted frame dt c event allow_look {answer} {d} h active =
      let a = handle-active event allow_look d active in
      (a.0, a.1, with_routes-IsRouted frame frame.input_routes dt c refl h a.2)

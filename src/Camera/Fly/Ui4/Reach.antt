-- ===== src/Camera/Fly/Ui4/Reach.antt =====
-- A fly camera in use: any sequence of its methods, its public camera written between them.
use mathlib.Core.Path.{subst}
use trueos_picasso.Prelude.{
  ◌<◌, Bool, true, ◌≡◌, refl, Option, none, some, List, sym, ◌∙◌, Bool-cases, inl, inr, arith,
}
use trueos_picasso.Prelude.Result.{Result, ok, err}
use trueos_picasso.Prelude.Floats.{Float, IsClamping, nought}
use trueos_picasso.Camera.{Camera}
use trueos_picasso.Camera.Fly.{
  Wasd, no_keys, Ui4RouteIdentity, Ui4FlyState, FlyCam, fly_cam, set_speed, set_look_sensitivity,
  look, roll, step,
}
use trueos_picasso.Camera.Fly.Ui4.{
  KeyboardState, InputRoute, Frame, PointerEvent, route_identity, adopt, sampled_keys, keep_keys,
  after_route, with_keyboard, with_routes, step_ui4, count_frame, handle_ui4_pointer_event,
  is_active,
}
use trueos_picasso.Camera.Fly.Ui4.State.{
  route-adopt, last_keys-keep_keys, keep_keys_keeps, step_keeps,
}

-- The adapter counts frames below 30, remembers the combo of its route, and holds no key without
-- one.
pub record IsTidy (u : Ui4FlyState) : Type 0 where
  pub frames : u.pointer_log_frames < 30
  pub combo : (id : Ui4RouteIdentity) → u.route ≡ some id → u.last_combo ≡ id.combo_id
  pub released : u.route ≡ none → u.last_keys ≡ no_keys

adopt-IsTidy :
    (r : Option InputRoute) (u : Ui4FlyState)
    → IsTidy u
    → ((adopt r u).pointer_log_frames < 30)
      × ((id : Ui4RouteIdentity)
          → (adopt r u).route ≡ some id
          → (adopt r u).last_combo ≡ id.combo_id)
unfolding adopt
adopt-IsTidy none u t = (ground (arith, t.frames), λ id e. ground (arith, t.combo id))
adopt-IsTidy (some r) u t = (ground (arith, t.frames), λ id e. ground (arith, t.combo id))

no_route-no_keys :
    (r : Option InputRoute) (routes : List InputRoute)
    → route_identity r ≡ none
    → sampled_keys (route_identity r) routes ≡ no_keys
unfolding sampled_keys
no_route-no_keys none routes h = refl
no_route-no_keys (some r) routes h = cc

after-IsTidy :
    (r : Option InputRoute) (routes : List InputRoute) (u : Ui4FlyState)
    → IsTidy u
    → IsTidy (keep_keys (sampled_keys (route_identity r) routes) (adopt r u))
after-IsTidy r routes u t =
    let keys = sampled_keys (route_identity r) routes in
    let adopted = adopt-IsTidy r u t in
    let kept = keep_keys_keeps keys (adopt r u) in
    record {
      frames = rw kept.2 adopted.0;
      combo = λ id e. rw kept.1 (adopted.1 id (rw (← kept.0) e));
      released = λ e.
          last_keys-keep_keys keys (adopt r u)
          ∙ no_route-no_keys r routes (sym (route-adopt r u) ∙ (sym kept.0 ∙ e));
    }

count_frame-IsTidy : (u : Ui4FlyState) → IsTidy u → IsTidy (count_frame u)
count_frame-IsTidy u t = record { frames = omega arith; combo = t.combo; released = t.released }

-- A camera's adapter is tidy, and its sensitivity is not negative.
pub record IsSound {ℓ} {F : Type ℓ} ⦃f : Float F⦄ (c : FlyCam F) : Type 0 where
  pub tidy : IsTidy c.ui4
  pub sensitivity : f.le nought c.look_sensitivity ≡ true

module _ {ℓ} {F : Type ℓ} ⦃f : Float F⦄ where
  step-IsSound : (k : Wasd) (dt : F) (c : FlyCam F) → IsSound c → IsSound (step k dt c)
  step-IsSound k dt c s =
      let keeps = step_keeps k dt c in
      record {
        tidy = subst IsTidy (sym keeps.0) s.tidy;
        sensitivity = subst (λ (x : F). f.le nought x ≡ true) (sym keeps.1) s.sensitivity;
      }

  after_route-IsSound :
      (r : Option InputRoute) (routes : List InputRoute) (dt : F) (c : FlyCam F)
      → IsSound c
      → IsSound (after_route r routes dt c).1
  unfolding after_route
  after_route-IsSound r routes dt c s =
      step-IsSound _ dt _
        (record { tidy = after-IsTidy r routes c.ui4 s.tidy; sensitivity = s.sensitivity })

  with_keyboard-IsSound :
      {E : Type 0} (k : Result E (Option KeyboardState)) (routes : List InputRoute) (dt : F)
      (c : FlyCam F)
      → IsSound c
      → IsSound (with_keyboard k routes dt c).1
  unfolding with_keyboard
  with_keyboard-IsSound (err x) routes dt c s = s
  with_keyboard-IsSound (ok k) routes dt c s = after_route-IsSound _ routes dt c s

  with_routes-IsSound :
      {E : Type 0} (frame : Frame E) (r : Result E (List InputRoute)) (dt : F) (c : FlyCam F)
      → IsSound c
      → IsSound (with_routes frame r dt c).1
  unfolding with_routes
  with_routes-IsSound frame (err x) dt c s = s
  with_routes-IsSound frame (ok routes) dt c s = with_keyboard-IsSound _ routes dt c s

  look-IsSound : (dx dy : F) (c : FlyCam F) → IsSound c → IsSound (look dx dy c)
  unfolding look
  look-IsSound dx dy c s = record { tidy = s.tidy; sensitivity = s.sensitivity }

  handle-IsSound :
      (event : PointerEvent) (allow_look : Bool) (c : FlyCam F)
      → IsSound c
      → IsSound (handle_ui4_pointer_event event allow_look c).1
  unfolding handle_ui4_pointer_event
  handle-IsSound event allow_look c s = elim (Bool-cases (is_active event allow_look c)) [
    | inl active ↦
        let turned = look (f.of_int event.dx) (f.of_int event.dy) c in
        let t = look-IsSound (f.of_int event.dx) (f.of_int event.dy) c s in
        rw active
          (record { tidy = count_frame-IsTidy turned.ui4 t.tidy; sensitivity = t.sensitivity })
    | inr idle ↦ rw idle s
  ]

-- One call of a method, or a write to the camera, which is public.
pub data Call {ℓ} {F : Type ℓ} ⦃f : Float F⦄ (E : Type 0) : FlyCam F → FlyCam F → Type ℓ where
  places : (camera : Camera F) (c : FlyCam F) → Call E c (record c { camera = camera })
  speeds : (v : F) (c : FlyCam F) → Call E c (set_speed v c)
  tunes : (v : F) (c : FlyCam F) → Call E c (set_look_sensitivity v c)
  looks : (dx dy : F) (c : FlyCam F) → Call E c (look dx dy c)
  rolls : (angle : F) (c : FlyCam F) → Call E c (roll angle c)
  steps : (k : Wasd) (dt : F) (c : FlyCam F) → Call E c (step k dt c)
  frames : (frame : Frame E) (dt : F) (c : FlyCam F) → Call E c (step_ui4 frame dt c).1
  points :
      (event : PointerEvent) (allow_look : Bool) (c : FlyCam F)
      → Call E c (handle_ui4_pointer_event event allow_look c).1

pub data Reached {ℓ} {F : Type ℓ} ⦃f : Float F⦄ (E : Type 0) : FlyCam F → Type ℓ where
  created : (camera : Camera F) (speed : F) → Reached E (fly_cam camera speed)
  called : {c d : FlyCam F} → Reached E c → Call E c d → Reached E d

module _ {ℓ} {F : Type ℓ} ⦃f : Float F⦄ (laws : IsClamping F) (E : Type 0) where
  Call-IsSound : {c d : FlyCam F} → Call E c d → IsSound c → IsSound d
  unfolding set_speed set_look_sensitivity roll step_ui4
  Call-IsSound (places camera c) s = record { tidy = s.tidy; sensitivity = s.sensitivity }
  Call-IsSound (speeds v c) s = record { tidy = s.tidy; sensitivity = s.sensitivity }
  Call-IsSound (tunes v c) s = record { tidy = s.tidy; sensitivity = laws.max_nought v }
  Call-IsSound (looks dx dy c) s = look-IsSound dx dy c s
  Call-IsSound (rolls angle c) s = record { tidy = s.tidy; sensitivity = s.sensitivity }
  Call-IsSound (steps k dt c) s = step-IsSound k dt c s
  Call-IsSound (frames frame dt c) s = with_routes-IsSound frame frame.input_routes dt c s
  Call-IsSound (points event allow_look c) s = handle-IsSound event allow_look c s

  -- However the methods of a fly camera are called, its adapter counts frames below 30, remembers
  -- the combo of its route, holds no key while it has no route, and the sensitivity is not negative.
  pub Reached-IsSound : {c : FlyCam F} → Reached E c → IsSound c
  unfolding fly_cam
  Reached-IsSound (created camera speed) = record {
    tidy = record { frames = omega arith; combo = λ id e. cc; released = λ e. refl };
    sensitivity = laws.literal_positive 2 3;
  }
  Reached-IsSound (called before call) = Call-IsSound call (Reached-IsSound before)

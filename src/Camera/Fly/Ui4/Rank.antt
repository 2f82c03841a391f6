-- ===== src/Camera/Fly/Ui4/Rank.antt =====
-- The three searches of `step_ui4` against a description by rank: the earliest route of the
-- highest rank.
use trueos_picasso.Prelude.{
  ℕ, Bool, true, false, ◌&&◌, ◌≡◌, refl, Option, none, some, List, [], ◌∷◌, leb, if◌then◌else◌,
  ◌==◌, arith,
}
use trueos_picasso.Camera.Fly.{Ui4RouteIdentity}
use trueos_picasso.Camera.Fly.Ui4.{
  KeyboardState, InputRoute, find, or_else, by_keyboard, by_identity, ui4_route_eligible,
  choose_route,
}
use trueos_picasso.Camera.Fly.Ui4.Find.{find-some, find-none, find-never}

-- 0: not eligible. 3: the focused keyboard's. 2: the route of the step before. 1: any other.
abbrev pub level : (eligible keyboard previous : Bool) → ℕ
level false k p = 0
level true true p = 3
level true false true = 2
level true false false = 1

module _ {ℓ} {A : Type ℓ} (rank : A → ℕ) where
  -- One pass from the end of the list: an item replaces a later one unless it ranks below it.
  abbrev pub better : A → Option A → Option A
  better x none = if rank x == 0 then none else some x
  better x (some y) = if leb (rank y) (rank x) then some x else some y

  abbrev pub best : List A → Option A
  best [] = none
  best (x ∷ xs) = better x (best xs)

module _ {ℓ} {A : Type ℓ} (e k p : A → Bool) where
  abbrev rank : A → ℕ
  rank x = level (e x) (k x) (p x)

  abbrev chosen : List A → Option A
  chosen xs = or_else (find (λ x. e x && k x) xs) (or_else (find (λ x. e x && p x) xs) (find e xs))

  -- A new head against what the three searches find in the rest, given how that ranks.
  chosen-step :
      (x : A) (o₁ o₂ o₃ : Option A)
      → ((y : A) → o₁ ≡ some y → rank y ≡ 3)
      → ((y : A) → o₁ ≡ none → o₂ ≡ some y → rank y ≡ 2)
      → ((y : A) → o₁ ≡ none → o₂ ≡ none → o₃ ≡ some y → rank y ≡ 1)
      → or_else
          (if e x && k x then some x else o₁)
          (or_else (if e x && p x then some x else o₂) (if e x then some x else o₃))
        ≡ better rank x (or_else o₁ (or_else o₂ o₃))
  chosen-step x (some y) o₂ o₃ r₁ r₂ r₃ = ground (arith, r₁ y refl)
  chosen-step x none (some y) o₃ r₁ r₂ r₃ = ground (arith, r₂ y refl refl)
  chosen-step x none none (some y) r₁ r₂ r₃ = ground (arith, r₃ y refl refl refl)
  chosen-step x none none none r₁ r₂ r₃ = ground arith

  chosen-best : (xs : List A) → chosen xs ≡ best rank xs
  chosen-best [] = refl
  chosen-best (x ∷ xs) = rw (← (chosen-best xs)) (
      chosen-step x (find (λ x. e x && k x) xs) (find (λ x. e x && p x) xs) (find e xs)
        (λ y found. ground (arith, find-some (λ x. e x && k x) xs found))
        (λ y no₁ found. ground (
          arith,
          find-none (λ x. e x && k x) (λ x. e x && p x) xs no₁ found,
          find-some (λ x. e x && p x) xs found,
        ))
        (λ y no₁ no₂ found. ground (
          arith,
          find-none (λ x. e x && k x) e xs no₁ found,
          find-none (λ x. e x && p x) e xs no₂ found,
          find-some e xs found,
        )))

-- How a route ranks for `step_ui4`.
abbrev pub route_rank : Option Ui4RouteIdentity → Option KeyboardState → InputRoute → ℕ
route_rank sticky keyboard r =
    level (ui4_route_eligible r) (by_keyboard keyboard r) (by_identity sticky r)

-- The route that step_ui4 chooses by its three searches is the earliest one of the highest rank: of
-- the eligible routes, one that carries the focused keyboard ranks above that of the step before,
-- which ranks above all others, and a route that is not eligible is never chosen.
pub choose_route-best :
    (sticky : Option Ui4RouteIdentity) (keyboard : Option KeyboardState) (routes : List InputRoute)
    → choose_route sticky keyboard routes ≡ best (route_rank sticky keyboard) routes
unfolding choose_route
choose_route-best none none routes =
    rw (← (chosen-best ui4_route_eligible (by_keyboard none) (by_identity none) routes))
      (rw (find-never ui4_route_eligible routes) refl)
choose_route-best (some id) none routes =
    rw (← (chosen-best ui4_route_eligible (by_keyboard none) (by_identity (some id)) routes))
      (rw (find-never ui4_route_eligible routes) refl)
choose_route-best none (some k) routes =
    rw (← (chosen-best ui4_route_eligible (by_keyboard (some k)) (by_identity none) routes))
      (rw (find-never ui4_route_eligible routes) refl)
choose_route-best (some id) (some k) routes =
    chosen-best ui4_route_eligible (by_keyboard (some k)) (by_identity (some id)) routes

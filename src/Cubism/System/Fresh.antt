-- ===== src/Cubism/System/Fresh.antt =====
-- `initialize_fresh` of src/cubism.rs, and a ring that is used from there on.
use trueos_picasso.Prelude.{ℕ, zero, suc, ◌+◌, ◌≤◌, ◌<◌, ◌≡◌, refl, [], arith}
use trueos_picasso.Cubism.Types.{Memory, ExecRing}
use trueos_picasso.Cubism.Ring.{put_header, fresh_header, initialize_from, initialize_fresh}
use trueos_picasso.Cubism.Layout.Bounds.{IsLaidOut}
use trueos_picasso.Cubism.Phases.{free, Shows}
use trueos_picasso.Cubism.System.{System, Reach}
use trueos_picasso.Cubism.System.Ownership.{IsSafe}
use trueos_picasso.Cubism.System.Safety.{Reach-IsSafe}

-- The loop leaves what stands below its counter.
initialize_from-below :
    (i rounds j : ℕ) (m : Memory) → j < i → (initialize_from i rounds m).headers j ≡ m.headers j
unfolding initialize_from
initialize_from-below i zero j m h = refl
initialize_from-below i (suc k) j m h =
    ground (arith, initialize_from-below (i + 1) k j (put_header i fresh_header m))

initialize_from-headers :
    (i rounds j : ℕ) (m : Memory)
    → i ≤ j
    → j < i + rounds
    → (initialize_from i rounds m).headers j ≡ fresh_header
unfolding initialize_from
initialize_from-headers i zero j m h k = absurd (omega arith)
initialize_from-headers i (suc k) j m h lt = ground (
  arith,
  initialize_from-below (i + 1) k j (put_header i fresh_header m),
  initialize_from-headers (i + 1) k j (put_header i fresh_header m),
)

-- Every slot of a fresh ring is free at generation 0.
pub initialize_fresh-free :
    (r : ExecRing) (m : Memory) (index : ℕ)
    → index < r.slot_count
    → Shows (initialize_fresh r m) index (free 0)
unfolding initialize_fresh
initialize_fresh-free r m index h = ground (arith, initialize_from-headers 0 r.slot_count index m)

abbrev pub fresh_system : ExecRing → Memory → System
fresh_system r m = record { memory = initialize_fresh r m; tokens = [] }

-- A fresh ring that no producer has touched is safe, so all that its users reach is: every slot is
-- in a phase, each token's slot is being written at the token's generation, and no two tokens name
-- the same slot.
pub fresh-IsSafe :
    (r : ExecRing) (m : Memory) {s : System}
    → IsLaidOut r
    → Reach r (fresh_system r m) s
    → IsSafe r s
fresh-IsSafe r m l reached =
    Reach-IsSafe r l
      (record {
        well_formed = record { phase_of = λ i h. (free 0, initialize_fresh-free r m i h) };
        owned = tt;
        distinct = tt;
      })
      reached

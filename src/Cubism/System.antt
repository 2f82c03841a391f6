-- ===== src/Cubism/System.antt =====
-- The users of a ring of src/cubism.rs: producers that hold tokens, and executors that submit and
-- retire generations. Each method is one step; any user may take the next one.
pub mod Ownership
pub mod Safety
pub mod Fresh
pub mod Stranded
pub mod Generations
pub mod Liveness
pub mod Ranges
use trueos_picasso.Prelude.{ℕ, ◌<◌, ◌≡◌, List, ◌∷◌, ◌++◌}
use trueos_picasso.Prelude.Result.{ok, err}
use trueos_picasso.Cubism.Types.{
  CubismError, Memory, VisibilityOps, ExecRing, CpuSlot, PublishedSlot,
}
use trueos_picasso.Cubism.Ring.{try_acquire}
use trueos_picasso.Cubism.Slots.{write_payload, drop_slot, publish, mark_in_flight, retire}
use trueos_picasso.Cubism.Phases.{generations}

-- The memory and the tokens that producers hold.
pub record System : Type 0 where
  pub memory : Memory
  pub tokens : List CpuSlot

-- A token is made by `try_acquire` alone and moves into `publish` or `drop`. A `PublishedSlot` may
-- be copied and kept, so the executor's steps take any index and generation in range.
pub data Step (r : ExecRing) (s s' : System) : Type 0 where
  acquires :
      (t : CpuSlot) (m : Memory)
      → try_acquire r s.memory ≡ (ok t, m)
      → s' ≡ record { memory = m; tokens = t ∷ s.tokens }
      → Step r s s'
  finds_none :
      (e : CubismError) (m : Memory)
      → try_acquire r s.memory ≡ (err e, m)
      → s' ≡ record s { memory = m }
      → Step r s s'
  writes :
      (xs : List CpuSlot) (t : CpuSlot) (ys : List CpuSlot) (bytes : List ℕ)
      → s.tokens ≡ xs ++ t ∷ ys
      → s' ≡ record s { memory = write_payload t bytes s.memory }
      → Step r s s'
  publishes :
      (v : VisibilityOps) (xs : List CpuSlot) (t : CpuSlot) (ys : List CpuSlot) (n revision : ℕ)
      → s.tokens ≡ xs ++ t ∷ ys
      → s' ≡ record { memory = (publish r v t n revision s.memory).1; tokens = xs ++ ys }
      → Step r s s'
  abandons :
      (xs : List CpuSlot) (t : CpuSlot) (ys : List CpuSlot)
      → s.tokens ≡ xs ++ t ∷ ys
      → s' ≡ record { memory = drop_slot t s.memory; tokens = xs ++ ys }
      → Step r s s'
  submits :
      (p : PublishedSlot) (timeline : ℕ)
      → p.index < r.slot_count
      → p.generation < generations
      → s' ≡ record s { memory = (mark_in_flight p timeline s.memory).1 }
      → Step r s s'
  retires :
      (v : VisibilityOps) (index g completed : ℕ)
      → s' ≡ record s { memory = (retire r v index g completed s.memory).1 }
      → Step r s s'

pub data Reach (r : ExecRing) (s : System) : System → Type 0 where
  here : Reach r s s
  next : {t u : System} → Reach r s t → Step r t u → Reach r s u

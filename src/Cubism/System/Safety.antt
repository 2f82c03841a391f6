-- ===== src/Cubism/System/Safety.antt =====
-- The invariant of a ring in use holds in every state that its users reach.
use mathlib.Core.Path.{subst}
use native.Mathlib.Decide.{dec_lt}
use trueos_picasso.Prelude.{ℕ, ◌+◌, ◌*◌, ◌<◌, ◌≡◌, ◌≢◌, refl, ap, sym, List, ◌∷◌, arith}
use trueos_picasso.Prelude.Result.{ok}
use trueos_picasso.Prelude.All.{All, All-map}
use trueos_picasso.Cubism.Types.{Memory, VisibilityOps, ExecRing, CpuSlot}
use trueos_picasso.Cubism.Ring.{try_acquire}
use trueos_picasso.Cubism.Slots.{write_payload, drop_slot, publish, mark_in_flight, retire}
use trueos_picasso.Cubism.Layout.Bounds.{IsLaidOut}
use trueos_picasso.Cubism.Phases.{Phase, free, writing, generations, Shows}
use trueos_picasso.Cubism.Phases.Publish.{
  IsToken, data_range, marker_range, at_flush, at_marker, published_phase, publish_phase,
  publish_too_large, publish-OnlySlot, drop_slot-free, drop_slot-OnlySlot,
}
use trueos_picasso.Cubism.Phases.Acquire.{try_acquire-Claimed, try_acquire-err}
use trueos_picasso.Cubism.Phases.Submit.{
  mark_outcome, mark_in_flight-outcome, mark_in_flight-OnlySlot,
}
use trueos_picasso.Cubism.Phases.Retire.{
  retired_range, retire_outcome, retire-outcome, retire-OnlySlot, retire-invalid_index,
  retire-overflow,
}
use trueos_picasso.Cubism.System.{
  System, Step, acquires, finds_none, writes, publishes, abandons, submits, retires, Reach, here,
  next,
}
use trueos_picasso.Cubism.System.Ownership.{
  IsSafe, Shows-same, IsWellFormed-step, tokens-step, free-unowned, release-IsSafe, executor-IsSafe,
}

-- `publish` leaves its slot in one of three phases.
publish-Shows :
    (r : ExecRing) (v : VisibilityOps) (t : CpuSlot) (n revision : ℕ) (m : Memory)
    → IsLaidOut r
    → IsToken r m t
    → (p : Phase) × Shows (publish r v t n revision m).1 t.index p
publish-Shows r v t n revision m l h = elim (dec_lt r.payload_capacity n) [
  | yes big ↦ (free t.generation, (publish_too_large r v t n revision m l h big).1)
  | no fits ↦ (
    published_phase r v t n revision m
        (v.cpu_make_gpu_visible (at_flush r v t n revision m) (data_range r v t n revision m))
        (v.cpu_publish_slot (at_marker r v t n revision m) (marker_range r v t n revision m)),
    (publish_phase r v t n revision m l h (omega arith)).1,
  )
]

-- A writing slot shows an even sequence, which no published generation has.
even-ne-published : (g g' : ℕ) → 2 * g ≢ 2 * g' + 1
even-ne-published g g' e = absurd (omega arith)

submit-writing :
    (i g t g' : ℕ) (m : Memory)
    → g < generations
    → Shows m i (writing g')
    → Shows (mark_in_flight (record { index = i; generation = g }) t m).1 i (writing g')
submit-writing i g t g' m b h =
    subst (Shows (mark_in_flight (record { index = i; generation = g }) t m).1 i) (unmoved)
      (mark_in_flight-outcome i g t (writing g') m b h).1
  where
    unmoved : (mark_outcome g t (writing g')).1 ≡ writing g'
    unmoved = ground (arith, even-ne-published g' g)

module _ (r : ExecRing) (v : VisibilityOps) (i g completed : ℕ) (m : Memory) where
  retire-writing :
      (g' : ℕ)
      → i < r.slot_count
      → g < generations
      → Shows m i (writing g')
      → Shows (retire r v i g completed m).1 i (writing g')
  retire-writing g' hi b h =
      subst (Shows (retire r v i g completed m).1 i) unmoved
        (retire-outcome r v i g completed m (writing g') hi b h).1
    where
      unmoved :
          (retire_outcome g completed
            (writing g')
            (v.gpu_make_cpu_visible m (retired_range r v i g completed m))).1
          ≡ writing g'
      unmoved = ground (arith, even-ne-published g' g)

-- A memory that differs in the hint alone.
hint-IsSafe :
    (r : ExecRing) (s : System) (m' : Memory)
    → m'.headers ≡ s.memory.headers
    → IsSafe r s
    → IsSafe r (record s { memory = m' })
hint-IsSafe r s m' e safe = record {
  well_formed = record {
    phase_of = λ j hj.
        let (p, shows) = safe.well_formed.phase_of j hj in
        (p, Shows-same j p (ap (λ h. h j) e) shows);
  };
  owned =
      All-map (IsToken r s.memory) (IsToken r m') s.tokens
        (λ t h. record {
          valid = h.valid;
          unpublished = h.unpublished;
          shows = Shows-same t.index (writing t.generation) (ap (λ h. h t.index) e) h.shows;
        })
        safe.owned;
  distinct = safe.distinct;
}

acquire-IsSafe :
    (r : ExecRing) (s : System) (t : CpuSlot) (m : Memory)
    → try_acquire r s.memory ≡ (ok t, m)
    → IsSafe r s
    → IsSafe r (record { memory = m; tokens = t ∷ s.tokens })
acquire-IsSafe r s t m e safe =
    let (was_free, token, only) = try_acquire-Claimed r s.memory safe.well_formed e in
    let apart : All (λ y. t.index ≢ y.index) s.tokens =
      All-map (IsToken r s.memory) (λ y. t.index ≢ y.index) s.tokens
        (free-unowned r s.memory t.index t.generation was_free) safe.owned in
    record {
      well_formed =
          IsWellFormed-step r t.index s.memory m only.headers (writing t.generation) token.shows
            safe.well_formed;
      owned = (token, tokens-step r t.index s.memory m only.headers s.tokens apart safe.owned);
      distinct = (apart, safe.distinct);
    }

retire-IsSafe :
    (r : ExecRing) (s : System) (v : VisibilityOps) (i g completed : ℕ)
    → IsSafe r s
    → IsSafe r (record s { memory = (retire r v i g completed s.memory).1 })
retire-IsSafe r s v i g completed safe = elim (dec_lt i r.slot_count) [
  | no out ↦
      hint-IsSafe r s m'
        (ap (λ x. x.1.headers) (retire-invalid_index r v i g completed s.memory (omega arith))) safe
  | yes hi ↦ elim (dec_lt g generations) [
    | no over ↦
        hint-IsSafe r s m'
          (ap (λ x. x.1.headers) (retire-overflow r v i g completed s.memory hi (omega arith))) safe
    | yes b ↦
        executor-IsSafe r s i m' hi (retire-OnlySlot r v i g completed s.memory).headers
          (λ p shows. (_, (retire-outcome r v i g completed s.memory p hi b shows).1))
          (λ g' shows. retire-writing r v i g completed s.memory g' hi b shows) safe
  ]
]
  where
    m' : Memory
    m' = (retire r v i g completed s.memory).1

pub headers-write_payload :
    (t : CpuSlot) (bytes : List ℕ) (m : Memory) → (write_payload t bytes m).headers ≡ m.headers
unfolding write_payload
headers-write_payload t bytes m = refl

-- Every step of any user keeps the invariant.
pub Step-IsSafe :
    (r : ExecRing) {s s' : System} → IsLaidOut r → Step r s s' → IsSafe r s → IsSafe r s'
Step-IsSafe r {s} l (acquires t m e q) safe =
    subst (IsSafe r) (sym q) (acquire-IsSafe r s t m e safe)
Step-IsSafe r {s} l (finds_none x m e q) safe =
    subst (IsSafe r) (sym q)
      (hint-IsSafe r s m (ap (λ y. y.headers) (try_acquire-err r s.memory e).1) safe)
Step-IsSafe r {s} l (writes xs t ys bytes e q) safe =
    subst (IsSafe r) (sym q) (
      hint-IsSafe r s (write_payload t bytes s.memory) (headers-write_payload t bytes s.memory)
        safe)
Step-IsSafe r {s} l (publishes v xs t ys n revision e q) safe = subst (IsSafe r) (sym q) (
    release-IsSafe r s xs t ys (publish r v t n revision s.memory).1 e
      (publish-OnlySlot r v t n revision s.memory).headers
      (publish-Shows r v t n revision s.memory l) safe)
Step-IsSafe r {s} l (abandons xs t ys e q) safe = subst (IsSafe r) (sym q) (
    release-IsSafe r s xs t ys (drop_slot t s.memory) e (drop_slot-OnlySlot t s.memory).headers
      (λ token. (free t.generation, drop_slot-free r t s.memory token)) safe)
Step-IsSafe r {s} l (submits p timeline hi b q) safe = subst (IsSafe r) (sym q) (
    executor-IsSafe r s p.index (mark_in_flight p timeline s.memory).1 hi
      (mark_in_flight-OnlySlot p timeline s.memory).headers
      (λ x shows. (_, (mark_in_flight-outcome p.index p.generation timeline x s.memory b shows).1))
      (λ g shows. submit-writing p.index p.generation timeline g s.memory b shows) safe)
Step-IsSafe r {s} l (retires v i g completed q) safe =
    subst (IsSafe r) (sym q) (retire-IsSafe r s v i g completed safe)

-- In every state that the users of a ring reach from a safe one, the invariant holds.
pub Reach-IsSafe :
    (r : ExecRing) {s s' : System} → IsLaidOut r → IsSafe r s → Reach r s s' → IsSafe r s'
Reach-IsSafe r l safe here = safe
Reach-IsSafe r l safe (next before step) = Step-IsSafe r l step (Reach-IsSafe r l safe before)

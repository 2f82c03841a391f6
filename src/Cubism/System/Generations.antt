-- ===== src/Cubism/System/Generations.antt =====
-- The generation of a slot of src/cubism.rs never falls, and a retired one never comes back.
use mathlib.Core.Path.{subst}
use native.Mathlib.Decide.{dec_lt, ℕ_discrete}
use native.Mathlib.Nat.{le_refl, le_trans}
use trueos_picasso.Prelude.{ℕ, ◌*◌, ◌≤◌, ◌<◌, ◌≡◌, ◌≢◌, ap, sym, arith}
use trueos_picasso.Prelude.Result.{Result, ok, err}
use trueos_picasso.Prelude.All.{All, All-middle}
use trueos_picasso.Cubism.Types.{
  ExecSlotHeader, CubismError, generation_mismatch, Memory, VisibilityOps, ExecRing, CpuSlot,
}
use trueos_picasso.Cubism.Slots.{
  write_payload, drop_slot, publish, mark_in_flight, retire, published,
}
use trueos_picasso.Cubism.Layout.Bounds.{IsLaidOut}
use trueos_picasso.Cubism.Phases.{
  Phase, sealed, in_flight, free, writing, header_of, generations, published_value, Shows,
}
use trueos_picasso.Cubism.Phases.Publish.{
  IsToken, data_range, marker_range, at_flush, at_marker, published_phase, publish_phase,
  publish_too_large, publish-OnlySlot, drop_slot-free, drop_slot-OnlySlot,
}
use trueos_picasso.Cubism.Phases.Acquire.{try_acquire-Claimed, try_acquire-err}
use trueos_picasso.Cubism.Phases.Submit.{
  mark_outcome, mark_in_flight-outcome, mark_in_flight-OnlySlot, published_lem,
}
use trueos_picasso.Cubism.Phases.Retire.{
  retired_range, retire_outcome, retire-outcome, retire-OnlySlot, retire-invalid_index,
  retire-overflow, retire-mismatch,
}
use trueos_picasso.Cubism.System.{
  System, Step, acquires, finds_none, writes, publishes, abandons, submits, retires, Reach, here,
  next,
}
use trueos_picasso.Cubism.System.Ownership.{IsSafe}
use trueos_picasso.Cubism.System.Safety.{Reach-IsSafe, headers-write_payload}

-- The published or free sequence that a phase shows.
abbrev sequence_of : Phase → ℕ
sequence_of p = (header_of p).sequence

mark_outcome-sequence : (g t : ℕ) (p : Phase) → sequence_of (mark_outcome g t p).1 ≡ sequence_of p
mark_outcome-sequence g t (sealed _ _ _) = ground arith
mark_outcome-sequence g t _ = ground arith

retire_outcome-sequence :
    (g completed : ℕ) (p : Phase) (x : Result CubismError (Unit {0}))
    → g < generations
    → sequence_of p ≤ sequence_of (retire_outcome g completed p x).1
retire_outcome-sequence g completed (in_flight _ _ _ _) (ok _) b = ground arith
retire_outcome-sequence g completed (in_flight _ _ _ _) (err _) b = ground arith
retire_outcome-sequence g completed _ x b = ground arith

abbrev pub sequence_at : Memory → ℕ → ℕ
sequence_at m j = (m.headers j).sequence

-- The sequences of a memory are not above those of a later one.
abbrev Grows : Memory → Memory → Type 0
Grows m m' = (j : ℕ) → sequence_at m j ≤ sequence_at m' j

Grows-same : (m m' : Memory) → m'.headers ≡ m.headers → Grows m m'
Grows-same m m' e j = omega (arith, ap (λ h. (h j).sequence) e)

Grows-slot :
    (i : ℕ) (m m' : Memory)
    → ((j : ℕ) → i ≢ j → m'.headers j ≡ m.headers j)
    → sequence_at m i ≤ sequence_at m' i
    → Grows m m'
Grows-slot i m m' keep le j = elim (ℕ_discrete i j) [
  | yes e ↦ subst (λ k. sequence_at m k ≤ sequence_at m' k) e le
  | no ne ↦ omega (arith, ap (λ (h : ExecSlotHeader). h.sequence) (keep j ne))
]

-- Two phases of one slot whose sequences are in order.
Grows-phases :
    (i : ℕ) (p q : Phase) (m m' : Memory)
    → Shows m i p
    → Shows m' i q
    → sequence_of p ≤ sequence_of q
    → sequence_at m i ≤ sequence_at m' i
Grows-phases i p q m m' h k le = omega (
  arith,
  ap (λ (x : ExecSlotHeader). x.sequence) h.header,
  ap (λ (x : ExecSlotHeader). x.sequence) k.header,
)

module _ (r : ExecRing) (v : VisibilityOps) (t : CpuSlot) (n revision : ℕ) (m : Memory) where
  published_phase-sequence :
      (x y : Result CubismError (Unit {0}))
      → 2 * t.generation ≤ sequence_of (published_phase r v t n revision m x y)
  published_phase-sequence (ok _) (ok _) = omega arith
  published_phase-sequence (ok _) (err _) = omega arith
  published_phase-sequence (err _) y = omega arith

  publish-Grows :
      IsLaidOut r
      → IsToken r m t
      → sequence_at m t.index ≤ sequence_at (publish r v t n revision m).1 t.index
  publish-Grows l h = elim (dec_lt r.payload_capacity n) [
    | yes big ↦
        Grows-phases t.index (writing t.generation) (free t.generation) m
          (publish r v t n revision m).1 h.shows (publish_too_large r v t n revision m l h big).1
          (le_refl _)
    | no fits ↦
        Grows-phases t.index (writing t.generation)
          (published_phase r v t n revision m flushed marked) m (publish r v t n revision m).1
          h.shows (publish_phase r v t n revision m l h (omega arith)).1
          (published_phase-sequence flushed marked)
  ]
    where
      flushed : Result CubismError (Unit {0})
      flushed = v.cpu_make_gpu_visible (at_flush r v t n revision m) (data_range r v t n revision m)

      marked : Result CubismError (Unit {0})
      marked = v.cpu_publish_slot (at_marker r v t n revision m) (marker_range r v t n revision m)

retire-Grows :
    (r : ExecRing) (v : VisibilityOps) (i g completed : ℕ) (s : System)
    → IsSafe r s
    → Grows s.memory (retire r v i g completed s.memory).1
retire-Grows r v i g completed s safe = elim (dec_lt i r.slot_count) [
  | no out ↦
      Grows-same m m'
        (ap (λ x. x.1.headers) (retire-invalid_index r v i g completed m (omega arith)))
  | yes hi ↦ elim (dec_lt g generations) [
    | no over ↦
        Grows-same m m'
          (ap (λ x. x.1.headers) (retire-overflow r v i g completed m hi (omega arith)))
    | yes b ↦
        let (p, shows) = safe.well_formed.phase_of i hi in
        let hook = v.gpu_make_cpu_visible m (retired_range r v i g completed m) in
        Grows-slot i m m' (retire-OnlySlot r v i g completed m).headers (
          Grows-phases i p (retire_outcome g completed p hook).1 m m' shows
            (retire-outcome r v i g completed m p hi b shows).1
            (retire_outcome-sequence g completed p hook b))
  ]
]
  where
    m : Memory
    m = s.memory

    m' : Memory
    m' = (retire r v i g completed s.memory).1

-- No step lowers the sequence of any slot.
pub Step-Grows :
    (r : ExecRing) {s s' : System}
    → IsLaidOut r
    → Step r s s'
    → IsSafe r s
    → Grows s.memory s'.memory
Step-Grows r {s} l (acquires t m e q) safe =
    let (was, token, only) = try_acquire-Claimed r s.memory safe.well_formed e in
    subst (λ x. Grows s.memory x.memory) (sym q)
      (Grows-slot t.index s.memory m only.headers (
        Grows-phases t.index (free t.generation) (writing t.generation) s.memory m was token.shows
          (le_refl _)))
Step-Grows r {s} l (finds_none x m e q) safe =
    subst (λ x. Grows s.memory x.memory) (sym q)
      (Grows-same s.memory m (ap (λ y. y.headers) (try_acquire-err r s.memory e).1))
Step-Grows r {s} l (writes xs t ys bytes e q) safe =
    subst (λ x. Grows s.memory x.memory) (sym q)
      (Grows-same s.memory (write_payload t bytes s.memory)
        (headers-write_payload t bytes s.memory))
Step-Grows r {s} l (publishes v xs t ys n revision e q) safe =
    let (token, rest) =
      All-middle (IsToken r s.memory) xs t ys (subst (All (IsToken r s.memory)) e safe.owned) in
    subst (λ x. Grows s.memory x.memory) (sym q)
      (Grows-slot t.index s.memory (publish r v t n revision s.memory).1
        (publish-OnlySlot r v t n revision s.memory).headers
        (publish-Grows r v t n revision s.memory l token))
Step-Grows r {s} l (abandons xs t ys e q) safe =
    let (token, rest) =
      All-middle (IsToken r s.memory) xs t ys (subst (All (IsToken r s.memory)) e safe.owned) in
    subst (λ x. Grows s.memory x.memory) (sym q)
      (Grows-slot t.index s.memory (drop_slot t s.memory) (drop_slot-OnlySlot t s.memory).headers (
        Grows-phases t.index (writing t.generation) (free t.generation) s.memory
          (drop_slot t s.memory) token.shows (drop_slot-free r t s.memory token) (le_refl _)))
Step-Grows r {s} l (submits p timeline hi b q) safe =
    let (x, shows) = safe.well_formed.phase_of p.index hi in
    subst (λ x. Grows s.memory x.memory) (sym q)
      (Grows-slot p.index s.memory (mark_in_flight p timeline s.memory).1
        (mark_in_flight-OnlySlot p timeline s.memory).headers
        (Grows-phases p.index x (mark_outcome p.generation timeline x).1 s.memory
          (mark_in_flight p timeline s.memory).1 shows
          (mark_in_flight-outcome p.index p.generation timeline x s.memory b shows).1
          (omega (arith, mark_outcome-sequence p.generation timeline x))))
Step-Grows r {s} l (retires v i g completed q) safe =
    subst (λ x. Grows s.memory x.memory) (sym q) (retire-Grows r v i g completed s safe)

pub Reach-Grows :
    (r : ExecRing) {s s' : System}
    → IsLaidOut r
    → IsSafe r s
    → Reach r s s'
    → Grows s.memory s'.memory
Reach-Grows r l safe here j = le_refl _
Reach-Grows r l safe (next before step) j =
    le_trans (Reach-Grows r l safe before j) (Step-Grows r l step (Reach-IsSafe r l safe before) j)

-- Once the sequence of a slot is past that of the generation `g`, whatever the users do after it,
-- every retirement and every reopening of `g` is refused with the two sequences and changes nothing.
pub generation_gone :
    (r : ExecRing) (v : VisibilityOps) (index g completed : ℕ) {s s' : System}
    → IsLaidOut r
    → IsSafe r s
    → index < r.slot_count
    → g < generations
    → published_value g < sequence_at s.memory index
    → Reach r s s'
    → let stale = generation_mismatch (published_value g) (sequence_at s'.memory index) in
      (retire r v index g completed s'.memory ≡ (err stale, s'.memory))
      × (published r index g s'.memory ≡ (err stale, s'.memory))
generation_gone r v index g completed {s} {s'} l safe i b past reached = (
  retire-mismatch r v index g completed s'.memory i b other,
  (published_lem r index g s'.memory i b).1 other,
)
  where
    other : sequence_at s'.memory index ≢ published_value g
    other e = absurd (omega (arith, Reach-Grows r l safe reached index))

-- ===== src/Cubism/System/Stranded.antt =====
-- A slot of src/cubism.rs whose publication failed at the flush of the ownership marker.
use mathlib.Core.Path.{subst}
use native.Mathlib.Decide.{dec_lt, ℕ_discrete}
use trueos_picasso.Prelude.{
  ℕ, ◌≤◌, ◌<◌, ◌≡◌, ◌≢◌, false, refl, ap, sym, ◌∙◌, ◌++◌, ◌∷◌, List, arith,
}
use trueos_picasso.Prelude.Result.{Result, ok, err}
use trueos_picasso.Prelude.All.{All, All-middle}
use trueos_picasso.Cubism.Types.{
  ExecSlotHeader, CubismError, Memory, VisibilityOps, ExecRing, CpuSlot,
}
use trueos_picasso.Cubism.Slots.{drop_slot, publish, mark_in_flight, retire}
use trueos_picasso.Cubism.Layout.Bounds.{IsLaidOut}
use trueos_picasso.Cubism.Phases.{free, stranded, generations, Shows, OnlySlot}
use trueos_picasso.Cubism.Phases.Publish.{
  IsToken, data_range, marker_range, at_flush, at_marker, publish_phase, published_phase,
  published_result, publish-OnlySlot, drop_slot-OnlySlot,
}
use trueos_picasso.Cubism.Phases.Acquire.{is_free, try_acquire-Claimed, try_acquire-err}
use trueos_picasso.Cubism.Phases.Submit.{
  mark_outcome, mark_in_flight-outcome, mark_in_flight-OnlySlot,
}
use trueos_picasso.Cubism.Phases.Retire.{
  retired_range, retire_outcome, retire-outcome, retire-OnlySlot, retire-invalid_index,
  retire-overflow,
}
use trueos_picasso.Cubism.System.{
  System, Step, acquires, finds_none, writes, publishes, abandons, submits, retires, Reach, here,
  next,
}
use trueos_picasso.Cubism.System.Ownership.{IsSafe, Shows-same}
use trueos_picasso.Cubism.System.Safety.{Step-IsSafe, Reach-IsSafe, headers-write_payload}

-- A slot in another phase is not the stranded one.
module _ (m : Memory) (i g : ℕ) (h : Shows m i (stranded g)) where
  free-elsewhere : (j k : ℕ) → Shows m j (free k) → j ≢ i
  free-elsewhere j k f e = absurd (
      omega
        (arith, ap (λ (x : ExecSlotHeader). x.sequence) (sym f.header ∙ ap m.headers e ∙ h.header)))

  token-elsewhere : (r : ExecRing) (t : CpuSlot) → IsToken r m t → t.index ≢ i
  token-elsewhere r t k e = absurd (
      omega (
        arith,
        ap (λ (x : ExecSlotHeader). x.debug_state) (sym k.shows.header ∙ ap m.headers e ∙ h.header),
      ))

  elsewhere : (j : ℕ) (m' : Memory) → j ≢ i → OnlySlot j m m' → Shows m' i (stranded g)
  elsewhere j m' ne only = Shows-same i (stranded g) (only.headers i ne) h

  submit-stranded :
      (j k t : ℕ)
      → k < generations
      → Shows (mark_in_flight (record { index = j; generation = k }) t m).1 i (stranded g)
  submit-stranded j k t b = elim (ℕ_discrete j i) [
    | yes e ↦
        subst
          (λ x. Shows (mark_in_flight (record { index = x; generation = k }) t m).1 i (stranded g))
          (sym e)
          (subst (Shows (mark_in_flight (record { index = i; generation = k }) t m).1 i) stays
            (mark_in_flight-outcome i k t (stranded g) m b h).1)
    | no ne ↦ elsewhere j _ ne (mark_in_flight-OnlySlot (record { index = j; generation = k }) t m)
  ]
    where
      stays : (mark_outcome k t (stranded g)).1 ≡ stranded g
      stays = ground arith

  retire-stranded :
      (r : ExecRing) (v : VisibilityOps) (j k completed : ℕ)
      → Shows (retire r v j k completed m).1 i (stranded g)
  retire-stranded r v j k completed = elim (dec_lt j r.slot_count) [
    | no out ↦
        Shows-same i (stranded g)
          (ap (λ x. x.1.headers i) (retire-invalid_index r v j k completed m (omega arith))) h
    | yes hj ↦ elim (dec_lt k generations) [
      | no over ↦
          Shows-same i (stranded g)
            (ap (λ x. x.1.headers i) (retire-overflow r v j k completed m hj (omega arith))) h
      | yes b ↦ elim (ℕ_discrete j i) [
        | yes e ↦
            subst (λ x. Shows (retire r v j k completed m).1 x (stranded g)) e
              (subst (Shows (retire r v j k completed m).1 j)
                (stays (v.gpu_make_cpu_visible m (retired_range r v j k completed m)))
                (retire-outcome r v j k completed m (stranded g) hj b
                  (subst (λ x. Shows m x (stranded g)) (sym e) h)).1)
        | no ne ↦ elsewhere j _ ne (retire-OnlySlot r v j k completed m)
      ]
    ]
  ]
    where
      stays :
          (x : Result CubismError (Unit {0}))
          → (retire_outcome k completed (stranded g) x).1 ≡ stranded g
      stays x = ground arith

-- No step of any user moves a stranded slot.
pub Step-stranded :
    (r : ExecRing) (i g : ℕ) {s s' : System}
    → Step r s s'
    → IsSafe r s
    → Shows s.memory i (stranded g)
    → Shows s'.memory i (stranded g)
Step-stranded r i g {s} (acquires t m e q) safe h =
    let (was, token, only) = try_acquire-Claimed r s.memory safe.well_formed e in
    subst (λ x. Shows x.memory i (stranded g)) (sym q)
      (Shows-same i (stranded g)
        (only.headers i (free-elsewhere s.memory i g h t.index t.generation was)) h)
Step-stranded r i g {s} (finds_none x m e q) safe h =
    subst (λ x. Shows x.memory i (stranded g)) (sym q)
      (Shows-same i (stranded g) (ap (λ y. y.headers i) (try_acquire-err r s.memory e).1) h)
Step-stranded r i g {s} (writes xs t ys bytes e q) safe h =
    subst (λ x. Shows x.memory i (stranded g)) (sym q)
      (Shows-same i (stranded g) (ap (λ f. f i) (headers-write_payload t bytes s.memory)) h)
Step-stranded r i g {s} (publishes v xs t ys n revision e q) safe h =
    let owned = subst (All (IsToken r s.memory)) e safe.owned in
    let (token, rest) = All-middle (IsToken r s.memory) xs t ys owned in
    subst (λ x. Shows x.memory i (stranded g)) (sym q)
      (elsewhere s.memory i g h t.index (publish r v t n revision s.memory).1
        (token-elsewhere s.memory i g h r t token) (publish-OnlySlot r v t n revision s.memory))
Step-stranded r i g {s} (abandons xs t ys e q) safe h =
    let owned = subst (All (IsToken r s.memory)) e safe.owned in
    let (token, rest) = All-middle (IsToken r s.memory) xs t ys owned in
    subst (λ x. Shows x.memory i (stranded g)) (sym q)
      (elsewhere s.memory i g h t.index (drop_slot t s.memory)
        (token-elsewhere s.memory i g h r t token) (drop_slot-OnlySlot t s.memory))
Step-stranded r i g {s} (submits p timeline hi b q) safe h =
    subst (λ x. Shows x.memory i (stranded g)) (sym q)
      (submit-stranded s.memory i g h p.index p.generation timeline b)
Step-stranded r i g {s} (retires v j k completed q) safe h =
    subst (λ x. Shows x.memory i (stranded g)) (sym q)
      (retire-stranded s.memory i g h r v j k completed)

Reach-stranded :
    (r : ExecRing) (i g : ℕ) {s s' : System}
    → IsLaidOut r
    → IsSafe r s
    → Shows s.memory i (stranded g)
    → Reach r s s'
    → Shows s'.memory i (stranded g)
Reach-stranded r i g l safe h here = h
Reach-stranded r i g l safe h (next before step) =
    Step-stranded r i g step (Reach-IsSafe r l safe before) (Reach-stranded r i g l safe h before)

stranded_busy : (m : Memory) (i g : ℕ) → Shows m i (stranded g) → is_free (m.headers i) ≡ false
stranded_busy m i g h = ground (arith, h.header)

-- If the data flush of a publication succeeds and the flush of the ownership marker fails, then
-- `publish` reports that failure, and in every state that the users reach from there the slot shows
-- the odd sequence with a free guard: it is never free for `try_acquire` again.
pub publish_strands :
    (r : ExecRing) (v : VisibilityOps) (s : System) (xs : List CpuSlot) (t : CpuSlot)
    (ys : List CpuSlot) (n revision : ℕ) (x : CubismError)
    → IsLaidOut r
    → IsSafe r s
    → s.tokens ≡ xs ++ t ∷ ys
    → n ≤ r.payload_capacity
    → v.cpu_make_gpu_visible
        (at_flush r v t n revision s.memory)
        (data_range r v t n revision s.memory)
      ≡ ok tt
    → v.cpu_publish_slot
        (at_marker r v t n revision s.memory)
        (marker_range r v t n revision s.memory)
      ≡ err x
    → ((publish r v t n revision s.memory).0 ≡ err x)
      × ((s' : System)
          → Reach r
              (record { memory = (publish r v t n revision s.memory).1; tokens = xs ++ ys })
              s'
          → Shows s'.memory t.index (stranded t.generation)
            × (is_free (s'.memory.headers t.index) ≡ false))
publish_strands r v s xs t ys n revision x l safe e fits flushed marked = (
  subst (λ y. (publish r v t n revision s.memory).0 ≡ y) answer
      (publish_phase r v t n revision s.memory l token fits).0,
  λ s' reached.
      let h = Reach-stranded r t.index t.generation l after shows reached in
      (h, stranded_busy s'.memory t.index t.generation h),
)
  where
    token : IsToken r s.memory t
    token =
        (All-middle (IsToken r s.memory) xs t ys (subst (All (IsToken r s.memory)) e safe.owned)).0

    answer :
        published_result r v t n revision s.memory
          (v.cpu_make_gpu_visible
            (at_flush r v t n revision s.memory)
            (data_range r v t n revision s.memory))
          (v.cpu_publish_slot
            (at_marker r v t n revision s.memory)
            (marker_range r v t n revision s.memory))
        ≡ err x
    answer = rw (flushed, marked)

    phase :
        published_phase r v t n revision s.memory
          (v.cpu_make_gpu_visible
            (at_flush r v t n revision s.memory)
            (data_range r v t n revision s.memory))
          (v.cpu_publish_slot
            (at_marker r v t n revision s.memory)
            (marker_range r v t n revision s.memory))
        ≡ stranded t.generation
    phase = rw (flushed, marked)

    shows : Shows (publish r v t n revision s.memory).1 t.index (stranded t.generation)
    shows =
        subst (Shows (publish r v t n revision s.memory).1 t.index) phase
          (publish_phase r v t n revision s.memory l token fits).1

    after : IsSafe r (record { memory = (publish r v t n revision s.memory).1; tokens = xs ++ ys })
    after = Step-IsSafe r l (publishes v xs t ys n revision e refl) safe

-- ===== src/Cubism/System/Liveness.antt =====
-- src/cubism.rs: a payload goes from the producer to the executor and the slot comes back.
use mathlib.Core.Path.{subst}
use trueos_picasso.Prelude.{ℕ, ◌+◌, ◌-◌, ◌≤◌, ◌<◌, ◌≡◌, refl, ap, sym, ◌∙◌, List, arith, take}
use trueos_picasso.Prelude.Result.{Result, ok, err}
use trueos_picasso.Prelude.Words.{word}
use trueos_picasso.Cubism.Types.{
  SharedByteRange, Memory, VisibilityOps, ExecRing, CpuSlot, PublishedSlot,
}
use trueos_picasso.Cubism.Ring.{try_acquire}
use trueos_picasso.Cubism.Slots.{write_payload, publish, mark_in_flight, retire, payload}
use trueos_picasso.Cubism.Layout.Bounds.{IsLaidOut}
use trueos_picasso.Cubism.Phases.{free, sealed, in_flight, generations, Shows}
use trueos_picasso.Cubism.Phases.Acquire.{try_acquire-err, try_acquire-full}
use trueos_picasso.Cubism.Phases.Publish.{
  IsToken, at_flush, at_marker, data_range, marker_range, publish_phase, publish-OnlySlot,
  payload-publish,
}
use trueos_picasso.Cubism.Phases.Submit.{mark_in_flight-outcome, mark_in_flight-OnlySlot}
use trueos_picasso.Cubism.Phases.Retire.{retired_range, retire-outcome, retire-OnlySlot}

-- A platform whose visibility hooks do not fail.
pub record IsReliable (v : VisibilityOps) : Type 0 where
  pub flushes : (m : Memory) (range : SharedByteRange) → v.cpu_make_gpu_visible m range ≡ ok tt
  pub marks : (m : Memory) (range : SharedByteRange) → v.cpu_publish_slot m range ≡ ok tt
  pub invalidates : (m : Memory) (range : SharedByteRange) → v.gpu_make_cpu_visible m range ≡ ok tt

write_payload-IsToken :
    (r : ExecRing) (m : Memory) (s : CpuSlot) (bytes : List ℕ)
    → IsToken r m s
    → IsToken r (write_payload s bytes m) s
unfolding write_payload
write_payload-IsToken r m s bytes t = record {
  valid = t.valid;
  unpublished = t.unpublished;
  shows = record { header = t.shows.header; bounded = t.shows.bounded };
}

-- A ring with a free slot and a hint that does not wrap around answers `try_acquire` with a slot.
free-try_acquire :
    (r : ExecRing) (m : Memory) (i g : ℕ)
    → m.producer_hint + r.slot_count ≤ word
    → i < r.slot_count
    → Shows m i (free g)
    → (s : CpuSlot) × (m' : Memory) × (try_acquire r m ≡ (ok s, m'))
free-try_acquire r m i g h hi f = answer (try_acquire r m) refl
  where
    answer :
        (out : Result _ CpuSlot × Memory)
        → try_acquire r m ≡ out
        → (s : CpuSlot) × (m' : Memory) × (try_acquire r m ≡ (ok s, m'))
    answer (ok s, m') e = (s, m', e)
    answer (err x, m') e =
        let (full, same) = try_acquire-err r m e in
        let busy = (try_acquire-full r m h).0 (cc) i hi in absurd (ground (arith, f.header, busy))

module _ (r : ExecRing) (v : VisibilityOps) (s : CpuSlot) (bytes : List ℕ)
    (n revision timeline completed : ℕ) (m : Memory) where
  -- The memory after the producer wrote and published, after the executor submitted, and after it
  -- retired.
  abbrev pub written : Memory
  written = write_payload s bytes m

  abbrev pub handle : PublishedSlot
  handle = record { index = s.index; generation = s.generation }

  abbrev pub after_publish : Memory
  after_publish = (publish r v s n revision written).1

  abbrev pub after_submit : Memory
  after_submit = (mark_in_flight handle timeline after_publish).1

  abbrev pub after_retire : Memory
  after_retire = (retire r v s.index s.generation completed after_submit).1

  -- Each of the four calls succeeds, the executor reads the producer's bytes, and the slot is free
  -- for the next generation.
  pub record Served : Type 0 where
    pub publishes : (publish r v s n revision written).0 ≡ ok handle
    pub reads : payload handle after_publish ≡ take n bytes
    pub submits : (mark_in_flight handle timeline after_publish).0 ≡ ok tt
    pub retires : (retire r v s.index s.generation completed after_submit).0 ≡ ok tt
    pub frees : Shows after_retire s.index (free (s.generation + 1))
    pub acquires : (s' : CpuSlot) × (m' : Memory) × (try_acquire r after_retire ≡ (ok s', m'))

  module _ (v_ok : IsReliable v) (l : IsLaidOut r) (t : IsToken r m s)
      (fits : n ≤ r.payload_capacity) where
    sealed_lem :
        ((publish r v s n revision written).0 ≡ ok handle)
        × Shows after_publish s.index (sealed s.generation n revision)
    sealed_lem =
        let phase =
          publish_phase r v s n revision written l (write_payload-IsToken r m s bytes t) fits in
        ground (
          arith,
          phase,
          v_ok.flushes (at_flush r v s n revision written) (data_range r v s n revision written),
          v_ok.marks (at_marker r v s n revision written) (marker_range r v s n revision written),
        )

    submit_lem :
        0 < timeline
        → ((mark_in_flight handle timeline after_publish).0 ≡ ok tt)
          × Shows after_submit s.index (in_flight s.generation n revision (timeline - 1))
    submit_lem p =
        let out =
          mark_in_flight-outcome s.index s.generation timeline (sealed s.generation n revision)
            after_publish t.shows.bounded sealed_lem.1 in
        ground (arith, out)

    retire_lem :
        0 < timeline
        → timeline ≤ completed
        → s.generation + 1 < generations
        → ((retire r v s.index s.generation completed after_submit).0 ≡ ok tt)
          × Shows after_retire s.index (free (s.generation + 1))
    retire_lem p le b =
        let out =
          retire-outcome r v s.index s.generation completed after_submit
            (in_flight s.generation n revision (timeline - 1)) t.valid t.shows.bounded
            (submit_lem p).1 in
        ground (
          arith,
          out,
          v_ok.invalidates after_submit
              (retired_range r v s.index s.generation completed after_submit),
        )

    hint_lem : after_retire.producer_hint ≡ m.producer_hint
    unfolding write_payload
    hint_lem =
        (retire-OnlySlot r v s.index s.generation completed after_submit).hint
        ∙ (mark_in_flight-OnlySlot handle timeline after_publish).hint
        ∙ (publish-OnlySlot r v s n revision written).hint

    read_lem : payload handle after_publish ≡ take n bytes
    read_lem =
        (payload-publish r v s n revision bytes m l t
          (ap (λ out. (out, after_publish)) sealed_lem.0)).0

    -- Under hooks that do not fail, a live token of a well laid out ring whose payload fits, whose
    -- timeline is not zero and completes, and whose generation is not the last, is always served:
    -- publishing, submitting and retiring it succeed in this order, the executor reads exactly the
    -- bytes that the producer wrote, the slot comes back free at the next generation, and, unless the
    -- hint's counter wraps during the search, the next `try_acquire` finds a slot.
    pub token-Served :
        0 < timeline
        → timeline ≤ completed
        → s.generation + 1 < generations
        → m.producer_hint + r.slot_count ≤ word
        → Served
    token-Served p le b h = record {
      publishes = sealed_lem.0;
      reads = read_lem;
      submits = (submit_lem p).0;
      retires = (retire_lem p le b).0;
      frees = (retire_lem p le b).1;
      acquires =
          free-try_acquire r after_retire s.index (s.generation + 1)
            (subst (λ k. k + r.slot_count ≤ word) (sym hint_lem) h) t.valid (retire_lem p le b).1;
    }

-- ===== src/Cubism/Phases/Publish.antt =====
-- `CpuSlot::publish`, `Drop for CpuSlot` and `PublishedSlot::payload` of src/cubism.rs, by phases.
use mathlib.Core.List.{append_assoc}
use trueos_picasso.Prelude.{ℕ, ◌+◌, ◌*◌, ◌≤◌, ◌<◌, ◌≡◌, false, List, [], ◌∷◌, ◌++◌, arith, take}
use trueos_picasso.Prelude.Result.{Result, ok, err}
use trueos_picasso.Cubism.Types.{
  header_size, SharedByteRange, CubismError, payload_too_large, make_gpu_visible, publish_slot,
  Memory, VisibilityOps, ExecRing, CpuSlot, PublishedSlot,
}
use trueos_picasso.Cubism.Ring.{store_debug}
use trueos_picasso.Cubism.Slots.{
  store_fields, store_sequence, write_payload, drop_slot, publish, payload,
}
use trueos_picasso.Cubism.Layout.Bounds.{IsLaidOut, stride-lt-word}
use trueos_picasso.Cubism.Phases.{
  Phase, free, writing, sealed, stranded, header_of, Shows, OnlySlot,
}

-- A live token of the generation `g`, as `try_acquire` hands it out.
pub record IsToken (r : ExecRing) (m : Memory) (s : CpuSlot) : Type 0 where
  pub valid : s.index < r.slot_count
  pub unpublished : s.published ≡ false
  pub shows : Shows m s.index (writing s.generation)

module _ (r : ExecRing) (v : VisibilityOps) (s : CpuSlot) (n revision : ℕ) (m : Memory) where
  -- The two ranges that `publish` flushes.
  abbrev pub data_range : SharedByteRange
  data_range = record {
    resource = r.resource;
    offset = s.index * r.slot_stride;
    byte_length = header_size + n;
  }

  abbrev pub marker_range : SharedByteRange
  marker_range = record {
    resource = r.resource;
    offset = s.index * r.slot_stride;
    byte_length = header_size;
  }

  -- The memory at the data flush, and the memory at the flush of the ownership marker.
  abbrev pub at_flush : Memory
  at_flush = store_fields s.index n revision 0 m

  abbrev pub at_marker : Memory
  at_marker = store_sequence s.index (s.generation * 2 + 1) (
      store_debug s.index 2 (record at_flush {
        trace =
            m.trace ++ record { op = make_gpu_visible data_range; found = at_flush.headers } ∷ [];
      }))

  -- The phase and the result that the outcomes of the two hooks lead to.
  abbrev pub published_phase : Result CubismError (Unit {0}) → Result CubismError (Unit {0}) → Phase
  published_phase (ok _) (ok _) = sealed s.generation n revision
  published_phase (ok _) (err e) = stranded s.generation
  published_phase (err e) _ = free s.generation

  abbrev pub published_result :
      Result CubismError (Unit {0})
      → Result CubismError (Unit {0})
      → Result CubismError PublishedSlot
  published_result (ok _) (ok _) = ok (record { index = s.index; generation = s.generation })
  published_result (ok _) (err e) = err e
  published_result (err e) _ = err e

  module _ (l : IsLaidOut r) (t : IsToken r m s) where
    -- For a live token and a payload that fits, `publish` answers, and leaves its slot in the phase,
    -- that the outcomes of the two visibility hooks call for: sealed at the token's generation after
    -- two successes, free after a failed data flush, stranded after a failed marker flush.
    pub publish_phase :
        n ≤ r.payload_capacity
        → let flushed = v.cpu_make_gpu_visible at_flush data_range in
          let marked = v.cpu_publish_slot at_marker marker_range in
          ((publish r v s n revision m).0 ≡ published_result flushed marked)
          × Shows (publish r v s n revision m).1 s.index (published_phase flushed marked)
    unfolding publish
    publish_phase h = ground (arith, t.shows, l.room, stride-lt-word l)

    -- A payload past the capacity is refused, and the token's slot is free at its old generation.
    pub publish_too_large :
        r.payload_capacity < n
        → ((publish r v s n revision m).0 ≡ err (payload_too_large n r.payload_capacity))
          × Shows (publish r v s n revision m).1 s.index (free s.generation)
    unfolding publish
    publish_too_large h = ground (arith, t.shows.header)

  pub publish-OnlySlot : OnlySlot s.index m (publish r v s n revision m).1
  unfolding publish
  publish-OnlySlot = record {
    headers = λ j ne. ground arith;
    payloads = λ j. ground arith;
    hint = ground arith;
  }

  module _ (l : IsLaidOut r) (t : IsToken r m s) where
    -- For a live token, a payload that fits and a data flush that succeeds, `publish` calls the data
    -- flush first and the marker flush second, and no other hook. The first finds the size and the
    -- revision in the header with the sequence still even; the second finds the whole published
    -- header.
    pub publish_trace :
        n ≤ r.payload_capacity
        → v.cpu_make_gpu_visible at_flush data_range ≡ ok tt
        → ((publish r v s n revision m).1.trace
            ≡ m.trace
              ++ record { op = make_gpu_visible data_range; found = at_flush.headers }
                ∷ record { op = publish_slot marker_range; found = at_marker.headers }
                ∷ [])
          × (at_flush.headers s.index ≡ record (header_of (writing s.generation)) {
            payload_bytes = n;
            resource_revision = revision;
          })
          × (at_marker.headers s.index ≡ header_of (sealed s.generation n revision))
    unfolding publish
    publish_trace h e = (
      ground (
        arith,
        t.shows,
        l.room,
        stride-lt-word l,
        append_assoc m.trace
            (record { op = make_gpu_visible data_range; found = at_flush.headers } ∷ [])
            (record { op = publish_slot marker_range; found = at_marker.headers } ∷ []),
      ),
      ground (arith, t.shows),
      ground (arith, t.shows),
    )

pub drop_slot-free :
    (r : ExecRing) (s : CpuSlot) (m : Memory)
    → IsToken r m s
    → Shows (drop_slot s m) s.index (free s.generation)
unfolding drop_slot
drop_slot-free r s m t = ground (arith, t.shows)

pub drop_slot-OnlySlot : (s : CpuSlot) (m : Memory) → OnlySlot s.index m (drop_slot s m)
unfolding drop_slot
drop_slot-OnlySlot s m = record {
  headers = λ j ne. ground arith;
  payloads = λ j. ground arith;
  hint = ground arith;
}

-- What the producer wrote is what the executor reads.
pub payload-publish :
    (r : ExecRing) (v : VisibilityOps) (s : CpuSlot) (n revision : ℕ) (bytes : List ℕ) (m : Memory)
    → IsLaidOut r
    → IsToken r m s
    → {p : PublishedSlot} {m' : Memory}
    → publish r v s n revision (write_payload s bytes m) ≡ (ok p, m')
    → (payload p m' ≡ take n bytes) × (p ≡ record { index = s.index; generation = s.generation })
unfolding publish payload write_payload
payload-publish r v s n revision bytes m l t h = (ground (arith, t.shows), ground (arith, t.shows))

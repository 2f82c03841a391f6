-- ===== src/Cubism/Slots.antt =====
-- The slots of src/cubism.rs: publication, abandonment, submission, retirement and the read views.
use trueos_picasso.Prelude.{
  ℕ, true, false, not, Bool, List, [], ◌∷◌, ◌++◌, leb, ◌==◌, if◌then◌else◌, take,
}
use trueos_picasso.Prelude.Result.{Result, ok, err, ok_or}
use trueos_picasso.Prelude.Eff.{Eff, pure, gets, modify, lift, guard, ◌>>=◌, ◌>>◌}
use trueos_picasso.Prelude.Words.{checked_add, checked_mul, and_then}
use trueos_picasso.Cubism.Types.{
  free, cpu_sealed, gpu_in_flight, gpu_complete, as_u32, SharedByteRange, CubismError,
  payload_too_large, generation_overflow, invalid_timeline, not_cpu_sealed, not_submitted,
  generation_mismatch, timeline_not_complete, CacheOp, make_gpu_visible, publish_slot,
  make_cpu_visible, Memory, VisibilityOps, ExecRing, CpuSlot, PublishedSlot,
}
use trueos_picasso.Cubism.Ring.{
  put_header, store_debug, validate_index, slot_range, header_range, payload_range,
  compare_exchange,
}

unfoldable pub published_sequence : ℕ → Result CubismError ℕ
published_sequence generation =
    ok_or (and_then (checked_mul generation 2) (λ v. checked_add v 1)) generation_overflow

-- The three fields that a publication fills in and that a release clears.
abbrev pub store_fields : (index bytes revision timeline : ℕ) → Memory → Memory
store_fields index bytes revision timeline m =
    put_header index
      (record (m.headers index) {
        payload_bytes = bytes;
        resource_revision = revision;
        gpu_timeline = timeline;
      })
      m

abbrev pub store_sequence : (index v : ℕ) → Memory → Memory
store_sequence index v m = put_header index (record (m.headers index) { sequence = v }) m

-- A call of a platform hook, which the ghost log records.
abbrev pub call_hook :
    CacheOp
    → (Memory → SharedByteRange → Result CubismError (Unit {0}))
    → SharedByteRange
    → Eff Memory CubismError (Unit {0})
call_hook op hook range m =
    (hook m range, record m { trace = m.trace ++ record { op = op; found = m.headers } ∷ [] })

-- `&mut [u8]` over the whole capacity: the producer replaces the bytes.
unfoldable pub write_payload : CpuSlot → List ℕ → Memory → Memory
write_payload s bytes m = record m { payloads = λ j. if s.index == j then bytes else m.payloads j }

-- `impl Drop for CpuSlot`
unfoldable pub drop_slot : CpuSlot → Memory → Memory
drop_slot s m =
    if s.published then m else store_debug s.index (as_u32 free) (store_fields s.index 0 0 0 m)

-- The statements of `CpuSlot::publish`, up to `self.published = true`.
unfoldable pub publish_body :
    ExecRing
    → VisibilityOps
    → CpuSlot
    → (payload_bytes resource_revision : ℕ) → Eff Memory CubismError PublishedSlot
unfolding published_sequence slot_range header_range
publish_body r v s payload_bytes resource_revision = do
  guard (leb payload_bytes r.payload_capacity) (payload_too_large payload_bytes r.payload_capacity)
  modify (store_fields s.index payload_bytes resource_revision 0)
  range ← lift (slot_range r s.index payload_bytes)
  call_hook (make_gpu_visible range) v.cpu_make_gpu_visible range
  modify (store_debug s.index (as_u32 cpu_sealed))
  sequence ← lift (published_sequence s.generation)
  modify (store_sequence s.index sequence)
  header ← lift (header_range r s.index)
  call_hook (publish_slot header) v.cpu_publish_slot header
  pure (record { index = s.index; generation = s.generation })

-- `publish` takes `self` by value, so every return drops it: after success the drop does nothing.
unfoldable pub drop_after :
    CpuSlot → Result CubismError PublishedSlot × Memory → Result CubismError PublishedSlot × Memory
unfolding drop_slot
drop_after s (ok p, m) = (ok p, drop_slot (record s { published = true }) m)
drop_after s (err e, m) = (err e, drop_slot s m)

unfoldable pub publish :
    ExecRing
    → VisibilityOps
    → CpuSlot
    → (payload_bytes resource_revision : ℕ) → Eff Memory CubismError PublishedSlot
unfolding publish_body drop_after
publish r v s payload_bytes resource_revision m =
    drop_after s (publish_body r v s payload_bytes resource_revision m)

-- `if actual != expected { return Err(GenerationMismatch { expected, actual }) }`
abbrev pub check_generation : (index expected : ℕ) → Eff Memory CubismError (Unit {0})
check_generation index expected m =
    let actual = (m.headers index).sequence in
    guard (actual == expected) (generation_mismatch expected actual) m

unfoldable pub published : ExecRing → (index generation : ℕ) → Eff Memory CubismError PublishedSlot
unfolding validate_index published_sequence
published r index generation = do
  lift (validate_index r index)
  expected ← lift (published_sequence generation)
  check_generation index expected
  pure (record { index = index; generation = generation })

-- The exchange of `mark_in_flight`, and the store that follows its success.
abbrev pub attach_timeline :
    (index timeline : ℕ) → Bool × Memory → Result CubismError (Unit {0}) × Memory
attach_timeline index timeline (false, m) = (err not_cpu_sealed, m)
attach_timeline index timeline (true, m) =
    (ok tt, put_header index (record (m.headers index) { gpu_timeline = timeline }) m)

unfoldable pub mark_in_flight : PublishedSlot → (timeline : ℕ) → Eff Memory CubismError (Unit {0})
unfolding published_sequence
mark_in_flight p timeline = do
  guard (not (timeline == 0)) invalid_timeline
  expected ← lift (published_sequence p.generation)
  check_generation p.index expected
  λ m.
      attach_timeline p.index timeline
        (compare_exchange p.index (as_u32 cpu_sealed) (as_u32 gpu_in_flight) m)

unfoldable pub retire :
    ExecRing
    → VisibilityOps
    → (index generation completed_timeline : ℕ) → Eff Memory CubismError (Unit {0})
unfolding validate_index published_sequence payload_range
retire r v index generation completed_timeline = do
  lift (validate_index r index)
  expected ← lift (published_sequence generation)
  check_generation index expected
  submitted ← gets (λ m. (m.headers index).gpu_timeline)
  guard (not (submitted == 0)) not_submitted
  guard (leb submitted completed_timeline) (timeline_not_complete submitted completed_timeline)
  bytes ← gets (λ m. (m.headers index).payload_bytes)
  range ← lift (payload_range r index bytes)
  call_hook (make_cpu_visible range) v.gpu_make_cpu_visible range
  modify (store_debug index (as_u32 gpu_complete))
  modify (store_fields index 0 0 0)
  next ←
      lift (ok_or (and_then (checked_add generation 1) (λ g. checked_mul g 2)) generation_overflow)
  modify (store_sequence index next)
  modify (store_debug index (as_u32 free))

-- The read views of `PublishedSlot`.
unfoldable pub payload : PublishedSlot → Memory → List ℕ
payload p m = take (m.headers p.index).payload_bytes (m.payloads p.index)

unfoldable pub published_payload_range :
    ExecRing → PublishedSlot → Memory → Result CubismError SharedByteRange
unfolding payload_range
published_payload_range r p m = payload_range r p.index (m.headers p.index).payload_bytes

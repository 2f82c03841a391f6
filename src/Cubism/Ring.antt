-- ===== src/Cubism/Ring.antt =====
-- `ExecRing` of src/cubism.rs: construction, initialization, address ranges and acquisition.
use trueos_picasso.Prelude.{
  ℕ, zero, suc, ◌+◌, ◌-◌, ◌*◌, ◌/◌, ◌%◌, Bool, true, false, not, ◌||◌, Option, none, some, ltb, leb,
  ◌==◌, if◌then◌else◌,
}
use trueos_picasso.Prelude.Result.{Result, ok, err, guard, ok_or, ◌>>=◌, ◌>>◌}
use trueos_picasso.Prelude.Words.{checked_add, checked_mul, wrapping_add}
use trueos_picasso.Cubism.Types.{
  free, cpu_writing, as_u32, ExecSlotHeader, header_size, SharedResourceId, SharedByteRange,
  CubismError, null_shared_memory, misaligned_shared_memory, invalid_slot_count,
  invalid_slot_stride, invalid_slot_index, shared_memory_too_small, ring_full, size_overflow,
  Memory, ExecRing, CpuSlot,
}

unfoldable pub from_raw_parts :
    (cpu_base total_bytes : ℕ) (resource : SharedResourceId) (slot_count slot_stride : ℕ)
    → Result CubismError ExecRing
from_raw_parts cpu_base total_bytes resource slot_count slot_stride = do
  guard (not (cpu_base == 0)) null_shared_memory
  guard (cpu_base % 64 == 0) misaligned_shared_memory
  guard (not (slot_count == 0)) invalid_slot_count
  guard (not (ltb slot_stride header_size || not (slot_stride % 64 == 0))) invalid_slot_stride
  required ← ok_or (checked_mul slot_count slot_stride) size_overflow
  guard (leb required total_bytes) (shared_memory_too_small required total_bytes)
  ok (record {
    base = cpu_base;
    total_bytes = total_bytes;
    slot_count = slot_count;
    slot_stride = slot_stride;
    payload_capacity = slot_stride - header_size;
    resource = resource;
  })

-- A store of a whole header, or of one of its fields, at `index`.
abbrev pub update : (ℕ → ExecSlotHeader) → ℕ → ExecSlotHeader → ℕ → ExecSlotHeader
update headers index h j = if index == j then h else headers j

abbrev pub put_header : ℕ → ExecSlotHeader → Memory → Memory
put_header index h m = record m { headers = update m.headers index h }

abbrev pub store_debug : ℕ → ℕ → Memory → Memory
store_debug index v m = put_header index (record (m.headers index) { debug_state = v }) m

abbrev pub fresh_header : ExecSlotHeader
fresh_header = record {
  sequence = 0;
  payload_bytes = 0;
  resource_revision = 0;
  gpu_timeline = 0;
  debug_state = as_u32 free;
}

-- `for i in 0..slot_count`, with the rounds that are left.
unfoldable pub initialize_from : (i rounds : ℕ) → Memory → Memory
initialize_from i zero m = m
initialize_from i (suc rounds) m = initialize_from (i + 1) rounds (put_header i fresh_header m)

unfoldable pub initialize_fresh : ExecRing → Memory → Memory
initialize_fresh r m = record (initialize_from 0 r.slot_count m) { producer_hint = 0 }

unfoldable pub validate_index : ExecRing → ℕ → Result CubismError (Unit {0})
validate_index r index = if ltb index r.slot_count then ok tt else err (invalid_slot_index index)

unfoldable pub slot_range :
    ExecRing → (index payload_bytes : ℕ) → Result CubismError SharedByteRange
unfolding validate_index
slot_range r index payload_bytes = do
  validate_index r index
  byte_length ← ok_or (checked_add header_size payload_bytes) size_overflow
  ok (record { resource = r.resource; offset = index * r.slot_stride; byte_length = byte_length })

unfoldable pub header_range : ExecRing → ℕ → Result CubismError SharedByteRange
unfolding slot_range
header_range r index = slot_range r index 0

unfoldable pub payload_range :
    ExecRing → (index payload_bytes : ℕ) → Result CubismError SharedByteRange
unfolding validate_index
payload_range r index payload_bytes = do
  validate_index r index
  ok (record {
    resource = r.resource;
    offset = index * r.slot_stride + header_size;
    byte_length = payload_bytes;
  })

-- The address that `header_ptr` and `payload_ptr` form.
unfoldable pub header_ptr : ExecRing → ℕ → ℕ
header_ptr r index = r.base + index * r.slot_stride

unfoldable pub payload_ptr : ExecRing → ℕ → ℕ
payload_ptr r index = r.base + (index * r.slot_stride + header_size)

-- `compare_exchange` on `debug_state`: whether it succeeded, and the memory after it.
abbrev pub compare_exchange : (index expected new : ℕ) → Memory → Bool × Memory
compare_exchange index expected new m =
    if (m.headers index).debug_state == expected
    then (true, store_debug index new m)
    else (false, m)

-- The sequence is read again once the claim guard is taken.
unfoldable pub recheck : (index seq : ℕ) → Bool × Memory → Option CpuSlot × Memory
recheck index seq (false, m) = (none, m)
recheck index seq (true, m) =
    if (m.headers index).sequence == seq
    then (some (record { index = index; generation = seq / 2; published = false }), m)
    else (none, store_debug index (as_u32 free) m)

-- One round of the loop in `try_acquire`.
unfoldable pub try_slot : ℕ → Memory → Option CpuSlot × Memory
unfolding recheck
try_slot index m =
    let seq = (m.headers index).sequence in
    if not (seq % 2 == 0)
    then (none, m)
    else recheck index seq (compare_exchange index (as_u32 free) (as_u32 cpu_writing) m)

-- `for n in 0..slot_count`; the caller passes on the slot of the first round that has one.
unfoldable pub try_slots :
    ExecRing → (start n rounds : ℕ) → Memory → Result CubismError CpuSlot × Memory
try_slots r start n zero m = (err ring_full, m)
try_slots r start n (suc rounds) m =
    let (got, m') = try_slot (wrapping_add start n % r.slot_count) m in
    let rest = try_slots r start (n + 1) rounds m' in
    elim got [ some slot ↦ (ok slot, m') | none ↦ rest ]

unfoldable pub try_acquire : ExecRing → Memory → Result CubismError CpuSlot × Memory
try_acquire r m =
    try_slots r m.producer_hint 0 r.slot_count
      (record m { producer_hint = wrapping_add m.producer_hint 1 })

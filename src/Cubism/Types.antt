-- ===== src/Cubism/Types.antt =====
-- The data of src/cubism.rs: slot headers, errors, ranges, the ring and the hooks of the platform.
--
-- `Memory` is what the ring's methods read and write through `base`: the header and the payload
-- bytes of each slot, by index, and the producer hint. `trace` is a ghost log of the visibility
-- hooks in the order of their calls, each with the headers that the hook found in memory.
use trueos_picasso.Prelude.{ℕ, Bool, List}
use trueos_picasso.Prelude.Result.{Result, ok}

pub data DebugState : Type 0 where
  free cpu_writing cpu_sealed gpu_in_flight gpu_complete : DebugState

-- `state as u32`
abbrev pub as_u32 : DebugState → ℕ
as_u32 free = 0
as_u32 cpu_writing = 1
as_u32 cpu_sealed = 2
as_u32 gpu_in_flight = 3
as_u32 gpu_complete = 4

pub record ExecSlotHeader : Type 0 where
  pub sequence : ℕ
  pub payload_bytes : ℕ
  pub resource_revision : ℕ
  pub gpu_timeline : ℕ
  pub debug_state : ℕ

-- `size_of::<ExecSlotHeader>()`
abbrev pub header_size : ℕ
header_size = 64

pub record SharedResourceId : Type 0 where
  pub id : ℕ

pub record SharedByteRange : Type 0 where
  pub resource : SharedResourceId
  pub offset : ℕ
  pub byte_length : ℕ

pub data CubismError : Type 0 where
  null_shared_memory misaligned_shared_memory invalid_slot_count invalid_slot_stride : CubismError
  invalid_slot_index : ℕ → CubismError
  shared_memory_too_small : (required available : ℕ) → CubismError
  payload_too_large : (requested capacity : ℕ) → CubismError
  ring_full size_overflow generation_overflow : CubismError
  invalid_timeline not_cpu_sealed not_submitted : CubismError
  generation_mismatch : (expected actual : ℕ) → CubismError
  timeline_not_complete : (submitted completed : ℕ) → CubismError
  visibility_failed : CubismError

pub data CacheOp : Type 0 where
  make_gpu_visible : SharedByteRange → CacheOp
  publish_slot : SharedByteRange → CacheOp
  make_cpu_visible : SharedByteRange → CacheOp

pub record HookCall : Type 0 where
  pub op : CacheOp
  pub found : ℕ → ExecSlotHeader

pub record Memory : Type 0 where
  pub producer_hint : ℕ
  pub headers : ℕ → ExecSlotHeader
  pub payloads : ℕ → List ℕ
  pub trace : List HookCall

-- The hooks are the platform's: each may fail, and may look at the memory to decide.
pub record VisibilityOps : Type 0 where
  pub cpu_make_gpu_visible : Memory → SharedByteRange → Result CubismError (Unit {0})
  pub cpu_publish_slot : Memory → SharedByteRange → Result CubismError (Unit {0})
  pub gpu_make_cpu_visible : Memory → SharedByteRange → Result CubismError (Unit {0})

-- `CoherentVisibility`, for memory that both sides see at once
abbrev pub coherent_visibility : VisibilityOps
coherent_visibility = record {
  cpu_make_gpu_visible = λ _ _. ok tt;
  cpu_publish_slot = λ _ _. ok tt;
  gpu_make_cpu_visible = λ _ _. ok tt;
}

pub record ExecRing : Type 0 where
  pub base : ℕ
  pub total_bytes : ℕ
  pub slot_count : ℕ
  pub slot_stride : ℕ
  pub payload_capacity : ℕ
  pub resource : SharedResourceId

pub record CpuSlot : Type 0 where
  pub index : ℕ
  pub generation : ℕ
  pub published : Bool

pub record PublishedSlot : Type 0 where
  pub index : ℕ
  pub generation : ℕ

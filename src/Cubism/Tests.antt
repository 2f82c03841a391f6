-- ===== src/Cubism/Tests.antt =====
-- Runs of the models of src/cubism.rs: a ring of two slots of 128 bytes in a mapping of 512.
pub mod Users
use trueos_picasso.Prelude.{
  ℕ, ◌≡◌, refl, ◌≤◌, ◌<◌, ◌≢◌, ◌⊎◌, ◌↔◌, ◌+◌, ◌*◌, ◌%◌, [], ◌∷◌, true, false, arith,
}
use trueos_picasso.Prelude.Result.{Result, ok, err}
use trueos_picasso.Cubism.Types.{
  visibility_failed, coherent_visibility, SharedResourceId, SharedByteRange, header_size, Memory,
  VisibilityOps, ExecRing, CpuSlot, PublishedSlot,
}
use trueos_picasso.Cubism.Ring.{
  from_raw_parts, slot_range, payload_range, header_ptr, payload_ptr, try_slot, try_slots,
  try_acquire,
}
use trueos_picasso.Cubism.Slots.{publish, write_payload}
use trueos_picasso.Cubism.Layout.Bounds.{IsLaidOut, ring_of, from_raw_parts_iff, InSlot}
use trueos_picasso.Cubism.Phases.{
  Phase, free, writing, sealed, in_flight, header_of, Shows, IsWellFormed,
}
use trueos_picasso.Cubism.Phases.Publish.{IsToken}

abbrev pub surface : SharedResourceId
surface = record { id = 7 }

abbrev pub two_slots : ExecRing
two_slots = ring_of 64 512 surface 2 128

pub two_slots-IsLaidOut : IsLaidOut two_slots
two_slots-IsLaidOut = record {
  base_ne_zero = omega arith;
  base_aligned = refl;
  some_slot = omega arith;
  stride_aligned = refl;
  room = refl;
  fits = omega arith;
  no_wrap = omega arith;
}

-- Every slot in the same phase.
abbrev pub memory_of : Phase → Memory
memory_of p = record {
  producer_hint = 0;
  headers = λ _. header_of p;
  payloads = λ _. [];
  trace = [];
}

-- A coherent platform on which the marker flush fails all the same.
abbrev pub marker_fails : VisibilityOps
marker_fails = record coherent_visibility { cpu_publish_slot = λ _ _. err visibility_failed }

-- The token that a producer of slot 1 holds at generation 3.
abbrev pub token : CpuSlot
token = record { index = 1; generation = 3; published = false }

abbrev pub held : Memory
held = memory_of (writing 3)

pub held-Shows : Shows held 1 (writing 3)
held-Shows = record { header = refl; bounded = omega arith }

pub token-IsToken : IsToken two_slots held token
token-IsToken = record { valid = omega arith; unpublished = refl; shows = held-Shows }

abbrev pub flying : Memory
flying = memory_of (in_flight 3 5 9 6)

pub flying-Shows : Shows flying 1 (in_flight 3 5 9 6)
flying-Shows = record { header = refl; bounded = omega arith }

abbrev pub waiting : Memory
waiting = memory_of (free 3)

pub waiting-IsWellFormed : IsWellFormed two_slots waiting
waiting-IsWellFormed = record {
  phase_of = λ index h. (free 3, record { header = refl; bounded = omega arith });
}

abbrev pub claimed : Memory
claimed = (try_acquire two_slots waiting).1

pub acquire_run :
    try_acquire two_slots waiting
    ≡ (ok (record { index = 0; generation = 3; published = false }), claimed)
unfolding try_acquire try_slots try_slot
acquire_run = refl

pub publish_run :
    publish two_slots coherent_visibility token 2 9 (write_payload token (1 ∷ 2 ∷ 3 ∷ []) held) ≡ (
      ok (record { index = 1; generation = 3 }),
      (publish two_slots coherent_visibility token 2 9
          (write_payload token (1 ∷ 2 ∷ 3 ∷ []) held)).1,
    )
unfolding publish
publish_run = refl

from_raw_parts_iff_example :
    (from_raw_parts 64 512 surface 2 128 ≡ ok two_slots)
    ↔ (IsLaidOut two_slots × (two_slots ≡ two_slots))
from_raw_parts_iff_example = from_raw_parts_iff 64 512 surface 2 128 two_slots

-- The bytes of a header and a payload of two bytes in each slot.
abbrev range_at : ℕ → SharedByteRange
range_at index = record { resource = surface; offset = index * 128; byte_length = 66 }

first_InSlot : InSlot two_slots 0 (range_at 0)
first_InSlot = record {
  resource = refl;
  above = omega arith;
  below = omega arith;
  inside = omega arith;
  no_wrap = omega arith;
}

second_InSlot : InSlot two_slots 1 (range_at 1)
second_InSlot = record {
  resource = refl;
  above = omega arith;
  below = omega arith;
  inside = omega arith;
  no_wrap = omega arith;
}

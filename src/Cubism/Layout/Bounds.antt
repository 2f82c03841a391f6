-- ===== src/Cubism/Layout/Bounds.antt =====
-- The checks of `from_raw_parts`, and that the ranges of a ring stay inside its mapping and apart.
use native.Mathlib.Decide.{dec_lt}
use trueos_picasso.Prelude.{
  ℕ, ◌+◌, ◌-◌, ◌*◌, ◌/◌, ◌%◌, ◌≤◌, ◌<◌, ◌≡◌, ap, ◌≢◌, ◌⊎◌, ◌↔◌, inl, inr, arith,
}
use trueos_picasso.Prelude.Result.{ok}
use trueos_picasso.Prelude.Words.{word}
use trueos_picasso.Cubism.Types.{header_size, SharedResourceId, SharedByteRange, ExecRing}
use trueos_picasso.Cubism.Ring.{from_raw_parts, header_ptr, payload_ptr}

-- What a constructed ring promises of its layout.
pub record IsLaidOut (r : ExecRing) : Type 0 where
  pub base_ne_zero : r.base ≢ 0
  pub base_aligned : r.base % 64 ≡ 0
  pub some_slot : 0 < r.slot_count
  pub stride_aligned : r.slot_stride % 64 ≡ 0
  pub room : r.payload_capacity + header_size ≡ r.slot_stride
  pub fits : r.slot_count * r.slot_stride ≤ r.total_bytes
  pub no_wrap : r.slot_count * r.slot_stride < word

module _ (base total : ℕ) (res : SharedResourceId) (count stride : ℕ) where
  -- The ring that the arguments name.
  abbrev pub ring_of : ExecRing
  ring_of = record {
    base = base;
    total_bytes = total;
    slot_count = count;
    slot_stride = stride;
    payload_capacity = stride - header_size;
    resource = res;
  }

  sound :
      {r : ExecRing}
      → from_raw_parts base total res count stride ≡ ok r
      → IsLaidOut r × (r ≡ ring_of)
  unfolding from_raw_parts
  sound h = (ground arith, ground arith)

  complete : IsLaidOut ring_of → from_raw_parts base total res count stride ≡ ok ring_of
  unfolding from_raw_parts
  complete l = ground arith

  -- `from_raw_parts` returns a ring exactly when the ring that its arguments name is laid out: base
  -- not null and 64-byte aligned, some slot, a stride that holds a header and is a multiple of 64,
  -- and all slots inside the mapping with no overflow; and it returns that ring.
  pub from_raw_parts_iff :
      (r : ExecRing)
      → (from_raw_parts base total res count stride ≡ ok r) ↔ (IsLaidOut ring_of × (r ≡ ring_of))
  from_raw_parts_iff r = (λ h. let (l, e) = sound h in (rw e at l, e), λ p. rw p.1 (complete p.0))

-- A slot ends before the next one begins.
pub slot_order : (i j stride : ℕ) → i < j → (i + 1) * stride ≤ j * stride
slot_order i j stride h = grind arith

-- A range that lies in the slot `index` of the mapping, with no wrap in its offset.
pub record InSlot (r : ExecRing) (index : ℕ) (x : SharedByteRange) : Type 0 where
  pub resource : x.resource ≡ r.resource
  pub above : index * r.slot_stride ≤ x.offset
  pub below : x.offset + x.byte_length ≤ (index + 1) * r.slot_stride
  pub inside : x.offset + x.byte_length ≤ r.total_bytes
  pub no_wrap : x.offset + x.byte_length < word

module _ {r : ExecRing} (l : IsLaidOut r) where
  -- Ranges of different slots have no byte in common.
  InSlot-disjoint :
      (i j : ℕ) (x y : SharedByteRange)
      → i ≢ j
      → InSlot r i x
      → InSlot r j y
      → (x.offset + x.byte_length ≤ y.offset) ⊎ (y.offset + y.byte_length ≤ x.offset)
  InSlot-disjoint i j x y ne p q = elim (dec_lt i j) [
    | yes h ↦ inl (omega (arith, slot_order i j r.slot_stride h))
    | no h ↦ inr (omega (arith, slot_order j i r.slot_stride (omega arith)))
  ]

  -- For a valid index the header's address is 64-byte aligned, and the payload slice that a producer
  -- gets lies between its header and the next slot, inside the mapping.
  payload_ptr_bounds :
      (index : ℕ)
      → index < r.slot_count
      → (header_ptr r index % 64 ≡ 0)
        × (payload_ptr r index ≡ header_ptr r index + header_size)
        × (payload_ptr r index + r.payload_capacity ≡ header_ptr r (index + 1))
        × (payload_ptr r index + r.payload_capacity ≤ r.base + r.total_bytes)
  unfolding header_ptr payload_ptr
  payload_ptr_bounds index h = (
    omega (arith, multiple, l.base_aligned),
    omega arith,
    omega (arith, l.room),
    omega (arith, slot_order index r.slot_count r.slot_stride h, l.room, l.fits),
  )
    where
      multiple : index * r.slot_stride ≡ 64 * (index * (r.slot_stride / 64))
      multiple = omega (arith, ap (λ (t : ℕ). index * t) stride)
        where
          stride : r.slot_stride ≡ 64 * (r.slot_stride / 64)
          stride = omega (arith, l.stride_aligned)

  pub stride-lt-word : r.slot_stride < word
  stride-lt-word = omega (arith, slot_order 0 r.slot_count r.slot_stride l.some_slot, l.no_wrap)

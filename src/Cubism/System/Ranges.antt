-- ===== src/Cubism/System/Ranges.antt =====
-- src/cubism.rs: the ranges that the platform's visibility hooks are called with.
use mathlib.Core.Path.{subst}
use native.Mathlib.Decide.{dec_lt}
use trueos_picasso.Prelude.{
  ℕ, zero, suc, ◌+◌, ◌*◌, ◌≤◌, ◌<◌, ◌≡◌, refl, ap, sym, ◌∙◌, List, [], ◌∷◌, ◌++◌, arith,
}
use trueos_picasso.Prelude.Result.{Result}
use trueos_picasso.Prelude.All.{All, All-snoc, All-middle}
use trueos_picasso.Cubism.Types.{
  header_size, SharedByteRange, CubismError, CacheOp, make_gpu_visible, publish_slot,
  make_cpu_visible, HookCall, Memory, VisibilityOps, ExecRing, CpuSlot, PublishedSlot,
}
use trueos_picasso.Cubism.Slots.{write_payload, drop_slot, publish, mark_in_flight, retire}
use trueos_picasso.Cubism.Layout.Bounds.{IsLaidOut, InSlot, slot_order, stride-lt-word}
use trueos_picasso.Cubism.Ring.{
  put_header, fresh_header, initialize_from, initialize_fresh, try_acquire,
}
use trueos_picasso.Cubism.Phases.Acquire.{Search, found, full, hinted, try_acquire-Search}
use trueos_picasso.Cubism.System.Ownership.{IsSafe}
use trueos_picasso.Cubism.System.Fresh.{initialize_fresh-free, fresh_system, fresh-IsSafe}
use trueos_picasso.Cubism.System.{
  System, Step, acquires, finds_none, writes, publishes, abandons, submits, retires, Reach, here,
  next,
}
use trueos_picasso.Cubism.Phases.Publish.{IsToken, data_range, marker_range, at_flush, at_marker}
use trueos_picasso.Cubism.Phases.Retire.{retired_range, retire-invalid_index}

abbrev range_of : CacheOp → SharedByteRange
range_of (make_gpu_visible x) = x
range_of (publish_slot x) = x
range_of (make_cpu_visible x) = x

-- The call's range lies in one slot of the ring's mapping.
abbrev pub InOneSlot : ExecRing → HookCall → Type 0
InOneSlot r call = (index : ℕ) × (index < r.slot_count) × InSlot r index (range_of call.op)

-- No header names more payload than a slot has, and every hook call so far stayed in one slot.
pub record IsInside (r : ExecRing) (m : Memory) : Type 0 where
  pub bounded : (j : ℕ) → j < r.slot_count → (m.headers j).payload_bytes ≤ r.payload_capacity
  pub called : All (InOneSlot r) m.trace

module _ {r : ExecRing} (l : IsLaidOut r) where
  -- The ranges of a header, of a header with its payload, and of the payload alone.
  header-InSlot :
      (index bytes : ℕ)
      → index < r.slot_count
      → bytes ≤ r.payload_capacity
      → InSlot r index (record {
        resource = r.resource;
        offset = index * r.slot_stride;
        byte_length = header_size + bytes;
      })
  header-InSlot index bytes h k =
      ground (arith, slot_order index r.slot_count r.slot_stride h, l.room, l.fits, l.no_wrap)

  payload-InSlot :
      (index bytes : ℕ)
      → index < r.slot_count
      → bytes ≤ r.payload_capacity
      → InSlot r index (record {
        resource = r.resource;
        offset = index * r.slot_stride + header_size;
        byte_length = bytes;
      })
  payload-InSlot index bytes h k =
      ground (arith, slot_order index r.slot_count r.slot_stride h, l.room, l.fits, l.no_wrap)

module _ (r : ExecRing) (l : IsLaidOut r) (v : VisibilityOps) where
  module _ (t : CpuSlot) (n revision : ℕ) (m : Memory) (token : IsToken r m t)
      (h : IsInside r m) where
    publish-bounded :
        (j : ℕ)
        → j < r.slot_count
        → ((publish r v t n revision m).1.headers j).payload_bytes ≤ r.payload_capacity
    unfolding publish
    publish-bounded j hj = ground (arith, h.bounded j hj, token.shows, l.room, stride-lt-word l)

    flush_call : HookCall
    flush_call = record {
      op = make_gpu_visible (data_range r v t n revision m);
      found = (at_flush r v t n revision m).headers;
    }

    marker_call : HookCall
    marker_call = record {
      op = publish_slot (marker_range r v t n revision m);
      found = (at_marker r v t n revision m).headers;
    }

    publish-called : All (InOneSlot r) (publish r v t n revision m).1.trace
    unfolding publish flush_call marker_call
    publish-called = elim (dec_lt r.payload_capacity n) [
      | yes big ↦ ground (arith, h.called, big)
      | no fits ↦
          let one : All (InOneSlot r) (m.trace ++ flush_call ∷ []) =
            All-snoc (InOneSlot r) m.trace h.called
              (t.index, token.valid, header-InSlot l t.index n token.valid (omega arith)) in
          let two : All (InOneSlot r) ((m.trace ++ flush_call ∷ []) ++ marker_call ∷ []) =
            All-snoc (InOneSlot r) (m.trace ++ flush_call ∷ []) one
              (t.index, token.valid, header-InSlot l t.index 0 token.valid (omega arith)) in
          ground (arith, h.called, one, two, token.shows, l.room, stride-lt-word l)
    ]

    publish-IsInside : IsInside r (publish r v t n revision m).1
    publish-IsInside = record { bounded = publish-bounded; called = publish-called }

  module _ (index g completed : ℕ) (m : Memory) (h : IsInside r m) where
    retire-bounded :
        (j : ℕ)
        → j < r.slot_count
        → ((retire r v index g completed m).1.headers j).payload_bytes ≤ r.payload_capacity
    unfolding retire
    retire-bounded j hj = ground (arith, h.bounded j hj)

    call : HookCall
    call = record {
      op = make_cpu_visible (retired_range r v index g completed m);
      found = m.headers;
    }

    retire-IsInside : IsInside r (retire r v index g completed m).1
    unfolding retire call
    retire-IsInside = elim (dec_lt index r.slot_count) [
      | no out ↦
          subst (IsInside r)
            (ap (λ x. x.1) (sym (retire-invalid_index r v index g completed m (omega arith)))) h
      | yes hi ↦
          let more : All (InOneSlot r) (m.trace ++ call ∷ []) =
            All-snoc (InOneSlot r) m.trace h.called (
              index,
              hi,
              payload-InSlot l index (m.headers index).payload_bytes hi (h.bounded index hi),
            ) in
          record { bounded = retire-bounded; called = ground (arith, h.called, more) }
    ]

-- A memory whose headers name the same payloads, after the same calls of hooks.
record IsAlike (m m' : Memory) : Type 0 where
  bytes : (j : ℕ) → (m'.headers j).payload_bytes ≡ (m.headers j).payload_bytes
  calls : m'.trace ≡ m.trace

IsAlike-IsInside : (r : ExecRing) {m m' : Memory} → IsAlike m m' → IsInside r m → IsInside r m'
IsAlike-IsInside r same h = record {
  bounded = λ j hj. subst (λ x. x ≤ r.payload_capacity) (sym (same.bytes j)) (h.bounded j hj);
  called = subst (All (InOneSlot r)) (sym same.calls) h.called;
}

acquire-IsAlike : (r : ExecRing) (m : Memory) → IsAlike m (try_acquire r m).1
acquire-IsAlike r m = by_search (try_acquire-Search r m)
  where
    by_search :
        {out : Result CubismError CpuSlot × Memory}
        → Search r m.producer_hint 0 r.slot_count (hinted r m) out
        → IsAlike m out.1
    by_search (found k lt busy c) =
        subst (λ (out : Result CubismError CpuSlot × Memory). IsAlike m out.1) (sym c.1)
          (record { bytes = λ j. ground arith; calls = refl })
    by_search (full busy e) =
        subst (λ (out : Result CubismError CpuSlot × Memory). IsAlike m out.1) (sym e)
          (record { bytes = λ j. refl; calls = refl })

submit-IsAlike : (p : PublishedSlot) (t : ℕ) (m : Memory) → IsAlike m (mark_in_flight p t m).1
unfolding mark_in_flight
submit-IsAlike p t m = record { bytes = λ j. ground arith; calls = ground arith }

write-IsAlike : (t : CpuSlot) (bytes : List ℕ) (m : Memory) → IsAlike m (write_payload t bytes m)
unfolding write_payload
write-IsAlike t bytes m = record { bytes = λ j. refl; calls = refl }

drop-IsInside :
    (r : ExecRing) (t : CpuSlot) (m : Memory) → IsInside r m → IsInside r (drop_slot t m)
unfolding drop_slot
drop-IsInside r t m h = record {
  bounded = λ j hj. ground (arith, h.bounded j hj);
  called = ground (arith, h.called);
}

-- Each step of any user keeps to the slots.
Step-IsInside :
    (r : ExecRing) {s s' : System}
    → IsLaidOut r
    → Step r s s'
    → IsSafe r s
    → IsInside r s.memory
    → IsInside r s'.memory
Step-IsInside r {s} l (acquires t m e q) safe h = rw q (
    IsAlike-IsInside r
      (subst (λ (out : Result CubismError CpuSlot × Memory). IsAlike s.memory out.1) e
        (acquire-IsAlike r s.memory))
      h)
Step-IsInside r {s} l (finds_none x m e q) safe h = rw q (
    IsAlike-IsInside r
      (subst (λ (out : Result CubismError CpuSlot × Memory). IsAlike s.memory out.1) e
        (acquire-IsAlike r s.memory))
      h)
Step-IsInside r {s} l (writes xs t ys bytes e q) safe h =
    rw q (IsAlike-IsInside r (write-IsAlike t bytes s.memory) h)
Step-IsInside r {s} l (publishes v xs t ys n revision e q) safe h =
    let token =
      (All-middle (IsToken r s.memory) xs t ys (subst (All (IsToken r s.memory)) e safe.owned)).0 in
    rw q (publish-IsInside r l v t n revision s.memory token h)
Step-IsInside r {s} l (abandons xs t ys e q) safe h = rw q (drop-IsInside r t s.memory h)
Step-IsInside r {s} l (submits p timeline hi b q) safe h =
    rw q (IsAlike-IsInside r (submit-IsAlike p timeline s.memory) h)
Step-IsInside r {s} l (retires v i g completed q) safe h =
    rw q (retire-IsInside r l v i g completed s.memory h)

initialize_from-trace : (i rounds : ℕ) (m : Memory) → (initialize_from i rounds m).trace ≡ m.trace
unfolding initialize_from
initialize_from-trace i zero m = refl
initialize_from-trace i (suc k) m = initialize_from-trace (i + 1) k (put_header i fresh_header m)

fresh-IsInside : (r : ExecRing) (m : Memory) → m.trace ≡ [] → IsInside r (initialize_fresh r m)
unfolding initialize_fresh
fresh-IsInside r m none_yet = record {
  bounded = λ j hj. ground (arith, (initialize_fresh-free r m j hj).header);
  called = subst (All (InOneSlot r)) (sym (initialize_from-trace 0 r.slot_count m ∙ none_yet)) tt;
}

-- In a ring that is laid out and fresh, with no hook called yet, however its users take turns: each
-- hook call that `publish` and `retire` have made names bytes of one slot, inside the mapping, and
-- no header names more payload than a slot has.
pub Reach-IsInside :
    (r : ExecRing) (m : Memory) {s : System}
    → IsLaidOut r
    → m.trace ≡ []
    → Reach r (fresh_system r m) s
    → IsInside r s.memory
Reach-IsInside r m l none_yet here = fresh-IsInside r m none_yet
Reach-IsInside r m l none_yet (next before step) =
    Step-IsInside r l step (fresh-IsSafe r m l before) (Reach-IsInside r m l none_yet before)

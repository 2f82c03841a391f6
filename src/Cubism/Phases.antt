-- ===== src/Cubism/Phases.antt =====
-- The life of a slot of src/cubism.rs as phases, and what a header holds in each.
--
-- `stranded` is a slot whose publication stored the odd sequence and then failed, so that the drop
-- of its token cleared the rest; `spent` is one whose generation cannot grow any more.
pub mod Publish
pub mod Acquire
pub mod Submit
pub mod Retire
use trueos_picasso.Prelude.{ℕ, suc, ◌+◌, ◌-◌, ◌*◌, ◌^◌, ◌<◌, ◌≡◌, ◌≢◌}
use trueos_picasso.Prelude.Words.{word}
use trueos_picasso.Cubism.Types.{ExecSlotHeader, Memory, ExecRing}

pub data Phase : Type 0 where
  free : (generation : ℕ) → Phase
  writing : (generation : ℕ) → Phase
  sealed : (generation bytes revision : ℕ) → Phase
  in_flight : (generation bytes revision timeline : ℕ) → Phase
  stranded : (generation : ℕ) → Phase
  spent : Phase

-- Generations whose published sequence is a `u64`.
abbrev pub generations : ℕ
generations = 2 ^ 63

abbrev pub header_of : Phase → ExecSlotHeader
header_of (free g) = record {
  sequence = 2 * g;
  payload_bytes = 0;
  resource_revision = 0;
  gpu_timeline = 0;
  debug_state = 0;
}
header_of (writing g) = record {
  sequence = 2 * g;
  payload_bytes = 0;
  resource_revision = 0;
  gpu_timeline = 0;
  debug_state = 1;
}
header_of (sealed g n r) = record {
  sequence = 2 * g + 1;
  payload_bytes = n;
  resource_revision = r;
  gpu_timeline = 0;
  debug_state = 2;
}
header_of (in_flight g n r t) = record {
  sequence = 2 * g + 1;
  payload_bytes = n;
  resource_revision = r;
  gpu_timeline = suc t;
  debug_state = 3;
}
header_of (stranded g) = record {
  sequence = 2 * g + 1;
  payload_bytes = 0;
  resource_revision = 0;
  gpu_timeline = 0;
  debug_state = 0;
}
header_of spent = record {
  sequence = word - 1;
  payload_bytes = 0;
  resource_revision = 0;
  gpu_timeline = 0;
  debug_state = 4;
}

abbrev pub generation : Phase → ℕ
generation (free g) = g
generation (writing g) = g
generation (sealed g n r) = g
generation (in_flight g n r t) = g
generation (stranded g) = g
generation spent = generations - 1

-- The slot `index` is in the phase `p`.
pub record Shows (m : Memory) (index : ℕ) (p : Phase) : Type 0 where
  pub header : m.headers index ≡ header_of p
  pub bounded : generation p < generations

-- Nothing outside the header `index` and the ghost log has changed.
pub record OnlySlot (index : ℕ) (m m' : Memory) : Type 0 where
  pub headers : (j : ℕ) → index ≢ j → m'.headers j ≡ m.headers j
  pub payloads : (j : ℕ) → m'.payloads j ≡ m.payloads j
  pub hint : m'.producer_hint ≡ m.producer_hint

-- Every slot of the ring is in some phase.
pub record IsWellFormed (r : ExecRing) (m : Memory) : Type 0 where
  pub phase_of : (index : ℕ) → index < r.slot_count → (p : Phase) × Shows m index p

-- The sequence that a slot shows once the generation `g` is published.
abbrev pub published_value : ℕ → ℕ
published_value g = 2 * g + 1

-- ===== src/Cubism/Phases/Retire.antt =====
-- `ExecRing::retire` of src/cubism.rs, by phases.
use mathlib.Core.Path.{subst}
use native.Mathlib.Decide.{dec_lt, ℕ_discrete}
use trueos_picasso.Prelude.{
  ℕ, suc, ◌+◌, ◌*◌, ◌≤◌, ◌<◌, ◌≡◌, ◌≢◌, refl, ap, sym, ◌∙◌, arith, ltb, leb, ◌==◌, if◌then◌else◌,
}
use trueos_picasso.Prelude.Result.{Result, ok, err}
use trueos_picasso.Cubism.Types.{
  ExecSlotHeader, header_size, SharedByteRange, CubismError, invalid_slot_index,
  generation_overflow, not_submitted, generation_mismatch, timeline_not_complete, Memory,
  VisibilityOps, ExecRing,
}
use trueos_picasso.Cubism.Slots.{published, retire}
use trueos_picasso.Cubism.Phases.{
  Phase, free, writing, sealed, in_flight, stranded, spent, header_of, generations, published_value,
  Shows, OnlySlot,
}
use trueos_picasso.Cubism.Phases.Submit.{published_lem}

abbrev sequence : ExecSlotHeader → ℕ
sequence h = h.sequence

abbrev gpu_timeline : ExecSlotHeader → ℕ
gpu_timeline h = h.gpu_timeline

-- What `retire` answers once the sequence matches, by the outcome of its hook.
abbrev release :
    (g : ℕ) → Phase → Result CubismError (Unit {0}) → Result CubismError (Unit {0}) × Phase
release g p (err e) = (err e, p)
release g p (ok _) =
    if ltb (g + 1) generations then (ok tt, free (g + 1)) else (err generation_overflow, spent)

abbrev retire_matching :
    (completed : ℕ) → Phase → Result CubismError (Unit {0}) → Result CubismError (Unit {0}) × Phase
retire_matching completed (in_flight g n rev t) hook =
    if leb (suc t) completed
    then release g (in_flight g n rev t) hook
    else (err (timeline_not_complete (suc t) completed), in_flight g n rev t)
retire_matching completed p hook = (err not_submitted, p)

abbrev pub retire_outcome :
    (g completed : ℕ)
    → Phase
    → Result CubismError (Unit {0})
    → Result CubismError (Unit {0}) × Phase
retire_outcome g completed p hook =
    let actual = (header_of p).sequence in
    if actual == published_value g
    then retire_matching completed p hook
    else (err (generation_mismatch (published_value g) actual), p)

module _ (r : ExecRing) (v : VisibilityOps) (index g completed : ℕ) (m : Memory) where
  -- The payload bytes that the retirement makes visible to the CPU.
  abbrev pub retired_range : SharedByteRange
  retired_range = record {
    resource = r.resource;
    offset = index * r.slot_stride + header_size;
    byte_length = (m.headers index).payload_bytes;
  }

  module _ (i : index < r.slot_count) (b : g < generations) where
    pub retire-mismatch :
        (m.headers index).sequence ≢ published_value g
        → retire r v index g completed m
          ≡ (err (generation_mismatch (published_value g) (m.headers index).sequence), m)
    unfolding retire
    retire-mismatch ne = ground arith

    module _ (e : (m.headers index).sequence ≡ published_value g) where
      pub retire-not_submitted :
          (m.headers index).gpu_timeline ≡ 0
          → retire r v index g completed m ≡ (err not_submitted, m)
      unfolding retire
      retire-not_submitted z = ground arith

      retire-not_complete :
          {t : ℕ}
          → (m.headers index).gpu_timeline ≡ suc t
          → completed < suc t
          → retire r v index g completed m ≡ (err (timeline_not_complete (suc t) completed), m)
      unfolding retire
      retire-not_complete z lt = ground arith

      retire-hook_failed :
          {t : ℕ} {x : CubismError}
          → (m.headers index).gpu_timeline ≡ suc t
          → suc t ≤ completed
          → v.gpu_make_cpu_visible m retired_range ≡ err x
          → ((retire r v index g completed m).0 ≡ err x)
            × ((retire r v index g completed m).1.headers ≡ m.headers)
      unfolding retire
      retire-hook_failed z le f = (ground arith, ground arith)

      retire-released :
          {t : ℕ}
          → (m.headers index).gpu_timeline ≡ suc t
          → suc t ≤ completed
          → v.gpu_make_cpu_visible m retired_range ≡ ok tt
          → g + 1 < generations
          → ((retire r v index g completed m).0 ≡ ok tt)
            × ((retire r v index g completed m).1.headers index ≡ header_of (free (g + 1)))
      unfolding retire
      retire-released z le f lt = (ground arith, ground arith)

      retire-spent :
          {t : ℕ}
          → (m.headers index).gpu_timeline ≡ suc t
          → suc t ≤ completed
          → v.gpu_make_cpu_visible m retired_range ≡ ok tt
          → g + 1 ≡ generations
          → ((retire r v index g completed m).0 ≡ err generation_overflow)
            × ((retire r v index g completed m).1.headers index ≡ header_of spent)
      unfolding retire
      retire-spent z le f lt = (ground arith, ground arith)

  pub retire-invalid_index :
      r.slot_count ≤ index → retire r v index g completed m ≡ (err (invalid_slot_index index), m)
  unfolding retire
  retire-invalid_index h = ground arith

  pub retire-overflow :
      index < r.slot_count
      → generations ≤ g
      → retire r v index g completed m ≡ (err generation_overflow, m)
  unfolding retire
  retire-overflow i h = ground arith

  -- The memory after the call answers and shows what `x` says.
  abbrev Leads :
      Result CubismError (Unit {0}) × Memory → Result CubismError (Unit {0}) × Phase → Type 0
  Leads out x = (out.0 ≡ x.0) × Shows out.1 index x.1

  abbrev hook : Result CubismError (Unit {0})
  hook = v.gpu_make_cpu_visible m retired_range

  retire-in_flight :
      (n rev t : ℕ)
      → index < r.slot_count
      → g < generations
      → Shows m index (in_flight g n rev t)
      → (x : Result CubismError (Unit {0})) → hook ≡ x
      → Leads (retire r v index g completed m) (retire_matching completed (in_flight g n rev t) x)
  retire-in_flight n rev t i b h x f = elim (dec_lt completed (suc t)) [
    | yes lt ↦ ground (arith, h, retire-not_complete i b e z lt)
    | no ge ↦ finish x f (omega arith)
  ]
    where
      e : (m.headers index).sequence ≡ published_value g
      e = ground (arith, h)

      z : (m.headers index).gpu_timeline ≡ suc t
      z = ground (arith, h)

      finish :
          (x : Result CubismError (Unit {0}))
          → hook ≡ x
          → suc t ≤ completed
          → Leads
              (retire r v index g completed m)
              (retire_matching completed (in_flight g n rev t) x)
      finish (err y) q le = ground (arith, h, retire-hook_failed i b e z le q)
      finish (ok u) q le = elim (dec_lt (g + 1) generations) [
        | yes lt ↦ ground (arith, h, retire-released i b e z le q lt)
        | no ge ↦ ground (arith, h, retire-spent i b e z le q (omega arith))
      ]

  -- For a valid index and a generation below 2^63, `retire` answers, and leaves the slot, as
  -- `retire_outcome` says for the slot's phase and the outcome of the visibility hook: only a slot in
  -- flight at that generation whose timeline is complete goes to the next generation.
  pub retire-outcome :
      (p : Phase)
      → index < r.slot_count
      → g < generations
      → Shows m index p
      → Leads (retire r v index g completed m) (retire_outcome g completed p hook)
  retire-outcome p i b h = elim (ℕ_discrete (header_of p).sequence (published_value g)) [
    | yes e ↦ matching p h e
    | no ne ↦ ground (arith, h, retire-mismatch i b (λ q. ne (ap sequence (sym h.header) ∙ q)))
  ]
    where
      matching :
          (p : Phase)
          → Shows m index p
          → (header_of p).sequence ≡ published_value g
          → Leads (retire r v index g completed m) (retire_outcome g completed p hook)
      matching (free _) h e = absurd (omega arith)
      matching (writing _) h e = absurd (omega arith)
      matching (in_flight g' n rev t) h e =
          let same : g' ≡ g = omega arith in
          let h' : Shows m index (in_flight g n rev t) =
            subst (λ k. Shows m index (in_flight k n rev t)) same h in
          ground (arith, same, retire-in_flight n rev t i b h' hook refl)
      matching (sealed g' n rev) h e =
          ground (
            arith,
            h,
            retire-not_submitted i b (ap sequence h.header ∙ e) (ap gpu_timeline h.header),
          )
      matching (stranded g') h e =
          ground (
            arith,
            h,
            retire-not_submitted i b (ap sequence h.header ∙ e) (ap gpu_timeline h.header),
          )
      matching spent h e =
          ground (
            arith,
            h,
            retire-not_submitted i b (ap sequence h.header ∙ e) (ap gpu_timeline h.header),
          )

  pub retire-OnlySlot : OnlySlot index m (retire r v index g completed m).1
  unfolding retire
  retire-OnlySlot = record {
    headers = λ j ne. ground arith;
    payloads = λ j. ground arith;
    hint = ground arith;
  }

  -- A success is the release of a slot in flight whose timeline is complete.
  released_only :
      (p : Phase) (x : Result CubismError (Unit {0}))
      → (retire_outcome g completed p x).0 ≡ ok tt
      → (retire_outcome g completed p x).1 ≡ free (g + 1)
  released_only (in_flight _ _ _ _) (ok _) e = ground arith
  released_only (in_flight _ _ _ _) (err _) e = ground arith
  released_only _ x e = ground arith

  pub retire-free :
      (p : Phase)
      → index < r.slot_count
      → g < generations
      → Shows m index p
      → (retire r v index g completed m).0 ≡ ok tt
      → Shows (retire r v index g completed m).1 index (free (g + 1))
  retire-free p i b h e =
      let (answer, shows) = retire-outcome p i b h in
      subst (Shows (retire r v index g completed m).1 index) (released_only p hook (sym answer ∙ e))
        shows

-- Once the generation `g` of a slot is retired, no later call on `g` succeeds: neither a second
-- retirement, at any timeline, nor a reopening. Both report the sequence of the next generation.
retire_once :
    (r : ExecRing) (v : VisibilityOps) (index g completed again : ℕ) (p : Phase) (m : Memory)
    → index < r.slot_count
    → g < generations
    → Shows m index p
    → (retire r v index g completed m).0 ≡ ok tt
    → let m' = (retire r v index g completed m).1 in
      let stale = generation_mismatch (published_value g) (2 * (g + 1)) in
      (retire r v index g again m' ≡ (err stale, m')) × (published r index g m' ≡ (err stale, m'))
retire_once r v index g completed again p m i b h e = (
  subst Stale (ap sequence now.header) (retire-mismatch r v index g again m' i b other),
  subst Stale' (ap sequence now.header) ((published_lem r index g m' i b).1 other),
)
  where
    m' : Memory
    m' = (retire r v index g completed m).1

    now : Shows m' index (free (g + 1))
    now = retire-free r v index g completed m p i b h e

    other : (m'.headers index).sequence ≢ published_value g
    other q = absurd (omega (arith, sym (ap sequence now.header) ∙ q))

    Stale : ℕ → Type 0
    Stale k = retire r v index g again m' ≡ (err (generation_mismatch (published_value g) k), m')

    Stale' : ℕ → Type 0
    Stale' k = published r index g m' ≡ (err (generation_mismatch (published_value g) k), m')

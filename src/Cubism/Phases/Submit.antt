-- ===== src/Cubism/Phases/Submit.antt =====
-- `ExecRing::published` and `PublishedSlot::mark_in_flight` of src/cubism.rs, by phases.
use trueos_picasso.Prelude.{ℕ, ◌-◌, ◌<◌, ◌≡◌, ◌≢◌, arith, ◌==◌, if◌then◌else◌}
use trueos_picasso.Prelude.Result.{Result, ok, err}
use trueos_picasso.Cubism.Types.{
  CubismError, invalid_timeline, not_cpu_sealed, generation_mismatch, Memory, ExecRing,
  PublishedSlot,
}
use trueos_picasso.Cubism.Slots.{published, mark_in_flight}
use trueos_picasso.Cubism.Phases.{
  Phase, sealed, in_flight, header_of, generations, published_value, Shows, OnlySlot,
}

-- `published` opens the generation `g` exactly if the slot's sequence is that of `g`, and otherwise
-- reports both sequences; it changes nothing.
pub published_lem :
    (r : ExecRing) (index g : ℕ) (m : Memory)
    → index < r.slot_count
    → g < generations
    → ((m.headers index).sequence ≡ published_value g
        → published r index g m ≡ (ok (record { index = index; generation = g }), m))
      × ((m.headers index).sequence ≢ published_value g
          → published r index g m
            ≡ (err (generation_mismatch (published_value g) (m.headers index).sequence), m))
unfolding published
published_lem r index g m h b = (λ e. ground arith, λ e. ground arith)

-- What `mark_in_flight` with the timeline `t` answers for the generation `g` of a slot, and the
-- phase that it leaves.
abbrev mark_sealed : (t : ℕ) → Phase → Result CubismError (Unit {0}) × Phase
mark_sealed t (sealed g n rev) = (ok tt, in_flight g n rev (t - 1))
mark_sealed t p = (err not_cpu_sealed, p)

abbrev pub mark_outcome : (g t : ℕ) → Phase → Result CubismError (Unit {0}) × Phase
mark_outcome g t p =
    let actual = (header_of p).sequence in
    if t == 0
    then (err invalid_timeline, p)
    else if actual == published_value g
    then mark_sealed t p
    else (err (generation_mismatch (published_value g) actual), p)

-- On a slot in any phase, `mark_in_flight` answers and leaves the slot as `mark_outcome` says: only a
-- sealed slot of the generation takes the timeline, and a zero timeline is refused first.
pub mark_in_flight-outcome :
    (index g t : ℕ) (p : Phase) (m : Memory)
    → g < generations
    → Shows m index p
    → let out = mark_in_flight (record { index = index; generation = g }) t m in
      (out.0 ≡ (mark_outcome g t p).0) × Shows out.1 index (mark_outcome g t p).1
unfolding mark_in_flight
mark_in_flight-outcome index g t (sealed _ _ _) m b h = ground (arith, h)
mark_in_flight-outcome index g t _ m b h = ground (arith, h)

-- No other slot, payload or hint changes.
pub mark_in_flight-OnlySlot :
    (p : PublishedSlot) (t : ℕ) (m : Memory) → OnlySlot p.index m (mark_in_flight p t m).1
unfolding mark_in_flight
mark_in_flight-OnlySlot p t m = record {
  headers = λ j ne. ground arith;
  payloads = λ j. ground arith;
  hint = ground arith;
}

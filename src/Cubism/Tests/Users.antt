-- ===== src/Cubism/Tests/Users.antt =====
-- Runs of the users of a ring of src/cubism.rs.
use trueos_picasso.Prelude.{ℕ, ◌<◌, ◌≡◌, ◌↔◌, refl, [], ◌∷◌, false, arith}
use trueos_picasso.Prelude.Result.{ok, err}
use trueos_picasso.Cubism.Types.{
  coherent_visibility, visibility_failed, ring_full, generation_mismatch, make_gpu_visible,
  publish_slot, CpuSlot, PublishedSlot,
}
use trueos_picasso.Cubism.Ring.{initialize_from, initialize_fresh, try_slot, try_slots, try_acquire}
use trueos_picasso.Cubism.Slots.{publish, published, mark_in_flight, retire, payload, write_payload}
use trueos_picasso.Cubism.Phases.{free, writing, sealed, in_flight, stranded, header_of, Shows}
use trueos_picasso.Cubism.Phases.Publish.{
  at_flush, at_marker, data_range, marker_range, publish_phase, publish_trace, payload-publish,
}
use trueos_picasso.Cubism.Phases.Acquire.{
  hinted, Claimed, is_free, try_acquire-Claimed, try_acquire-full,
}
use trueos_picasso.Cubism.Phases.Submit.{mark_in_flight-outcome}
use trueos_picasso.Cubism.Phases.Retire.{retire-outcome}
use trueos_picasso.Cubism.System.{System, Reach, here, next, acquires, publishes, submits, retires}
use trueos_picasso.Cubism.System.Ownership.{IsSafe}
use trueos_picasso.Cubism.System.Fresh.{fresh_system, fresh-IsSafe}
use trueos_picasso.Cubism.System.Liveness.{IsReliable, Served, token-Served}
use trueos_picasso.Cubism.System.Ranges.{IsInside, Reach-IsInside}
use trueos_picasso.Cubism.System.Stranded.{publish_strands}
use trueos_picasso.Cubism.System.Generations.{sequence_at, generation_gone}
use trueos_picasso.Cubism.Tests.{
  two_slots, two_slots-IsLaidOut, memory_of, marker_fails, token, held, token-IsToken, flying,
  flying-Shows, waiting, waiting-IsWellFormed, claimed, acquire_run, publish_run,
}

-- A producer that acquires the first slot of a fresh ring and publishes it.
abbrev first : CpuSlot
first = record { index = 0; generation = 0; published = false }

abbrev start : System
start = fresh_system two_slots held

abbrev acquired : System
acquired = record { memory = (try_acquire two_slots start.memory).1; tokens = first ∷ [] }

first_run : try_acquire two_slots start.memory ≡ (ok first, acquired.memory)
unfolding initialize_fresh initialize_from try_acquire try_slots try_slot
first_run = refl

abbrev after_publish : System
after_publish = record {
  memory = (publish two_slots coherent_visibility first 2 9 acquired.memory).1;
  tokens = [];
}

used : Reach two_slots start after_publish
used =
    next (next here (acquires first acquired.memory first_run refl))
      (publishes coherent_visibility [] first [] 2 9 refl refl)

-- The executor submits and retires what was published.
abbrev after_retire : System
after_retire = record {
  memory =
      (retire two_slots coherent_visibility 0 0 9
        (mark_in_flight (record { index = 0; generation = 0 }) 8 after_publish.memory).1).1;
  tokens = [];
}

retired : Reach two_slots start after_retire
retired =
    next
      (next used
        (submits (record { index = 0; generation = 0 }) 8 (omega arith) (omega arith) refl))
      (retires coherent_visibility 0 0 9 refl)

Reach-IsInside_example : IsInside two_slots after_retire.memory
Reach-IsInside_example = Reach-IsInside two_slots held two_slots-IsLaidOut refl retired

fresh-IsSafe_example : IsSafe two_slots after_publish
fresh-IsSafe_example = fresh-IsSafe two_slots held two_slots-IsLaidOut used

-- Both slots free at generation 3, and no token.
abbrev idle : System
idle = record { memory = waiting; tokens = [] }

idle-IsSafe : IsSafe two_slots idle
idle-IsSafe = record { well_formed = waiting-IsWellFormed; owned = tt; distinct = tt }

abbrev taken : System
taken = record {
  memory = claimed;
  tokens = record { index = 0; generation = 3; published = false } ∷ [];
}

generation_gone_example :
    (retire two_slots coherent_visibility 0 2 50 taken.memory
      ≡ (err (generation_mismatch 5 (sequence_at taken.memory 0)), taken.memory))
    × (published two_slots 0 2 taken.memory
        ≡ (err (generation_mismatch 5 (sequence_at taken.memory 0)), taken.memory))
generation_gone_example =
    generation_gone two_slots coherent_visibility 0 2 50 two_slots-IsLaidOut idle-IsSafe
      (omega arith) (omega arith) (omega arith)
      (next here (
        acquires (record { index = 0; generation = 3; published = false }) claimed acquire_run
          refl))

publish_phase_example :
    ((publish two_slots marker_fails token 2 9 held).0 ≡ err visibility_failed)
    × Shows (publish two_slots marker_fails token 2 9 held).1 1 (stranded 3)
publish_phase_example =
    publish_phase two_slots marker_fails token 2 9 held two_slots-IsLaidOut token-IsToken
      (omega arith)

publish_trace_example :
    ((publish two_slots coherent_visibility token 2 9 held).1.trace
      ≡ record {
        op = make_gpu_visible (data_range two_slots coherent_visibility token 2 9 held);
        found = (at_flush two_slots coherent_visibility token 2 9 held).headers;
      }
        ∷ record {
          op = publish_slot (marker_range two_slots coherent_visibility token 2 9 held);
          found = (at_marker two_slots coherent_visibility token 2 9 held).headers;
        }
        ∷ [])
    × ((at_flush two_slots coherent_visibility token 2 9 held).headers 1
        ≡ record (header_of (writing 3)) { payload_bytes = 2; resource_revision = 9 })
    × ((at_marker two_slots coherent_visibility token 2 9 held).headers 1
        ≡ header_of (sealed 3 2 9))
publish_trace_example =
    publish_trace two_slots coherent_visibility token 2 9 held two_slots-IsLaidOut token-IsToken
      (omega arith) refl

payload-publish_example :
    (payload
        (record { index = 1; generation = 3 })
        (publish two_slots coherent_visibility token 2 9
          (write_payload token (1 ∷ 2 ∷ 3 ∷ []) held)).1
      ≡ 1 ∷ 2 ∷ [])
    × (◌≡◌ {A = PublishedSlot}
        (record { index = 1; generation = 3 })
        (record { index = 1; generation = 3 }))
payload-publish_example =
    payload-publish two_slots coherent_visibility token 2 9 (1 ∷ 2 ∷ 3 ∷ []) held
      two_slots-IsLaidOut token-IsToken publish_run

try_acquire-Claimed_example :
    Claimed two_slots waiting (record { index = 0; generation = 3; published = false }) claimed
try_acquire-Claimed_example = try_acquire-Claimed two_slots waiting waiting-IsWellFormed acquire_run

try_acquire-full_example :
    (try_acquire two_slots held ≡ (err ring_full, hinted two_slots held))
    ↔ ((i : ℕ) → i < 2 → is_free (held.headers i) ≡ false)
try_acquire-full_example = try_acquire-full two_slots held (omega arith)

mark_in_flight-outcome_example :
    ((mark_in_flight (record { index = 1; generation = 3 }) 7 (memory_of (sealed 3 5 9))).0 ≡ ok tt)
    × Shows
        (mark_in_flight (record { index = 1; generation = 3 }) 7 (memory_of (sealed 3 5 9))).1
        1
        (in_flight 3 5 9 6)
mark_in_flight-outcome_example =
    mark_in_flight-outcome 1 3 7 (sealed 3 5 9) (memory_of (sealed 3 5 9)) (omega arith)
      (record { header = refl; bounded = omega arith })

retire-outcome_example :
    ((retire two_slots coherent_visibility 1 3 7 flying).0 ≡ ok tt)
    × Shows (retire two_slots coherent_visibility 1 3 7 flying).1 1 (free 4)
retire-outcome_example =
    retire-outcome two_slots coherent_visibility 1 3 7 flying (in_flight 3 5 9 6) (omega arith)
      (omega arith) flying-Shows

retire_run : (retire two_slots coherent_visibility 1 3 7 flying).0 ≡ ok tt
unfolding retire
retire_run = refl

-- The producer that holds slot 1, alone.
abbrev alone : System
alone = record { memory = held; tokens = token ∷ [] }

alone-IsSafe : IsSafe two_slots alone
alone-IsSafe = record {
  well_formed = record {
    phase_of = λ index h. (writing 3, record { header = refl; bounded = omega arith });
  };
  owned = (token-IsToken, tt);
  distinct = (tt, tt);
}

publish_strands_example :
    ((publish two_slots marker_fails token 2 9 held).0 ≡ err visibility_failed)
    × ((s' : System)
        → Reach two_slots
            (record { memory = (publish two_slots marker_fails token 2 9 held).1; tokens = [] })
            s'
        → Shows s'.memory 1 (stranded 3) × (is_free (s'.memory.headers 1) ≡ false))
publish_strands_example =
    publish_strands two_slots marker_fails alone [] token [] 2 9 visibility_failed
      two_slots-IsLaidOut alone-IsSafe refl (omega arith) refl refl

coherent-IsReliable : IsReliable coherent_visibility
coherent-IsReliable = record {
  flushes = λ _ _. refl;
  marks = λ _ _. refl;
  invalidates = λ _ _. refl;
}

-- Slot 1 of two, at the generation 3, with two of three bytes published at the revision 9.
token-Served_example : Served two_slots coherent_visibility token (1 ∷ 2 ∷ 3 ∷ []) 2 9 7 8 held
token-Served_example =
    token-Served two_slots coherent_visibility token (1 ∷ 2 ∷ 3 ∷ []) 2 9 7 8 held
      coherent-IsReliable two_slots-IsLaidOut token-IsToken (omega arith) (omega arith)
      (omega arith) (omega arith) (omega arith)

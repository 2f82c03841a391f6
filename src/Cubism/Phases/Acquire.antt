-- ===== src/Cubism/Phases/Acquire.antt =====
-- `ExecRing::try_acquire` of src/cubism.rs: which slot it claims, and when the ring is full.
use mathlib.Core.Path.{subst, subst₂}
use mathlib.Core.Bool.{false≢true}
use native.Mathlib.Nat.{mul-add-mod_self_right, mod-eq_of_lt, mod-lt, zero-add}
use native.Mathlib.Decide.{dec_lt}
use trueos_picasso.Prelude.{
  ℕ, zero, suc, ◌+◌, ◌-◌, ◌*◌, ◌/◌, ◌%◌, ◌≤◌, ◌<◌, ◌≡◌, ◌↔◌, inl, inr, refl, sym, ap, ◌∙◌, Bool,
  true, false, ◌&&◌, none, some, arith, ◌==◌, if◌then◌else◌, Bool-cases,
}
use trueos_picasso.Prelude.Result.{Result, ok, err}
use trueos_picasso.Prelude.Words.{word, wrapping_add}
use trueos_picasso.Cubism.Types.{ExecSlotHeader, CubismError, ring_full, Memory, ExecRing, CpuSlot}
use trueos_picasso.Cubism.Ring.{store_debug, try_slot, try_slots, try_acquire}
use trueos_picasso.Cubism.Phases.{Phase, free, Shows, OnlySlot, IsWellFormed}
use trueos_picasso.Cubism.Phases.Publish.{IsToken}

-- A header that a producer may claim: the sequence is even and the guard is free.
abbrev pub is_free : ExecSlotHeader → Bool
is_free h = (h.sequence % 2 == 0) && (h.debug_state == 0)

-- The token for the slot `index`, and the memory once it is claimed.
abbrev pub claim : ℕ → Memory → CpuSlot
claim index m = record {
  index = index;
  generation = (m.headers index).sequence / 2;
  published = false;
}

try_slot_lem :
    (index : ℕ) (m : Memory)
    → try_slot index m ≡ (
        if is_free (m.headers index)
        then (some (claim index m), store_debug index 1 m)
        else (none, m))
unfolding try_slot
try_slot_lem index m = ground arith

-- The slot of the round `n`.
abbrev pub visit : ExecRing → (start n : ℕ) → ℕ
visit r start n = wrapping_add start n % r.slot_count

-- A property of the rounds from `n` on is one of the round `n` and of the rounds after it.
all_later :
    (P : ℕ → Type 0) (n k : ℕ)
    → P n
    → ((j : ℕ) → j < k → P (n + 1 + j))
    → (j : ℕ) → j < suc k
    → P (n + j)
all_later P n k now later zero h = subst P (omega arith) now
all_later P n k now later (suc j) h = subst P (omega arith) (later j (omega arith))

abbrev IsBusy : ExecRing → Memory → (start n : ℕ) → Type 0
IsBusy r m start n = is_free (m.headers (visit r start n)) ≡ false

abbrev Claims : ExecRing → Memory → Result CubismError CpuSlot × Memory → (start n : ℕ) → Type 0
Claims r m out start n =
    (is_free (m.headers (visit r start n)) ≡ true)
    × (out ≡ (ok (claim (visit r start n) m), store_debug (visit r start n) 1 m))

-- How the rounds from `n` on end: at the first free slot, or with none.
pub data Search (r : ExecRing) (start n rounds : ℕ) (m : Memory)
    (out : Result CubismError CpuSlot × Memory) : Type 0 where
  found :
      (k : ℕ)
      → k < rounds
      → ((j : ℕ) → j < k → IsBusy r m start (n + j))
      → Claims r m out start (n + k)
      → Search r start n rounds m out
  full :
      ((j : ℕ) → j < rounds → IsBusy r m start (n + j))
      → out ≡ (err ring_full, m)
      → Search r start n rounds m out

Search-later :
    {r : ExecRing} {start n k : ℕ} {m : Memory} {out : Result CubismError CpuSlot × Memory}
    → IsBusy r m start n
    → Search r start (n + 1) k m out
    → Search r start n (suc k) m out
Search-later {r} {start} {n} {k} {m} {out} b (found i h busy c) =
    found (suc i) (omega arith) (all_later (IsBusy r m start) n i b busy)
      (subst (Claims r m out start) (omega arith) c)
Search-later {r} {start} {n} {k} {m} b (full busy e) =
    full (all_later (IsBusy r m start) n k b busy) e

try_slots-free :
    (r : ExecRing) (start n k : ℕ) (m : Memory)
    → is_free (m.headers (visit r start n)) ≡ true
    → try_slots r start n (suc k) m
      ≡ (ok (claim (visit r start n) m), store_debug (visit r start n) 1 m)
unfolding try_slots
try_slots-free r start n k m e = ground (arith, try_slot_lem (visit r start n) m)

try_slots-busy :
    (r : ExecRing) (start n k : ℕ) (m : Memory)
    → IsBusy r m start n
    → try_slots r start n (suc k) m ≡ try_slots r start (n + 1) k m
unfolding try_slots
try_slots-busy r start n k m e = ground (arith, try_slot_lem (visit r start n) m)

try_slots-Search :
    (r : ExecRing) (start n rounds : ℕ) (m : Memory)
    → Search r start n rounds m (try_slots r start n rounds m)
unfolding try_slots
try_slots-Search r start n zero m = full (λ j h. elim h [ ]) refl
try_slots-Search r start n (suc k) m = elim (Bool-cases (is_free (m.headers (visit r start n)))) [
  | inl e ↦
      found 0 (omega arith) (λ j h. elim h [ ])
        (subst (Claims r m _ start) (omega arith) (e, try_slots-free r start n k m e))
  | inr e ↦
      subst (Search r start n (suc k) m) (sym (try_slots-busy r start n k m e))
        (Search-later e (try_slots-Search r start (n + 1) k m))
]

-- Every slot is visited, if the counter does not wrap on the way.
visit-onto :
    (r : ExecRing) (start i : ℕ)
    → i < r.slot_count
    → start + r.slot_count ≤ word
    → (k : ℕ) × (k < r.slot_count) × (visit r start k ≡ i)
visit-onto r start i h w = elim (dec_lt i (start % r.slot_count)) [
  | yes p ↦ (
    i + r.slot_count - start % r.slot_count,
    omega arith,
    rw (no_wrap (i + r.slot_count - start % r.slot_count) (omega arith))
        (around (start / r.slot_count + 1) _ (omega arith)),
  )
  | no p ↦ (
    i - start % r.slot_count,
    omega arith,
    rw (no_wrap (i - start % r.slot_count) (omega arith))
        (around (start / r.slot_count) _ (omega arith)),
  )
]
  where
    no_wrap : (k : ℕ) → k < r.slot_count → wrapping_add start k ≡ start + k
    no_wrap k hk = omega arith

    around : (q x : ℕ) → x ≡ q * r.slot_count + i → x % r.slot_count ≡ i
    around q x e = rw (e, mul-add-mod_self_right, mod-eq_of_lt h)

-- A phase whose header passes the tests of `try_slot` is `free`.
Shows-free :
    {m : Memory} (index : ℕ) (p : Phase)
    → Shows m index p
    → is_free (m.headers index) ≡ true
    → Shows m index (free ((m.headers index).sequence / 2))
Shows-free index (free g) h e = ground (arith, h.header)
Shows-free index _ h e = absurd (ground (arith, h.header))

module _ (r : ExecRing) (m : Memory) where
  -- The memory in which the search starts: the hint is advanced, with wrap-around.
  abbrev pub hinted : Memory
  hinted = record m { producer_hint = wrapping_add m.producer_hint 1 }

  pub try_acquire-Search : Search r m.producer_hint 0 r.slot_count hinted (try_acquire r m)
  unfolding try_acquire
  try_acquire-Search = try_slots-Search r m.producer_hint 0 r.slot_count hinted

  -- What a claim of the slot `index` establishes.
  abbrev pub Claimed : CpuSlot → Memory → Type 0
  Claimed s m' = Shows m s.index (free s.generation) × IsToken r m' s × OnlySlot s.index hinted m'

  claim-Claimed :
      (index : ℕ)
      → index < r.slot_count
      → Shows m index (free ((m.headers index).sequence / 2))
      → Claimed (claim index hinted) (store_debug index 1 hinted)
  claim-Claimed index h f = (
    f,
    ground (arith, f),
    record { headers = λ j ne. ground arith; payloads = λ j. refl; hint = refl },
  )

  Search-Claimed :
      {out : Result CubismError CpuSlot × Memory} {s : CpuSlot} {m' : Memory}
      → IsWellFormed r m
      → Search r m.producer_hint 0 r.slot_count hinted out
      → out ≡ (ok s, m')
      → Claimed s m'
  Search-Claimed {s = s} {m' = m'} w (found k h busy c) e =
      subst₂ Claimed token memory (claim-Claimed i inside (Shows-free i p.0 p.1 c.0))
    where
      i : ℕ
      i = visit r m.producer_hint (0 + k)

      inside : i < r.slot_count
      inside = mod-lt (wrapping_add m.producer_hint (0 + k)) (omega arith)

      p : (p : Phase) × Shows m i p
      p = w.phase_of i inside

      token : claim i hinted ≡ s
      token = cc

      memory : store_debug i 1 hinted ≡ m'
      memory = cc
  Search-Claimed w (full busy c) e = cc

  -- A claim succeeds on a slot that was free, yields a live token of that slot's generation, and
  -- changes no other slot.
  pub try_acquire-Claimed :
      {s : CpuSlot} {m' : Memory} → IsWellFormed r m → try_acquire r m ≡ (ok s, m') → Claimed s m'
  try_acquire-Claimed w e = Search-Claimed w try_acquire-Search e

  Search-full :
      {out : Result CubismError CpuSlot × Memory}
      → m.producer_hint + r.slot_count ≤ word
      → Search r m.producer_hint 0 r.slot_count hinted out
      → (out ≡ (err ring_full, hinted))
        ↔ ((i : ℕ) → i < r.slot_count → is_free (m.headers i) ≡ false)
  Search-full w (found k h busy c) = (
    λ e. absurd (cc),
    λ all. absurd (false≢true (sym (all (visit r m.producer_hint (0 + k)) inside) ∙ c.0)),
  )
    where
      inside : visit r m.producer_hint (0 + k) < r.slot_count
      inside = mod-lt (wrapping_add m.producer_hint (0 + k)) (omega arith)
  Search-full w (full busy e) = (
    λ _ i h.
        let (k, hk, there) = visit-onto r m.producer_hint i h w in
        subst (λ j. is_free (m.headers j) ≡ false)
          (ap (visit r m.producer_hint) (zero-add k) ∙ there) (busy k hk),
    λ _. e,
  )

  -- Unless the hint's counter wraps during the search, `RingFull` is returned exactly when no slot
  -- is free, and then only the hint has changed.
  pub try_acquire-full :
      m.producer_hint + r.slot_count ≤ word
      → (try_acquire r m ≡ (err ring_full, hinted))
        ↔ ((i : ℕ) → i < r.slot_count → is_free (m.headers i) ≡ false)
  try_acquire-full w = Search-full w try_acquire-Search

  Search-err :
      {out : Result CubismError CpuSlot × Memory} {x : CubismError} {m' : Memory}
      → Search r m.producer_hint 0 r.slot_count hinted out
      → out ≡ (err x, m')
      → (x ≡ ring_full) × (m' ≡ hinted)
  Search-err (found k h busy c) e = absurd (cc)
  Search-err (full busy c) e = (cc, cc)

  pub try_acquire-err :
      {x : CubismError} {m' : Memory}
      → try_acquire r m ≡ (err x, m')
      → (x ≡ ring_full) × (m' ≡ hinted)
  try_acquire-err = Search-err try_acquire-Search

-- ===== src/Cubism/System/Ownership.antt =====
-- The invariant of a ring in use, and how a step on one slot keeps it.
use mathlib.Core.Path.{subst}
use native.Mathlib.Decide.{ℕ_discrete}
use trueos_picasso.Prelude.{ℕ, ◌<◌, ◌≡◌, ◌≢◌, ap, sym, ◌∙◌, List, [], ◌∷◌, ◌++◌, arith}
use trueos_picasso.Prelude.All.{All, All-map, All-zip, All-middle}
use trueos_picasso.Cubism.Types.{ExecSlotHeader, Memory, ExecRing, CpuSlot}
use trueos_picasso.Cubism.Phases.{Phase, free, writing, Shows, IsWellFormed}
use trueos_picasso.Cubism.Phases.Publish.{IsToken}
use trueos_picasso.Cubism.System.{System}

-- No two tokens name the same slot.
abbrev pub Distinct : List CpuSlot → Type 0
Distinct [] = Unit
Distinct (x ∷ xs) = All (λ y. x.index ≢ y.index) xs × Distinct xs

pub record IsSafe (r : ExecRing) (s : System) : Type 0 where
  pub well_formed : IsWellFormed r s.memory
  pub owned : All (IsToken r s.memory) s.tokens
  pub distinct : Distinct s.tokens

Distinct-middle :
    (xs : List CpuSlot) (x : CpuSlot) (ys : List CpuSlot)
    → Distinct (xs ++ x ∷ ys)
    → All (λ y. x.index ≢ y.index) (xs ++ ys) × Distinct (xs ++ ys)
Distinct-middle [] x ys h = h
Distinct-middle (z ∷ xs) x ys h =
    let (other, rest) = Distinct-middle xs x ys h.1 in
    let (ne, apart) = All-middle (λ y. z.index ≢ y.index) xs x ys h.0 in
    ((λ e. ne (sym e), other), (apart, rest))

-- A header that an operation left alone still shows its phase.
pub Shows-same :
    {m m' : Memory} (index : ℕ) (p : Phase)
    → m'.headers index ≡ m.headers index
    → Shows m index p
    → Shows m' index p
Shows-same index p e h = record { header = e ∙ h.header; bounded = h.bounded }

module _ (r : ExecRing) (i : ℕ) (m m' : Memory)
    (keep : (j : ℕ) → i ≢ j → m'.headers j ≡ m.headers j) where
  pub IsWellFormed-step : (p : Phase) → Shows m' i p → IsWellFormed r m → IsWellFormed r m'
  IsWellFormed-step p h w = record {
    phase_of = λ j hj. elim (ℕ_discrete i j) [
      | yes e ↦ subst (λ k. (q : Phase) × Shows m' k q) e (p, h)
      | no ne ↦ let (q, shows) = w.phase_of j hj in (q, Shows-same j q (keep j ne) shows)
    ];
  }

  IsToken-step : (t : CpuSlot) → i ≢ t.index → IsToken r m t → IsToken r m' t
  IsToken-step t ne h = record {
    valid = h.valid;
    unpublished = h.unpublished;
    shows = Shows-same t.index (writing t.generation) (keep t.index ne) h.shows;
  }

  pub tokens-step :
      (ts : List CpuSlot) → All (λ t. i ≢ t.index) ts → All (IsToken r m) ts → All (IsToken r m') ts
  tokens-step ts ne h =
      All-map (λ t. (i ≢ t.index) × IsToken r m t) (IsToken r m') ts (λ t p. IsToken-step t p.0 p.1)
        (All-zip (λ t. i ≢ t.index) (IsToken r m) ts ne h)

-- A slot that is free has no token.
pub free-unowned :
    (r : ExecRing) (m : Memory) (i g : ℕ)
    → Shows m i (free g)
    → (t : CpuSlot) → IsToken r m t
    → i ≢ t.index
free-unowned r m i g f t h e = absurd (
    omega (
      arith,
      ap (λ (x : ExecSlotHeader). x.debug_state) (sym f.header ∙ ap m.headers e ∙ h.shows.header),
    ))

-- Taking a token out of the list, to let its slot go to the phase `p`.
pub release-IsSafe :
    (r : ExecRing) (s : System) (xs : List CpuSlot) (t : CpuSlot) (ys : List CpuSlot) (m' : Memory)
    → s.tokens ≡ xs ++ t ∷ ys
    → ((j : ℕ) → t.index ≢ j → m'.headers j ≡ s.memory.headers j)
    → (IsToken r s.memory t → (p : Phase) × Shows m' t.index p)
    → IsSafe r s
    → IsSafe r (record { memory = m'; tokens = xs ++ ys })
release-IsSafe r s xs t ys m' e keep after safe =
    let (other, distinct) = Distinct-middle xs t ys (subst Distinct e safe.distinct) in
    let (token, rest) =
      All-middle (IsToken r s.memory) xs t ys (subst (All (IsToken r s.memory)) e safe.owned) in
    let (p, shows) = after token in
    record {
      well_formed = IsWellFormed-step r t.index s.memory m' keep p shows safe.well_formed;
      owned = tokens-step r t.index s.memory m' keep (xs ++ ys) other rest;
      distinct = distinct;
    }

-- An executor's step on the slot `i` that leaves it to a producer that is writing.
pub executor-IsSafe :
    (r : ExecRing) (s : System) (i : ℕ) (m' : Memory)
    → i < r.slot_count
    → ((j : ℕ) → i ≢ j → m'.headers j ≡ s.memory.headers j)
    → ((p : Phase) → Shows s.memory i p → (q : Phase) × Shows m' i q)
    → ((g : ℕ) → Shows s.memory i (writing g) → Shows m' i (writing g))
    → IsSafe r s
    → IsSafe r (record s { memory = m' })
executor-IsSafe r s i m' hi keep after spare safe =
    let (p, shows) = safe.well_formed.phase_of i hi in
    let (q, shows') = after p shows in
    record {
      well_formed = IsWellFormed-step r i s.memory m' keep q shows' safe.well_formed;
      owned = All-map (IsToken r s.memory) (IsToken r m') s.tokens token safe.owned;
      distinct = safe.distinct;
    }
  where
    token : (t : CpuSlot) → IsToken r s.memory t → IsToken r m' t
    token t h = elim (ℕ_discrete i t.index) [
      | yes e ↦ record {
        valid = h.valid;
        unpublished = h.unpublished;
        shows =
            subst (λ k. Shows m' k (writing t.generation)) e
              (spare t.generation
                (subst (λ k. Shows s.memory k (writing t.generation)) (sym e) h.shows));
      }
      | no ne ↦ IsToken-step r i s.memory m' keep t ne h
    ]

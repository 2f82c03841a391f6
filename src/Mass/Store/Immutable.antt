-- ===== src/Mass/Store/Immutable.antt =====
-- Published objects of src/nosql.rs are immutable: no later `put` changes one, even if it fails.
use mathlib.Core.Path.{subst}
use trueos_picasso.Prelude.{
  ℕ, ◌<◌, ◌≡◌, ◌≢◌, refl, ap, sym, ◌∙◌, not, Option, none, List, length, ◌==◌, ==_iff, Bool-cases,
  inl, inr, arith,
}
use trueos_picasso.Prelude.Result.{Result, ok, err}
use trueos_picasso.Prelude.Eff.{andthen}
use trueos_picasso.Redb.{Table, or_empty}
use trueos_picasso.Text.{Text, contains}
use trueos_picasso.Mass.Files.{FileSystem, objects}
use trueos_picasso.Mass.Catalog.{MassStore, MassEngine}
use trueos_picasso.Mass.{MassError, Utf8, encode_record}
use trueos_picasso.Mass.Store.{reserve_id, put_as, put}
use trueos_picasso.Mass.Store.Steps.{
  counter, entry, payload, Touches, put_as-Touches, Reserved, reserve_id-Reserved,
}

module _ (M : Table Text ℕ) (O : Table ℕ (List ℕ)) (fs : FileSystem) where
  -- Every object in the catalog has a number that was handed out.
  abbrev pub IsNumbered : MassStore M O fs → Type 0
  IsNumbered s = (j : ℕ) → entry M O fs s j ≢ none → j < counter M O fs s

  -- Every object of one store is in the other, entry and file.
  abbrev pub Keeps : MassStore M O fs → MassStore M O fs → Type 0
  Keeps s s' =
      (j : ℕ)
      → entry M O fs s j ≢ none
      → (entry M O fs s' j ≡ entry M O fs s j) × (payload M O fs s' j ≡ payload M O fs s j)

  Keeps-trans : (s t v : MassStore M O fs) → Keeps s t → Keeps t v → Keeps s v
  Keeps-trans s t v h k j present =
      let (entries, payloads) = h j present in
      let (entries', payloads') = k j (λ q. present (sym entries ∙ q)) in
      (entries' ∙ entries, payloads' ∙ payloads)

  module _ (e : MassEngine M O fs) (u : Utf8) where
    -- A step that touches the number just taken keeps all objects that are numbered.
    touched-Keeps :
        (id : ℕ) (s t v : MassStore M O fs)
        → Reserved M O fs e s (ok id, t)
        → Touches M O fs id t v
        → IsNumbered s
        → IsNumbered v × Keeps s v
    touched-Keeps id s t v (took, next, same_objects, same_files) h n = (
      λ j present. elim (Bool-cases (id == j)) [
        | inl q ↦ omega (arith, (==_iff id j).0 q, h.counts, next)
        | inr q ↦
            let ne : id ≢ j = λ r. absurd (cc (q, (==_iff id j).1 r)) in
            let old = n j (λ r. present (h.entries j ne ∙ (entry-same j ∙ r))) in
            omega (arith, old, h.counts, next, took)
      ],
      λ j present.
          let lt = n j present in
          let ne : id ≢ j = λ r. absurd (omega (arith, r, lt, took)) in
          (h.entries j ne ∙ entry-same j, h.payloads j ne ∙ payload-same j),
    )
      where
        entry-same : (j : ℕ) → entry M O fs t j ≡ entry M O fs s j
        entry-same j = ap (λ (o : Option O.State). O.lookup (or_empty O o) j) same_objects

        payload-same : (j : ℕ) → payload M O fs t j ≡ payload M O fs s j
        payload-same j = ap (λ (o : fs.State). fs.contents o (objects j)) same_files

    put_after :
        (label : Text) (bytes : List ℕ) (s : MassStore M O fs)
        (p : Result MassError ℕ × MassStore M O fs)
        → Reserved M O fs e s p
        → IsNumbered s
        → let after =
            andthen (λ id. put_as M O fs e id (encode_record u (length bytes) label) bytes) p in
          IsNumbered after.1 × Keeps s after.1
    put_after label bytes s (ok id, t) h n =
        touched-Keeps id s t _ h
          (put_as-Touches M O fs e id (encode_record u (length bytes) label) bytes t) n
    put_after label bytes s (err x, t) h n =
        subst (λ (v : MassStore M O fs). IsNumbered v × Keeps s v) (sym h)
          (n, λ j present. (refl, refl))

    put-Keeps :
        (label : Text) (bytes : List ℕ) (s : MassStore M O fs)
        → IsNumbered s
        → IsNumbered (put M O fs e u label bytes s).1 × Keeps s (put M O fs e u label bytes s).1
    unfolding put
    put-Keeps label bytes s n = elim (Bool-cases (not (contains label 0))) [
      | inl good ↦
          rw good
            (put_after label bytes s (reserve_id M O fs e s) (reserve_id-Reserved M O fs e s) n)
      | inr bad ↦ rw bad (n, λ j present. (refl, refl))
    ]

  module _ (u : Utf8) where
    -- Any number of calls of `put`, whatever redb granted to each and whatever came of it.
    pub data Puts (s : MassStore M O fs) : MassStore M O fs → Type 0 where
      start : Puts s s
      next :
          {t : MassStore M O fs}
          → Puts s t
          → (e : MassEngine M O fs) (label : Text) (bytes : List ℕ)
          → Puts s (put M O fs e u label bytes t).1

    pub Puts-Keeps : {s t : MassStore M O fs} → Puts s t → IsNumbered s → IsNumbered t × Keeps s t
    Puts-Keeps start n = (n, λ j present. (refl, refl))
    Puts-Keeps {s} (next {t} before e label bytes) n =
        let (numbered, kept) = Puts-Keeps before n in
        let (numbered', kept') = put-Keeps e u label bytes t numbered in
        (numbered', Keeps-trans s t (put M O fs e u label bytes t).1 kept kept')

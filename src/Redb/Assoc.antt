-- ===== src/Redb/Assoc.antt =====
-- A table of redb's behaviour as an association list, on which no call fails: it shows that the
-- laws of `Table` can be met, and runs the models on concrete inputs.
use mathlib.Core.Path.{subst}
use trueos_picasso.Prelude.{
  ◌≡◌, refl, ap, sym, ◌≢◌, ◌↔◌, inl, inr, Bool, true, Option, none, some, List, [], ◌∷◌, arith,
  if◌then◌else◌, Bool-cases,
}
use trueos_picasso.Redb.{In, Table, IsReliable}

opened : {A : Type 0} {a b : A} → some a ≡ some b → a ≡ b
opened h = cc

module _ {K V : Type 0} (same : K → K → Bool)
    (same_iff : (a b : K) → (same a b ≡ true) ↔ (a ≡ b)) where
  abbrev find : List (K × V) → K → Option V
  find [] k = none
  find ((j, v) ∷ m) k = if same j k then some v else find m k

  abbrev without : List (K × V) → K → List (K × V)
  without [] k = []
  without ((j, v) ∷ m) k = let rest = without m k in if same j k then rest else (j, v) ∷ rest

  abbrev keys : List (K × V) → List K
  keys [] = []
  keys ((j, v) ∷ m) = j ∷ keys m

  find-without : (m : List (K × V)) (k : K) → find (without m k) k ≡ none
  find-without [] k = refl
  find-without ((j, v) ∷ m) k = ground (arith, find-without m k)

  find-without_ne : (m : List (K × V)) (k j : K) → k ≢ j → find (without m k) j ≡ find m j
  find-without_ne [] k j ne = refl
  find-without_ne ((i, v) ∷ m) k j ne =
      ground (arith, find-without_ne m k j ne, same_iff i k, same_iff i j)

  keys-find : (m : List (K × V)) (k : K) → In k (keys m) ↔ (find m k ≢ none)
  keys-find [] k = (λ h. absurd h, λ ne. absurd (ne refl))
  keys-find ((j, v) ∷ m) k = elim (Bool-cases (same j k)) [
    | inl e ↦ rw e (λ _. cc, λ _. inl ((same_iff j k).0 e))
    | inr e ↦ rw e (
      λ h. elim h [ inl q ↦ cc (e, (same_iff j k).1 q) | inr r ↦ (keys-find m k).0 r ],
      λ ne. inr ((keys-find m k).1 ne),
    )
  ]

  find-insert_self : (s : List (K × V)) (k : K) (v : V) → find ((k, v) ∷ without s k) k ≡ some v
  find-insert_self s k v = rw ((same_iff k k).1 refl) refl

  find-insert_ne :
      (s : List (K × V)) (k j : K) (v : V) → k ≢ j → find ((k, v) ∷ without s k) j ≡ find s j
  find-insert_ne s k j v ne = ground (arith, same_iff k j, find-without_ne s k j ne)

  pub get-eq_law :
      (s : List (K × V)) (k : K) {o : Option V} → some (find s k) ≡ some o → o ≡ find s k
  get-eq_law s k h = cc

  pub insert_self_law :
      (s : List (K × V)) (k : K) (v : V) {s' : List (K × V)}
      → some ((k, v) ∷ without s k) ≡ some s'
      → find s' k ≡ some v
  insert_self_law s k v h = subst (λ x. find x k ≡ some v) (opened h) (find-insert_self s k v)

  pub insert_ne_law :
      (s : List (K × V)) (k : K) (v : V) {s' : List (K × V)}
      → some ((k, v) ∷ without s k) ≡ some s'
      → (j : K) → k ≢ j
      → find s' j ≡ find s j
  insert_ne_law s k v h j ne =
      subst (λ x. find x j ≡ find s j) (opened h) (find-insert_ne s k j v ne)

  pub remove-eq_law :
      (s : List (K × V)) (k : K) {o : Option V} {s' : List (K × V)}
      → ◌≡◌ {A = Option (Option V × List (K × V))} (some (find s k, without s k)) (some (o, s'))
      → o ≡ find s k
  remove-eq_law s k h = ap (λ (p : Option V × List (K × V)). p.0) (sym (opened h))

  pub remove_self_law :
      (s : List (K × V)) (k : K) {o : Option V} {s' : List (K × V)}
      → ◌≡◌ {A = Option (Option V × List (K × V))} (some (find s k, without s k)) (some (o, s'))
      → find s' k ≡ none
  remove_self_law s k h =
      subst (λ (p : Option V × List (K × V)). find p.1 k ≡ none) (opened h) (find-without s k)

  pub remove_ne_law :
      (s : List (K × V)) (k : K) {o : Option V} {s' : List (K × V)}
      → ◌≡◌ {A = Option (Option V × List (K × V))} (some (find s k, without s k)) (some (o, s'))
      → (j : K) → k ≢ j
      → find s' j ≡ find s j
  remove_ne_law s k h j ne =
      subst (λ (p : Option V × List (K × V)). find p.1 j ≡ find s j) (opened h)
        (find-without_ne s k j ne)

  pub iter-In_law :
      (s : List (K × V)) {ks : List K}
      → some (keys s) ≡ some ks
      → (k : K) → In k ks ↔ (find s k ≢ none)
  iter-In_law s h k = subst (λ x. In k x ↔ (find s k ≢ none)) (opened h) (keys-find s k)

  abbrev pub assoc_table : Table K V
  assoc_table = record {
    State = List (K × V);
    empty = [];
    lookup = find;
    get = λ s k. some (find s k);
    insert = λ s k v. some ((k, v) ∷ without s k);
    remove = λ s k. some (find s k, without s k);
    iter = λ s. some (keys s);
    lookup-empty = λ k. refl;
    get-eq = get-eq_law;
    insert_self = insert_self_law;
    insert_ne = insert_ne_law;
    remove-eq = remove-eq_law;
    remove_self = remove_self_law;
    remove_ne = remove_ne_law;
    iter_in = iter-In_law;
  }

  pub assoc_table-IsReliable : IsReliable assoc_table
  assoc_table-IsReliable = record {
    get_total = λ s k. refl;
    insert_total = λ s k v. ((k, v) ∷ without s k, refl);
    remove_total = λ s k. (without s k, refl);
    iter_total = λ s. (keys s, refl);
  }

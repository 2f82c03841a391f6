-- ===== src/Redb.antt =====
-- What the program relies on of redb, a key-value store that it does not implement.
--
-- A table is a parameter: an abstract state with the map that it holds, `lookup`, and the calls
-- `get`, `insert`, `remove` and `iter`, each of which may fail (`none`). The laws are redb's
-- documented behaviour of a call that succeeds. `IsReliable` says that calls do succeed.
pub mod Chunked
pub mod ReadBack
pub mod Assoc
use trueos_picasso.Prelude.{ℕ, ◌≡◌, ◌≢◌, ◌↔◌, ◌⊎◌, Option, none, some, List, [], ◌∷◌}

abbrev pub In : {K : Type 0} → K → List K → Type 0
In k [] = ⊥
In k (x ∷ xs) = (x ≡ k) ⊎ In k xs

pub record Table (K V : Type 0) : Type 1 where
  pub State : Type 0
  pub empty : State
  pub lookup : State → K → Option V
  pub get : State → K → Option (Option V)
  pub insert : State → K → V → Option State
  pub remove : State → K → Option (Option V × State)
  pub iter : State → Option (List K)
  pub lookup-empty : (k : K) → lookup empty k ≡ none
  pub get-eq : (s : State) (k : K) {o : Option V} → get s k ≡ some o → o ≡ lookup s k
  pub insert_self :
      (s : State) (k : K) (v : V) {s' : State} → insert s k v ≡ some s' → lookup s' k ≡ some v
  pub insert_ne :
      (s : State) (k : K) (v : V) {s' : State}
      → insert s k v ≡ some s'
      → (j : K) → k ≢ j
      → lookup s' j ≡ lookup s j
  pub remove-eq :
      (s : State) (k : K) {o : Option V} {s' : State} → remove s k ≡ some (o, s') → o ≡ lookup s k
  pub remove_self :
      (s : State) (k : K) {o : Option V} {s' : State}
      → remove s k ≡ some (o, s')
      → lookup s' k ≡ none
  pub remove_ne :
      (s : State) (k : K) {o : Option V} {s' : State}
      → remove s k ≡ some (o, s')
      → (j : K) → k ≢ j
      → lookup s' j ≡ lookup s j
  pub iter_in :
      (s : State) {ks : List K} → iter s ≡ some ks → (k : K) → In k ks ↔ (lookup s k ≢ none)

-- No call of the table fails.
pub record IsReliable {K V : Type 0} (T : Table K V) : Type 0 where
  pub get_total : (s : T.State) (k : K) → T.get s k ≡ some (T.lookup s k)
  pub insert_total : (s : T.State) (k : K) (v : V) → (s' : T.State) × (T.insert s k v ≡ some s')
  pub remove_total :
      (s : T.State) (k : K) → (s' : T.State) × (T.remove s k ≡ some (T.lookup s k, s'))
  pub iter_total : (s : T.State) → (ks : List K) × (T.iter s ≡ some ks)

-- Every read of this state of the table succeeds.
abbrev pub IsReadable : {K V : Type 0} (T : Table K V) → T.State → Type 0
IsReadable {K} T s = (k : K) → T.get s k ≡ some (T.lookup s k)

-- What a write transaction finds in a table: `open_table` creates one that is not there.
abbrev pub or_empty : {K V : Type 0} (T : Table K V) → Option T.State → T.State
or_empty T none = T.empty
or_empty T (some s) = s

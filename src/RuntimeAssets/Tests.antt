-- ===== src/RuntimeAssets/Tests.antt =====
-- Runs of the models of src/runtime_assets.rs on tables that are association lists.
pub mod Images
pub mod Owners
use Prim.Native.String.{String}
use text.Mathlib.Text.{◌==◌ as str_eq}
use text.Mathlib.TextEquality.{eq_iff}
use trueos_picasso.Prelude.{
  ℕ, ◌≡◌, ◌≢◌, ◌↔◌, refl, Bool, true, false, Option, none, some, List, [], ◌∷◌, ◌==◌, ◌&&◌, ==_iff,
  arith,
}
use trueos_picasso.Prelude.Result.{ok, err}
use trueos_picasso.Redb.{In, Table}
use trueos_picasso.Redb.Assoc.{assoc_table, assoc_table-IsReliable}
use trueos_picasso.RuntimeAssets.Database.{
  PicassoError, Engine, RuntimeAssetDatabase, insert, remove_embedded_asset, get,
  embedded_asset_names,
}
use trueos_picasso.RuntimeAssets.View.{Represents}
use trueos_picasso.RuntimeAssets.RoundTrip.{with_asset}
use trueos_picasso.RuntimeAssets.Lookup.{IsGranting, get-Represents}
use trueos_picasso.RuntimeAssets.Refine.{insert_refines, remove_refines, get-insert, names_refine}

abbrev pub same_key : String × ℕ → String × ℕ → Bool
same_key a b = str_eq a.0 b.0 && (a.1 == b.1)

pub same_key_iff : (a b : String × ℕ) → (same_key a b ≡ true) ↔ (a ≡ b)
same_key_iff a b = ground (arith, eq_iff a.0 b.0, ==_iff a.1 b.1)

abbrev pub Lengths : Table String ℕ
Lengths = assoc_table str_eq eq_iff

abbrev pub Chunks : Table (String × ℕ) (List ℕ)
Chunks = assoc_table same_key same_key_iff

abbrev pub engine : Engine Lengths Chunks
engine = record {
  begins_read = λ _. true;
  begins_write = λ _. true;
  opens_lengths = λ _. true;
  opens_chunks = λ _. true;
  commits = λ _. true;
  reserves = λ _. true;
}

pub engine-IsGranting : IsGranting Lengths Chunks engine
engine-IsGranting = record {
  begins_read = λ _. refl;
  begins_write = λ _. refl;
  opens_lengths = λ _. refl;
  opens_chunks = λ _. refl;
  commits = λ _. refl;
  reserves = λ _. refl;
}

abbrev pub owner : RuntimeAssetDatabase Lengths Chunks
owner = record { database = record { lengths = some []; chunks = some [] }; read_only = false }

abbrev pub nothing : String → Option (List ℕ)
nothing _ = none

pub owner-Represents : Represents Lengths Chunks owner.database nothing
owner-Represents = record { paired = λ _. ([], refl); holds = λ name. (refl, λ i. refl) }

abbrev pub tree : String
tree = "tree"

tree_ne : tree ≢ ""
tree_ne e = ground (arith, e, eq_iff tree "")

get-insert_example :
    ((insert Lengths Chunks engine tree (1 ∷ 2 ∷ []) owner).0 ≡ ok tt)
    × (get Lengths Chunks engine tree (insert Lengths Chunks engine tree (1 ∷ 2 ∷ []) owner).1
        ≡ ok (some (1 ∷ 2 ∷ [])))
    × ((other : String)
        → other ≢ ""
        → tree ≢ other
        → get Lengths Chunks engine other (insert Lengths Chunks engine tree (1 ∷ 2 ∷ []) owner).1
          ≡ get Lengths Chunks engine other owner)
get-insert_example =
    get-insert Lengths Chunks (assoc_table-IsReliable str_eq eq_iff)
      (assoc_table-IsReliable same_key same_key_iff) engine engine-IsGranting tree (1 ∷ 2 ∷ [])
      owner nothing owner-Represents refl tree_ne

abbrev pub stored : RuntimeAssetDatabase Lengths Chunks
stored = (insert Lengths Chunks engine tree (1 ∷ 2 ∷ []) owner).1

insert_refines_example :
    (insert Lengths Chunks engine tree (1 ∷ 2 ∷ []) owner ≡ (ok tt, stored)
      → (owner.read_only ≡ false)
        × (tree ≢ "")
        × Represents Lengths Chunks stored.database
            (with_asset Lengths Chunks nothing tree (some (1 ∷ 2 ∷ []))))
    × ((x : PicassoError)
        → insert Lengths Chunks engine tree (1 ∷ 2 ∷ []) owner ≡ (err x, stored)
        → owner ≡ stored)
insert_refines_example =
    insert_refines Lengths Chunks engine tree owner (1 ∷ 2 ∷ []) nothing owner-Represents

abbrev removed : RuntimeAssetDatabase Lengths Chunks
removed = (remove_embedded_asset Lengths Chunks engine tree owner).1

remove_refines_example :
    (remove_embedded_asset Lengths Chunks engine tree owner ≡ (ok tt, removed)
      → (owner.read_only ≡ false)
        × (tree ≢ "")
        × Represents Lengths Chunks removed.database (with_asset Lengths Chunks nothing tree none))
    × ((x : PicassoError)
        → remove_embedded_asset Lengths Chunks engine tree owner ≡ (err x, removed)
        → owner ≡ removed)
remove_refines_example = remove_refines Lengths Chunks engine tree owner nothing owner-Represents

get-Represents_example : get Lengths Chunks engine tree owner ≡ ok none
get-Represents_example =
    get-Represents Lengths Chunks engine owner nothing tree (assoc_table-IsReliable str_eq eq_iff)
      (assoc_table-IsReliable same_key same_key_iff) engine-IsGranting owner-Represents tree_ne

names_run : embedded_asset_names Lengths Chunks engine owner ≡ ok []
unfolding embedded_asset_names
names_run = refl

names_refine_example : In tree [] ↔ (nothing tree ≢ none)
names_refine_example =
    names_refine Lengths Chunks engine owner nothing owner-Represents names_run tree

-- ===== src/RuntimeAssets/Tests/Owners.antt =====
-- Runs of the owner of src/runtime_assets.rs, with a redb that closes with an image of one byte.
use Prim.Native.String.{String}
use trueos_picasso.Prelude.{
  ℕ, ◌≡◌, ◌≢◌, refl, true, false, Option, none, some, List, [], ◌∷◌, arith,
}
use trueos_picasso.Prelude.Result.{ok, err}
use trueos_picasso.Redb.Assoc.{assoc_table-IsReliable}
use text.Mathlib.Text.{◌==◌ as str_eq}
use text.Mathlib.TextEquality.{eq_iff}
use trueos_picasso.Redb.Chunked.{chunks, insert_chunks, remove_chunks}
use trueos_picasso.RuntimeAssets.Backend.{RamImageBackend}
use trueos_picasso.RuntimeAssets.Database.{storage, Tables, insert}
use trueos_picasso.RuntimeAssets.View.{Represents}
use trueos_picasso.RuntimeAssets.RoundTrip.{with_asset}
use trueos_picasso.RuntimeAssets.Refine.{insert_refines}
use trueos_picasso.RuntimeAssets.Owner.{
  Redb, Picasso, new, from_image, into_image, fork_runtime_database,
}
use trueos_picasso.RuntimeAssets.Owner.Reopen.{IsReopening, IsServing, from_image-into_image}
use trueos_picasso.RuntimeAssets.Tests.{
  same_key, same_key_iff, Lengths, Chunks, engine, engine-IsGranting, owner, nothing,
  owner-Represents, tree, stored,
}

abbrev opened : List ℕ → Tables Lengths Chunks
opened [] = record { lengths = none; chunks = none }
opened (_ ∷ _) = stored.database

abbrev one_byte : RamImageBackend → RamImageBackend
one_byte b = record b { image = 1 ∷ [] }

abbrev closing : Redb Lengths Chunks
closing = record {
  create = λ b. some (opened b.image, one_byte b);
  write_back = λ _ _ b. b;
  compact = λ _ b. some b;
  close = λ _. one_byte;
  releases = λ _. true;
}

abbrev ingested : Picasso Lengths Chunks
ingested = record { assets = stored; image = record { image = 1 ∷ []; growable = true } }

abbrev one_tree : String → Option (List ℕ)
one_tree = with_asset Lengths Chunks nothing tree (some (1 ∷ 2 ∷ []))

stored_run : insert Lengths Chunks engine tree (1 ∷ 2 ∷ []) owner ≡ (ok tt, stored)
unfolding insert insert_chunks chunks remove_chunks
stored_run = refl

stored-Represents : Represents Lengths Chunks stored.database one_tree
stored-Represents =
    ((insert_refines Lengths Chunks engine tree owner (1 ∷ 2 ∷ []) nothing owner-Represents).0
      stored_run).2

closing-IsReopening : IsReopening Lengths Chunks closing stored.database
closing-IsReopening = record {
  compacts = λ b. (b, refl);
  releases = refl;
  not_empty = λ b. omega arith;
  reopens = λ b growable. (record { image = 1 ∷ []; growable = growable }, refl);
}

-- A new owner has no tables yet, and a fork of the ingested one has its asset.
new_run :
    new Lengths Chunks closing engine
    ≡ ok (record {
      assets = record { database = opened []; read_only = false };
      image = record { image = 1 ∷ []; growable = true };
    })
unfolding new
new_run = refl

fork_run : fork_runtime_database Lengths Chunks closing engine ingested ≡ ok ingested
unfolding fork_runtime_database insert insert_chunks chunks remove_chunks
fork_run = refl

from_image-into_image_example :
    (image : List ℕ) × (into_image Lengths Chunks closing engine ingested ≡ ok image)
    × (stored.database.lengths ≢ none
        → (p' : Picasso Lengths Chunks) × (from_image Lengths Chunks closing engine image ≡ ok p')
          × IsServing Lengths Chunks closing engine p' one_tree)
    × (stored.database.lengths ≡ none
        → from_image Lengths Chunks closing engine image ≡ err storage)
unfolding insert insert_chunks chunks remove_chunks
from_image-into_image_example =
    from_image-into_image Lengths Chunks closing engine ingested closing-IsReopening one_tree
      (assoc_table-IsReliable str_eq eq_iff) (assoc_table-IsReliable same_key same_key_iff)
      engine-IsGranting stored-Represents refl

-- ===== src/Library.antt =====
-- `glb_library` of src/lib.rs: the chunks of a GLB file under the id of its asset.
--
-- redb's table and calls and gltf's `Glb::from_slice` are parameters. The program's error is a box
-- of any error; here it is the call that failed.
pub mod Keys
pub mod Store
mod Tests
use trueos_picasso.Prelude.{
  ℕ, Bool, true, false, not, ◌&&◌, Option, none, some, List, [], ◌∷◌, ◌++◌, ◌==◌, if◌then◌else◌,
  length,
}
use trueos_picasso.Prelude.Result.{Result, ok, err, guard, ok_or, ◌>>=◌, ◌>>◌}
use trueos_picasso.Redb.{Table, or_empty}
use trueos_picasso.Text.{Text, codes, is_whitespace, contains}

pub data LibraryError : Type 0 where
  empty_asset_id nul_in_asset_id invalid_glb transaction table storage commit : LibraryError

pub record ImportStats : Type 0 where
  pub asset_id : Text
  pub source_bytes : ℕ
  pub json_bytes : ℕ
  pub bin_bytes : ℕ

-- `trim_start_matches` and `trim_end_matches`
abbrev pub is_nil : Text → Bool
is_nil [] = true
is_nil (c ∷ s) = false

unfoldable pub trim_start : (ℕ → Bool) → Text → Text
trim_start p [] = []
trim_start p (c ∷ s) = let rest = trim_start p s in if p c then rest else c ∷ s

unfoldable pub trim_end : (ℕ → Bool) → Text → Text
trim_end p [] = []
trim_end p (c ∷ s) = let rest = trim_end p s in if p c && is_nil rest then [] else c ∷ rest

-- `trim()` and `trim_matches('/')`
unfoldable pub trim_both : (ℕ → Bool) → Text → Text
trim_both p s = trim_end p (trim_start p s)

unfoldable pub normalize_asset_id : Text → Result LibraryError Text
normalize_asset_id asset_id = do
  let id = trim_both (λ c. c == b'/') (trim_both is_whitespace asset_id)
  guard (not (is_nil id)) empty_asset_id
  guard (not (contains id 0)) nul_in_asset_id
  ok id

-- The three parts of an asset.
pub data Part : Type 0 where
  source json buffer : Part

abbrev pub part_name : Part → Text
part_name source = codes "source.glb"
part_name json = codes "gltf.json"
part_name buffer = codes "buffer.bin"

-- `format!("{asset_id}/{part}")`
unfoldable pub key : (asset_id : Text) → Part → Text
key asset_id part = asset_id ++ (codes "/" ++ part_name part)

-- The chunks that `Glb::from_slice` finds.
pub record Glb : Type 0 where
  pub json : List ℕ
  pub bin : Option (List ℕ)

-- `bin.map_or(0, |bytes| bytes.len())`
abbrev pub bin_length : Option (List ℕ) → ℕ
bin_length none = 0
bin_length (some bytes) = length bytes

module _ (T : Table Text (List ℕ)) where
  -- Which calls redb grants, on the committed table or on none.
  pub record Engine : Type 0 where
    pub begins_read : Option T.State → Bool
    pub begins_write : Option T.State → Bool
    pub opens : Option T.State → Bool
    pub commits : Option T.State → Bool

  -- The BIN chunk is stored, or what an older import left is removed.
  unfoldable pub put_bin :
      (asset_id : Text) → Option (List ℕ) → T.State → Result LibraryError T.State
  put_bin asset_id none s = do p ← ok_or (T.remove s (key asset_id buffer)) storage; ok p.1
  put_bin asset_id (some bytes) s = ok_or (T.insert s (key asset_id buffer) bytes) storage

  module _ (e : Engine) (from_slice : List ℕ → Option Glb) where
    unfoldable pub dump_txn :
        (asset_id : Text) (glb_bytes : List ℕ)
        → Option T.State
        → Result LibraryError (ImportStats × Option T.State)
    dump_txn asset_id glb_bytes db = do
      id ← normalize_asset_id asset_id
      glb ← ok_or (from_slice glb_bytes) invalid_glb
      guard (e.begins_write db) transaction
      guard (e.opens db) table
      s₁ ← ok_or (T.insert (or_empty T db) (key id source) glb_bytes) storage
      s₂ ← ok_or (T.insert s₁ (key id json) glb.json) storage
      s₃ ← put_bin id glb.bin s₂
      guard (e.commits (some s₃)) commit
      ok (
        record {
          asset_id = id;
          source_bytes = length glb_bytes;
          json_bytes = length glb.json;
          bin_bytes = bin_length glb.bin;
        },
        some s₃,
      )

    -- A transaction that fails leaves the table as it was.
    abbrev pub settle :
        Option T.State
        → Result LibraryError (ImportStats × Option T.State)
        → Result LibraryError ImportStats × Option T.State
    settle db (ok p) = (ok p.0, p.1)
    settle db (err x) = (err x, db)

    unfoldable pub dump_glb_bytes :
        (asset_id : Text) (glb_bytes : List ℕ)
        → Option T.State
        → Result LibraryError ImportStats × Option T.State
    dump_glb_bytes asset_id glb_bytes db = settle db (dump_txn asset_id glb_bytes db)

    -- The part of `load_part` on the table, which may not exist.
    unfoldable pub load_from :
        (id : Text) → Part → (db : Option T.State) → Result LibraryError (Option (List ℕ))
    load_from id part none = ok none
    load_from id part (some s) = do
      guard (e.opens (some s)) table
      ok_or (T.get s (key id part)) storage

    -- `load_glb`, `load_json_chunk` and `load_bin_chunk`, by the part that they load
    unfoldable pub load_part :
        (asset_id : Text) → Part → (db : Option T.State) → Result LibraryError (Option (List ℕ))
    load_part asset_id part db = do
      id ← normalize_asset_id asset_id
      guard (e.begins_read db) transaction
      load_from id part db

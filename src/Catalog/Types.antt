-- ===== src/Catalog/Types.antt =====
-- The data of src/glTFredb.rs: errors, records, the tables and the calls of redb and serde.
--
-- All six tables are maps from texts to bytes, so one `Table` of redb stands for their behaviour.
-- The values of redb's and serde's own error types are left out of `Error`.
use Prim.Native.String.{String}
use trueos_picasso.Prelude.{ℕ, ◌*◌, ◌≡◌, Bool, true, false, ◌&&◌, Option, some, List, ◌==◌}
use trueos_picasso.Prelude.Result.{Result, ok, err, ok_or}
use trueos_picasso.Redb.{Table}
use trueos_picasso.Text.{Text, text_eq}

pub data Error : Type 0 where
  transaction table storage commit json : Error
  unknown_revision : ℕ → Error
  unknown_record : Text → Error
  invalid_tracking_state : Error
  invalid_derived : String → Error
  derived_conflict : Text → Error
  gltf data_uri : Error
  missing_buffer : Text → Error
  buffer_length : (index actual declared : ℕ) → Error

-- `CHUNK`
abbrev pub chunk_size : ℕ
chunk_size = 64 * 1024

pub data RevisionState : Type 0 where
  staging complete : RevisionState

pub record Tracking : Type 0 where
  pub included : Bool
  pub fully_respected : Bool
  pub tested : Bool

-- `Tracking::default()`
abbrev pub default_tracking : Tracking
default_tracking = record { included = false; fully_respected = false; tested = false }

pub record Revision : Type 0 where
  pub encoding : ℕ
  pub id : ℕ
  pub asset_id : Text
  pub state : RevisionState
  pub source_blob : Text

pub record DerivedArtifact : Type 0 where
  pub source_revision : ℕ
  pub name : Text
  pub provenance : Text
  pub bytes : List ℕ

pub record DerivedRecord : Type 0 where
  pub encoding : ℕ
  pub source_revision : ℕ
  pub name : Text
  pub provenance : Text
  pub byte_length : ℕ

-- `==` on `DerivedRecord`
unfoldable pub record_eq : DerivedRecord → DerivedRecord → Bool
record_eq a b =
    (a.encoding == b.encoding)
    && (a.source_revision == b.source_revision)
    && text_eq a.name b.name
    && text_eq a.provenance b.provenance
    && (a.byte_length == b.byte_length)

-- serde_json on one type.
pub record Codec (A : Type 0) : Type 0 where
  pub to_vec : A → Option (List ℕ)
  pub from_slice : List ℕ → Option A

-- What it writes, it reads back, as for types of numbers, strings and options. A float that is not
-- finite is written as null, so records with floats are not exact.
pub record IsExact {A : Type 0} (c : Codec A) : Type 0 where
  pub from_slice-to_vec :
      (a : A) {bytes : List ℕ} → c.to_vec a ≡ some bytes → c.from_slice bytes ≡ some a

pub record Codecs : Type 0 where
  pub tracking : Codec Tracking
  pub revision : Codec Revision
  pub derived : Codec DerivedRecord
  pub tracking_exact : IsExact tracking
  pub revision_exact : IsExact revision
  pub derived_exact : IsExact derived

abbrev pub encode : {A : Type 0} → Codec A → A → Result Error (List ℕ)
encode c a = ok_or (c.to_vec a) json

abbrev pub decode : {A : Type 0} → Codec A → List ℕ → Result Error A
decode c bytes = ok_or (c.from_slice bytes) json

pub data TableName : Type 0 where
  meta records tracking blobs derived derived_blobs : TableName

module _ (T : Table Text (List ℕ)) where
  -- The committed tables; `none` is a table that no transaction has created.
  pub record Store : Type 0 where
    pub meta : Option T.State
    pub records : Option T.State
    pub blobs : Option T.State
    pub tracking : Option T.State
    pub derived : Option T.State
    pub derived_blobs : Option T.State

  -- Which calls redb grants.
  pub record Engine : Type 0 where
    pub begins_read : Store → Bool
    pub begins_write : Store → Bool
    pub opens : TableName → Store → Bool
    pub commits : Store → Bool

  pub record IsGranting (e : Engine) : Type 0 where
    pub begins_read : (d : Store) → e.begins_read d ≡ true
    pub begins_write : (d : Store) → e.begins_write d ≡ true
    pub opens : (n : TableName) (d : Store) → e.opens n d ≡ true
    pub commits : (d : Store) → e.commits d ≡ true

  -- A transaction that fails is dropped, and the store stays as it was.
  abbrev pub settle : {A : Type 0} → Store → Result Error (A × Store) → Result Error A × Store
  settle d (ok p) = (ok p.0, p.1)
  settle d (err x) = (err x, d)

  pub settle-ok :
      {A : Type 0} (d : Store) (r : Result Error (A × Store)) {a : A} {d' : Store}
      → settle d r ≡ (ok a, d')
      → r ≡ ok (a, d')
  settle-ok d (ok p) h = cc
  settle-ok d (err x) h = absurd (cc)

  pub settle-err :
      {A : Type 0} (d : Store) (r : Result Error (A × Store)) {x : Error} {d' : Store}
      → settle d r ≡ (err x, d')
      → d ≡ d'
  settle-err d (ok p) h = absurd (cc)
  settle-err d (err x) h = cc

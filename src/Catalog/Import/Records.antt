-- ===== src/Catalog/Import/Records.antt =====
-- The normalized records of src/glTFredb.rs, and their codecs.
use trueos_picasso.Prelude.{ℕ, Option, List}
use trueos_picasso.Text.{Text}
use trueos_picasso.Camera.{Projection}
use trueos_picasso.Catalog.Types.{Codec, IsExact}

pub record Asset : Type 0 where
  pub encoding : ℕ
  pub id : Text
  pub latest_revision : ℕ

pub record Scene : Type 0 where
  pub encoding : ℕ
  pub id : Text
  pub name : Option Text

pub record Node (F : Type 0) : Type 0 where
  pub encoding : ℕ
  pub id : Text
  pub name : Option Text
  pub mesh : Option Text
  pub camera : Option Text
  pub children : List Text
  pub matrix : List (List F)

pub record Camera (F : Type 0) : Type 0 where
  pub encoding : ℕ
  pub id : Text
  pub name : Option Text
  pub projection : Projection F

pub record Mesh : Type 0 where
  pub encoding : ℕ
  pub id : Text
  pub name : Option Text
  pub primitives : List Text

pub record Primitive : Type 0 where
  pub encoding : ℕ
  pub id : Text
  pub attributes : List (Text × Text)
  pub indices : Option Text
  pub material : Option ℕ

pub record Accessor : Type 0 where
  pub encoding : ℕ
  pub id : Text
  pub buffer_view : Option Text
  pub offset : ℕ
  pub count : ℕ
  pub component_type : ℕ
  pub element_type : Text

pub record BufferView : Type 0 where
  pub encoding : ℕ
  pub id : Text
  pub buffer : Text
  pub offset : ℕ
  pub length : ℕ
  pub stride : Option ℕ

pub record Buffer : Type 0 where
  pub encoding : ℕ
  pub id : Text
  pub byte_length : ℕ
  pub blob : Text

-- serde's codecs of what an import writes beside the revision and the tracking.
pub record RecordCodecs (F : Type 0) : Type 0 where
  pub counter : Codec ℕ
  pub asset : Codec Asset
  pub scene : Codec Scene
  pub roots : Codec (List Text)
  pub node : Codec (Node F)
  pub camera : Codec (Camera F)
  pub mesh : Codec Mesh
  pub primitive : Codec Primitive
  pub accessor : Codec Accessor
  pub buffer_view : Codec BufferView
  pub buffer : Codec Buffer
  pub counter_exact : IsExact counter
  pub asset_exact : IsExact asset

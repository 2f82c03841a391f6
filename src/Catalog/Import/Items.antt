-- ===== src/Catalog/Import/Items.antt =====
-- The gltf crate's document as a parameter: of each item, what src/glTFredb.rs reads.
--
-- A reference to another item is its index. `element_type` is the text of the accessor's dimensions.
use trueos_picasso.Prelude.{ℕ, Option, List}
use trueos_picasso.Text.{Text}

pub data Source : Type 0 where
  bin : Source
  uri : Text → Source

pub data Lens {ℓ} (F : Type ℓ) : Type ℓ where
  perspective : (yfov znear : F) (zfar aspect_ratio : Option F) → Lens F
  orthographic : (xmag ymag znear zfar : F) → Lens F

pub record BufferDoc : Type 0 where
  pub index : ℕ
  pub source : Source
  pub length : ℕ

pub record SceneDoc : Type 0 where
  pub index : ℕ
  pub name : Option Text
  pub nodes : List ℕ

pub record NodeDoc {ℓ} (F : Type ℓ) : Type ℓ where
  pub index : ℕ
  pub name : Option Text
  pub mesh : Option ℕ
  pub camera : Option ℕ
  pub children : List ℕ
  pub matrix : List (List F)

pub record CameraDoc {ℓ} (F : Type ℓ) : Type ℓ where
  pub index : ℕ
  pub name : Option Text
  pub projection : Lens F

pub record PrimitiveDoc : Type 0 where
  pub attributes : List (Text × ℕ)
  pub indices : Option ℕ
  pub material : Option ℕ

pub record MeshDoc : Type 0 where
  pub index : ℕ
  pub name : Option Text
  pub primitives : List PrimitiveDoc

pub record AccessorDoc : Type 0 where
  pub index : ℕ
  pub view : Option ℕ
  pub offset : ℕ
  pub count : ℕ
  pub component_type : ℕ
  pub element_type : Text

pub record ViewDoc : Type 0 where
  pub index : ℕ
  pub buffer : ℕ
  pub offset : ℕ
  pub length : ℕ
  pub stride : Option ℕ

pub record Document {ℓ} (F : Type ℓ) : Type ℓ where
  pub buffers : List BufferDoc
  pub scenes : List SceneDoc
  pub nodes : List (NodeDoc F)
  pub cameras : List (CameraDoc F)
  pub meshes : List MeshDoc
  pub accessors : List AccessorDoc
  pub views : List ViewDoc

-- `gltf::Gltf`
pub record Gltf {ℓ} (F : Type ℓ) : Type ℓ where
  pub document : Document F
  pub blob : Option (List ℕ)

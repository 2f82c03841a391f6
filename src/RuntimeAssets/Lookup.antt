-- ===== src/RuntimeAssets/Lookup.antt =====
-- `RuntimeAssetDatabase::get` of src/runtime_assets.rs returns what the map holds.
use Prim.Native.String.{String}
use mathlib.Core.Path.{subst}
use text.Mathlib.TextEquality.{eq_iff}
use trueos_picasso.Prelude.{
  ℕ, ◌≡◌, ◌≢◌, refl, sym, true, Option, none, some, List, [], length, arith, Option-cases, inl, inr,
}
use trueos_picasso.Prelude.Result.{ok}
use trueos_picasso.Redb.{or_empty, Table, IsReliable}
use trueos_picasso.Redb.Chunked.{div_ceil, chunks}
use trueos_picasso.Redb.ReadBack.{read_chunks-Stored}
use trueos_picasso.RuntimeAssets.Database.{
  storage, chunk_bytes, validate_name, chunk_key, Tables, Engine, RuntimeAssetDatabase, get_bytes,
  get_length, get,
}
use trueos_picasso.RuntimeAssets.View.{HoldsIn, Represents}

pub validate_name-ok : (name : String) → name ≢ "" → validate_name name ≡ ok tt
unfolding validate_name
validate_name-ok name ne = ground (arith, eq_iff name "")

module _ (Lengths : Table String ℕ) (Chunks : Table (String × ℕ) (List ℕ)) where
  -- redb grants every call, and the allocator every buffer.
  pub record IsGranting (e : Engine Lengths Chunks) : Type 0 where
    pub begins_read : (db : Tables Lengths Chunks) → e.begins_read db ≡ true
    pub begins_write : (db : Tables Lengths Chunks) → e.begins_write db ≡ true
    pub opens_lengths : (db : Tables Lengths Chunks) → e.opens_lengths db ≡ true
    pub opens_chunks : (db : Tables Lengths Chunks) → e.opens_chunks db ≡ true
    pub commits : (db : Tables Lengths Chunks) → e.commits db ≡ true
    pub reserves : (n : ℕ) → e.reserves n ≡ true

  module _ (rel : IsReliable Lengths) (rel' : IsReliable Chunks) (e : Engine Lengths Chunks)
      (granted : IsGranting e) (name : String) (db : Tables Lengths Chunks) where
    get_bytes-HoldsIn :
        (bytes : List ℕ) (l : Lengths.State) (c : Chunks.State)
        → db.chunks ≡ some c
        → HoldsIn Lengths Chunks l c name (some bytes)
        → get_bytes Lengths Chunks e name (length bytes) db ≡ ok (some bytes)
    unfolding get_bytes chunks
    get_bytes-HoldsIn bytes l c q h = ground (
      arith,
      granted.opens_chunks db,
      granted.reserves (length bytes),
      read_chunks-Stored Chunks (chunk_key name) storage storage storage chunk_bytes (length bytes)
          0 (div_ceil (length bytes) chunk_bytes) [] bytes c (rel'.get_total c) (omega arith)
          (omega arith) refl h.1,
    )

    get_length-some :
        (o : Option (List ℕ)) (l : Lengths.State) (c : Chunks.State)
        → db.chunks ≡ some c
        → HoldsIn Lengths Chunks l c name o
        → get_length Lengths Chunks e name db (some l) ≡ ok o
    unfolding get_length
    get_length-some none l c q h = ground (arith, granted.opens_lengths db, rel.get_total l name)
    get_length-some (some bytes) l c q h =
        ground
          (arith, granted.opens_lengths db, rel.get_total l name, get_bytes-HoldsIn bytes l c q h)

    get_length-none :
        (o : Option (List ℕ)) (c : Chunks.State)
        → HoldsIn Lengths Chunks Lengths.empty c name o
        → get_length Lengths Chunks e name db none ≡ ok o
    unfolding get_length
    get_length-none none c h = refl
    get_length-none (some bytes) c h = absurd (cc (Lengths.lookup-empty name))

    get_length-Represents :
        (view : String → Option (List ℕ))
        → Represents Lengths Chunks db view
        → get_length Lengths Chunks e name db db.lengths ≡ ok (view name)
    get_length-Represents view h = elim (Option-cases db.lengths) [
      | inl q ↦ subst Reads (sym q) (
          get_length-none (view name) (or_empty Chunks db.chunks) (
            subst
              (λ x.
                HoldsIn Lengths Chunks (or_empty Lengths x) (or_empty Chunks db.chunks) name
                  (view name))
              q (h.holds name)))
      | inr (l, q) ↦
          let (c, q') = h.paired q in
          subst Reads (sym q) (
            get_length-some (view name) l c q' (
              subst (λ x. HoldsIn Lengths Chunks l (or_empty Chunks x) name (view name)) q'
                (subst
                  (λ x.
                    HoldsIn Lengths Chunks (or_empty Lengths x) (or_empty Chunks db.chunks) name
                      (view name))
                  q (h.holds name))))
    ]
      where
        Reads : Option Lengths.State → Type 0
        Reads o = get_length Lengths Chunks e name db o ≡ ok (view name)

  -- With redb's calls granted, `get` of a name that is not empty returns the asset of that name in
  -- the map that the tables hold, or that there is none.
  pub get-Represents :
      (e : Engine Lengths Chunks) (d : RuntimeAssetDatabase Lengths Chunks)
      (view : String → Option (List ℕ)) (name : String)
      → IsReliable Lengths
      → IsReliable Chunks
      → IsGranting e
      → Represents Lengths Chunks d.database view
      → name ≢ ""
      → get Lengths Chunks e name d ≡ ok (view name)
  unfolding get
  get-Represents e d view name rel rel' granted h ne = ground (
    arith,
    eq_iff name "",
    granted.begins_read d.database,
    get_length-Represents rel rel' e granted name d.database view h,
  )

-- ===== src/Catalog/Tests.antt =====
-- Runs of the models of src/glTFredb.rs on tables that are association lists.
pub mod Runs
pub mod Imports
pub mod Histories
use mathlib.Core.Path.{subst}
use trueos_picasso.Prelude.{
  ℕ, ◌≡◌, ◌≢◌, ◌↔◌, ◌⊎◌, refl, ap, Bool, true, false, Option, none, some, List, [], ◌∷◌, ◌++◌,
  arith, length, take, drop, take-append, drop-append, ◌==◌, if◌then◌else◌,
}
use trueos_picasso.Prelude.Result.{Result, ok, err}
use trueos_picasso.Redb.{Table, IsReliable, or_empty}
use trueos_picasso.Redb.Assoc.{assoc_table, assoc_table-IsReliable}
use trueos_picasso.Text.{Text, codes, text_eq, is_blank, contains, decimal}
use trueos_picasso.Redb.Chunked.{insert_chunks, chunks}
use trueos_picasso.Catalog.Reading.{revision, revision_in}
use trueos_picasso.Text.Split.{text_eq_iff}
use trueos_picasso.Catalog.Types.{
  Error, RevisionState, staging, complete, Revision, Tracking, default_tracking, DerivedRecord,
  DerivedArtifact, Codec, Codecs, Store, Engine, IsGranting,
}
use trueos_picasso.Catalog.Keys.{
  revision_key, derived_key, derived_path, chunk_path, derived_chunk-injective,
}
use trueos_picasso.Catalog.Tracking.{is_consistent, tracking_of, set_tracking, initialize_tracking}
use trueos_picasso.Catalog.Tracking.Overlay.{entry, IsConsistent}
use trueos_picasso.Catalog.Tracking.Decisions.{
  set_tracking-IsConsistent, tracking-set_tracking, initialize_tracking_lem,
}
use trueos_picasso.Catalog.Derived.{put_derived_txn, decode_found, write_new, put_derived}
use trueos_picasso.Catalog.Derived.Publish.{IsPaired}
use trueos_picasso.Catalog.Derived.History.{
  Later, now, after, sets, derived_immutable, put_derived_conflicts,
}

abbrev pub T : Table Text (List ℕ)
T = assoc_table text_eq text_eq_iff

abbrev pub bit : Bool → ℕ
bit true = 1
bit false = 0

abbrev pub pack_tracking : Tracking → Option (List ℕ)
pack_tracking t = some (bit t.included ∷ bit t.fully_respected ∷ bit t.tested ∷ [])

abbrev pub unpack_tracking : List ℕ → Option Tracking
unpack_tracking (a ∷ b ∷ d ∷ []) =
    some (record { included = a == 1; fully_respected = b == 1; tested = d == 1 })
unpack_tracking _ = none

bit-read : (b : Bool) → (bit b == 1) ≡ b
bit-read true = refl
bit-read false = refl

pub unpack-pack_tracking :
    (t : Tracking) {bytes : List ℕ} → pack_tracking t ≡ some bytes → unpack_tracking bytes ≡ some t
unpack-pack_tracking t h =
    subst (λ x. unpack_tracking x ≡ some t) (opened h)
      (rw (bit-read t.included, bit-read t.fully_respected, bit-read t.tested) refl)
  where
    opened : {a b : List ℕ} → some a ≡ some b → a ≡ b
    opened q = cc

abbrev pub state_code : RevisionState → ℕ
state_code staging = 0
state_code complete = 1

abbrev pub state_of : ℕ → RevisionState
state_of n = if n == 1 then complete else staging

abbrev pub pack_revision : Revision → List ℕ
pack_revision r =
    r.encoding ∷ r.id ∷ state_code r.state ∷ length r.asset_id ∷ (r.asset_id ++ r.source_blob)

abbrev pub unpack_revision : List ℕ → Option Revision
unpack_revision (a ∷ b ∷ s ∷ n ∷ rest) = some (record {
  encoding = a;
  id = b;
  state = state_of s;
  asset_id = take n rest;
  source_blob = drop n rest;
})
unpack_revision _ = none

pub unpack-pack_revision :
    (r : Revision) {bytes : List ℕ}
    → some (pack_revision r) ≡ some bytes
    → unpack_revision bytes ≡ some r
unpack-pack_revision r h =
    subst (λ x. unpack_revision x ≡ some r) (opened h)
      (rw
        (
          state-read r.state,
          take-append r.asset_id r.source_blob,
          drop-append r.asset_id r.source_blob,
        )
        refl)
  where
    opened : {a b : List ℕ} → some a ≡ some b → a ≡ b
    opened q = cc

    state-read : (s : RevisionState) → state_of (state_code s) ≡ s
    state-read staging = refl
    state-read complete = refl

abbrev pub pack_derived : DerivedRecord → List ℕ
pack_derived r =
    r.encoding ∷ r.source_revision ∷ r.byte_length ∷ length r.name ∷ (r.name ++ r.provenance)

abbrev pub unpack_derived : List ℕ → Option DerivedRecord
unpack_derived (a ∷ b ∷ l ∷ n ∷ rest) = some (record {
  encoding = a;
  source_revision = b;
  byte_length = l;
  name = take n rest;
  provenance = drop n rest;
})
unpack_derived _ = none

pub unpack-pack_derived :
    (r : DerivedRecord) {bytes : List ℕ}
    → some (pack_derived r) ≡ some bytes
    → unpack_derived bytes ≡ some r
unpack-pack_derived r h =
    subst (λ x. unpack_derived x ≡ some r) (opened h)
      (rw (take-append r.name r.provenance, drop-append r.name r.provenance) refl)
  where
    opened : {a b : List ℕ} → some a ≡ some b → a ≡ b
    opened q = cc

abbrev pub serde : Codecs
serde = record {
  tracking = record { to_vec = pack_tracking; from_slice = unpack_tracking };
  revision = record { to_vec = λ r. some (pack_revision r); from_slice = unpack_revision };
  derived = record { to_vec = λ r. some (pack_derived r); from_slice = unpack_derived };
  tracking_exact = record { from_slice-to_vec = unpack-pack_tracking };
  revision_exact = record { from_slice-to_vec = unpack-pack_revision };
  derived_exact = record { from_slice-to_vec = unpack-pack_derived };
}

abbrev pub engine : Engine T
engine = record {
  begins_read = λ _. true;
  begins_write = λ _. true;
  opens = λ _ _. true;
  commits = λ _. true;
}

pub engine-IsGranting : IsGranting T engine
engine-IsGranting = record {
  begins_read = λ _. refl;
  begins_write = λ _. refl;
  opens = λ _ _. refl;
  commits = λ _. refl;
}

-- A store with one complete revision.
abbrev pub seventh : Revision
seventh = record { encoding = 1; id = 7; asset_id = codes "a"; state = complete; source_blob = [] }

abbrev pub imported : Store T
imported = record {
  meta = none;
  records = some ((codes "r/7/revision", pack_revision seventh) ∷ []);
  blobs = none;
  tracking = none;
  derived = none;
  derived_blobs = none;
}

pub imported-IsPaired : IsPaired T serde imported
imported-IsPaired s q = absurd (cc)

abbrev pub put : Text → List ℕ → Store T → Result Error (Unit {0}) × Store T
put provenance bytes = put_derived T engine serde 7 (codes "x/1") provenance bytes

abbrev pub after_put : Store T
after_put = (put (codes "p") (5 ∷ 6 ∷ []) imported).1

pub put_run : put (codes "p") (5 ∷ 6 ∷ []) imported ≡ (ok tt, after_put)
unfolding put_derived derived_key is_blank contains revision revision_in text_eq revision_key
    decimal put_derived_txn decode_found write_new insert_chunks chunks
put_run = refl

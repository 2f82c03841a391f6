-- ===== src/Catalog/Reading.antt =====
-- `Store::revision` of src/glTFredb.rs, which every derived artifact depends on.
use trueos_picasso.Prelude.{ℕ, ◌≡◌, Bool, true, false, some, List, refl}
use trueos_picasso.Prelude.Result.{Result, ok, guard, ok_or, guard-ok, ok_or-ok, ◌>>=◌, ◌>>◌}
use trueos_picasso.Redb.{Table}
use trueos_picasso.Text.{Text}
use trueos_picasso.Catalog.Types.{
  Error, transaction, table, storage, unknown_revision, RevisionState, staging, complete, Revision,
  Codecs, decode, records, Store, Engine, IsGranting,
}
use trueos_picasso.Catalog.Keys.{revision_key}

-- `r.state == RevisionState::Complete`
abbrev pub is_complete : RevisionState → Bool
is_complete staging = false
is_complete complete = true

module _ (T : Table Text (List ℕ)) (e : Engine T) (c : Codecs) where
  -- What `revision` finds in the table of records.
  unfoldable pub revision_in : ℕ → T.State → Result Error Revision
  revision_in id s = do
    found ← ok_or (T.get s (revision_key id)) storage
    bytes ← ok_or found (unknown_revision id)
    r ← decode c.revision bytes
    guard (is_complete r.state) (unknown_revision id)
    ok r

  unfoldable pub revision : ℕ → Store T → Result Error Revision
  revision id d = do
    guard (e.begins_read d) transaction
    s ← ok_or d.records table
    guard (e.opens records d) table
    revision_in id s

  -- A revision that is found stands in the table of records.
  pub revision-ok :
      (id : ℕ) (d : Store T) {r : Revision}
      → revision id d ≡ ok r
      → (s : T.State) × (d.records ≡ some s) × (revision_in id s ≡ ok r)
  unfolding revision
  revision-ok id d h =
      let (_, h1) = guard-ok (e.begins_read d) transaction _ h in
      let (s, q, h2) = ok_or-ok d.records table _ h1 in
      let (_, h3) = guard-ok (e.opens records d) table _ h2 in (s, q, h3)

  -- With redb's calls granted, it is found from there.
  pub revision-granted :
      (id : ℕ) (d : Store T) {r : Revision} {s : T.State}
      → IsGranting T e
      → d.records ≡ some s
      → revision_in id s ≡ ok r
      → revision id d ≡ ok r
  unfolding revision
  revision-granted id d granted q h = rw (granted.begins_read d, granted.opens records d, q, h) refl

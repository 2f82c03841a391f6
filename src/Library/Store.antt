-- ===== src/Library/Store.antt =====
-- What `dump_glb_bytes` of src/lib.rs stores, and what the loads read of it.
use mathlib.Core.Path.{subst}
use trueos_picasso.Prelude.{
  ℕ, ◌≡◌, ◌≢◌, sym, ap, ◌∙◌, true, Option, none, some, List, length, arith,
}
use trueos_picasso.Prelude.Result.{
  Result, ok, err, guard-ok, ok_or-ok, ok_or-some, >>=-eq-ok, ok-injective,
}
use trueos_picasso.Redb.{Table, IsReliable, or_empty}
use trueos_picasso.Text.{Text}
use trueos_picasso.Library.{
  LibraryError, invalid_glb, transaction, table, storage, commit, ImportStats, normalize_asset_id,
  Part, source, json, buffer, key, Glb, bin_length, Engine, put_bin, dump_txn, settle,
  dump_glb_bytes, load_from, load_part,
}
use trueos_picasso.Library.Keys.{key-injective}

module _ (T : Table Text (List ℕ)) where
  -- The keys of the three parts are apart.
  parts_apart : (id : Text) (p q : Part) → p ≢ q → key id p ≢ key id q
  parts_apart id p q ne e = ne (key-injective id id p q e).1

  put_bin-stored :
      (id : Text) (bin : Option (List ℕ)) (s : T.State) {s' : T.State}
      → put_bin T id bin s ≡ ok s'
      → (T.lookup s' (key id buffer) ≡ bin)
        × ((k : Text) → key id buffer ≢ k → T.lookup s' k ≡ T.lookup s k)
  unfolding put_bin
  put_bin-stored id none s h =
      let (p, q, h1) = ok_or-ok (T.remove s (key id buffer)) storage _ h in
      subst
        (λ x.
          (T.lookup x (key id buffer) ≡ none)
          × ((k : Text) → key id buffer ≢ k → T.lookup x k ≡ T.lookup s k))
        (ok-injective h1) (T.remove_self s (key id buffer) q, T.remove_ne s (key id buffer) q)
  put_bin-stored id (some bytes) s h =
      let q = ok_or-some (T.insert s (key id buffer) bytes) storage h in
      (T.insert_self s (key id buffer) bytes q, T.insert_ne s (key id buffer) bytes q)

  module _ (e : Engine T) (from_slice : List ℕ → Option Glb) where
    -- What a dump that succeeds leaves in the table.
    pub record Dumped (asset_id : Text) (bytes : List ℕ) (db : Option T.State) (stats : ImportStats)
        (db' : Option T.State) : Type 0 where
      pub id : Text
      pub glb : Glb
      pub s : T.State
      pub normal : normalize_asset_id asset_id ≡ ok id
      pub parsed : from_slice bytes ≡ some glb
      pub committed : db' ≡ some s
      pub has_source : T.lookup s (key id source) ≡ some bytes
      pub has_json : T.lookup s (key id json) ≡ some glb.json
      pub has_bin : T.lookup s (key id buffer) ≡ glb.bin
      pub others :
          (k : Text) → ((p : Part) → key id p ≢ k) → T.lookup s k ≡ T.lookup (or_empty T db) k
      pub counted : stats ≡ record {
        asset_id = id;
        source_bytes = length bytes;
        json_bytes = length glb.json;
        bin_bytes = bin_length glb.bin;
      }

    txn-Dumped :
        (asset_id : Text) (bytes : List ℕ) (db : Option T.State) {stats : ImportStats}
        {db' : Option T.State}
        → dump_txn T e from_slice asset_id bytes db ≡ ok (stats, db')
        → Dumped asset_id bytes db stats db'
    unfolding dump_txn
    txn-Dumped asset_id bytes db {stats} {db'} h =
        let (id, normal, h1) = >>=-eq-ok (normalize_asset_id asset_id) _ h in
        let (glb, parsed, h2) = ok_or-ok (from_slice bytes) invalid_glb _ h1 in
        let (_, h3) = guard-ok (e.begins_write db) transaction _ h2 in
        let (_, h4) = guard-ok (e.opens db) table _ h3 in
        let (s₁, i₁, h5) = ok_or-ok (T.insert (or_empty T db) (key id source) bytes) storage _ h4 in
        let (s₂, i₂, h6) = ok_or-ok (T.insert s₁ (key id json) glb.json) storage _ h5 in
        let (s₃, i₃, h7) = >>=-eq-ok (put_bin T id glb.bin s₂) _ h6 in
        let (_, h8) = guard-ok (e.commits (some s₃)) commit _ h7 in
        let (bin, rest) = put_bin-stored id glb.bin s₂ i₃ in
        record {
          id = id;
          glb = glb;
          s = s₃;
          normal = normal;
          parsed = parsed;
          committed = ap (λ (p : ImportStats × Option T.State). p.1) (sym (ok-injective h8));
          has_source =
              rest (key id source) (parts_apart id buffer source (λ q. absurd (cc)))
              ∙ T.insert_ne s₁ (key id json) glb.json i₂ (key id source)
                  (parts_apart id json source (λ q. absurd (cc)))
              ∙ T.insert_self (or_empty T db) (key id source) bytes i₁;
          has_json =
              rest (key id json) (parts_apart id buffer json (λ q. absurd (cc)))
              ∙ T.insert_self s₁ (key id json) glb.json i₂;
          has_bin = bin;
          others = λ k apart.
              rest k (apart buffer)
              ∙ T.insert_ne s₁ (key id json) glb.json i₂ k (apart json)
              ∙ T.insert_ne (or_empty T db) (key id source) bytes i₁ k (apart source);
          counted = ap (λ (p : ImportStats × Option T.State). p.0) (sym (ok-injective h8));
        }

    pub dump-Dumped :
        (asset_id : Text) (bytes : List ℕ) (db : Option T.State) {stats : ImportStats}
        {db' : Option T.State}
        → dump_glb_bytes T e from_slice asset_id bytes db ≡ (ok stats, db')
        → Dumped asset_id bytes db stats db'
    unfolding dump_glb_bytes
    dump-Dumped asset_id bytes db {stats} {db'} h =
        txn-Dumped asset_id bytes db (settled (dump_txn T e from_slice asset_id bytes db) h)
      where
        settled :
            (r : Result LibraryError (ImportStats × Option T.State))
            → settle T e from_slice db r ≡ (ok stats, db')
            → r ≡ ok (stats, db')
        settled (ok p) q = cc
        settled (err x) q = absurd (cc)

    -- redb grants the calls of a read.
    pub record IsGranting : Type 0 where
      pub begins_read : (db : Option T.State) → e.begins_read db ≡ true
      pub opens : (db : Option T.State) → e.opens db ≡ true

    module _ (rel : IsReliable T) (granted : IsGranting) where
      load_part-normal :
          (asset_id id : Text) (part : Part) (db : Option T.State)
          → normalize_asset_id asset_id ≡ ok id
          → load_part T e from_slice asset_id part db ≡ ok (T.lookup (or_empty T db) (key id part))
      unfolding load_part load_from
      load_part-normal asset_id id part none h =
          ground (arith, h, granted.begins_read none, T.lookup-empty (key id part))
      load_part-normal asset_id id part (some s) h = ground (
        arith,
        h,
        granted.begins_read (some s),
        granted.opens (some s),
        rel.get_total s (key id part),
      )

      -- After a dump that succeeded, the loads return the bytes of the file and the two chunks that
      -- the parser found in it, none for a BIN chunk that is not there even if an older import had
      -- one, and every asset of another normalized id loads as before.
      pub load_part-dump :
          (asset_id : Text) (bytes : List ℕ) (db db' : Option T.State) (stats : ImportStats)
          → dump_glb_bytes T e from_slice asset_id bytes db ≡ (ok stats, db')
          → (load_part T e from_slice asset_id source db' ≡ ok (some bytes))
            × ((glb : Glb)
                → from_slice bytes ≡ some glb
                → (load_part T e from_slice asset_id json db' ≡ ok (some glb.json))
                  × (load_part T e from_slice asset_id buffer db' ≡ ok glb.bin))
            × ((other id : Text) (part : Part)
                → normalize_asset_id other ≡ ok id
                → normalize_asset_id asset_id ≢ ok id
                → load_part T e from_slice other part db' ≡ load_part T e from_slice other part db)
      load_part-dump asset_id bytes db db' stats ran =
          let d = dump-Dumped asset_id bytes db ran in
          (
            loads d source ∙ ap ok d.has_source,
            λ glb parsed.
                let same : d.glb ≡ glb = cc (d.parsed, parsed) in
                (
                  loads d json ∙ ap ok (d.has_json ∙ ap (λ (g : Glb). some g.json) same),
                  loads d buffer ∙ ap ok (d.has_bin ∙ ap (λ (g : Glb). g.bin) same),
                ),
            λ other id part normal apart.
                load_part-normal other id part db' normal
                ∙ ap (λ x. ok (T.lookup (or_empty T x) (key id part))) d.committed
                ∙ ap ok (
                    d.others (key id part)
                      (λ p clash. apart (d.normal ∙ ap ok (key-injective d.id id p part clash).0)))
                ∙ sym (load_part-normal other id part db normal),
          )
        where
          loads :
              (d : Dumped asset_id bytes db stats db') (part : Part)
              → load_part T e from_slice asset_id part db' ≡ ok (T.lookup d.s (key d.id part))
          loads d part =
              load_part-normal asset_id d.id part db' d.normal
              ∙ ap (λ x. ok (T.lookup (or_empty T x) (key d.id part))) d.committed

-- ===== src/Catalog/Import/Seeding.antt =====
-- `seed_tracking_for_revision` of src/glTFredb.rs: which records get an entry.
use mathlib.Core.List.{append_assoc}
use trueos_picasso.Prelude.{
  ℕ, ◌≡◌, ◌≢◌, refl, sym, ◌∙◌, true, some, none, List, [], ◌∷◌, ◌++◌, inl, inr, arith,
}
use trueos_picasso.Prelude.Result.{ok, guard-ok, ok_or-ok}
use trueos_picasso.Redb.{Table, or_empty, In}
use trueos_picasso.Text.{Text, codes}
use trueos_picasso.Catalog.Types.{
  table, storage, json, default_tracking, Codecs, records, tracking, Store, Engine,
}
use trueos_picasso.Catalog.Tracking.{insert_missing_tracking}
use trueos_picasso.Catalog.Tracking.Overlay.{Fills, insert_missing-Fills}
use trueos_picasso.Catalog.Import.Records.{RecordCodecs}
use trueos_picasso.Catalog.Import.Parsing.{strip_prefix}
use trueos_picasso.Catalog.Import.Writes.{revision_prefix}
use trueos_picasso.Catalog.Import.Frame.{IsBelow}
use trueos_picasso.Catalog.Import.{starts_with, keys_below, seed_tracking}

-- A text below a prefix starts with it, and the scan of the records finds it.
strip_prefix_append : (p s : Text) → strip_prefix p (p ++ s) ≡ some s
strip_prefix_append [] s = refl
strip_prefix_append (x ∷ p) s = ground (arith, strip_prefix_append p s)

starts_with-IsBelow :
    (r : ℕ) (k : Text) → IsBelow r k → starts_with (revision_prefix r ++ codes "/") k ≡ true
starts_with-IsBelow r k h =
    let e : k ≡ revision_prefix r ++ codes "/" ++ h.0 =
      h.1 ∙ sym (append_assoc (revision_prefix r) (codes "/") h.0) in
    rw e (ground (arith, strip_prefix_append (revision_prefix r ++ codes "/") h.0))

keys_below-In :
    (p k : Text) (keys : List Text) → In k keys → starts_with p k ≡ true → In k (keys_below p keys)
keys_below-In p k [] i h = absurd i
keys_below-In p k (j ∷ rest) (inl here) h = rw (here, h) (inl refl)
keys_below-In p k (j ∷ rest) (inr later) h = ground (arith, keys_below-In p k rest later h)

module _ {F : Type 0} (T : Table Text (List ℕ)) (e : Engine T) (c : Codecs)
    (rc : RecordCodecs F) where
  -- Every entry stays or is new with the default, and the asset and the records of the revision have one.
  pub record Seeded (id : ℕ) (asset : Text) (records old new : T.State) : Type 0 where
    pub default : List ℕ
    pub encodes : c.tracking.to_vec default_tracking ≡ some default
    pub fills : Fills T c e default old new
    pub asset_tracked : T.lookup new asset ≢ none
    pub tracked : (k : Text) → IsBelow id k → T.lookup records k ≢ none → T.lookup new k ≢ none

  pub seed_tracking-Seeded :
      (id : ℕ) (asset : Text) (d : Store T) (s : T.State) {t : ℕ × T.State}
      → seed_tracking T e c rc id asset d s ≡ ok t
      → Seeded id asset s (or_empty T d.tracking) t.1
  unfolding seed_tracking insert_missing_tracking
  seed_tracking-Seeded id asset d s {t} h =
      let (_, h1) = guard-ok (e.opens records d) table _ h in
      let (keys, found, h2) = ok_or-ok (T.iter s) storage _ h1 in
      let (_, h3) = guard-ok (e.opens tracking d) table _ h2 in
      let (default, enc, h4) = ok_or-ok (c.tracking.to_vec default_tracking) json _ h3 in
      let (fills, all) = insert_missing-Fills T c e default _ 0 (or_empty T d.tracking) h4 in
      record {
        default = default;
        encodes = enc;
        fills = fills;
        asset_tracked = all asset (inl refl);
        tracked = λ k below present. all k (
            inr (
              keys_below-In (revision_prefix id ++ codes "/") k keys
                ((T.iter_in s found k).1 present) (starts_with-IsBelow id k below)));
      }

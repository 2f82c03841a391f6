-- ===== src/Catalog/Import/History.antt =====
-- Imports of src/glTFredb.rs one after the other: no import touches a revision of another.
use mathlib.Core.Path.{subst}
use trueos_picasso.Prelude.{
  ℕ, suc, ◌+◌, ◌<◌, ◌≡◌, ◌≢◌, refl, ap, sym, ◌∙◌, Option, List, drop, inr, arith,
}
use trueos_picasso.Prelude.Result.{ok, err, ok-injective}
use trueos_picasso.Prelude.Words.{word, wrapping_add}
use trueos_picasso.Redb.{Table, IsReliable, or_empty}
use trueos_picasso.Text.{Text, decimal}
use trueos_picasso.Text.Decimal.{decimal-IsDigit, decimal-injective}
use trueos_picasso.Text.Split.{digits_split}
use trueos_picasso.Catalog.Types.{Error, Revision, complete, Codecs, Store, Engine, IsGranting}
use trueos_picasso.Catalog.Keys.{revision_key}
use trueos_picasso.Catalog.Reading.{revision_in, revision, revision-ok, revision-granted}
use trueos_picasso.Catalog.Import.Items.{Gltf}
use trueos_picasso.Catalog.Import.Records.{RecordCodecs}
use trueos_picasso.Catalog.Import.Writes.{revision_prefix, Batch}
use trueos_picasso.Catalog.Import.Frame.{IsBelow}
use trueos_picasso.Catalog.Import.Written.{initial}
use trueos_picasso.Catalog.Import.Publish.{Counts, Published, import-Published, import-err}
use trueos_picasso.Catalog.Import.{asset_key, revision_record, import}

pub revision_key-apart : (id j : ℕ) → id ≢ j → ¬ (IsBelow id (revision_key j))
unfolding revision_key revision_prefix
revision_key-apart id j ne (rest, e) =
    let (same, _) =
      digits_split b'/' (decimal j) (decimal id) (inr (omega arith)) (decimal-IsDigit j)
        (decimal-IsDigit id) (ap (drop 2) e) in
    ne (sym (decimal-injective j id same))

pub asset-not-revision : (asset_id : Text) (j : ℕ) → asset_key asset_id ≢ revision_key j
unfolding asset_key revision_key
asset-not-revision asset_id j e = absurd (omega (arith, ap initial e))

module _ {F : Type 0} (T : Table Text (List ℕ)) (e : Engine T) (c : Codecs) (rc : RecordCodecs F)
    (rel : IsReliable T) (granted : IsGranting T e) where
  revision_in-same :
      (j : ℕ) (s s' : T.State)
      → T.lookup s' (revision_key j) ≡ T.lookup s (revision_key j)
      → revision_in T e c j s' ≡ revision_in T e c j s
  unfolding revision_in
  revision_in-same j s s' h =
      rw (rel.get_total s (revision_key j), rel.get_total s' (revision_key j), h) refl

  -- The revision just imported is found.
  pub revision-Published :
      (id : ℕ) (asset_id : Text) (source : List ℕ) (d d' : Store T)
      → Published T e c rc id asset_id source d d'
      → revision T e c id d' ≡ ok (revision_record T e c rc id asset_id complete)
  unfolding revision_in
  revision-Published id asset_id source d d' p =
      let (bytes, found, dec) = p.written.revision in
      revision-granted T e c id d' granted p.records_are
        (rw (rel.get_total p.after.records (revision_key id), found, dec) refl)

  -- A revision of another number is still found.
  revision_kept :
      (id j : ℕ) (asset_id : Text) (source : List ℕ) (d d' : Store T) {r : Revision}
      → Published T e c rc id asset_id source d d'
      → id ≢ j
      → revision T e c j d ≡ ok r
      → revision T e c j d' ≡ ok r
  revision_kept id j asset_id source d d' p ne h =
      let (s, q, found) = revision-ok T e c j d h in
      let start : p.before.records ≡ s =
        ap (λ (b : Batch T). b.records) p.before_is ∙ ap (or_empty T) q in
      let same =
        p.written.earlier (revision_key j) (revision_key-apart id j ne)
          (asset-not-revision asset_id j)
        ∙ ap (λ (t : T.State). T.lookup t (revision_key j)) start in
      revision-granted T e c j d' granted p.records_are
        (revision_in-same j s p.after.records same ∙ found)

  module _ (from_slice : List ℕ → Option (Gltf F)) (decode_base64 : Text → Option (List ℕ)) where
    -- Imports one after the other, with the number of those that succeeded.
    pub data Imports (d : Store T) : ℕ → Store T → Type 0 where
      start : Imports d 0 d
      succeeds :
          {n id : ℕ} {m d' : Store T}
          → Imports d n m
          → (asset_id : Text) (source : List ℕ) (external : Text → Option (List ℕ))
          → import T e c rc from_slice decode_base64 asset_id source external m ≡ (ok id, d')
          → Imports d (suc n) d'
      fails :
          {n : ℕ} {m d' : Store T} {x : Error}
          → Imports d n m
          → (asset_id : Text) (source : List ℕ) (external : Text → Option (List ℕ))
          → import T e c rc from_slice decode_base64 asset_id source external m ≡ (err x, d')
          → Imports d n d'

    imports_keep :
        (i first : ℕ) {d : Store T} {r : Revision} {n : ℕ} {d' : Store T}
        → revision T e c i d ≡ ok r
        → Counts T e c rc d first
        → i < first
        → first + n < word
        → Imports d n d'
        → (revision T e c i d' ≡ ok r) × Counts T e c rc d' (first + n)
    imports_keep i first {d = d} h counts lt small start =
        let same : first ≡ first + 0 = omega arith in (h, subst (Counts T e c rc d) same counts)
    imports_keep i first {d' = d'} h counts lt small
          (succeeds {n} {id} {m} before asset_id source external ran) =
        let (found, counted) = imports_keep i first h counts lt (omega arith) before in
        let p = import-Published T e c rc from_slice decode_base64 asset_id source external m ran in
        let took : id ≡ first + n = ok-injective (sym p.took ∙ counted) in
        let next : wrapping_add id 1 ≡ first + suc n = omega arith in
        (
          revision_kept id i asset_id source m d' p (λ q. absurd (omega (arith, took, q, lt)))
              found,
          subst (Counts T e c rc d') next p.counts,
        )
    imports_keep i first {r = r} {n = n} h counts lt small
          (fails {m = m} {d' = d'} before asset_id source external ran) =
        let back = imports_keep i first h counts lt small before in
        let same =
          (import-err T e c rc from_slice decode_base64 asset_id source external m).0 _ d' ran in
        subst (λ (s : Store T). (revision T e c i s ≡ ok r) × Counts T e c rc s (first + n)) same
          back

    -- A revision that an import published is still found, as it was published, after any number of
    -- further imports, if redb grants its calls and the counter has not come round to 2^64.
    pub revision-Imports :
        (asset_id : Text) (source : List ℕ) (external : Text → Option (List ℕ)) (d : Store T)
        {id n : ℕ} {d₁ d₂ : Store T}
        → import T e c rc from_slice decode_base64 asset_id source external d ≡ (ok id, d₁)
        → Imports d₁ n d₂
        → id + 1 + n < word
        → revision T e c id d₂ ≡ ok (revision_record T e c rc id asset_id complete)
    revision-Imports asset_id source external d {id} {n} {d₁} ran later small =
        let p = import-Published T e c rc from_slice decode_base64 asset_id source external d ran in
        let next : wrapping_add id 1 ≡ id + 1 = omega arith in
        (imports_keep id (id + 1) (revision-Published id asset_id source d d₁ p)
          (subst (Counts T e c rc d₁) next p.counts) (omega arith) small later).0

-- ===== src/Catalog/Tracking/Decisions.antt =====
-- What `set_tracking` and `initialize_tracking` of src/glTFredb.rs promise to their callers.
use mathlib.Core.Path.{subst}
use trueos_picasso.Prelude.{
  ℕ, ◌≡◌, ◌≢◌, ◌⊎◌, inl, inr, refl, sym, ap, ◌∙◌, none, some, List, Option-cases, arith,
}
use trueos_picasso.Prelude.Result.{ok, err, guard-ok, ok_or-ok, >>=-eq-ok, ok-injective}
use trueos_picasso.Redb.{Table, IsReliable, In, or_empty}
use trueos_picasso.Text.{Text}
use trueos_picasso.Catalog.Types.{
  Error, transaction, table, storage, commit, json, Tracking, default_tracking, Codecs, records,
  tracking, Store, Engine, IsGranting, settle-ok, settle-err,
}
use trueos_picasso.Catalog.Tracking.{
  decode_tracking, tracking_of, set_tracking, insert_missing_tracking, initialize_txn,
  initialize_tracking,
}
use trueos_picasso.Catalog.Tracking.Overlay.{
  entry, IsConsistent, IsSound, set_tracking-Updated, Updated-IsConsistent, Fills,
  insert_missing-Fills, insert_missing-none,
}

module _ (T : Table Text (List ℕ)) (c : Codecs) (e : Engine T) where
  pub set_tracking-err :
      (record_id : Text) (t : Tracking) (d : Store T) {x : Error} {d' : Store T}
      → set_tracking T e c record_id t d ≡ (err x, d')
      → d ≡ d'
  unfolding set_tracking
  set_tracking-err record_id t d ran = settle-err T d _ ran

  pub initialize-err :
      (d : Store T) {x : Error} {d' : Store T} → initialize_tracking T e c d ≡ (err x, d') → d ≡ d'
  unfolding initialize_tracking
  initialize-err d ran = settle-err T d _ ran

  -- `set_tracking` accepts no status that is respected or tested and not included, keeps a consistent
  -- overlay consistent if it succeeds, and leaves the store as it was if it does not.
  pub set_tracking-IsConsistent :
      (record_id : Text) (t : Tracking) (d d' : Store T)
      → IsConsistent T c d
      → (set_tracking T e c record_id t d ≡ (ok tt, d')
          → IsSound t × (T.lookup (or_empty T d.records) record_id ≢ none) × IsConsistent T c d')
        × ((x : Error) → set_tracking T e c record_id t d ≡ (err x, d') → d ≡ d')
  set_tracking-IsConsistent record_id t d d' h = (
    λ ran.
        let u = set_tracking-Updated T c e record_id t d ran in
        (u.sound, u.known, Updated-IsConsistent T c e record_id t d d' u h),
    λ x. set_tracking-err record_id t d,
  )

  module _ (rel : IsReliable T) (granted : IsGranting T e) where
    -- A reader finds what the entry decodes to, whether or not the table was created.
    tracking_of-entry :
        (key : Text) (d : Store T)
        → tracking_of T e c key d ≡ decode_tracking T e c (entry T c d key)
    unfolding tracking_of
    tracking_of-entry key d = elim (Option-cases d.tracking) [
      | inl q ↦ ground (arith, granted.begins_read d, q, T.lookup-empty key)
      | inr (s, q) ↦
          ground (arith, granted.begins_read d, granted.opens tracking d, q, rel.get_total s key)
    ]

    -- With redb's calls granted, a status that was set is read back, and every other record reads as
    -- before.
    pub tracking-set_tracking :
        (record_id : Text) (t : Tracking) (d d' : Store T)
        → set_tracking T e c record_id t d ≡ (ok tt, d')
        → (tracking_of T e c record_id d' ≡ ok (some t))
          × ((other : Text)
              → record_id ≢ other
              → tracking_of T e c other d' ≡ tracking_of T e c other d)
    tracking-set_tracking record_id t d d' ran =
        let u = set_tracking-Updated T c e record_id t d ran in
        (
          tracking_of-entry record_id d'
              ∙ ap (decode_tracking T e c) u.set
              ∙ rw (c.tracking_exact.from_slice-to_vec t u.encodes) refl,
          λ other ne.
              tracking_of-entry other d'
              ∙ ap (decode_tracking T e c) (u.others other ne)
              ∙ sym (tracking_of-entry other d),
        )

  default_tracking-IsSound : IsSound default_tracking
  default_tracking-IsSound (inl q) = cc
  default_tracking-IsSound (inr q) = cc

  -- What a successful initialization establishes.
  pub record Initialized (d d' : Store T) : Type 0 where
    pub default : List ℕ
    pub encodes : c.tracking.to_vec default_tracking ≡ some default
    pub fills : Fills T c e default (or_empty T d.tracking) (or_empty T d'.tracking)
    pub covers : (key : Text) → T.lookup (or_empty T d.records) key ≢ none → entry T c d' key ≢ none
    pub same_meta : d'.meta ≡ d.meta
    pub same_records : d'.records ≡ some (or_empty T d.records)
    pub same_derived : (d'.derived ≡ d.derived) × (d'.derived_blobs ≡ d.derived_blobs)

  pub initialize-Initialized :
      (d : Store T) {n : ℕ} {d' : Store T}
      → initialize_tracking T e c d ≡ (ok n, d')
      → Initialized d d'
  unfolding initialize_tracking initialize_txn insert_missing_tracking
  initialize-Initialized d {n} {d'} ran =
      let (_, h1) = guard-ok (e.begins_write d) transaction _ (settle-ok T d _ ran) in
      let (_, h2) = guard-ok (e.opens records d) table _ h1 in
      let (keys, q, h3) = ok_or-ok (T.iter (or_empty T d.records)) storage _ h2 in
      let (p, filled, h4) = >>=-eq-ok (insert_missing_tracking T e c keys d) _ h3 in
      let (_, f1) = guard-ok (e.opens tracking d) table _ filled in
      let (default, enc, f2) = ok_or-ok (c.tracking.to_vec default_tracking) json _ f1 in
      let (fills, all) = insert_missing-Fills T c e default keys 0 (or_empty T d.tracking) f2 in
      let (_, h5) =
        guard-ok
          (e.commits (record d { records = some (or_empty T d.records); tracking = some p.1 }))
          commit _ h4 in
      let same : record d { records = some (or_empty T d.records); tracking = some p.1 } ≡ d' =
        ap (λ (p : ℕ × Store T). p.1) (ok-injective h5) in
      subst (Initialized d) same (record {
        default = default;
        encodes = enc;
        fills = fills;
        covers = λ key known. all key ((T.iter_in (or_empty T d.records) q key).1 known);
        same_meta = refl;
        same_records = refl;
        same_derived = (refl, refl);
      })

  -- If `initialize_tracking` succeeds, every record has an entry, every entry that was there stays,
  -- a new one encodes the default status, and a consistent overlay stays consistent.
  pub initialize_tracking_lem :
      (d d' : Store T) (n : ℕ)
      → IsConsistent T c d
      → initialize_tracking T e c d ≡ (ok n, d')
      → ((key : Text) → T.lookup (or_empty T d.records) key ≢ none → entry T c d' key ≢ none)
        × ((key : Text) → entry T c d key ≢ none → entry T c d' key ≡ entry T c d key)
        × ((key : Text)
            → entry T c d key ≡ none
            → (entry T c d' key ≡ none) ⊎ (entry T c d' key ≡ c.tracking.to_vec default_tracking))
        × IsConsistent T c d'
  initialize_tracking_lem d d' n h ran =
      let i = initialize-Initialized d ran in
      (
        i.covers,
        λ key there. elim (i.fills key) [ inl same ↦ same | inr new ↦ absurd (there new.0) ],
        λ key missing. elim (i.fills key) [
          | inl same ↦ inl (same ∙ missing)
          | inr new ↦ inr (new.1 ∙ sym i.encodes)
        ],
        λ key bytes t found dec. elim (i.fills key) [
          | inl same ↦ h key bytes t (sym same ∙ found) dec
          | inr new ↦
              let is_default : default_tracking ≡ t = cc (
                c.tracking_exact.from_slice-to_vec default_tracking i.encodes,
                new.1,
                found,
                dec,
              ) in
              subst IsSound is_default default_tracking-IsSound
        ],
      )

  -- With redb's calls granted, a second `initialize_tracking` right after one that succeeded inserts
  -- nothing and leaves the store as it is.
  initialize_twice :
      (d d' : Store T) (n : ℕ)
      → IsReliable T
      → IsGranting T e
      → initialize_tracking T e c d ≡ (ok n, d')
      → ((k : Text)
          → entry T c d' k ≡ T.lookup (or_empty T (initialize_tracking T e c d').1.tracking) k)
        × ((initialize_tracking T e c d').0 ≡ ok 0)
  unfolding initialize_tracking initialize_txn insert_missing_tracking
  initialize_twice d d' n rel granted ran =
      let i = initialize-Initialized d ran in
      let (keys, q) = rel.iter_total (or_empty T d'.records) in
      let present : (key : Text) → In key keys → entry T c d' key ≢ none = λ key here.
        i.covers key (
          subst (λ x. T.lookup (or_empty T x) key ≢ none) i.same_records
            ((T.iter_in (or_empty T d'.records) q key).0 here)) in
      let again = insert_missing-none T c e rel i.default keys 0 (or_empty T d'.tracking) present in
      (
        λ k. ground (
          arith,
          granted.begins_write d',
          granted.opens records d',
          granted.opens tracking d',
          q,
          i.encodes,
          again,
          granted.commits (record d' {
            records = some (or_empty T d'.records);
            tracking = some (or_empty T d'.tracking);
          }),
        ),
        ground (
          arith,
          granted.begins_write d',
          granted.opens records d',
          granted.opens tracking d',
          q,
          i.encodes,
          again,
          granted.commits (record d' {
            records = some (or_empty T d'.records);
            tracking = some (or_empty T d'.tracking);
          }),
        ),
      )

-- ===== src/Catalog/Tracking/Overlay.antt =====
-- The tracking overlay of src/glTFredb.rs stays consistent, and each call changes only its entries.
use mathlib.Core.Path.{subst}
use mathlib.Core.Bool.{false≢true}
use trueos_picasso.Text.{text_eq}
use trueos_picasso.Text.Split.{text_eq_sound, text_eq_refl}
use trueos_picasso.Prelude.{
  ℕ, ◌≡◌, ◌≢◌, refl, sym, ap, ◌∙◌, ◌⊎◌, inl, inr, true, false, Option, none, some, List, [], ◌∷◌,
  arith, Bool-cases, Option-cases,
}
use trueos_picasso.Prelude.Result.{ok, guard-ok, ok_or-ok, >>=-eq-ok, ok-injective}
use trueos_picasso.Redb.{Table, IsReliable, In, or_empty}
use trueos_picasso.Text.{Text}
use trueos_picasso.Catalog.Types.{
  transaction, table, storage, commit, json, unknown_record, invalid_tracking_state, Tracking,
  Codecs, records, tracking, Store, Engine, settle-ok,
}
use trueos_picasso.Catalog.Tracking.{
  is_consistent, set_tracking_txn, set_tracking, insert_if_missing, insert_missing,
}

apart : (a b : Text) → text_eq a b ≡ false → a ≢ b
apart a b q same = false≢true (sym q ∙ subst (λ x. text_eq a x ≡ true) same (text_eq_refl a))

-- A record counts as respected or tested only if it is included.
abbrev pub IsSound : Tracking → Type 0
IsSound t = (t.fully_respected ≡ true) ⊎ (t.tested ≡ true) → t.included ≡ true

is_consistent-IsSound : (t : Tracking) → is_consistent t ≡ true → IsSound t
is_consistent-IsSound t h (inl q) = ground (arith, h, q)
is_consistent-IsSound t h (inr q) = ground (arith, h, q)

module _ (T : Table Text (List ℕ)) (c : Codecs) where
  -- What a tracking entry says, if it has one that decodes.
  abbrev pub entry : Store T → Text → Option (List ℕ)
  entry d key = T.lookup (or_empty T d.tracking) key

  -- Every entry that decodes is sound.
  abbrev pub IsConsistent : Store T → Type 0
  IsConsistent d =
      (key : Text) (bytes : List ℕ) (t : Tracking)
      → entry d key ≡ some bytes
      → c.tracking.from_slice bytes ≡ some t
      → IsSound t

  module _ (e : Engine T) where
    -- What a successful update establishes.
    pub record Updated (record_id : Text) (t : Tracking) (d d' : Store T) : Type 0 where
      pub sound : IsSound t
      pub known : T.lookup (or_empty T d.records) record_id ≢ none
      pub encoded : List ℕ
      pub encodes : c.tracking.to_vec t ≡ some encoded
      pub set : entry d' record_id ≡ some encoded
      pub others : (key : Text) → record_id ≢ key → entry d' key ≡ entry d key
      pub created : (s : T.State) × (d'.tracking ≡ some s)
      pub same_meta : d'.meta ≡ d.meta
      pub same_records : d'.records ≡ some (or_empty T d.records)
      pub same_derived : (d'.derived ≡ d.derived) × (d'.derived_blobs ≡ d.derived_blobs)

    pub set_tracking-Updated :
        (record_id : Text) (t : Tracking) (d : Store T) {d' : Store T}
        → set_tracking T e c record_id t d ≡ (ok tt, d')
        → Updated record_id t d d'
    unfolding set_tracking set_tracking_txn
    set_tracking-Updated record_id t d {d'} ran =
        let (consistent, h0) =
          guard-ok (is_consistent t) invalid_tracking_state _ (settle-ok T d _ ran) in
        let (_, h1) = guard-ok (e.begins_write d) transaction _ h0 in
        let (_, h2) = guard-ok (e.opens records d) table _ h1 in
        let (found, q, h3) = ok_or-ok (T.get (or_empty T d.records) record_id) storage _ h2 in
        let (known, q', h4) = ok_or-ok found (unknown_record record_id) _ h3 in
        let (_, h5) = guard-ok (e.opens tracking d) table _ h4 in
        let (encoded, enc, h6) = ok_or-ok (c.tracking.to_vec t) json _ h5 in
        let (set, ins, h7) =
          ok_or-ok (T.insert (or_empty T d.tracking) record_id encoded) storage _ h6 in
        let (_, h8) =
          guard-ok
            (e.commits (record d { records = some (or_empty T d.records); tracking = some set }))
            commit _ h7 in
        let same : record d { records = some (or_empty T d.records); tracking = some set } ≡ d' =
          ap (λ (p : Unit {0} × Store T). p.1) (ok-injective h8) in
        subst (Updated record_id t d) same (record {
          sound = is_consistent-IsSound t consistent;
          known = λ no. absurd (cc (T.get-eq (or_empty T d.records) record_id q, q', no));
          encoded = encoded;
          encodes = enc;
          set = T.insert_self (or_empty T d.tracking) record_id encoded ins;
          others = T.insert_ne (or_empty T d.tracking) record_id encoded ins;
          created = (set, refl);
          same_meta = refl;
          same_records = refl;
          same_derived = (refl, refl);
        })

    -- A consistent overlay stays consistent.
    pub Updated-IsConsistent :
        (record_id : Text) (t : Tracking) (d d' : Store T)
        → Updated record_id t d d'
        → IsConsistent d
        → IsConsistent d'
    Updated-IsConsistent record_id t d d' u h key bytes s found dec =
        elim (Bool-cases (text_eq record_id key)) [
          | inl q ↦
              let at : entry d' record_id ≡ some bytes =
                ap (entry d') (text_eq_sound record_id key q) ∙ found in
              let same : t ≡ s =
                cc (c.tracking_exact.from_slice-to_vec t u.encodes, u.set, at, dec) in
              subst IsSound same u.sound
          | inr q ↦ h key bytes s (sym (u.others key (apart record_id key q)) ∙ found) dec
        ]

    -- What filling a table in does: entries stay, and a new one is the default.
    abbrev pub Fills : (default : List ℕ) → T.State → T.State → Type 0
    Fills default s s' =
        (key : Text)
        → (T.lookup s' key ≡ T.lookup s key)
          ⊎ ((T.lookup s key ≡ none) × (T.lookup s' key ≡ some default))

    Fills-trans :
        (default : List ℕ) (s m s' : T.State)
        → Fills default s m
        → Fills default m s'
        → Fills default s s'
    Fills-trans default s m s' f g key = elim (f key) [
      | inl p ↦ elim (g key) [ inl q ↦ inl (q ∙ p) | inr q ↦ inr (sym p ∙ q.0, q.1) ]
      | inr p ↦ elim (g key) [ inl q ↦ inr (p.0, q ∙ p.1) | inr q ↦ inr (p.0, q.1) ]
    ]

    Fills-present :
        (default : List ℕ) (s s' : T.State) (key : Text)
        → Fills default s s'
        → T.lookup s key ≢ none
        → T.lookup s' key ≢ none
    Fills-present default s s' key f h = elim (f key) [
      | inl p ↦ λ e. h (sym p ∙ e)
      | inr p ↦ λ e. h p.0
    ]

    insert_if_missing-Fills :
        (default : List ℕ) (key : Text) (n : ℕ) (s : T.State) (found : Option (List ℕ))
        {p : ℕ × T.State}
        → found ≡ T.lookup s key
        → insert_if_missing T e c default key n s found ≡ ok p
        → Fills default s p.1 × (T.lookup p.1 key ≢ none)
    unfolding insert_if_missing
    insert_if_missing-Fills default key n s (some old) q h =
        subst (λ (p : ℕ × T.State). Fills default s p.1 × (T.lookup p.1 key ≢ none))
          (ok-injective h) (λ k. inl refl, λ none_. absurd (cc (q, none_)))
    insert_if_missing-Fills default key n s none q h =
        let (s', ins, h1) = ok_or-ok (T.insert s key default) storage _ h in
        subst (λ (p : ℕ × T.State). Fills default s p.1 × (T.lookup p.1 key ≢ none))
          (ok-injective h1)
          (
            λ k. elim (Bool-cases (text_eq key k)) [
              | inl same ↦
                  subst
                    (λ x.
                      (T.lookup s' x ≡ T.lookup s x)
                      ⊎ ((T.lookup s x ≡ none) × (T.lookup s' x ≡ some default)))
                    (text_eq_sound key k same) (inr (sym q, T.insert_self s key default ins))
              | inr other ↦ inl (T.insert_ne s key default ins k (apart key k other))
            ],
            λ no. absurd (cc (T.insert_self s key default ins, no)),
          )

    -- The loop fills in exactly what is missing, and misses no key of its list.
    pub insert_missing-Fills :
        (default : List ℕ) (keys : List Text) (n : ℕ) (s : T.State) {p : ℕ × T.State}
        → insert_missing T e c default keys n s ≡ ok p
        → Fills default s p.1 × ((key : Text) → In key keys → T.lookup p.1 key ≢ none)
    unfolding insert_missing
    insert_missing-Fills default [] n s h =
        subst
          (λ (p : ℕ × T.State). Fills default s p.1 × ((key : Text) → ⊥ → T.lookup p.1 key ≢ none))
          (ok-injective h) (λ k. inl refl, λ key i. absurd i)
    insert_missing-Fills default (k ∷ rest) n s {p} h =
        let (found, q, h1) = ok_or-ok (T.get s k) storage _ h in
        let (m, step, h2) = >>=-eq-ok (insert_if_missing T e c default k n s found) _ h1 in
        let (first, there) = insert_if_missing-Fills default k n s found (T.get-eq s k q) step in
        let (later, all) = insert_missing-Fills default rest m.0 m.1 h2 in
        (
          Fills-trans default s m.1 p.1 first later,
          λ key i. elim i [
            | inl same ↦
                subst (λ x. T.lookup p.1 x ≢ none) same
                  (Fills-present default m.1 p.1 k later there)
            | inr j ↦ all key j
          ],
        )

    -- On a table whose calls succeed, nothing is inserted where nothing is missing.
    pub insert_missing-none :
        IsReliable T
        → (default : List ℕ) (keys : List Text) (n : ℕ) (s : T.State)
        → ((key : Text) → In key keys → T.lookup s key ≢ none)
        → insert_missing T e c default keys n s ≡ ok (n, s)
    unfolding insert_missing insert_if_missing
    insert_missing-none rel default [] n s h = refl
    insert_missing-none rel default (k ∷ rest) n s h = elim (Option-cases (T.lookup s k)) [
      | inl missing ↦ absurd (h k (inl refl) missing)
      | inr (old, q) ↦ ground (
        arith,
        rel.get_total s k,
        q,
        insert_missing-none rel default rest n s (λ key i. h key (inr i)),
      )
    ]

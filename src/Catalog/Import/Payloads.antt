-- ===== src/Catalog/Import/Payloads.antt =====
-- What `Prepared::parse` of src/glTFredb.rs hands to an import.
use mathlib.Core.Path.{subst}
use trueos_picasso.Prelude.{
  ℕ, ◌≤◌, ◌≡◌, ◌≢◌, ◌↔◌, refl, ap, sym, ◌∙◌, ◌++◌, ◌==◌, ==_iff, Bool-cases, Option-cases, inl, inr,
  Option, none, some, List, [], ◌∷◌, leb, leb→le, le→leb, length, arith,
}
use trueos_picasso.Prelude.Result.{ok, guard-ok, ok_or-ok, ok_or-some, >>=-eq-ok, ok-injective}
use trueos_picasso.Prelude.All.{All}
use trueos_picasso.Text.{Text, codes}
use trueos_picasso.Catalog.Types.{gltf, buffer_length}
use trueos_picasso.Catalog.Import.Items.{Source, bin, uri, BufferDoc, Gltf}
use trueos_picasso.Catalog.Import.Parsing.{
  Prepared, strip_prefix, after_first, or_default, read_uri, read_source, read_buffer, read_buffers,
  parse,
}

-- `strip_prefix` and `after_first` by what they find.
strip_prefix-some :
    (prefix s : Text) {rest : Text} → strip_prefix prefix s ≡ some rest → s ≡ prefix ++ rest
strip_prefix-some [] s h = cc
strip_prefix-some (c ∷ prefix) [] h = cc
strip_prefix-some (c ∷ prefix) (x ∷ s) h = elim (Bool-cases (c == x)) [
  | inl q ↦ cc ((==_iff c x).0 q, strip_prefix-some prefix s (rw q at h))
  | inr q ↦ absurd (cc (rw q at h))
]

strip_prefix-append : (prefix rest : Text) → strip_prefix prefix (prefix ++ rest) ≡ some rest
strip_prefix-append [] rest = refl
strip_prefix-append (c ∷ prefix) rest =
    rw ((==_iff c c).1 refl, strip_prefix-append prefix rest) refl

strip_prefix-none :
    (prefix s : Text) → strip_prefix prefix s ≡ none → (rest : Text) → s ≢ prefix ++ rest
strip_prefix-none prefix s h rest e = absurd (cc (h, e, strip_prefix-append prefix rest))

strip_prefix-other :
    (prefix s : Text) → ((rest : Text) → s ≢ prefix ++ rest) → strip_prefix prefix s ≡ none
strip_prefix-other prefix s other = elim (Option-cases (strip_prefix prefix s)) [
  | inl q ↦ q
  | inr (rest, q) ↦ absurd (other rest (strip_prefix-some prefix s q))
]

after_first-some :
    (c : ℕ) (s : Text) {rest : Text}
    → after_first c s ≡ some rest
    → (front : Text) × (s ≡ front ++ c ∷ rest) × All (λ x. x ≢ c) front
after_first-some c [] h = absurd (cc h)
after_first-some c (x ∷ s) {rest} h = elim (Bool-cases (x == c)) [
  | inl q ↦ ([], cc ((==_iff x c).0 q, (rw q at h)), tt)
  | inr q ↦
      let (front, e, all) = after_first-some c s (rw q at h) in
      (x ∷ front, ap (λ t. x ∷ t) e, ((λ p. absurd (cc (q, (==_iff x c).1 p))), all))
]

after_first-append :
    (c : ℕ) (front rest : Text)
    → All (λ x. x ≢ c) front
    → after_first c (front ++ c ∷ rest) ≡ some rest
after_first-append c [] rest all = rw ((==_iff c c).1 refl) refl
after_first-append c (x ∷ front) rest all =
    ground (arith, all.0, ==_iff x c, after_first-append c front rest all.1)

module _ (decode_base64 : Text → Option (List ℕ)) (external : Text → Option (List ℕ)) where
  -- The bytes that a source stands for: the binary chunk of the file, the base64 text behind the
  -- first comma of a data URI, or the external payload of any other path.
  pub data Resolves (blob : Option (List ℕ)) : Source → List ℕ → Type 0 where
    no_chunk : blob ≡ none → Resolves blob bin []
    chunk : {bytes : List ℕ} → blob ≡ some bytes → Resolves blob bin bytes
    data_uri :
        {u : Text} {bytes : List ℕ} (media base64 : Text)
        → u ≡ codes "data:" ++ (media ++ b',' ∷ base64)
        → All (λ x. x ≢ b',') media
        → decode_base64 base64 ≡ some bytes
        → Resolves blob (uri u) bytes
    file :
        {u : Text} {bytes : List ℕ}
        → ((rest : Text) → u ≢ codes "data:" ++ rest)
        → external u ≡ some bytes
        → Resolves blob (uri u) bytes

  -- A payload for each buffer: what its source stands for, and no shorter than it is declared.
  abbrev pub Payloads : Option (List ℕ) → List BufferDoc → List (List ℕ) → Type 0
  Payloads blob [] [] = Unit
  Payloads blob (b ∷ bs) (bytes ∷ rest) =
      Resolves blob b.source bytes × (b.length ≤ length bytes) × Payloads blob bs rest
  Payloads blob _ _ = ⊥

  read_source-Resolves :
      (blob : Option (List ℕ)) (src : Source) {bytes : List ℕ}
      → read_source decode_base64 external blob src ≡ ok bytes
      → Resolves blob src bytes
  unfolding read_source read_uri
  read_source-Resolves blob bin h = elim (Option-cases blob) [
    | inl q ↦
        subst (Resolves blob bin) (ok-injective (ap (λ o. ok (or_default o)) (sym q) ∙ h))
          (no_chunk q)
    | inr (x, q) ↦
        subst (Resolves blob bin) (ok-injective (ap (λ o. ok (or_default o)) (sym q) ∙ h)) (chunk q)
  ]
  read_source-Resolves blob (uri u) {bytes} h = by_prefix (strip_prefix (codes "data:") u) refl h
    where
      by_prefix :
          (o : Option Text)
          → strip_prefix (codes "data:") u ≡ o
          → read_uri decode_base64 external u o ≡ ok bytes
          → Resolves blob (uri u) bytes
      by_prefix none q h =
          file (strip_prefix-none (codes "data:") u q) (ok_or-some (external u) _ h)
      by_prefix (some rest) q h =
          let (base64, split, h1) = ok_or-ok (after_first b',' rest) _ _ h in
          let (media, e, all) = after_first-some b',' rest split in
          data_uri media base64
            (strip_prefix-some (codes "data:") u q ∙ ap (λ t. codes "data:" ++ t) e) all
            (ok_or-some (decode_base64 base64) _ h1)

  Resolves-read_source :
      (blob : Option (List ℕ)) (src : Source) {bytes : List ℕ}
      → Resolves blob src bytes
      → read_source decode_base64 external blob src ≡ ok bytes
  unfolding read_source read_uri
  Resolves-read_source blob bin (no_chunk q) = rw q refl
  Resolves-read_source blob bin (chunk q) = rw q refl
  Resolves-read_source blob (uri u) (data_uri media base64 e all dec) =
      ap (read_uri decode_base64 external u) (
        ap (strip_prefix (codes "data:")) e
        ∙ strip_prefix-append (codes "data:") (media ++ b',' ∷ base64))
      ∙ rw (after_first-append b',' media base64 all, dec) refl
  Resolves-read_source blob (uri u) (file other found) =
      ap (read_uri decode_base64 external u) (strip_prefix-other (codes "data:") u other)
      ∙ rw found refl

  read_buffers-Payloads :
      (blob : Option (List ℕ)) (bs : List BufferDoc) {out : List (List ℕ)}
      → read_buffers decode_base64 external blob bs ≡ ok out
      → Payloads blob bs out
  unfolding read_buffers read_buffer
  read_buffers-Payloads blob [] h = subst (Payloads blob []) (ok-injective h) tt
  read_buffers-Payloads blob (b ∷ bs) h =
      let (bytes, q, h1) = >>=-eq-ok (read_buffer decode_base64 external blob b) _ h in
      let (rest, q', h2) = >>=-eq-ok (read_buffers decode_base64 external blob bs) _ h1 in
      let (raw, from, g) = >>=-eq-ok (read_source decode_base64 external blob b.source) _ q in
      let (long, g') =
        guard-ok (leb b.length (length raw)) (buffer_length b.index (length raw) b.length) _ g in
      let same : raw ≡ bytes = ok-injective g' in
      let long' : b.length ≤ length bytes =
        subst (λ x. b.length ≤ length x) same (leb→le b.length (length raw) long) in
      subst (Payloads blob (b ∷ bs)) (ok-injective h2) (
        read_source-Resolves blob b.source (from ∙ ap ok same),
        long',
        read_buffers-Payloads blob bs q',
      )

  Payloads-read_buffers :
      (blob : Option (List ℕ)) (bs : List BufferDoc) (out : List (List ℕ))
      → Payloads blob bs out
      → read_buffers decode_base64 external blob bs ≡ ok out
  unfolding read_buffers read_buffer
  Payloads-read_buffers blob [] [] h = refl
  Payloads-read_buffers blob [] (x ∷ out) h = absurd h
  Payloads-read_buffers blob (b ∷ bs) [] h = absurd h
  Payloads-read_buffers blob (b ∷ bs) (x ∷ out) (q, long, rest) =
      rw
        (
          Resolves-read_source blob b.source q,
          le→leb b.length (length x) long,
          Payloads-read_buffers blob bs out rest,
        )
        refl

  -- A source is prepared exactly if glTF accepts it and each buffer, in order, has a payload: the
  -- binary chunk, a data URI that decodes, or an external file, and never shorter than declared.
  pub parse_iff :
      {F : Type 0} (from_slice : List ℕ → Option (Gltf F)) (source : List ℕ) (p : Prepared F)
      → (parse decode_base64 external from_slice source ≡ ok p) ↔ (
          (g : Gltf F) × (from_slice source ≡ some g)
          × (p.doc ≡ g.document)
          × Payloads g.blob g.document.buffers p.buffers)
  unfolding parse
  parse_iff {F = F} from_slice source p = (
    λ h.
        let (g, found, h1) = ok_or-ok (from_slice source) gltf _ h in
        let (buffers, q, h2) =
          >>=-eq-ok (read_buffers decode_base64 external g.blob g.document.buffers) _ h1 in
        subst
          (λ (p : Prepared F).
            (g : Gltf F) × (from_slice source ≡ some g)
            × (p.doc ≡ g.document)
            × Payloads g.blob g.document.buffers p.buffers)
          (ok-injective h2) (g, found, refl, read_buffers-Payloads g.blob g.document.buffers q),
    λ (g, found, doc, all).
        rw (found, Payloads-read_buffers g.blob g.document.buffers p.buffers all, sym doc) refl,
  )

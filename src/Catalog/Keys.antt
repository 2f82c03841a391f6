-- ===== src/Catalog/Keys.antt =====
-- The keys of src/glTFredb.rs, and that keys of derived artifacts and of their chunks never clash.
use mathlib.Core.List.{append_assoc}
use mathlib.Core.Path.{subst₂}
use trueos_picasso.Prelude.{drop, ℕ, ◌≡◌, ◌||◌, not, [], ◌∷◌, ◌++◌, arith, inl, inr, ap, sym, ◌∙◌}
use trueos_picasso.Prelude.Result.{Result, ok, guard, guard-ok, ok-injective, ◌>>◌}
use trueos_picasso.Text.{Text, codes, utf8_len, is_blank, contains, decimal, decimal08}
use trueos_picasso.Text.Decimal.{decimal-IsDigit, decimal-injective, decimal08-injective}
use trueos_picasso.Text.Split.{digits_split, utf8_split}
use trueos_picasso.Catalog.Types.{Error, invalid_derived}

-- `format!("r/{id}/revision")`
unfoldable pub revision_key : ℕ → Text
revision_key id = codes "r/" ++ decimal id ++ codes "/revision"

-- `format!("r/{revision}/{}:{name}", name.len())`
unfoldable pub derived_path : (revision : ℕ) (name : Text) → Text
derived_path revision name =
    codes "r/"
    ++ (decimal revision ++ (codes "/" ++ (decimal (utf8_len name) ++ (codes ":" ++ name))))

unfoldable pub derived_key : (revision : ℕ) (name : Text) → Result Error Text
derived_key revision name = do
  guard (not (is_blank name || contains name 0))
      (invalid_derived "name must be nonempty and contain no NUL")
  ok (derived_path revision name)

-- `format!("{key}/{index:08}")`
unfoldable pub chunk_path : (key : Text) (index : ℕ) → Text
chunk_path key index = key ++ (codes "/" ++ decimal08 index)

-- What follows the revision in a derived key, and then in the keys below it.
abbrev named : Text → Text → Text
named name rest = decimal (utf8_len name) ++ (b':' ∷ (name ++ rest))

-- The key, with the separators that tell its parts apart.
derived_path-parts :
    (r : ℕ) (name rest : Text)
    → derived_path r name ++ rest ≡ b'r' ∷ (b'/' ∷ (decimal r ++ (b'/' ∷ named name rest)))
unfolding derived_path
derived_path-parts r name rest =
    ap (λ (x : Text). b'r' ∷ (b'/' ∷ x))
      (append_assoc (decimal r) (b'/' ∷ (decimal (utf8_len name) ++ (b':' ∷ name))) rest
        ∙ ap (λ (x : Text). decimal r ++ (b'/' ∷ x))
            (append_assoc (decimal (utf8_len name)) (b':' ∷ name) rest))

-- The beginning of such a key determines the revision and the name, and the rest of the key.
derived_path_split :
    (r r' : ℕ) (name name' rest rest' : Text)
    → derived_path r name ++ rest ≡ derived_path r' name' ++ rest'
    → (r ≡ r') × (name ≡ name') × (rest ≡ rest')
derived_path_split r r' name name' rest rest' e =
    let e1 : decimal r ++ (b'/' ∷ named name rest) ≡ decimal r' ++ (b'/' ∷ named name' rest') =
      ap (drop 2) (sym (derived_path-parts r name rest) ∙ e ∙ derived_path-parts r' name' rest') in
    let (revision, e2) =
      digits_split b'/' (decimal r) (decimal r') (inr (omega arith)) (decimal-IsDigit r)
        (decimal-IsDigit r') e1 in
    let (len, e3) =
      digits_split b':' (decimal (utf8_len name)) (decimal (utf8_len name')) (inl (omega arith))
        (decimal-IsDigit _) (decimal-IsDigit _) e2 in
    let (same, tail) = utf8_split name name' (decimal-injective _ _ len) e3 in
    (decimal-injective r r' revision, same, tail)

pub derived_path-injective :
    (r r' : ℕ) (name name' : Text)
    → derived_path r name ≡ derived_path r' name'
    → (r ≡ r') × (name ≡ name')
derived_path-injective r r' name name' e =
    let (revision, same, _) =
      derived_path_split r r' name name' [] [] (ap (λ (x : Text). x ++ []) e) in
    (revision, same)

derived_key-ok :
    (r : ℕ) (name : Text) {key : Text} → derived_key r name ≡ ok key → key ≡ derived_path r name
unfolding derived_key
derived_key-ok r name h =
    let (_, q) =
      guard-ok (not (is_blank name || contains name 0))
        (invalid_derived "name must be nonempty and contain no NUL") (ok (derived_path r name)) h in
    sym (ok-injective q)

-- Two chunks of derived artifacts have one key only if they are the same chunk of the same name
-- under the same revision, whatever `/`, `:` and digits the names have in them.
pub derived_chunk-injective :
    (r r' i i' : ℕ) (name name' : Text) {key key' : Text}
    → derived_key r name ≡ ok key
    → derived_key r' name' ≡ ok key'
    → chunk_path key i ≡ chunk_path key' i'
    → (r ≡ r') × (name ≡ name') × (i ≡ i')
unfolding chunk_path
derived_chunk-injective r r' i i' name name' h h' e =
    let (revision, same, tail) =
      derived_path_split r r' name name' (codes "/" ++ decimal08 i) (codes "/" ++ decimal08 i') (
        subst₂ (λ k k'. k ++ (codes "/" ++ decimal08 i) ≡ k' ++ (codes "/" ++ decimal08 i'))
          (derived_key-ok r name h) (derived_key-ok r' name' h') e) in
    (revision, same, decimal08-injective i i' (ap (drop 1) tail))

pub append_cancel : (xs : Text) {ys zs : Text} → xs ++ ys ≡ xs ++ zs → ys ≡ zs
append_cancel [] e = e
append_cancel (x ∷ xs) e = append_cancel xs (ap (drop 1) e)

-- The chunks of one artifact have different keys.
pub chunk_path-injective : (key : Text) (i j : ℕ) → chunk_path key i ≡ chunk_path key j → i ≡ j
unfolding chunk_path
chunk_path-injective key i j e = decimal08-injective i j (ap (drop 1) (append_cancel key e))

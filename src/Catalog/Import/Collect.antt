-- ===== src/Catalog/Import/Collect.antt =====
-- The iterators that src/glTFredb.rs collects: options, vectors, and a map.
--
-- `BTreeMap` is a list in the order of its keys, which is that of the code points.
use trueos_picasso.Prelude.{
  ℕ, ◌+◌, Bool, true, false, Option, none, some, List, [], ◌∷◌, ltb, ◌==◌, if◌then◌else◌,
}
use trueos_picasso.Text.{Text, text_eq}

-- `.map(f)` on an option, and on the items of an iterator, with their positions in the second
abbrev pub map_option : {A B : Type 0} → (A → B) → Option A → Option B
map_option f none = none
map_option f (some a) = some (f a)

abbrev pub each : {A B : Type 0} → (A → B) → List A → List B
each f [] = []
each f (x ∷ xs) = f x ∷ each f xs

abbrev pub each_index : {A B : Type 0} → (ℕ → B) → ℕ → List A → List B
each_index f i [] = []
each_index f i (x ∷ xs) = f i ∷ each_index f (i + 1) xs

-- `<` on texts
unfoldable pub text_lt : Text → Text → Bool
text_lt [] [] = false
text_lt [] (y ∷ ys) = true
text_lt (x ∷ xs) [] = false
text_lt (x ∷ xs) (y ∷ ys) = if x == y then text_lt xs ys else ltb x y

-- `BTreeMap::insert`, and the map of an iterator of pairs: the last of equal keys stays.
unfoldable pub map_insert : Text → Text → List (Text × Text) → List (Text × Text)
unfolding text_lt
map_insert k v [] = (k, v) ∷ []
map_insert k v ((j, w) ∷ m) =
    let later = map_insert k v m in
    if text_eq k j
    then (k, v) ∷ m
    else if text_lt k j
    then (k, v) ∷ ((j, w) ∷ m)
    else (j, w) ∷ later

unfoldable pub collect_map : List (Text × Text) → List (Text × Text) → List (Text × Text)
unfolding map_insert
collect_map m [] = m
collect_map m (p ∷ ps) = collect_map (map_insert p.0 p.1 m) ps

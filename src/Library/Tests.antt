-- ===== src/Library/Tests.antt =====
-- Runs of the models of `glb_library` of src/lib.rs.
use mathlib.Core.Path.{subst}
use trueos_picasso.Prelude.{ℕ, ◌≡◌, ◌≢◌, ◌↔◌, refl, true, Option, none, some, List, [], ◌∷◌}
use trueos_picasso.Prelude.Result.{ok}
use trueos_picasso.Redb.{Table}
use trueos_picasso.Redb.Assoc.{assoc_table, assoc_table-IsReliable}
use trueos_picasso.Text.{Text, codes, text_eq, is_whitespace, contains}
use trueos_picasso.Text.Split.{text_eq_sound, text_eq_refl}
use trueos_picasso.Library.{
  ImportStats, trim_start, trim_end, trim_both, normalize_asset_id, Part, source, json, buffer, Glb,
  Engine, put_bin, dump_txn, dump_glb_bytes, load_part,
}
use trueos_picasso.Library.Store.{IsGranting, load_part-dump}

text_eq_iff : (a b : Text) → (text_eq a b ≡ true) ↔ (a ≡ b)
text_eq_iff a b = (text_eq_sound a b, λ q. subst (λ x. text_eq a x ≡ true) q (text_eq_refl a))

abbrev T : Table Text (List ℕ)
T = assoc_table text_eq text_eq_iff

abbrev engine : Engine T
engine = record {
  begins_read = λ _. true;
  begins_write = λ _. true;
  opens = λ _. true;
  commits = λ _. true;
}

-- A parser that takes the first byte for the JSON chunk and the rest for the BIN chunk.
abbrev parse : List ℕ → Option Glb
parse [] = none
parse (x ∷ []) = some (record { json = x ∷ []; bin = none })
parse (x ∷ xs) = some (record { json = x ∷ []; bin = some xs })

engine-IsGranting : IsGranting T engine parse
engine-IsGranting = record { begins_read = λ _. refl; opens = λ _. refl }

abbrev dumped : Option T.State
dumped = (dump_glb_bytes T engine parse (codes " tree/") (4 ∷ 5 ∷ []) none).1

abbrev counts : ImportStats
counts = record { asset_id = codes "tree"; source_bytes = 2; json_bytes = 1; bin_bytes = 1 }

dump_run : dump_glb_bytes T engine parse (codes " tree/") (4 ∷ 5 ∷ []) none ≡ (ok counts, dumped)
unfolding dump_glb_bytes dump_txn normalize_asset_id trim_both trim_start trim_end is_whitespace
    contains put_bin
dump_run = refl

load_part-dump_example :
    (load_part T engine parse (codes " tree/") source dumped ≡ ok (some (4 ∷ 5 ∷ [])))
    × ((glb : Glb)
        → parse (4 ∷ 5 ∷ []) ≡ some glb
        → (load_part T engine parse (codes " tree/") json dumped ≡ ok (some glb.json))
          × (load_part T engine parse (codes " tree/") buffer dumped ≡ ok glb.bin))
    × ((other id : Text) (part : Part)
        → normalize_asset_id other ≡ ok id
        → normalize_asset_id (codes " tree/") ≢ ok id
        → load_part T engine parse other part dumped ≡ load_part T engine parse other part none)
load_part-dump_example =
    load_part-dump T engine parse (assoc_table-IsReliable text_eq text_eq_iff) engine-IsGranting
      (codes " tree/") (4 ∷ 5 ∷ []) none dumped counts dump_run

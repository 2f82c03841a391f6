-- ===== src/Metadata/Tests.antt =====
-- A run of the model of src/glb_metadata.rs on a small file.
use trueos_picasso.Prelude.{
  ℕ, ◌+◌, ◌%◌, ◌≤◌, ◌<◌, ◌≡◌, refl, Option, some, List, [], ◌∷◌, ◌++◌, length, take, drop,
}
use trueos_picasso.Prelude.Result.{ok}
use trueos_picasso.Text.{Text, codes, text_eq}
use trueos_picasso.Mass.{from_le_bytes}
use trueos_picasso.Metadata.{GlbMetadata, header_word, inspect_glb_reader}
use trueos_picasso.Metadata.Bounds.{inspect_glb_reader_lem}

-- A header, and a JSON chunk of four bytes.
abbrev small_file : List ℕ
small_file =
    codes "glTF"
    ++ ((2 ∷ 0 ∷ 0 ∷ 0 ∷ 24 ∷ 0 ∷ 0 ∷ 0 ∷ 4 ∷ 0 ∷ 0 ∷ 0 ∷ []) ++ (codes "JSON" ++ codes "{  }"))

abbrev parse : List ℕ → Option Text
parse bytes = some bytes

abbrev version : Text → Option Text
version value = some (codes "2.0")

abbrev found : GlbMetadata Text
found = record {
  file_size = 24;
  json_bytes = 4;
  raw_json = codes "{  }";
  descriptor = codes "{  }";
}

inspect_run : inspect_glb_reader parse version small_file 24 ≡ ok found
unfolding inspect_glb_reader text_eq from_le_bytes
inspect_run = refl

inspect_glb_reader_lem_example :
    (◌≡◌ {A = ℕ} 24 24)
    × (header_word (take 20 small_file) 8 ≡ 24)
    × (24 % 4 ≡ 0)
    × (0 < 4)
    × (4 % 4 ≡ 0)
    × (20 + 4 ≤ 24)
    × (codes "{  }" ≡ take 4 (drop 20 small_file))
    × (length (codes "{  }") ≡ 4)
    × (parse (codes "{  }") ≡ some (codes "{  }"))
inspect_glb_reader_lem_example =
    inspect_glb_reader_lem parse version small_file 24 found inspect_run

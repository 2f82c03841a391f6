-- ===== src/Mass/Tests.antt =====
-- Runs of the records of src/nosql.rs, with a text that is its own bytes.
pub mod Objects
use trueos_picasso.Prelude.{ℕ, ◌≡◌, refl, some, List, ◌∷◌, arith}
use trueos_picasso.Prelude.Result.{ok}
use trueos_picasso.Prelude.All.{All}
use trueos_picasso.Text.{codes}
use trueos_picasso.Mass.{ObjectInfo, Utf8, from_le_bytes, encode_record, decode_record}
use trueos_picasso.Mass.Codec.{IsByte, encode-decode_record}

pub same_bytes : (bytes : List ℕ) {s : List ℕ} → some bytes ≡ some s → s ≡ bytes
same_bytes bytes q = cc

abbrev pub ascii : Utf8
ascii = record {
  as_bytes = λ s. s;
  from_utf8 = λ bytes. some bytes;
  from_utf8-as_bytes = λ s. refl;
  as_bytes-from_utf8 = same_bytes;
}

abbrev rock_info : ObjectInfo
rock_info = record { id = 4; byte_length = 300; label = codes "rock" }

abbrev bytes : List ℕ
bytes = 1 ∷ 0 ∷ 44 ∷ 1 ∷ 0 ∷ 0 ∷ 0 ∷ 0 ∷ 0 ∷ 0 ∷ codes "rock"

bytes-IsByte : All IsByte bytes
bytes-IsByte = (
  omega arith,
  (
    omega arith,
    (
      omega arith,
      (
        omega arith,
        (
          omega arith,
          (
            omega arith,
            (
              omega arith,
              (
                omega arith,
                (
                  omega arith,
                  (omega arith, (omega arith, (omega arith, (omega arith, (omega arith, tt))))),
                ),
              ),
            ),
          ),
        ),
      ),
    ),
  ),
)

decode_run : decode_record ascii 4 bytes ≡ ok rock_info
unfolding decode_record from_le_bytes
decode_run = refl

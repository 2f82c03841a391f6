-- ===== src/Mass/Codec.antt =====
-- The catalog records of src/nosql.rs are read back, and only records are read.
use mathlib.Core.Path.{subst}
use trueos_picasso.Prelude.{
  ℕ, zero, suc, ◌+◌, ◌-◌, ◌*◌, ◌/◌, ◌%◌, ◌<◌, ◌≤◌, ◌≡◌, refl, sym, ap, ◌∙◌, some, List, [], ◌∷◌,
  ◌++◌, arith, length, take, drop, length-take, length-drop, ==_iff, take-append-drop, ◌==◌,
}
use trueos_picasso.Prelude.Result.{ok, ok_or-ok, guard-ok, ok-injective}
use trueos_picasso.Prelude.Words.{word}
use trueos_picasso.Prelude.All.{All}
use trueos_picasso.Text.{Text}
use trueos_picasso.Mass.{
  invalid_record, ObjectInfo, record_version, Utf8, to_le_bytes, from_le_bytes, slice_range,
  slice_from, encode_record, decode_record,
}

length-to_le_bytes : (width n : ℕ) → length (to_le_bytes width n) ≡ width
unfolding to_le_bytes
length-to_le_bytes zero n = refl
length-to_le_bytes (suc width) n = ap suc (length-to_le_bytes width (n / 256))

-- The numbers that fit in so many bytes.
abbrev capacity : ℕ → ℕ
capacity zero = 1
capacity (suc width) = 256 * capacity width

from-to_le_bytes : (width n : ℕ) → n < capacity width → from_le_bytes (to_le_bytes width n) ≡ n
unfolding to_le_bytes from_le_bytes
from-to_le_bytes zero n h = omega arith
from-to_le_bytes (suc width) n h = omega (arith, from-to_le_bytes width (n / 256) (omega arith))

abbrev pub IsByte : ℕ → Type 0
IsByte b = b < 256

to-from_le_bytes :
    (bytes : List ℕ) → All IsByte bytes → to_le_bytes (length bytes) (from_le_bytes bytes) ≡ bytes
unfolding to_le_bytes from_le_bytes
to-from_le_bytes [] h = refl
to-from_le_bytes (b ∷ bytes) h =
    let low : (b + 256 * from_le_bytes bytes) % 256 ≡ b = omega (arith, h.0) in
    let high : (b + 256 * from_le_bytes bytes) / 256 ≡ from_le_bytes bytes = omega (arith, h.0) in
    rw (low, high, to-from_le_bytes bytes h.1) refl

All-take : (n : ℕ) (xs : List ℕ) → All IsByte xs → All IsByte (take n xs)
All-take zero xs h = tt
All-take (suc n) [] h = tt
All-take (suc n) (x ∷ xs) h = (h.0, All-take n xs h.1)

All-drop : (n : ℕ) (xs : List ℕ) → All IsByte xs → All IsByte (drop n xs)
All-drop zero xs h = h
All-drop (suc n) [] h = tt
All-drop (suc n) (x ∷ xs) h = All-drop n xs h.1

drop_twice : (xs : List ℕ) → drop 8 (drop 2 xs) ≡ drop 10 xs
drop_twice [] = refl
drop_twice (x ∷ []) = refl
drop_twice (x ∷ y ∷ xs) = refl

-- The bytes of a record, taken apart and put together again.
parts : (bytes : List ℕ) → take 2 bytes ++ (take 8 (drop 2 bytes) ++ drop 10 bytes) ≡ bytes
parts bytes =
    ap (λ (t : List ℕ). take 2 bytes ++ (take 8 (drop 2 bytes) ++ t)) (sym (drop_twice bytes))
    ∙ ap (λ (t : List ℕ). take 2 bytes ++ t) (take-append-drop 8 (drop 2 bytes))
    ∙ take-append-drop 2 bytes

-- A field of `width` bytes is what its number is written as.
field :
    (width : ℕ) (bytes : List ℕ)
    → All IsByte bytes
    → length bytes ≡ width
    → to_le_bytes width (from_le_bytes bytes) ≡ bytes
field width bytes h len =
    subst (λ (w : ℕ). to_le_bytes w (from_le_bytes bytes) ≡ bytes) len (to-from_le_bytes bytes h)

slice_range-some :
    (bytes : List ℕ) (start end : ℕ) {part : List ℕ}
    → slice_range bytes start end ≡ some part
    → (end ≤ length bytes) × (part ≡ take (end - start) (drop start bytes))
slice_range-some bytes start end h = (ground arith, ground arith)

slice_from-some :
    (bytes : List ℕ) (start : ℕ) {part : List ℕ}
    → slice_from bytes start ≡ some part
    → part ≡ drop start bytes
slice_from-some bytes start h = ground arith

module _ (u : Utf8) where
  -- A record of a length that is a u64 is read back.
  pub decode-encode_record :
      (id byte_length : ℕ) (label : Text)
      → byte_length < word
      → decode_record u id (encode_record u byte_length label)
        ≡ ok (record { id = id; byte_length = byte_length; label = label })
  unfolding decode_record encode_record to_le_bytes
  decode-encode_record id byte_length label h = ground (
    arith,
    u.from_utf8-as_bytes label,
    from-to_le_bytes 8 byte_length h,
    from-to_le_bytes 2 1 (omega arith),
  )

  -- Bytes that are read as a record are exactly the record of what was read.
  pub encode-decode_record :
      (id : ℕ) (bytes : List ℕ) (info : ObjectInfo)
      → All IsByte bytes
      → decode_record u id bytes ≡ ok info
      → (info.id ≡ id) × (encode_record u info.byte_length info.label ≡ bytes)
  unfolding decode_record encode_record
  encode-decode_record id bytes info all h =
      let (version, q, h1) = ok_or-ok (slice_range bytes 0 2) invalid_record _ h in
      let (is_one, h2) = guard-ok (from_le_bytes version == record_version) invalid_record _ h1 in
      let (measure, q', h3) = ok_or-ok (slice_range bytes 2 10) invalid_record _ h2 in
      let (rest, q'', h4) = ok_or-ok (slice_from bytes 10) invalid_record _ h3 in
      let (label, text, h5) = ok_or-ok (u.from_utf8 rest) invalid_record _ h4 in
      let (long, v) = slice_range-some bytes 0 2 q in
      let (longer, m) = slice_range-some bytes 2 10 q' in
      let r = slice_from-some bytes 10 q'' in
      let one : from_le_bytes version ≡ 1 = (==_iff (from_le_bytes version) 1).0 is_one in
      let first : to_le_bytes 2 1 ≡ take 2 bytes =
        ap (to_le_bytes 2) (sym one ∙ ap from_le_bytes v)
        ∙ field 2 (take 2 bytes) (All-take 2 bytes all) (omega (arith, length-take 2 bytes)) in
      let second : to_le_bytes 8 (from_le_bytes measure) ≡ take 8 (drop 2 bytes) =
        ap (λ t. to_le_bytes 8 (from_le_bytes t)) m
        ∙ field 8 (take 8 (drop 2 bytes)) (All-take 8 (drop 2 bytes) (All-drop 2 bytes all))
            (omega (arith, length-take 8 (drop 2 bytes), length-drop 2 bytes)) in
      let third : u.as_bytes label ≡ drop 10 bytes = u.as_bytes-from_utf8 rest text ∙ r in
      subst (λ (i : ObjectInfo). (i.id ≡ id) × (encode_record u i.byte_length i.label ≡ bytes))
        (ok-injective h5)
        (
          refl,
          ap (λ (t : List ℕ). t ++ (to_le_bytes 8 (from_le_bytes measure) ++ u.as_bytes label))
                first
              ∙ ap (λ (t : List ℕ). take 2 bytes ++ (t ++ u.as_bytes label)) second
              ∙ ap (λ (t : List ℕ). take 2 bytes ++ (take 8 (drop 2 bytes) ++ t)) third
              ∙ parts bytes,
        )

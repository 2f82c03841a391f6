-- ===== src/RuntimeAssets/Backend/Window.antt =====
-- Windows into the RAM image of src/runtime_assets.rs, before and after a write.
use native.Mathlib.Decide.{dec_lt}
use native.Mathlib.Nat.{le_refl}
use trueos_picasso.RuntimeAssets.Backend.{resize}
use trueos_picasso.Prelude.{
  ℕ, zero, suc, ◌+◌, ◌-◌, ◌≤◌, ◌≡◌, ◌⊎◌, inl, inr, refl, ap, sym, ◌∙◌, List, [], ◌∷◌, ◌++◌, arith,
  length, take, drop, replicate, length-append, length-take, length-drop, take-append, drop-append,
}

-- The bytes of a window into a list.
abbrev pub window : (start count : ℕ) → List ℕ → List ℕ
window start count xs = take count (drop start xs)

take-take_append :
    (n o : ℕ) (xs ys : List ℕ) → n ≤ o → o ≤ length xs → take n (take o xs ++ ys) ≡ take n xs
take-take_append zero o xs ys h k = refl
take-take_append (suc n) zero xs ys h k = absurd (omega arith)
take-take_append (suc n) (suc o) [] ys h k = absurd (omega arith)
take-take_append (suc n) (suc o) (x ∷ xs) ys h k =
    ap (λ (t : List ℕ). x ∷ t) (take-take_append n o xs ys (omega arith) (omega arith))

-- A window that ends before the place of a change.
window_before :
    (p n o : ℕ) (xs ys : List ℕ)
    → p + n ≤ o
    → o ≤ length xs
    → window p n (take o xs ++ ys) ≡ window p n xs
window_before zero n o xs ys h k = take-take_append n o xs ys (omega arith) k
window_before (suc p) n zero xs ys h k = absurd (omega arith)
window_before (suc p) n (suc o) [] ys h k = absurd (omega arith)
window_before (suc p) n (suc o) (x ∷ xs) ys h k =
    window_before p n o xs ys (omega arith) (omega arith)

drop-append_past :
    (p : ℕ) (xs ys : List ℕ) → length xs ≤ p → drop p (xs ++ ys) ≡ drop (p - length xs) ys
drop-append_past p [] ys h = ap (λ (k : ℕ). drop k ys) (omega arith)
drop-append_past zero (x ∷ xs) ys h = absurd (omega arith)
drop-append_past (suc p) (x ∷ xs) ys h =
    drop-append_past p xs ys (omega arith) ∙ ap (λ (k : ℕ). drop k ys) (omega arith)

drop-nil : (n : ℕ) → ◌≡◌ {A = List ℕ} (drop n []) []
drop-nil zero = refl
drop-nil (suc n) = refl

drop-drop : (a b : ℕ) (xs : List ℕ) → drop a (drop b xs) ≡ drop (b + a) xs
drop-drop a zero xs = ap (λ (k : ℕ). drop k xs) (omega arith)
drop-drop a (suc b) [] = drop-nil a ∙ sym (drop-nil (suc b + a))
drop-drop a (suc b) (x ∷ xs) = drop-drop a b xs ∙ ap (λ (k : ℕ). drop k (x ∷ xs)) later
  where
    later : suc (b + a) ≡ suc b + a
    later = omega arith

take_past : (n : ℕ) (xs : List ℕ) → length xs ≤ n → take n xs ≡ xs
take_past zero [] h = refl
take_past zero (x ∷ xs) h = absurd (omega arith)
take_past (suc n) [] h = refl
take_past (suc n) (x ∷ xs) h = ap (λ (t : List ℕ). x ∷ t) (take_past n xs (omega arith))

length-replicate : (n a : ℕ) → length (replicate n a) ≡ n
length-replicate zero a = refl
length-replicate (suc n) a = ap suc (length-replicate n a)

-- The image after a write.
abbrev pub written : (o : ℕ) (bytes image : List ℕ) → List ℕ
written o bytes image = take o image ++ (bytes ++ drop (o + length bytes) image)

module _ (len : ℕ) (image : List ℕ) where
  pub length-resize : length (resize len image) ≡ len
  length-resize = omega (
    arith,
    length-append (take len image) (replicate (len - length image) 0),
    length-take len image,
    length-replicate (len - length image) 0,
  )

  -- What both images have room for stays.
  pub window-resize :
      (p n : ℕ)
      → p + n ≤ len
      → p + n ≤ length image
      → window p n (resize len image) ≡ window p n image
  window-resize p n h k = elim (dec_lt (length image) len) [
    | yes longer ↦
        ap (λ (t : List ℕ). window p n (t ++ replicate (len - length image) 0))
          (take_past len image (omega arith) ∙ sym (take_past (length image) image (le_refl _)))
        ∙ window_before p n (length image) image (replicate (len - length image) 0) k (le_refl _)
    | no shorter ↦ window_before p n len image (replicate (len - length image) 0) h (omega arith)
  ]

  -- What was added is zero.
  pub window-resize_zero :
      window (length image) (len - length image) (resize len image)
      ≡ replicate (len - length image) 0
  window-resize_zero = elim (dec_lt (length image) len) [
    | yes longer ↦
        ap
          (λ (t : List ℕ).
            window (length image) (len - length image) (t ++ replicate (len - length image) 0))
          (take_past len image (omega arith))
        ∙ ap (take (len - length image)) (drop-append image (replicate (len - length image) 0))
        ∙ take_past (len - length image) (replicate (len - length image) 0)
            (omega (arith, length-replicate (len - length image) 0))
    | no shorter ↦ nothing (len - length image) (resize len image) (omega arith)
  ]
    where
      nothing : (k : ℕ) (xs : List ℕ) → k ≡ 0 → window (length image) k xs ≡ replicate k 0
      nothing zero xs q = refl
      nothing (suc k) xs q = absurd (omega arith)

module _ (o : ℕ) (bytes image : List ℕ) (fits : o + length bytes ≤ length image) where
  pub length-written : length (written o bytes image) ≡ length image
  length-written = omega (
    arith,
    length-append (take o image) (bytes ++ drop (o + length bytes) image),
    length-append bytes (drop (o + length bytes) image),
    length-take o image,
    length-drop (o + length bytes) image,
  )

  from :
      (p : ℕ)
      → o ≤ p
      → drop p (written o bytes image) ≡ drop (p - o) (bytes ++ drop (o + length bytes) image)
  from p h =
      drop-append_past p (take o image) (bytes ++ drop (o + length bytes) image)
        (omega (arith, length-take o image))
      ∙ ap (λ (k : ℕ). drop k (bytes ++ drop (o + length bytes) image))
          (omega (arith, length-take o image))

  none_left : o - o ≡ 0
  none_left = omega arith

  pub window-written : window o (length bytes) (written o bytes image) ≡ bytes
  window-written =
      ap (take (length bytes)) (
        from o (omega arith)
        ∙ ap (λ (k : ℕ). drop k (bytes ++ drop (o + length bytes) image)) none_left)
      ∙ take-append bytes (drop (o + length bytes) image)

  pub window_apart :
      (p n : ℕ)
      → (p + n ≤ o) ⊎ (o + length bytes ≤ p)
      → window p n (written o bytes image) ≡ window p n image
  window_apart p n (inl h) =
      window_before p n o image (bytes ++ drop (o + length bytes) image) h (omega arith)
  window_apart p n (inr h) = ap (take n) (
      from p (omega arith)
      ∙ drop-append_past (p - o) bytes (drop (o + length bytes) image) (omega arith)
      ∙ drop-drop (p - o - length bytes) (o + length bytes) image
      ∙ ap (λ (k : ℕ). drop k image) (omega arith))

-- ===== src/Host/Chunks.antt =====
-- The chunks of a firmware image: the reference that the download loops are measured by.
use zephyr_development.Prelude.{
  ℕ, zero, suc, ◌≤◌, ◌<◌, ◌≡◌, refl, ap, ◌∙◌, List, [], ◌∷◌, ◌++◌, arith, length, take, drop, All,
  take-append-drop, length-take, length-drop, take_all, drop_all,
}
use mathlib.Core.List.{flatten}

-- Split off `k` bytes at a time, `fuel` times at most.
unfoldable pub chunks_of {ℓ} : {A : Type ℓ} → ℕ → ℕ → List A → List (List A)
chunks_of k zero xs = []
chunks_of k (suc fuel) [] = []
chunks_of k (suc fuel) (x ∷ xs) = take k (x ∷ xs) ∷ chunks_of k fuel (drop k (x ∷ xs))

unfoldable pub chunks {ℓ} : {A : Type ℓ} → ℕ → List A → List (List A)
unfolding chunks_of
chunks k xs = chunks_of k (length xs) xs

module _ {ℓ} {A : Type ℓ} (k : ℕ) (positive : 0 < k) where
  flatten-chunks_of :
      (fuel : ℕ) (xs : List A) → length xs ≤ fuel → flatten (chunks_of k fuel xs) ≡ xs
  unfolding chunks_of flatten
  flatten-chunks_of zero [] h = refl
  flatten-chunks_of zero (x ∷ xs) h = absurd (omega arith)
  flatten-chunks_of (suc fuel) [] h = refl
  flatten-chunks_of (suc fuel) (x ∷ xs) h =
      ap (◌++◌ (take k (x ∷ xs)))
        (flatten-chunks_of fuel (drop k (x ∷ xs)) (omega (arith, length-drop k (x ∷ xs))))
      ∙ take-append-drop k (x ∷ xs)

  -- Enough fuel is enough.
  pub chunks_of_fuel :
      (fuel more : ℕ) (xs : List A)
      → length xs ≤ fuel
      → length xs ≤ more
      → chunks_of k fuel xs ≡ chunks_of k more xs
  unfolding chunks_of
  chunks_of_fuel zero zero xs h m = refl
  chunks_of_fuel zero (suc more) [] h m = refl
  chunks_of_fuel zero (suc more) (x ∷ xs) h m = absurd (omega arith)
  chunks_of_fuel (suc fuel) zero [] h m = refl
  chunks_of_fuel (suc fuel) zero (x ∷ xs) h m = absurd (omega arith)
  chunks_of_fuel (suc fuel) (suc more) [] h m = refl
  chunks_of_fuel (suc fuel) (suc more) (x ∷ xs) h m = ap (◌∷◌ (take k (x ∷ xs))) (
      chunks_of_fuel fuel more (drop k (x ∷ xs)) (omega (arith, length-drop k (x ∷ xs)))
        (omega (arith, length-drop k (x ∷ xs))))

  -- Nothing is lost, added or reordered.
  pub flatten-chunks : (xs : List A) → flatten (chunks k xs) ≡ xs
  unfolding chunks
  flatten-chunks xs = flatten-chunks_of (length xs) xs (omega arith)

  chunks_of-sizes :
      (fuel : ℕ) (xs : List A) → All (λ c. (0 < length c) × (length c ≤ k)) (chunks_of k fuel xs)
  unfolding chunks_of
  chunks_of-sizes zero xs = tt
  chunks_of-sizes (suc fuel) [] = tt
  chunks_of-sizes (suc fuel) (x ∷ xs) = (
    (omega (arith, length-take k (x ∷ xs)), omega (arith, length-take k (x ∷ xs))),
    chunks_of-sizes fuel (drop k (x ∷ xs)),
  )

  -- No chunk is empty and none is longer than `k`.
  pub chunks-sizes : (xs : List A) → All (λ c. (0 < length c) × (length c ≤ k)) (chunks k xs)
  unfolding chunks
  chunks-sizes xs = chunks_of-sizes (length xs) xs

  -- What fits into one chunk is one chunk.
  pub chunks_single :
      (x : A) (xs : List A) → length (x ∷ xs) ≤ k → chunks k (x ∷ xs) ≡ (x ∷ xs) ∷ []
  unfolding chunks chunks_of
  chunks_single x xs h =
      rw (take_all k (x ∷ xs) h, drop_all k (x ∷ xs) h)
        (ap (◌∷◌ (x ∷ xs)) (chunks_of_nil (length xs)))
    where
      chunks_of_nil : (n : ℕ) → chunks_of {A = A} k n [] ≡ []
      chunks_of_nil zero = refl
      chunks_of_nil (suc n) = refl

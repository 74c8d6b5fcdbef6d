-- ===== src/MiscUtils/ChunkMap.antt =====
-- `chunk` beside `map`, for the columns of one table.
use vinium_lending.Prelude.{
  ℕ, zero, suc, ◌+◌, ◌-◌, ◌≡◌, refl, ap, ◌∙◌, List, [], ◌∷◌, ◌++◌, map, take, drop, Bool, true,
  false, if◌then◌else◌, map-append,
}
use vinium_lending.MiscUtils.{is_chunk_start, slice, chunk_from, chunk}

module _ {ℓ κ} {A : Type ℓ} {B : Type κ} (f : A → B) where
  drop-map : (n : ℕ) (xs : List A) → drop n (map f xs) ≡ map f (drop n xs)
  drop-map zero xs = refl
  drop-map (suc n) [] = refl
  drop-map (suc n) (x ∷ xs) = drop-map n xs

  take-map : (n : ℕ) (xs : List A) → take n (map f xs) ≡ map f (take n xs)
  take-map zero xs = refl
  take-map (suc n) [] = refl
  take-map (suc n) (x ∷ xs) = ap (λ t. f x ∷ t) (take-map n xs)

  slice-map : (xs : List A) (i j : ℕ) → slice (map f xs) i j ≡ map f (slice xs i j)
  slice-map xs i j = ap (take (j - i)) (drop-map i xs) ∙ take-map (j - i) (drop i xs)

  add_slice :
      (array : List A) (size i : ℕ) (prev : List (List A)) (b : Bool)
      → (if b then map (map f) prev ++ slice (map f array) i (i + size) ∷ [] else map (map f) prev)
        ≡ map (map f) (if b then prev ++ slice array i (i + size) ∷ [] else prev)
  add_slice array size i prev true = rw (map-append, slice-map array i (i + size)) refl
  add_slice array size i prev false = refl

  chunk_from-map :
      (array : List A) (size : ℕ) (xs : List A) (i : ℕ) (prev : List (List A))
      → chunk_from (map f array) size (map f xs) i (map (map f) prev)
        ≡ map (map f) (chunk_from array size xs i prev)
  unfolding chunk_from
  chunk_from-map array size [] i prev = refl
  chunk_from-map array size (x ∷ xs) i prev =
      ap (chunk_from (map f array) size (map f xs) (i + 1))
        (add_slice array size i prev (is_chunk_start i size))
      ∙ chunk_from-map array size xs (i + 1) _

  -- The chunks of a mapped array are the mapped chunks of the array, for every size.
  pub chunk-map :
      (array : List A) (size : ℕ) → chunk (map f array) size ≡ map (map f) (chunk array size)
  unfolding chunk
  chunk-map array size = chunk_from-map array size array 0 []

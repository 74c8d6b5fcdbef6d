-- ===== src/MiscUtils/Chunk.antt =====
-- How `chunk` cuts an array.
use vinium_lending.Prelude.{
  ℕ, zero, suc, ◌+◌, ◌-◌, ◌*◌, ◌%◌, ◌≤◌, ◌<◌, ◌≡◌, ◌≢◌, refl, ap, ◌∙◌, List, [], ◌∷◌, ◌++◌, arith,
  true, false, length, take, drop, concat, map, All, All-append, length-take, length-drop,
  length-append, concat-append, take-append-drop, append_assoc, append-nil,
}
use Prim.Native.Nat.add
use native.Mathlib.Numerals.{towards_suc}
use native.Mathlib.Decide.{dec_le}
use native.Mathlib.Nat.{add-zero, mod-add-mod, mod-eq_of_lt, zero-mod}
use vinium_lending.MiscUtils.{is_chunk_start, slice, chunk_from, chunk}

drop-nil {ℓ} : {A : Type ℓ} (k : ℕ) → drop {A = A} k [] ≡ []
drop-nil zero = refl
drop-nil (suc k) = refl

-- At a multiple of the size a chunk starts.
start_of_mod : (i size : ℕ) → 0 < size → i % size ≡ 0 → is_chunk_start i size ≡ true
start_of_mod i size p e = ground arith

mod_shift : (i k size : ℕ) → k < size → i % size ≡ 0 → (i + k) % size ≡ k
mod_shift i k size p e = rw (← mod-add-mod i size k, e, add.zero k) (mod-eq_of_lt p)

no_start_of_mod :
    (i k size : ℕ) → suc k < size → (i + suc k) % size ≡ 0 → is_chunk_start i size ≡ false
no_start_of_mod i k size p e = ground (arith, mod_shift i (suc k) size p)

next_mod : (i size : ℕ) → 0 < size → i % size ≡ 0 → ((i + 1) + (size - 1)) % size ≡ 0
next_mod i size p e = grind arith

drop-cons_suc {ℓ} :
    {A : Type ℓ} (i : ℕ) (array xs : List A) (x : A)
    → drop i array ≡ x ∷ xs
    → drop (i + 1) array ≡ xs
drop-cons_suc zero (y ∷ ys) xs x e = cc
drop-cons_suc zero [] xs x e = cc
drop-cons_suc (suc i) [] xs x e = cc
drop-cons_suc (suc i) (y ∷ ys) xs x e = rw (← drop-cons_suc i ys xs x e) (simp towards_suc)

take-append-drop_pred {ℓ} :
    {A : Type ℓ} (size : ℕ) (x : A) (xs : List A)
    → 0 < size
    → take size (x ∷ xs) ++ drop (size - 1) xs ≡ x ∷ xs
take-append-drop_pred zero x xs p = absurd (omega arith)
take-append-drop_pred (suc n) x xs p =
    let e : suc n - 1 ≡ n = omega arith in rw e (ap (λ t. x ∷ t) (take-append-drop n xs))

mul_far : (a b s : ℕ) → b < a → ¬ (a * s < suc b * s)
mul_far a b s h k = grind arith

mul_tight : (a b s : ℕ) → a * s < suc b * s → a * s ≤ b * s
mul_tight a b s h = elim (dec_le a b) [
  | yes p ↦ grind arith
  | no q ↦ absurd (mul_far a b s (omega arith) h)
]

next_count :
    (p n total s d : ℕ)
    → 0 < s
    → total * s < (p + 1) * s + d + s
    → d ≡ n - (s - 1)
    → total * s < p * s + suc n + s
next_count p n total s d pos h e = elim (dec_le (s - 1) n) [
  | yes q ↦ omega arith
  | no q ↦ omega (arith, mul_tight total (p + 1) s (grind arith))
]

-- A chunk as it may be sent: not empty, and no longer than the size.
abbrev pub Fits {ℓ} : {A : Type ℓ} → ℕ → List A → Type 0
Fits size c = (0 < length c) × (length c ≤ size)

module _ {ℓ} {A : Type ℓ} (array : List A) (size : ℕ) (pos : 0 < size) where
  -- The loop at index `i`, with `xs` left of the array and `k` entries to go to the next chunk.
  record IsAt (xs : List A) (i k : ℕ) : Type ℓ where
    rest : drop i array ≡ xs
    inside : k < size
    next : (i + k) % size ≡ 0

  start_IsAt : (x : A) (xs : List A) (i : ℕ) → IsAt (x ∷ xs) i 0 → IsAt xs (i + 1) (size - 1)
  start_IsAt x xs i at = record {
    rest = drop-cons_suc i array xs x at.rest;
    inside = omega arith;
    next = next_mod i size pos (rw add-zero at at.next);
  }

  inside_IsAt : (x : A) (xs : List A) (i k : ℕ) → IsAt (x ∷ xs) i (suc k) → IsAt xs (i + 1) k
  inside_IsAt x xs i k at = record {
    rest = drop-cons_suc i array xs x at.rest;
    inside = omega (arith, at.inside);
    next = let e : (i + 1) + k ≡ i + suc k = omega arith in rw e at.next;
  }

  starts_here : (xs : List A) (i : ℕ) → IsAt xs i 0 → is_chunk_start i size ≡ true
  starts_here xs i at = start_of_mod i size pos (rw add-zero at at.next)

  slice_at : (xs : List A) (i : ℕ) → IsAt xs i 0 → slice array i (i + size) ≡ take size xs
  slice_at xs i at = let e : (i + size) - i ≡ size = omega arith in rw (e, at.rest)

  concat-chunk_from :
      (xs : List A) (i k : ℕ) (prev : List (List A))
      → IsAt xs i k
      → concat (chunk_from array size xs i prev) ≡ concat prev ++ drop k xs
  unfolding chunk_from
  concat-chunk_from [] i k prev at = rw (drop-nil k, append-nil)
  concat-chunk_from (x ∷ xs) i zero prev at =
      rw (starts_here _ i at, slice_at _ i at)
        (concat-chunk_from xs (i + 1) (size - 1) (prev ++ take size (x ∷ xs) ∷ [])
            (start_IsAt x xs i at)
          ∙ simp (concat-append, append_assoc) (rw (take-append-drop_pred size x xs pos)))
  concat-chunk_from (x ∷ xs) i (suc k) prev at =
      rw (no_start_of_mod i k size at.inside at.next)
        (concat-chunk_from xs (i + 1) k prev (inside_IsAt x xs i k at))

  chunk_from-Fits :
      (xs : List A) (i k : ℕ) (prev : List (List A))
      → IsAt xs i k
      → All (Fits size) prev
      → All (Fits size) (chunk_from array size xs i prev)
  unfolding chunk_from
  chunk_from-Fits [] i k prev at h = h
  chunk_from-Fits (x ∷ xs) i zero prev at h =
      rw (starts_here _ i at, slice_at _ i at)
        (chunk_from-Fits xs (i + 1) (size - 1) _ (start_IsAt x xs i at)
          (All-append (Fits size) prev _ h (omega (arith, length-take size (x ∷ xs)), tt)))
  chunk_from-Fits (x ∷ xs) i (suc k) prev at h =
      rw (no_start_of_mod i k size at.inside at.next)
        (chunk_from-Fits xs (i + 1) k prev (inside_IsAt x xs i k at) h)

  length-chunk_from :
      (xs : List A) (i k : ℕ) (prev : List (List A))
      → IsAt xs i k
      → length (chunk_from array size xs i prev) * size
        < length prev * size + length (drop k xs) + size
  unfolding chunk_from
  length-chunk_from [] i k prev at = omega arith
  length-chunk_from (x ∷ xs) i zero prev at =
      rw (starts_here _ i at, slice_at _ i at)
        (next_count (length prev) (length xs) _ size _ pos
          (rw length-append at (
            length-chunk_from xs (i + 1) (size - 1) (prev ++ take size (x ∷ xs) ∷ [])
              (start_IsAt x xs i at)))
          (length-drop (size - 1) xs))
  length-chunk_from (x ∷ xs) i (suc k) prev at =
      rw (no_start_of_mod i k size at.inside at.next)
        (length-chunk_from xs (i + 1) k prev (inside_IsAt x xs i k at))

module _ {ℓ} {A : Type ℓ} where
  start_of_array : (array : List A) (size : ℕ) (pos : 0 < size) → IsAt array size pos array 0 0
  start_of_array array size pos = record {
    rest = refl;
    inside = pos;
    next = rw add-zero (zero-mod size);
  }

  -- For a positive size: the chunks one behind the other are the array, each chunk holds at least
  -- one and at most `size` entries, and there are as few chunks as that allows.
  pub chunk_partition :
      (array : List A) (size : ℕ)
      → 0 < size
      → (concat (chunk array size) ≡ array)
        × All (Fits size) (chunk array size)
        × (length (chunk array size) * size < length array + size)
  unfolding chunk
  chunk_partition array size pos =
      let at = start_of_array array size pos in
      (
        concat-chunk_from array size pos array 0 0 [] at,
        chunk_from-Fits array size pos array 0 0 [] at tt,
        omega (arith, length-chunk_from array size pos array 0 0 [] at),
      )

  singletons : (cs : List (List A)) → All (Fits 1) cs → cs ≡ map (λ x. x ∷ []) (concat cs)
  singletons [] h = refl
  singletons ([] ∷ cs) (p, h) = absurd (omega arith)
  singletons ((x ∷ []) ∷ cs) (p, h) = ap (λ t. (x ∷ []) ∷ t) (singletons cs h)
  singletons ((x ∷ y ∷ c) ∷ cs) (p, h) = absurd (omega arith)

  -- Chunks of size 1 are the single entries.
  pub chunk_by_one : (array : List A) → chunk array 1 ≡ map (λ x. x ∷ []) array
  chunk_by_one array =
      let (all, fits, _) = chunk_partition array 1 (omega arith) in
      singletons (chunk array 1) fits ∙ ap (λ t. map (λ x. x ∷ []) t) all

  -- An array with an entry has a chunk, for a positive size.
  pub chunk-ne-nil_of_pos : (x : A) (xs : List A) (size : ℕ) → 0 < size → chunk (x ∷ xs) size ≢ []
  chunk-ne-nil_of_pos x xs size pos e =
      let (all, _, _) = chunk_partition (x ∷ xs) size pos in
      let same : [] ≡ x ∷ xs = rw e at all in cc

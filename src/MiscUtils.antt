-- ===== src/MiscUtils.antt =====
-- helpers/misc-utils.ts: chunks of an array, filtered objects, the address test, the wait for a
-- transaction and impersonation.
pub mod Chunk
pub mod ChunkMap
pub mod Filter
use vinium_lending.Prelude.{
  ℕ, zero, suc, ◌+◌, ◌-◌, ◌%◌, String, Bool, true, false, not, ◌&&◌, Option, none, some, List, [],
  ◌∷◌, ◌++◌, if◌then◌else◌, nat_beq, take, drop, keys, lookup, insert, includes, Object, is_truthy,
  is_text, ◌==◌,
}
use vinium_lending.Effects.{
  Env, M, pure, throw, rejected, ok, err, requested, perform, for_each, ◌>>=◌, ◌>>◌,
}

-- `!(i % size)`: `i % 0` is NaN, which is falsy too.
abbrev pub is_chunk_start : ℕ → ℕ → Bool
is_chunk_start i size = if nat_beq size 0 then true else nat_beq (i % size) 0

-- `array.slice(from, to)`
abbrev pub slice {ℓ} : {A : Type ℓ} → List A → ℕ → ℕ → List A
slice xs from to = take (to - from) (drop from xs)

module _ {ℓ} {A : Type ℓ} where
  -- The `reduce` of `chunk`, over the entries left, the index and the chunks so far.
  pub chunk_from : List A → ℕ → List A → ℕ → List (List A) → List (List A)
  chunk_from array size [] i prev = prev
  chunk_from array size (x ∷ xs) i prev =
      chunk_from array size xs (i + 1)
        (if is_chunk_start i size then prev ++ slice array i (i + size) ∷ [] else prev)

  unfoldable pub chunk : List A → ℕ → List (List A)
  unfolding chunk_from
  chunk array size = chunk_from array size array 0 []

-- `filter` on the keys.
pub filter_keys : (String → Bool) → List String → List String
filter_keys fn [] = []
filter_keys fn (k ∷ ks) = let rest = filter_keys fn ks in if fn k then k ∷ rest else rest

module _ {ℓ} {V : Type ℓ} where
  -- The `reduce` of `filterMapBy`; every key is one of `raw`, so the read is never `undefined`.
  pub copy_keys : Object V → List String → Object V → Object V
  copy_keys raw [] obj = obj
  copy_keys raw (k ∷ ks) obj = elim (lookup k raw) [
    | none ↦ copy_keys raw ks obj
    | some v ↦ copy_keys raw ks (insert k v obj)
  ]

  unfoldable pub filter_map_by : Object V → (String → Bool) → Object V
  unfolding filter_keys copy_keys
  filter_map_by raw fn = copy_keys raw (filter_keys fn (keys raw)) []

  -- The `reduce` of `omit`.
  pub omit_from : Object V → List String → List String → Object V → Object V
  omit_from obj dropped [] acc = acc
  omit_from obj dropped (k ∷ ks) acc = omit_from obj dropped ks (
      if includes dropped k
      then acc
      else elim (lookup k obj) [ none ↦ acc | some v ↦ insert k v acc ])

  unfoldable pub omit : Object V → List String → Object V
  unfolding omit_from
  omit obj dropped = omit_from obj dropped (keys obj) []

module _ (env : Env) where
  unfoldable pub not_falsy_or_zero_address : Option String → Bool
  not_falsy_or_zero_address none = false
  not_falsy_or_zero_address (some address) =
      if not (is_truthy address)
      then false
      else env.is_address address && not (env.is_zero_address address)

  -- `tx.wait(1)`
  unfoldable pub wait_for_tx : M (Unit {0})
  wait_for_tx h = if env.mines h then (ok tt, h) else (err rejected, h)

  unfoldable pub impersonate_accounts_hardhat : List String → M (Unit {0})
  unfolding for_each
  impersonate_accounts_hardhat accounts =
      if is_text (env.getenv "TENDERLY") "true"
      then pure tt
      else for_each (λ account. perform env (requested "hardhat_impersonateAccount" (account ∷ [])))
          accounts

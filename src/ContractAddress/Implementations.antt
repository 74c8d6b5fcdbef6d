-- ===== src/ContractAddress/Implementations.antt =====
-- The implementations that `deployViTokenImplementations` considers.
use vinium_lending.Prelude.{
  String, ◌≡◌, refl, Bool, true, false, ◌||◌, List, [], ◌∷◌, ◌++◌, any, includes, Object,
  if◌then◌else◌, ◌==◌, eq_iff, arith, Bool-cases, inl, inr,
}
use mathlib.Core.Path.{subst}
use vinium_lending.Effects.{Env}
use vinium_lending.Types.Config.{IReserveParams}
use vinium_lending.ContractAddress.{implementations_from}

-- No text is listed twice.
abbrev pub IsDistinct : List String → Type 0
IsDistinct [] = Unit
IsDistinct (x ∷ xs) = (includes xs x ≡ false) × IsDistinct xs

-- `acc.add(id)` of a `Set`, as the loop does it.
abbrev added : List String → String → List String
added acc id = if includes acc id then acc else acc ++ id ∷ []

includes_append :
    (acc : List String) (id k : String) → includes (acc ++ id ∷ []) k ≡ (includes acc k || id == k)
includes_append [] id k = ground arith
includes_append (x ∷ acc) id k = ground (arith, includes_append acc id k)

or_false : (b : Bool) → b ≡ (b || false)
or_false true = refl
or_false false = refl

includes_self :
    (acc : List String) (id k : String)
    → includes acc id ≡ true
    → includes acc k ≡ (includes acc k || id == k)
includes_self acc id k there = elim (Bool-cases (id == k)) [
  | inl same ↦
      let held : includes acc k ≡ true =
        subst (λ t. includes acc t ≡ true) ((eq_iff id k).0 same) there in
      rw (same, held)
  | inr other ↦ rw other (or_false (includes acc k))
]

includes-added :
    (acc : List String) (id k : String) → includes (added acc id) k ≡ (includes acc k || id == k)
includes-added acc id k = elim (Bool-cases (includes acc id)) [
  | inl there ↦ rw there (includes_self acc id k there)
  | inr new ↦ rw new (includes_append acc id k)
]

append-IsDistinct :
    (acc : List String) (id : String)
    → includes acc id ≡ false
    → IsDistinct acc
    → IsDistinct (acc ++ id ∷ [])
append-IsDistinct [] id new distinct = (refl, tt)
append-IsDistinct (x ∷ acc) id new (once, distinct) = (
  ground (arith, includes_append acc id x, eq_iff x id, eq_iff id x),
  append-IsDistinct acc id (ground arith) distinct,
)

added-IsDistinct : (acc : List String) (id : String) → IsDistinct acc → IsDistinct (added acc id)
added-IsDistinct acc id distinct = elim (Bool-cases (includes acc id)) [
  | inl there ↦ rw there distinct
  | inr new ↦ rw new (append-IsDistinct acc id new distinct)
]

module _ (env : Env) where
  implementations_from_acc :
      (acc : List String) (reserves : Object IReserveParams)
      → IsDistinct acc
      → ((k : String)
          → includes (implementations_from env acc reserves) k
            ≡ (includes acc k || any (λ e. e.1.vi_token_impl == k) reserves))
        × IsDistinct (implementations_from env acc reserves)
  unfolding implementations_from
  implementations_from_acc acc [] distinct = ((λ k. ground arith), distinct)
  implementations_from_acc acc ((symbol, entry) ∷ reserves) distinct =
      let (same, rest) =
        implementations_from_acc (added acc entry.vi_token_impl) reserves
          (added-IsDistinct acc entry.vi_token_impl distinct) in
      ((λ k. ground (arith, same k, includes-added acc entry.vi_token_impl k)), rest)

  -- The list of implementations names each one that a reserve of the market uses, no other, and none
  -- of them twice.
  pub implementations_from-IsDistinct :
      (reserves : Object IReserveParams)
      → ((k : String)
          → includes (implementations_from env [] reserves) k
            ≡ any (λ e. e.1.vi_token_impl == k) reserves)
        × IsDistinct (implementations_from env [] reserves)
  implementations_from-IsDistinct reserves = implementations_from_acc [] reserves tt

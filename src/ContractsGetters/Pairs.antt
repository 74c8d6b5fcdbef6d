-- ===== src/ContractsGetters/Pairs.antt =====
-- The pairs that `getPairsTokenAggregator` of helpers/contracts-getters.ts returns.
use vinium_lending.Prelude.{
  String, ◌≡◌, refl, ap, ◌∙◌, not, Option-cases, inl, inr, none, some, List, [], ◌∷◌, ◌++◌, map,
  arith, keys, lookup, includes, Object, IsObject, append-nil, append_assoc,
}
use vinium_lending.MiscUtils.{omit}
use vinium_lending.MiscUtils.Filter.{filter_entries, omit-eq-filter_entries}
use vinium_lending.ContractsGetters.{
  find_index, entry_value, pairs_from, get_quote_currencies, get_pairs_token_aggregator,
}

-- The index search and the read of the entry together are a lookup.
pub entry_value-find_index {ℓ} :
    {V : Type ℓ} (k : String) (o : Object V) → entry_value o (find_index k (keys o)) ≡ lookup k o
unfolding find_index
entry_value-find_index k [] = refl
entry_value-find_index k ((j, v) ∷ o) = ground (arith, entry_value-find_index k o)

-- The pairs of address and source, for the assets that have a source.
abbrev pub priced : Object String → Object String → List (String × String)
priced aggregators [] = []
priced aggregators ((symbol, address) ∷ assets) = elim (lookup symbol aggregators) [
  | none ↦ priced aggregators assets
  | some source ↦ (address, source) ∷ priced aggregators assets
]

pairs_from-eq-priced :
    (aggregators assets : Object String) (acc : List (String × String))
    → pairs_from aggregators assets acc ≡ acc ++ priced aggregators assets
unfolding pairs_from
pairs_from-eq-priced aggregators [] acc = rw append-nil
pairs_from-eq-priced aggregators ((symbol, address) ∷ assets) acc =
    rw (entry_value-find_index symbol aggregators)
      (elim (Option-cases (lookup symbol aggregators)) [
        | inl missing ↦ rw (missing, priced) (pairs_from-eq-priced aggregators assets acc)
        | inr (source, found) ↦
            rw (found, priced)
              (pairs_from-eq-priced aggregators assets (acc ++ (address, source) ∷ [])
                ∙ rw append_assoc)
      ])

abbrev columns : List (String × String) → List String × List String
columns pairs = (map (λ p. p.0) pairs, map (λ p. p.1) pairs)

-- On an object of assets: the tokens and the sources are the two columns of one list of pairs, which
-- holds, in the order of the assets, each asset that is no quote currency and has a source.
pub get_pairs_token_aggregator-priced :
    (assets aggregators : Object String) (quote : String)
    → IsObject assets
    → let pairs =
        priced aggregators
          (filter_entries (λ k. not (includes (get_quote_currencies quote) k)) assets) in
      get_pairs_token_aggregator assets aggregators quote
      ≡ (map (λ p. p.0) pairs, map (λ p. p.1) pairs)
unfolding get_pairs_token_aggregator
get_pairs_token_aggregator-priced assets aggregators quote h = ap columns (
    pairs_from-eq-priced aggregators (omit assets (get_quote_currencies quote)) []
    ∙ ap (priced aggregators) (omit-eq-filter_entries assets (get_quote_currencies quote) h))

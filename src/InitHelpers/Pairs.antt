-- ===== src/InitHelpers/Pairs.antt =====
-- When `getPairsTokenAggregator` of helpers/init-helpers.ts returns, and what.
use vinium_lending.Prelude.{
  String, ◌≡◌, refl, ap, ◌∙◌, ◌≢◌, not, Option-cases, inl, inr, Option, none, some, some, List, [],
  ◌∷◌, map, arith, lookup, includes, Object, IsObject, All,
}
use vinium_lending.Effects.{ok, err, type_error, Result}
use vinium_lending.MiscUtils.Filter.{filter_entries, omit-eq-filter_entries}
use vinium_lending.ContractsGetters.Pairs.{entry_value-find_index, priced}
use vinium_lending.InitHelpers.{pairs_of, get_pairs_token_aggregator}

-- Every asset has a price source.
abbrev pub IsPriced : Object String → Object String → Type 0
IsPriced aggregators assets = All (λ e. lookup e.0 aggregators ≢ none) assets

ne_none : {o : Option String} {a : String} → o ≡ some a → o ≢ none
ne_none e n = cc

pairs_of-priced :
    (aggregators assets : Object String)
    → IsPriced aggregators assets
    → pairs_of aggregators assets ≡ ok (priced aggregators assets)
unfolding pairs_of
pairs_of-priced aggregators [] h = refl
pairs_of-priced aggregators ((symbol, address) ∷ assets) (known, h) =
    ground (arith, entry_value-find_index symbol aggregators, pairs_of-priced aggregators assets h)

pairs_of_unpriced :
    (aggregators assets : Object String)
    → ¬ (IsPriced aggregators assets)
    → pairs_of aggregators assets ≡ err type_error
unfolding pairs_of
pairs_of_unpriced aggregators [] h = absurd (h tt)
pairs_of_unpriced aggregators ((symbol, address) ∷ assets) h =
    rw (entry_value-find_index symbol aggregators, pairs_of)
      (elim (Option-cases (lookup symbol aggregators)) [
        | inl missing ↦ rw (missing, pairs_of)
        | inr (source, found) ↦
            let rest_unpriced : ¬ (IsPriced aggregators assets) =
              λ r. h ((λ e. ne_none found e), r) in
            rw (found, pairs_of, pairs_of_unpriced aggregators assets rest_unpriced)
      ])

abbrev pub named_out : List String
named_out = "ETH" ∷ "USD" ∷ "WETH" ∷ []

abbrev columns : Result (List (String × String)) → Result (List String × List String)
columns (ok pairs) = ok (map (λ p. p.0) pairs, map (λ p. p.1) pairs)
columns (err e) = err e

-- On an object of assets: it returns exactly if every asset but ETH, USD and WETH has a source, else
-- it throws a TypeError; and what it returns are the two columns of the pairs of address and source.
pub get_pairs_token_aggregator_total :
    (assets aggregators : Object String)
    → IsObject assets
    → let kept = filter_entries (λ k. not (includes named_out k)) assets in
      let pairs = priced aggregators kept in
      (IsPriced aggregators kept
        → get_pairs_token_aggregator assets aggregators
          ≡ ok (map (λ p. p.0) pairs, map (λ p. p.1) pairs))
      × (¬ (IsPriced aggregators kept)
          → get_pairs_token_aggregator assets aggregators ≡ err type_error)
unfolding get_pairs_token_aggregator
get_pairs_token_aggregator_total assets aggregators h =
    let kept = omit-eq-filter_entries assets named_out h in
    (
      λ known. ap columns (ap (pairs_of aggregators) kept ∙ pairs_of-priced aggregators _ known),
      λ unknown.
          ap columns (ap (pairs_of aggregators) kept ∙ pairs_of_unpriced aggregators _ unknown),
    )

-- ===== src/Tasks/NewAsset/Symbols.antt =====
-- Which symbols `external:deploy-new-asset` accepts, and what it does for them.
use text.Mathlib.TextLemmas.{append_cancel_left}
use vinium_lending.Prelude.{
  String, Bool, true, false, ◌&&◌, ◌≡◌, refl, sym, ap, ◌∙◌, Option, none, some, List, [], ◌∷◌, map,
  ◌==◌, eq_iff, cat, arith, truthy, is_truthy, lookup, includes, is_text, keys, Object,
  if◌then◌else◌, All, Bool-cases, inl, inr,
}
use vinium_lending.Effects.{Env, History, Result, ok, err, pure, wrong_reserve_asset_setup, resume}
use vinium_lending.Markets.{avalanche_config}
use vinium_lending.Tasks.NewAsset.{is_some, is_listed_symbol, is_symbol_valid, deploy_new_asset}

-- The symbols of the market's reserves.
abbrev pub market_symbols : List String
market_symbols = "SAVAX" ∷ "USDC" ∷ "USDT" ∷ "DAI" ∷ "WETH" ∷ "BTCB" ∷ "GRAPE" ∷ "WAVAX" ∷ []

beq-cat : (p s t : String) → (cat p s == cat p t) ≡ (s == t)
beq-cat p s t = elim (Bool-cases (s == t)) [
  | inl e ↦ (eq_iff (cat p s) (cat p t)).1 (ap (cat p) ((eq_iff s t).0 e)) ∙ sym e
  | inr e ↦ elim (Bool-cases (cat p s == cat p t)) [
    | inl f ↦ f ∙ sym ((eq_iff s t).1 (append_cancel_left p s t ((eq_iff (cat p s) (cat p t)).0 f)))
    | inr f ↦ rw (e, f) refl
  ]
]

-- A prefix that all have does not matter.
includes-cat :
    (p : String) (ks : List String) (s : String)
    → includes (map (cat p) ks) (cat p s) ≡ includes ks s
includes-cat p [] s = refl
includes-cat p (k ∷ ks) s = rw (beq-cat p k s, includes-cat p ks s) refl

named-includes :
    (p : String) (ks : List String) (s : String)
    → is_text (lookup s (map (λ k. (k, cat p k)) ks)) (cat p s) ≡ includes ks s
named-includes p [] s = refl
named-includes p (k ∷ ks) s = elim (Bool-cases (k == s)) [
  | inl e ↦ rw (e, beq-cat p k s, e) refl
  | inr e ↦ rw e (named-includes p ks s)
]

-- Where every entry has an address, an entry's address is one.
listed-includes :
    (assets : Object String) (s : String)
    → All (λ e. is_truthy e.1 ≡ true) assets
    → is_some (truthy (lookup s assets)) ≡ includes (keys assets) s
listed-includes [] s all = refl
listed-includes ((k, a) ∷ assets) s (first, rest) = elim (Bool-cases (k == s)) [
  | inl e ↦ rw (e, first) refl
  | inr e ↦ rw e (listed-includes assets s rest)
]

-- All symbols that have a strategy.
abbrev strategy_symbols : List String
strategy_symbols =
    "SAVAX" ∷ "USDC" ∷ "USDT" ∷ "DAI" ∷ "WETH" ∷ "BTCB" ∷ "WBTC" ∷ "GRAPE" ∷ "WAVAX" ∷ "VINIUM"
    ∷ "MIM" ∷ "WINE" ∷ "MGRAPEMIN" ∷ []

abbrev avalanche_assets : Env → Object String
avalanche_assets env = or_empty (lookup "avalanche" (avalanche_config env.decimals).reserve_assets)
  where
    or_empty : Option (Object String) → Object String
    or_empty none = []
    or_empty (some assets) = assets

-- A market symbol has a strategy.
has_strategy : (s : String) → includes market_symbols s ≡ true → includes strategy_symbols s ≡ true
has_strategy s = ground (arith)

-- The outcome of the three tests.
abbrev outcome : Bool → Bool → Bool → History → Result Bool × History
outcome has_config is_listed is_named h =
    (if has_config then pure (is_listed && is_named) else pure false) h

outcome_of_tests : (a b : Bool) (h : History) → (b ≡ true → a ≡ true) → outcome a b b h ≡ (ok b, h)
outcome_of_tests true true h listed = refl
outcome_of_tests true false h listed = refl
outcome_of_tests false true h listed = ground (arith, listed refl)
outcome_of_tests false false h listed = refl

-- On the network avalanche, exactly the symbols of the market's reserves are valid: each has a
-- strategy, an address and a place in the market's configuration. The test does nothing.
pub is_symbol_valid_lem :
    (env : Env) (s : String) (h : History)
    → is_symbol_valid env s "avalanche" h ≡ (ok (includes market_symbols s), h)
unfolding is_symbol_valid is_listed_symbol
is_symbol_valid_lem env s h =
    (λ i.
      outcome (includes-cat "strategy" strategy_symbols s i)
        (listed-includes (avalanche_assets env) s
          (refl, (refl, (refl, (refl, (refl, (refl, (refl, (refl, tt)))))))) i)
        (named-includes "strategy" market_symbols s i) h)
    ∙ outcome_of_tests (includes strategy_symbols s) (includes market_symbols s) h (has_strategy s)

-- On the network avalanche, a symbol that is not one of the market's reserves is refused with the
-- script's own error, and nothing is done.
pub deploy_new_asset_refused :
    (env : Env) (s : String) (verify : Bool) (h : History)
    → env.network_name ≡ "avalanche"
    → includes market_symbols s ≡ false
    → deploy_new_asset env s verify h ≡ (err (wrong_reserve_asset_setup s env.network_name), h)
unfolding deploy_new_asset
deploy_new_asset_refused env s verify h network unlisted = ap (resume _) (
    ap (λ n. is_symbol_valid env s n h) network
    ∙ (is_symbol_valid_lem env s h ∙ ap (λ b. (ok b, h)) unlisted))

-- ===== src/Markets/Prices.antt =====
-- The constants of helpers/constants.ts that the markets use.
use vinium_lending.Prelude.{String, [], ◌∷◌, Object}
use vinium_lending.Effects.{Decimals}

module _ (d : Decimals) where
  -- `MOCK_CHAINLINK_AGGREGATORS_PRICES`
  abbrev pub mock_chainlink_aggregators_prices : Object String
  mock_chainlink_aggregators_prices =
      ("VINIUM", d.ether_times "0.003620948469")
      ∷ ("BAT", d.ether_times "0.00137893825230")
      ∷ ("BUSD", d.ether_times "0.00736484")
      ∷ ("DAI", d.ether_times "0.00369068412860")
      ∷ ("ENJ", d.ether_times "0.00029560")
      ∷ ("KNC", d.ether_times "0.001072")
      ∷ ("LINK", d.ether_times "0.009955")
      ∷ ("MANA", d.ether_times "0.000158")
      ∷ ("MKR", d.ether_times "2.508581")
      ∷ ("REN", d.ether_times "0.00065133")
      ∷ ("SNX", d.ether_times "0.00442616")
      ∷ ("SUSD", d.ether_times "0.00364714136416")
      ∷ ("TUSD", d.ether_times "0.00364714136416")
      ∷ ("UNI", d.ether_times "0.00536479")
      ∷ ("USDC", d.ether_times "0.00367714136416")
      ∷ ("USDT", d.ether_times "0.00369068412860")
      ∷ ("MIM", d.ether_times "0.00369068412860")
      ∷ ("WETH", d.ether_times "1")
      ∷ ("WBTC", d.ether_times "47.332685")
      ∷ ("YFI", d.ether_times "22.407436")
      ∷ ("ZRX", d.ether_times "0.001151")
      ∷ ("UniDAIWETH", d.ether_times "22.407436")
      ∷ ("UniWBTCWETH", d.ether_times "22.407436")
      ∷ ("UniVINIUMWETH", d.ether_times "0.003620948469")
      ∷ ("UniBATWETH", d.ether_times "22.407436")
      ∷ ("UniDAIUSDC", d.ether_times "22.407436")
      ∷ ("UniCRVWETH", d.ether_times "22.407436")
      ∷ ("UniLINKWETH", d.ether_times "0.009955")
      ∷ ("UniMKRWETH", d.ether_times "22.407436")
      ∷ ("UniRENWETH", d.ether_times "22.407436")
      ∷ ("UniSNXWETH", d.ether_times "22.407436")
      ∷ ("UniUNIWETH", d.ether_times "22.407436")
      ∷ ("UniUSDCWETH", d.ether_times "22.407436")
      ∷ ("UniWBTCUSDC", d.ether_times "22.407436")
      ∷ ("UniYFIWETH", d.ether_times "22.407436")
      ∷ ("BptWBTCWETH", d.ether_times "22.407436")
      ∷ ("BptBALWETH", d.ether_times "22.407436")
      ∷ ("WMATIC", d.ether_times "0.003620948469")
      ∷ ("STAKE", d.ether_times "0.003620948469")
      ∷ ("xSUSHI", d.ether_times "0.00913428586")
      ∷ ("WAVAX", d.ether_times "0.006051936629")
      ∷ ("USD", "5848466240000000")
      ∷ []

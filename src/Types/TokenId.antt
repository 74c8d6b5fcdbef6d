-- ===== src/Types/TokenId.antt =====
-- The enum `TokenContractId` of helpers/types.ts, whose keys and texts are the token symbols.
use vinium_lending.Prelude.{String, List, [], ◌∷◌}

-- `Object.keys(TokenContractId)`
abbrev pub token_contract_ids : List String
token_contract_ids =
    "DAI" ∷ "VINIUM" ∷ "TUSD" ∷ "BAT" ∷ "WETH" ∷ "USDC" ∷ "USDT" ∷ "SUSD" ∷ "ZRX" ∷ "MKR" ∷ "WBTC"
    ∷ "LINK" ∷ "KNC" ∷ "MANA" ∷ "REN" ∷ "SNX" ∷ "BUSD" ∷ "USD" ∷ "YFI" ∷ "UNI" ∷ "ENJ" ∷ "SAVAX"
    ∷ "GRAPE" ∷ "BTCB" ∷ "UniDAIWETH" ∷ "UniWBTCWETH" ∷ "UniVINIUMWETH" ∷ "UniBATWETH"
    ∷ "UniDAIUSDC" ∷ "UniCRVWETH" ∷ "UniLINKWETH" ∷ "UniMKRWETH" ∷ "UniRENWETH" ∷ "UniSNXWETH"
    ∷ "UniUNIWETH" ∷ "UniUSDCWETH" ∷ "UniWBTCUSDC" ∷ "UniYFIWETH" ∷ "BptWBTCWETH" ∷ "BptBALWETH"
    ∷ "WMATIC" ∷ "STAKE" ∷ "xSUSHI" ∷ "WAVAX" ∷ []

-- ===== src/ContractsHelpers/CallData.antt =====
-- The builders of the adapters' call data, of helpers/contracts-helpers.ts. The encoder of ethers is
-- a parameter: it is given the names of the Solidity types, and the values. A `BigNumberish` and a
-- `string | Buffer` are texts.
use vinium_lending.Prelude.{String, Bool, List, [], ◌∷◌, map}

pub data AbiScalar : Type 0 where
  an_address some_number some_bytes : String → AbiScalar
  a_flag : Bool → AbiScalar

pub data AbiValue : Type 0 where
  scalar : AbiScalar → AbiValue
  array_of : List AbiScalar → AbiValue
  tuple_of : List AbiScalar → AbiValue

module _ {A : Type 0} (encode : List String → List AbiValue → A) where
  unfoldable pub build_liquidity_swap_params :
      (assets min_amounts swap_all_balances permit_amounts deadlines v r s : List String)
      (use_eth_path : List Bool)
      → A
  build_liquidity_swap_params assets min_amounts swap_all_balances permit_amounts deadlines v r s
        use_eth_path =
      encode
        ("address[]" ∷ "uint256[]" ∷ "bool[]" ∷ "uint256[]" ∷ "uint256[]" ∷ "uint8[]" ∷ "bytes32[]"
          ∷ "bytes32[]" ∷ "bool[]" ∷ [])
        (array_of (map an_address assets)
          ∷ array_of (map some_number min_amounts)
          ∷ array_of (map some_number swap_all_balances)
          ∷ array_of (map some_number permit_amounts)
          ∷ array_of (map some_number deadlines)
          ∷ array_of (map some_number v)
          ∷ array_of (map some_bytes r)
          ∷ array_of (map some_bytes s)
          ∷ array_of (map a_flag use_eth_path)
          ∷ [])

  unfoldable pub build_repay_adapter_params :
      (collateral_asset collateral_amount rate_mode permit_amount deadline v r s : String)
      (use_eth_path : Bool)
      → A
  build_repay_adapter_params collateral_asset collateral_amount rate_mode permit_amount deadline v r
        s use_eth_path =
      encode
        ("address" ∷ "uint256" ∷ "uint256" ∷ "uint256" ∷ "uint256" ∷ "uint8" ∷ "bytes32" ∷ "bytes32"
          ∷ "bool" ∷ [])
        (scalar (an_address collateral_asset)
          ∷ scalar (some_number collateral_amount)
          ∷ scalar (some_number rate_mode)
          ∷ scalar (some_number permit_amount)
          ∷ scalar (some_number deadline)
          ∷ scalar (some_number v)
          ∷ scalar (some_bytes r)
          ∷ scalar (some_bytes s)
          ∷ scalar (a_flag use_eth_path)
          ∷ [])

  unfoldable pub build_flash_liquidation_adapter_params :
      (collateral_asset debt_asset user debt_to_cover : String) (use_eth_path : Bool) → A
  build_flash_liquidation_adapter_params collateral_asset debt_asset user debt_to_cover
        use_eth_path =
      encode ("address" ∷ "address" ∷ "address" ∷ "uint256" ∷ "bool" ∷ []) (
        scalar (an_address collateral_asset)
        ∷ scalar (an_address debt_asset)
        ∷ scalar (an_address user)
        ∷ scalar (some_number debt_to_cover)
        ∷ scalar (a_flag use_eth_path)
        ∷ [])

  unfoldable pub build_para_swap_liquidity_swap_params :
      (asset_to_swap_to min_amount swap_all_balance_offset swap_calldata augustus permit_amount
        deadline v r s : String)
      → A
  build_para_swap_liquidity_swap_params asset_to_swap_to min_amount swap_all_balance_offset
        swap_calldata augustus permit_amount deadline v r s =
      encode
        ("address" ∷ "uint256" ∷ "uint256" ∷ "bytes" ∷ "address"
          ∷ "tuple(uint256,uint256,uint8,bytes32,bytes32)" ∷ [])
        (scalar (an_address asset_to_swap_to)
          ∷ scalar (some_number min_amount)
          ∷ scalar (some_number swap_all_balance_offset)
          ∷ scalar (some_bytes swap_calldata)
          ∷ scalar (an_address augustus)
          ∷ tuple_of (
              some_number permit_amount
              ∷ some_number deadline
              ∷ some_number v
              ∷ some_bytes r
              ∷ some_bytes s
              ∷ [])
          ∷ [])

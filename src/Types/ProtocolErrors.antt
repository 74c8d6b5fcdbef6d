-- ===== src/Types/ProtocolErrors.antt =====
-- The enum `ProtocolErrors` of helpers/types.ts: what the contracts revert with.
use vinium_lending.Prelude.{
  String, ◌≡◌, refl, Option, none, some, List, [], ◌∷◌, if◌then◌else◌, ◌==◌,
}

data ProtocolErrors : Type 0 where
  caller_not_pool_admin vl_invalid_amount vl_no_active_reserve vl_reserve_frozen : ProtocolErrors
  vl_current_available_liquidity_not_enough vl_not_enough_available_user_balance : ProtocolErrors
  vl_transfer_not_allowed vl_borrowing_not_enabled : ProtocolErrors
  vl_invalid_interest_rate_mode_selected vl_collateral_balance_is_0 : ProtocolErrors
  vl_health_factor_lower_than_liquidation_threshold : ProtocolErrors
  vl_collateral_cannot_cover_new_borrow vl_stable_borrowing_not_enabled : ProtocolErrors
  vl_collateral_same_as_borrowing_currency : ProtocolErrors
  vl_amount_bigger_than_max_loan_size_stable vl_no_debt_of_selected_type : ProtocolErrors
  vl_no_explicit_amount_to_repay_on_behalf vl_no_stable_rate_loan_in_reserve : ProtocolErrors
  vl_no_variable_rate_loan_in_reserve vl_underlying_balance_not_greater_than_0 : ProtocolErrors
  vl_deposit_already_in_use lp_not_enough_stable_borrow_balance : ProtocolErrors
  lp_interest_rate_rebalance_conditions_not_met lp_liquidation_call_failed : ProtocolErrors
  lp_not_enough_liquidity_to_borrow lp_requested_amount_too_small : ProtocolErrors
  lp_inconsistent_protocol_actual_balance lp_caller_not_lending_pool_configurator : ProtocolErrors
  lp_inconsistent_flashloan_params ct_caller_must_be_lending_pool : ProtocolErrors
  ct_cannot_give_allowance_to_himself ct_transfer_amount_not_gt_0 : ProtocolErrors
  rl_reserve_already_initialized lpc_reserve_liquidity_not_0 : ProtocolErrors
  lpc_invalid_vitoken_pool_address lpc_invalid_stable_debt_token_pool_address : ProtocolErrors
  lpc_invalid_variable_debt_token_pool_address : ProtocolErrors
  lpc_invalid_stable_debt_token_underlying_address : ProtocolErrors
  lpc_invalid_variable_debt_token_underlying_address : ProtocolErrors
  lpc_invalid_addresses_provider_id lpc_caller_not_emergency_admin : ProtocolErrors
  lpapr_provider_not_registered lpcm_health_factor_not_below_threshold : ProtocolErrors
  lpcm_collateral_cannot_be_liquidated : ProtocolErrors
  lpcm_specified_currency_not_borrowed_by_user : ProtocolErrors
  lpcm_not_enough_liquidity_to_liquidate lpcm_no_errors lp_invalid_flashloan_mode : ProtocolErrors
  math_multiplication_overflow math_addition_overflow math_division_by_zero : ProtocolErrors
  rl_liquidity_index_overflow rl_variable_borrow_index_overflow : ProtocolErrors
  rl_liquidity_rate_overflow rl_variable_borrow_rate_overflow : ProtocolErrors
  rl_stable_borrow_rate_overflow ct_invalid_mint_amount : ProtocolErrors
  lp_failed_repay_with_collateral ct_invalid_burn_amount : ProtocolErrors
  lp_borrow_allowance_not_enough lp_failed_collateral_swap : ProtocolErrors
  lp_invalid_equal_assets_to_swap lp_reentrancy_not_allowed : ProtocolErrors
  lp_caller_must_be_an_vitoken lp_is_paused lp_no_more_reserves_allowed : ProtocolErrors
  lp_invalid_flash_loan_executor_return rc_invalid_ltv rc_invalid_liq_threshold : ProtocolErrors
  rc_invalid_liq_bonus rc_invalid_decimals rc_invalid_reserve_factor : ProtocolErrors
  lpapr_invalid_addresses_provider_id invalid_from_balance_after_transfer : ProtocolErrors
  invalid_to_balance_after_transfer invalid_owner_revert_msg invalid_hf : ProtocolErrors
  transfer_amount_exceeds_balance safeerc20_lowlevel_call : ProtocolErrors

-- The text of a member.
error_text : ProtocolErrors → String
error_text caller_not_pool_admin = "33"
error_text vl_invalid_amount = "1"
error_text vl_no_active_reserve = "2"
error_text vl_reserve_frozen = "3"
error_text vl_current_available_liquidity_not_enough = "4"
error_text vl_not_enough_available_user_balance = "5"
error_text vl_transfer_not_allowed = "6"
error_text vl_borrowing_not_enabled = "7"
error_text vl_invalid_interest_rate_mode_selected = "8"
error_text vl_collateral_balance_is_0 = "9"
error_text vl_health_factor_lower_than_liquidation_threshold = "10"
error_text vl_collateral_cannot_cover_new_borrow = "11"
error_text vl_stable_borrowing_not_enabled = "12"
error_text vl_collateral_same_as_borrowing_currency = "13"
error_text vl_amount_bigger_than_max_loan_size_stable = "14"
error_text vl_no_debt_of_selected_type = "15"
error_text vl_no_explicit_amount_to_repay_on_behalf = "16"
error_text vl_no_stable_rate_loan_in_reserve = "17"
error_text vl_no_variable_rate_loan_in_reserve = "18"
error_text vl_underlying_balance_not_greater_than_0 = "19"
error_text vl_deposit_already_in_use = "20"
error_text lp_not_enough_stable_borrow_balance = "21"
error_text lp_interest_rate_rebalance_conditions_not_met = "22"
error_text lp_liquidation_call_failed = "23"
error_text lp_not_enough_liquidity_to_borrow = "24"
error_text lp_requested_amount_too_small = "25"
error_text lp_inconsistent_protocol_actual_balance = "26"
error_text lp_caller_not_lending_pool_configurator = "27"
error_text lp_inconsistent_flashloan_params = "28"
error_text ct_caller_must_be_lending_pool = "29"
error_text ct_cannot_give_allowance_to_himself = "30"
error_text ct_transfer_amount_not_gt_0 = "31"
error_text rl_reserve_already_initialized = "32"
error_text lpc_reserve_liquidity_not_0 = "34"
error_text lpc_invalid_vitoken_pool_address = "35"
error_text lpc_invalid_stable_debt_token_pool_address = "36"
error_text lpc_invalid_variable_debt_token_pool_address = "37"
error_text lpc_invalid_stable_debt_token_underlying_address = "38"
error_text lpc_invalid_variable_debt_token_underlying_address = "39"
error_text lpc_invalid_addresses_provider_id = "40"
error_text lpc_caller_not_emergency_admin = "76"
error_text lpapr_provider_not_registered = "41"
error_text lpcm_health_factor_not_below_threshold = "42"
error_text lpcm_collateral_cannot_be_liquidated = "43"
error_text lpcm_specified_currency_not_borrowed_by_user = "44"
error_text lpcm_not_enough_liquidity_to_liquidate = "45"
error_text lpcm_no_errors = "46"
error_text lp_invalid_flashloan_mode = "47"
error_text math_multiplication_overflow = "48"
error_text math_addition_overflow = "49"
error_text math_division_by_zero = "50"
error_text rl_liquidity_index_overflow = "51"
error_text rl_variable_borrow_index_overflow = "52"
error_text rl_liquidity_rate_overflow = "53"
error_text rl_variable_borrow_rate_overflow = "54"
error_text rl_stable_borrow_rate_overflow = "55"
error_text ct_invalid_mint_amount = "56"
error_text lp_failed_repay_with_collateral = "57"
error_text ct_invalid_burn_amount = "58"
error_text lp_borrow_allowance_not_enough = "59"
error_text lp_failed_collateral_swap = "60"
error_text lp_invalid_equal_assets_to_swap = "61"
error_text lp_reentrancy_not_allowed = "62"
error_text lp_caller_must_be_an_vitoken = "63"
error_text lp_is_paused = "64"
error_text lp_no_more_reserves_allowed = "65"
error_text lp_invalid_flash_loan_executor_return = "66"
error_text rc_invalid_ltv = "67"
error_text rc_invalid_liq_threshold = "68"
error_text rc_invalid_liq_bonus = "69"
error_text rc_invalid_decimals = "70"
error_text rc_invalid_reserve_factor = "71"
error_text lpapr_invalid_addresses_provider_id = "72"
error_text invalid_from_balance_after_transfer = "Invalid from balance after transfer"
error_text invalid_to_balance_after_transfer = "Invalid from balance after transfer"
error_text invalid_owner_revert_msg = "Ownable: caller is not the owner"
error_text invalid_hf = "Invalid health factor"
error_text transfer_amount_exceeds_balance = "ERC20: transfer amount exceeds balance"
error_text safeerc20_lowlevel_call = "SafeERC20: low-level call failed"

-- The members, in the order of the source.
abbrev members : List ProtocolErrors
members =
    caller_not_pool_admin ∷ vl_invalid_amount ∷ vl_no_active_reserve ∷ vl_reserve_frozen
    ∷ vl_current_available_liquidity_not_enough ∷ vl_not_enough_available_user_balance
    ∷ vl_transfer_not_allowed ∷ vl_borrowing_not_enabled ∷ vl_invalid_interest_rate_mode_selected
    ∷ vl_collateral_balance_is_0 ∷ vl_health_factor_lower_than_liquidation_threshold
    ∷ vl_collateral_cannot_cover_new_borrow ∷ vl_stable_borrowing_not_enabled
    ∷ vl_collateral_same_as_borrowing_currency ∷ vl_amount_bigger_than_max_loan_size_stable
    ∷ vl_no_debt_of_selected_type ∷ vl_no_explicit_amount_to_repay_on_behalf
    ∷ vl_no_stable_rate_loan_in_reserve ∷ vl_no_variable_rate_loan_in_reserve
    ∷ vl_underlying_balance_not_greater_than_0 ∷ vl_deposit_already_in_use
    ∷ lp_not_enough_stable_borrow_balance ∷ lp_interest_rate_rebalance_conditions_not_met
    ∷ lp_liquidation_call_failed ∷ lp_not_enough_liquidity_to_borrow ∷ lp_requested_amount_too_small
    ∷ lp_inconsistent_protocol_actual_balance ∷ lp_caller_not_lending_pool_configurator
    ∷ lp_inconsistent_flashloan_params ∷ ct_caller_must_be_lending_pool
    ∷ ct_cannot_give_allowance_to_himself ∷ ct_transfer_amount_not_gt_0
    ∷ rl_reserve_already_initialized ∷ lpc_reserve_liquidity_not_0
    ∷ lpc_invalid_vitoken_pool_address ∷ lpc_invalid_stable_debt_token_pool_address
    ∷ lpc_invalid_variable_debt_token_pool_address
    ∷ lpc_invalid_stable_debt_token_underlying_address
    ∷ lpc_invalid_variable_debt_token_underlying_address ∷ lpc_invalid_addresses_provider_id
    ∷ lpc_caller_not_emergency_admin ∷ lpapr_provider_not_registered
    ∷ lpcm_health_factor_not_below_threshold ∷ lpcm_collateral_cannot_be_liquidated
    ∷ lpcm_specified_currency_not_borrowed_by_user ∷ lpcm_not_enough_liquidity_to_liquidate
    ∷ lpcm_no_errors ∷ lp_invalid_flashloan_mode ∷ math_multiplication_overflow
    ∷ math_addition_overflow ∷ math_division_by_zero ∷ rl_liquidity_index_overflow
    ∷ rl_variable_borrow_index_overflow ∷ rl_liquidity_rate_overflow
    ∷ rl_variable_borrow_rate_overflow ∷ rl_stable_borrow_rate_overflow ∷ ct_invalid_mint_amount
    ∷ lp_failed_repay_with_collateral ∷ ct_invalid_burn_amount ∷ lp_borrow_allowance_not_enough
    ∷ lp_failed_collateral_swap ∷ lp_invalid_equal_assets_to_swap ∷ lp_reentrancy_not_allowed
    ∷ lp_caller_must_be_an_vitoken ∷ lp_is_paused ∷ lp_no_more_reserves_allowed
    ∷ lp_invalid_flash_loan_executor_return ∷ rc_invalid_ltv ∷ rc_invalid_liq_threshold
    ∷ rc_invalid_liq_bonus ∷ rc_invalid_decimals ∷ rc_invalid_reserve_factor
    ∷ lpapr_invalid_addresses_provider_id ∷ invalid_from_balance_after_transfer
    ∷ invalid_to_balance_after_transfer ∷ invalid_owner_revert_msg ∷ invalid_hf
    ∷ transfer_amount_exceeds_balance ∷ safeerc20_lowlevel_call ∷ []

-- The first member of a list with a text.
error_of : List ProtocolErrors → String → Option ProtocolErrors
error_of [] text = none
error_of (e ∷ es) text = if error_text e == text then some e else error_of es text

-- The member that shares its text with an earlier one.
abbrev first_with_text : ProtocolErrors → ProtocolErrors
first_with_text invalid_to_balance_after_transfer = invalid_from_balance_after_transfer
first_with_text e = e

-- The texts are pairwise different, but for those of the two balances after a transfer.
error_of-error_text :
    (e : ProtocolErrors) → error_of members (error_text e) ≡ some (first_with_text e)
unfolding error_of error_text
error_of-error_text caller_not_pool_admin = refl
error_of-error_text vl_invalid_amount = refl
error_of-error_text vl_no_active_reserve = refl
error_of-error_text vl_reserve_frozen = refl
error_of-error_text vl_current_available_liquidity_not_enough = refl
error_of-error_text vl_not_enough_available_user_balance = refl
error_of-error_text vl_transfer_not_allowed = refl
error_of-error_text vl_borrowing_not_enabled = refl
error_of-error_text vl_invalid_interest_rate_mode_selected = refl
error_of-error_text vl_collateral_balance_is_0 = refl
error_of-error_text vl_health_factor_lower_than_liquidation_threshold = refl
error_of-error_text vl_collateral_cannot_cover_new_borrow = refl
error_of-error_text vl_stable_borrowing_not_enabled = refl
error_of-error_text vl_collateral_same_as_borrowing_currency = refl
error_of-error_text vl_amount_bigger_than_max_loan_size_stable = refl
error_of-error_text vl_no_debt_of_selected_type = refl
error_of-error_text vl_no_explicit_amount_to_repay_on_behalf = refl
error_of-error_text vl_no_stable_rate_loan_in_reserve = refl
error_of-error_text vl_no_variable_rate_loan_in_reserve = refl
error_of-error_text vl_underlying_balance_not_greater_than_0 = refl
error_of-error_text vl_deposit_already_in_use = refl
error_of-error_text lp_not_enough_stable_borrow_balance = refl
error_of-error_text lp_interest_rate_rebalance_conditions_not_met = refl
error_of-error_text lp_liquidation_call_failed = refl
error_of-error_text lp_not_enough_liquidity_to_borrow = refl
error_of-error_text lp_requested_amount_too_small = refl
error_of-error_text lp_inconsistent_protocol_actual_balance = refl
error_of-error_text lp_caller_not_lending_pool_configurator = refl
error_of-error_text lp_inconsistent_flashloan_params = refl
error_of-error_text ct_caller_must_be_lending_pool = refl
error_of-error_text ct_cannot_give_allowance_to_himself = refl
error_of-error_text ct_transfer_amount_not_gt_0 = refl
error_of-error_text rl_reserve_already_initialized = refl
error_of-error_text lpc_reserve_liquidity_not_0 = refl
error_of-error_text lpc_invalid_vitoken_pool_address = refl
error_of-error_text lpc_invalid_stable_debt_token_pool_address = refl
error_of-error_text lpc_invalid_variable_debt_token_pool_address = refl
error_of-error_text lpc_invalid_stable_debt_token_underlying_address = refl
error_of-error_text lpc_invalid_variable_debt_token_underlying_address = refl
error_of-error_text lpc_invalid_addresses_provider_id = refl
error_of-error_text lpc_caller_not_emergency_admin = refl
error_of-error_text lpapr_provider_not_registered = refl
error_of-error_text lpcm_health_factor_not_below_threshold = refl
error_of-error_text lpcm_collateral_cannot_be_liquidated = refl
error_of-error_text lpcm_specified_currency_not_borrowed_by_user = refl
error_of-error_text lpcm_not_enough_liquidity_to_liquidate = refl
error_of-error_text lpcm_no_errors = refl
error_of-error_text lp_invalid_flashloan_mode = refl
error_of-error_text math_multiplication_overflow = refl
error_of-error_text math_addition_overflow = refl
error_of-error_text math_division_by_zero = refl
error_of-error_text rl_liquidity_index_overflow = refl
error_of-error_text rl_variable_borrow_index_overflow = refl
error_of-error_text rl_liquidity_rate_overflow = refl
error_of-error_text rl_variable_borrow_rate_overflow = refl
error_of-error_text rl_stable_borrow_rate_overflow = refl
error_of-error_text ct_invalid_mint_amount = refl
error_of-error_text lp_failed_repay_with_collateral = refl
error_of-error_text ct_invalid_burn_amount = refl
error_of-error_text lp_borrow_allowance_not_enough = refl
error_of-error_text lp_failed_collateral_swap = refl
error_of-error_text lp_invalid_equal_assets_to_swap = refl
error_of-error_text lp_reentrancy_not_allowed = refl
error_of-error_text lp_caller_must_be_an_vitoken = refl
error_of-error_text lp_is_paused = refl
error_of-error_text lp_no_more_reserves_allowed = refl
error_of-error_text lp_invalid_flash_loan_executor_return = refl
error_of-error_text rc_invalid_ltv = refl
error_of-error_text rc_invalid_liq_threshold = refl
error_of-error_text rc_invalid_liq_bonus = refl
error_of-error_text rc_invalid_decimals = refl
error_of-error_text rc_invalid_reserve_factor = refl
error_of-error_text lpapr_invalid_addresses_provider_id = refl
error_of-error_text invalid_from_balance_after_transfer = refl
error_of-error_text invalid_to_balance_after_transfer = refl
error_of-error_text invalid_owner_revert_msg = refl
error_of-error_text invalid_hf = refl
error_of-error_text transfer_amount_exceeds_balance = refl
error_of-error_text safeerc20_lowlevel_call = refl

-- ===== src/Configuration/Risk.antt =====
-- contracts/protocol/lendingpool/LendingPoolConfigurator.sol and libraries/math/PercentageMath.sol:
-- the checks of `configureReserveAsCollateral`, for the parameters of the markets' reserves.
use vinium_lending.Prelude.{
  ℕ, ◌+◌, ◌-◌, ◌*◌, String, Bool, true, false, ◌&&◌, ◌||◌, ◌≡◌, refl, Option, none, some, List, [],
  ◌∷◌, if◌then◌else◌, ltb, leb, nat_beq, codes, All,
}
use Prim.Native.Nat.{◌/◌, ◌^◌}
use vinium_lending.Effects.{Env, History}
use vinium_lending.Effects.Ensures.{Ensures, returned, threw}
use vinium_lending.Types.Config.{IReserveParams, ICommonConfiguration}
use vinium_lending.Configuration.{ConfigNames, load_pool_config}

-- The number of a decimal text, digit by digit; 48 is the code of '0'.
pub number_from : ℕ → List ℕ → ℕ
number_from n [] = n
number_from n (c ∷ cs) = number_from (n * 10 + (c - 48)) cs

abbrev pub number : String → ℕ
number s = number_from 0 (codes s)

abbrev pub percentage_factor : ℕ
percentage_factor = 10000

-- `percentMul`; `none` reverts.
abbrev pub percent_mul : (value percentage : ℕ) → Option ℕ
percent_mul value percentage =
    if nat_beq value 0 || nat_beq percentage 0
    then some 0
    else if leb value ((2 ^ 256 - 1 - 5000) / percentage)
    then some ((value * percentage + 5000) / percentage_factor)
    else none

abbrev pub at_most_all : Option ℕ → Bool
at_most_all none = false
at_most_all (some n) = leb n percentage_factor

-- The `require`s on the three parameters; that no liquidity is deposited is left out.
pub is_accepted : (ltv threshold bonus : ℕ) → Bool
is_accepted ltv threshold bonus =
    leb ltv threshold
    && (if nat_beq threshold 0
        then nat_beq bonus 0
        else ltb percentage_factor bonus && at_most_all (percent_mul threshold bonus))

abbrev pub IsAccepted : String × IReserveParams → Type 0
IsAccepted (symbol, params) =
    is_accepted (number params.base_ltv_as_collateral) (number params.liquidation_threshold)
      (number params.liquidation_bonus)
    ≡ true

-- Whichever pool is loaded, if its configuration is returned, the configurator's requirements on
-- loan-to-value, liquidation threshold and bonus hold of every reserve in it.
pub load_pool_config-IsAccepted :
    (env : Env) (pool : ConfigNames) (h : History)
    → Ensures
        (λ (config : ICommonConfiguration) (k : History). All IsAccepted config.reserves_config)
        (load_pool_config env pool h)
unfolding load_pool_config is_accepted number_from
load_pool_config-IsAccepted env ConfigNames.avalanche h =
    returned (refl, (refl, (refl, (refl, (refl, (refl, (refl, (refl, tt))))))))
load_pool_config-IsAccepted env ConfigNames.commons h = returned tt
load_pool_config-IsAccepted env ConfigNames.vinium h = threw
load_pool_config-IsAccepted env ConfigNames.matic h = threw
load_pool_config-IsAccepted env ConfigNames.amm h = threw

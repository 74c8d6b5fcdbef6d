-- ===== src/ContractsHelpers/Params.antt =====
-- `getParamPerNetwork`: which property it reads.
use vinium_lending.Prelude.{
  String, ◌≡◌, refl, ap, ◌∙◌, Option, none, some, List, [], ◌∷◌, if◌then◌else◌, ◌==◌, eq_iff,
  truthy, lookup, includes, arith, Bool, true, false,
}
use vinium_lending.Effects.{Env}
use vinium_lending.Types.Config.{IParamsPerNetwork}
use vinium_lending.ContractsHelpers.{network_key, read_param, get_param_per_network}

-- The networks that the types of helpers/types.ts list, `eEthereumNetwork` and the others.
abbrev pub networks : List String
networks =
    "coverage" ∷ "buidlerevm" ∷ "hardhat" ∷ "kovan" ∷ "ropsten" ∷ "main" ∷ "tenderly" ∷ "matic"
    ∷ "mumbai" ∷ "xdai" ∷ "avalanche" ∷ "fuji" ∷ "goerli" ∷ []

-- The property of a network: its own name, but for hardhat, which shares that of buidlerevm.
abbrev pub property_of : String → String
property_of network = if network == "hardhat" then "buidlerevm" else network

-- The cases of a `switch` on a network, in their order.
abbrev switch_on : String → List String → Option String
switch_on network [] = none
switch_on network (name ∷ names) =
    if network == name then some (property_of name) else switch_on network names

switch_on_lem :
    (network : String) (names : List String)
    → switch_on network names
      ≡ (if includes names network then some (property_of network) else none)
switch_on_lem network [] = refl
switch_on_lem network (name ∷ names) =
    ground (arith, eq_iff network name, eq_iff name network, switch_on_lem network names)

network_key_lem :
    (network : String)
    → network_key network ≡ (if includes networks network then some (property_of network) else none)
unfolding network_key
network_key_lem network = switch_on_lem network networks

read_if :
    {T : Type 0} (env : Env) (param : IParamsPerNetwork T) (b : Bool) (key : String)
    → read_param env param (if b then some key else none) ≡ (if b then lookup key param else none)
read_if env param true key = refl
read_if env param false key = refl

-- With FORK set, the parameter is read under that name; else under the network's own name, for
-- hardhat under buidlerevm, and a network of no list has no value.
pub get_param_per_network_lem :
    {T : Type 0} (env : Env) (param : IParamsPerNetwork T) (network : String)
    → get_param_per_network env param network
      ≡ (elim (truthy (env.getenv "FORK")) as (λ _. Option T) [
        | some fork ↦ lookup fork param
        | none ↦ if includes networks network then lookup (property_of network) param else none
      ])
unfolding get_param_per_network
get_param_per_network_lem {T = T} env param network = read (truthy (env.getenv "FORK"))
  where
    read :
        (fork : Option String)
        → (elim fork as (λ _. Option T) [
          | some f ↦ lookup f param
          | none ↦ read_param env param (network_key network)
        ])
          ≡ (elim fork as (λ _. Option T) [
            | some f ↦ lookup f param
            | none ↦ if includes networks network then lookup (property_of network) param else none
          ])
    read none =
        ap (read_param env param) (network_key_lem network)
        ∙ read_if env param (includes networks network) (property_of network)
    read (some f) = refl

-- ===== src/Polygon.antt =====
-- helpers/polygon-utils.ts. The compiler's paths, the flattener, the encoding of constructor
-- arguments and the block explorer are not part of the repository: they are parameters.
pub mod Lines
pub mod Clean
use Prim.Native.Char.{Char, code}
use Prim.Native.String
use text.Mathlib.Text.{find?}
use vinium_lending.Prelude.{
  ℕ, zero, suc, ◌+◌, String, Bool, true, false, not, Option, none, some, List, [], ◌∷◌,
  if◌then◌else◌, ◌==◌, nat_beq, cat, contains_text, includes,
}
use vinium_lending.Effects.{
  Env, Arg, requested, M, ok, pure, throw, or_throw, rejected, missing_path, ◌>>=◌, ◌>>◌,
}
use vinium_lending.ContractsHelpers.{Contract}

-- `Object.keys(ePolygonNetwork)`
abbrev pub polygon_networks : List String
polygon_networks = "matic" ∷ "mumbai" ∷ []

unfoldable pub using_polygon : Env → Bool
using_polygon env = includes polygon_networks env.network_name

abbrev pub license_identifier : String
license_identifier = "License-Identifier"

abbrev pub solidity_pragma : String
solidity_pragma = "pragma solidity"

abbrev pub experimental_abiencoder : String
experimental_abiencoder = "pragma experimental ABIEncoderV2;"

-- A character in front of the first text of a list, as `split` never returns an empty list.
abbrev pub cons_first : Char → List String → List String
cons_first c [] = String.◌∷◌ c "" ∷ []
cons_first c (s ∷ ss) = String.◌∷◌ c s ∷ ss

-- `text.split(separator)`, for a separator of one character.
pub split : (separator : ℕ) → String → List String
split separator String.[] = "" ∷ []
split separator (String.◌∷◌ c s) =
    let rest = split separator s in
    if nat_beq (code c) separator then "" ∷ rest else cons_first c rest

abbrev pub newline : ℕ
newline = 10

-- `lines.join('\n')`
abbrev pub join : List String → String
join [] = ""
join (s ∷ []) = s
join (s ∷ t ∷ ss) = cat s (cat "\n" (join (t ∷ ss)))

-- The `filter` of `removeLines`: its counter is the number of matching lines to keep.
pub filter_lines : (matcher : String) → (counter : ℕ) → List String → List String
filter_lines matcher counter [] = []
filter_lines matcher zero (line ∷ lines) =
    let rest = filter_lines matcher 0 lines in
    if contains_text line matcher then rest else line ∷ rest
filter_lines matcher (suc counter) (line ∷ lines) =
    let kept = filter_lines matcher counter lines in
    let rest = filter_lines matcher (suc counter) lines in
    if contains_text line matcher then line ∷ kept else line ∷ rest

unfoldable pub remove_lines : (text matcher : String) → (keep : ℕ) → String
unfolding filter_lines split
remove_lines text matcher keep = join (filter_lines matcher keep (split newline text))

-- `cleanedSourceCode`
unfoldable pub clean_source : String → String
unfolding remove_lines
clean_source text =
    remove_lines (remove_lines (remove_lines text license_identifier 1) solidity_pragma 1)
      experimental_abiencoder 1

-- `t[t.length - 1]`
abbrev last_of : String → List String → String
last_of s [] = s
last_of s (t ∷ ts) = last_of t ts

abbrev first_of : List String → String
first_of [] = ""
first_of (s ∷ ss) = s

-- The name of a file without its directory and its extensions; 47 is '/', 46 is '.'.
pub file_name : String → String
unfolding split
file_name path = first_of (split 46 (last_of "" (split 47 path)))

-- `s.replace(t, '')` removes the first `t`.
abbrev pub without_first : String → String → String
without_first s t = elim (find? s t) [
  | none ↦ s
  | some i ↦ cat (String.slice s 0 i) (String.slice s (i + String.len t) (String.len s))
]

-- The network in the explorer's address.
abbrev pub explorer_network : String → String
explorer_network network = if network == "matic" then "mainnet" else network

module _ (env : Env) (source_paths : List String) (flattened : String → Option String)
    (encode_deploy : Contract → List Arg → Option String) where
  find_path_in : String → List String → Option String
  unfolding file_name
  find_path_in id [] = none
  find_path_in id (path ∷ paths) = if file_name path == id then some path else find_path_in id paths

  -- `instance.interface.encodeDeploy(args).replace('0x', '')`
  encode_deploy_params : Contract → List Arg → M String
  encode_deploy_params instance_ args = do
    encoded ← or_throw (encode_deploy instance_ args) rejected
    pure (without_first encoded "0x")

  unfoldable pub find_path : String → M String
  unfolding find_path_in
  find_path id = or_throw (find_path_in id source_paths) missing_path

  -- The explorer is asked once, and neither its refusal nor an error of the request is passed on.
  post_source : String → List String → M (Unit {0})
  post_source address body h = (ok tt, requested address body ∷ h)

  unfoldable pub verify_at_polygon : String → Contract → List Arg → M (Unit {0})
  unfolding find_path encode_deploy_params post_source clean_source
  verify_at_polygon id instance_ args = do
    let net = explorer_network env.network_name
    path ← find_path id
    encoded ← encode_deploy_params instance_ args
    source ← or_throw (flattened path) rejected
    post_source (cat "https://explorer-" (cat net ".maticvigil.com/api")) (
        instance_.address
        ∷ id
        ∷ "v0.6.12+commit.27d51765"
        ∷ "true"
        ∷ clean_source source
        ∷ encoded
        ∷ [])

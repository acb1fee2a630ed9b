-- ===== src/Waitlist/Markets.antt =====
-- The markets of landing-page/lib/markets.ts, their look-up and their detection.
mod Types
mod Table
pub use Types.*
unfoldable pub use Table.*
use Prim.Native.Char.{code}
use fuel_cap.Base.{
  String, Bool, true, false, ◌&&◌, ◌||◌, Option, none, some, List, nat_beq, is_some, lookup, values,
  ◌==◌, string_eq, contains, if◌then◌else◌,
}
use fuel_cap.Base.Text.{includes_text}
use fuel_cap.Base.Objects.{is_inherited}

-- `MARKET_LIST`
abbrev pub market_list : List Market
market_list = values markets

-- `isMarketId`: `in` also finds what every object inherits.
unfoldable pub is_market_id : String → Bool
is_market_id value = contains value markets || is_inherited value

-- `getMarket`
unfoldable pub get_market : String → MarketLookup
get_market id = elim (lookup id markets) [
  | some m ↦ a_market m
  | none ↦ if is_inherited id then inherited_member else no_market
]

-- `detectMarketFromAcceptLanguage`, with `toLowerCase` as a parameter
unfoldable pub detect_market_from_accept_language : (String → String) → Option String → String
detect_market_from_accept_language to_lower_case none = "uk"
detect_market_from_accept_language to_lower_case (some accept_language) =
    let has : String → Bool = includes_text (to_lower_case accept_language) in
    if accept_language == ""
    then "uk"
    else if has "en-ca" || has "fr-ca"
    then "canada"
    else if has "en-us"
    then "usa"
    else if has "en-au"
    then "australia"
    else if has "de-at"
    then "austria"
    else if has "fr"
    then "france"
    else if has "de"
    then "germany"
    else if has "es"
    then "spain"
    else if has "it"
    then "italy"
    else "uk"

-- ===== src/Waitlist/Markets/Types.antt =====
-- The data of landing-page/lib/markets.ts.
use fuel_cap.Base.{String, Option, List}

pub data LanguageCode : Type 0 where
  en fr de es it : LanguageCode

pub data DistanceUnit : Type 0 where
  miles kilometres : DistanceUnit

pub data VolumeUnit : Type 0 where
  litres gallons : VolumeUnit

pub record MarketState : Type 0 where
  pub id : String
  pub name : String
  pub data_source : String
  pub station_count : String

-- `id` is a text, which for a market of the table is its key.
pub record Market : Type 0 where
  pub id : String
  pub slug : String
  pub name : String
  pub flag : String
  pub language : LanguageCode
  pub locale : String
  pub currency : String
  pub currency_symbol : String
  pub distance_unit : DistanceUnit
  pub volume_unit : VolumeUnit
  pub fuel_word : String
  pub data_source : String
  pub station_count : String
  pub postal_placeholder : String
  pub postal_pattern : String
  pub sample_refund_amount : String
  pub sample_high_price : String
  pub states : Option (List MarketState)

-- What `MARKETS[id]` is where `id in MARKETS`: a market, or a member of `Object.prototype`.
pub data MarketLookup : Type 0 where
  no_market inherited_member : MarketLookup
  a_market : Market → MarketLookup

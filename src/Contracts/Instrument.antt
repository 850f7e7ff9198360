-- ===== src/Contracts/Instrument.antt =====
-- The instrument master (contracts/instrument_master.py): venues, instruments, accounts and the
-- snapshot that the risk engine and the replay read.
use ta_model_v.Base.{String, Bool, true, false, Option, List, any, leb, ltb, none, some, ◌&&◌}
use ta_model_v.Decimal.{Decimal}
use ta_model_v.Contracts.Result.{Timestamp}

pub data VenueStatus : Type 0 where
  active degraded maintenance halted unknown inactive : VenueStatus

pub data OrderType : Type 0 where
  market limit post_only_limit : OrderType

pub data InstrumentType : Type 0 where
  spot cash_equity fund index other : InstrumentType

pub data InstrumentStatus : Type 0 where
  trading paused halted delisted unknown : InstrumentStatus

pub data AccountType : Type 0 where
  research simulation paper : AccountType

pub data AccountStatus : Type 0 where
  active disabled read_only unknown : AccountStatus

pub data TradingPermission : Type 0 where
  read_market_data view_balances place_orders cancel_orders : TradingPermission

abbrev pub order_type_eq : OrderType → OrderType → Bool
order_type_eq market market = true
order_type_eq limit limit = true
order_type_eq post_only_limit post_only_limit = true
order_type_eq _ _ = false

-- `order_type in supported_order_types`
abbrev pub supports : List OrderType → OrderType → Bool
supports types t = any (order_type_eq t) types

abbrev pub is_place_orders : TradingPermission → Bool
is_place_orders place_orders = true
is_place_orders _ = false

-- `TradingPermission.PLACE_ORDERS in permissions`
abbrev pub may_place_orders : List TradingPermission → Bool
may_place_orders = any is_place_orders

abbrev pub is_active_venue : VenueStatus → Bool
is_active_venue active = true
is_active_venue _ = false

abbrev pub is_spot : InstrumentType → Bool
is_spot spot = true
is_spot _ = false

abbrev pub is_trading : InstrumentStatus → Bool
is_trading trading = true
is_trading _ = false

abbrev pub is_active_account : AccountStatus → Bool
is_active_account active = true
is_active_account _ = false

-- `account_type in {SIMULATION, PAPER}`
abbrev pub is_simulated : AccountType → Bool
is_simulated research = false
is_simulated simulation = true
is_simulated paper = true

pub record Venue : Type 0 where
  pub venue_id : String
  pub status : VenueStatus
  pub supported_order_types : List OrderType

-- The four last flags are `Literal[False]` in the contract; the engine tests them again.
pub record Instrument : Type 0 where
  pub instrument_id : String
  pub venue_id : String
  pub base_asset_id : String
  pub quote_asset_id : String
  pub instrument_type : InstrumentType
  pub status : InstrumentStatus
  pub supported_order_types : List OrderType
  pub is_derivative : Bool
  pub margin_allowed : Bool
  pub short_selling_allowed : Bool
  pub leverage_allowed : Bool

pub record AccountRiskLimits : Type 0 where
  pub max_order_notional_pct : Decimal
  pub max_instrument_exposure_pct : Decimal
  pub max_strategy_exposure_pct : Decimal
  pub max_total_spot_exposure_pct : Decimal
  pub min_cash_reserve_pct : Decimal

pub record Account : Type 0 where
  pub account_id : String
  pub venue_id : String
  pub account_type : AccountType
  pub status : AccountStatus
  pub trading_permissions : List TradingPermission
  pub risk_limits : AccountRiskLimits
  pub live_capital_enabled : Bool
  pub margin_enabled : Bool
  pub derivatives_enabled : Bool
  pub shorting_enabled : Bool

pub record InstrumentConstraint : Type 0 where
  pub instrument_id : String
  pub tick_size : Decimal
  pub lot_size : Decimal
  pub min_notional : Decimal
  pub min_order_quantity : Option Decimal
  pub max_order_quantity : Option Decimal
  pub max_order_notional : Option Decimal
  pub effective_from : Timestamp
  pub effective_to : Option Timestamp

pub record InstrumentMasterSnapshot : Type 0 where
  pub created_at : Timestamp
  pub venues : List Venue
  pub instruments : List Instrument
  pub accounts : List Account
  pub instrument_constraints : List InstrumentConstraint

-- `as_of < end`, for an end that may be open.
abbrev pub before_end : Timestamp → Option Timestamp → Bool
before_end as_of none = true
before_end as_of (some end) = ltb as_of end

-- A half-open window of validity.
unfoldable pub is_effective : InstrumentConstraint → Timestamp → Bool
is_effective c as_of = leb c.effective_from as_of && before_end as_of c.effective_to

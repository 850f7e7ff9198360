-- ===== src/Contracts/Order.antt =====
-- Order intents (contracts/simulation.py).
use ta_model_v.Base.{String, Bool, true, false, Option, none, some, is_some, not}
use ta_model_v.Decimal.{Decimal, of_nat}
use ta_model_v.Decimal
use ta_model_v.Contracts.Result.{Timestamp, Result, ok, require, ◌>>◌, validation_error}
use ta_model_v.Contracts.Instrument.{OrderType, market, limit, post_only_limit}

pub data OrderSide : Type 0 where
  buy sell : OrderSide

abbrev pub is_buy : OrderSide → Bool
is_buy buy = true
is_buy sell = false

pub record OrderIntent : Type 0 where
  pub client_order_id : String
  pub trace_id : String
  pub source_decision_id : String
  pub instrument_id : String
  pub venue_id : String
  pub side : OrderSide
  pub order_type : OrderType
  pub quantity : Decimal
  pub submitted_at : Timestamp
  pub limit_price : Option Decimal

abbrev pub positive_if_set : Option Decimal → Bool
positive_if_set none = true
positive_if_set (some d) = Decimal.lt (of_nat 0) d

-- The validator `order_type_fields_are_consistent`.
abbrev pub limit_price_fits : OrderType → Option Decimal → Bool
limit_price_fits market price = not (is_some price)
limit_price_fits limit price = is_some price
limit_price_fits post_only_limit price = is_some price

-- `OrderIntent(...)`: the fields' bounds, then the validator.
unfoldable pub make_order_intent : OrderIntent → Result OrderIntent
make_order_intent i = do
  require (Decimal.lt (of_nat 0) i.quantity) (validation_error "quantity must be positive")
  require (positive_if_set i.limit_price) (validation_error "limit_price must be positive")
  require (limit_price_fits i.order_type i.limit_price)
      (validation_error "limit_price must fit the order type")
  ok i

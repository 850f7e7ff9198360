-- ===== src/Replay/Metadata.antt =====
-- `_metadata_reject_reason` and `_constraint_reject_reason` of simulation/replay.py.
use ta_model_v.Base.{
  String, Bool, true, false, Option, none, some, List, [], ◌∷◌, find?, filter, not, ◌&&◌, str_eq,
}
use ta_model_v.Decimal.{Decimal}
use ta_model_v.Contracts.Result.{Timestamp, Result, ok, ◌>>=◌}
use ta_model_v.Contracts.Instrument.{
  Venue, Instrument, Account, InstrumentMasterSnapshot, OrderType, supports, is_active_venue,
  is_spot, is_trading, is_active_account, is_simulated, may_place_orders, is_effective,
  InstrumentConstraint,
}
use ta_model_v.Contracts.Constraint.{evaluate_order}
use ta_model_v.Contracts.Order.{OrderIntent}
use ta_model_v.Contracts.ReplayResult.{
  ReplayRejectReason, unsupported_order_type, venue_not_tradable, instrument_not_tradable,
  account_not_tradable, constraint_violation,
}
use ta_model_v.Contracts.Simulation.{SimulatedAccountState}

-- The first reason that is given.
abbrev pub or_else :
    Option ReplayRejectReason → Option ReplayRejectReason → Option ReplayRejectReason
or_else none other = other
or_else (some reason) other = some reason

abbrev pub reason_unless : Bool → ReplayRejectReason → Option ReplayRejectReason
reason_unless true reason = none
reason_unless false reason = some reason

abbrev pub venue_reason : Option Venue → OrderType → Option ReplayRejectReason
venue_reason none order_type = some venue_not_tradable
venue_reason (some v) order_type =
    or_else (reason_unless (is_active_venue v.status) venue_not_tradable)
      (reason_unless (supports v.supported_order_types order_type) unsupported_order_type)

abbrev pub instrument_is_tradable : Instrument → String → Bool
instrument_is_tradable i venue_id =
    str_eq i.venue_id venue_id
    && is_spot i.instrument_type
    && is_trading i.status
    && not i.is_derivative
    && not i.margin_allowed
    && not i.short_selling_allowed
    && not i.leverage_allowed

abbrev pub instrument_reason : Option Instrument → OrderIntent → Option ReplayRejectReason
instrument_reason none intent = some instrument_not_tradable
instrument_reason (some i) intent =
    or_else (reason_unless (instrument_is_tradable i intent.venue_id) instrument_not_tradable)
      (reason_unless (supports i.supported_order_types intent.order_type) unsupported_order_type)

abbrev pub account_is_tradable : Account → String → Bool
account_is_tradable a venue_id =
    str_eq a.venue_id venue_id
    && is_active_account a.status
    && is_simulated a.account_type
    && may_place_orders a.trading_permissions
    && not a.live_capital_enabled
    && not a.margin_enabled
    && not a.derivatives_enabled
    && not a.shorting_enabled

abbrev pub account_reason : Option Account → String → Option ReplayRejectReason
account_reason none venue_id = some account_not_tradable
account_reason (some a) venue_id =
    reason_unless (account_is_tradable a venue_id) account_not_tradable

abbrev pub instrument_of : InstrumentMasterSnapshot → OrderIntent → Option Instrument
instrument_of snapshot intent =
    find? (λ i. str_eq i.instrument_id intent.instrument_id) snapshot.instruments

unfoldable pub metadata_reject_reason :
    OrderIntent → InstrumentMasterSnapshot → SimulatedAccountState → Option ReplayRejectReason
metadata_reject_reason intent snapshot account_state =
    or_else
      (venue_reason (find? (λ v. str_eq v.venue_id intent.venue_id) snapshot.venues)
        intent.order_type)
      (or_else (instrument_reason (instrument_of snapshot intent) intent) (
        account_reason (find? (λ a. str_eq a.account_id account_state.account_id) snapshot.accounts)
          intent.venue_id))

-- `len(active_constraints) != 1` is a violation.
abbrev pub reason_of_constraints :
    List InstrumentConstraint → Decimal → Decimal → Result (Option ReplayRejectReason)
reason_of_constraints [] price quantity = ok (some constraint_violation)
reason_of_constraints (c ∷ []) price quantity = do
  checked ← evaluate_order c price quantity
  ok (reason_unless checked.passed constraint_violation)
reason_of_constraints (c ∷ d ∷ cs) price quantity = ok (some constraint_violation)

unfoldable pub constraint_reject_reason :
    OrderIntent
    → InstrumentMasterSnapshot
    → Decimal
    → Timestamp
    → Result (Option ReplayRejectReason)
unfolding is_effective
constraint_reject_reason intent snapshot reference_price effective_at =
    reason_of_constraints
      (filter (λ c. str_eq c.instrument_id intent.instrument_id && is_effective c effective_at)
        snapshot.instrument_constraints)
      reference_price intent.quantity

-- ===== src/Engine/StateLimits.antt =====
-- The limits on the state of the platform: required state, product scope, kill switch, venue.
use ta_model_v.Base.{Bool, false, Option, none, some, is_some, not, ◌&&◌, if◌then◌else◌}
use ta_model_v.Decimal.{of_nat, literal}
use ta_model_v.Contracts.Instrument.{
  Venue, VenueStatus, active, degraded, Instrument, Account, market, supports, is_trading,
  is_active_account, may_place_orders, is_spot, is_simulated,
}
use ta_model_v.Contracts.KillSwitch
use ta_model_v.Contracts.KillSwitch.{KillSwitchState, severity, is_unknown}
use ta_model_v.Contracts.Risk.{
  product_mvp, required_state, active_state, venue_status, soft_breach, hard_breach,
  required_state_missing, outside_mvp_scope, unknown_kill_state, kill_switch_active,
  venue_status_hard, venue_status_soft, RiskLimitEvaluation, OrderEffect, RiskCheckRequest,
}
use ta_model_v.Engine.Evaluation.{evaluation, pass_at, breach_at}
use ta_model_v.Engine.Metadata.{MetadataView}

abbrev pub instrument_is_orderable : Option Instrument → Bool
instrument_is_orderable none = false
instrument_is_orderable (some i) = is_trading i.status && supports i.supported_order_types market

abbrev pub account_is_orderable : Option Account → Bool
account_is_orderable none = false
account_is_orderable (some a) = is_active_account a.status && may_place_orders a.trading_permissions

-- The three conditions of `_required_state_evaluation`.
abbrev pub state_is_present : MetadataView → Bool
state_is_present m =
    is_some m.venue && is_some m.instrument && is_some m.account && is_some m.constraint

unfoldable pub required_state_evaluation : RiskCheckRequest → MetadataView → RiskLimitEvaluation
unfolding evaluation
required_state_evaluation request m =
    if state_is_present m
      && (instrument_is_orderable m.instrument && account_is_orderable m.account)
      && not (is_unknown request.kill_switch_snapshot.active_state)
    then pass_at required_state (of_nat 1) (of_nat 1) none
    else breach_at required_state (of_nat 0) (of_nat 1) hard_breach required_state_missing none

abbrev pub instrument_in_scope : Option Instrument → Bool
instrument_in_scope none = false
instrument_in_scope (some i) =
    is_spot i.instrument_type
    && not i.is_derivative
    && not i.margin_allowed
    && not i.short_selling_allowed
    && not i.leverage_allowed

abbrev pub account_in_scope : Option Account → Bool
account_in_scope none = false
account_in_scope (some a) =
    is_simulated a.account_type
    && not a.live_capital_enabled
    && not a.margin_enabled
    && not a.derivatives_enabled
    && not a.shorting_enabled

unfoldable pub product_scope_evaluation : MetadataView → RiskLimitEvaluation
unfolding evaluation
product_scope_evaluation m =
    if instrument_in_scope m.instrument && account_in_scope m.account
    then pass_at product_mvp (of_nat 1) (of_nat 1) none
    else breach_at product_mvp (of_nat 0) (of_nat 1) hard_breach outside_mvp_scope none

-- The branches of `_kill_switch_evaluation`, by the state and by whether the order adds risk.
kill_switch_outcome : KillSwitchState → Bool → RiskLimitEvaluation
unfolding evaluation severity
kill_switch_outcome KillSwitch.unknown_fail_closed increasing =
    breach_at active_state (of_nat (severity KillSwitch.unknown_fail_closed)) (of_nat 0) hard_breach
      unknown_kill_state none
kill_switch_outcome KillSwitch.clear increasing =
    pass_at active_state (of_nat (severity KillSwitch.clear)) (of_nat 0) none
kill_switch_outcome KillSwitch.soft_limited increasing =
    breach_at active_state (of_nat (severity KillSwitch.soft_limited)) (of_nat 0) soft_breach
      kill_switch_active none
kill_switch_outcome KillSwitch.pause_new_orders false =
    pass_at active_state (of_nat (severity KillSwitch.pause_new_orders)) (of_nat 3) none
kill_switch_outcome KillSwitch.reduce_only false =
    pass_at active_state (of_nat (severity KillSwitch.reduce_only)) (of_nat 3) none
kill_switch_outcome state increasing =
    breach_at active_state (of_nat (severity state)) (of_nat 0) hard_breach kill_switch_active none

unfoldable pub kill_switch_evaluation : RiskCheckRequest → OrderEffect → RiskLimitEvaluation
unfolding kill_switch_outcome
kill_switch_evaluation request effect =
    kill_switch_outcome request.kill_switch_snapshot.active_state effect.risk_increasing

venue_status_outcome : Option VenueStatus → RiskLimitEvaluation
unfolding evaluation
venue_status_outcome (some active) = pass_at venue_status (of_nat 1) (of_nat 1) none
venue_status_outcome (some degraded) =
    breach_at venue_status (literal 5 1) (of_nat 1) soft_breach venue_status_soft none
venue_status_outcome _ =
    breach_at venue_status (of_nat 0) (of_nat 1) hard_breach venue_status_hard none

abbrev status_of : Option Venue → Option VenueStatus
status_of none = none
status_of (some v) = some v.status

unfoldable pub venue_status_evaluation : MetadataView → RiskLimitEvaluation
unfolding venue_status_outcome
venue_status_evaluation m = venue_status_outcome (status_of m.venue)

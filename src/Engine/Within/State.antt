-- ===== src/Engine/Within/State.antt =====
-- The limits as an independent description: for each limit, what must hold of a request, its
-- metadata and its order effect for the limit not to be a hard breach.
use ta_model_v.Base.{Bool, true, false, Option, none, some, ◌≡◌, ◌≢◌, ◌⊎◌, ◌↔◌, arith}
use ta_model_v.Contracts.Instrument.{
  Venue, Instrument, Account, VenueStatus, market, may_place_orders, supports, AccountType,
  AccountStatus, InstrumentStatus, InstrumentType,
}
use ta_model_v.Contracts.KillSwitch
use ta_model_v.Contracts.KillSwitch.{KillSwitchState}
use ta_model_v.Contracts.Risk.{RiskCheckRequest, OrderEffect, RiskLimitEvaluation, is_hard}
use ta_model_v.Engine.Metadata.{MetadataView}
use ta_model_v.Engine.StateLimits.{
  required_state_evaluation, product_scope_evaluation, kill_switch_evaluation,
  venue_status_evaluation,
}

abbrev pub IsNotHard : RiskLimitEvaluation → Type 0
IsNotHard e = is_hard e.status ≡ false

-- A present venue that is active, or degraded.
abbrev pub IsOpenVenue : Option Venue → Type 0
IsOpenVenue none = ⊥
IsOpenVenue (some v) = (v.status ≡ VenueStatus.active) ⊎ (v.status ≡ VenueStatus.degraded)

-- A present instrument that trades and takes market orders.
abbrev pub IsOrderableInstrument : Option Instrument → Type 0
IsOrderableInstrument none = ⊥
IsOrderableInstrument (some i) =
    (i.status ≡ InstrumentStatus.trading) × (supports i.supported_order_types market ≡ true)

-- A present account that is active and may place orders.
abbrev pub IsOrderableAccount : Option Account → Type 0
IsOrderableAccount none = ⊥
IsOrderableAccount (some a) =
    (a.status ≡ AccountStatus.active) × (may_place_orders a.trading_permissions ≡ true)

-- A spot instrument without derivatives, margin, shorting or leverage.
abbrev pub IsSpotOnly : Option Instrument → Type 0
IsSpotOnly none = ⊥
IsSpotOnly (some i) =
    (i.instrument_type ≡ InstrumentType.spot)
    × (i.is_derivative ≡ false)
    × (i.margin_allowed ≡ false)
    × (i.short_selling_allowed ≡ false)
    × (i.leverage_allowed ≡ false)

-- A simulation or paper account without live capital, margin, derivatives or shorting.
abbrev pub IsPaperOnly : Option Account → Type 0
IsPaperOnly none = ⊥
IsPaperOnly (some a) =
    (a.account_type ≢ AccountType.research)
    × (a.live_capital_enabled ≡ false)
    × (a.margin_enabled ≡ false)
    × (a.derivatives_enabled ≡ false)
    × (a.shorting_enabled ≡ false)

-- What each state of the kill switch lets through.
abbrev pub KillSwitchAllows : KillSwitchState → Bool → Type 0
KillSwitchAllows KillSwitch.clear increasing = Unit
KillSwitchAllows KillSwitch.soft_limited increasing = Unit
KillSwitchAllows KillSwitch.pause_new_orders increasing = increasing ≡ false
KillSwitchAllows KillSwitch.reduce_only increasing = increasing ≡ false
KillSwitchAllows KillSwitch.cancel_only increasing = ⊥
KillSwitchAllows KillSwitch.halted increasing = ⊥
KillSwitchAllows KillSwitch.unknown_fail_closed increasing = ⊥

abbrev pub IsPresent {ℓ} : {A : Type ℓ} → Option A → Type 0
IsPresent none = ⊥
IsPresent (some _) = Unit

pub required_state_iff :
    (r : RiskCheckRequest) (m : MetadataView)
    → IsNotHard (required_state_evaluation r m) ↔ (
        IsPresent m.venue
        × IsPresent m.constraint
        × IsOrderableInstrument m.instrument
        × IsOrderableAccount m.account
        × (r.kill_switch_snapshot.active_state ≢ KillSwitch.unknown_fail_closed))
unfolding required_state_evaluation
required_state_iff r m = ground arith

pub product_scope_iff :
    (m : MetadataView)
    → IsNotHard (product_scope_evaluation m) ↔ (IsSpotOnly m.instrument × IsPaperOnly m.account)
unfolding product_scope_evaluation
product_scope_iff m = ground arith

pub kill_switch_iff :
    (r : RiskCheckRequest) (e : OrderEffect)
    → IsNotHard (kill_switch_evaluation r e)
      ↔ KillSwitchAllows r.kill_switch_snapshot.active_state e.risk_increasing
unfolding kill_switch_evaluation
kill_switch_iff r e = ground arith

pub venue_status_iff :
    (m : MetadataView) → IsNotHard (venue_status_evaluation m) ↔ IsOpenVenue m.venue
unfolding venue_status_evaluation
venue_status_iff m = ground arith

-- ===== src/Engine/Metadata.antt =====
-- `_metadata_view` of risk/engine.py: what the snapshot knows of the order's venue, instrument,
-- account and constraint.
use ta_model_v.Base.{String, Option, none, some, List, [], ◌∷◌, find?, filter, str_eq, ◌&&◌}
use ta_model_v.Contracts.Instrument.{
  Venue, Instrument, Account, InstrumentConstraint, InstrumentMasterSnapshot, is_effective,
}
use ta_model_v.Contracts.Risk.{RiskCheckRequest}

pub record MetadataView : Type 0 where
  pub venue : Option Venue
  pub instrument : Option Instrument
  pub account : Option Account
  pub constraint : Option InstrumentConstraint

-- `active[0] if len(active) == 1 else None`
abbrev pub only {ℓ} : {A : Type ℓ} → List A → Option A
only [] = none
only (x ∷ []) = some x
only (x ∷ y ∷ xs) = none

unfoldable pub active_constraint : InstrumentMasterSnapshot → String → Option InstrumentConstraint
unfolding is_effective
active_constraint snapshot instrument_id = only (
    filter (λ c. str_eq c.instrument_id instrument_id && is_effective c snapshot.created_at)
      snapshot.instrument_constraints)

unfoldable pub metadata_view : RiskCheckRequest → MetadataView
unfolding active_constraint
metadata_view request =
    let snapshot = request.instrument_master_snapshot in
    let intent = request.order_intent in
    record {
      venue = find? (λ v. str_eq v.venue_id intent.venue_id) snapshot.venues;
      instrument =
          find?
            (λ i. str_eq i.instrument_id intent.instrument_id && str_eq i.venue_id intent.venue_id)
            snapshot.instruments;
      account =
          find? (λ a. str_eq a.account_id request.account_id && str_eq a.venue_id intent.venue_id)
            snapshot.accounts;
      constraint = active_constraint snapshot intent.instrument_id;
    }

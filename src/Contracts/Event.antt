-- ===== src/Contracts/Event.antt =====
-- The risk check's output (contracts/risk.py): its construction and its validator. The identifier
-- of an event is a digest (`build_risk_check_event_id`), a parameter here.
use ta_model_v.Base.{
  String, Bool, true, false, Option, List, filter, map, any, is_some, is_nonempty, not, ◌&&◌, ◌||◌,
  if◌then◌else◌,
}
use ta_model_v.Contracts.Result.{Result, ok, require, ◌>>◌, validation_error}
use ta_model_v.Contracts.Order.{OrderIntent}
use ta_model_v.Contracts.KillSwitch.{KillSwitchState}
use ta_model_v.Contracts.Risk.{
  RiskDecisionStatus, approved, approved_after_cap, rejected, no_trade, cancel_reduce_only_approved,
  RiskReasonCode, RiskLimitEvaluation, OrderEffect, RiskCheckRequest, is_hard, is_passed_code,
}

pub record RiskCheckEvent : Type 0 where
  pub risk_check_id : String
  pub request : RiskCheckRequest
  pub order_effect : OrderEffect
  pub limit_evaluations : List RiskLimitEvaluation
  pub active_kill_state : KillSwitchState
  pub final_decision : RiskDecisionStatus
  pub reason_codes : List RiskReasonCode
  pub approved_order_intent : Option OrderIntent

-- `_APPROVED_DECISIONS`
abbrev pub is_approval : RiskDecisionStatus → Bool
is_approval approved = true
is_approval approved_after_cap = true
is_approval cancel_reduce_only_approved = true
is_approval rejected = false
is_approval no_trade = false

abbrev pub is_rejected : RiskDecisionStatus → Bool
is_rejected rejected = true
is_rejected _ = false

abbrev pub has_hard_breach : List RiskLimitEvaluation → Bool
has_hard_breach = any (λ e. is_hard e.status)

abbrev pub breach_codes : List RiskLimitEvaluation → List RiskReasonCode
breach_codes es = filter (λ c. not (is_passed_code c)) (map (λ e. e.reason_code) es)

-- The last two rules of the validator `event_is_consistent_and_deterministic`.
abbrev pub decision_fits : List RiskLimitEvaluation → RiskDecisionStatus → Option OrderIntent → Bool
decision_fits es decision intent =
    (not (has_hard_breach es) || is_rejected decision)
    && (if is_approval decision then is_some intent else not (is_some intent))

-- `make_risk_check_event`. The kill state and the reason codes of the draft are those that the
-- validator compares with, so those comparisons hold, and the digest is of the final fields.
unfoldable pub make_risk_check_event :
    (RiskCheckEvent → String)
    → RiskCheckRequest
    → OrderEffect
    → List RiskLimitEvaluation
    → RiskDecisionStatus
    → Option OrderIntent
    → Result RiskCheckEvent
make_risk_check_event digest request effect evaluations decision intent = do
  let draft : RiskCheckEvent = record {
    risk_check_id = "RISKCHECK:PLACEHOLDER";
    request = request;
    order_effect = effect;
    limit_evaluations = evaluations;
    active_kill_state = request.kill_switch_snapshot.active_state;
    final_decision = decision;
    reason_codes = breach_codes evaluations;
    approved_order_intent = intent;
  }
  require (is_nonempty evaluations) (validation_error "limit_evaluations must not be empty")
  require (decision_fits evaluations decision intent)
      (validation_error "final decision must fit the breaches and the approved intent")
  ok (record draft { risk_check_id = digest draft })

-- ===== src/Engine/Outcome.antt =====
-- What a returned event says of the run of `evaluate_pre_trade_risk` that built it.
use ta_model_v.Base.{List, ◌≡◌, arith}
use ta_model_v.Contracts.Result.{ok}
use ta_model_v.Contracts.Policy.{RiskPolicy}
use ta_model_v.Contracts.Risk.{RiskLimitEvaluation, RiskCheckRequest}
use ta_model_v.Contracts.Event.{RiskCheckEvent, make_risk_check_event}
use ta_model_v.Engine.Metadata.{metadata_view}
use ta_model_v.Engine.Effect.{build_order_effect}
use ta_model_v.Engine.Decision.{Digests, evaluate_limits, decide, evaluate_pre_trade_risk}

-- The evaluations of a request.
abbrev pub limits_of : Digests → RiskCheckRequest → RiskPolicy → List RiskLimitEvaluation
limits_of digests request policy =
    evaluate_limits digests request policy (metadata_view request) (build_order_effect request)

module _ (digests : Digests) (request : RiskCheckRequest) (policy : RiskPolicy)
    (event : RiskCheckEvent) where
  -- The event holds what the steps of the run computed.
  pub record IsRun : Type 0 where
    pub same_request : event.request ≡ request
    pub evaluated : event.limit_evaluations ≡ limits_of digests request policy
    pub decided :
        decide request (build_order_effect request) (limits_of digests request policy)
        ≡ ok (event.final_decision, event.approved_order_intent)

  pub evaluate-IsRun : evaluate_pre_trade_risk digests request policy ≡ ok event → IsRun
  unfolding evaluate_pre_trade_risk make_risk_check_event
  evaluate-IsRun h = ground arith

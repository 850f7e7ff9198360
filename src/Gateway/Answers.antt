-- ===== src/Gateway/Answers.antt =====
-- What `_replay_results_by_risk_id` (execution/gateway.py) finds for a risk check: the result of its
-- approved intent, or nothing where the check forwards none.
use ta_model_v.Base.{
  suc, String, true, some, List, [], ◌∷◌, length, str_eq, eq_iff, ◌≡◌, ◌≢◌, refl, sym, ap, ◌∙◌, ◌⊎◌,
  inl, inr, arith, Bool-cases,
}
use ta_model_v.Base.Among.{Among}
use ta_model_v.Base.Dict.{lookup, insert, lookup-insert_self, lookup-insert_ne}
use ta_model_v.Base.Equality.{string_eq}
use ta_model_v.Contracts.Bar.{OhlctvBar}
use ta_model_v.Contracts.Order.{OrderIntent}
use ta_model_v.Contracts.Event.{RiskCheckEvent, is_approval}
use ta_model_v.Contracts.ReplayResult.{ReplayOrderResult, result_is_valid}
use ta_model_v.Gate.{ids_of}
use ta_model_v.Gate.Forwarding.{IsForwarded}
use ta_model_v.Replay.Lookahead.{IsAnswer}
use ta_model_v.Replay.Loop.{Pairwise}
use ta_model_v.Gateway.Run.{ResultsById, zipped}

-- A valid result of the approved intent of an approving check.
pub record IsBacked (check : RiskCheckEvent) (r : ReplayOrderResult) : Type 0 where
  pub approves : is_approval check.final_decision ≡ true
  pub approved_intent : check.approved_order_intent ≡ some r.intent
  pub valid : result_is_valid r ≡ true

pub forwarded-IsBacked :
    (bars : List OhlctvBar) (checks : List RiskCheckEvent) (intents : List OrderIntent)
    (results : List ReplayOrderResult)
    → IsForwarded checks intents
    → Pairwise (IsAnswer bars) intents results
    → Pairwise IsBacked checks results
unfolding IsForwarded
forwarded-IsBacked bars [] [] [] f p = tt
forwarded-IsBacked bars [] [] (r ∷ rs) f p = absurd p
forwarded-IsBacked bars [] (i ∷ is) results f p = absurd f
forwarded-IsBacked bars (c ∷ cs) [] results f p = absurd f
forwarded-IsBacked bars (c ∷ cs) (i ∷ is) [] f p = absurd p
forwarded-IsBacked bars (c ∷ cs) (i ∷ is) (r ∷ rs) f p = (
  record { approves = f.0; approved_intent = f.1 ∙ ap some (sym (p.0).0); valid = (p.0).1 },
  forwarded-IsBacked bars cs is rs f.2 p.1,
)

pub length-Pairwise :
    {A B : Type 0} (R : A → B → Type 0) (xs : List A) (ys : List B)
    → Pairwise R xs ys
    → length xs ≡ length ys
length-Pairwise R [] [] h = refl
length-Pairwise R [] (y ∷ ys) h = absurd h
length-Pairwise R (x ∷ xs) [] h = absurd h
length-Pairwise R (x ∷ xs) (y ∷ ys) h = ap suc (length-Pairwise R xs ys h.1)

fresh_cons :
    (c : RiskCheckEvent) (cs : List RiskCheckEvent) (k : String)
    → k ≢ c.risk_check_id
    → ((c' : RiskCheckEvent) → Among c' cs → c'.risk_check_id ≢ k)
    → (c' : RiskCheckEvent) → Among c' (c ∷ cs)
    → c'.risk_check_id ≢ k
fresh_cons c cs k differ fresh c' (inl same) e =
    differ (sym e ∙ ap (λ (x : RiskCheckEvent). x.risk_check_id) same)
fresh_cons c cs k differ fresh c' (inr later) e = fresh c' later e

-- Either the ids of the checks hold a key, and the lookup finds a result of such a check, or not.
pub lookup-zipped :
    {R : RiskCheckEvent → ReplayOrderResult → Type 0} (checks : List RiskCheckEvent)
    (results : List ReplayOrderResult) (k : String) (d : ResultsById)
    → Pairwise R checks results
    → ((c : RiskCheckEvent) × (r : ReplayOrderResult) × Among c checks
        × (c.risk_check_id ≡ k)
        × R c r
        × (lookup k (zipped d (ids_of checks) results) ≡ some r))
      ⊎ ((lookup k (zipped d (ids_of checks) results) ≡ lookup k d)
          × ((c : RiskCheckEvent) → Among c checks → c.risk_check_id ≢ k))
unfolding zipped
lookup-zipped [] results k d p = inr (refl, λ c h. absurd h)
lookup-zipped (c ∷ cs) [] k d p = absurd p
lookup-zipped {R = R} (c ∷ cs) (r ∷ rs) k d p =
    elim (lookup-zipped {R = R} cs rs k (insert c.risk_check_id r d) p.1) [
      | inl (c', r', among, same, related, found) ↦ inl (c', r', inr among, same, related, found)
      | inr (kept, fresh) ↦ elim (Bool-cases (str_eq k c.risk_check_id)) [
        | inl this ↦
            let same = (eq_iff k c.risk_check_id).0 this in
            inl (
              c,
              r,
              inl refl,
              sym same,
              p.0,
              kept
                  ∙ ap (λ j. lookup j (insert c.risk_check_id r d)) same
                  ∙ lookup-insert_self c.risk_check_id r d,
            )
        | inr other ↦
            let differ : k ≢ c.risk_check_id = ground (arith, other, eq_iff k c.risk_check_id) in
            inr
              (kept ∙ lookup-insert_ne k c.risk_check_id r d differ, fresh_cons c cs k differ fresh)
      ]
    ]

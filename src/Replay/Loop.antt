-- ===== src/Replay/Loop.antt =====
-- The loop of `replay_ohlctv_market_orders` (simulation/replay.py) over the intents: what one round
-- keeps holds of the whole replay, and what a returned report consists of.
use ta_model_v.Base.{String, Option, List, [], ◌∷◌, inl, inr, ◌≡◌, refl, sym, ap, ◌∙◌, map}
use mathlib.Core.Path.{subst}
use ta_model_v.Base.Among.{Among}
use ta_model_v.Contracts.Result.{Result, ok, require, >>=-eq-ok}
use ta_model_v.Contracts.Text.{is_canonical_id}
use ta_model_v.Contracts.Instrument.{InstrumentMasterSnapshot}
use ta_model_v.Contracts.Bar.{OhlctvBar}
use ta_model_v.Contracts.Order.{OrderIntent}
use ta_model_v.Contracts.ReplayResult.{ReplayOrderResult, build_rejection_counts}
use ta_model_v.Contracts.Simulation.{SimulatedAccountState, ExecutionCostModel}
use ta_model_v.Replay.Validation.{
  BarScan, IntentScan, validate_bars_are_safe, validate_order_intents,
}
use ta_model_v.Replay.Draft.{ReplayDigests}
use ta_model_v.Replay.Settle.{Venues, Balances}
use ta_model_v.Replay.Fill.{replay_one}
use ta_model_v.Contracts.Ensures.{Ensures, Ensures-bind}
use ta_model_v.Replay.Run.{
  ReplayReport, paired, balance_dict, replay_all, build_account_state, replay_ohlctv_market_orders,
}

-- Two lists of one length, whose elements are related pairwise.
abbrev pub Pairwise : {A B : Type 0} → (A → B → Type 0) → List A → List B → Type 0
Pairwise R [] [] = Unit
Pairwise R [] (y ∷ ys) = ⊥
Pairwise R (x ∷ xs) [] = ⊥
Pairwise R (x ∷ xs) (y ∷ ys) = R x y × Pairwise R xs ys

-- Each element of the second list is related to one of the first.
pub Among-Pairwise :
    {A B : Type 0} (R : A → B → Type 0) (xs : List A) (ys : List B)
    → Pairwise R xs ys
    → (y : B) → Among y ys
    → (x : A) × Among x xs × R x y
Among-Pairwise R [] [] h y among = absurd among
Among-Pairwise R [] (z ∷ zs) h y among = absurd h
Among-Pairwise R (x ∷ xs) [] h y among = absurd among
Among-Pairwise R (x ∷ xs) (z ∷ zs) h y (inl same) = (x, inl refl, subst (R x) (sym same) h.0)
Among-Pairwise R (x ∷ xs) (z ∷ zs) h y (inr later) =
    let (x', among, related) = Among-Pairwise R xs zs h.1 y later in (x', inr among, related)

module _ (digests : ReplayDigests) (venues : Option Venues) (cost_model : Option ExecutionCostModel)
    (bars : List OhlctvBar) (I : Balances → Type 0) (R : OrderIntent → ReplayOrderResult → Type 0)
    (round : (intent : OrderIntent) (balances : Balances)
      → I balances
      → Ensures
          (λ o. R intent o.0 × I o.1)
          (replay_one digests venues cost_model bars intent balances)) where
  -- Where each round keeps an invariant of the balances and relates the result to the intent, so does
  -- the loop, intent by intent.
  pub replay_all_rule :
      (intents : List OrderIntent) (balances : Balances)
      → I balances
      → Ensures
          (λ o. Pairwise R intents o.0 × I o.1)
          (replay_all digests venues cost_model bars intents balances)
  unfolding replay_all
  replay_all_rule [] balances h = (tt, h)
  replay_all_rule (intent ∷ intents) balances h =
      Ensures-bind (λ o. R intent o.0 × I o.1) (λ o. Pairwise R (intent ∷ intents) o.0 × I o.1)
        (replay_one digests venues cost_model bars intent balances) _ (round intent balances h)
        λ o first.
          Ensures-bind (λ r. Pairwise R intents r.0 × I r.1)
            (λ r. Pairwise R (intent ∷ intents) r.0 × I r.1)
            (replay_all digests venues cost_model bars intents o.1) _
            (replay_all_rule intents o.1 first.1) λ rest later. ((first.0, later.0), later.1)

-- The parts of a returned report.
pub record IsReplayed (digests : ReplayDigests) (bars : List OhlctvBar) (intents : List OrderIntent)
    (cost_model : Option ExecutionCostModel) (snapshot : Option InstrumentMasterSnapshot)
    (account_state : Option SimulatedAccountState) (report : ReplayReport) : Type 0 where
  pub scan : BarScan
  pub bars_are_safe : validate_bars_are_safe bars ≡ ok scan
  pub order : IntentScan
  pub intents_are_valid : validate_order_intents intents ≡ ok order
  pub venues : Option Venues
  pub supplied_together : paired snapshot account_state ≡ ok venues
  pub final : Balances
  pub replayed :
      replay_all digests venues cost_model bars intents (balance_dict venues)
      ≡ ok (report.results, final)
  pub final_state : build_account_state venues final ≡ ok report.final_account_state
  pub identified : report.result_ids ≡ map (λ r. r.replay_order_result_id) report.results
  pub counted : report.rejection_counts ≡ build_rejection_counts report.results

pub ok_inj : {A : Type 0} (a b : A) → Path (Result A) (ok a) (ok b) → a ≡ b
ok_inj a b h = cc h

pub report-IsReplayed :
    (digests : ReplayDigests) (bars : List OhlctvBar) (intents : List OrderIntent) (run_id : String)
    (cost_model : Option ExecutionCostModel) (snapshot : Option InstrumentMasterSnapshot)
    (account_state : Option SimulatedAccountState) {report : ReplayReport}
    → replay_ohlctv_market_orders digests bars intents run_id cost_model snapshot account_state
      ≡ ok report
    → IsReplayed digests bars intents cost_model snapshot account_state report
unfolding replay_ohlctv_market_orders
report-IsReplayed digests bars intents run_id cost_model snapshot account_state {report} h =
    let (scan, safe, h1) = >>=-eq-ok (validate_bars_are_safe bars) _ h in
    let (order, valid, h2) = >>=-eq-ok (validate_order_intents intents) _ h1 in
    let (venues, together, h3) = >>=-eq-ok (paired snapshot account_state) _ h2 in
    let (o, replayed, h4) =
      >>=-eq-ok (replay_all digests venues cost_model bars intents (balance_dict venues)) _ h3 in
    let (state, built, h5) = >>=-eq-ok (build_account_state venues o.1) _ h4 in
    let (passed, named, h6) = >>=-eq-ok (require (is_canonical_id run_id) _) _ h5 in
    let same = ok_inj _ report h6 in
    let results = ap (λ (r : ReplayReport). r.results) same in
    record {
      scan = scan;
      bars_are_safe = safe;
      order = order;
      intents_are_valid = valid;
      venues = venues;
      supplied_together = together;
      final = o.1;
      replayed = replayed ∙ ap (λ rs. ok (rs, o.1)) results;
      final_state = built ∙ ap (λ (r : ReplayReport). ok r.final_account_state) same;
      identified =
          sym (ap (λ (r : ReplayReport). r.result_ids) same)
          ∙ ap (map (λ r. r.replay_order_result_id)) results;
      counted =
          sym (ap (λ (r : ReplayReport). r.rejection_counts) same)
          ∙ ap build_rejection_counts results;
    }

-- ===== src/Engine/Caps.antt =====
-- Soft breaches: what a risk-increasing order is cut to, and when it is not traded at all.
use ta_model_v.Base.{
  Bool, true, false, Option, none, some, List, [], ◌∷◌, any, filter, is_some, not, ◌&&◌, ◌≡◌, refl,
  arith, if◌then◌else◌, All,
}
use mathlib.Core.Path.{subst}
use ta_model_v.Decimal.{Decimal, of_nat}
use ta_model_v.Decimal
use ta_model_v.Decimal.Order.{AtMost, AtMost-trans, lt_irrefl, lt_asymm}
use ta_model_v.Contracts.Result.{ok}
use ta_model_v.Contracts.Order.{OrderIntent, make_order_intent}
use ta_model_v.Contracts.Risk.{
  LimitId, max_notional, participation, instrument_exposure, strategy_exposure, total_spot_exposure,
  RiskReasonCode, position_total_spot_exposure_soft, RiskCheckRequest, RiskLimitEvaluation,
  RiskDecisionStatus, is_soft,
}
use ta_model_v.Engine.Decision.{
  is_total_spot_soft, cap_for, capped_or_none, consed, capped_approval,
  allowed_incremental_notional, allowed_notionals, least_of,
}

-- The soft breaches, as `_approval_after_soft_caps` collects them.
abbrev pub soft_breaches : List RiskLimitEvaluation → List RiskLimitEvaluation
soft_breaches = filter (λ e. is_soft e.status)

-- A soft breach that names no cap.
abbrev pub is_uncapped : RiskCheckRequest → RiskLimitEvaluation → Bool
is_uncapped r e = is_soft e.status && not (is_some (allowed_incremental_notional r e))

-- `least` is at most each value of a list.
abbrev pub IsBelowAll : Decimal → List Decimal → Type 0
IsBelowAll least = All (AtMost least)

IsBelowAll-mono :
    (a b : Decimal) (ds : List Decimal) → AtMost a b → IsBelowAll b ds → IsBelowAll a ds
IsBelowAll-mono a b [] h k = tt
IsBelowAll-mono a b (d ∷ ds) h k = (AtMost-trans a b d h k.0, IsBelowAll-mono a b ds h k.1)

least_step :
    (b : Bool) (d c : Decimal) (cs : List Decimal)
    → Decimal.lt c d ≡ b
    → let next = if b then c else d in
      IsBelowAll (least_of next cs) (next ∷ cs) → IsBelowAll (least_of next cs) (d ∷ c ∷ cs)
least_step true d c cs h ih = (AtMost-trans (least_of c cs) c d ih.0 (lt_asymm c d h), (ih.0, ih.1))
least_step false d c cs h ih = (ih.0, (AtMost-trans (least_of d cs) d c ih.0 h, ih.1))

-- `min` of a list is at most its first element and each later one.
least_of-IsBelowAll : (d : Decimal) (ds : List Decimal) → IsBelowAll (least_of d ds) (d ∷ ds)
unfolding least_of
least_of-IsBelowAll d [] = (lt_irrefl d, tt)
least_of-IsBelowAll d (c ∷ cs) =
    least_step (Decimal.lt c d) d c cs refl
      (least_of-IsBelowAll (if Decimal.lt c d then c else d) cs)

-- What a breached limit with a capped value leaves for the order: the cap itself, or the cap less the
-- exposure that is there. No other limit leaves anything.
abbrev pub AllowedUnder : RiskCheckRequest → Decimal → RiskReasonCode → Decimal → LimitId → Type 0
AllowedUnder r allowed reason capped max_notional = AtMost allowed capped
AllowedUnder r allowed reason capped participation = AtMost allowed capped
AllowedUnder r allowed reason capped instrument_exposure =
    AtMost allowed (Decimal.sub capped r.current_instrument_exposure_notional)
AllowedUnder r allowed reason capped strategy_exposure =
    AtMost allowed (Decimal.sub capped r.current_strategy_exposure_notional)
AllowedUnder r allowed reason capped total_spot_exposure =
    (reason ≡ position_total_spot_exposure_soft)
    × AtMost allowed (Decimal.sub capped r.current_total_spot_exposure_notional)
AllowedUnder r allowed reason capped _ = ⊥

-- The evaluation names a capped value, and `allowed` is at most what that leaves.
abbrev pub IsAllowedBy : RiskCheckRequest → Decimal → RiskLimitEvaluation → Type 0
IsAllowedBy r allowed e =
    (capped : Decimal) × (e.capped_value ≡ some capped)
    × AllowedUnder r allowed e.reason_code capped e.limit_id

is_total_spot_soft_iff :
    (reason : RiskReasonCode)
    → is_total_spot_soft reason ≡ true
    → reason ≡ position_total_spot_exposure_soft
is_total_spot_soft_iff reason h = ground arith

cap_for-AllowedUnder :
    (r : RiskCheckRequest) (allowed capped : Decimal) (reason : RiskReasonCode) (limit : LimitId)
    {cap : Decimal}
    → cap_for limit reason r capped ≡ some cap
    → AtMost allowed cap
    → AllowedUnder r allowed reason capped limit
cap_for-AllowedUnder r allowed capped reason limit h k =
    ground (arith, is_total_spot_soft_iff reason)

capped_or_none-AllowedUnder :
    (r : RiskCheckRequest) (allowed : Decimal) (reason : RiskReasonCode) (limit : LimitId)
    (capped_value : Option Decimal) {cap : Decimal}
    → capped_or_none limit reason r capped_value ≡ some cap
    → AtMost allowed cap
    → (capped : Decimal) × (capped_value ≡ some capped) × AllowedUnder r allowed reason capped limit
capped_or_none-AllowedUnder r allowed reason limit none h k = cc
capped_or_none-AllowedUnder r allowed reason limit (some capped) {cap} h k =
    (capped, refl, cap_for-AllowedUnder r allowed capped reason limit {cap = cap} h k)

if_some :
    {A : Type 0} (b : Bool) (x : Option A) {a : A} → (if b then x else none) ≡ some a → x ≡ some a
if_some true x h = h
if_some false x h = cc

allowed_incremental_notional-IsAllowedBy :
    (r : RiskCheckRequest) (allowed : Decimal) (e : RiskLimitEvaluation) {cap : Decimal}
    → allowed_incremental_notional r e ≡ some cap
    → AtMost allowed cap
    → IsAllowedBy r allowed e
unfolding allowed_incremental_notional
allowed_incremental_notional-IsAllowedBy r allowed e {cap} h k =
    capped_or_none-AllowedUnder r allowed e.reason_code e.limit_id e.capped_value {cap = cap}
      (if_some (is_soft e.status) _ h) k

consed-eq-some :
    (x : Option Decimal) (rest : Option (List Decimal)) {caps : List Decimal}
    → consed x rest ≡ some caps
    → (c : Decimal) × (cs : List Decimal) × (x ≡ some c) × (rest ≡ some cs) × (caps ≡ c ∷ cs)
consed-eq-some none rest h = cc
consed-eq-some (some c) none h = cc
consed-eq-some (some c) (some cs) h = (c, cs, refl, refl, cc)

allowed_notionals-IsAllowedBy :
    (r : RiskCheckRequest) (es : List RiskLimitEvaluation) {caps : List Decimal} (allowed : Decimal)
    → allowed_notionals r es ≡ some caps
    → IsBelowAll allowed caps
    → All (IsAllowedBy r allowed) es
unfolding allowed_notionals
allowed_notionals-IsAllowedBy r [] allowed h k = tt
allowed_notionals-IsAllowedBy r (e ∷ es) allowed h k =
    let (c, cs, cap, rest, both) =
      consed-eq-some (allowed_incremental_notional r e) (allowed_notionals r es) h in
    let below : IsBelowAll allowed (c ∷ cs) = subst (IsBelowAll allowed) both k in
    (
      allowed_incremental_notional-IsAllowedBy r allowed e {cap = c} cap below.0,
      allowed_notionals-IsAllowedBy r es allowed rest below.1,
    )

-- A soft breach that names no cap stops the loop.
pub allowed_notionals-uncapped :
    (r : RiskCheckRequest) (es : List RiskLimitEvaluation)
    → any (is_uncapped r) es ≡ true
    → allowed_notionals r (soft_breaches es) ≡ none
unfolding allowed_notionals
allowed_notionals-uncapped r [] h = cc
allowed_notionals-uncapped r (e ∷ es) h = ground (arith, allowed_notionals-uncapped r es)

-- What the cap does to an order that it cuts.
abbrev pub IsCutTo : RiskCheckRequest → List RiskLimitEvaluation → OrderIntent → Type 0
IsCutTo r es i =
    (allowed : Decimal) × (i
      ≡ record r.order_intent { quantity = Decimal.div allowed r.reference_price })
    × (Decimal.lt (of_nat 0) allowed ≡ true)
    × (Decimal.lt allowed (Decimal.mul r.order_intent.quantity r.reference_price) ≡ true)
    × All (IsAllowedBy r allowed) (soft_breaches es)

module _ (r : RiskCheckRequest) (es : List RiskLimitEvaluation) {i : OrderIntent} where
  pub capped_approval-IsCutTo :
      (caps : Option (List Decimal))
      → allowed_notionals r (soft_breaches es) ≡ caps
      → capped_approval r caps ≡ ok (RiskDecisionStatus.approved_after_cap, some i)
      → IsCutTo r es i
  unfolding capped_approval make_order_intent
  capped_approval-IsCutTo none e h = cc
  capped_approval-IsCutTo (some []) e h = cc
  capped_approval-IsCutTo (some (d ∷ ds)) e h =
      let allowed = least_of d ds in
      (
        allowed,
        ground arith,
        ground arith,
        ground arith,
        allowed_notionals-IsAllowedBy r (soft_breaches es) allowed e (least_of-IsBelowAll d ds),
      )

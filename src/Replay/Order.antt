-- ===== src/Replay/Order.antt =====
-- Which intents `_validate_order_intents` (simulation/replay.py) accepts.
use ta_model_v.Base.{
  String, Bool, true, false, Option, none, some, List, [], ◌∷◌, all, any, not, ◌&&◌, str_eq, eq_iff,
  ◌≡◌, refl, ap, sym, ltb, ◌==◌, ◌||◌, ◌∙◌, arith, Bool-cases, inl, inr,
}
use ta_model_v.Base.Text.{text_lt}
use ta_model_v.Base.Distinct.{distinct}
use ta_model_v.Contracts.Result.{Result, ok, err, Error, require, ◌>>=◌, ◌>>◌}
use ta_model_v.Contracts.Order.{OrderIntent}
use ta_model_v.Replay.Validation.{
  IntentScan, not_before_previous, scan_intent, scan_intents, validate_order_intents,
}

abbrev pub is_ok : {A : Type 0} → Result A → Bool
is_ok (ok a) = true
is_ok (err e) = false

abbrev pub same_client : OrderIntent → OrderIntent → Bool
same_client a b = str_eq a.client_order_id b.client_order_id

-- An intent may stand after another that was submitted earlier, or at the same time with an id that
-- is not greater.
abbrev pub may_follow : OrderIntent → OrderIntent → Bool
may_follow i p =
    ltb p.submitted_at i.submitted_at
    || p.submitted_at == i.submitted_at && not (text_lt i.client_order_id p.client_order_id)

-- Each intent may stand after the one that it follows.
abbrev in_order_after : Option OrderIntent → List OrderIntent → Bool
in_order_after previous [] = true
in_order_after none (i ∷ is) = in_order_after (some i) is
in_order_after (some p) (i ∷ is) = may_follow i p && in_order_after (some i) is

may_follow_lem : (i p : OrderIntent) → not_before_previous i (some p) ≡ may_follow i p
may_follow_lem i p = ground arith

in_order_after_cons :
    (previous : Option OrderIntent) (i : OrderIntent) (is : List OrderIntent)
    → in_order_after previous (i ∷ is)
      ≡ (not_before_previous i previous && in_order_after (some i) is)
in_order_after_cons none i is = refl
in_order_after_cons (some p) i is =
    ap (λ b. b && in_order_after (some i) is) (sym (may_follow_lem i p))

abbrev pub in_order : List OrderIntent → Bool
in_order = in_order_after none

-- No intent has an id that was seen.
abbrev unseen : List String → List OrderIntent → Bool
unseen seen is = all (λ i. not (any (str_eq i.client_order_id) seen)) is

unseen_none : (is : List OrderIntent) → unseen [] is ≡ true
unseen_none [] = refl
unseen_none (i ∷ is) = unseen_none is

unseen_cons :
    (i : OrderIntent) (seen : List String) (is : List OrderIntent)
    → unseen (i.client_order_id ∷ seen) is ≡ (not (any (same_client i) is) && unseen seen is)
unseen_cons i seen [] = refl
unseen_cons i seen (j ∷ js) = ground (
  arith,
  unseen_cons i seen js,
  eq_iff i.client_order_id j.client_order_id,
  eq_iff j.client_order_id i.client_order_id,
)

is_ok-require :
    {A : Type 0} (b : Bool) (e : Error) (k : Result A) → is_ok (require b e >> k) ≡ (b && is_ok k)
is_ok-require true e k = refl
is_ok-require false e k = refl

scan_step :
    (s : IntentScan) (i : OrderIntent) (k : IntentScan → Result IntentScan)
    → is_ok (scan_intent s i >>= k) ≡ (
        not (any (str_eq i.client_order_id) s.seen_client_order_ids)
        && not_before_previous i s.previous_order
        && is_ok (
            k (record {
              seen_client_order_ids = i.client_order_id ∷ s.seen_client_order_ids;
              previous_order = some i;
            })))
unfolding scan_intent
scan_step s i k = elim (Bool-cases (not (any (str_eq i.client_order_id) s.seen_client_order_ids))) [
  | inl fresh ↦ elim (Bool-cases (not_before_previous i s.previous_order)) [
    | inl sorted ↦ rw (fresh, sorted) refl
    | inr unsorted ↦ rw (fresh, unsorted) refl
  ]
  | inr seen ↦ rw seen refl
]

scan_intents-is_ok :
    (s : IntentScan) (is : List OrderIntent)
    → is_ok (scan_intents s is) ≡ (
        unseen s.seen_client_order_ids is
        && distinct same_client is
        && in_order_after s.previous_order is)
unfolding scan_intents
scan_intents-is_ok s [] = refl
scan_intents-is_ok s (i ∷ is) =
    let s' : IntentScan = record {
      seen_client_order_ids = i.client_order_id ∷ s.seen_client_order_ids;
      previous_order = some i;
    } in
    ground (
      arith,
      scan_step s i (λ t. scan_intents t is),
      scan_intents-is_ok s' is,
      unseen_cons i s.seen_client_order_ids is,
      in_order_after_cons s.previous_order i is,
    )

-- The validation of the intents accepts exactly the lists of distinct client order ids in which each
-- intent after the first was submitted later than the one that it follows, or at the same time with an
-- id that is not less; it raises on all others.
pub validate_order_intents_iff :
    (intents : List OrderIntent)
    → is_ok (validate_order_intents intents) ≡ (distinct same_client intents && in_order intents)
unfolding validate_order_intents
validate_order_intents_iff intents =
    scan_intents-is_ok (record { seen_client_order_ids = []; previous_order = none }) intents
    ∙ ap (λ u. u && distinct same_client intents && in_order intents) (unseen_none intents)

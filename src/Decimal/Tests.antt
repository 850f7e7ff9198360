-- ===== src/Decimal/Tests.antt =====
-- Values that Python prints.
use ta_model_v.Base.{◌≡◌, refl, true}
use ta_model_v.Decimal.{of_nat, literal, add, mul, div, eq, neg, is_multiple, computing}

-- 1 / 3 = 0.3333333333333333333333333333
third : eq (div (of_nat 1) (of_nat 3)) (literal 3333333333333333333333333333 28) ≡ true
unfolding computing
third = refl

-- 2 / 3 = 0.6666666666666666666666666667
two_thirds : eq (div (of_nat 2) (of_nat 3)) (literal 6666666666666666666666666667 28) ≡ true
unfolding computing
two_thirds = refl

-- 100 / 8 = 12.5, exactly.
eighth : eq (div (of_nat 100) (of_nat 8)) (literal 125 1) ≡ true
unfolding computing
eighth = refl

-- -(0.01 * 250.5) = -2.505
loss_limit : eq (add (neg (mul (literal 1 2) (literal 2505 1))) (literal 2505 3)) (of_nat 0) ≡ true
unfolding computing
loss_limit = refl

-- A sum of 29 digits is rounded to the even neighbour.
rounded_sum :
    eq
      (add (literal 10000000000000000000000000005 1) (of_nat 0))
      (of_nat 1000000000000000000000000000)
    ≡ true
unfolding computing
rounded_sum = refl

on_tick : is_multiple (literal 12345 2) (literal 5 2) ≡ true
unfolding computing
on_tick = refl

-- ===== src/Sample/Promises/Results.antt =====
-- The arithmetic of a result.
use robot_harness.Base.{
  ℕ, ◌≡◌, ◌≤◌, ◌+◌, ◌*◌, true, false, List, [], ◌∷◌, arith, refl, length, ap, suc, sym, ◌∙◌,
}
use native.Mathlib.Nat.{mul-le-mul_left, mul-le-mul_right}
use robot_harness.Integer.{ℤ, pos, negsuc, int_ltb, ◌*ℤ◌, ◌+ℤ◌}
use robot_harness.Sample.Types.{
  SampleRequest, WorkItem, is_in_range, are_in_range, is_valid_request, squares, add_squares,
  result_of,
}

product_bounded : (a : ℕ) → a ≤ 10000 → a * a ≤ 100000000
product_bounded a h = omega (arith, mul-le-mul_left a h, mul-le-mul_right 10000 h)

-- A value in range has a square of at most 10^8, and it is no negative number.
square_bounded : (v : ℤ) → is_in_range v ≡ true → (n : ℕ) × (v *ℤ v ≡ pos n) × (n ≤ 100000000)
unfolding int_ltb ◌*ℤ◌
square_bounded (pos a) h = (a * a, refl, product_bounded a (ground arith))
square_bounded (negsuc a) h = ((a + 1) * (a + 1), refl, product_bounded (a + 1) (ground arith))

-- The sum of the numbers.
unfoldable pub total : List ℤ → ℤ
total [] = pos 0
total (v ∷ vs) = v +ℤ total vs

record Summed (s bound : ℕ) (vs : List ℤ) : Type 0 where
  amount : ℕ
  summed : add_squares (pos s) vs ≡ pos (s + amount)
  totalled : total (squares vs) ≡ pos amount
  bounded : amount ≤ bound

summed : (s : ℕ) (vs : List ℤ) → are_in_range vs ≡ true → Summed s (100000000 * length vs) vs
unfolding add_squares total squares are_in_range ◌+ℤ◌
summed s [] h = record { amount = 0; summed = ground arith; totalled = refl; bounded = omega arith }
summed s (v ∷ vs) h =
    let (n, e, b) = square_bounded v (ground arith) in
    let rest = summed (s + n) vs (ground arith) in
    record {
      amount = n + rest.amount;
      summed = ground (arith, rest.summed, e);
      totalled = ground (arith, rest.totalled, e);
      bounded = ground (arith, rest.bounded, b);
    }

size_bounded : (q : SampleRequest) → is_valid_request q ≡ true → length q.values ≤ 16
unfolding is_valid_request
size_bounded q h = ground arith

values_bounded : (q : SampleRequest) → is_valid_request q ≡ true → are_in_range q.values ≡ true
unfolding is_valid_request
values_bounded q h = ground arith

length-squares : (vs : List ℤ) → length (squares vs) ≡ length vs
unfolding squares
length-squares [] = refl
length-squares (v ∷ vs) = ap suc (length-squares vs)

-- The distance of a number from zero.
unfoldable pub magnitude : ℤ → ℕ
magnitude (pos a) = a
magnitude (negsuc a) = a + 1

-- The second numbers are the squares of the first ones, one for each and in their order.
abbrev pub AreSquares : List ℤ → List ℤ → Type 0
AreSquares [] [] = Unit {0}
AreSquares (v ∷ vs) (s ∷ ss) = (s ≡ pos (magnitude v * magnitude v)) × AreSquares vs ss
AreSquares _ _ = true ≡ false

square_exact : (v : ℤ) → v *ℤ v ≡ pos (magnitude v * magnitude v)
unfolding magnitude ◌*ℤ◌
square_exact (pos a) = refl
square_exact (negsuc a) = refl

squares-AreSquares : (vs : List ℤ) → AreSquares vs (squares vs)
unfolding squares
squares-AreSquares [] = tt
squares-AreSquares (v ∷ vs) = (square_exact v, squares-AreSquares vs)

-- Of a valid request the result has the square of each value, in the order of the values and as many
-- as there are; its sum is the sum of the squares that it lists, is not negative and at most
-- 16 * 10^8, so no 64-bit number overflows on the way.
pub result_of-bounded :
    (w : WorkItem)
    → is_valid_request w.request ≡ true
    → (n : ℕ) × ((result_of w).sum_of_squares ≡ pos n)
      × AreSquares w.request.values (result_of w).squared_values
      × (total (result_of w).squared_values ≡ (result_of w).sum_of_squares)
      × (n ≤ 1600000000)
      × (length (result_of w).squared_values ≡ length w.request.values)
unfolding result_of
result_of-bounded w h =
    let vs = w.request.values in
    let all = summed 0 vs (values_bounded w.request h) in
    (
      all.amount,
      all.summed ∙ ap pos (omega arith),
      squares-AreSquares vs,
      all.totalled ∙ ap pos (omega arith) ∙ sym all.summed,
      omega (arith, all.bounded, size_bounded w.request h),
      length-squares vs,
    )

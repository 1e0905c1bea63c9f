-- ===== src/Compute/Promises/Sums.antt =====
-- The sum that the host expects is the sum of squares that the worker adds up.
use native.Mathlib.Nat.{mul-le-mul_left, mul-le-mul_right}
use robot_harness.Base.{
  ℕ, zero, suc, ◌≡◌, ◌≢◌, ◌⊎◌, ◌≤◌, ◌<◌, ◌+◌, ◌-◌, ◌*◌, ◌/◌, ◌%◌, ◌==◌, false, arith, refl, inl,
  inr, ap, ◌∙◌, if◌then◌else◌, Bool-cases, ◌^◌, sym,
}
use robot_harness.Compute.Types.{expected_sum}
use robot_harness.Compute.Worker.{add_batch}

-- The sum of the squares of i % 1000, for i below n.
unfoldable pub sum_below : ℕ → ℕ
sum_below zero = 0
sum_below (suc n) = sum_below n + n % 1000 * (n % 1000)

-- The same in 64 bits.
unfoldable pub wrapped_sum : ℕ → ℕ
wrapped_sum n = sum_below n % 2 ^ 64

-- The sum of the squares below r.
pyramid : ℕ → ℕ
pyramid zero = 0
pyramid (suc r) = pyramid r + r * r

pyramid_closed : (r : ℕ) → 6 * pyramid (suc r) ≡ r * (r + 1) * (2 * r + 1)
unfolding pyramid
pyramid_closed zero = refl
pyramid_closed (suc r) = omega (arith, pyramid_closed r)

product_closed : (r : ℕ) → (r - 1) * r * (2 * r - 1) ≡ 6 * pyramid r
unfolding pyramid
product_closed zero = refl
product_closed (suc m) =
    let back : suc m - 1 ≡ m = omega arith in
    let odd : 2 * suc m - 1 ≡ 2 * m + 1 = omega arith in
    rw (back, odd) (omega (arith, pyramid_closed m))

last_square : pyramid 999 + 998001 ≡ 332833500
unfolding pyramid
last_square = refl

-- The remainder and the quotient of the next number.
next_remainder :
    (n : ℕ) → n % 1000 < 999 → (suc n % 1000 ≡ suc (n % 1000)) × (suc n / 1000 ≡ n / 1000)
next_remainder n h = (omega (arith, h), omega (arith, h))

next_quotient : (n : ℕ) → n % 1000 ≡ 999 → (suc n % 1000 ≡ 0) × (suc n / 1000 ≡ n / 1000 + 1)
next_quotient n h = (omega (arith, h), omega (arith, h))

not_last : (r : ℕ) → (r == 999) ≡ false → r ≢ 999
not_last r e h = ground arith

remainder-cases : (n : ℕ) → (n % 1000 ≡ 999) ⊎ (n % 1000 < 999)
remainder-cases n = elim (Bool-cases (n % 1000 == 999)) [
  | inl e ↦ inl (ground arith)
  | inr e ↦ inr (omega (arith, not_last (n % 1000) e))
]

quotient_form : (n : ℕ) → sum_below n ≡ n / 1000 * 332833500 + pyramid (n % 1000)
unfolding sum_below pyramid
quotient_form zero = refl
quotient_form (suc n) = elim (remainder-cases n) [
  | inl e ↦
      let (r, q) = next_quotient n e in
      omega (
        arith,
        quotient_form n,
        q,
        ap pyramid r,
        ap pyramid e,
        ap (λ (x : ℕ). x * x) e,
        last_square,
      )
  | inr e ↦ let (r, q) = next_remainder n e in omega (arith, quotient_form n, q, ap pyramid r)
]

remainder_form : (r : ℕ) → (if r == 0 then 0 else (r - 1) * r * (2 * r - 1) / 6) ≡ pyramid r
unfolding pyramid
remainder_form zero = refl
remainder_form (suc m) = ground (arith, product_closed (suc m))

-- The closed formula of the host is the sum of the squares of i % 1000 for all i below the iterations,
-- in 64 bits.
pub expected_sum-exact : (n : ℕ) → expected_sum n ≡ wrapped_sum n
unfolding expected_sum wrapped_sum
expected_sum-exact n =
    ap (λ (s : ℕ). s % 2 ^ 64) (omega (arith, quotient_form n, remainder_form (n % 1000)))

square_small : (r : ℕ) → r ≤ 999 → r * r ≤ 998001
square_small r h = omega (arith, mul-le-mul_left r h, mul-le-mul_right 999 h)

mod_small : (n : ℕ) → n % 1000 ≤ 999
mod_small n = omega arith

pub sum_below-bounded : (n : ℕ) → sum_below n ≤ 998001 * n
unfolding sum_below
sum_below-bounded zero = omega arith
sum_below-bounded (suc n) =
    omega (arith, sum_below-bounded n, square_small (n % 1000) (mod_small n))

next_number : (n : ℕ) → n + 1 ≡ suc n
next_number n = omega arith

-- For as many iterations as the worker accepts, the sum does not wrap.
pub wrapped_sum-fits : (n : ℕ) → n ≤ 100000000 → wrapped_sum n ≡ sum_below n
unfolding wrapped_sum
wrapped_sum-fits n b = omega (arith, sum_below-bounded n, b)

wrap_left : (a b : ℕ) → (a % 2 ^ 64 + b) % 2 ^ 64 ≡ (a + b) % 2 ^ 64
wrap_left a b = omega arith

batched :
    (from sum : ℕ)
    → sum ≡ wrapped_sum from
    → (sum + from % 1000 * (from % 1000)) % 2 ^ 64 ≡ wrapped_sum (from + 1)
unfolding wrapped_sum sum_below
batched from sum e =
    ap (λ (s : ℕ). (s + from % 1000 * (from % 1000)) % 2 ^ 64) e
    ∙ wrap_left (sum_below from) (from % 1000 * (from % 1000))
    ∙ ap wrapped_sum (sym (next_number from))

-- A batch adds the squares of its iterations.
pub add_batch-sum :
    (k from : ℕ)
    → (sum : ℕ) → sum ≡ wrapped_sum from
    → add_batch k from sum ≡ wrapped_sum (from + k)
unfolding add_batch
add_batch-sum zero from sum e = e ∙ ap wrapped_sum (omega arith)
add_batch-sum (suc k) from sum e =
    add_batch-sum k (from + 1) ((sum + from % 1000 * (from % 1000)) % 2 ^ 64) (batched from sum e)
    ∙ ap wrapped_sum (omega arith)

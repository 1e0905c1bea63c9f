-- ===== src/Compute/Arguments/Parsed.antt =====
-- The worker reads the number of iterations that it was launched with.
use robot_harness.Base.{
  ℕ, zero, suc, String, true, ◌≡◌, ◌≤◌, ◌<◌, Option, none, some, ◌+◌, ◌-◌, ◌*◌, ◌/◌, ◌%◌, ◌&&◌, ltb,
  leb, u64_max, arith, refl, ap, ◌∙◌, inl, inr, Bool-cases,
}
use Prim.Native.Char.{code}
use Prim.Native.String.{◌++◌ as text_append}
use Prim.Native.String.append.{nil as append-nil, cons as append-cons}
use robot_harness.Decimal.{to_string, digits, digit}
use robot_harness.Compute.Process.{Process}
use robot_harness.Compute.Arguments.{
  is_digit, read_digits, from_chars, within_maximum, parse_iterations, launch_arguments,
}

abbrev then_read : Option ℕ → String → Option ℕ
then_read none s = none
then_read (some v) s = read_digits v s

read_digits-append :
    (v : ℕ) (s t : String) → read_digits v (text_append s t) ≡ then_read (read_digits v s) t
unfolding read_digits
read_digits-append v String.[] t = rw (append-nil t) refl
read_digits-append v (String.◌∷◌ c s) t =
    let next = v * 10 + (code c - 48) in
    let h = read_digits-append next s t in
    elim (Bool-cases (is_digit (code c) && leb next u64_max)) [
      | inl e ↦ rw (append-cons c s t, e) h
      | inr e ↦ rw (append-cons c s t, e) refl
    ]

within_bound : (n : ℕ) → n ≤ u64_max → leb n u64_max ≡ true
within_bound n h = ground (arith, h)

digit_read : (d v : ℕ) → d ≤ 9 → v * 10 + d ≤ u64_max → read_digits v (digit d) ≡ some (v * 10 + d)
unfolding read_digits
digit_read zero v h b = rw (within_bound (v * 10 + 0) b) refl
digit_read (suc zero) v h b = rw (within_bound (v * 10 + 1) b) refl
digit_read (suc (suc zero)) v h b = rw (within_bound (v * 10 + 2) b) refl
digit_read (suc (suc (suc zero))) v h b = rw (within_bound (v * 10 + 3) b) refl
digit_read (suc (suc (suc (suc zero)))) v h b = rw (within_bound (v * 10 + 4) b) refl
digit_read (suc (suc (suc (suc (suc zero))))) v h b = rw (within_bound (v * 10 + 5) b) refl
digit_read (suc (suc (suc (suc (suc (suc zero)))))) v h b = rw (within_bound (v * 10 + 6) b) refl
digit_read (suc (suc (suc (suc (suc (suc (suc zero))))))) v h b =
    rw (within_bound (v * 10 + 7) b) refl
digit_read (suc (suc (suc (suc (suc (suc (suc (suc zero)))))))) v h b =
    rw (within_bound (v * 10 + 8) b) refl
digit_read (suc (suc (suc (suc (suc (suc (suc (suc (suc zero))))))))) v h b =
    rw (within_bound (v * 10 + 9) b) refl
digit_read (suc (suc (suc (suc (suc (suc (suc (suc (suc (suc d)))))))))) v h b =
    absurd (omega (arith, h))

ten_to : ℕ → ℕ
ten_to zero = 1
ten_to (suc k) = 10 * ten_to k

enough_digits : ten_to 21 ≡ 1000000000000000000000
unfolding ten_to
enough_digits = refl

next_digits : (n k : ℕ) → n < 10 * ten_to k → n / 10 < ten_to k
next_digits n k h = omega (arith, h)

first_digit : (n : ℕ) → n ≤ 9 → read_digits 0 (digit n) ≡ some n
first_digit n h = digit_read n 0 h (omega (arith, h)) ∙ ap some (omega arith)

digits_read : (k n : ℕ) → n < ten_to (suc k) → n ≤ u64_max → read_digits 0 (digits k n) ≡ some n
unfolding digits ten_to
digits_read zero n h b = first_digit n (omega (arith, h))
digits_read (suc k) n h b = elim (Bool-cases (ltb n 10)) [
  | inl e ↦ rw e (first_digit n (ground arith))
  | inr e ↦ rw e (
      read_digits-append 0 (digits k (n / 10)) (digit (n % 10))
      ∙ ap (λ r. then_read r (digit (n % 10)))
          (digits_read k (n / 10) (next_digits n (suc k) h) (omega (arith, b)))
      ∙ digit_read (n % 10) (n / 10) (omega arith) (omega (arith, b))
      ∙ ap some (omega arith))
]

to_string-read : (n : ℕ) → n ≤ u64_max → read_digits 0 (to_string n) ≡ some n
unfolding to_string
to_string-read n b = digits_read 20 n (omega (arith, enough_digits, b)) b

some_text : (n : ℕ) (s : String) → 0 < n → read_digits 0 s ≡ some n → from_chars s ≡ some n
unfolding from_chars read_digits
some_text n String.[] h e = absurd (ground (arith, h))
some_text n (String.◌∷◌ c s) h e = e

fits : (n : ℕ) → 0 < n → n ≤ 100000000 → within_maximum (some n) ≡ some n
fits n l b = ground (arith, l, b)

-- The worker of a process that was launched for 1 to 100000000 iterations reads exactly these from its
-- arguments.
pub launch_arguments-parse :
    (p : Process)
    → 0 < p.iterations
    → p.iterations ≤ 100000000
    → parse_iterations (launch_arguments p) ≡ some p.iterations
unfolding parse_iterations launch_arguments
launch_arguments-parse p l b =
    let read : from_chars (to_string p.iterations) ≡ some p.iterations =
      some_text p.iterations (to_string p.iterations) l
        (to_string-read p.iterations (omega (arith, b))) in
    ap within_maximum read ∙ fits p.iterations l b

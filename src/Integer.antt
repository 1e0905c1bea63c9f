-- ===== src/Integer.antt =====
-- Signed 64-bit numbers, as integers over the native natural numbers, with the comparison and the
-- sums that the code uses.
use robot_harness.Base.{ℕ, zero, suc, Bool, true, false, ◌+◌, ◌-◌, ◌*◌, ◌==◌, ltb, if◌then◌else◌}

pub data ℤ : Type 0 where
  pos : ℕ → ℤ
  negsuc : ℕ → ℤ

-- `<` of two integers; `negsuc n` is -(n + 1).
unfoldable pub int_ltb : ℤ → ℤ → Bool
int_ltb (pos a) (pos b) = ltb a b
int_ltb (pos _) (negsuc _) = false
int_ltb (negsuc _) (pos _) = true
int_ltb (negsuc a) (negsuc b) = ltb b a

-- `==`.
unfoldable pub int_eq : ℤ → ℤ → Bool
int_eq (pos a) (pos b) = a == b
int_eq (negsuc a) (negsuc b) = a == b
int_eq (pos _) (negsuc _) = false
int_eq (negsuc _) (pos _) = false

unfoldable pub sub_nat : ℕ → ℕ → ℤ
sub_nat a b = if ltb a b then negsuc (b - a - 1) else pos (a - b)

unfoldable pub negated : ℤ → ℤ
negated (pos zero) = pos zero
negated (pos (suc n)) = negsuc n
negated (negsuc n) = pos (n + 1)

-- `+` and `-` where they do not overflow.
infixl 60 ◌+ℤ◌
unfoldable pub ◌+ℤ◌ : ℤ → ℤ → ℤ
unfolding sub_nat
pos a +ℤ pos b = pos (a + b)
pos a +ℤ negsuc b = sub_nat a (b + 1)
negsuc a +ℤ pos b = sub_nat b (a + 1)
negsuc a +ℤ negsuc b = negsuc (a + b + 1)

infixl 60 ◌-ℤ◌
unfoldable pub ◌-ℤ◌ : ℤ → ℤ → ℤ
unfolding negated
a -ℤ b = a +ℤ negated b

-- `*` where it does not overflow.
infixl 70 ◌*ℤ◌
unfoldable pub ◌*ℤ◌ : ℤ → ℤ → ℤ
unfolding negated
pos a *ℤ pos b = pos (a * b)
pos a *ℤ negsuc b = negated (pos (a * (b + 1)))
negsuc a *ℤ pos b = negated (pos ((a + 1) * b))
negsuc a *ℤ negsuc b = pos ((a + 1) * (b + 1))

-- ===== src/Prelude/Int.antt =====
-- Signed integers over the native numbers, and the 64-bit `long`: an operation whose exact result
-- does not fit is undefined behaviour, `none`.
use computer_science.Prelude.{
  ℕ, zero, suc, ◌+◌, ◌-◌, ◌*◌, ◌/◌, ◌^◌, ◌≤◌, Bool, Option, none, some, ltb, leb, if◌then◌else◌,
}

-- `negsuc n` is -(n + 1).
pub data ℤ : Type 0 where
  pos : ℕ → ℤ
  negsuc : ℕ → ℤ

abbrev pub pos_part : ℤ → ℕ
pos_part (pos n) = n
pos_part (negsuc n) = 0

abbrev pub neg_part : ℤ → ℕ
neg_part (pos n) = 0
neg_part (negsuc n) = suc n

-- a - b, as an integer.
abbrev pub sub_ℕ : ℕ → ℕ → ℤ
sub_ℕ a b = if leb b a then pos (a - b) else negsuc (b - a - 1)

infixl 65 ◌+ℤ◌ ◌-ℤ◌
infixl 70 ◌*ℤ◌
infix 50 ◌≤ℤ◌
unfoldable pub ◌+ℤ◌ : ℤ → ℤ → ℤ
a +ℤ b = sub_ℕ (pos_part a + pos_part b) (neg_part a + neg_part b)

unfoldable pub ◌-ℤ◌ : ℤ → ℤ → ℤ
a -ℤ b = sub_ℕ (pos_part a + neg_part b) (neg_part a + pos_part b)

unfoldable pub ◌*ℤ◌ : ℤ → ℤ → ℤ
a *ℤ b =
    sub_ℕ (pos_part a * pos_part b + neg_part a * neg_part b)
      (pos_part a * neg_part b + neg_part a * pos_part b)

abbrev pub ◌≤ℤ◌ : ℤ → ℤ → Type 0
a ≤ℤ b = pos_part a + neg_part b ≤ pos_part b + neg_part a

abbrev pub ltb_ℤ : ℤ → ℤ → Bool
ltb_ℤ a b = ltb (pos_part a + neg_part b) (pos_part b + neg_part a)

abbrev pub leb_ℤ : ℤ → ℤ → Bool
leb_ℤ a b = leb (pos_part a + neg_part b) (pos_part b + neg_part a)

abbrev pub long_max : ℕ
long_max = 2 ^ 63 - 1

-- The exact result as a `long`, if it is one.
unfoldable pub to_long : ℤ → Option ℤ
to_long (pos n) = if leb n long_max then some (pos n) else none
to_long (negsuc n) = if leb n long_max then some (negsuc n) else none

unfoldable pub add_long : ℤ → ℤ → Option ℤ
unfolding to_long ◌+ℤ◌
add_long a b = to_long (a +ℤ b)

unfoldable pub sub_long : ℤ → ℤ → Option ℤ
unfolding to_long ◌-ℤ◌
sub_long a b = to_long (a -ℤ b)

unfoldable pub mul_long : ℤ → ℤ → Option ℤ
unfolding to_long ◌*ℤ◌
mul_long a b = to_long (a *ℤ b)

-- `/` rounds towards zero, and is undefined by zero.
unfoldable pub div_long : ℤ → ℤ → Option ℤ
unfolding to_long
div_long a (pos zero) = none
div_long (pos a) (pos (suc b)) = to_long (pos (a / suc b))
div_long (pos a) (negsuc b) = to_long (sub_ℕ 0 (a / suc b))
div_long (negsuc a) (pos (suc b)) = to_long (sub_ℕ 0 (suc a / suc b))
div_long (negsuc a) (negsuc b) = to_long (pos (suc a / suc b))

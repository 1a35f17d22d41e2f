-- ===== src/Control/Branches.antt =====
-- control.c and switch.c, on 64-bit `long`s: `none` is undefined behaviour (an overflow, or a
-- division by zero).
use computer_science.Prelude.{
  ◌∙◌, ℕ, ◌+◌, ◌-◌, ◌*◌, ◌≡◌, Bool, Option, none, some, arith, if◌then◌else◌, ◌>>=◌, leb, ◌&&◌,
  ◌||◌,
}
use computer_science.Prelude.Int.{
  ℤ, pos, pos_part, neg_part, ◌-ℤ◌, ◌*ℤ◌, leb_ℤ, ltb_ℤ, to_long, add_long, sub_long, mul_long,
  div_long, long_max,
}

-- `if (x > y) result = x-y; else result = y-x;`
unfoldable pub absdiff : ℤ → ℤ → Option ℤ
unfolding sub_long
absdiff x y = if ltb_ℤ y x then sub_long x y else sub_long y x

-- `ntest = x <= y; if (ntest) goto Else;`
unfoldable pub absdiff_j : ℤ → ℤ → Option ℤ
unfolding sub_long
absdiff_j x y = let ntest = leb_ℤ x y in if ntest then sub_long y x else sub_long x y

-- Both differences are computed, then one is chosen.
unfoldable pub absdiff_cm : ℤ → ℤ → Option ℤ
unfolding sub_long
absdiff_cm x y = do
  result ← sub_long x y
  eval ← sub_long y x
  some (if leb_ℤ x y then eval else result)

-- For all arguments the three versions agree, also on which are undefined, though the last one
-- computes a difference that it does not return.
absdiffs_agree : (x y : ℤ) → (absdiff_j x y ≡ absdiff x y) × (absdiff_cm x y ≡ absdiff x y)
unfolding absdiff absdiff_j absdiff_cm to_long ◌-ℤ◌
absdiffs_agree x y = ground arith

-- The distance of two integers.
abbrev pub distance : ℤ → ℤ → ℕ
distance x y =
    (pos_part x + neg_part y - (pos_part y + neg_part x))
    + (pos_part y + neg_part x - (pos_part x + neg_part y))

-- `absdiff` returns the distance of its arguments, and is undefined exactly where that does not
-- fit a `long`.
absdiff_lem :
    (x y : ℤ)
    → absdiff x y ≡ (if leb (distance x y) long_max then some (pos (distance x y)) else none)
unfolding absdiff to_long ◌-ℤ◌
absdiff_lem x y = ground arith

-- For all arguments the three versions return the distance, and each is undefined exactly where it
-- does not fit a `long`, the last one too, though it computes a difference that it does not return.
absdiffs_lem :
    (x y : ℤ)
    → (absdiff x y ≡ (if leb (distance x y) long_max then some (pos (distance x y)) else none))
      × (absdiff_j x y ≡ (if leb (distance x y) long_max then some (pos (distance x y)) else none))
      × (absdiff_cm x y ≡ (if leb (distance x y) long_max then some (pos (distance x y)) else none))
absdiffs_lem x y =
    let (j, cm) = absdiffs_agree x y in (absdiff_lem x y, j ∙ absdiff_lem x y, cm ∙ absdiff_lem x y)

-- `x == c`
abbrev pub same : ℤ → ℤ → Bool
same x c = leb_ℤ x c && leb_ℤ c x

-- The cases of `switch_eg`. Case 2 falls through to case 3.
unfoldable pub switch_eg : ℤ → ℤ → ℤ → Option ℤ
unfolding add_long sub_long mul_long div_long
switch_eg x y z =
    let w = pos 1 in
    if same x (pos 1)
    then mul_long y z
    else if same x (pos 2)
    then (div_long y z >>= λ w. add_long w z)
    else if same x (pos 3)
    then add_long w z
    else if same x (pos 5) || same x (pos 6)
    then sub_long w z
    else some (pos 2)

-- The same cases under sparse labels.
unfoldable pub sparse_switch_eg : ℤ → ℤ → ℤ → Option ℤ
unfolding add_long sub_long mul_long div_long
sparse_switch_eg x y z =
    let w = pos 1 in
    if same x (pos 100)
    then mul_long y z
    else if same x (pos 200)
    then (div_long y z >>= λ w. add_long w z)
    else if same x (pos 300)
    then add_long w z
    else if same x (pos 500) || same x (pos 600)
    then sub_long w z
    else some (pos 2)

same-hundredfold : (x : ℤ) (k : ℕ) → same (x *ℤ pos 100) (pos (k * 100)) ≡ same x (pos k)
unfolding ◌*ℤ◌
same-hundredfold x k = ground arith

-- The sparse switch at a hundred times its argument takes the case of the dense one, for every
-- argument: named cases, the fall-through and the default, undefined behaviour included.
sparse_switch_eg-hundredfold : (x y z : ℤ) → sparse_switch_eg (x *ℤ pos 100) y z ≡ switch_eg x y z
unfolding sparse_switch_eg switch_eg
sparse_switch_eg-hundredfold x y z = simp (
  same-hundredfold x 1,
  same-hundredfold x 2,
  same-hundredfold x 3,
  same-hundredfold x 5,
  same-hundredfold x 6,
)

-- ===== src/Control/Pcount.antt =====
-- loop.c: eight ways to count the bits of an `unsigned long`. The words are below 2^64; `x & 0x1` is
-- `x % 2`, and `x >>= 1` is `x / 2`. The `while` loops run on fuel for the 64 bits; a count is at
-- most 64, so `long` does not overflow.
use native.Mathlib.Nat.{pow-suc, div-div-eq-div-mul, div-one}
use native.Mathlib.Numerals.{add-one}
use computer_science.Prelude.{
  ℕ, zero, suc, ◌+◌, ◌*◌, ◌/◌, ◌%◌, ◌^◌, ◌<◌, ◌≡◌, ◌∙◌, refl, ap, sym, Option, none, some, inl, inr,
  arith, ◌==◌, ltb, ==_iff, if◌then◌else◌, Bool-cases,
}
use computer_science.Prelude.Loops.{for_range}

abbrev pub wsize : ℕ
wsize = 64

-- `do { result += x & 0x1; x >>= 1; } while (x);`
unfoldable pub do_loop : ℕ → ℕ → ℕ → Option ℕ
do_loop zero x result = none
do_loop (suc fuel) x result =
    let result' = result + x % 2 in
    let x' = x / 2 in let again = do_loop fuel x' result' in if x' == 0 then some result' else again

unfoldable pub pcount_do : ℕ → Option ℕ
unfolding do_loop
pcount_do x = do_loop wsize x 0

-- The label `loop:` up to `if (x) goto loop;`, and the code behind it.
unfoldable pub at_loop : ℕ → ℕ → ℕ → Option ℕ
at_loop zero x result = none
at_loop (suc fuel) x result =
    let result' = result + x % 2 in
    let x' = x / 2 in
    let goto_loop = at_loop fuel x' result' in if x' == 0 then some result' else goto_loop

unfoldable pub pcount_goto : ℕ → Option ℕ
unfolding at_loop
pcount_goto x = at_loop wsize x 0

-- `while (x) { result += x & 0x1; x >>= 1; }`
unfoldable pub while_loop : ℕ → ℕ → ℕ → Option ℕ
while_loop zero x result = none
while_loop (suc fuel) x result =
    let again = while_loop fuel (x / 2) (result + x % 2) in if x == 0 then some result else again

-- The test runs once more than the body.
unfoldable pub pcount_while : ℕ → Option ℕ
unfolding while_loop
pcount_while x = while_loop (wsize + 1) x 0

-- `if (!x) goto done;` in front of the loop
unfoldable pub pcount_goto_dw : ℕ → Option ℕ
unfolding at_loop
pcount_goto_dw x = if x == 0 then some 0 else at_loop wsize x 0

-- The label `test:`, from which `goto loop` runs the body and falls through to `test:` again.
unfoldable pub at_test : ℕ → ℕ → ℕ → Option ℕ
at_test zero x result = none
at_test (suc fuel) x result =
    let goto_loop = at_test fuel (x / 2) (result + x % 2) in
    if x == 0 then some result else goto_loop

unfoldable pub pcount_goto_jtm : ℕ → Option ℕ
unfolding at_test
pcount_goto_jtm x = at_test (wsize + 1) x 0

-- `bit = (x >> i) & 0x1`
abbrev pub bit : ℕ → ℕ → ℕ
bit x i = x / 2 ^ i % 2

unfoldable pub pcount_for : ℕ → ℕ
unfolding for_range
pcount_for x = for_range wsize 0 (λ i result. result + bit x i) 0

-- The label `loop:` of the two translations of the `for`, with `i` and the result.
unfoldable pub at_for_loop : ℕ → ℕ → ℕ → ℕ → Option ℕ
at_for_loop zero x i result = none
at_for_loop (suc fuel) x i result =
    let result' = result + bit x i in
    let goto_loop = at_for_loop fuel x (i + 1) result' in
    if ltb (i + 1) wsize then goto_loop else some result'

-- The first test, `if (!(i < WSIZE)) goto done;` at `i = 0`, stays in the code.
unfoldable pub pcount_for_goto_dw : ℕ → Option ℕ
unfolding at_for_loop
pcount_for_goto_dw x = if ltb 0 wsize then at_for_loop wsize x 0 0 else some 0

unfoldable pub at_for_test : ℕ → ℕ → ℕ → ℕ → Option ℕ
at_for_test zero x i result = none
at_for_test (suc fuel) x i result =
    let goto_loop = at_for_test fuel x (i + 1) (result + bit x i) in
    if ltb i wsize then goto_loop else some result

unfoldable pub pcount_for_goto_jtm : ℕ → Option ℕ
unfolding at_for_test
pcount_for_goto_jtm x = at_for_test (wsize + 1) x 0 0

-- The number of ones among the `n` low bits.
unfoldable pub ones : ℕ → ℕ → ℕ
ones zero x = 0
ones (suc n) x = x % 2 + ones n (x / 2)

ones-zero : (n : ℕ) → ones n 0 ≡ 0
unfolding ones
ones-zero zero = refl
ones-zero (suc n) = omega (arith, ones-zero n)

halved : (n x : ℕ) → x < 2 ^ suc n → x / 2 < 2 ^ n
halved n x h = omega (arith, pow-suc 2 n)

do_loop-ones : (n x r : ℕ) → x < 2 ^ suc n → do_loop (suc n) x r ≡ some (r + ones (suc n) x)
unfolding do_loop ones
do_loop-ones zero x r h = let small : x / 2 ≡ 0 = omega arith in rw small (ap some (omega arith))
do_loop-ones (suc n) x r h =
    ground (
      arith,
      do_loop-ones n (x / 2) (r + x % 2),
      halved (suc n) x h,
      ones-zero n,
      ones-zero (suc n),
    )

at_loop-ones : (n x r : ℕ) → x < 2 ^ suc n → at_loop (suc n) x r ≡ some (r + ones (suc n) x)
unfolding at_loop ones
at_loop-ones zero x r h = let small : x / 2 ≡ 0 = omega arith in rw small (ap some (omega arith))
at_loop-ones (suc n) x r h =
    ground (
      arith,
      at_loop-ones n (x / 2) (r + x % 2),
      halved (suc n) x h,
      ones-zero n,
      ones-zero (suc n),
    )

while_loop-ones : (n x r : ℕ) → x < 2 ^ n → while_loop (suc n) x r ≡ some (r + ones n x)
unfolding while_loop ones
while_loop-ones zero x r h = ground arith
while_loop-ones (suc n) x r h =
    ground (arith, while_loop-ones n (x / 2) (r + x % 2), halved n x h, ones-zero n)

at_test-ones : (n x r : ℕ) → x < 2 ^ n → at_test (suc n) x r ≡ some (r + ones n x)
unfolding at_test ones
at_test-ones zero x r h = ground arith
at_test-ones (suc n) x r h =
    ground (arith, at_test-ones n (x / 2) (r + x % 2), halved n x h, ones-zero n)

bit_next : (x i : ℕ) → x / 2 ^ (i + 1) ≡ x / 2 ^ i / 2
bit_next x i =
    let e : 2 ^ (i + 1) ≡ 2 ^ i * 2 = ap (λ (k : ℕ). 2 ^ k) (add-one i) ∙ pow-suc 2 i in
    rw e (sym (div-div-eq-div-mul x (2 ^ i) 2))

for_range-ones : (n x i r : ℕ) → for_range n i (λ i r. r + bit x i) r ≡ r + ones n (x / 2 ^ i)
unfolding for_range ones
for_range-ones zero x i r = omega arith
for_range-ones (suc n) x i r =
    omega (arith, for_range-ones n x (i + 1) (r + bit x i), ap (ones n) (bit_next x i))

at_for_test-for_range :
    (n x i r : ℕ)
    → i + n ≡ wsize
    → at_for_test (suc n) x i r ≡ some (for_range n i (λ i r. r + bit x i) r)
unfolding at_for_test for_range
at_for_test-for_range zero x i r e = ground arith
at_for_test-for_range (suc n) x i r e =
    ground (arith, at_for_test-for_range n x (i + 1) (r + bit x i))

at_for_loop-for_range :
    (n x i r : ℕ)
    → i + suc n ≡ wsize
    → at_for_loop (suc n) x i r ≡ some (for_range (suc n) i (λ i r. r + bit x i) r)
unfolding at_for_loop for_range
at_for_loop-for_range zero x i r e = ground arith
at_for_loop-for_range (suc n) x i r e =
    ground (arith, at_for_loop-for_range n x (i + 1) (r + bit x i))

pcount_for-ones : (x : ℕ) → for_range wsize 0 (λ i r. r + bit x i) 0 ≡ ones wsize x
pcount_for-ones x = for_range-ones wsize x 0 0 ∙ omega (arith, ap (ones wsize) (div-one x))

-- All eight functions end, and count the ones among the 64 bits of the argument.
pub pcounts_agree :
    (x : ℕ)
    → x < 2 ^ 64
    → (pcount_do x ≡ some (ones 64 x))
      × (pcount_goto x ≡ some (ones 64 x))
      × (pcount_while x ≡ some (ones 64 x))
      × (pcount_goto_dw x ≡ some (ones 64 x))
      × (pcount_goto_jtm x ≡ some (ones 64 x))
      × (pcount_for x ≡ ones 64 x)
      × (pcount_for_goto_dw x ≡ some (ones 64 x))
      × (pcount_for_goto_jtm x ≡ some (ones 64 x))
unfolding pcount_do pcount_goto pcount_while pcount_goto_dw pcount_goto_jtm pcount_for
    pcount_for_goto_dw pcount_for_goto_jtm
pcounts_agree x h = (
  do_loop-ones 63 x 0 h ∙ ap some (omega arith),
  at_loop-ones 63 x 0 h ∙ ap some (omega arith),
  while_loop-ones 64 x 0 h ∙ ap some (omega arith),
  guarded,
  at_test-ones 64 x 0 h ∙ ap some (omega arith),
  pcount_for-ones x,
  at_for_loop-for_range 63 x 0 0 refl ∙ ap some (pcount_for-ones x),
  at_for_test-for_range 64 x 0 0 refl ∙ ap some (pcount_for-ones x),
)
  where
    guarded : (if x == 0 then some 0 else at_loop wsize x 0) ≡ some (ones 64 x)
    guarded = elim (Bool-cases (x == 0)) [
      | inl none' ↦
          rw none' (let e : x ≡ 0 = (==_iff x 0).0 none' in rw e (ap some (sym (ones-zero 64))))
      | inr some' ↦ rw some' (at_loop-ones 63 x 0 h ∙ ap some (omega arith))
    ]

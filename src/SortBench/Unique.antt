-- ===== src/SortBench/Unique.antt =====
-- Two ascending segments with the same values, as often, hold them in the same places.
use computer_science.Prelude.{
  ℕ, zero, suc, ◌+◌, ◌≤◌, ◌<◌, ◌≡◌, sym, ap, inl, inr, arith, ◌==◌, Bool-cases,
}
use computer_science.Memory.{Memory}
use computer_science.Memory.Counts.{count, hit}
use computer_science.Memory.Segments.{found_of_count, count_of_found}
use computer_science.Sort.Serial.{Ascending}

abbrev pub SameAt : ℕ → ℕ → ℕ → Memory → Memory → Type 0
SameAt lo lo' n m m' = (v : ℕ) → count m lo n v ≡ count m' lo' n v

first_le :
    (lo lo' n : ℕ) (m m' : Memory)
    → Ascending lo (suc n) m
    → SameAt lo lo' (suc n) m m'
    → m lo ≤ m' lo'
first_le lo lo' n m m' asc same =
    let seen = count_of_found m' lo' (suc n) lo' (omega arith) (omega arith) in
    let (i, a, b, e) = found_of_count m lo (suc n) (m' lo') (omega (arith, seen, same (m' lo'))) in
    elim (Bool-cases (i == lo)) [
      | inl here ↦ ground (arith, e, here)
      | inr away ↦ omega (arith, e, asc lo i (omega arith) (ground (arith, a, away)) b)
    ]

pub zero_right : (a : ℕ) → a + 0 ≡ a
zero_right a = omega arith

first_agree :
    (lo lo' n : ℕ) (m m' : Memory)
    → Ascending lo (suc n) m
    → Ascending lo' (suc n) m'
    → SameAt lo lo' (suc n) m m'
    → m (lo + 0) ≡ m' (lo' + 0)
first_agree lo lo' n m m' asc asc' same =
    let le = first_le lo lo' n m m' asc same in
    let ge = first_le lo' lo n m' m asc' (λ v. sym (same v)) in
    let here : lo + 0 ≡ lo = omega arith in
    let here' : lo' + 0 ≡ lo' = omega arith in rw (here, here') (omega (arith, le, ge))

pub Ascending-agree :
    (lo lo' n : ℕ) (m m' : Memory)
    → Ascending lo n m
    → Ascending lo' n m'
    → SameAt lo lo' n m m'
    → (k : ℕ) → k < n
    → m (lo + k) ≡ m' (lo' + k)
unfolding count
Ascending-agree lo lo' zero m m' asc asc' same k lt = absurd (omega arith)
Ascending-agree lo lo' (suc n) m m' asc asc' same zero lt = first_agree lo lo' n m m' asc asc' same
Ascending-agree lo lo' (suc n) m m' asc asc' same (suc k) lt =
    let first = first_agree lo lo' n m m' asc asc' same in
    let heads : m lo ≡ m' lo' =
      omega (arith, first, ap m (zero_right lo), ap m' (zero_right lo')) in
    let here : lo + suc k ≡ lo + 1 + k = omega arith in
    let here' : lo' + suc k ≡ lo' + 1 + k = omega arith in
    rw (here, here')
      (Ascending-agree (lo + 1) (lo' + 1) n m m'
        (λ i j a b c. asc i j (omega (arith, a)) b (omega (arith, c)))
        (λ i j a b c. asc' i j (omega (arith, a)) b (omega (arith, c)))
        (λ v. omega (arith, same v, ap (λ (x : ℕ). hit x v) heads)) k (omega (arith, lt)))

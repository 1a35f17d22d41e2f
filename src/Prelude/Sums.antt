-- ===== src/Prelude/Sums.antt =====
-- Sums over the indices below a bound, and over lists.
use computer_science.Prelude.{
  ℕ, zero, suc, ◌+◌, ◌≤◌, ◌<◌, ◌≡◌, ◌≢◌, refl, ap, arith, List, [], ◌∷◌, ◌++◌, ◌==◌, ==_iff,
  Bool-cases, inl, inr,
}

unfoldable pub sum_below : ℕ → (ℕ → ℕ) → ℕ
sum_below zero f = 0
sum_below (suc n) f = sum_below n f + f n

unfoldable pub sum {ℓ} : {A : Type ℓ} → (A → ℕ) → List A → ℕ
sum w [] = 0
sum w (x ∷ xs) = w x + sum w xs

pub sum-append {ℓ} :
    {A : Type ℓ} (w : A → ℕ) (xs ys : List A) → sum w (xs ++ ys) ≡ sum w xs + sum w ys
unfolding sum
sum-append w [] ys = omega arith
sum-append w (x ∷ xs) ys = omega (arith, sum-append w xs ys)

pub sum_below-congr :
    (n : ℕ) (f g : ℕ → ℕ) → ((j : ℕ) → j < n → f j ≡ g j) → sum_below n f ≡ sum_below n g
unfolding sum_below
sum_below-congr zero f g h = refl
sum_below-congr (suc n) f g h = omega (arith, h n, sum_below-congr n f g (λ j k. h j (omega arith)))

-- A function that has changed at one index
pub sum_below-change :
    (n : ℕ) (f g : ℕ → ℕ) (k : ℕ)
    → k < n
    → ((j : ℕ) → k ≢ j → g j ≡ f j)
    → sum_below n g + f k ≡ sum_below n f + g k
unfolding sum_below
sum_below-change zero f g k lt same = absurd (omega arith)
sum_below-change (suc n) f g k lt same = elim (Bool-cases (k == n)) [
  | inl last ↦
      let e : k ≡ n = (==_iff k n).0 last in
      let rest = sum_below-congr n g f (λ j below. same j (λ z. omega (arith, z, e, below))) in
      omega (arith, rest, ap f e, ap g e)
  | inr before ↦
      let ne : k ≢ n = ground (arith, before) in
      omega (arith, same n ne, sum_below-change n f g k (ground (arith, before)) same)
]

-- One term is at most the sum, and so are two.
pub sum_below-term : (n : ℕ) (f : ℕ → ℕ) (k : ℕ) → k < n → f k ≤ sum_below n f
unfolding sum_below
sum_below-term zero f k lt = absurd (omega arith)
sum_below-term (suc n) f k lt = elim (Bool-cases (k == n)) [
  | inl last ↦ omega (arith, ap f ((==_iff k n).0 last))
  | inr before ↦ omega (arith, sum_below-term n f k (ground (arith, before)))
]

pub sum_below-terms :
    (n : ℕ) (f : ℕ → ℕ) (j k : ℕ) → j < n → k < n → j ≢ k → f j + f k ≤ sum_below n f
unfolding sum_below
sum_below-terms zero f j k jl kl ne = absurd (omega arith)
sum_below-terms (suc n) f j k jl kl ne = elim (Bool-cases (j == n)) [
  | inl last ↦ omega (
    arith,
    ap f ((==_iff j n).0 last),
    sum_below-term n f k (omega (arith, (==_iff j n).0 last, ne)),
  )
  | inr j_before ↦ elim (Bool-cases (k == n)) [
    | inl last ↦
        omega (arith, ap f ((==_iff k n).0 last), sum_below-term n f j (ground (arith, j_before)))
    | inr k_before ↦
        omega
          (arith, sum_below-terms n f j k (ground (arith, j_before)) (ground (arith, k_before)) ne)
  ]
]

pub sum_below-zero : (n : ℕ) (f : ℕ → ℕ) → ((k : ℕ) → k < n → f k ≡ 0) → sum_below n f ≡ 0
unfolding sum_below
sum_below-zero zero f h = refl
sum_below-zero (suc n) f h = omega (arith, h n, sum_below-zero n f (λ j k. h j (omega arith)))

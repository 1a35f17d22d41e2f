-- ===== src/Psum/Sums.antt =====
-- Sums over threads.
use native.Mathlib.Nat.{zero-mul, add-zero, add-suc}
use computer_science.Prelude.{
  ℕ, zero, suc, ◌+◌, ◌-◌, ◌*◌, ◌/◌, ◌<◌, ◌≡◌, refl, ap, arith, ◌==◌, Bool-cases, inl, inr,
}
use computer_science.Psum.{total, update}

pub total-congr : (n : ℕ) (f g : ℕ → ℕ) → ((t : ℕ) → t < n → f t ≡ g t) → total n f ≡ total n g
unfolding total
total-congr zero f g h = refl
total-congr (suc n) f g h = omega (arith, h n, total-congr n f g (λ t k. h t (omega arith)))

-- A change at one index below the bound changes the sum by the difference.
pub total-update :
    (n : ℕ) (f : ℕ → ℕ) (t x : ℕ) → t < n → total n (update f t (f t + x)) ≡ total n f + x
unfolding total
total-update zero f t x h = elim h [ ]
total-update (suc n) f t x h = elim (Bool-cases (t == n)) [
  | inl last ↦
      let same = total-congr n (update f t (f t + x)) f (λ s k. ground arith) in
      ground (arith, same)
  | inr before ↦ ground (arith, total-update n f t x)
]

total_add : (n k : ℕ) (f : ℕ → ℕ) → total (n + k) f ≡ total n f + total k (λ j. f (n + j))
unfolding total
total_add n zero f = omega (arith, ap (λ (m : ℕ). total m f) (add-zero n))
total_add n (suc k) f = omega (arith, total_add n k f, ap (λ (m : ℕ). total m f) (add-suc n k))

-- Sums of blocks are one sum.
pub total-blocks : (n w : ℕ) → total n (λ t. total w (λ j. t * w + j)) ≡ total (n * w) (λ k. k)
unfolding total
total-blocks zero w = rw (zero-mul w) refl
total-blocks (suc n) w =
    let size : suc n * w ≡ n * w + w = grind arith in
    rw size (omega (arith, total-blocks n w, total_add (n * w) w (λ k. k)))

double_total : (n : ℕ) → 2 * total n (λ k. k) + n ≡ n * n
unfolding total
double_total zero = refl
double_total (suc n) = grind (arith, double_total n)

-- The sum of the numbers below `n`.
pub total_closed : (n : ℕ) → total n (λ k. k) ≡ n * (n - 1) / 2
unfolding total
total_closed zero = refl
total_closed (suc n) =
    let pred : suc n - 1 ≡ n = omega arith in
    let e : suc n * n ≡ 2 * total (suc n) (λ k. k) = grind (arith, double_total (suc n)) in
    rw (pred, e) (omega arith)

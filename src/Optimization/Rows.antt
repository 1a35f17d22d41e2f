-- ===== src/Optimization/Rows.antt =====
-- `sum_rows1` and `sum_rows2`, and `sum_neighbors` and its fast version.
use native.Mathlib.Nat.{suc-mul, mul-le-mul_right}
use native.Mathlib.Numerals.{add-one}
use computer_science.Prelude.{
  ℕ, zero, suc, ◌+◌, ◌-◌, ◌*◌, ◌≤◌, ◌<◌, ◌≡◌, ◌≢◌, ◌∙◌, refl, ap, arith, fun_ext,
}
use computer_science.Prelude.Int.{ℤ}
use computer_science.Prelude.Loops.{for_range}
use computer_science.MatMult.{Double}
use computer_science.Optimization.{store, sum_rows1, sum_rows2, sum_neighbors, sum_neighbors_opt}

for_range-congr_in {ℓ} :
    {S : Type ℓ} (n i : ℕ) (f g : ℕ → S → S)
    → ((k : ℕ) → i ≤ k → k < i + n → (s : S) → f k s ≡ g k s)
    → (s : S) → for_range n i f s ≡ for_range n i g s
unfolding for_range
for_range-congr_in zero i f g e s = refl
for_range-congr_in (suc n) i f g e s =
    ap (for_range n (i + 1) f) (e i (omega arith) (omega arith) s)
    ∙ for_range-congr_in n (i + 1) f g (λ k lo hi. e k (omega arith) (omega arith)) (g i s)

-- An index in row `i` of an `n` by `n` array lies in the array.
row_bound : (n i j : ℕ) → i < n → j < n → i * n + j < n * n
row_bound n i j hi hj = omega (arith, mul-le-mul_right n hi, suc-mul i n)

module _ (F : Double) where
  open F use {D, add}

  store-store :
      (p q : ℕ) (v : D) (mem : ℕ → D)
      → p ≢ q
      → store F p (add (store F p v mem p) (store F p v mem q)) (store F p v mem)
        ≡ store F p (add v (mem q)) mem
  store-store p q v mem apart = fun_ext λ r. ground arith

  -- Adding to an element in memory, or to a register that is stored at the end.
  accumulate-store :
      (k j p : ℕ) (at : ℕ → ℕ) (v : D) (mem : ℕ → D)
      → ((l : ℕ) → l < j + k → p ≢ at l)
      → for_range k j (λ l m. store F p (add (m p) (m (at l))) m) (store F p v mem)
        ≡ store F p (for_range k j (λ l w. add w (mem (at l))) v) mem
  unfolding for_range
  accumulate-store zero j p at v mem apart = refl
  accumulate-store (suc k) j p at v mem apart =
      ap (for_range k (j + 1) (λ l m. store F p (add (m p) (m (at l))) m))
        (store-store p (at j) v mem (apart j (omega arith)))
      ∙ accumulate-store k (j + 1) p at (add v (mem (at j))) mem (λ l h. apart l (omega arith))

  -- If the `n` elements of `b` overlap none of the `n` by `n` of `a`, both versions leave the same
  -- memory, to the last bit.
  sum_rows_agree :
      (a b n : ℕ) (mem : ℕ → D)
      → ((i k : ℕ) → i < n → k < n * n → b + i ≢ a + k)
      → sum_rows1 F a b n mem ≡ sum_rows2 F a b n mem
  unfolding sum_rows1 sum_rows2
  sum_rows_agree a b n mem apart =
      for_range-congr_in n 0 _ _
        (λ i lo hi m.
          accumulate-store n 0 (b + i) (λ j. a + (i * n + j)) F.zero m
            λ l h. apart i (i * n + l) (omega arith) (row_bound n i l (omega arith) (omega arith)))
        mem

index_up : (i j n : ℕ) → suc i * n + j - n ≡ (suc i - 1) * n + j
index_up i j n = rw (predecessor i) (omega (arith, suc-mul i n))
  where
    predecessor : (i : ℕ) → suc i - 1 ≡ i
    predecessor i = omega arith

index_down : (i j n : ℕ) → i * n + j + n ≡ (i + 1) * n + j
index_down i j n = rw (add-one i) (omega (arith, suc-mul i n))

-- At a position that has neighbours in all four directions both functions return the same sum, or
-- overflow both.
sum_neighbors_agree :
    (val : ℕ → ℤ) (i j n : ℕ)
    → 0 < i
    → 0 < j
    → sum_neighbors_opt val i j n ≡ sum_neighbors val i j n
unfolding sum_neighbors sum_neighbors_opt
sum_neighbors_agree val zero j n hi hj = absurd (omega arith)
sum_neighbors_agree val (suc i) j n hi hj = rw (index_up i j n) (rw (index_down (suc i) j n) refl)

-- ===== src/Memory/Counts.antt =====
-- How often a value stands in a segment of memory: two memories with the same counts hold a
-- permutation of one another there.
use native.Mathlib.Nat.{zero-add, add-zero, suc-add, le_refl}
use computer_science.Prelude.{
  ℕ, zero, suc, ◌+◌, ◌≤◌, ◌<◌, ◌≡◌, refl, sym, ◌∙◌, ap, inl, inr, arith, ◌==◌, if◌then◌else◌,
  Bool-cases,
}
use computer_science.Memory.{Memory, update}

abbrev pub hit : ℕ → ℕ → ℕ
hit x v = if x == v then 1 else 0

unfoldable pub count : Memory → ℕ → ℕ → ℕ → ℕ
count m lo zero v = 0
count m lo (suc n) v = hit (m lo) v + count m (lo + 1) n v

-- The `n` values from `lo` on are the same in both, as often.
abbrev pub SameCounts : ℕ → ℕ → Memory → Memory → Type 0
SameCounts lo n m m' = (v : ℕ) → count m lo n v ≡ count m' lo n v

-- A memory that agrees with another outside the segment.
abbrev pub Frame : ℕ → ℕ → Memory → Memory → Type 0
Frame lo n m m' = (i : ℕ) → (i < lo → m' i ≡ m i) × (lo + n ≤ i → m' i ≡ m i)

pub count_add :
    (m : Memory) (lo n k v : ℕ) → count m lo (n + k) v ≡ count m lo n v + count m (lo + n) k v
unfolding count
count_add m lo zero k v = rw (zero-add, add-zero, zero-add)
count_add m lo (suc n) k v =
    let shift : (lo + 1) + n ≡ lo + suc n = omega arith in
    rw (suc-add) (omega (arith, count_add m (lo + 1) n k v, ap (λ (p : ℕ). count m p k v) shift))

pub count_agree :
    (m m' : Memory) (lo n v : ℕ)
    → ((i : ℕ) → lo ≤ i → i < lo + n → m i ≡ m' i)
    → count m lo n v ≡ count m' lo n v
unfolding count
count_agree m m' lo zero v h = refl
count_agree m m' lo (suc n) v h = rw (h lo (le_refl lo) (omega arith)) (
    ap (λ (r : ℕ). hit (m' lo) v + r)
      (count_agree m m' (lo + 1) n v (λ i p q. h i (omega arith) (omega arith))))

pub count-update :
    (m : Memory) (lo n i x v : ℕ)
    → lo ≤ i
    → i < lo + n
    → count (update m i x) lo n v + hit (m i) v ≡ count m lo n v + hit x v
unfolding count
count-update m lo zero i x v h k = absurd (omega arith)
count-update m lo (suc n) i x v h k = elim (Bool-cases (i == lo)) [
  | inl here ↦ ground (arith, count_agree (update m i x) m (lo + 1) n v (λ q p r. ground arith))
  | inr away ↦ ground (arith, count-update m (lo + 1) n i x v)
]

-- Segments with the same values, one by one, have the same counts.
pub count_shift :
    (m m' : Memory) (a b n v : ℕ)
    → ((k : ℕ) → k < n → m (a + k) ≡ m' (b + k))
    → count m a n v ≡ count m' b n v
unfolding count
count_shift m m' a b zero v h = refl
count_shift m m' a b (suc n) v h =
    let first : m a ≡ m' b = omega (arith, h 0 (omega arith), ap m zero_a, ap m' zero_b) in
    rw first (
      ap (λ (r : ℕ). hit (m' b) v + r)
        (count_shift m m' (a + 1) (b + 1) n v
          (λ k lt. ap m (later a k) ∙ h (k + 1) (omega arith) ∙ ap m' (sym (later b k)))))
  where
    zero_a : a + 0 ≡ a
    zero_a = omega arith

    zero_b : b + 0 ≡ b
    zero_b = omega arith

    later : (a k : ℕ) → a + 1 + k ≡ a + (k + 1)
    later a k = omega arith

-- ===== src/Sampler/Bubble.antt =====
-- The insertion sort of `add_sample`, from a place in which the array need not be sorted.
use computer_science.Prelude.{
  ℕ, zero, suc, ◌≤◌, ◌<◌, ◌≢◌, refl, inl, inr, arith, ◌==◌, ltb, Bool-cases,
}
use computer_science.Memory.{Memory, swap}
use computer_science.Memory.Counts.{SameCounts}
use computer_science.Memory.Segments.{SameCounts-trans, swap_lem, swap-SameCounts}
use computer_science.Sort.Serial.{Ascending}
use computer_science.Sampler.{insert_down}

-- Ascending, but that the element at `p` may be less than those before it.
abbrev pub AscendingBut : ℕ → ℕ → Memory → Type 0
AscendingBut p n m = (i j : ℕ) → i < j → j < n → j ≢ p → m i ≤ m j

settled : (n p : ℕ) (m : Memory) → m p ≤ m (suc p) → AscendingBut (suc p) n m → Ascending 0 n m
settled n p m le but i j a lt below = elim (Bool-cases (j == suc p)) [
  | inr other ↦ but i j lt (omega (arith, below)) (ground (arith, other))
  | inl last ↦ elim (Bool-cases (i == p)) [
    | inl here ↦ ground (arith, last, here)
    | inr before ↦ ground (arith, last, before, but i p)
  ]
]

exchanged :
    (n p : ℕ) (m : Memory)
    → m (suc p) ≤ m p
    → AscendingBut (suc p) n m
    → AscendingBut p n (swap m p (suc p))
exchanged n p m ge but i j lt below ne = ground (
  arith,
  swap_lem m p (suc p) i,
  swap_lem m p (suc p) j,
  but i j,
  but i p,
  but (suc p) j,
  but p j,
)

pub insert_down-Ascending :
    (n p : ℕ) (m : Memory) → AscendingBut p n m → Ascending 0 n (insert_down p m)
unfolding insert_down
insert_down-Ascending n zero m but =
    λ i j a lt below. but i j lt (omega (arith, below)) (λ e. omega (arith, e, lt))
insert_down-Ascending n (suc p) m but = elim (Bool-cases (ltb (m (suc p)) (m p))) [
  | inl less ↦
      rw less
        (insert_down-Ascending n p (swap m p (suc p)) (exchanged n p m (ground (arith, less)) but))
  | inr le ↦ rw le (settled n p m (ground (arith, le)) but)
]

pub insert_down-SameCounts : (n p : ℕ) (m : Memory) → p < n → SameCounts 0 n m (insert_down p m)
unfolding insert_down
insert_down-SameCounts n zero m lt = λ v. refl
insert_down-SameCounts n (suc p) m lt = elim (Bool-cases (ltb (m (suc p)) (m p))) [
  | inl less ↦ rw less (
      SameCounts-trans 0 n m (swap m p (suc p)) _
        (swap-SameCounts m 0 n p (suc p) (omega arith) (omega arith) (omega arith) (omega arith))
        (insert_down-SameCounts n p (swap m p (suc p)) (omega arith)))
  | inr le ↦ rw le (λ v. refl)
]

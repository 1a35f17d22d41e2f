-- ===== src/Memory/Segments.antt =====
-- Laws of the relations on segments of memory: what a change inside a part of a segment means for
-- the whole of it.
use computer_science.Prelude.{
  ℕ, zero, suc, ◌+◌, ◌-◌, ◌≤◌, ◌<◌, ◌≡◌, ◌∙◌, sym, refl, inl, inr, arith, ◌==◌, if◌then◌else◌,
  Bool-cases,
}
use computer_science.Memory.{Memory, update, swap}
use computer_science.Memory.Counts.{count, SameCounts, Frame, count_add, count_agree, count-update}

-- A value that is counted stands somewhere in the segment, and the other way round.
pub found_of_count :
    (m : Memory) (lo n v : ℕ) → 0 < count m lo n v → (i : ℕ) × (lo ≤ i) × (i < lo + n) × (m i ≡ v)
unfolding count
found_of_count m lo zero v h = absurd (omega arith)
found_of_count m lo (suc n) v h = elim (Bool-cases (m lo == v)) [
  | inl here ↦ (lo, omega arith, omega arith, ground arith)
  | inr away ↦
      let (i, a, b, e) = found_of_count m (lo + 1) n v (ground arith) in
      (i, omega arith, omega arith, e)
]

pub count_of_found : (m : Memory) (lo n i : ℕ) → lo ≤ i → i < lo + n → 0 < count m lo n (m i)
unfolding count
count_of_found m lo zero i a b = absurd (omega arith)
count_of_found m lo (suc n) i a b = elim (Bool-cases (i == lo)) [
  | inl here ↦ ground arith
  | inr away ↦ ground (arith, count_of_found m (lo + 1) n i)
]

-- What all values of a segment satisfy, all values of a permutation of it satisfy.
pub All-SameCounts :
    (P : ℕ → Type 0) (lo n : ℕ) (m m' : Memory)
    → SameCounts lo n m m'
    → ((i : ℕ) → lo ≤ i → i < lo + n → P (m i))
    → (i : ℕ) → lo ≤ i
    → i < lo + n
    → P (m' i)
All-SameCounts P lo n m m' same all i a b =
    let seen = count_of_found m' lo n i a b in
    let (j, c, d, e) = found_of_count m lo n (m' i) (rw (same (m' i)) seen) in rw (← e) (all j c d)

pub SameCounts-trans :
    (lo n : ℕ) (m m' m'' : Memory)
    → SameCounts lo n m m'
    → SameCounts lo n m' m''
    → SameCounts lo n m m''
SameCounts-trans lo n m m' m'' p q v = p v ∙ q v

pub Frame-trans :
    (lo n : ℕ) (m m' m'' : Memory) → Frame lo n m m' → Frame lo n m' m'' → Frame lo n m m''
Frame-trans lo n m m' m'' p q i = (λ a. (q i).0 a ∙ (p i).0 a, λ b. (q i).1 b ∙ (p i).1 b)

-- A change inside a part of a segment is a change inside the segment.
pub Frame-widen :
    (lo n lo' n' : ℕ) (m m' : Memory)
    → lo' ≤ lo
    → lo + n ≤ lo' + n'
    → Frame lo n m m'
    → Frame lo' n' m m'
Frame-widen lo n lo' n' m m' a b f i = (λ c. (f i).0 (omega arith), λ c. (f i).1 (omega arith))

SameCounts-widen_at :
    (lo n k r : ℕ) (m m' : Memory)
    → Frame (lo + k) n m m'
    → SameCounts (lo + k) n m m'
    → SameCounts lo (k + n + r) m m'
SameCounts-widen_at lo n k r m m' f same v =
    let left = count_agree m m' lo k v (λ i a b. sym ((f i).0 b)) in
    let right = count_agree m m' (lo + (k + n)) r v (λ i a b. sym ((f i).1 (omega arith))) in
    omega (
      arith,
      left,
      right,
      same v,
      count_add m lo (k + n) r v,
      count_add m' lo (k + n) r v,
      count_add m lo k n v,
      count_add m' lo k n v,
    )

-- A permutation of a part of a segment that leaves the rest alone is one of the segment.
pub SameCounts-widen :
    (lo n lo' n' : ℕ) (m m' : Memory)
    → lo' ≤ lo
    → lo + n ≤ lo' + n'
    → Frame lo n m m'
    → SameCounts lo n m m'
    → SameCounts lo' n' m m'
SameCounts-widen lo n lo' n' m m' a b f same =
    let k = lo - lo' in
    let r = lo' + n' - (lo + n) in
    let start : lo ≡ lo' + k = omega arith in
    let size : n' ≡ k + n + r = omega arith in
    rw size (SameCounts-widen_at lo' n k r m m' (rw (← start) f) (rw (← start) same))

module _ (m : Memory) (lo n i j : ℕ) (ai : lo ≤ i) (bi : i < lo + n) (aj : lo ≤ j)
    (bj : j < lo + n) where
  -- `swap` permutes a segment that holds both of its addresses.
  pub swap-SameCounts : SameCounts lo n m (swap m i j)
  unfolding swap
  swap-SameCounts v =
      ground (arith, count-update m lo n i (m j) v, count-update (update m i (m j)) lo n j (m i) v)

  pub swap-Frame : Frame lo n m (swap m i j)
  unfolding swap
  swap-Frame q = (λ a. ground arith, λ b. ground arith)

-- What `swap` leaves at each address.
pub swap_lem :
    (m : Memory) (i j q : ℕ) → swap m i j q ≡ (if j == q then m i else if i == q then m j else m q)
unfolding swap
swap_lem m i j q = refl

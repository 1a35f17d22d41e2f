-- ===== src/Sort/Serial.antt =====
-- `qsort_serial` sorts.
use computer_science.Prelude.{
  ℕ, zero, suc, ◌+◌, ◌-◌, ◌≤◌, ◌<◌, ◌≡◌, refl, inl, inr, arith, Option, some, ltb, leb, leb→le,
  Bool-cases, ==_iff, ◌>>=◌, Returns, Returns-bind, Returns-map, if◌then◌else◌, ◌==◌,
}
use computer_science.Memory.{Memory, swap}
use computer_science.Memory.Counts.{SameCounts, Frame}
use computer_science.Memory.Segments.{
  SameCounts-trans, Frame-trans, SameCounts-widen, Frame-widen, swap-SameCounts, swap-Frame,
  swap_lem, All-SameCounts,
}
use computer_science.Sort.{partition_serial, qsort_loop, qsort_serial}
use computer_science.Sort.Partition.{IsPartition, partition_serial-IsPartition}

abbrev pub Ascending : ℕ → ℕ → Memory → Type 0
Ascending base nele m = (i j : ℕ) → base ≤ i → i < j → j < base + nele → m i ≤ m j

-- The segment is ascending and a permutation of the old one; the memory outside is the old one.
pub record Sorts (base nele : ℕ) (m m' : Memory) : Type 0 where
  pub ascending : Ascending base nele m'
  pub same : SameCounts base nele m m'
  pub frame : Frame base nele m m'

Sorts-short : (base nele : ℕ) (m : Memory) → nele ≤ 1 → Sorts base nele m m
Sorts-short base nele m h = record {
  ascending = λ i j a b c. absurd (omega arith);
  same = λ v. refl;
  frame = λ i. (λ a. refl, λ a. refl);
}

Sorts-two :
    (base : ℕ) (m : Memory)
    → Sorts base 2 m (if ltb (m (base + 1)) (m base) then swap m base (base + 1) else m)
Sorts-two base m = elim (Bool-cases (ltb (m (base + 1)) (m base))) [
  | inl wrong ↦ rw wrong (record {
    ascending = λ i j a b c.
        let e : i ≡ base = omega arith in
        let f : j ≡ base + 1 = omega arith in
        rw (e, f)
          (ground (arith, swap_lem m base (base + 1) base, swap_lem m base (base + 1) (base + 1)));
    same =
        swap-SameCounts m base 2 base (base + 1) (omega arith) (omega arith) (omega arith)
          (omega arith);
    frame =
        swap-Frame m base 2 base (base + 1) (omega arith) (omega arith) (omega arith) (omega arith);
  })
  | inr right ↦ rw right (record {
    ascending = λ i j a b c.
        let e : i ≡ base = omega arith in
        let f : j ≡ base + 1 = omega arith in rw (e, f) (ground arith);
    same = λ v. refl;
    frame = λ i. (λ a. refl, λ a. refl);
  })
]

-- Both sides of a partition sorted make the whole sorted.
module _ (base nele p : ℕ) (m m1 m2 m3 : Memory) (part : IsPartition base nele m (p, m1))
    (left : Sorts base p m1 m2) (right : Sorts (base + p + 1) (nele - p - 1) m2 m3) where
  left_small : (i : ℕ) → base ≤ i → i < base + p → m3 i ≤ m3 (base + p)
  left_small i a b =
      let h = All-SameCounts (λ x. x ≤ m1 (base + p)) base p m1 m2 left.same part.small i a b in
      omega (
        arith,
        h,
        (right.frame i).0 (omega arith),
        (left.frame (base + p)).1 (omega arith),
        (right.frame (base + p)).0 (omega arith),
      )

  right_large : (j : ℕ) → base + p < j → j < base + nele → m3 (base + p) ≤ m3 j
  right_large j a b =
      let h =
        All-SameCounts (λ x. m1 (base + p) ≤ x) (base + p + 1) (nele - p - 1) m2 m3 right.same
          (λ i c d.
            omega (arith, part.large i (omega arith) (omega arith), (left.frame i).1 (omega arith)))
          j (omega arith) (omega arith) in
      omega (
        arith,
        h,
        (left.frame (base + p)).1 (omega arith),
        (right.frame (base + p)).0 (omega arith),
      )

  glued-Ascending : Ascending base nele m3
  glued-Ascending i j a b c = ground (
    arith,
    left.ascending i j,
    right.ascending i j,
    (right.frame i).0,
    (right.frame j).0,
    left_small i,
    right_large j,
  )

  glued : Sorts base nele m m3
  glued = record {
    ascending = glued-Ascending;
    same = SameCounts-trans base nele m m1 m3 part.same (
        SameCounts-trans base nele m1 m2 m3
          (SameCounts-widen base p base nele m1 m2 (omega arith) (omega (arith, part.inside))
            left.frame left.same)
          (SameCounts-widen (base + p + 1) (nele - p - 1) base nele m2 m3 (omega arith)
            (omega (arith, part.inside)) right.frame right.same));
    frame = Frame-trans base nele m m1 m3 part.frame (
        Frame-trans base nele m1 m2 m3
          (Frame-widen base p base nele m1 m2 (omega arith) (omega (arith, part.inside)) left.frame)
          (Frame-widen (base + p + 1) (nele - p - 1) base nele m2 m3 (omega arith)
            (omega (arith, part.inside)) right.frame));
  }

-- A call that is skipped for a part of at most one element leaves that part sorted.
guarded-Sorts :
    (base nele a b : ℕ) (m : Memory) (call : Option Memory)
    → (b ≤ a → nele ≤ 1)
    → Returns (Sorts base nele m) call
    → Returns (Sorts base nele m) (if ltb a b then call else some m)
guarded-Sorts base nele a b m call small big = elim (Bool-cases (ltb a b)) [
  | inl yes' ↦ rw yes' big
  | inr no' ↦ rw no' (Sorts-short base nele m (small (ground arith)))
]

-- The recursive step, for any sort of the smaller segments.
module _ (rec : ℕ → ℕ → Memory → Option Memory) (base nele : ℕ) (m : Memory)
    (sorts : (b n : ℕ) (k : Memory) → n < nele → Returns (Sorts b n k) (rec b n k)) where
  right_part :
      (p : ℕ) (m1 m2 : Memory)
      → IsPartition base nele m (p, m1)
      → Sorts base p m1 m2
      → Returns
          (Sorts base nele m)
          (if ltb (p + 1) (nele - 1) then rec (base + p + 1) (nele - p - 1) m2 else some m2)
  right_part p m1 m2 part left =
      Returns-map (Sorts (base + p + 1) (nele - p - 1) m2) (Sorts base nele m) _
        (guarded-Sorts (base + p + 1) (nele - p - 1) (p + 1) (nele - 1) m2 _ (λ q. omega arith)
          (sorts (base + p + 1) (nele - p - 1) m2 (omega (arith, part.inside))))
        λ m3 right. glued base nele p m m1 m2 m3 part left right

  both_parts :
      (out : ℕ × Memory)
      → IsPartition base nele m out
      → Returns (Sorts base nele m) (
          (if ltb 1 out.0 then rec base out.0 out.1 else some out.1) >>= λ m2.
          if ltb (out.0 + 1) (nele - 1)
          then rec (base + out.0 + 1) (nele - out.0 - 1) m2
          else some m2)
  both_parts out part =
      Returns-bind (Sorts base out.0 out.1) (Sorts base nele m) _ _
        (guarded-Sorts base out.0 1 out.0 out.1 _ (λ q. q) (sorts base out.0 out.1 part.inside))
        λ m2 left. right_part out.0 out.1 m2 part left

qsort_loop-Sorts :
    (fuel base nele : ℕ) (m : Memory)
    → nele < fuel
    → Returns (Sorts base nele m) (qsort_loop fuel base nele m)
unfolding qsort_loop
qsort_loop-Sorts zero base nele m h = absurd (omega arith)
qsort_loop-Sorts (suc fuel) base nele m h = elim (Bool-cases (leb nele 1)) [
  | inl short ↦ rw short (Sorts-short base nele m (leb→le nele 1 short))
  | inr long ↦ rw long (elim (Bool-cases (nele == 2)) [
    | inl two ↦ let e : nele ≡ 2 = (==_iff nele 2).0 two in rw (two, e) (Sorts-two base m)
    | inr more ↦ rw more (
        Returns-bind (IsPartition base nele m) (Sorts base nele m) (partition_serial base nele m) _
          (partition_serial-IsPartition base nele m (ground arith))
          (both_parts (qsort_loop fuel) base nele m
            (λ b n k lt. qsort_loop-Sorts fuel b n k (omega arith))))
  ])
]

-- `qsort_serial` ends on every segment, and leaves it ascending, a permutation of what it held;
-- it writes nowhere else.
pub qsort_serial-Sorts :
    (base nele : ℕ) (m : Memory) → Returns (Sorts base nele m) (qsort_serial base nele m)
unfolding qsort_serial
qsort_serial-Sorts base nele m = qsort_loop-Sorts (nele + 1) base nele m (omega arith)

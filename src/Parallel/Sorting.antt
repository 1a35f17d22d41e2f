-- ===== src/Parallel/Sorting.antt =====
-- What a sort and a partition of a task's segment leave to do.
use computer_science.Prelude.{
  ℕ, ◌+◌, ◌-◌, ◌≤◌, ◌<◌, ◌≡◌, refl, ap, arith, ◌⊎◌, inl, inr, [], ◌∷◌, Bool-cases, ltb, true,
}
use computer_science.Prelude.Int.{pos, leb_ℤ}
use computer_science.Memory.{Memory}
use computer_science.Memory.Counts.{Frame}
use computer_science.Sort.Partition.{IsPartition}
use computer_science.Sort.Serial.{Sorts}
use computer_science.Parallel.Choice.{Exists}
use computer_science.Parallel.Splitting.{Outside}
use computer_science.Parallel.Partition.{Divides}
use computer_science.Parallel.Tqsort.{
  Library, IsOrdering, SortTask, dcomp, qsort_lib, left_of, right_of,
}
use computer_science.Parallel.Unsorted.{Both}
use computer_science.Parallel.Replacing.{Replaces}

pub dcomp-IsOrdering : IsOrdering dcomp
unfolding dcomp
dcomp-IsOrdering = record { total = λ x y h. ground arith; trans = λ x y z h k. ground arith }

le_of_dcomp : (x y : ℕ) → leb_ℤ (dcomp x y) (pos 0) ≡ true → x ≤ y
unfolding dcomp
le_of_dcomp x y h = ground arith

pub qsort_lib-Sorts :
    (lib : Library) (base nele : ℕ) (m : Memory) → Sorts base nele m (qsort_lib lib base nele m)
unfolding qsort_lib
qsort_lib-Sorts lib base nele m = record {
  ascending = λ i j a b c.
      le_of_dcomp (lib.qsort dcomp base nele m i) (lib.qsort dcomp base nele m j)
        (lib.ascending dcomp base nele m dcomp-IsOrdering i j a b c);
  same = lib.same dcomp base nele m;
  frame = lib.frame dcomp base nele m;
}

Frame-Outside :
    (base scr nele : ℕ) (m m' : Memory) (q : ℕ)
    → Frame base nele m m'
    → Outside base scr nele q
    → m' q ≡ m q
Frame-Outside base scr nele m m' q f (inl h, o) = (f q).0 h
Frame-Outside base scr nele m m' q f (inr h, o) = (f q).1 h

-- A sorted segment leaves no task.
pub Sorts-Replaces : (t : SortTask) (m m' : Memory) → Sorts t.base t.nele m m' → Replaces t m [] m'
Sorts-Replaces t m m' s = record {
  parts = tt;
  disjoint = tt;
  same = s.same;
  order = λ i j a b c. inl (s.ascending i j a b c);
  frame = λ q o. Frame-Outside t.base t.scratch_base t.nele m m' q s.frame o;
}

pub short-Replaces : (t : SortTask) (m : Memory) → t.nele ≤ 1 → Replaces t m [] m
short-Replaces t m h = record {
  parts = tt;
  disjoint = tt;
  same = λ v. refl;
  order = λ i j a b c. absurd (omega arith);
  frame = λ q o. refl;
}

pub IsPartition-Divides :
    (base scr nele : ℕ) (m : Memory) (out : ℕ × Memory)
    → IsPartition base nele m out
    → Divides base scr nele m out
IsPartition-Divides base scr nele m out p = record {
  inside = p.inside;
  small = λ i h. p.small (base + i) (omega arith) (omega arith);
  large = λ i a b. p.large (base + i) (omega arith) (omega arith);
  same = p.same;
  frame = λ q o. Frame-Outside base scr nele m out.1 q p.frame o;
}

-- A partition leaves its two sides.
module _ (t : SortTask) (m m' : Memory) (k : ℕ)
    (d : Divides t.base t.scratch_base t.nele m (k, m')) where
  at : (i : ℕ) → t.base ≤ i → m' (t.base + (i - t.base)) ≡ m' i
  at i h = let back : t.base + (i - t.base) ≡ i = omega arith in ap m' back

  small : (i : ℕ) → t.base ≤ i → i < t.base + k → m' i ≤ m' (t.base + k)
  small i a b = omega (arith, at i a, d.small (i - t.base) (omega arith))

  large : (i : ℕ) → t.base + k < i → i < t.base + t.nele → m' (t.base + k) ≤ m' i
  large i a b = omega (arith, at i (omega arith), d.large (i - t.base) (omega arith) (omega arith))

  at_most : (i : ℕ) → t.base ≤ i → i ≤ t.base + k → m' i ≤ m' (t.base + k)
  at_most i a b = elim (Bool-cases (ltb i (t.base + k))) [
    | inl less ↦ small i a (ground arith)
    | inr same ↦ let e : i ≡ t.base + k = ground arith in omega (arith, ap m' e)
  ]

  at_least : (i : ℕ) → t.base + k ≤ i → i < t.base + t.nele → m' (t.base + k) ≤ m' i
  at_least i a b = elim (Bool-cases (ltb (t.base + k) i)) [
    | inl more ↦ large i (ground arith) b
    | inr same ↦ let e : i ≡ t.base + k = ground arith in omega (arith, ap m' e)
  ]

  order :
      (i j : ℕ)
      → t.base ≤ i
      → i < j
      → j < t.base + t.nele
      → (m' i ≤ m' j) ⊎ Exists (Both i j) (left_of t k ∷ right_of t k ∷ [])
  order i j a b c = elim (Bool-cases (ltb j (t.base + k))) [
    | inl lower ↦ inr (inl (a, ground arith, omega arith, ground arith))
    | inr j_up ↦ elim (Bool-cases (ltb (t.base + k) i)) [
      | inl upper ↦ inr (inr (inl (ground arith, ground arith, ground arith, ground arith)))
      | inr i_down ↦ inl (omega (arith, at_most i a (ground arith), at_least j (ground arith) c))
    ]
  ]

  pub Divides-Replaces : Replaces t m (left_of t k ∷ right_of t k ∷ []) m'
  Divides-Replaces = record {
    parts = (omega (arith, d.inside), (omega (arith, d.inside), tt));
    disjoint = ((inl (omega arith), tt), (tt, tt));
    same = d.same;
    order = λ i j a b c. order i j a b c;
    frame = d.frame;
  }

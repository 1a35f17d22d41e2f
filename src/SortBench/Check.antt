-- ===== src/SortBench/Check.antt =====
-- The check of `run_test` accepts exactly what a sort leaves.
use computer_science.Prelude.{
  ℕ, zero, suc, ◌+◌, ◌-◌, ◌≤◌, ◌<◌, ◌≡◌, ◌∙◌, ◌⊎◌, refl, sym, ap, inl, inr, arith, ◌&&◌, ltb, ◌==◌,
  Bool-cases, ==_iff,
}
use computer_science.Memory.{Memory}
use computer_science.Memory.Counts.{count, SameCounts, count_shift}
use computer_science.Sort.Serial.{Ascending}
use computer_science.Parallel.Splitting.{Outside}
use computer_science.Parallel.Tqsort.{Library, qsort_lib}
use computer_science.Parallel.Sorting.{qsort_lib-Sorts}
use computer_science.SortBench.{completed, check_loop}
use computer_science.SortBench.Unique.{Ascending-agree, zero_right}

-- The two arrays hold the same, in ascending order.
abbrev pub Agrees : ℕ → ℕ → ℕ → Memory → Type 0
Agrees a c nele m = (k : ℕ) → k < nele → m (a + k) ≡ m (c + k)

check_loop-completed :
    (a c nele i left : ℕ) (m : Memory)
    → i + left ≤ nele
    → Agrees a c nele m
    → Ascending a nele m
    → check_loop a c nele i left m ≡ completed
unfolding check_loop
check_loop-completed a c nele i zero m le same asc = refl
check_loop-completed a c nele i (suc left) m le same asc = ground (
  arith,
  same i,
  asc (a + i) (a + i + 1),
  check_loop-completed a c nele (i + 1) left m (omega arith) same asc,
)

-- What a check that completes has seen.
check_loop-seen :
    (a c nele i left : ℕ) (m : Memory)
    → check_loop a c nele i left m ≡ completed
    → (k : ℕ) → i ≤ k
    → k < i + left
    → (m (a + k) ≡ m (c + k)) × (k < nele - 1 → m (a + k) ≤ m (a + k + 1))
unfolding check_loop
check_loop-seen a c nele i zero m e k lo hi = absurd (omega arith)
check_loop-seen a c nele i (suc left) m e k lo hi = elim (Bool-cases (m (a + i) == m (c + i))) [
  | inr other ↦ absurd (cc (rw other at e))
  | inl same ↦
      let e1 = rw same at e in
      elim (Bool-cases (ltb i (nele - 1) && ltb (m (a + i + 1)) (m (a + i)))) [
        | inl bad ↦ absurd (cc (rw bad at e1))
        | inr fine ↦ elim (Bool-cases (k == i)) [
          | inl here ↦
              rw ((==_iff k i).0 here)
                ((==_iff (m (a + i)) (m (c + i))).0 same, λ below. ground (arith, fine))
          | inr later ↦
              check_loop-seen a c nele (i + 1) left m (rw fine at e1) k (ground (arith, later))
                (omega arith)
        ]
      ]
]

next : (a k : ℕ) → a + (k + 1) ≡ a + k + 1
next a k = omega arith

-- A segment that never descends from one element to the next is ascending.
module _ (a nele : ℕ) (m : Memory)
    (climbs : (k : ℕ) → k + 1 < nele → m (a + k) ≤ m (a + k + 1)) where
  climb_one : (i : ℕ) → a ≤ i → i + 1 < a + nele → m i ≤ m (i + 1)
  climb_one i lo hi =
      let here : a + (i - a) ≡ i = omega arith in
      let step = climbs (i - a) (omega (arith, lo, hi)) in rw here at step

  climb : (d i : ℕ) → a ≤ i → i + d < a + nele → m i ≤ m (i + d)
  climb zero i lo hi = omega (arith, ap m (zero_right i))
  climb (suc d) i lo hi =
      let there : i + suc d ≡ i + 1 + d = omega arith in
      omega (
        arith,
        climb_one i lo (omega arith),
        climb d (i + 1) (omega arith) (omega arith),
        ap m there,
      )

  climbs-Ascending : Ascending a nele m
  climbs-Ascending i j lo lt hi =
      let there : i + (j - i) ≡ j = omega arith in
      let le = climb (j - i) i lo (omega arith) in rw there at le

module _ (lib : Library) (a b c nele : ℕ) (m1 m2 : Memory) (copied : Agrees a c nele m1)
    (distinct_ac : (a + nele ≤ c) ⊎ (c + nele ≤ a)) (distinct_bc : (b + nele ≤ c) ⊎ (c + nele ≤ b))
    (frame : (q : ℕ) → Outside a b nele q → m2 q ≡ m1 q) where
  abbrev m3 : Memory
  m3 = qsort_lib lib c nele m2

  library_outside : (q : ℕ) → (q < c) ⊎ (c + nele ≤ q) → m3 q ≡ m2 q
  library_outside q (inl h) = ((qsort_lib-Sorts lib c nele m2).frame q).0 h
  library_outside q (inr h) = ((qsort_lib-Sorts lib c nele m2).frame q).1 h

  result_kept : (k : ℕ) → k < nele → m3 (a + k) ≡ m2 (a + k)
  result_kept k lt = library_outside (a + k) (outside distinct_ac)
    where
      outside : (a + nele ≤ c) ⊎ (c + nele ≤ a) → (a + k < c) ⊎ (c + nele ≤ a + k)
      outside (inl h) = inl (omega arith)
      outside (inr h) = inr (omega arith)

  copy_kept : (k : ℕ) → k < nele → m2 (c + k) ≡ m1 (c + k)
  copy_kept k lt = frame (c + k) (outside distinct_ac, outside distinct_bc)
    where
      outside : {x : ℕ} → (x + nele ≤ c) ⊎ (c + nele ≤ x) → (c + k < x) ⊎ (x + nele ≤ c + k)
      outside (inl h) = inr (omega arith)
      outside (inr h) = inl (omega arith)

  -- The library's array holds what the array held before the sort.
  library-counts : (v : ℕ) → count m3 c nele v ≡ count m1 a nele v
  library-counts v =
      sym ((qsort_lib-Sorts lib c nele m2).same v)
      ∙ count_shift m2 m1 c c nele v copy_kept
      ∙ count_shift m1 m1 c a nele v (λ k lt. sym (copied k lt))

  pub sorted-completed :
      Ascending a nele m2 → SameCounts a nele m1 m2 → check_loop a c nele 0 nele m3 ≡ completed
  sorted-completed asc same =
      let library = qsort_lib-Sorts lib c nele m2 in
      let agree =
        Ascending-agree a c nele m2 m3 asc (library.ascending)
          (λ v. sym (same v) ∙ sym (library-counts v)) in
      check_loop-completed a c nele 0 nele m3 (omega arith) (λ k lt. result_kept k lt ∙ agree k lt)
        (climbs-Ascending a nele m3 λ k lt. omega (
          arith,
          result_kept k,
          result_kept (k + 1),
          asc (a + k) (a + k + 1),
          ap m3 (next a k),
          ap m2 (next a k),
        ))

  pub completed-sorted :
      check_loop a c nele 0 nele m3 ≡ completed → Ascending a nele m2 × SameCounts a nele m1 m2
  completed-sorted e =
      let seen : (k : ℕ)
          → k < nele
          → (m3 (a + k) ≡ m3 (c + k)) × (k < nele - 1 → m3 (a + k) ≤ m3 (a + k + 1)) =
        λ k lt. check_loop-seen a c nele 0 nele m3 e k (omega arith) (omega arith) in
      (
        climbs-Ascending a nele m2 λ k lt. omega (
          arith,
          result_kept k (omega arith),
          result_kept (k + 1) lt,
          (seen k (omega arith)).1 (omega arith),
          ap m3 (next a k),
          ap m2 (next a k),
        ),
        λ v.
            sym (library-counts v)
            ∙ sym (count_shift m3 m3 a c nele v (λ k lt. (seen k lt).0))
            ∙ count_shift m3 m2 a a nele v result_kept,
      )

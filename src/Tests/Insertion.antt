-- ===== src/Tests/Insertion.antt =====
-- An insertion sort with a comparison function: it can stand for the `qsort` of the C library.
use computer_science.Prelude.{
  ℕ, zero, suc, ◌+◌, ◌≤◌, ◌<◌, ◌≡◌, refl, arith, true, false, if◌then◌else◌, Bool-cases, inl, inr,
  ◌==◌, ==_iff,
}
use computer_science.Prelude.Int.{ℤ, pos, leb_ℤ}
use computer_science.Memory.{Memory, swap}
use computer_science.Memory.Counts.{SameCounts, Frame}
use computer_science.Memory.Segments.{
  SameCounts-trans, Frame-trans, swap_lem, swap-SameCounts, swap-Frame,
}
use computer_science.Parallel.Tqsort.{IsOrdering, Library}

unfoldable pub sink : (ℕ → ℕ → ℤ) → ℕ → ℕ → Memory → Memory
unfolding swap
sink cmp base zero m = m
sink cmp base (suc k) m =
    if leb_ℤ (cmp (m (base + k)) (m (base + k + 1))) (pos 0)
    then m
    else sink cmp base k (swap m (base + k) (base + k + 1))

unfoldable pub insertion_sort : (ℕ → ℕ → ℤ) → ℕ → ℕ → Memory → Memory
unfolding sink
insertion_sort cmp base zero m = m
insertion_sort cmp base (suc k) m = sink cmp base k (insertion_sort cmp base k m)

module _ (cmp : ℕ → ℕ → ℤ) (ord : IsOrdering cmp) (base : ℕ) where
  abbrev Le : ℕ → ℕ → Type 0
  Le x y = leb_ℤ (cmp x y) (pos 0) ≡ true

  -- Ascending but for the element at `p`, which may be less than those before it.
  abbrev Nearly : ℕ → ℕ → Memory → Type 0
  Nearly p n m = (i j : ℕ) → base ≤ i → i < j → j < base + n → (j ≡ p → ⊥) → Le (m i) (m j)

  abbrev Ascends : ℕ → Memory → Type 0
  Ascends n m = (i j : ℕ) → base ≤ i → i < j → j < base + n → Le (m i) (m j)

  settled :
      (n p : ℕ) (m : Memory) → base ≤ p → Le (m p) (m (p + 1)) → Nearly (p + 1) n m → Ascends n m
  settled n p m b le near i j x y z = elim (Bool-cases (j == p + 1)) [
    | inl last ↦
        let e : j ≡ p + 1 = (==_iff j (p + 1)).0 last in
        elim (Bool-cases (i == p)) [
          | inl same ↦ rw (e, (==_iff i p).0 same) le
          | inr less ↦ rw e (
              ord.trans (m i) (m p) (m (p + 1))
                (near i p x (ground (arith, e)) (omega (arith, e)) (λ q. omega (arith, q))) le)
        ]
    | inr other ↦ near i j x y z (λ q. ground (arith, q, other))
  ]

  swapped :
      (n p : ℕ) (m : Memory)
      → base ≤ p
      → leb_ℤ (cmp (m p) (m (p + 1))) (pos 0) ≡ false
      → Nearly (p + 1) n m
      → Nearly p n (swap m p (p + 1))
  swapped n p m b gt near i j x y z ne =
      let stays : (p == j) ≡ false = ground (arith, ne) in
      rw (swap_lem m p (p + 1) i, swap_lem m p (p + 1) j)
        (elim (Bool-cases (p + 1 == j)) [
          | inl j_next ↦ rw j_next (elim (Bool-cases (p == i)) [
            | inl here ↦
                let apart : (p + 1 == i) ≡ false = ground (arith, here) in
                rw (apart, here) (ord.total (m p) (m (p + 1)) gt)
            | inr away ↦
                let apart : (p + 1 == i) ≡ false = ground (arith, j_next) in
                rw (apart, away)
                  (near i p x (ground (arith, j_next, away)) (ground (arith, j_next))
                    (λ q. omega (arith, q)))
          ])
          | inr j_away ↦
              rw (j_away, stays)
                (elim (Bool-cases (p + 1 == i)) [
                  | inl i_next ↦
                      rw i_next
                        (near p j b (ground (arith, i_next)) z (λ q. ground (arith, q, j_away)))
                  | inr i_other ↦ rw i_other (elim (Bool-cases (p == i)) [
                    | inl here ↦ rw here (
                        near (p + 1) j (omega arith) (ground (arith, here, j_away)) z
                          (λ q. ground (arith, q, j_away)))
                    | inr away ↦ rw away (near i j x y z (λ q. ground (arith, q, j_away)))
                  ])
                ])
        ])

  sink-Ascends :
      (n k : ℕ) (m : Memory) → k < n → Nearly (base + k) n m → Ascends n (sink cmp base k m)
  unfolding sink
  sink-Ascends n zero m lt near = λ i j x y z. near i j x y z (λ q. omega (arith, q))
  sink-Ascends n (suc k) m lt near =
      let near' : Nearly (base + k + 1) n m =
        λ i j x y z ne. near i j x y z (λ q. ne (omega (arith, q))) in
      elim (Bool-cases (leb_ℤ (cmp (m (base + k)) (m (base + k + 1))) (pos 0))) [
        | inl le ↦ rw le (settled n (base + k) m (omega arith) le near')
        | inr gt ↦ rw gt (
            sink-Ascends n k (swap m (base + k) (base + k + 1)) (omega arith)
              (swapped n (base + k) m (omega arith) gt near'))
      ]

  pub insertion_sort-Ascends : (n : ℕ) (m : Memory) → Ascends n (insertion_sort cmp base n m)
  unfolding insertion_sort
  insertion_sort-Ascends zero m = λ i j x y z. absurd (omega (arith, x, y, z))
  insertion_sort-Ascends (suc n) m =
      sink-Ascends (suc n) n (insertion_sort cmp base n m) (omega arith)
        λ i j x y z ne. insertion_sort-Ascends n m i j x y (omega (arith, z, ne))

module _ (cmp : ℕ → ℕ → ℤ) (base n : ℕ) where
  sink-Frame : (k : ℕ) (m : Memory) → k < n → Frame base n m (sink cmp base k m)
  unfolding sink
  sink-Frame zero m lt = λ q. (λ a. refl, λ a. refl)
  sink-Frame (suc k) m lt =
      elim (Bool-cases (leb_ℤ (cmp (m (base + k)) (m (base + k + 1))) (pos 0))) [
        | inl le ↦ rw le (λ q. (λ a. refl, λ a. refl))
        | inr gt ↦ rw gt (
            Frame-trans base n m (swap m (base + k) (base + k + 1)) _
              (swap-Frame m base n (base + k) (base + k + 1) (omega arith) (omega arith)
                (omega arith) (omega arith))
              (sink-Frame k _ (omega arith)))
      ]

  sink-SameCounts : (k : ℕ) (m : Memory) → k < n → SameCounts base n m (sink cmp base k m)
  unfolding sink
  sink-SameCounts zero m lt = λ v. refl
  sink-SameCounts (suc k) m lt =
      elim (Bool-cases (leb_ℤ (cmp (m (base + k)) (m (base + k + 1))) (pos 0))) [
        | inl le ↦ rw le (λ v. refl)
        | inr gt ↦ rw gt (
            SameCounts-trans base n m (swap m (base + k) (base + k + 1)) _
              (swap-SameCounts m base n (base + k) (base + k + 1) (omega arith) (omega arith)
                (omega arith) (omega arith))
              (sink-SameCounts k _ (omega arith)))
      ]

  pub insertion_sort-Frame :
      (k : ℕ) (m : Memory) → k ≤ n → Frame base n m (insertion_sort cmp base k m)
  unfolding insertion_sort
  insertion_sort-Frame zero m le = λ q. (λ a. refl, λ a. refl)
  insertion_sort-Frame (suc k) m le =
      Frame-trans base n m (insertion_sort cmp base k m) _ (insertion_sort-Frame k m (omega arith))
        (sink-Frame k _ (omega arith))

  pub insertion_sort-SameCounts :
      (k : ℕ) (m : Memory) → k ≤ n → SameCounts base n m (insertion_sort cmp base k m)
  unfolding insertion_sort
  insertion_sort-SameCounts zero m le = λ v. refl
  insertion_sort-SameCounts (suc k) m le =
      SameCounts-trans base n m (insertion_sort cmp base k m) _
        (insertion_sort-SameCounts k m (omega arith)) (sink-SameCounts k _ (omega arith))

abbrev pub insertion : Library
insertion = record {
  qsort = insertion_sort;
  ascending = λ cmp base n m ord. insertion_sort-Ascends cmp ord base n m;
  same = λ cmp base n m. insertion_sort-SameCounts cmp base n n m (omega arith);
  frame = λ cmp base n m. insertion_sort-Frame cmp base n n m (omega arith);
}

-- ===== src/Parallel/Replacing.antt =====
-- Work on one task's segment, which leaves other tasks in its place, keeps the whole segment sorted but
-- for its tasks.
use computer_science.Prelude.{
  ℕ, ◌+◌, ◌-◌, ◌≤◌, ◌<◌, ◌≡◌, ◌∙◌, ap, sym, arith, ◌⊎◌, inl, inr, List, ◌∷◌, ◌++◌, Bool-cases,
}
use computer_science.Memory.{Memory}
use computer_science.Memory.Counts.{SameCounts, count, count_add, count_agree}
use computer_science.Memory.Segments.{All-SameCounts}
use computer_science.Parallel.{within}
use computer_science.Parallel.Choice.{All, Exists, Pairwise, All-map, All-append}
use computer_science.Parallel.Splitting.{Outside}
use computer_science.Parallel.Tqsort.{SortTask}
use computer_science.Parallel.Unsorted.{
  Both, Disjoint, PartOf, Unsorted, apart_left, apart_right, Exists-append_left,
  Exists-append_right, Pairwise-append,
}

-- A permutation of a part of a segment, when the rest of the segment stays what it is.
pub SameCounts-part :
    (lo n lo' n' : ℕ) (m m' : Memory)
    → lo' ≤ lo
    → lo + n ≤ lo' + n'
    → SameCounts lo n m m'
    → ((q : ℕ) → lo' ≤ q → q < lo' + n' → (q < lo) ⊎ (lo + n ≤ q) → m' q ≡ m q)
    → SameCounts lo' n' m m'
SameCounts-part lo n lo' n' m m' a b same keep v =
    let k = lo - lo' in
    let r = lo' + n' - (lo + n) in
    let start : lo' + k ≡ lo = omega arith in
    let behind : lo' + (k + n) ≡ lo + n = omega arith in
    let size : n' ≡ k + n + r = omega arith in
    let left =
      count_agree m m' lo' k v (λ i c d. sym (keep i c (omega arith) (inl (omega arith)))) in
    let right =
      count_agree m m' (lo' + (k + n)) r v
        (λ i c d. sym (keep i (omega arith) (omega arith) (inr (omega arith)))) in
    omega (
      arith,
      left,
      right,
      same v,
      ap (λ (x : ℕ). count m lo' x v) size,
      ap (λ (x : ℕ). count m' lo' x v) size,
      ap (λ (x : ℕ). count m x n v) start,
      ap (λ (x : ℕ). count m' x n v) start,
      count_add m lo' (k + n) r v,
      count_add m' lo' (k + n) r v,
      count_add m lo' k n v,
      count_add m' lo' k n v,
    )

-- What is done to the segment of `t`: the tasks `new` are left to do.
pub record Replaces (t : SortTask) (m : Memory) (new : List SortTask) (m' : Memory) : Type 0 where
  pub parts : All (PartOf t) new
  pub disjoint : Pairwise Disjoint new
  pub same : SameCounts t.base t.nele m m'
  pub order :
      (i j : ℕ) → t.base ≤ i → i < j → j < t.base + t.nele → (m' i ≤ m' j) ⊎ Exists (Both i j) new
  pub frame : (q : ℕ) → Outside t.base t.scratch_base t.nele q → m' q ≡ m q

module _ (all : SortTask) (m : Memory)
    (apart : (all.scratch_base + all.nele ≤ all.base) ⊎ (all.base + all.nele ≤ all.scratch_base))
    (t : SortTask) (rest new : List SortTask) (m1 m2 : Memory) (u : Unsorted all m (t ∷ rest) m1)
    (r : Replaces t m1 new m2) where
  -- The rest of the whole segment.
  kept :
      (q : ℕ)
      → all.base ≤ q
      → q < all.base + all.nele
      → (q < t.base) ⊎ (t.base + t.nele ≤ q)
      → m2 q ≡ m1 q
  kept q a b o = r.frame q (
    o,
    elim apart [
      | inl low ↦ inr (omega (arith, u.parts.0))
      | inr high ↦ inl (omega (arith, u.parts.0))
    ],
  )

  abbrev Order : ℕ → ℕ → Type 0
  Order i j = (m2 i ≤ m2 j) ⊎ Exists (Both i j) (new ++ rest)

  -- A pair that was in order or in another task.
  old :
      (i j : ℕ)
      → (m1 i ≤ m1 j) ⊎ Exists (Both i j) (t ∷ rest)
      → (t.base ≤ i → i < t.base + t.nele → t.base ≤ j → ¬ (j < t.base + t.nele))
      → (m1 i ≤ m1 j) ⊎ Exists (Both i j) rest
  old i j (inl le) n = inl le
  old i j (inr (inl h)) n = absurd (n h.0 h.1 h.2 h.3)
  old i j (inr (inr h)) n = inr h

  -- The first element is of the task, the second is behind it.
  behind :
      (i j : ℕ)
      → t.base ≤ i
      → i < t.base + t.nele
      → t.base + t.nele ≤ j
      → j < all.base + all.nele
      → m2 i ≤ m2 j
  behind i j a b c d =
      let bound : (k : ℕ) → t.base ≤ k → k < t.base + t.nele → m1 k ≤ m1 j = λ k e f.
        elim (old k j (u.order k j (omega (arith, u.parts.0)) (omega arith) d)
          (λ w x y z. omega arith)) [
            | inl le ↦ le
            | inr held ↦ absurd (apart_left all m t rest k j u.disjoint.0 e f held)
          ] in
      omega (
        arith,
        All-SameCounts (λ x. x ≤ m1 j) t.base t.nele m1 m2 r.same bound i a b,
        kept j (omega (arith, u.parts.0)) d (inr c),
      )

  -- The second element is of the task, the first is before it.
  before : (i j : ℕ) → all.base ≤ i → i < t.base → t.base ≤ j → j < t.base + t.nele → m2 i ≤ m2 j
  before i j a b c d =
      let bound : (k : ℕ) → t.base ≤ k → k < t.base + t.nele → m1 i ≤ m1 k = λ k e f.
        elim (old i k (u.order i k a (omega arith) (omega (arith, u.parts.0)))
          (λ w x y z. omega arith)) [
            | inl le ↦ le
            | inr held ↦ absurd (apart_right all m t rest i k u.disjoint.0 e f held)
          ] in
      omega (
        arith,
        All-SameCounts (λ x. m1 i ≤ x) t.base t.nele m1 m2 r.same bound j c d,
        kept i a (omega (arith, u.parts.0)) (inl b),
      )

  order : (i j : ℕ) → all.base ≤ i → i < j → j < all.base + all.nele → Order i j
  order i j a b c = elim (Bool-cases (within t.base t.nele i)) [
    | inl i_in ↦ elim (Bool-cases (within t.base t.nele j)) [
      | inl j_in ↦ elim (r.order i j (ground arith) b (ground arith)) [
        | inl le ↦ inl le
        | inr held ↦ inr (Exists-append_left all m (Both i j) new rest held)
      ]
      | inr j_out ↦ inl (behind i j (ground arith) (ground arith) (ground arith) c)
    ]
    | inr i_out ↦ elim (Bool-cases (within t.base t.nele j)) [
      | inl j_in ↦ inl (before i j a (ground arith) (ground arith) (ground arith))
      | inr j_out ↦ elim (old i j (u.order i j a b c) (λ w x y z. ground arith)) [
        | inl le ↦ inl (
            omega (
              arith,
              le,
              kept i a (omega arith) (ground arith),
              kept j (omega arith) c (ground arith),
            ))
        | inr held ↦ inr (Exists-append_right all m (Both i j) new rest held)
      ]
    ]
  ]

  inner :
      (q : ℕ)
      → Outside all.base all.scratch_base all.nele q
      → Outside t.base t.scratch_base t.nele q
  inner q (o, w) = (
    elim o [ inl h ↦ inl (omega (arith, u.parts.0)) | inr h ↦ inr (omega (arith, u.parts.0)) ],
    elim w [ inl h ↦ inl (omega (arith, u.parts.0)) | inr h ↦ inr (omega (arith, u.parts.0)) ],
  )

  pub Replaces-Unsorted : Unsorted all m (new ++ rest) m2
  Replaces-Unsorted = record {
    parts =
        All-append (PartOf all) new rest (All-map new (λ v p. omega (arith, p, u.parts.0)) r.parts)
          u.parts.1;
    disjoint = Pairwise-append all m new rest r.disjoint u.disjoint.1 (
        All-map new
          (λ v p.
            All-map rest
              (λ w d. elim d [ inl h ↦ inl (omega (arith, p)) | inr h ↦ inr (omega (arith, p)) ])
              u.disjoint.0)
          r.parts);
    same = λ v.
        u.same v
        ∙ SameCounts-part t.base t.nele all.base all.nele m1 m2 (omega (arith, u.parts.0))
            (omega (arith, u.parts.0)) r.same kept v;
    order = order;
    frame = λ q o. r.frame q (inner q o) ∙ u.frame q o;
  }

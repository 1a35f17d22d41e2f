-- ===== src/Parallel/Unsorted.antt =====
-- A segment that is sorted but for the segments of some tasks.
use computer_science.Prelude.{ℕ, ◌+◌, ◌≤◌, ◌<◌, ◌≡◌, arith, ◌⊎◌, inl, inr, List, [], ◌∷◌, ◌++◌}
use computer_science.Memory.{Memory}
use computer_science.Memory.Counts.{SameCounts}
use computer_science.Parallel.Pool.{choose}
use computer_science.Parallel.Choice.{
  All, Exists, Pairwise, All-append, All-choose, Exists-choose, Pairwise-choose,
}
use computer_science.Parallel.Splitting.{Outside}
use computer_science.Parallel.Tqsort.{SortTask}

-- Both elements belong to the task.
abbrev pub Both : ℕ → ℕ → SortTask → Type 0
Both i j t = (t.base ≤ i) × (i < t.base + t.nele) × (t.base ≤ j) × (j < t.base + t.nele)

abbrev pub Disjoint : SortTask → SortTask → Type 0
Disjoint t u = (t.base + t.nele ≤ u.base) ⊎ (u.base + u.nele ≤ t.base)

pub Disjoint-sym : (t u : SortTask) → Disjoint t u → Disjoint u t
Disjoint-sym t u (inl h) = inr h
Disjoint-sym t u (inr h) = inl h

-- The segment of `u`, in the array and in the scratch space, is a part of that of `t`.
abbrev pub PartOf : SortTask → SortTask → Type 0
PartOf t u =
    (t.base ≤ u.base)
    × (u.base + u.nele ≤ t.base + t.nele)
    × (u.scratch_base + t.base ≡ t.scratch_base + u.base)

-- The segment of `all` is a permutation of what it was in `m`; any two of its elements are in order,
-- or belong to one task that is still to be sorted.
pub record Unsorted (all : SortTask) (m : Memory) (ts : List SortTask) (m' : Memory) : Type 0 where
  pub parts : All (PartOf all) ts
  pub disjoint : Pairwise Disjoint ts
  pub same : SameCounts all.base all.nele m m'
  pub order :
      (i j : ℕ)
      → all.base ≤ i
      → i < j
      → j < all.base + all.nele
      → (m' i ≤ m' j) ⊎ Exists (Both i j) ts
  pub frame : (q : ℕ) → Outside all.base all.scratch_base all.nele q → m' q ≡ m q

module _ (all : SortTask) (m : Memory) where
  pub Unsorted-choose :
      (i : ℕ) (t : SortTask) (ts : List SortTask) (m' : Memory)
      → Unsorted all m (t ∷ ts) m'
      → Unsorted all m ((choose i t ts).0 ∷ (choose i t ts).1) m'
  Unsorted-choose k t ts m' s = record {
    parts = All-choose (PartOf all) k t ts s.parts;
    disjoint = Pairwise-choose Disjoint k t ts Disjoint-sym s.disjoint;
    same = s.same;
    order = λ i j a b c. elim (s.order i j a b c) [
      | inl le ↦ inl le
      | inr held ↦ inr (Exists-choose (Both i j) k t ts held)
    ];
    frame = s.frame;
  }

  -- No task but `t` has an element of `t`.
  pub apart_left :
      (t : SortTask) (ts : List SortTask) (i j : ℕ)
      → All (Disjoint t) ts
      → t.base ≤ i
      → i < t.base + t.nele
      → ¬ (Exists (Both i j) ts)
  apart_left t [] i j d a b e = e
  apart_left t (u ∷ us) i j d a b (inl h) = elim d.0 [
    | inl k ↦ omega (arith, k, h)
    | inr k ↦ omega (arith, k, h)
  ]
  apart_left t (u ∷ us) i j d a b (inr h) = apart_left t us i j d.1 a b h

  pub apart_right :
      (t : SortTask) (ts : List SortTask) (i j : ℕ)
      → All (Disjoint t) ts
      → t.base ≤ j
      → j < t.base + t.nele
      → ¬ (Exists (Both i j) ts)
  apart_right t [] i j d a b e = e
  apart_right t (u ∷ us) i j d a b (inl h) = elim d.0 [
    | inl k ↦ omega (arith, k, h)
    | inr k ↦ omega (arith, k, h)
  ]
  apart_right t (u ∷ us) i j d a b (inr h) = apart_right t us i j d.1 a b h

  pub Exists-append_left :
      (P : SortTask → Type 0) (ts us : List SortTask) → Exists P ts → Exists P (ts ++ us)
  Exists-append_left P [] us e = absurd e
  Exists-append_left P (t ∷ ts) us (inl h) = inl h
  Exists-append_left P (t ∷ ts) us (inr h) = inr (Exists-append_left P ts us h)

  pub Exists-append_right :
      (P : SortTask → Type 0) (ts us : List SortTask) → Exists P us → Exists P (ts ++ us)
  Exists-append_right P [] us e = e
  Exists-append_right P (t ∷ ts) us e = inr (Exists-append_right P ts us e)

  pub Pairwise-append :
      (ts us : List SortTask)
      → Pairwise Disjoint ts
      → Pairwise Disjoint us
      → All (λ t. All (Disjoint t) us) ts
      → Pairwise Disjoint (ts ++ us)
  Pairwise-append [] us p q r = q
  Pairwise-append (t ∷ ts) us p q r =
      (All-append (Disjoint t) ts us p.0 r.0, Pairwise-append ts us p.1 q r.1)

-- ===== src/Parallel/Threads.antt =====
-- `tqsort` sorts, whatever the schedule.
use computer_science.Prelude.{
  ℕ, ◌+◌, ◌-◌, ◌^◌, ◌≤◌, ◌<◌, ◌≡◌, refl, ap, arith, ◌⊎◌, inl, inr, List, [], ◌∷◌, ◌++◌,
  append_assoc, append-nil, Bool-cases, leb, ltb, Bool, true, false, some, if◌then◌else◌, Returns,
  Returns-bind, Returns-map,
}
use native.Mathlib.Nat.{div-le_self}
use computer_science.Memory.{Memory}
use computer_science.Memory.Counts.{SameCounts}
use computer_science.Sort.{qsort_serial}
use computer_science.Sort.Partition.{IsPartition, partition_serial-IsPartition}
use computer_science.Sort.Serial.{Sorts, Ascending, qsort_serial-Sorts}
use computer_science.Parallel.Pool.{choose, run_pool-Returns}
use computer_science.Parallel.Choice.{
  All, sum_of, All-choose, All-append, sum_of-choose, sum_of-append,
}
use computer_science.Parallel.Splitting.{Outside}
use computer_science.Parallel.Partition.{Divides, partition_parallel-Divides}
use computer_science.Parallel.Tqsort.{
  Config, SortTask, cutover, qsort_lib, partition, tqsort_helper, left_of, right_of, sort_thread,
  tqsort,
}
use computer_science.Parallel.Unsorted.{Unsorted, Unsorted-choose}
use computer_science.Parallel.Replacing.{Replaces, Replaces-Unsorted}
use computer_science.Parallel.Sorting.{
  qsort_lib-Sorts, Sorts-Replaces, short-Replaces, IsPartition-Divides, Divides-Replaces,
}

-- The scratch space does not overlap the segment.
abbrev Apart : SortTask → Type 0
Apart t = (t.scratch_base + t.nele ≤ t.base) ⊎ (t.base + t.nele ≤ t.scratch_base)

abbrev IsLong : SortTask → Type 0
IsLong t = 1 < t.nele

module _ (cfg : Config) (total : ℕ) where
  -- A segment longer than its cutover is partitioned in blocks that are not empty.
  cutover_pos :
      (nele fraction : ℕ)
      → nele ≤ total
      → cutover total fraction < nele
      → 0 < cutover total fraction
  unfolding cutover
  cutover_pos nele fraction h k = ground arith

  -- Either no segment is longer than the cutover of the parallel partition, or an `int` counts all.
  abbrev Countable : Type 0
  Countable = (total ≤ 2 ^ 31) ⊎ (cfg.serial_partition_fraction ≤ 1)

  cutover_le : (fraction : ℕ) → cutover total fraction ≤ total + 2
  unfolding cutover
  cutover_le fraction = ground (arith, div-le_self total fraction)

  cutover_one : (fraction : ℕ) → fraction ≤ 1 → cutover total fraction ≡ total
  unfolding cutover
  cutover_one fraction h = ground arith

  Countable-le :
      (nele : ℕ)
      → Countable
      → nele ≤ total
      → leb nele (cutover total cfg.serial_partition_fraction) ≡ false
      → total ≤ 2 ^ 31
  Countable-le nele (inl le) fits parallel = le
  Countable-le nele (inr one) fits parallel =
      let whole = cutover_one cfg.serial_partition_fraction one in
      absurd (ground (arith, whole, parallel, fits))

  partition-Divides :
      (t : SortTask) (m : Memory)
      → Countable
      → IsLong t
      → t.nele ≤ total
      → Apart t
      → Returns (Divides t.base t.scratch_base t.nele m) (partition cfg total t m)
  unfolding partition
  partition-Divides t m countable long fits apart =
      let limit = cutover total cfg.serial_partition_fraction in
      elim (Bool-cases (leb t.nele limit)) [
        | inl serial ↦ rw serial (
            Returns-map (IsPartition t.base t.nele m) (Divides t.base t.scratch_base t.nele m) _
              (partition_serial-IsPartition t.base t.nele m (omega arith))
              (IsPartition-Divides t.base t.scratch_base t.nele m))
        | inr parallel ↦
            let small = Countable-le t.nele countable fits parallel in
            rw parallel (
              partition_parallel-Divides cfg.sched t.base t.nele t.scratch_base limit m long
                (cutover_pos t.nele cfg.serial_partition_fraction fits (ground arith))
                (omega (arith, small, fits))
                (omega (arith, small, fits, cutover_le cfg.serial_partition_fraction)) apart)
      ]

  -- What a call on a task leaves: nothing, or the task itself.
  abbrev Left : SortTask → List SortTask → Type 0
  Left t [] = Unit
  Left t (u ∷ []) = (u ≡ t) × IsLong t
  Left t (u ∷ v ∷ us) = ⊥

  module _ (all : SortTask) (m0 : Memory) (apart : Apart all) where
    -- The task is done, or is in the pool.
    abbrev Handled : SortTask → List SortTask → Memory × List SortTask → Type 0
    Handled t rest out = Left t out.1 × Unsorted all m0 (out.1 ++ rest) out.0

    sorted-Handled :
        (t : SortTask) (rest : List SortTask) (m m' : Memory)
        → Unsorted all m0 (t ∷ rest) m
        → Replaces t m [] m'
        → Handled t rest (m', [])
    sorted-Handled t rest m m' u r = (tt, Replaces-Unsorted all m0 apart t rest [] m m' u r)

    tqsort_helper-Handled :
        (t : SortTask) (rest : List SortTask) (m : Memory)
        → (leb t.nele (cutover total cfg.serial_sort_fraction) ≡ false → IsLong t)
        → Unsorted all m0 (t ∷ rest) m
        → Returns (Handled t rest) (tqsort_helper cfg total t m)
    unfolding tqsort_helper
    tqsort_helper-Handled t rest m long u =
        elim (Bool-cases (leb t.nele (cutover total cfg.serial_sort_fraction))) [
          | inl serial ↦ rw serial (elim (Bool-cases cfg.use_qsort_lib) [
            | inl lib ↦ rw lib (
                sorted-Handled t rest m (qsort_lib cfg.lib t.base t.nele m) u
                  (Sorts-Replaces t m _ (qsort_lib-Sorts cfg.lib t.base t.nele m)))
            | inr own ↦ rw own (
                Returns-bind (Sorts t.base t.nele m) (Handled t rest) (qsort_serial t.base t.nele m)
                  _ (qsort_serial-Sorts t.base t.nele m)
                  λ m' s. sorted-Handled t rest m m' u (Sorts-Replaces t m m' s))
          ])
          | inr spawn ↦ rw spawn ((refl, long spawn), u)
        ]

    -- A side of the partition, which is skipped if it has at most one element.
    side-Handled :
        (c : Bool) (t : SortTask) (rest : List SortTask) (m : Memory)
        → (c ≡ true → IsLong t)
        → (c ≡ false → t.nele ≤ 1)
        → Unsorted all m0 (t ∷ rest) m
        → Returns (Handled t rest) (if c then tqsort_helper cfg total t m else some (m, []))
    side-Handled true t rest m big small u = tqsort_helper-Handled t rest m (λ e. big refl) u
    side-Handled false t rest m big small u =
        sorted-Handled t rest m m u (short-Replaces t m (small refl))

    front :
        (t u : SortTask) (new rest : List SortTask) (m : Memory)
        → Left u new
        → Unsorted all m0 (new ++ t ∷ rest) m
        → Unsorted all m0 (t ∷ (new ++ rest)) m
    front t u [] rest m l s = s
    front t u (a ∷ []) rest m l s = Unsorted-choose all m0 1 a (t ∷ rest) m s
    front t u (a ∷ b ∷ us) rest m l s = absurd l

    Left-IsLong : (t : SortTask) (new : List SortTask) → Left t new → All IsLong new
    Left-IsLong t [] l = tt
    Left-IsLong t (a ∷ []) l = (rw l.0 l.1, tt)
    Left-IsLong t (a ∷ b ∷ us) l = absurd l

    Left-sum_of :
        (t : SortTask) (new : List SortTask) → Left t new → sum_of (λ u. u.nele) new ≤ t.nele
    Left-sum_of t [] l = omega arith
    Left-sum_of t (a ∷ []) l = omega (arith, ap (λ (u : SortTask). u.nele) l.0)
    Left-sum_of t (a ∷ b ∷ us) l = absurd l

    abbrev work : List SortTask → ℕ
    work = sum_of (λ t. t.nele)

    record Pooled (ts : List SortTask) (m : Memory) : Type 0 where
      unsorted : Unsorted all m0 ts m
      long : All IsLong ts

    Pooled-choose :
        (i : ℕ) (t : SortTask) (ts : List SortTask) (m : Memory)
        → Pooled (t ∷ ts) m
        → Pooled ((choose i t ts).0 ∷ (choose i t ts).1) m
    Pooled-choose i t ts m p = record {
      unsorted = Unsorted-choose all m0 i t ts m p.unsorted;
      long = All-choose IsLong i t ts p.long;
    }

    -- What a task leaves in the pool.
    abbrev Stepped : SortTask → List SortTask → Memory × List SortTask → Type 0
    Stepped t rest out = Pooled (out.1 ++ rest) out.0 × (work (out.1 ++ rest) < work (t ∷ rest))

    both-Stepped :
        (t : SortTask) (rest new1 new2 : List SortTask) (k : ℕ) (m3 : Memory)
        → k < t.nele
        → All IsLong rest
        → Left (left_of t k) new1
        → Handled (right_of t k) (new1 ++ rest) (m3, new2)
        → Stepped t rest (m3, new2 ++ new1)
    both-Stepped t rest new1 new2 k m3 inside long l (r, u) = rw (append_assoc new2 new1 rest) (
      record {
        unsorted = u;
        long =
            All-append IsLong new2 (new1 ++ rest) (Left-IsLong (right_of t k) new2 r)
              (All-append IsLong new1 rest (Left-IsLong (left_of t k) new1 l) long);
      },
      omega (
        arith,
        inside,
        Left-sum_of (left_of t k) new1 l,
        Left-sum_of (right_of t k) new2 r,
        sum_of-append (λ (u : SortTask). u.nele) new2 (new1 ++ rest),
        sum_of-append (λ (u : SortTask). u.nele) new1 rest,
      ),
    )

    sort_thread-Stepped :
        Countable
        → all.nele ≤ total
        → (t : SortTask) (rest : List SortTask) (m : Memory) → Pooled (t ∷ rest) m
        → Returns (Stepped t rest) (sort_thread cfg total t m)
    unfolding sort_thread
    sort_thread-Stepped countable fits t rest m p =
        let part = p.unsorted.parts.0 in
        let apart_t : Apart t = elim apart [
          | inl h ↦ inl (omega (arith, part))
          | inr h ↦ inr (omega (arith, part))
        ] in
        Returns-bind (Divides t.base t.scratch_base t.nele m) (Stepped t rest)
          (partition cfg total t m) _
          (partition-Divides t m countable p.long.0 (omega (arith, part)) apart_t)
          λ (k, m1) d.
            let split =
              Replaces-Unsorted all m0 apart t rest (left_of t k ∷ right_of t k ∷ []) m m1
                p.unsorted (Divides-Replaces t m m1 k d) in
            Returns-bind (Handled (left_of t k) (right_of t k ∷ rest)) (Stepped t rest) _ _
              (side-Handled (ltb 1 k) (left_of t k) (right_of t k ∷ rest) m1 (λ c. ground arith)
                (λ c. ground arith) split)
              λ (m2, new1) (l, u1).
                Returns-bind (Handled (right_of t k) (new1 ++ rest)) (Stepped t rest) _ _
                  (side-Handled (ltb (k + 1) (t.nele - 1)) (right_of t k) (new1 ++ rest) m2
                    (λ c. ground arith) (λ c. ground arith)
                    (front (right_of t k) (left_of t k) new1 rest m2 l u1))
                  λ (m3, new2) h. both-Stepped t rest new1 new2 k m3 d.inside p.long.1 l h

-- The segment is ascending and a permutation of the old one; only it and the scratch space have
-- changed.
pub record SortsWith (base nele scr : ℕ) (m m' : Memory) : Type 0 where
  pub ascending : Ascending base nele m'
  pub same : SameCounts base nele m m'
  pub frame : (q : ℕ) → Outside base scr nele q → m' q ≡ m q

done-SortsWith :
    (all : SortTask) (m m' : Memory)
    → Unsorted all m [] m'
    → SortsWith all.base all.nele all.scratch_base m m'
done-SortsWith all m m' u = record {
  ascending = λ i j a b c. elim (u.order i j a b c) [ inl le ↦ le | inr held ↦ absurd held ];
  same = u.same;
  frame = u.frame;
}

start-Unsorted : (all : SortTask) (m : Memory) → Unsorted all m (all ∷ []) m
start-Unsorted all m = record {
  parts = (omega arith, tt);
  disjoint = (tt, tt);
  same = λ v. refl;
  order = λ i j a b c. inr (inl (a, omega arith, omega arith, c));
  frame = λ q o. refl;
}

spawned_long : (nele fraction : ℕ) → leb nele (cutover nele fraction) ≡ false → 1 < nele
unfolding cutover
spawned_long nele fraction h = ground arith

-- `tqsort` ends in every order of its sorting, copying and partitioning tasks, for up to 2 ^ 31 elements
-- and all tuning parameters, or any number of elements if it is not to partition in parallel, and a scratch space that does not overlap the segment: the segment
-- is ascending, a permutation of what it was, and only it and the scratch space have changed.
pub tqsort-SortsWith :
    (cfg : Config) (base nele scr : ℕ) (m : Memory)
    → (nele ≤ 2 ^ 31) ⊎ (cfg.serial_partition_fraction ≤ 1)
    → (scr + nele ≤ base) ⊎ (base + nele ≤ scr)
    → Returns (SortsWith base nele scr m) (tqsort cfg base nele scr m)
unfolding tqsort
tqsort-SortsWith cfg base nele scr m countable apart =
    let all : SortTask = record { base = base; nele = nele; scratch_base = scr } in
    Returns-bind (Handled cfg nele all m apart all []) (SortsWith base nele scr m)
      (tqsort_helper cfg nele all m) _
      (tqsort_helper-Handled cfg nele all m apart all [] m
        (spawned_long nele cfg.serial_sort_fraction) (start-Unsorted all m))
      λ (m1, new) (l, u).
        Returns-map (Pooled cfg nele all m apart []) (SortsWith base nele scr m) _
          (run_pool-Returns (Pooled cfg nele all m apart) (work cfg nele all m apart)
            (sort_thread cfg nele) (Pooled-choose cfg nele all m apart)
            (sum_of-choose (λ (t : SortTask). t.nele))
            (λ t ts s p. sort_thread-Stepped cfg nele all m apart countable (omega arith) t ts s p)
            nele cfg.sched.sorting new m1 (Left-sum_of cfg nele all m apart all new l)
            (record {
              unsorted = rw (append-nil new) at u;
              long = Left-IsLong cfg nele all m apart all new l;
            }))
          λ m' p. done-SortsWith all m m' p.unsorted

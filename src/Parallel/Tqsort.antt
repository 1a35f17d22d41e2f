-- ===== src/Parallel/Tqsort.antt =====
-- pqsort.c: `tqsort` with its tasks. The C library's `qsort` is a parameter.
use computer_science.Prelude.{
  ℕ, ◌+◌, ◌-◌, ◌/◌, ◌≤◌, ◌<◌, ◌≡◌, Bool, true, false, List, [], ◌∷◌, ◌++◌, Option, some, leb, ltb,
  ◌==◌, if◌then◌else◌, ◌>>=◌,
}
use computer_science.Prelude.Int.{ℤ, pos, negsuc, leb_ℤ}
use computer_science.Memory.{Memory}
use computer_science.Memory.Counts.{SameCounts, Frame}
use computer_science.Sort.{partition_serial, qsort_serial}
use computer_science.Parallel.{Schedule, partition_parallel}
use computer_science.Parallel.Pool.{run_pool}

-- `dcomp`, on the two values
unfoldable pub dcomp : ℕ → ℕ → ℤ
dcomp x1 x2 = if leb x2 x1 then (if x1 == x2 then pos 0 else pos 1) else negsuc 0

-- A comparison function that `qsort` may be given.
pub record IsOrdering (cmp : ℕ → ℕ → ℤ) : Type 0 where
  pub total : (x y : ℕ) → leb_ℤ (cmp x y) (pos 0) ≡ false → leb_ℤ (cmp y x) (pos 0) ≡ true
  pub trans :
      (x y z : ℕ)
      → leb_ℤ (cmp x y) (pos 0) ≡ true
      → leb_ℤ (cmp y z) (pos 0) ≡ true
      → leb_ℤ (cmp x z) (pos 0) ≡ true

-- `qsort` of the C library as it is documented: it permutes the array into ascending order.
pub record Library : Type 0 where
  pub qsort : (ℕ → ℕ → ℤ) → ℕ → ℕ → Memory → Memory
  pub ascending :
      (cmp : ℕ → ℕ → ℤ) (base nele : ℕ) (m : Memory)
      → IsOrdering cmp
      → (i j : ℕ) → base ≤ i
      → i < j
      → j < base + nele
      → leb_ℤ (cmp (qsort cmp base nele m i) (qsort cmp base nele m j)) (pos 0) ≡ true
  pub same :
      (cmp : ℕ → ℕ → ℤ) (base nele : ℕ) (m : Memory)
      → SameCounts base nele m (qsort cmp base nele m)
  pub frame :
      (cmp : ℕ → ℕ → ℤ) (base nele : ℕ) (m : Memory) → Frame base nele m (qsort cmp base nele m)

-- The tuning parameters, and what the sort calls.
pub record Config : Type 0 where
  pub use_qsort_lib : Bool
  pub serial_sort_fraction : ℕ
  pub serial_partition_fraction : ℕ
  pub lib : Library
  pub sched : Schedule

-- A cutover of `init_task`: `nele_max_sort_serial` or `nele_max_partition_serial`
unfoldable pub cutover : ℕ → ℕ → ℕ
cutover nele fraction =
    if ltb 1 fraction then (if ltb (nele / fraction) 2 then 2 else nele / fraction) else nele

unfoldable pub qsort_lib : Library → ℕ → ℕ → Memory → Memory
unfolding dcomp
qsort_lib lib base nele m = lib.qsort dcomp base nele m

-- `sort_task_t`
pub record SortTask : Type 0 where
  pub base : ℕ
  pub nele : ℕ
  pub scratch_base : ℕ

abbrev pub left_of : SortTask → ℕ → SortTask
left_of t m = record t { nele = m }

abbrev pub right_of : SortTask → ℕ → SortTask
right_of t m = record {
  base = t.base + m + 1;
  nele = t.nele - m - 1;
  scratch_base = t.scratch_base + m + 1;
}

-- `total` is the number of elements that `tqsort` was called with.
module _ (cfg : Config) (total : ℕ) where
  unfoldable pub partition : SortTask → Memory → Option (ℕ × Memory)
  unfolding cutover partition_serial partition_parallel
  partition t m =
      let limit = cutover total cfg.serial_partition_fraction in
      if leb t.nele limit
      then partition_serial t.base t.nele m
      else partition_parallel cfg.sched t.base t.nele t.scratch_base limit m

  unfoldable pub tqsort_helper : SortTask → Memory → Option (Memory × List SortTask)
  unfolding cutover qsort_lib qsort_serial
  tqsort_helper t m =
      let serial : Option (Memory × List SortTask) =
        if cfg.use_qsort_lib
        then some (qsort_lib cfg.lib t.base t.nele m, [])
        else (qsort_serial t.base t.nele m >>= λ m'. some (m', [])) in
      if leb t.nele (cutover total cfg.serial_sort_fraction) then serial else some (m, t ∷ [])

  -- The memory, and the new tasks; a pool has no order.
  unfoldable pub sort_thread : SortTask → Memory → Option (Memory × List SortTask)
  unfolding partition tqsort_helper
  sort_thread t mem = do
    (m, mem1) ← partition t mem
    (mem2, new1) ← (if ltb 1 m then tqsort_helper (left_of t m) mem1 else some (mem1, []))
    (mem3, new2) ←
        (if ltb (m + 1) (t.nele - 1) then tqsort_helper (right_of t m) mem2 else some (mem2, []))
    some (mem3, new2 ++ new1)

unfoldable pub tqsort : Config → ℕ → ℕ → ℕ → Memory → Option Memory
unfolding tqsort_helper sort_thread run_pool
tqsort cfg base nele scratch_base mem = do
  (mem1, new) ←
      tqsort_helper cfg nele (record { base = base; nele = nele; scratch_base = scratch_base }) mem
  run_pool nele cfg.sched.sorting (sort_thread cfg nele) new mem1

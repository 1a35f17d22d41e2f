-- ===== src/Sort.antt =====
-- CMU15-213/26-parallelism/pqsort/pqsort.c: the serial quicksort. A function that writes through
-- its pointers takes the memory and returns the new one. `less or equal` is the `LTE` macro without
-- LOGCOMPS, and the output under `verbose` is left out.
-- A `right` pointer of the source is held as the number `n` of elements from `left` to it, so
-- `left <= right` is `0 < n` and `right` is `left + n - 1`; no address below `base` is formed.
pub mod Sweep
pub mod Partition
pub mod Serial
use computer_science.Prelude.{
  ℕ, zero, suc, ◌+◌, ◌-◌, ◌/◌, Option, none, some, leb, ltb, ◌==◌, if◌then◌else◌, ◌>>=◌,
}
use computer_science.Memory.{Memory, swap}

-- `return base + nele/2`
abbrev pub pivot : ℕ → ℕ → ℕ
pivot base nele = base + nele / 2

-- `while (left <= right && LTE(*left, pval)) left++`: the new `left`
unfoldable pub scan_left : Memory → ℕ → ℕ → ℕ → ℕ
scan_left m pval left zero = left
scan_left m pval left (suc n) = if leb (m left) pval then scan_left m pval (left + 1) n else left

-- `while (left <= right && LTE(pval, *right)) right--`: the new number of elements
unfoldable pub scan_right : Memory → ℕ → ℕ → ℕ → ℕ
scan_right m pval left zero = 0
scan_right m pval left (suc n) = if leb pval (m (left + n)) then scan_right m pval left n else suc n

-- `while (1)` of `partition_sweep`, on fuel: the final `left`, and the memory.
unfoldable pub sweep_loop : ℕ → ℕ → ℕ → ℕ → Memory → Option (ℕ × Memory)
sweep_loop zero pval left n m = none
sweep_loop (suc fuel) pval left n m =
    let left1 = scan_left m pval left n in
    let n1 = left + n - left1 in
    let n2 = scan_right m pval left1 n1 in
    let again = sweep_loop fuel pval (left1 + 1) (n2 - 2) (swap m left1 (left1 + n2 - 1)) in
    if ltb 1 n2 then again else some (left1, m)

-- `return left - base`
unfoldable pub partition_sweep : ℕ → ℕ → ℕ → Memory → Option (ℕ × Memory)
unfolding sweep_loop scan_left scan_right swap
partition_sweep base nele pval m =
    sweep_loop (nele + 1) pval base nele m >>= λ (left, m'). some (left - base, m')

unfoldable pub partition_serial : ℕ → ℕ → Memory → Option (ℕ × Memory)
unfolding partition_sweep
partition_serial base nele m =
    let p = pivot base nele in
    let pval = m p in
    partition_sweep base (nele - 1) pval (swap m p (base + nele - 1)) >>= λ (pindex, m').
    some (pindex, swap m' (base + pindex) (base + nele - 1))

-- `qsort_serial`, on fuel for the depth of its recursion
unfoldable pub qsort_loop : ℕ → ℕ → ℕ → Memory → Option Memory
qsort_loop zero base nele mem = none
qsort_loop (suc fuel) base nele mem =
    let recur : Option Memory = do
      (m, mem1) ← partition_serial base nele mem
      mem2 ← (let left = qsort_loop fuel base m mem1 in if ltb 1 m then left else some mem1)
      let right = qsort_loop fuel (base + m + 1) (nele - m - 1) mem2
      if ltb (m + 1) (nele - 1) then right else some mem2
    in let two = if ltb (mem (base + 1)) (mem base) then swap mem base (base + 1) else mem in
      if leb nele 1 then some mem else if nele == 2 then some two else recur

unfoldable pub qsort_serial : ℕ → ℕ → Memory → Option Memory
unfolding qsort_loop partition_serial
qsort_serial base nele mem = qsort_loop (nele + 1) base nele mem

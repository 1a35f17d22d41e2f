-- ===== src/Parallel.antt =====
-- CMU15-213/26-parallelism/pqsort/pqsort.c: the parallel quicksort. The threads of a task queue are
-- a pool of tasks, run in an order that a schedule picks. A task runs as one step: outside its
-- critical section it touches only memory that no other task of the pool touches. `none` is a
-- division by zero, a loop that has run out of fuel, or a number of blocks or a product that is not an
-- `int` where the code has one. `verbose` output and LOGCOMPS are left out.
pub mod Pool
pub mod Choice
pub mod Blocks
pub mod Copying
pub mod Splitting
pub mod Meeting
pub mod Partition
pub mod Tqsort
pub mod Unsorted
pub mod Replacing
pub mod Sorting
pub mod Threads
use computer_science.Prelude.{
  ℕ, zero, suc, ◌+◌, ◌-◌, ◌*◌, ◌/◌, ◌%◌, ◌^◌, Bool, true, false, ◌&&◌, List, [], ◌∷◌, ◌++◌, Option,
  none, some, leb, ltb, ◌==◌, if◌then◌else◌, ◌>>=◌,
}
use computer_science.Memory.{Memory, swap}
use computer_science.Sort.{pivot, partition_sweep, partition_serial, qsort_serial}
use computer_science.Parallel.Pool.{run_pool}

-- The address is one of the `n` from `lo` on.
abbrev pub within : ℕ → ℕ → ℕ → Bool
within lo n q = leb lo q && ltb q (lo + n)

-- `bcopy`, which reads all before it writes.
unfoldable pub bcopy : Memory → ℕ → ℕ → ℕ → Memory
bcopy m src dest n q = if within dest n q then m (src + (q - dest)) else m q

-- A block of an array: where it starts, and how many elements it has.
pub record Block : Type 0 where
  pub start : ℕ
  pub size : ℕ

-- The blocks from number `b` on, `left` of them: `npb` elements each, the rest for the last.
unfoldable pub blocks_from : ℕ → ℕ → ℕ → ℕ → ℕ → List Block
blocks_from nele nblock npb b zero = []
blocks_from nele nblock npb b (suc left) =
    record { start = b * npb; size = if ltb b (nblock - 1) then npb else nele - b * npb }
    ∷ blocks_from nele nblock npb (b + 1) left

-- A conversion of a `size_t`, or a product, to `int`; `none` if it is too large.
unfoldable pub as_int : ℕ → Option ℕ
as_int v = if ltb v (2 ^ 31) then some v else none

-- `int nblock = (nele + block_size - 1) / block_size`, a divisor in the next line
unfoldable pub count_blocks : ℕ → ℕ → Option ℕ
unfolding as_int
count_blocks nele block_size =
    let nblock = (nele + block_size - 1) % 2 ^ 64 / block_size in
    if block_size == 0 then none else if nblock == 0 then none else as_int nblock

-- In `partition_parallel`, `npb` and the products are a `size_t`.
unfoldable pub blocks : ℕ → ℕ → Option (List Block)
unfolding blocks_from count_blocks
blocks nele block_size = count_blocks nele block_size >>= λ nblock.
    some (blocks_from nele nblock (nele / nblock) 0 nblock)

-- In `dcopy_parallel` they are an `int`.
unfoldable pub copy_blocks_from : ℕ → ℕ → ℕ → ℕ → ℕ → Option (List Block)
unfolding as_int
copy_blocks_from nele nblock npb b zero = some []
copy_blocks_from nele nblock npb b (suc left) =
    let rest = copy_blocks_from nele nblock npb (b + 1) left in
    do
      start ← as_int (b * npb)
      bs ← rest
      some (record { start = start; size = if ltb b (nblock - 1) then npb else nele - start } ∷ bs)

unfoldable pub copy_blocks : ℕ → ℕ → Option (List Block)
unfolding count_blocks copy_blocks_from as_int
copy_blocks nele block_size = do
  nblock ← count_blocks nele block_size
  npb ← as_int (nele / nblock)
  copy_blocks_from nele nblock npb 0 nblock

-- `copy_thread` on a block
unfoldable pub copy_thread : ℕ → ℕ → Block → Memory → Option (Memory × List Block)
unfolding bcopy
copy_thread src dest b m = some (bcopy m (src + b.start) (dest + b.start) b.size, [])

unfoldable pub dcopy_parallel : (ℕ → ℕ) → ℕ → ℕ → ℕ → ℕ → Memory → Option Memory
unfolding copy_blocks copy_thread run_pool
dcopy_parallel pick src dest nele block_size m =
    copy_blocks nele block_size >>= λ bs. run_pool nele pick (copy_thread src dest) bs m

-- `partition_t`, with the memory that its threads share
pub record Partitioning : Type 0 where
  pub mem : Memory
  pub next_left_index : ℕ
  pub next_right_index : ℕ

unfoldable pub partition_thread :
    ℕ → ℕ → ℕ → Block → Partitioning → Option (Partitioning × List Block)
unfolding bcopy partition_sweep
partition_thread base scratch_base pval b par = do
  (nleft, mem1) ← partition_sweep (scratch_base + b.start) b.size pval par.mem
  let nright = b.size - nleft
  let left_index = par.next_left_index
  let right_index = par.next_right_index - nright
  let mem2 = bcopy mem1 (scratch_base + b.start) (base + left_index) nleft
  let mem3 = bcopy mem2 (scratch_base + b.start + nleft) (base + right_index) nright
  some (
    record { mem = mem3; next_left_index = left_index + nleft; next_right_index = right_index },
    [],
  )

-- The orders in which the tasks run, for each call of `partition_parallel` and for the sort.
pub record Schedule : Type 0 where
  pub copying : ℕ → ℕ → ℕ → ℕ
  pub parting : ℕ → ℕ → ℕ → ℕ
  pub sorting : ℕ → ℕ

unfoldable pub partition_parallel : Schedule → ℕ → ℕ → ℕ → ℕ → Memory → Option (ℕ × Memory)
unfolding dcopy_parallel blocks partition_thread swap run_pool
partition_parallel sched base nele scratch_base block_size m = do
  let p = pivot base nele
  let pval = m p
  let last = base + nele - 1
  copied ←
      dcopy_parallel (sched.copying base nele) base scratch_base (nele - 1) block_size
        (swap m p last)
  bs ← blocks (nele - 1) block_size
  par ←
      run_pool nele (sched.parting base nele) (partition_thread base scratch_base pval) bs
        (record { mem = copied; next_left_index = 0; next_right_index = nele - 1 })
  some (par.next_left_index, swap par.mem (base + par.next_left_index) last)

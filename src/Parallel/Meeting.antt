-- ===== src/Parallel/Meeting.antt =====
-- The pool of `partition_thread`s: it ends, and both sides meet.
use computer_science.Prelude.{
  ℕ, ◌+◌, ◌-◌, ◌≤◌, ◌<◌, ◌≡◌, refl, ap, arith, ◌⊎◌, List, [], ◌∷◌, ◌++◌, length, Returns,
  Returns-bind, Returns-map,
}
use computer_science.Memory.{Memory}
use computer_science.Memory.Counts.{count, count_add}
use computer_science.Sort.{partition_sweep}
use computer_science.Sort.Sweep.{IsSplit, partition_sweep-IsSplit}
use computer_science.Parallel.{Block, Partitioning, partition_thread}
use computer_science.Parallel.Pool.{run_pool, run_pool-Returns}
use computer_science.Parallel.Choice.{sum_of, length-choose}
use computer_science.Parallel.Blocks.{
  AreBlocks, Tiles-EndsBy, Tiles-Pairwise, Tiles-sum_of, Tiles-count,
}
use computer_science.Parallel.Splitting.{
  Splitting, Splitting-choose, thread-Splitting, block_count, Outside,
}

count-nil : (m : Memory) (lo v : ℕ) → count m lo 0 v ≡ 0
unfolding count
count-nil m lo v = refl

module _ (base scr n pval : ℕ) (m : Memory) (apart : (scr + n ≤ base) ⊎ (base + n ≤ scr)) where
  partition_thread-Splitting :
      (b : Block) (bs : List Block) (par : Partitioning)
      → Splitting base scr n pval m apart (b ∷ bs) par
      → Returns
          (λ out.
            Splitting base scr n pval m apart (out.1 ++ bs) out.0
            × (length (out.1 ++ bs) < length (b ∷ bs)))
          (partition_thread base scr pval b par)
  unfolding partition_thread
  partition_thread-Splitting b bs par s =
      Returns-bind
        (λ out. IsSplit pval (scr + b.start) b.size par.mem (scr + b.start + out.0, out.1))
        (λ out.
          Splitting base scr n pval m apart (out.1 ++ bs) out.0
          × (length (out.1 ++ bs) < length (b ∷ bs)))
        (partition_sweep (scr + b.start) b.size pval par.mem) _
        (partition_sweep-IsSplit (scr + b.start) b.size pval par.mem)
        λ out split.
          (thread-Splitting base scr n pval m apart b bs par s out.0 out.1 split, omega arith)

  -- When the pool is empty, both sides meet.
  pub record Split (par : Partitioning) : Type 0 where
    pub upto : par.next_left_index ≤ n
    pub small : (i : ℕ) → i < par.next_left_index → par.mem (base + i) ≤ pval
    pub large : (i : ℕ) → par.next_left_index ≤ i → i < n → pval ≤ par.mem (base + i)
    pub counts : (v : ℕ) → count par.mem base n v ≡ count m scr n v
    pub frame : (q : ℕ) → Outside base scr n q → par.mem q ≡ m q

  met-Split : (par : Partitioning) → Splitting base scr n pval m apart [] par → Split par
  met-Split par s =
      let met : par.next_left_index ≡ par.next_right_index = omega (arith, s.room) in
      let size : n ≡ par.next_left_index + (n - par.next_left_index) = omega (arith, s.upto, met) in
      record {
        upto = omega (arith, s.upto, met);
        small = s.small;
        large = λ i lo hi. s.large i (omega (arith, met)) hi;
        counts = λ v. omega (
          arith,
          s.counts v,
          ap (λ (k : ℕ). count par.mem (base + k) (n - k) v) met,
          count_add par.mem base par.next_left_index (n - par.next_left_index) v,
          ap (λ (k : ℕ). count par.mem base k v) size,
        );
        frame = s.frame;
      }

  pub pool-Split :
      (fuel : ℕ) (pick : ℕ → ℕ) (bs : List Block)
      → AreBlocks n bs
      → n ≤ fuel
      → Returns Split (
          run_pool fuel pick
            (partition_thread base scr pval)
            bs
            (record { mem = m; next_left_index = 0; next_right_index = n }))
  pool-Split fuel pick bs a f =
      Returns-map (Splitting base scr n pval m apart []) Split _
        (run_pool-Returns (Splitting base scr n pval m apart) length
          (partition_thread base scr pval) (Splitting-choose base scr n pval m apart) length-choose
          partition_thread-Splitting fuel pick bs _ (omega (arith, a.few))
          (record {
            inside = Tiles-EndsBy 0 n bs a.tiles;
            disjoint = Tiles-Pairwise 0 n bs a.tiles;
            room = omega (arith, Tiles-sum_of 0 n bs a.tiles);
            upto = omega arith;
            small = λ i h. absurd (omega arith);
            large = λ i lo hi. absurd (omega arith);
            counts = λ v. start_counts v;
            frame = λ q o. refl;
          }))
        met-Split
    where
      none_left : n - n ≡ 0
      none_left = omega arith

      all_left : n - 0 ≡ n
      all_left = omega arith

      from_start : scr + 0 ≡ scr
      from_start = omega arith

      start_counts :
          (v : ℕ)
          → count m base 0 v + count m (base + n) (n - n) v + sum_of (block_count m scr v) bs
            ≡ count m scr n v
      start_counts v =
          let rest : count m (base + n) (n - n) v ≡ 0 = rw none_left (count-nil m (base + n) v) in
          omega (
            arith,
            rest,
            count-nil m base v,
            Tiles-count m scr 0 n bs v a.tiles,
            ap (λ (p : ℕ). count m p (n - 0) v) from_start,
            ap (λ (k : ℕ). count m scr k v) all_left,
          )

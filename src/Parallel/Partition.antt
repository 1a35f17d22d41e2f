-- ===== src/Parallel/Partition.antt =====
-- `partition_parallel` does what `partition_serial` does, with the scratch space as a second segment
-- that it writes to.
use computer_science.Prelude.{
  ℕ, ◌+◌, ◌-◌, ◌^◌, ◌≤◌, ◌<◌, ◌≡◌, ◌==◌, if◌then◌else◌, ◌∙◌, ap, sym, arith, ◌⊎◌, inl, inr, Returns,
  Returns-bind,
}
use computer_science.Memory.{Memory, swap}
use computer_science.Memory.Counts.{count, SameCounts, count_add}
use computer_science.Memory.Segments.{SameCounts-trans, swap-SameCounts, swap-Frame, swap_lem}
use computer_science.Sort.{pivot}
use computer_science.Parallel.{Schedule, Partitioning, blocks, dcopy_parallel, partition_parallel}
use computer_science.Parallel.Blocks.{AreBlocks, blocks-AreBlocks}
use computer_science.Parallel.Copying.{Copied, dcopy_parallel-Copied}
use computer_science.Parallel.Splitting.{Outside}
use computer_science.Memory.Counts.{count_shift}
use computer_science.Parallel.Meeting.{Split, pool-Split}

-- The element at `pindex` is at least all before it and at most all behind it; the segment is a
-- permutation of the old one, and only it and the scratch space have changed.
pub record Divides (base scr nele : ℕ) (m : Memory) (out : ℕ × Memory) : Type 0 where
  pub inside : out.0 < nele
  pub small : (i : ℕ) → i < out.0 → out.1 (base + i) ≤ out.1 (base + out.0)
  pub large : (i : ℕ) → out.0 < i → i < nele → out.1 (base + out.0) ≤ out.1 (base + i)
  pub same : SameCounts base nele m out.1
  pub frame : (q : ℕ) → Outside base scr nele q → out.1 q ≡ m q

module _ (base scr nele : ℕ) (m : Memory) (long : 1 < nele)
    (apart : (scr + nele ≤ base) ⊎ (base + nele ≤ scr)) where
  abbrev p : ℕ
  p = pivot base nele

  abbrev last : ℕ
  last = base + nele - 1

  abbrev n : ℕ
  n = nele - 1

  pub narrow : (scr + n ≤ base) ⊎ (base + n ≤ scr)
  narrow = elim apart [ inl h ↦ inl (omega arith) | inr h ↦ inr (omega arith) ]

  -- Around the pool: the pivot waits at the end, and comes back to where the sides meet.
  module _ (copied : Memory) (c : Copied base scr n (swap m p last) copied) (par : Partitioning)
      (s : Split base scr n (m p) copied narrow par) where
    abbrev after : Memory
    after = swap par.mem (base + par.next_left_index) last

    last-Outside : Outside base scr n last
    last-Outside =
        (inr (omega arith), elim apart [ inl h ↦ inr (omega arith) | inr h ↦ inl (omega arith) ])

    waits : par.mem last ≡ m p
    waits =
        s.frame last last-Outside
        ∙ c.frame last last-Outside.1
        ∙ ground (arith, swap_lem m p last last)

    back :
        (q : ℕ)
        → after q ≡ (
            if last == q
            then par.mem (base + par.next_left_index)
            else if base + par.next_left_index == q
            then par.mem last
            else par.mem q)
    back q = swap_lem par.mem (base + par.next_left_index) last q

    same_middle : SameCounts base nele (swap m p last) par.mem
    same_middle v =
        let size : nele ≡ n + 1 = omega arith in
        let end : base + n ≡ last = omega arith in
        let kept : (k : ℕ) → k < 1 → swap m p last (base + n + k) ≡ par.mem (base + n + k) = λ k h.
          let here : last ≡ base + n + k = omega arith in
          ap (swap m p last) (sym here)
          ∙ ground (arith, swap_lem m p last last)
          ∙ sym waits
          ∙ ap par.mem here in
        omega (
          arith,
          ap (λ (k : ℕ). count (swap m p last) base k v) size,
          ap (λ (k : ℕ). count par.mem base k v) size,
          count_add (swap m p last) base n 1 v,
          count_add par.mem base n 1 v,
          s.counts v,
          count_shift copied (swap m p last) scr base n v c.moved,
          count_shift (swap m p last) par.mem (base + n) (base + n) 1 v kept,
        )

    outer : (q : ℕ) → Outside base scr nele q → Outside base scr n q
    outer q (o, r) = (
      elim o [ inl h ↦ inl h | inr h ↦ inr (omega arith) ],
      elim r [ inl h ↦ inl h | inr h ↦ inr (omega arith) ],
    )

    -- An exchange inside the segment.
    swap-Outside :
        (k : Memory) (i j q : ℕ)
        → base ≤ i
        → i < base + nele
        → base ≤ j
        → j < base + nele
        → Outside base scr nele q
        → swap k i j q ≡ k q
    swap-Outside k i j q a b c d o =
        let f = swap-Frame k base nele i j a b c d q in elim o.0 [ inl h ↦ f.0 h | inr h ↦ f.1 h ]

    divided : Divides base scr nele m (par.next_left_index, after)
    divided = record {
      inside = omega (arith, s.upto);
      small = λ i h.
          ground
            (arith, back (base + i), back (base + par.next_left_index), s.small i, waits, s.upto);
      large = λ i lo hi. ground (
        arith,
        back (base + i),
        back (base + par.next_left_index),
        s.large i,
        s.large par.next_left_index,
        waits,
      );
      same =
          SameCounts-trans base nele m (swap m p last) after
            (swap-SameCounts m base nele p last (omega arith) (omega arith) (omega arith)
              (omega arith))
            (SameCounts-trans base nele (swap m p last) par.mem after same_middle (
              swap-SameCounts par.mem base nele (base + par.next_left_index) last (omega arith)
                (omega (arith, s.upto)) (omega arith) (omega arith)));
      frame = λ q o.
          swap-Outside par.mem (base + par.next_left_index) last q (omega arith)
            (omega (arith, s.upto)) (omega arith) (omega arith) o
          ∙ s.frame q (outer q o)
          ∙ c.frame q (outer q o).1
          ∙ swap-Outside m p last q (omega arith) (omega arith) (omega arith) (omega arith) o;
    }

-- `partition_parallel` ends in every order of its copying and partitioning tasks, for every segment of
-- two to 2 ^ 31 elements, scratch space that does not overlap it, and every block size but zero with
-- which the number of elements adds up to no more than 2 ^ 64. It
-- returns the index of an element that is at least all elements before it and at most all behind it,
-- in a permutation of the segment, and changes nothing but the segment and the scratch space.
pub partition_parallel-Divides :
    (sched : Schedule) (base nele scr block_size : ℕ) (m : Memory)
    → 1 < nele
    → 0 < block_size
    → nele ≤ 2 ^ 31
    → nele + block_size ≤ 2 ^ 64
    → (scr + nele ≤ base) ⊎ (base + nele ≤ scr)
    → Returns (Divides base scr nele m) (partition_parallel sched base nele scr block_size m)
unfolding partition_parallel
partition_parallel-Divides sched base nele scr block_size m long sized small room apart =
    let n = nele - 1 in
    let m1 = swap m (pivot base nele) (base + nele - 1) in
    Returns-bind (Copied base scr n m1) (Divides base scr nele m)
      (dcopy_parallel (sched.copying base nele) base scr n block_size m1) _
      (dcopy_parallel-Copied (sched.copying base nele) base scr n block_size m1 (omega arith) sized
        (omega (arith, small, long)) (omega (arith, room)) (narrow base scr nele m long apart))
      λ copied c.
        Returns-bind (AreBlocks n) (Divides base scr nele m) (blocks n block_size) _
          (blocks-AreBlocks n block_size (omega arith) sized (omega (arith, small, long))
            (omega (arith, room)))
          λ bs a.
            Returns-bind
              (Split base scr n (m (pivot base nele)) copied (narrow base scr nele m long apart))
              (Divides base scr nele m) _ _
              (pool-Split base scr n (m (pivot base nele)) copied
                (narrow base scr nele m long apart) nele (sched.parting base nele) bs a
                (omega arith))
              λ par s. divided base scr nele m long apart copied c par s

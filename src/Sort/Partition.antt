-- ===== src/Sort/Partition.antt =====
-- `partition_serial` puts the pivot where it belongs.
use computer_science.Prelude.{ℕ, ◌+◌, ◌-◌, ◌≤◌, ◌<◌, ◌≡◌, arith, Returns, Returns-bind}
use computer_science.Memory.{Memory, swap}
use computer_science.Memory.Counts.{SameCounts, Frame}
use computer_science.Memory.Segments.{
  SameCounts-trans, Frame-trans, SameCounts-widen, Frame-widen, swap-SameCounts, swap-Frame,
  swap_lem,
}
use computer_science.Sort.{pivot, partition_sweep, partition_serial}
use computer_science.Sort.Sweep.{IsSplit, partition_sweep-IsSplit}

-- The element at `pindex` is at least all before it and at most all behind it; the segment is a
-- permutation of the old one, and the memory outside it is the old one.
pub record IsPartition (base nele : ℕ) (m : Memory) (out : ℕ × Memory) : Type 0 where
  pub inside : out.0 < nele
  pub small : (i : ℕ) → base ≤ i → i < base + out.0 → out.1 i ≤ out.1 (base + out.0)
  pub large : (i : ℕ) → base + out.0 < i → i < base + nele → out.1 (base + out.0) ≤ out.1 i
  pub same : SameCounts base nele m out.1
  pub frame : Frame base nele m out.1

-- The sweep runs between two exchanges with the last element, where the pivot waits.
placed-IsPartition :
    (base nele p q : ℕ) (m m2 : Memory)
    → 0 < nele
    → base ≤ p
    → p < base + nele
    → IsSplit (m p) base (nele - 1) (swap m p (base + nele - 1)) (base + q, m2)
    → IsPartition base nele m (q, swap m2 (base + q) (base + nele - 1))
placed-IsPartition base nele p q m m2 pos a b s =
    let last = base + nele - 1 in
    let m1 = swap m p last in
    let m3 = swap m2 (base + q) last in
    let before = swap_lem m p last in
    let after = swap_lem m2 (base + q) last in
    let waits : m2 last ≡ m p = ground (arith, before last, (s.frame last).1) in
    record {
      inside = omega (arith, s.upto);
      small = λ i c d. ground (arith, after i, after (base + q), s.small i, waits, s.upto);
      large =
          λ i c d. ground (arith, after i, after (base + q), s.large i, s.large (base + q), waits);
      same =
          SameCounts-trans base nele m m1 m3
            (swap-SameCounts m base nele p last a b (omega arith) (omega arith))
            (SameCounts-trans base nele m1 m2 m3
              (SameCounts-widen base (nele - 1) base nele m1 m2 (omega arith) (omega arith) s.frame
                s.same)
              (swap-SameCounts m2 base nele (base + q) last (omega arith) (omega (arith, s.upto))
                (omega arith) (omega arith)));
      frame =
          Frame-trans base nele m m1 m3
            (swap-Frame m base nele p last a b (omega arith) (omega arith))
            (Frame-trans base nele m1 m2 m3
              (Frame-widen base (nele - 1) base nele m1 m2 (omega arith) (omega arith) s.frame)
              (swap-Frame m2 base nele (base + q) last (omega arith) (omega (arith, s.upto))
                (omega arith) (omega arith)));
    }

-- `partition_serial` ends on every segment that is not empty, and returns the index of an element
-- that is at least all elements before it and at most all behind it, in a permutation of the
-- segment; it writes nowhere else.
pub partition_serial-IsPartition :
    (base nele : ℕ) (m : Memory)
    → 0 < nele
    → Returns (IsPartition base nele m) (partition_serial base nele m)
unfolding partition_serial
partition_serial-IsPartition base nele m pos =
    let p = pivot base nele in
    let m1 = swap m p (base + nele - 1) in
    Returns-bind (λ out. IsSplit (m p) base (nele - 1) m1 (base + out.0, out.1))
      (IsPartition base nele m) (partition_sweep base (nele - 1) (m p) m1) _
      (partition_sweep-IsSplit base (nele - 1) (m p) m1)
      λ out s. placed-IsPartition base nele p out.0 m out.1 pos (omega arith) (omega arith) s
